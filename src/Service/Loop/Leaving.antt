-- ===== src/Service/Loop/Leaving.antt =====
-- The calls at the end of `run` over a live connection, one by one.
use ironsoft.Prelude.{ℕ, ◌+◌, ◌≡◌, true, false, ◌∷◌}
use ironsoft.Text.{lit}
use ironsoft.Types.{disconnected}
use ironsoft.Service.State.{Service, Message, mono_ms_of}
use ironsoft.Service.Exec.{
  expect, Context, done, thrown, mqtt_failure, throw, gets, ask, modify, pure, ◌>>=◌, publish,
  mono_ms, steady_now, unix_ts, catch_mqtt,
}
use ironsoft.Service.Health.{clip, set_state}
use ironsoft.Service.Publish.{
  rate_limited, emit_presence, publish_presence, presence_message, publish_status, status_message,
}
use ironsoft.Service.Loop.{with_disconnection, disconnect}

module _ {V : Type 0} (c : Context V) where
  open c use {setup, env}

  abbrev pub farewell : ℕ → Message
  farewell ts =
      presence_message c (record { online = false; reason = clip (lit "shutdown"); timestamp = ts })

  pub presence-again :
      (s : Service)
      → s.link.connected ≡ true
      → rate_limited false (mono_ms_of (env.steady_ns s.tick)) (record s { tick = s.tick + 1 })
        ≡ true
      → publish_presence c false (lit "shutdown") s ≡ (done tt, record s { tick = s.tick + 1 })
  unfolding publish_presence mono_ms steady_now gets ask pure ◌>>=◌
  presence-again s connected e = simp (connected, e)

  pub presence-now :
      (s : Service)
      → s.link.connected ≡ true
      → rate_limited false (mono_ms_of (env.steady_ns s.tick)) (record s { tick = s.tick + 1 })
        ≡ false
      → env.publishes (s.tick + 1 + 1) ≡ true
      → publish_presence c false (lit "shutdown") s ≡ (
        done tt,
        record s {
          tick = s.tick + 1 + 1 + 1;
          sent = farewell (env.unix_s (s.tick + 1)) ∷ s.sent;
          presence = record {
            online = false;
            reason = clip (lit "shutdown");
            timestamp = env.unix_s (s.tick + 1);
          };
          link = record (s.link) {
            presence_online = false;
            last_presence_ts = env.unix_s (s.tick + 1);
            last_presence_emit_ts_ms = mono_ms_of (env.steady_ns s.tick);
          };
        },
      )
  unfolding publish_presence emit_presence mono_ms steady_now unix_ts publish gets ask modify pure
      ◌>>=◌
  presence-now s connected e accepted = simp (connected, e, accepted)

  pub presence-fails :
      (s : Service)
      → s.link.connected ≡ true
      → rate_limited false (mono_ms_of (env.steady_ns s.tick)) (record s { tick = s.tick + 1 })
        ≡ false
      → env.publishes (s.tick + 1 + 1) ≡ false
      → (publish_presence c false (lit "shutdown") s).0 ≡ thrown mqtt_failure
  unfolding publish_presence emit_presence mono_ms steady_now unix_ts publish gets ask modify pure
      throw ◌>>=◌
  presence-fails s connected e refused = simp (connected, e, refused)

  module _ (up : (n : ℕ) → env.publishes n ≡ true) where
    pub status-now :
        (s : Service)
        → s.link.connected ≡ true
        → publish_status c s
          ≡ (done tt, record s { tick = s.tick + 1; sent = status_message c s.status ∷ s.sent })
    unfolding publish_status publish gets ask modify pure ◌>>=◌
    status-now s connected = simp (connected, up s.tick)

  pub disconnect-now :
      ((n : ℕ) → env.disconnects n ≡ true)
      → (s : Service) → s.link.connected ≡ true
      → disconnect c s ≡ (
        done tt,
        (set_state disconnected (with_disconnection (record s { tick = s.tick + 1 }))).1,
      )
  unfolding disconnect expect with_disconnection set_state catch_mqtt gets ask modify pure ◌>>=◌
  disconnect-now down s connected = simp (connected, down s.tick)
