-- ===== src/Service/Loop/Shutdown.antt =====
-- What follows the loop of `run` in services/ekinox/src/ekinox_service.cpp.
use ironsoft.Prelude.{
  ℕ, ◌+◌, ◌-◌, ◌<◌, ◌≤◌, ◌≡◌, ◌⊎◌, inl, inr, refl, Bool, true, false, List, ◌∷◌, if◌then◌else◌,
  arith, Bool-cases, ap, subst, sym, ◌∙◌,
}
use ironsoft.Text.{lit}
use ironsoft.Types.{ServiceState, disconnected}
use ironsoft.Service.State.{Service, Message, StatusPayload, Link, mono_ms_of}
use ironsoft.Service.Yields.{
  Returned, Yields, Yields-pure, Yields-gets, Yields-ask, Yields-bind, Yields-modify, Yields-if,
  Yields-weaken, Yields-known,
}
use ironsoft.Service.Exec.{Context, skip, modify, ◌>>◌, mono_ms, steady_now, unix_ts}
use ironsoft.Service.Health.{clip, set_state, update_link_health, with_link_health}
use ironsoft.Service.Publish.{
  rate_limited, publish_presence, presence_message, publish_status, status_message,
}
use ironsoft.Service.Sensor.{handle_sensor_disconnect, clear_rx_timeout_error, set_udp_link_alive}
use ironsoft.Service.Invariant.{Inv}
use ironsoft.Service.Loop.Leaving.{
  farewell, presence-again, presence-now, status-now, disconnect-now,
}
use ironsoft.Service.Loop.{with_disconnection, disconnect, shutdown}

module _ {V : Type 0} (c : Context V) where
  open c use {setup, env}

  -- The same was announced less than two seconds before a clock that is read from now on.
  pub record Repeated (from : ℕ) (link : Link) : Type 0 where
    offline : link.presence_online ≡ false
    emitted : 0 < link.last_presence_emit_ts_ms
    tick : ℕ
    later : from ≤ tick
    recent : mono_ms_of (env.steady_ns tick) - link.last_presence_emit_ts_ms < 2000

  -- The announcement of the shutdown, unless it repeats one, and then a status without a link, with
  -- this state.
  abbrev pub Farewell : ℕ → Link → ServiceState → List Message → List Message → Type 0
  Farewell from link state before after =
      (status : StatusPayload) × (status.link_alive ≡ false)
      × (status.state ≡ state)
      × (((ts : ℕ) × (after
              ≡ status_message c status
                ∷ presence_message c
                    (record { online = false; reason = clip (lit "shutdown"); timestamp = ts })
                ∷ before))
          ⊎ (Repeated from link × (after ≡ status_message c status ∷ before)))

  abbrev Off : ServiceState → Service → Type 0
  Off state s =
      (s.link.connected ≡ true)
      × (s.sensor.sensor_connected ≡ false)
      × (s.status.link_alive ≡ false)
      × (s.status.state ≡ state)

  abbrev Announced : ℕ → Link → List Message → Service → Type 0
  Announced from link before s =
      ((ts : ℕ) × (s.sent
          ≡ presence_message c
              (record { online = false; reason = clip (lit "shutdown"); timestamp = ts })
            ∷ before))
      ⊎ (Repeated from link × (s.sent ≡ before))

  limited-Repeated :
      (from : ℕ) (s : Service)
      → from ≤ s.tick
      → rate_limited false (mono_ms_of (env.steady_ns s.tick)) s ≡ true
      → Repeated from s.link
  unfolding rate_limited
  limited-Repeated from s later h = record {
    offline = ground arith;
    emitted = ground arith;
    tick = s.tick;
    later = later;
    recent = ground arith;
  }

  module _ (from : ℕ) (link : Link) (state : ServiceState) (before : List Message) where
    abbrev Same : Service → Type 0
    Same s = (s.link ≡ link) × (s.sent ≡ before) × (s.status.state ≡ state) × (from ≤ s.tick)

    abbrev Parted : Service → Type 0
    Parted s = Off state s × Same s

    clear_rx_timeout_error-Same : Yields Same Same (clear_rx_timeout_error c)
    unfolding clear_rx_timeout_error unix_ts
    clear_rx_timeout_error-Same = Yields-bind (Yields-gets _) λ active.
        Yields-if _ (Yields-pure _) (
          Yields-bind {Q = Same} (Yields-modify _ λ s h. h) λ _.
            Yields-bind (Yields-gets _) λ shown.
              Yields-if shown
                (Yields-bind {P = Same} {Q = Same} (Yields-ask _ λ s h. ground arith)
                  λ ts. Yields-modify _ λ s h. h)
                (Yields-pure _))

    abbrev Unlinked : Service → Type 0
    Unlinked s = Same s × ((s.sensor.sensor_connected ≡ false) × (s.status.link_alive ≡ false))

    abbrev Closed : Service → Type 0
    Closed s = Same s × (s.sensor.sensor_connected ≡ false)

    handle_sensor_disconnect-Unlinked : Yields Same Unlinked (handle_sensor_disconnect c)
    unfolding handle_sensor_disconnect set_udp_link_alive update_link_health with_link_health
        mono_ms steady_now
    handle_sensor_disconnect-Unlinked =
        Yields-bind
          (Yields-bind {Q = Same} (Yields-modify _ λ s h. h) λ _. clear_rx_timeout_error-Same)
          λ _. Yields-bind {Q = Closed} (Yields-modify _ λ s h. (h, refl)) λ _.
            Yields-bind
              (Yields-bind {Q = Closed} (Yields-modify _ λ s h. h) λ _.
                Yields-bind {Q = Closed}
                  (Yields-bind {P = Closed} {Q = Closed} (Yields-ask _ λ s h. ground arith)
                    λ now. Yields-pure _)
                  λ now_ms. Yields-modify _ λ s h. (h.0, (h.1, ground arith)))
              λ _.
                Yields-bind {P = Unlinked} {Q = Unlinked} (Yields-ask _ λ s h. ground arith)
                  λ now. Yields-modify _ λ s h. h

    sensor-Unlinked :
        (b : Bool)
        → Yields
            (λ s. (Inv setup s × Same s) × (s.sensor.sensor_connected ≡ b))
            Unlinked
            (if b then handle_sensor_disconnect c else skip)
    sensor-Unlinked true = Yields-weaken (λ s h. h.0.1) handle_sensor_disconnect-Unlinked
    sensor-Unlinked false =
        Yields-weaken
          (λ s h.
            let unlinked : s.status.link_alive ≡ false =
              (let alive = h.0.0.link_connected in ground arith) in
            (h.0.1, (h.1, unlinked)))
          (Yields-pure _)

    -- What the announcement leaves, and what the status leaves.
    abbrev Told : Service → Type 0
    Told s = Off state s × Announced from link before s

    abbrev Reported : Service → Type 0
    Reported s =
        (s.link.connected ≡ true)
        × (s.sensor.sensor_connected ≡ false)
        × Farewell from link state before s.sent

    abbrev pub Ended : Service → Type 0
    Ended s =
        (s.link.connected ≡ false)
        × (s.status.state ≡ disconnected)
        × (s.status.link_alive ≡ false)
        × (s.sensor.sensor_connected ≡ false)
        × Farewell from link state before s.sent

    module _ (on : link.connected ≡ true) (up : (n : ℕ) → env.publishes n ≡ true)
        (down : (n : ℕ) → env.disconnects n ≡ true) where
      still_on : (s : Service) → s.link ≡ link → s.link.connected ≡ true
      still_on s same = ap (λ l. l.connected) same ∙ on

      presence-Told : Yields Unlinked Told (publish_presence c false (lit "shutdown"))
      unfolding rate_limited
      presence-Told = record {
        at = λ s h.
            let connected = still_on s h.0.0 in
            let now_ms = mono_ms_of (env.steady_ns s.tick) in
            let off : Off state s = (connected, h.1.0, h.1.1, h.0.2) in
            elim (Bool-cases (rate_limited false now_ms (record s { tick = s.tick + 1 }))) [
              | inl e ↦
                  subst (λ r. Returned r.0 × Told r.1) (sym (presence-again c s connected e))
                    (
                      tt,
                      (
                        off,
                        inr (subst (Repeated from) h.0.0 (limited-Repeated from s h.0.3 e), h.0.1),
                      ),
                    )
              | inr e ↦
                  subst (λ r. Returned r.0 × Told r.1)
                    (sym (presence-now c s connected e (up (s.tick + 1 + 1))))
                    (
                      tt,
                      (
                        off,
                        inl (
                          env.unix_s (s.tick + 1),
                          ap (λ l. farewell c (env.unix_s (s.tick + 1)) ∷ l) h.0.1,
                        ),
                      ),
                    )
            ];
      }

      last-Farewell :
          (s : Service)
          → Off state s
          → Announced from link before s
          → Farewell from link state before (status_message c s.status ∷ s.sent)
      last-Farewell s off (inl (ts, sent)) =
          (s.status, off.2, off.3, inl (ts, ap (λ l. status_message c s.status ∷ l) sent))
      last-Farewell s off (inr (repeated, sent)) =
          (s.status, off.2, off.3, inr (repeated, ap (λ l. status_message c s.status ∷ l) sent))

      status-Reported : Yields Told Reported (publish_status c)
      status-Reported = record {
        at = λ s h.
            subst (λ r. Returned r.0 × Reported r.1) (sym (status-now c up s h.0.0))
              (tt, (h.0.0, h.0.1, last-Farewell s h.0 h.1));
      }

      disconnect-Ended : Yields Reported Ended (disconnect c)
      unfolding with_disconnection set_state modify
      disconnect-Ended = record {
        at = λ s h.
            subst (λ r. Returned r.0 × Ended r.1) (sym (disconnect-now c down s h.0))
              (tt, (refl, refl, refl, h.1, h.2));
      }

      goodbye-Ended :
          (b : Bool)
          → Yields
              (λ s. Unlinked s × (s.link.connected ≡ b))
              Ended
              (if b
                then (do publish_presence c false (lit "shutdown"); publish_status c; disconnect c)
                else skip)
      goodbye-Ended true =
          Yields-weaken (λ s h. h.0)
            (Yields-bind presence-Told λ _. Yields-bind status-Reported λ _. disconnect-Ended)
      goodbye-Ended false = record { at = λ s h. let connected = still_on s h.0.0.0 in absurd (cc) }

      shutdown-Ends : Yields (λ s. Inv setup s × Same s) Ended (shutdown c)
      unfolding shutdown
      shutdown-Ends = Yields-known _ λ sensor.
          Yields-bind (sensor-Unlinked sensor)
            λ _. Yields-known _ λ connected. goodbye-Ended connected

  -- Where the MQTT client accepts every message and every disconnect, and the invariant holds, the end
  -- of `run` over a live connection returns. It leaves the service disconnected, its state too, with no
  -- sensor and no link. Its last message was a status without a link, which shows the state in which the
  -- service was before, and not that it is disconnected; in front of that it announced that the service is offline because of the shutdown, unless it had announced that it is
  -- offline less than two seconds before. Nothing else was sent.
  pub shutdown-Ended :
      ((n : ℕ) → env.publishes n ≡ true)
      → ((n : ℕ) → env.disconnects n ≡ true)
      → (s : Service) → Inv setup s
      → s.link.connected ≡ true
      → Returned (shutdown c s).0 × Ended s.tick s.link s.status.state s.sent (shutdown c s).1
  shutdown-Ended up down s h on =
      (shutdown-Ends s.tick s.link s.status.state s.sent on up down).at s
        (h, (refl, refl, refl, omega arith))
