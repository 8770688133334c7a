-- ===== src/Service/Presence/Rules.antt =====
-- When the service announces that it is online, and how often.
use ironsoft.Prelude.{
  ℕ, ◌+◌, ◌-◌, ◌≤◌, ◌≡◌, ◌⊎◌, inl, inr, refl, Bool, true, false, not, ◌∷◌, if◌then◌else◌, arith,
  Bool-cases,
}
use ironsoft.Text.{Text}
use ironsoft.Service.State.{Service, mono_ms_of}
use ironsoft.Service.Steps.{
  Order, Steps, Steps-pure, Steps-throw, Steps-gets, Steps-ask, Steps-bind, Steps-modify, Steps-if,
}
use ironsoft.Service.Exec.{
  Context, skip, gets, ask, modify, pure, throw, ◌>>=◌, publish, mono_ms, steady_now, unix_ts,
}
use ironsoft.Service.Health.{clip, rest_offline_condition}
use ironsoft.Service.Publish.{
  rate_limited, defer_presence, emit_presence, publish_presence, presence_message,
}
use ironsoft.Service.Presence.{should_online, update_presence_state}

-- An action that does not take the service online.
abbrev StaysOffline : Service → Service → Type 0
StaysOffline s t = s.link.presence_online ≡ false → t.link.presence_online ≡ false

StaysOffline-Order : Order StaysOffline
StaysOffline-Order = record {
  refl_of = λ s h. h;
  trans_of = λ s t u f g h. g (f h);
  tick_of = λ s h. h;
}

module _ {V : Type 0} (c : Context V) where
  open c use {setup, env}

  abbrev k : Order StaysOffline
  k = StaysOffline-Order

  publish_offline-StaysOffline :
      (reason : Text) → Steps StaysOffline (publish_presence c false reason)
  unfolding publish_presence defer_presence emit_presence mono_ms steady_now unix_ts publish
  publish_offline-StaysOffline reason =
      Steps-bind k (Steps-bind k (Steps-ask k _) λ now. Steps-pure k _) λ now_ms.
        Steps-bind k (Steps-gets k _) λ limited. Steps-bind k (Steps-gets k _) λ connected.
          Steps-if _ (Steps-bind k (Steps-ask k _) λ ts. Steps-modify _ λ s h. refl) (
            Steps-if _ (Steps-pure k _) (
              Steps-bind k (Steps-ask k _) λ ts. Steps-bind k (Steps-modify _ λ s h. h) λ _.
                Steps-bind k (Steps-gets k _) λ payload.
                  Steps-bind k
                    (Steps-bind k (Steps-ask k _)
                      λ accepted. Steps-if accepted (Steps-modify _ λ s h. h) (Steps-throw k _))
                    λ _. Steps-modify _ λ s h. refl))

  -- What it takes to go online.
  pub record Ready (now_ms : ℕ) (s : Service) : Type 0 where
    connected : s.link.connected ≡ true
    rest_online : rest_offline_condition setup s now_ms ≡ false
    successes : 2 ≤ s.rest.rest_success_streak

  decision_means :
      (now_ms : ℕ) (s : Service)
      → s.link.presence_online ≡ false
      → should_online setup now_ms s ≡ true
      → Ready now_ms s
  unfolding should_online
  decision_means now_ms s off h = ground arith

  decided-Ready :
      (online : Bool) (now_ms : ℕ) (reason : Text) (s : Service)
      → should_online setup now_ms s ≡ online
      → s.link.presence_online ≡ false
      → (publish_presence c online reason s).1.link.presence_online ≡ true
      → Ready now_ms s
  decided-Ready true now_ms reason s e off on = decision_means now_ms s off e
  decided-Ready false now_ms reason s e off on =
      let still = (publish_offline-StaysOffline reason).at s off in absurd (cc)

  -- The service goes from offline to online only while it is connected to the broker, the REST API is
  -- not offline, and at least two REST calls in a row succeeded.
  pub update_presence_state-Ready :
      (now_ms : ℕ) (reason : Text) (s : Service)
      → s.link.presence_online ≡ false
      → (update_presence_state c now_ms reason s).1.link.presence_online ≡ true
      → Ready now_ms s
  unfolding update_presence_state gets ◌>>=◌
  update_presence_state-Ready now_ms reason s off on =
      decided-Ready (should_online setup now_ms s) now_ms _ s refl off on

  -- The last announcement said the other thing, there was none, or it is two seconds ago.
  abbrev pub Due : Bool → ℕ → Service → Type 0
  Due online now_ms s =
      (s.link.presence_online ≡ not online)
      ⊎ ((s.link.last_presence_emit_ts_ms ≡ 0) ⊎ (2000 ≤ now_ms - s.link.last_presence_emit_ts_ms))

  rate_limited-Due :
      (online : Bool) (now_ms : ℕ) (s : Service)
      → rate_limited online now_ms s ≡ false
      → Due online now_ms s
  unfolding rate_limited
  rate_limited-Due true now_ms s h = ground arith
  rate_limited-Due false now_ms s h = ground arith

  -- What was sent is what was sent before, or one presence message more, which is due.
  abbrev pub SentOnce : Bool → Text → Service → Service → Type 0
  SentOnce online reason s t =
      (t.sent ≡ s.sent)
      ⊎ ((ts : ℕ) × ((t.sent
              ≡ presence_message c
                  (record { online = online; reason = clip reason; timestamp = ts })
                ∷ s.sent)
            × ((s.link.connected ≡ true) × Due online (mono_ms_of (env.steady_ns s.tick)) s)))

  emit-sent :
      (online : Bool) (reason : Text) (now_ms : ℕ) (s : Service)
      → let t = (emit_presence c online reason now_ms s).1 in
        (t.sent ≡ s.sent)
        ⊎ ((ts : ℕ) × (t.sent
              ≡ presence_message c (record { online = online; reason = reason; timestamp = ts })
                ∷ s.sent))
  unfolding emit_presence unix_ts publish gets ask modify throw ◌>>=◌
  emit-sent online reason now_ms s = elim (Bool-cases (env.publishes (s.tick + 1))) [
    | inl e ↦ inr (env.unix_s s.tick, simp e)
    | inr e ↦ inl (simp e)
  ]

  branch-SentOnce :
      (connected limited online : Bool) (reason : Text) (now_ms : ℕ) (s : Service)
      → let t =
          ((if not connected
              then defer_presence c online reason
              else if limited
              then skip
              else emit_presence c online reason now_ms)
            s).1 in
        (t.sent ≡ s.sent)
        ⊎ ((ts : ℕ) × ((t.sent
                ≡ presence_message c (record { online = online; reason = reason; timestamp = ts })
                  ∷ s.sent)
              × ((connected ≡ true) × (limited ≡ false))))
  unfolding defer_presence unix_ts ask modify pure ◌>>=◌
  branch-SentOnce false limited online reason now_ms s = inl refl
  branch-SentOnce true true online reason now_ms s = inl refl
  branch-SentOnce true false online reason now_ms s = elim (emit-sent online reason now_ms s) [
    | inl same ↦ inl same
    | inr (ts, grown) ↦ inr (ts, (grown, (refl, refl)))
  ]

  -- Announcing a state sends nothing, or one message: the state with its reason made plain. It is sent
  -- only while the service is connected, and where the last announcement said the other thing, there
  -- was none yet, or it is at least two seconds ago.
  pub publish_presence-SentOnce :
      (online : Bool) (reason : Text) (s : Service)
      → SentOnce online reason s (publish_presence c online reason s).1
  unfolding publish_presence mono_ms steady_now gets ask pure ◌>>=◌ rate_limited
  publish_presence-SentOnce online reason s =
      let now_ms = mono_ms_of (env.steady_ns s.tick) in
      let t = record s { tick = s.tick + 1 } in
      elim (branch-SentOnce s.link.connected (rate_limited online now_ms t) online (clip reason)
        now_ms t) [
          | inl same ↦ inl same
          | inr (ts, (grown, (connected, free))) ↦
              inr (ts, (grown, (connected, rate_limited-Due online now_ms s free)))
        ]
