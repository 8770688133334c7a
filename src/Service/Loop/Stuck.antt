-- ===== src/Service/Loop/Stuck.antt =====
-- A connection whose first publication throws.
use ironsoft.Prelude.{
  ℕ, ◌+◌, ◌≤◌, ◌<◌, ◌≡◌, refl, ◌∙◌, sym, ap, subst, Bool, true, false, some, ltb, if◌then◌else◌,
  arith, Bool-cases, inl, inr,
}
use ironsoft.Text.{Text, lit, is_empty}
use ironsoft.Types.{ServiceState, disconnected, connecting}
use ironsoft.Service.State.{Service, TimePoint, mono_ms_of}
use ironsoft.Service.Yields.{
  Returned, Yields, Yields-bind, Yields-weaken, Yields-modify, Yields-known, Yields-branch,
  Yields-fact,
}
use ironsoft.Service.Exec.{
  expect, Context, Exec, Outcome, done, thrown, mqtt_failure, json_failure, handle, continue, skip,
  gets, ask, modify, pure, throw, ◌>>=◌, ◌>>◌, catch_mqtt, mono_ms, steady_now, unix_ts, publish,
}
use ironsoft.Service.Health.{set_state, rest_offline_condition, rest_age_ms}
use ironsoft.Service.Publish.{publish_presence, emit_presence, rate_limited}
use ironsoft.Service.Presence.{should_online, presence_reason, update_presence_state}
use ironsoft.Service.Loop.{
  attempt_or, subscribe, establish, connect_once, with_connection, with_attempt, attempt_connection,
  ensure_connection,
}

-- The action threw after the service took itself to be connected.
abbrev Broken : {A : Type 0} → Outcome A × Service → Type 0
Broken r = (r.0 ≡ thrown mqtt_failure) × (r.1.link.connected ≡ true)

module _ {A B : Type 0} where
  returned-Broken :
      (m : Exec A) (f : A → Exec B) (s t : Service) (a : A)
      → m s ≡ (done a, t)
      → Broken (f a t)
      → Broken ((m >>= f) s)
  unfolding ◌>>=◌
  returned-Broken m f s t a e broken = subst (λ r. Broken (continue r.0 f r.1)) (sym e) broken

  thrown-Broken : (m : Exec A) (f : A → Exec B) (s : Service) → Broken (m s) → Broken ((m >>= f) s)
  unfolding ◌>>=◌
  thrown-Broken m f s (e, up) = continued (m s) e up
    where
      continued :
          (r : Outcome A × Service)
          → r.0 ≡ thrown mqtt_failure
          → r.1.link.connected ≡ true
          → Broken (continue r.0 f r.1)
      continued (done a, t) e up = cc
      continued (thrown f, t) e up = (cc, up)

module _ {V : Type 0} (c : Context V) where
  open c use {setup, env}

  module _ (accepts : (n : ℕ) → env.connects n ≡ true)
      (subscribed : (n : ℕ) → env.subscribes n ≡ true) (from : ℕ)
      (refused : (n : ℕ) → n < from + 8 → env.publishes n ≡ false) where
    subscribe-done :
        (topic : Text) (s : Service)
        → (n : ℕ) × (n ≤ s.tick + 1) × (subscribe c topic s ≡ (done tt, record s { tick = n }))
    unfolding subscribe expect pure ask throw ◌>>=◌
    subscribe-done topic s = elim (Bool-cases (is_empty topic)) [
      | inl e ↦ (s.tick, omega arith, simp e)
      | inr e ↦ (s.tick + 1, omega arith, simp (e, subscribed s.tick))
    ]

    -- The members as `establish` leaves them in front of the announcement.
    abbrev announced_from : ℕ → ℕ → Service → Service
    announced_from next tick s =
        let t = with_connection next s in
        record t { tick = tick; status = record (t.status) { state = connecting } }

    announce-Broken :
        (now_ms next tick : ℕ) (s : Service)
        → tick + 2 < from + 8
        → Broken (update_presence_state c now_ms (lit "connecting") (announced_from next tick s))
    unfolding update_presence_state should_online presence_reason rest_offline_condition rest_age_ms
        with_connection publish_presence emit_presence rate_limited mono_ms steady_now unix_ts
        publish gets ask modify pure throw ◌>>=◌
    announce-Broken now_ms next tick s early =
        let off = refused (tick + 1 + 1) (omega (arith, early)) in (simp off, simp off)

    expect-done : (s : Service) → expect env.connects s ≡ (done tt, record s { tick = s.tick + 1 })
    unfolding expect pure ask throw ◌>>=◌
    expect-done s = simp (accepts s.tick)

    set_state-done :
        (state : ServiceState) (s : Service)
        → set_state state s ≡ (done tt, record s { status = record (s.status) { state = state } })
    unfolding set_state modify
    set_state-done state s = refl

    modify-done : (f : Service → Service) (s : Service) → modify f s ≡ (done tt, f s)
    unfolding modify
    modify-done f s = refl

    mono_ms-done :
        (s : Service)
        → mono_ms c s ≡ (done (mono_ms_of (env.steady_ns s.tick)), record s { tick = s.tick + 1 })
    unfolding mono_ms steady_now ask pure ◌>>=◌
    mono_ms-done s = refl

    establish-Broken : (s : Service) → s.tick ≡ from → Broken (establish c s)
    unfolding establish with_connection
    establish-Broken s at =
        let s1 = record s { status = record (s.status) { state = connecting } } in
        let s2 = record s1 { tick = s.tick + 1 } in
        let (n, n_le, cmd) = subscribe-done setup.topics.cmd s2 in
        let s3 = record s2 { tick = n } in
        let (l, l_le, legacy) = subscribe-done setup.topics.cmd_legacy s3 in
        let s4 = record s3 { tick = l } in
        returned-Broken _ _ s s1 tt (set_state-done connecting s) (
          returned-Broken _ _ s1 s2 tt (expect-done s1) (
            returned-Broken _ _ s2 s3 tt cmd (
              returned-Broken _ _ s3 s4 tt legacy (
                returned-Broken _ _ s4 _ _ (mono_ms-done s4) (
                  returned-Broken _ _ _ _ tt (modify-done _ _) (
                    returned-Broken _ _ _ _ tt (set_state-done connecting _) (
                      returned-Broken _ _ _ _ _ (mono_ms-done _) (
                        thrown-Broken _ _ _ (
                          announce-Broken _ _ _ (record s4 { tick = l + 1 })
                            (omega (arith, n_le, l_le, at)))))))))))

    -- The members say that the service is connected, and its state that it is not.
    abbrev Stuck : Service → Type 0
    Stuck s = (s.link.connected ≡ true) × (s.status.state ≡ disconnected)

    abbrev give_up : Exec Bool
    give_up = do set_state disconnected; pure false

    handled :
        (r : Outcome Bool × Service)
        → Broken r
        → (t : Service) × (handle r.0 give_up r.1 ≡ (done false, t)) × Stuck t
    unfolding set_state modify pure ◌>>=◌
    handled (done a, t) (e, up) = cc
    handled (thrown mqtt_failure, t) (e, up) =
        (record t { status = record (t.status) { state = disconnected } }, refl, (up, refl))
    handled (thrown json_failure, t) (e, up) = cc

    connect_once-Stuck :
        (s : Service)
        → s.tick ≡ from
        → (t : Service) × (connect_once c s ≡ (done false, t)) × Stuck t
    unfolding connect_once catch_mqtt
    connect_once-Stuck s at = handled (establish c s) (establish-Broken s at)

    attempt-Stuck :
        (now : TimePoint) (s : Service)
        → s.tick ≡ from
        → Returned (attempt_connection c now s).0 × Stuck (attempt_connection c now s).1
    unfolding attempt_connection with_attempt modify ◌>>=◌
    attempt-Stuck now s at =
        let (t, e, stuck) = connect_once-Stuck s at in
        subst
          (λ r.
            let u = continue r.0 (λ succeeded. modify (with_attempt setup now succeeded)) r.1 in
            Returned u.0 × Stuck u.1)
          (sym e) (tt, stuck)

    module _ (now due : TimePoint) (late : due ≤ now) where
      abbrev D : Service → Type 0
      D s =
          (s.link.connected ≡ false) × (s.link.next_reconnect_attempt ≡ some due) × (s.tick ≡ from)

      chosen-Stuck :
          (connected : Bool) (at : TimePoint)
          → connected ≡ false
          → at ≡ due
          → Yields D Stuck (
              if connected then skip else (do
                modify λ s. record s { link = record (s.link) { next_reconnect_attempt = some at } }
                if ltb now at then skip else attempt_connection c now))
      chosen-Stuck connected at off e = rw off (
          Yields-bind {Q = λ s. s.tick ≡ from} (Yields-modify _ λ s h. h.2) λ _.
            Yields-branch (ltb now at) (λ early. absurd (ground arith))
              λ reached. record { at = λ s h. attempt-Stuck now s h })

      ensure_connection-Stuck : Yields D Stuck (ensure_connection c now)
      unfolding ensure_connection
      ensure_connection-Stuck = Yields-known _ λ connected.
          Yields-weaken {P' = λ s. D s × (connected ≡ false)} (λ s h. (h.0, sym h.1 ∙ h.0.0))
            (Yields-fact λ off. Yields-known _ λ at.
              Yields-weaken {P' = λ s. D s × (at ≡ due)}
                (λ s h. (h.0, sym h.1 ∙ ap (attempt_or now) h.0.1))
                (Yields-fact λ e. chosen-Stuck connected at off e))

  -- No attempt is made by a service that takes itself to be connected.
  connected-waits :
      (later : TimePoint) (s : Service)
      → s.link.connected ≡ true
      → ensure_connection c later s ≡ (done tt, s)
  unfolding ensure_connection gets pure ◌>>=◌
  connected-waits later s connected = simp connected

  -- Where the broker accepts the connection and the subscriptions, and the MQTT client throws at a
  -- publication among the next eight calls into the environment, whatever it does after them: an
  -- attempt that is due returns and leaves the service with the state disconnected, while its members
  -- say that it is connected. In every state with such members, at any time, ensure_connection does
  -- nothing: no attempt is made until something else clears the member.
  pub ensure_connection-stuck :
      ((n : ℕ) → env.connects n ≡ true)
      → ((n : ℕ) → env.subscribes n ≡ true)
      → (now due : TimePoint) (s : Service) → ((n : ℕ) → n < s.tick + 8 → env.publishes n ≡ false)
      → s.link.connected ≡ false
      → s.link.next_reconnect_attempt ≡ some due
      → due ≤ now
      → let t = (ensure_connection c now s).1 in
        Returned (ensure_connection c now s).0
        × (t.link.connected ≡ true)
        × (t.status.state ≡ disconnected)
        × ((later : TimePoint) (u : Service)
            → u.link.connected ≡ true
            → ensure_connection c later u ≡ (done tt, u))
  ensure_connection-stuck accepts subscribed now due s refused off next late =
      let (returned, (up, state)) =
        (ensure_connection-Stuck accepts subscribed s.tick refused now due late).at s
          (off, next, refl) in
      (returned, up, state, connected-waits)
