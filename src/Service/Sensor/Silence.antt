-- ===== src/Service/Sensor/Silence.antt =====
-- How many polls of a silent sensor close its session.
use ironsoft.Prelude.{
  ℕ, suc, ◌+◌, ◌<◌, ◌≤◌, ◌≡◌, ◌⊎◌, inl, inr, refl, Bool, true, false, not, ◌&&◌, Option, none, List,
  [], ◌∷◌, All, ltb, leb, if◌then◌else◌, arith, length, ◌∙◌, sym, ap, subst,
}
use ironsoft.Prelude.Int.{pos_part}
use ironsoft.Text.{Text, lit}
use ironsoft.Udp.{UdpSession, poll, poll_error, last_rx_age_ms}
use ironsoft.Service.State.{Service, TimePoint, mono_ms_of}
use ironsoft.Service.Yields.{
  Returned, Yields, Yields-pure, Yields-gets, Yields-ask, Yields-bind, Yields-modify, Yields-if,
  Yields-weaken, Yields-known, Yields-branch, Yields-fact, Yields-asked, Yields-after,
}
use ironsoft.Service.Exec.{Context, Action, modify, skip, ◌>>◌, unix_ts}
use ironsoft.Service.Health.{int_max, bump, update_link_health, with_link_health, set_error}
use ironsoft.Service.Sensor.{
  handle_sensor_rx_timeout, poll_sensor, after_poll, poll_session, recording_now, set_sensor,
  handle_sensor_disconnect, fail_threshold,
}
use ironsoft.Service.Sensor.Closing.{IsMarked, GivenUp, handle_sensor_disconnect-GivenUp}

module _ {V : Type 0} (c : Context V) where
  open c use {setup, env}

  -- One poll in each round.
  abbrev pub polls : List TimePoint → Action
  polls [] = skip
  polls (now ∷ rest) = do poll_sensor c now; polls rest

  -- Nothing came in for longer than the timeout.
  abbrev pub IsLate : UdpSession → TimePoint → Type 0
  IsLate u now =
      setup.config.timeouts.udp_rx_timeout_ms < pos_part (last_rx_age_ms u (mono_ms_of now))

  -- The session `u` is open, the device does not record, and `k` polls in a row found nothing.
  abbrev pub Open : UdpSession → ℕ → Service → Type 0
  Open u k s =
      (s.sensor.sensor_connected ≡ true)
      × (s.sensor.udp_session ≡ u)
      × (s.sensor.rx_fail_streak ≡ k)
      × (s.sensor.sensor_reconnect_needed ≡ false)
      × (recording_now s ≡ false)

  abbrev pub Waiting : UdpSession → ℕ → Service → Type 0
  Waiting u k s = Open u k s × IsMarked c s

  abbrev pub After : UdpSession → ℕ → Service → Type 0
  After u k s = ((k < fail_threshold c) × Waiting u k s) ⊎ ((fail_threshold c ≤ k) × GivenUp c s)

  set_error-Waiting :
      (u : UdpSession) (k : ℕ) → Yields (Open u k) (Waiting u k) (set_error c (lit "rx timeout"))
  unfolding set_error unix_ts recording_now
  set_error-Waiting u k = Yields-bind {Q = Open u k} (Yields-modify _ λ s h. h) λ _.
      Yields-bind {Q = Open u k} (Yields-ask _ λ s h. h) λ ts. Yields-modify _ λ s h. (h, λ e. e)

  module _ (u : UdpSession) (k : ℕ) (bounded : fail_threshold c ≤ int_max)
      (early : k < fail_threshold c) where
    abbrev W : Service → Type 0
    W = Waiting u (k + 1)

    counted : (s : Service) → Waiting u k s → bump s.sensor.rx_fail_streak ≡ k + 1
    unfolding bump
    counted s h = let streak = h.0.2 in ground arith

    count : Yields (Waiting u k) W (
        modify (
          set_sensor λ x. record x {
            rx_fail_streak = bump x.rx_fail_streak;
            rx_ok_streak = 0;
            udp_link_alive = false;
          }))
    unfolding recording_now
    count = Yields-modify _ λ s h. ((h.0.0, h.0.1, counted s h, h.0.3, h.0.4), h.1)

    -- What follows the count of a silent poll.
    judge-After :
        (streak : ℕ) (active : Bool)
        → streak ≡ k + 1
        → Yields W (After u (k + 1)) (
            (if leb (fail_threshold c) streak && not active
              then set_error c (lit "rx timeout")
              else skip)
            >> (if ltb streak (fail_threshold c) then skip else handle_sensor_disconnect c))
    judge-After streak active e =
        Yields-bind
          (Yields-if (leb (fail_threshold c) streak && not active)
            (Yields-weaken (λ s h. h.0) (set_error-Waiting u (k + 1))) (Yields-pure _))
          λ _.
            Yields-branch (ltb streak (fail_threshold c))
              (λ below. Yields-weaken (λ s h. inl (ground arith, h)) (Yields-pure _))
              λ reached.
                Yields-weaken (λ s h. h.1)
                  (Yields-after (λ s h. inr (ground arith, h)) (handle_sensor_disconnect-GivenUp c))

    timeout-After :
        (now_ms : ℕ)
        → Yields (Waiting u k) (After u (k + 1)) (handle_sensor_rx_timeout c false now_ms)
    unfolding handle_sensor_rx_timeout update_link_health with_link_health recording_now
    timeout-After now_ms = Yields-bind count λ _.
        Yields-bind {Q = W} (Yields-modify _ λ s h. h) λ _. Yields-known _ λ streak.
          Yields-weaken {P' = λ s. W s × (streak ≡ k + 1)} (λ s h. (h.0, sym h.1 ∙ h.0.0.2))
            (Yields-fact λ e. Yields-bind (Yields-gets _) λ active. judge-After streak active e)

    after_poll-After :
        (now : TimePoint)
        → IsLate u now
        → Yields (Waiting u k) (After u (k + 1)) (after_poll c (mono_ms_of now) false u none)
    after_poll-After now late =
        Yields-branch
          (leb (pos_part (last_rx_age_ms u (mono_ms_of now)))
            setup.config.timeouts.udp_rx_timeout_ms)
          (λ e. absurd (ground arith)) λ e. timeout-After (mono_ms_of now)

    module _ (opened : u.connected ≡ true) (silent : (n : ℕ) → (env.sbg_poll n).received ≡ none)
        (well : (n : ℕ) → poll_error (env.sbg_poll n).status ≡ none) where
      poll_silent : (n : ℕ) → poll (env.sbg_poll n) u ≡ (u, none)
      unfolding poll
      poll_silent n = simp (opened, silent n, well n)

      adopted :
          (now : TimePoint) (r : UdpSession × Option Text)
          → IsLate u now
          → r ≡ (u, none)
          → Yields (Waiting u k) (After u (k + 1)) (
              modify (set_sensor λ x. record x { udp_session = r.0 })
              >> after_poll c (mono_ms_of now) false r.0 r.1)
      unfolding recording_now
      adopted now r late e =
          subst
            (λ x. Yields (Waiting u k) (After u (k + 1)) (
              modify (set_sensor λ y. record y { udp_session = x.0 })
              >> after_poll c (mono_ms_of now) false x.0 x.1))
            (sym e)
            (Yields-bind {Q = Waiting u k}
              (Yields-modify _ λ s h. ((h.0.0, refl, h.0.2, h.0.3, h.0.4), h.1))
              λ _. after_poll-After now late)

      poll_session-After :
          (now : TimePoint)
          → IsLate u now
          → Yields (Waiting u k) (After u (k + 1)) (poll_session c (mono_ms_of now) false)
      unfolding recording_now
      poll_session-After now late =
          Yields-asked _ _ (λ s h. h)
            λ n. Yields-known _ λ v.
              Yields-weaken {P' = λ s. Waiting u k s × (v ≡ u)} (λ s h. (h.0, sym h.1 ∙ h.0.0.1))
                (Yields-fact λ e. adopted now _ late (ap (poll (env.sbg_poll n)) e ∙ poll_silent n))

      chosen-After :
          (now : TimePoint) (connected flag needed : Bool)
          → IsLate u now
          → connected ≡ true
          → flag ≡ false
          → needed ≡ false
          → Yields (Waiting u k) (After u (k + 1)) (
              if not connected
              then skip
              else if needed && not flag
              then (modify (set_sensor λ x. record x { sensor_reconnect_needed = false })
                  >> handle_sensor_disconnect c)
              else poll_session c (mono_ms_of now) flag)
      chosen-After now connected flag needed late up idle undeferred =
          rw (up, idle, undeferred) (poll_session-After now late)

      poll_sensor-After :
          (now : TimePoint)
          → IsLate u now
          → Yields (Waiting u k) (After u (k + 1)) (poll_sensor c now)
      unfolding poll_sensor
      poll_sensor-After now late = Yields-known _ λ connected.
          Yields-weaken {P' = λ s. Waiting u k s × (connected ≡ true)}
            (λ s h. (h.0, sym h.1 ∙ h.0.0.0))
            (Yields-fact λ up. Yields-known _ λ flag.
              Yields-weaken {P' = λ s. Waiting u k s × (flag ≡ false)}
                (λ s h. (h.0, sym h.1 ∙ h.0.0.4))
                (Yields-fact λ idle. Yields-known _ λ needed.
                  Yields-weaken {P' = λ s. Waiting u k s × (needed ≡ false)}
                    (λ s h. (h.0, sym h.1 ∙ h.0.0.3))
                    (Yields-fact λ undeferred.
                      chosen-After now connected flag needed late up idle undeferred)))

  module _ (u : UdpSession) (bounded : fail_threshold c ≤ int_max) (opened : u.connected ≡ true)
      (silent : (n : ℕ) → (env.sbg_poll n).received ≡ none)
      (well : (n : ℕ) → poll_error (env.sbg_poll n).status ≡ none) where
    no_more : (k : ℕ) → k ≡ k + 0
    no_more k = omega arith

    one_more : (k n : ℕ) → k + 1 + n ≡ k + suc n
    one_more k n = omega arith

    rest-After :
        (rest : List TimePoint) (k : ℕ)
        → k + length rest ≤ fail_threshold c
        → (k < fail_threshold c → Yields (Waiting u k) (After u (k + length rest)) (polls rest))
        → Yields (After u k) (After u (k + length rest)) (polls rest)
    rest-After [] k le more =
        subst (λ n. Yields (After u k) (After u n) skip) (no_more k) (Yields-pure _)
    rest-After (now ∷ rest) k le more = record {
      at = λ s h. elim h [
        | inl (early, waiting) ↦ (more early).at s waiting
        | inr (reached, given) ↦ absurd (ground arith)
      ];
    }

    polls-After :
        (nows : List TimePoint) (k : ℕ)
        → k < fail_threshold c
        → k + length nows ≤ fail_threshold c
        → All (IsLate u) nows
        → Yields (Waiting u k) (After u (k + length nows)) (polls nows)
    polls-After [] k early le late =
        subst (λ n. Yields (Waiting u k) (After u n) skip) (no_more k)
          (Yields-after (λ s h. inl (early, h)) (Yields-pure _))
    polls-After (now ∷ rest) k early le late =
        let le' : k + 1 + length rest ≤ fail_threshold c = (omega (arith, le)) in
        Yields-bind (poll_sensor-After u k bounded early opened silent well now late.0) λ _.
          subst (λ n. Yields (After u (k + 1)) (After u n) (polls rest)) (one_more k (length rest))
            (rest-After rest (k + 1) le' λ e. polls-After rest (k + 1) e le' late.1)

    -- While the device does not record, sbgECom brings nothing and reports no error, the threshold is
    -- in the range of int, and the error of a receive timeout is shown only where it is active: a sensor
    -- that is silent for longer than the timeout keeps its session until as many polls in a row as the
    -- threshold says found nothing; the poll with which they are that many closes the session, with no
    -- link left. No poll throws, and after the last one no error tells that there was a receive timeout.
    pub polls-GivenUp :
        (nows : List TimePoint) (k : ℕ) (s : Service)
        → k < fail_threshold c
        → k + length nows ≤ fail_threshold c
        → All (IsLate u) nows
        → Waiting u k s
        → Returned (polls nows s).0 × After u (k + length nows) (polls nows s).1
    polls-GivenUp nows k s early le late waiting = (polls-After nows k early le late).at s waiting
