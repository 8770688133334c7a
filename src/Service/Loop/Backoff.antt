-- ===== src/Service/Loop/Backoff.antt =====
-- The backoff of a service whose broker refuses every connection.
use ironsoft.Prelude.{
  ℕ, suc, ◌+◌, ◌<◌, ◌^◌, ◌≤◌, ◌≡◌, refl, ◌∙◌, sym, ap, subst, Bool, true, false, some, List, [],
  ◌∷◌, ltb, if◌then◌else◌, arith, ◌⊎◌, inl, inr,
}
use ironsoft.Types.{disconnected}
use ironsoft.Service.State.{Service, TimePoint, Message, milliseconds}
use ironsoft.Service.Yields.{
  Returned, Yields, Yields-pure, Yields-bind, Yields-weaken, Yields-modify, Yields-known,
  Yields-branch, Yields-fact, Yields-after,
}
use ironsoft.Service.Exec.{
  expect, Context, Action, done, skip, gets, ask, modify, pure, throw, ◌>>=◌, ◌>>◌, catch_mqtt,
}
use ironsoft.Service.Health.{set_state}
use ironsoft.Service.Sensor.{next_backoff}
use ironsoft.Service.Loop.Doubling.{backoff_after, backoff_after-next, next_backoff-le}
use ironsoft.Service.Loop.{
  establish, attempt_or, connect_once, with_attempt, attempt_connection, ensure_connection,
}

module _ {V : Type 0} (c : Context V) where
  open c use {setup, env}

  module _ (refused : (n : ℕ) → env.connects n ≡ false) where
    attempt-refused :
        (now : TimePoint) (s : Service)
        → attempt_connection c now s ≡ (
          done tt,
          with_attempt setup now false
              (record s { tick = s.tick + 1; status = record (s.status) { state = disconnected } }),
        )
    unfolding attempt_connection connect_once establish expect set_state catch_mqtt gets ask modify
        pure throw ◌>>=◌
    attempt-refused now s = simp (refused s.tick)

  -- One call of `ensure_connection` in each round.
  abbrev pub retries : List TimePoint → Action
  retries [] = skip
  retries (now ∷ rest) = do ensure_connection c now; retries rest

  abbrev limit_ms : ℕ
  limit_ms = setup.config.timeouts.reconnect_backoff_max_ms

  -- The service is down with this backoff, and its next attempt is not before `due`; `calls` calls into
  -- the environment were made, and `sent` was sent.
  abbrev pub IsDown : ℕ → TimePoint → ℕ → List Message → Service → Type 0
  IsDown backoff due calls sent s =
      (s.link.connected ≡ false)
      × (s.link.current_backoff_ms ≡ backoff)
      × (s.link.next_reconnect_attempt ≡ some due)
      × (s.tick ≡ calls)
      × (s.sent ≡ sent)

  -- How many of these rounds come when an attempt is due, where every attempt fails.
  unfoldable pub attempts : ℕ → TimePoint → List TimePoint → ℕ
  attempts backoff due [] = 0
  attempts backoff due (now ∷ rest) =
      let later = next_backoff backoff limit_ms in
      let waited = attempts backoff due rest in
      let tried = attempts later (now + milliseconds later) rest in
      if ltb now due then waited else suc tried

  module _ (backoff : ℕ) (due now : TimePoint) (rest : List TimePoint) where
    abbrev later_ms : ℕ
    later_ms = next_backoff backoff limit_ms

    attempts-early :
        ltb now due ≡ true → attempts backoff due (now ∷ rest) ≡ attempts backoff due rest
    unfolding attempts
    attempts-early e = rw e refl

    attempts-late :
        ltb now due ≡ false
        → attempts backoff due (now ∷ rest)
          ≡ suc (attempts later_ms (now + milliseconds later_ms) rest)
    unfolding attempts
    attempts-late e = rw e refl

  module _ (refused : (n : ℕ) → env.connects n ≡ false) (sent : List Message) where
    module _ (backoff : ℕ) (due : TimePoint) (calls : ℕ) where
      abbrev D : Service → Type 0
      D = IsDown backoff due calls sent

      abbrev next_ms : ℕ
      next_ms = next_backoff backoff limit_ms

      abbrev Tried : TimePoint → Service → Type 0
      Tried now = IsDown next_ms (now + milliseconds next_ms) (calls + 1) sent

      attempt-Tried : (now : TimePoint) → Yields D (Tried now) (attempt_connection c now)
      unfolding with_attempt
      attempt-Tried now = record {
        at = λ s h.
            let grown = ap (λ b. next_backoff b limit_ms) h.1 in
            subst (λ r. Returned r.0 × Tried now r.1) (sym (attempt-refused refused now s))
              (
                tt,
                (h.0, grown, ap (λ b. some (now + milliseconds b)) grown, ap (λ n. n + 1) h.3, h.4),
              );
      }

      module _ (now : TimePoint) (Q : Service → Type 0)
          (tries : due ≤ now → (s : Service) → Tried now s → Q s)
          (waits : now < due → (s : Service) → D s → Q s) where
        chosen-Tried :
            (connected : Bool) (at : TimePoint)
            → connected ≡ false
            → at ≡ due
            → Yields D Q (
                if connected then skip else (do
                  modify
                      λ s. record s { link = record (s.link) { next_reconnect_attempt = some at } }
                  if ltb now at then skip else attempt_connection c now))
        chosen-Tried connected at off e = rw off (
            Yields-bind {Q = D} (Yields-modify _ λ s h. (h.0, h.1, ap some e, h.3, h.4)) λ _.
              Yields-branch (ltb now at)
                (λ early. Yields-after (waits (ground arith)) (Yields-pure _))
                λ late. Yields-after (tries (ground arith)) (attempt-Tried now))

        ensure_connection-Tried : Yields D Q (ensure_connection c now)
        unfolding ensure_connection
        ensure_connection-Tried = Yields-known _ λ connected.
            Yields-weaken {P' = λ s. D s × (connected ≡ false)} (λ s h. (h.0, sym h.1 ∙ h.0.0))
              (Yields-fact λ off. Yields-known _ λ at.
                Yields-weaken {P' = λ s. D s × (at ≡ due)}
                  (λ s h. (h.0, sym h.1 ∙ ap (attempt_or now) h.0.2))
                  (Yields-fact λ e. chosen-Tried connected at off e))

    -- The attempts so far, and when the next one is due.
    abbrev pub Retried : ℕ → ℕ → ℕ → Service → Type 0
    Retried backoff n calls s =
        (due : TimePoint) × IsDown (backoff_after backoff limit_ms n) due (calls + n) sent s

    abbrev First : ℕ → TimePoint → ℕ → TimePoint → Service → Type 0
    First backoff due calls now s =
        ((ltb now due ≡ true) × IsDown backoff due calls sent s)
        ⊎ ((ltb now due ≡ false) × Tried backoff due calls now s)

    none_yet :
        (backoff : ℕ) (due : TimePoint)
        → backoff ≡ backoff_after backoff limit_ms (attempts backoff due [])
    unfolding attempts
    none_yet backoff due = refl

    no_calls : (calls backoff : ℕ) (due : TimePoint) → calls ≡ calls + attempts backoff due []
    unfolding attempts
    no_calls calls backoff due = omega arith

    one_more :
        (backoff n calls : ℕ) (s : Service)
        → backoff < 2 ^ 30
        → Retried (next_backoff backoff limit_ms) n (calls + 1) s
        → Retried backoff (suc n) calls s
    one_more backoff n calls s small (due, h) =
        (due, (h.0, h.1 ∙ backoff_after-next backoff limit_ms n small, h.2, h.3 ∙ omega arith, h.4))

    retries-Retried :
        limit_ms < 2 ^ 30
        → (nows : List TimePoint) (backoff : ℕ) (due : TimePoint) (calls : ℕ) → backoff < 2 ^ 30
        → Yields
            (IsDown backoff due calls sent)
            (Retried backoff (attempts backoff due nows) calls)
            (retries nows)
    retries-Retried fits [] backoff due calls small =
        Yields-after
          (λ s h.
            (due, (h.0, h.1 ∙ none_yet backoff due, h.2, h.3 ∙ no_calls calls backoff due, h.4)))
          (Yields-pure _)
    retries-Retried fits (now ∷ rest) backoff due calls small =
        let later = next_backoff backoff limit_ms in
        Yields-bind {Q = First backoff due calls now}
          (ensure_connection-Tried backoff due calls now _ (λ late s h. inr (ground arith, h))
            (λ early s h. inl (ground arith, h)))
          λ _. record {
            at = λ s h. elim h [
              | inl (early, down) ↦
                  subst
                    (λ n. Returned (retries rest s).0 × Retried backoff n calls (retries rest s).1)
                    (sym (attempts-early backoff due now rest early))
                    ((retries-Retried fits rest backoff due calls small).at s down)
              | inr (late, tried) ↦
                  subst
                    (λ n. Returned (retries rest s).0 × Retried backoff n calls (retries rest s).1)
                    (sym (attempts-late backoff due now rest late))
                    (let rested =
                        (retries-Retried fits rest later (now + milliseconds later) (calls + 1) (
                            let bound = next_backoff-le backoff limit_ms in
                            omega (arith, bound, fits))).at
                          s tried in
                      (
                        rested.0,
                        one_more backoff (attempts later (now + milliseconds later) rest) calls
                            (retries rest s).1 small rested.1,
                      ))
            ];
          }

    -- A service that is down, whose backoff and whose limit are below 2 ^ 30, so that doubling them stays
    -- an int, and whose broker refuses every connection: whenever the rounds come, an
    -- attempt is made in those in which it is due, and in no other; after `n` attempts the backoff is
    -- the first one doubled `n` times, at most the limit; and no round throws or sends anything.
    pub retries-backoff :
        limit_ms < 2 ^ 30
        → (nows : List TimePoint) (backoff : ℕ) (due : TimePoint) (calls : ℕ) (s : Service)
        → backoff < 2 ^ 30
        → IsDown backoff due calls sent s
        → Returned (retries nows s).0
          × Retried backoff (attempts backoff due nows) calls (retries nows s).1
    retries-backoff fits nows backoff due calls s small down =
        (retries-Retried fits nows backoff due calls small).at s down
