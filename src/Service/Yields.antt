-- ===== src/Service/Yields.antt =====
-- Exec (Unit {0})s that return: from a state where `P` holds they return, in a state where `Q` holds.
use ironsoft.Prelude.{ℕ, ◌+◌, ◌≡◌, refl, Bool, true, false, if◌then◌else◌}
use ironsoft.Service.State.{Service}
use ironsoft.Service.Exec.{Exec, Outcome, done, thrown, pure, gets, ask, modify, continue, ◌>>=◌}
use ironsoft.Service.Steps.{Steps}

abbrev pub Returned : {A : Type 0} → Outcome A → Type 0
Returned (done a) = Unit
Returned (thrown f) = ⊥

pub record Yields {A : Type 0} (P Q : Service → Type 0) (m : Exec A) : Type 0 where
  pub at : (s : Service) → P s → Returned (m s).0 × Q (m s).1

module _ {P Q : Service → Type 0} where
  pub Yields-modify :
      (f : Service → Service) → ((s : Service) → P s → Q (f s)) → Yields P Q (modify f)
  unfolding modify
  Yields-modify f k = record { at = λ s h. (tt, k s h) }

  pub Yields-ask :
      {A : Type 0} (answer : ℕ → A)
      → ((s : Service) → P s → Q (record s { tick = s.tick + 1 }))
      → Yields P Q (ask answer)
  unfolding ask
  Yields-ask answer k = record { at = λ s h. (tt, k s h) }

  pub Yields-if :
      {A : Type 0} (b : Bool) {m n : Exec A}
      → Yields P Q m
      → Yields P Q n
      → Yields P Q (if b then m else n)
  Yields-if true km kn = km
  Yields-if false km kn = kn

  pub Yields-Steps : {A : Type 0} {m : Exec A} → Yields P Q m → Steps (λ s t. P s → Q t) m
  Yields-Steps y = record { at = λ s h. (y.at s h).1 }

module _ {P : Service → Type 0} where
  pub Yields-pure : {A : Type 0} (a : A) → Yields P P (pure a)
  unfolding pure
  Yields-pure a = record { at = λ s h. (tt, h) }

  pub Yields-gets : {A : Type 0} (f : Service → A) → Yields P P (gets f)
  unfolding gets
  Yields-gets f = record { at = λ s h. (tt, h) }

module _ {Q R : Service → Type 0} where
  Yields-continue :
      {A B : Type 0} (r : Outcome A) (f : A → Exec B) (s : Service)
      → Returned r
      → Q s
      → ((a : A) → Yields Q R (f a))
      → Returned (continue r f s).0 × R (continue r f s).1
  Yields-continue (done a) f s w q kf = (kf a).at s q
  Yields-continue (thrown e) f s w q kf = absurd w

module _ {P Q R : Service → Type 0} where
  pub Yields-bind :
      {A B : Type 0} {m : Exec A} {f : A → Exec B}
      → Yields P Q m
      → ((a : A) → Yields Q R (f a))
      → Yields P R (m >>= f)
  unfolding ◌>>=◌
  Yields-bind {m} {f} km kf = record {
    at = λ s h. let p = km.at s h in Yields-continue (m s).0 f (m s).1 p.0 p.1 kf;
  }

module _ {P P' Q : Service → Type 0} where
  pub Yields-weaken :
      {A : Type 0} {m : Exec A} → ((s : Service) → P s → P' s) → Yields P' Q m → Yields P Q m
  Yields-weaken w y = record { at = λ s h. y.at s (w s h) }

-- What was read is known in the rest.
module _ {P Q : Service → Type 0} where
  pub Yields-known :
      {A B : Type 0} (f : Service → A) {k : A → Exec B}
      → ((a : A) → Yields (λ s. P s × (f s ≡ a)) Q (k a))
      → Yields P Q (gets f >>= k)
  unfolding ◌>>=◌ gets
  Yields-known f kk = record { at = λ s h. (kk (f s)).at s (h, refl) }

-- What was tested is known in each branch.
pub Yields-branch :
    {P Q : Service → Type 0} (b : Bool) {m n : Exec (Unit {0})}
    → (b ≡ true → Yields P Q m)
    → (b ≡ false → Yields P Q n)
    → Yields P Q (if b then m else n)
Yields-branch true km kn = km refl
Yields-branch false km kn = kn refl

-- A fact about no state.
pub Yields-fact :
    {F : Type 0} {P Q : Service → Type 0} {m : Exec (Unit {0})}
    → (F → Yields P Q m)
    → Yields (λ s. P s × F) Q m
Yields-fact km = record { at = λ s h. (km h.1).at s h.0 }

-- What is answered is the answer to some call.
pub Yields-asked :
    {A : Type 0} {P Q R : Service → Type 0} (answer : ℕ → A) (k : A → Exec (Unit {0}))
    → ((s : Service) → P s → Q (record s { tick = s.tick + 1 }))
    → ((n : ℕ) → Yields Q R (k (answer n)))
    → Yields P R (ask answer >>= k)
unfolding ask ◌>>=◌
Yields-asked answer k w km = record { at = λ s h. (km s.tick).at _ (w s h) }

pub Yields-after :
    {P Q R : Service → Type 0} {m : Exec (Unit {0})}
    → ((s : Service) → Q s → R s)
    → Yields P Q m
    → Yields P R m
Yields-after w km = record { at = λ s h. let p = km.at s h in (p.0, w _ p.1) }
