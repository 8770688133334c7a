-- ===== src/Service/Steps.antt =====
-- How an action may change the members, whether it returns or throws: one rule for each way to build
-- an action, over a relation that is reflexive and transitive.
use ironsoft.Prelude.{ℕ, ◌+◌, Bool, true, false, if◌then◌else◌}
use ironsoft.Service.State.{Service}
use ironsoft.Service.Exec.{
  Exec, Outcome, done, thrown, Failure, mqtt_failure, json_failure, pure, throw, gets, ask, modify,
  continue, handle, catch_mqtt, ◌>>=◌,
}

pub record Order (R : Service → Service → Type 0) : Type 0 where
  pub refl_of : (s : Service) → R s s
  pub trans_of : (s t u : Service) → R s t → R t u → R s u
  pub tick_of : (s : Service) → R s (record s { tick = s.tick + 1 })

-- Every run of `m` goes from a state to a related one.
pub record Steps {A : Type 0} (R : Service → Service → Type 0) (m : Exec A) : Type 0 where
  pub at : (s : Service) → R s (m s).1

module _ {R : Service → Service → Type 0} (o : Order R) where
  module _ {A : Type 0} where
    pub Steps-pure : (a : A) → Steps R (pure a)
    unfolding pure
    Steps-pure a = record { at = o.refl_of }

    pub Steps-throw : (f : Failure) → Steps R (throw {A = A} f)
    unfolding throw
    Steps-throw f = record { at = o.refl_of }

    pub Steps-gets : (f : Service → A) → Steps R (gets f)
    unfolding gets
    Steps-gets f = record { at = o.refl_of }

    pub Steps-ask : (answer : ℕ → A) → Steps R (ask answer)
    unfolding ask
    Steps-ask answer = record { at = o.tick_of }

  Steps-continue :
      {A B : Type 0} (r : Outcome A) (f : A → Exec B) (s : Service)
      → ((a : A) → Steps R (f a))
      → R s (continue r f s).1
  Steps-continue (done a) f s kf = (kf a).at s
  Steps-continue (thrown e) f s kf = o.refl_of s

  pub Steps-bind :
      {A B : Type 0} {m : Exec A} {f : A → Exec B}
      → Steps R m
      → ((a : A) → Steps R (f a))
      → Steps R (m >>= f)
  unfolding ◌>>=◌
  Steps-bind {m} {f} km kf = record {
    at = λ s. o.trans_of s (m s).1 _ (km.at s) (Steps-continue (m s).0 f (m s).1 kf);
  }

  Steps-handle :
      {A : Type 0} (r : Outcome A) (h : Exec A) (s : Service) → Steps R h → R s (handle r h s).1
  Steps-handle (done a) h s kh = o.refl_of s
  Steps-handle (thrown mqtt_failure) h s kh = kh.at s
  Steps-handle (thrown json_failure) h s kh = o.refl_of s

  pub Steps-catch : {A : Type 0} {m h : Exec A} → Steps R m → Steps R h → Steps R (catch_mqtt m h)
  unfolding catch_mqtt
  Steps-catch {m} {h} km kh = record {
    at = λ s. o.trans_of s (m s).1 _ (km.at s) (Steps-handle (m s).0 h (m s).1 kh);
  }

module _ {R : Service → Service → Type 0} where
  pub Steps-modify : (f : Service → Service) → ((s : Service) → R s (f s)) → Steps R (modify f)
  unfolding modify
  Steps-modify f k = record { at = k }

  pub Steps-if :
      {A : Type 0} (b : Bool) {m n : Exec A} → Steps R m → Steps R n → Steps R (if b then m else n)
  Steps-if true km kn = km
  Steps-if false km kn = kn
