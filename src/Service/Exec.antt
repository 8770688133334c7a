-- ===== src/Service/Exec.antt =====
-- Methods of EkinoxService as actions on its members that may throw, and the environment that they
-- call: the clocks, curl, the Paho client and sbgECom.
use ironsoft.Prelude.{ℕ, ◌+◌, Bool, ◌∷◌, if◌then◌else◌}
use ironsoft.Text.{Text}
use ironsoft.Json.{Json}
use ironsoft.Rest.Http.{Request, CurlOutcome}
use ironsoft.Udp.{UdpConfig, SbgOpening, SbgPoll}
use ironsoft.Service.State.{Service, Setup, Message, TimePoint, mono_ms_of}

-- What each call into the environment gives, by its number. A Boolean is false where the Paho client
-- throws mqtt::exception; `utc_stamp` is std::put_time of the current UTC time; `waits` is what token->wait() does for
-- a message that was handed over.
pub record Env : Type 0 where
  pub steady_ns : ℕ → TimePoint
  pub unix_s : ℕ → ℕ
  pub utc_stamp : ℕ → Text
  pub curl : ℕ → Request → CurlOutcome
  pub connects : ℕ → Bool
  pub subscribes : ℕ → Bool
  pub publishes : ℕ → Bool
  pub waits : ℕ → Bool
  pub disconnects : ℕ → Bool
  pub sbg_opening : ℕ → UdpConfig → SbgOpening
  pub sbg_poll : ℕ → SbgPoll

pub record Context (V : Type 0) : Type 0 where
  pub setup : Setup
  pub json : Json V
  pub env : Env

-- mqtt::exception, or an exception of jsoncpp.
pub data Failure : Type 0 where
  mqtt_failure json_failure : Failure

pub data Outcome (A : Type 0) : Type 0 where
  done : A → Outcome A
  thrown : Failure → Outcome A

-- What was written before a throw stays written.
abbrev pub Exec : Type 0 → Type 0
Exec A = Service → Outcome A × Service

module _ {A : Type 0} where
  unfoldable pub pure : A → Exec A
  pure a s = (done a, s)

  unfoldable pub throw : Failure → Exec A
  throw f s = (thrown f, s)

  unfoldable pub gets : (Service → A) → Exec A
  gets f s = (done (f s), s)

  -- A call into the environment.
  unfoldable pub ask : (ℕ → A) → Exec A
  ask answer s = (done (answer s.tick), record s { tick = s.tick + 1 })

abbrev pub Action : Type 0
Action = Exec (Unit {0})

unfoldable pub modify : (Service → Service) → Action
modify f s = (done tt, f s)

abbrev pub skip : Action
skip = pure tt

module _ {A B : Type 0} where
  abbrev pub continue : Outcome A → (A → Exec B) → Exec B
  continue (done a) f s = f a s
  continue (thrown e) f s = (thrown e, s)

  infixl 10 ◌>>=◌ ◌>>◌
  unfoldable pub ◌>>=◌ : Exec A → (A → Exec B) → Exec B
  ◌>>=◌ m f s = let (r, s') = m s in continue r f s'

  abbrev pub ◌>>◌ : Exec A → Exec B → Exec B
  m >> n = m >>= λ _. n

-- `catch (const mqtt::exception&)`
module _ {A : Type 0} where
  abbrev pub handle : Outcome A → Exec A → Exec A
  handle (thrown mqtt_failure) handler s = handler s
  handle (thrown json_failure) handler s = (thrown json_failure, s)
  handle (done a) handler s = (done a, s)

  unfoldable pub catch_mqtt : Exec A → Exec A → Exec A
  catch_mqtt m handler s = let (r, s') = m s in handle r handler s'

-- An outcome of the Paho client that is waited for.
unfoldable pub expect : (ℕ → Bool) → Action
expect outcome = do succeeded ← ask outcome; if succeeded then skip else throw mqtt_failure

module _ {V : Type 0} (c : Context V) where
  open c use {env}

  unfoldable pub steady_now : Exec TimePoint
  steady_now = ask env.steady_ns

  unfoldable pub mono_ms : Exec ℕ
  mono_ms = do now ← steady_now; pure (mono_ms_of now)

  unfoldable pub unix_ts : Exec ℕ
  unix_ts = ask env.unix_s

  -- client_.publish: the message is sent, or the client throws.
  unfoldable pub publish : Message → Action
  publish m = do
    accepted ← ask env.publishes
    if accepted then modify (λ s. record s { sent = m ∷ s.sent }) else throw mqtt_failure
