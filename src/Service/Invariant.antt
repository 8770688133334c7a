-- ===== src/Service/Invariant.antt =====
-- What holds of the members between any two calls of the service.
pub mod Rest
pub mod Sensor
pub mod Session
pub mod Commands
pub mod Loop
pub mod Shutdown
use ironsoft.Prelude.{
  ℕ, ◌+◌, ◌*◌, ◌≤◌, max, ◌≡◌, ◌⊎◌, Bool, true, false, not, List, [], ◌∷◌, arith, if◌then◌else◌,
}
use ironsoft.Text.{Text}
use ironsoft.Types.{ServiceState}
use ironsoft.Service.State.{Service, Setup, Message}
use ironsoft.Service.Exec.{
  Context, Exec, Action, mqtt_failure, skip, pure, throw, gets, ask, modify, ◌>>=◌, ◌>>◌,
  steady_now, mono_ms, unix_ts, publish,
}
use ironsoft.Service.Health.{
  int_max, bump, set_state, update_link_health, with_link_health, set_error,
}
use ironsoft.Service.Steps.{
  Order, Steps, Steps-pure, Steps-throw, Steps-gets, Steps-ask, Steps-bind, Steps-catch,
  Steps-modify, Steps-if,
}

pub record Inv (setup : Setup) (s : Service) : Type 0 where
  -- The link is reported alive only with a sensor session that receives.
  pub link_connected : s.status.link_alive ≡ true → s.sensor.sensor_connected ≡ true
  pub link_receives : s.status.link_alive ≡ true → s.sensor.udp_link_alive ≡ true
  -- The service is online only while it is connected to the broker.
  pub online_connected : s.link.presence_online ≡ true → s.link.connected ≡ true
  -- A reconnect is deferred only for a sensor that is connected, over an open session.
  pub deferred_connected :
      s.sensor.sensor_reconnect_needed ≡ true → s.sensor.sensor_connected ≡ true
  pub session_open : s.sensor.sensor_connected ≡ true → s.sensor.udp_session.connected ≡ true
  pub without_sbg : setup.has_sbg ≡ false → s.sensor.sensor_connected ≡ false
  -- REST successes and failures in a row exclude one another, and no streak passes the largest int.
  pub one_streak : (s.rest.rest_fail_streak ≡ 0) ⊎ (s.rest.rest_success_streak ≡ 0)
  pub fail_le : s.rest.rest_fail_streak ≤ int_max
  pub success_le : s.rest.rest_success_streak ≤ int_max
  pub rx_fail_le : s.sensor.rx_fail_streak ≤ int_max
  pub rx_ok_le : s.sensor.rx_ok_streak ≤ int_max
  -- The backoff stays within what the configuration names.
  pub backoff_le :
      s.link.current_backoff_ms
      ≤ max setup.config.timeouts.reconnect_backoff_ms
          setup.config.timeouts.reconnect_backoff_max_ms

-- What an action does to the invariant.
abbrev pub Keep : Setup → Service → Service → Type 0
Keep setup s t = Inv setup s → Inv setup t

pub Keep-Order : (setup : Setup) → Order (Keep setup)
Keep-Order setup = record {
  refl_of = λ s h. h;
  trans_of = λ s t u f g h. g (f h);
  tick_of = λ s h. ground arith;
}

module _ {V : Type 0} (c : Context V) where
  open c use {setup}

  abbrev pub keep : Order (Keep setup)
  keep = Keep-Order setup

  pub set_state-Inv : (t : ServiceState) → Steps (Keep setup) (set_state t)
  unfolding set_state
  set_state-Inv t = Steps-modify _ λ s h. ground arith

  pub steady_now-Inv : Steps (Keep setup) (steady_now c)
  unfolding steady_now
  steady_now-Inv = Steps-ask keep _

  pub unix_ts-Inv : Steps (Keep setup) (unix_ts c)
  unfolding unix_ts
  unix_ts-Inv = Steps-ask keep _

  pub mono_ms-Inv : Steps (Keep setup) (mono_ms c)
  unfolding mono_ms
  mono_ms-Inv = Steps-bind keep steady_now-Inv λ now. Steps-pure keep _

  pub publish-Inv : (m : Message) → Steps (Keep setup) (publish c m)
  unfolding publish
  publish-Inv m =
      Steps-bind keep (Steps-ask keep _)
        λ accepted. Steps-if accepted (Steps-modify _ λ s h. ground arith) (Steps-throw keep _)

  pub set_error-Inv : (t : Text) → Steps (Keep setup) (set_error c t)
  unfolding set_error
  set_error-Inv t =
      Steps-bind keep (Steps-modify _ λ s h. ground arith)
        λ _. Steps-bind keep unix_ts-Inv λ ts. Steps-modify _ λ s h. ground arith

  pub update_link_health-Inv : (now_ms : ℕ) → Steps (Keep setup) (update_link_health c now_ms)
  unfolding update_link_health with_link_health
  update_link_health-Inv now_ms = Steps-modify _ λ s h. ground arith
