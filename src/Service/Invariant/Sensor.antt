-- ===== src/Service/Invariant/Sensor.antt =====
-- The sensor session never throws, and keeps the invariant. Between a change of the link and the
-- update of the status the two clauses on `link_alive` may fail, and `Inner` holds.
use ironsoft.Prelude.{ℕ, ◌≡◌, ◌≤◌, ◌⊎◌, Bool, true, false, arith, max}
use ironsoft.Text.{Text}
use ironsoft.Udp.{close}
use ironsoft.Service.State.{Service, Setup}
use ironsoft.Service.Yields.{
  Yields, Yields-pure, Yields-gets, Yields-ask, Yields-bind, Yields-modify, Yields-if,
}
use ironsoft.Service.Invariant.{Inv}
use ironsoft.Service.Exec.{Context, Exec, unix_ts, mono_ms, steady_now}
use ironsoft.Service.Health.{int_max, bump, update_link_health, with_link_health, set_error}
use ironsoft.Service.Sensor.{
  clear_rx_timeout_error, set_udp_link_alive, handle_sensor_disconnect, handle_sensor_error,
  handle_sensor_rx_timeout, handle_sensor_rx_recovered,
}

-- The invariant without its clauses on `link_alive`.
pub record Inner (setup : Setup) (s : Service) : Type 0 where
  pub online_connected : s.link.presence_online ≡ true → s.link.connected ≡ true
  pub deferred_connected :
      s.sensor.sensor_reconnect_needed ≡ true → s.sensor.sensor_connected ≡ true
  pub session_open : s.sensor.sensor_connected ≡ true → s.sensor.udp_session.connected ≡ true
  pub without_sbg : setup.has_sbg ≡ false → s.sensor.sensor_connected ≡ false
  pub one_streak : (s.rest.rest_fail_streak ≡ 0) ⊎ (s.rest.rest_success_streak ≡ 0)
  pub fail_le : s.rest.rest_fail_streak ≤ int_max
  pub success_le : s.rest.rest_success_streak ≤ int_max
  pub rx_fail_le : s.sensor.rx_fail_streak ≤ int_max
  pub rx_ok_le : s.sensor.rx_ok_streak ≤ int_max
  pub backoff_le :
      s.link.current_backoff_ms
      ≤ max setup.config.timeouts.reconnect_backoff_ms
          setup.config.timeouts.reconnect_backoff_max_ms

module _ {V : Type 0} (c : Context V) where
  open c use {setup}

  abbrev pub I : Service → Type 0
  I = Inv setup

  abbrev pub M : Service → Type 0
  M = Inner setup

  pub unix_ts-I : Yields I I (unix_ts c)
  unfolding unix_ts
  unix_ts-I = Yields-ask _ λ s h. ground arith

  pub mono_ms-M : Yields M M (mono_ms c)
  unfolding mono_ms steady_now
  mono_ms-M = Yields-bind (Yields-ask _ λ s h. ground arith) λ now. Yields-pure _

  pub mono_ms-I : Yields I I (mono_ms c)
  unfolding mono_ms steady_now
  mono_ms-I = Yields-bind (Yields-ask _ λ s h. ground arith) λ now. Yields-pure _

  -- The update of the status restores the invariant.
  pub update_link_health-I : (now_ms : ℕ) → Yields M I (update_link_health c now_ms)
  unfolding update_link_health with_link_health
  update_link_health-I now_ms = Yields-modify _ λ s h. ground arith

  pub set_error-I : (t : Text) → Yields I I (set_error c t)
  unfolding set_error
  set_error-I t =
      Yields-bind {Q = I} (Yields-modify _ λ s h. ground arith)
        λ _. Yields-bind unix_ts-I λ ts. Yields-modify _ λ s h. ground arith

  pub clear_rx_timeout_error-I : Yields I I (clear_rx_timeout_error c)
  unfolding clear_rx_timeout_error
  clear_rx_timeout_error-I = Yields-bind (Yields-gets _) λ active. Yields-if _ (Yields-pure _) (
      Yields-bind {Q = I} (Yields-modify _ λ s h. ground arith) λ _.
        Yields-bind (Yields-gets _) λ shown.
          Yields-if shown (Yields-bind unix_ts-I λ ts. Yields-modify _ λ s h. ground arith)
            (Yields-pure _))

  pub set_udp_link_alive-I : (alive : Bool) → Yields M I (set_udp_link_alive c alive)
  unfolding set_udp_link_alive
  set_udp_link_alive-I alive =
      Yields-bind {Q = M} (Yields-modify _ λ s h. ground arith)
        λ _. Yields-bind mono_ms-M λ now_ms. update_link_health-I _

  pub handle_sensor_disconnect-I : Yields I I (handle_sensor_disconnect c)
  unfolding handle_sensor_disconnect steady_now close
  handle_sensor_disconnect-I =
      Yields-bind
        (Yields-bind {Q = I} (Yields-modify _ λ s h. ground arith) λ _. clear_rx_timeout_error-I)
        λ _. Yields-bind {Q = M} (Yields-modify _ λ s h. ground arith) λ _.
          Yields-bind (set_udp_link_alive-I false) λ _.
            Yields-bind {Q = I} (Yields-ask _ λ s h. ground arith)
              λ now. Yields-modify _ λ s h. ground arith

  pub handle_sensor_error-I : (t : Text) → Yields I I (handle_sensor_error c t)
  unfolding handle_sensor_error
  handle_sensor_error-I t = Yields-bind (set_error-I t) λ _. handle_sensor_disconnect-I

  -- A reconnect is deferred for a connected sensor only.
  abbrev pub C : Service → Type 0
  C s = I s × (s.sensor.sensor_connected ≡ true)

  abbrev InnerConnected : Service → Type 0
  InnerConnected s = M s × (s.sensor.sensor_connected ≡ true)

  update_link_health-C : (now_ms : ℕ) → Yields InnerConnected C (update_link_health c now_ms)
  unfolding update_link_health with_link_health
  update_link_health-C now_ms = Yields-modify _ λ s h. ground arith

  set_error-C : (t : Text) → Yields C C (set_error c t)
  unfolding set_error unix_ts
  set_error-C t = Yields-bind {Q = C} (Yields-modify _ λ s h. ground arith) λ _.
      Yields-bind {Q = C} (Yields-ask _ λ s h. ground arith)
        λ ts. Yields-modify _ λ s h. ground arith

  pub forget : {A : Type 0} {m : Exec A} → Yields I I m → Yields C I m
  forget y = record { at = λ s h. y.at s h.0 }

  pub handle_sensor_rx_timeout-I :
      (flag : Bool) (now_ms : ℕ) → Yields C I (handle_sensor_rx_timeout c flag now_ms)
  unfolding handle_sensor_rx_timeout bump
  handle_sensor_rx_timeout-I flag now_ms =
      Yields-bind {Q = InnerConnected} (Yields-modify _ λ s h. ground arith) λ _.
        Yields-bind (update_link_health-C _) λ _. Yields-bind (Yields-gets _) λ streak.
          Yields-bind (Yields-gets _) λ active.
            Yields-bind (Yields-if _ (set_error-C _) (Yields-pure _)) λ _.
              Yields-if _ (forget (Yields-pure _)) (
                Yields-if flag (Yields-modify _ λ s h. ground arith)
                  (forget handle_sensor_disconnect-I))

  pub handle_sensor_rx_recovered-I : (now_ms : ℕ) → Yields C I (handle_sensor_rx_recovered c now_ms)
  unfolding handle_sensor_rx_recovered bump
  handle_sensor_rx_recovered-I now_ms =
      Yields-bind {Q = I} (Yields-modify _ λ s h. ground arith) λ _.
        Yields-bind (Yields-gets _) λ ok_streak. Yields-bind (Yields-gets _) λ fail_streak.
          Yields-bind
            (Yields-if _
              (Yields-bind {Q = I} (Yields-modify _ λ s h. ground arith)
                λ _. clear_rx_timeout_error-I)
              (Yields-pure _))
            λ _.
              Yields-bind {Q = M} (Yields-modify _ λ s h. ground arith) λ _. update_link_health-I _
