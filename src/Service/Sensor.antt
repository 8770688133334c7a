-- ===== src/Service/Sensor.antt =====
-- The sensor session and its receive timeouts (services/ekinox/src/ekinox_service.cpp).
pub mod Deferral
pub mod Closing
pub mod Silence
use ironsoft.Prelude.{
  ℕ, ◌+◌, ◌*◌, ◌^◌, min, max, Bool, true, false, ◌&&◌, ◌||◌, not, Option, none, some, List, [], ltb,
  leb, ◌==◌, if◌then◌else◌,
}
use ironsoft.Prelude.Int.{pos_part}
use ironsoft.Text.{Text, lit, text_eq}
use ironsoft.Types.{ServiceState, recording}
use ironsoft.Udp.{UdpSession, open_session, close, poll, last_rx_age_ms}
use ironsoft.Service.State.{Service, Setup, Sensor, TimePoint, milliseconds, mono_ms_of}
use ironsoft.Service.Exec.{
  Context, Exec, Action, skip, pure, gets, ask, modify, ◌>>=◌, ◌>>◌, steady_now, mono_ms, unix_ts,
}
use ironsoft.Service.Health.{bump, with_link_health, update_link_health, set_error}

abbrev pub is_recording : ServiceState → Bool
is_recording recording = true
is_recording _ = false

-- The local `recording` of `poll_sensor`.
unfoldable pub recording_now : Service → Bool
recording_now s = is_recording s.status.state || s.status.recording_active

abbrev pub set_sensor : (Sensor → Sensor) → Service → Service
set_sensor f s = record s { sensor = f s.sensor }

abbrev pub cleared_error : Bool → ℕ → Service → Service
cleared_error true ts s = record s {
  status = record (s.status) { last_error = []; last_error_ts = ts };
}
cleared_error false ts s = s

-- `std::min(backoff * 2, max)` on int. From 2 ^ 30 on the product overflows, and C++ gives the program
-- no meaning; the model then has the limit.
unfoldable pub next_backoff : ℕ → ℕ → ℕ
next_backoff backoff limit = if ltb backoff (2 ^ 30) then min (backoff * 2) limit else limit

module _ {V : Type 0} (c : Context V) where
  open c use {setup, env}

  abbrev clear_active : Action
  clear_active = do
    modify (set_sensor λ x. record x { rx_timeout_error_active = false })
    shown ← gets λ s. text_eq s.status.last_error (lit "rx timeout")
    if shown then (do ts ← unix_ts c; modify (cleared_error true ts)) else skip

  unfoldable pub clear_rx_timeout_error : Action
  clear_rx_timeout_error = do
    active ← gets λ s. s.sensor.rx_timeout_error_active
    if not active then skip else clear_active

  unfoldable pub set_udp_link_alive : Bool → Action
  set_udp_link_alive alive = do
    modify (set_sensor λ x. record x { udp_link_alive = alive })
    now_ms ← mono_ms c
    update_link_health c now_ms

  abbrev reset_streaks : Action
  reset_streaks = do
    modify (set_sensor λ x. record x { rx_fail_streak = 0; rx_ok_streak = 0 })
    clear_rx_timeout_error

  unfoldable pub handle_sensor_disconnect : Action
  handle_sensor_disconnect = do
    reset_streaks
    modify (
        set_sensor λ x. record x {
          udp_session = close x.udp_session;
          sensor_connected = false;
          udp_link_alive = false;
          sensor_reconnect_needed = false;
        })
    set_udp_link_alive false
    now ← steady_now c
    modify λ s. record s {
      sensor = record (s.sensor) {
        next_sensor_attempt = some (now + milliseconds s.link.current_backoff_ms);
      };
    }

  unfoldable pub handle_sensor_error : Text → Action
  handle_sensor_error reason = do set_error c reason; handle_sensor_disconnect

  abbrev pub fail_threshold : ℕ
  fail_threshold = max 1 setup.config.timeouts.udp_rx_fail_threshold

  abbrev ok_threshold : ℕ
  ok_threshold = max 1 setup.config.timeouts.udp_rx_ok_to_clear_threshold

  abbrev on_timeout_threshold : Bool → Action
  on_timeout_threshold recording_flag =
      if recording_flag
      then modify (set_sensor λ x. record x { sensor_reconnect_needed = true })
      else handle_sensor_disconnect

  unfoldable pub handle_sensor_rx_timeout : Bool → ℕ → Action
  handle_sensor_rx_timeout recording_flag now_ms = do
    modify (
        set_sensor λ x. record x {
          rx_fail_streak = bump x.rx_fail_streak;
          rx_ok_streak = 0;
          udp_link_alive = false;
        })
    update_link_health c now_ms
    streak ← gets λ s. s.sensor.rx_fail_streak
    active ← gets λ s. s.sensor.rx_timeout_error_active
    if leb fail_threshold streak && not active then set_error c (lit "rx timeout") else skip
    if ltb streak fail_threshold then skip else on_timeout_threshold recording_flag

  abbrev clear_streak : Action
  clear_streak = do modify (set_sensor λ x. record x { rx_fail_streak = 0 }); clear_rx_timeout_error

  unfoldable pub handle_sensor_rx_recovered : ℕ → Action
  handle_sensor_rx_recovered now_ms = do
    modify (set_sensor λ x. record x { udp_link_alive = true; rx_ok_streak = bump x.rx_ok_streak })
    ok_streak ← gets λ s. s.sensor.rx_ok_streak
    fail_streak ← gets λ s. s.sensor.rx_fail_streak
    if leb ok_threshold ok_streak && not (fail_streak == 0) then clear_streak else skip
    modify (set_sensor λ x. record x { sensor_reconnect_needed = false })
    update_link_health c now_ms

  -- After udp_session_->open.
  abbrev pub after_open : TimePoint → Option Text → Action
  after_open now (some err) = do
    set_error c err
    set_udp_link_alive false
    modify λ s.
        let backoff =
          next_backoff s.link.current_backoff_ms setup.config.timeouts.reconnect_backoff_max_ms in
        record s {
          link = record (s.link) { current_backoff_ms = backoff };
          sensor = record (s.sensor) { next_sensor_attempt = some (now + milliseconds backoff) };
        }
  after_open now none = do
    modify
        (set_sensor λ x. record x { sensor_connected = true; rx_fail_streak = 0; rx_ok_streak = 0 })
    clear_rx_timeout_error
    modify λ s. record s {
      link = record (s.link) { current_backoff_ms = setup.config.timeouts.reconnect_backoff_ms };
      sensor = record (s.sensor) { next_sensor_attempt = none };
    }

  unfoldable pub open_udp : TimePoint → Action
  open_udp now = do
    sbg ← ask λ n. env.sbg_opening n setup.udp_config
    opened_ms ← mono_ms c
    u ← gets λ s. s.sensor.udp_session
    let (u', err) = open_session sbg opened_ms setup.udp_config u
    modify (set_sensor λ x. record x { udp_session = u' })
    after_open now err

  abbrev pub attempt_or : TimePoint → Option TimePoint → TimePoint
  attempt_or now none = now
  attempt_or now (some t) = t

  abbrev pub attempt_session : TimePoint → Action
  attempt_session now = do
    modify (
        set_sensor
          λ x. record x { next_sensor_attempt = some (attempt_or now x.next_sensor_attempt) })
    due ← gets λ s. attempt_or now s.sensor.next_sensor_attempt
    if ltb now due then skip else open_udp now

  -- The build without sbgECom.
  abbrev pub no_sensor : TimePoint → Action
  no_sensor now = do
    modify (set_sensor λ x. record x { sensor_connected = false; udp_link_alive = false })
    update_link_health c (mono_ms_of now)
    reported ← gets λ s. s.sensor.reported_no_sbg
    if reported then skip else (do
      modify (set_sensor λ x. record x { reported_no_sbg = true })
      set_error c (lit "sbgECom unavailable"))

  unfoldable pub ensure_sensor_session : TimePoint → Action
  ensure_sensor_session now = do
    connected ← gets λ s. s.sensor.sensor_connected
    if not setup.has_sbg then no_sensor now else if connected then skip else attempt_session now

  -- After udp_session_->poll.
  abbrev pub after_poll : ℕ → Bool → UdpSession → Option Text → Action
  after_poll now_ms recording_flag u (some err) = do reset_streaks; handle_sensor_error err
  after_poll now_ms recording_flag u none =
      let age = pos_part (last_rx_age_ms u now_ms) in
      if leb age setup.config.timeouts.udp_rx_timeout_ms
      then handle_sensor_rx_recovered now_ms
      else handle_sensor_rx_timeout recording_flag now_ms

  abbrev pub poll_session : ℕ → Bool → Action
  poll_session now_ms recording_flag = do
    sbg ← ask env.sbg_poll
    u ← gets λ s. s.sensor.udp_session
    let (u', err) = poll sbg u
    modify (set_sensor λ x. record x { udp_session = u' })
    after_poll now_ms recording_flag u' err

  unfoldable pub poll_sensor : TimePoint → Action
  poll_sensor now = do
    connected ← gets λ s. s.sensor.sensor_connected
    recording_flag ← gets recording_now
    needed ← gets λ s. s.sensor.sensor_reconnect_needed
    if not connected
        then skip
        else if needed && not recording_flag
        then (do
          modify (set_sensor λ x. record x { sensor_reconnect_needed = false })
          handle_sensor_disconnect)
        else poll_session (mono_ms_of now) recording_flag
