-- ===== src/Service/Health.antt =====
-- The REST and link health of services/ekinox/src/ekinox_service.cpp: ages, the offline decision, and
-- the flags of the status that follow from them.
pub mod Offline
use ironsoft.Prelude.{ℕ, ◌+◌, ◌-◌, ◌*◌, Bool, true, false, ◌&&◌, not, ltb, leb, ◌==◌, if◌then◌else◌}
use ironsoft.Text.{Text, lit, text_eq}
use ironsoft.Text.Sanitize.{sanitize_and_clip}
use ironsoft.Types.{ServiceState}
use ironsoft.Udp.{int64_max}
use ironsoft.Service.State.{Service, Setup}
use ironsoft.Service.Exec.{Context, Action, modify, ◌>>=◌, ◌>>◌, unix_ts}

-- The largest int.
abbrev pub int_max : ℕ
int_max = 2147483647

-- `if (n < max) ++n;`
unfoldable pub bump : ℕ → ℕ
bump n = if ltb n int_max then n + 1 else n

unfoldable pub rest_age_ms : Service → ℕ → ℕ
rest_age_ms s now_ms =
    if s.rest.last_rest_ok_ts_ms == 0
    then int64_max
    else if ltb now_ms s.rest.last_rest_ok_ts_ms
    then 0
    else now_ms - s.rest.last_rest_ok_ts_ms

unfoldable pub rest_offline_condition : Setup → Service → ℕ → Bool
rest_offline_condition setup s now_ms =
    let timeout_ms = setup.presence_timeout in
    let age_ms = rest_age_ms s now_ms in
    if leb 3 s.rest.rest_fail_streak
    then true
    else if s.rest.last_rest_ok_ts_ms == 0
    then true
    else if s.status.recording_active && leb age_ms (timeout_ms * 3)
    then false
    else ltb timeout_ms age_ms

-- The early return for the same state only skips a log line.
unfoldable pub set_state : ServiceState → Action
set_state state = modify λ s. record s { status = record (s.status) { state = state } }

-- The rest of the early returns are kept as they are.
unfoldable pub with_link_health : Setup → ℕ → Service → Service
with_link_health setup now_ms s = record s {
  status = record (s.status) {
    api_ok = not (rest_offline_condition setup s now_ms);
    link_alive = s.sensor.sensor_connected && s.sensor.udp_link_alive;
  };
}

-- 300 is the default of `max_len`.
abbrev pub clip : Text → Text
clip text = sanitize_and_clip text 300

module _ {V : Type 0} (c : Context V) where
  open c use {setup}

  unfoldable pub update_link_health : ℕ → Action
  update_link_health now_ms = modify (with_link_health setup now_ms)

  unfoldable pub set_error : Text → Action
  set_error message = do
    modify λ s. record s { status = record (s.status) { last_error = clip message } }
    ts ← unix_ts c
    modify λ s. record s {
      status = record (s.status) { last_error_ts = ts };
      sensor = record (s.sensor) {
        rx_timeout_error_active = text_eq s.status.last_error (lit "rx timeout");
      };
    }
