-- ===== src/Service/RestResult.antt =====
-- What the service makes of a REST result (services/ekinox/src/ekinox_service.cpp): the streaks, the
-- decision that the API is offline, and the state of the logger.
pub mod Streaks
pub mod Failures
use ironsoft.Prelude.{
  ℕ, ◌+◌, Bool, true, false, ◌&&◌, ◌||◌, not, Option, none, some, List, [], ◌++◌, ltb, leb, ◌==◌,
  if◌then◌else◌,
}
use ironsoft.Prelude.Int.{ℤ, pos, negsuc}
use ironsoft.Text.{Text, lit, is_empty, decimal, signed_decimal}
use ironsoft.Types.{ServiceState, recording, idle, error}
use ironsoft.Rest.Enrich.{LoggerResult}
use ironsoft.Rest.Http.{Request, CurlOutcome}
use ironsoft.Rest.Api.{data_logger_get}
use ironsoft.Service.State.{Service, Setup, TimePoint}
use ironsoft.Service.Exec.{
  Context, Exec, Action, Failure, json_failure, skip, pure, throw, gets, ask, modify, ◌>>=◌, ◌>>◌,
  steady_now,
}
use ironsoft.Service.Health.{
  bump, clip, rest_offline_condition, update_link_health, set_state, set_error,
}
use ironsoft.Service.Presence.{update_presence_state}

unfoldable pub http_code_or_default : LoggerResult → ℕ → ℕ
http_code_or_default result fallback =
    if not (result.http_code == 0) then result.http_code else fallback

abbrev pub is_zero : ℤ → Bool
is_zero (pos n) = n == 0
is_zero (negsuc n) = false

unfoldable pub rest_error_or_http : LoggerResult → Text
rest_error_or_http result =
    if not (is_empty result.body)
    then clip result.body
    else if not (is_empty result.error_string)
    then clip result.error_string
    else if ltb 0 result.http_code
    then lit "HTTP_" ++ decimal result.http_code
    else if not (is_zero result.error_code)
    then lit "HTTP_" ++ signed_decimal result.error_code
    else []

unfoldable pub same_flag : Bool → Bool → Bool
same_flag a b = if a then b else not b

unfoldable pub logger_state_matches : LoggerResult → Bool → Bool
unfolding same_flag
logger_state_matches result expected =
    result.ok && (result.has_recording_flag && same_flag result.recording_active expected)

unfoldable pub result_reports_recording : LoggerResult → Bool
result_reports_recording result =
    result.ok && (result.has_recording_flag && result.recording_active)

unfoldable pub result_reports_idle : LoggerResult → Bool
result_reports_idle result = result.ok && (result.has_recording_flag && not result.recording_active)

unfoldable pub rest_success : LoggerResult → Bool
rest_success result = result.ok && (leb 200 result.http_code && ltb result.http_code 300)

-- The members that a success writes, before the link health and the presence follow.
unfoldable pub with_success : TimePoint → ℕ → Service → Service
with_success now now_ms s = record s {
  rest = record (s.rest) {
    rest_alive = true;
    last_rest_success = now;
    last_rest_ok = now;
    last_rest_ok_ts_ms = now_ms;
    rest_fail_streak = 0;
    rest_success_streak = bump s.rest.rest_success_streak;
    last_rest_error = [];
  };
}

-- The members that a failure writes, up to the offline decision.
unfoldable pub with_failure : LoggerResult → Text → Service → Service
with_failure result context_reason s = record s {
  rest = record (s.rest) {
    rest_fail_streak = bump s.rest.rest_fail_streak;
    rest_success_streak = 0;
    last_rest_error =
        if not (is_empty result.error_string) then result.error_string else context_reason;
  };
}

unfoldable pub with_rest_alive : Bool → Service → Service
with_rest_alive alive s = record s { rest = record (s.rest) { rest_alive = alive } }

-- A dataLogger call gives a result, or a Json exception leaves it.
unfoldable pub or_throw : Option LoggerResult → Exec LoggerResult
or_throw none = throw json_failure
or_throw (some result) = pure result

unfoldable pub with_timeout_error : Service → Service
with_timeout_error s = record s {
  rest = record (s.rest) {
    rest_alive = false;
    last_rest_error =
        if is_empty s.rest.last_rest_error then lit "rest timeout" else s.rest.last_rest_error;
  };
}

-- The status after a successful GET.
unfoldable pub with_reported_session : LoggerResult → Service → Service
with_reported_session result s = record s {
  status = record (s.status) {
    session_name =
        if not (is_empty result.session_name)
        then result.session_name
        else if not s.status.recording_active
        then []
        else s.status.session_name;
  };
}

unfoldable pub adopt_flag : LoggerResult → Action
adopt_flag result =
    if result.has_recording_flag
    then (do
      modify λ s. record s {
        status = record (s.status) { recording_active = result.recording_active };
      }
      set_state (if result.recording_active then recording else idle))
    else skip

unfoldable pub adopt_success : LoggerResult → Action
adopt_success result = do
  modify λ s. record s { status = record (s.status) { last_error = [] } }
  adopt_flag result
  modify (with_reported_session result)

module _ {V : Type 0} (c : Context V) where
  open c use {setup, json, env}

  unfoldable pub mark_success : TimePoint → ℕ → Action
  mark_success now now_ms = do
    modify (with_success now now_ms)
    update_link_health c now_ms
    update_presence_state c now_ms []

  unfoldable pub mark_failure : LoggerResult → Text → ℕ → Action
  mark_failure result context_reason now_ms = do
    modify (with_failure result context_reason)
    offline ← gets λ s. rest_offline_condition setup s now_ms
    modify (with_rest_alive (not offline))
    update_link_health c now_ms
    if offline then update_presence_state c now_ms [] else skip

  unfoldable pub mark_rest_result : LoggerResult → Text → ℕ → Action
  mark_rest_result result context_reason now_ms = do
    now ← steady_now c
    if rest_success result
        then mark_success now now_ms
        else mark_failure result context_reason now_ms

  unfoldable pub rest_times_out : ℕ → Action
  rest_times_out now_ms = do
    modify with_timeout_error
    update_link_health c now_ms
    update_presence_state c now_ms []

  unfoldable pub refresh_rest_health : ℕ → Action
  refresh_rest_health now_ms = do
    offline ← gets λ s. rest_offline_condition setup s now_ms
    alive ← gets λ s. s.rest.rest_alive
    if not offline
        then modify (with_rest_alive true)
        else if not alive
        then skip
        else rest_times_out now_ms

  unfoldable pub adopt_failure : LoggerResult → Text → Action
  adopt_failure result context_reason = do
    let reported = rest_error_or_http result
    let err = if is_empty reported then context_reason else reported
    if not (is_empty err) then set_error c err else skip
    if result.http_code == 404
        then (do
          modify λ s. record s {
            status = record (s.status) { recording_active = false; session_name = [] };
          }
          set_state idle)
        else set_state error

  unfoldable pub call_get : Exec LoggerResult
  call_get = do
    curl ← ask env.curl
    or_throw (data_logger_get json curl setup.config setup.config.rest_api)

  unfoldable pub request_logger_state : Text → ℕ → Exec LoggerResult
  request_logger_state context_reason now_ms = do
    result ← call_get
    mark_rest_result result context_reason now_ms
    if result.ok then adopt_success result else adopt_failure result context_reason
    pure result
