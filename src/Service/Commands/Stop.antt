-- ===== src/Service/Commands/Stop.antt =====
-- `handle_logger_stop` of services/ekinox/src/ekinox_service.cpp.
use ironsoft.Prelude.{ℕ, true, false, ◌||◌, not, [], ◌++◌, ◌==◌, if◌then◌else◌}
use ironsoft.Text.{Text, lit, is_empty, decimal}
use ironsoft.Types.{stopping, idle, error}
use ironsoft.Rest.Enrich.{LoggerResult}
use ironsoft.Rest.Api.{data_logger_stop}
use ironsoft.Service.Exec.{Context, Exec, Action, skip, ask, modify, ◌>>=◌, ◌>>◌, mono_ms}
use ironsoft.Service.Health.{set_state, set_error}
use ironsoft.Service.Publish.{send_ack, publish_status}
use ironsoft.Service.RestResult.{
  http_code_or_default, rest_error_or_http, logger_state_matches, result_reports_idle, or_throw,
  mark_rest_result, request_logger_state,
}
use ironsoft.Service.Commands.Start.{guarded}

abbrev pub clear_session : Action
clear_session = modify λ s. record s { status = record (s.status) { session_name = [] } }

module _ {V : Type 0} (c : Context V) where
  open c use {setup, json, env}

  -- The device is idle already, and says so.
  unfoldable pub already_stopped : Text → Text → ℕ → Action
  already_stopped id type code = do
    clear_session
    set_state idle
    publish_status c
    send_ack c id type true (lit "already stopped") [] code

  unfoldable pub call_stop : Exec LoggerResult
  call_stop = do
    curl ← ask env.curl
    or_throw (data_logger_stop json curl setup.config setup.config.rest_api)

  unfoldable pub stop_refused : Text → Text → LoggerResult → ℕ → Action
  stop_refused id type stop_result stop_http_code = do
    set_state (if stop_result.http_code == 404 then idle else error)
    let reported = rest_error_or_http stop_result
    let err = if is_empty reported then lit "HTTP_" ++ decimal stop_http_code else reported
    set_error c err
    publish_status c
    send_ack c id type false (lit "stop failed") err stop_http_code

  -- After a 500 or a 409 the device is asked whether it is idle all the same.
  unfoldable pub stop_failed : Text → Text → LoggerResult → ℕ → Action
  stop_failed id type stop_result stop_http_code =
      if stop_result.http_code == 500 || stop_result.http_code == 409
      then (do
        now_ms ← mono_ms c
        retry_state ← request_logger_state c (lit "logger.stop.post_error") now_ms
        publish_status c
        if result_reports_idle retry_state
            then already_stopped id type stop_http_code
            else stop_refused id type stop_result stop_http_code)
      else stop_refused id type stop_result stop_http_code

  unfoldable pub verify_stop : Text → Text → ℕ → Action
  verify_stop id type stop_http_code = do
    now_ms ← mono_ms c
    verify_now ← request_logger_state c (lit "logger.stop.verify.now") now_ms
    later_ms ← mono_ms c
    verify_later ← request_logger_state c (lit "logger.stop.verify.later") later_ms
    let confirmed = logger_state_matches verify_now false || logger_state_matches verify_later false
    if confirmed then clear_session else skip
    publish_status c
    let failing = if verify_later.ok then verify_later else verify_now
    let reported = rest_error_or_http failing
    let verify_err = if is_empty reported then lit "state_not_confirmed" else reported
    if confirmed
        then send_ack c id type true (lit "recording stopped") [] stop_http_code
        else send_ack c id type false (lit "recording still active") verify_err
            (http_code_or_default failing stop_http_code)

  unfoldable pub stop_recording : Text → Text → Action
  stop_recording id type = do
    set_state stopping
    publish_status c
    stop_result ← call_stop
    now_ms ← mono_ms c
    mark_rest_result c stop_result (lit "logger.stop") now_ms
    let stop_http_code = http_code_or_default stop_result 500
    if not stop_result.ok
        then stop_failed id type stop_result stop_http_code
        else verify_stop id type stop_http_code

  unfoldable pub handle_logger_stop : Text → Text → Action
  handle_logger_stop id type = guarded c id type do
    now_ms ← mono_ms c
    pre_status ← request_logger_state c (lit "logger.stop.precheck") now_ms
    publish_status c
    if result_reports_idle pre_status
        then already_stopped id type (http_code_or_default pre_status 200)
        else stop_recording id type
