-- ===== src/Service/Commands/Start.antt =====
-- `handle_logger_start` of services/ekinox/src/ekinox_service.cpp, with the checks that it shares with
-- the other logger commands.
use ironsoft.Prelude.{
  ℕ, true, false, ◌||◌, not, Option, none, some, List, [], ◌∷◌, ◌++◌, String, ◌==◌, if◌then◌else◌,
}
use ironsoft.Text.{Text, lit, is_empty, decimal}
use ironsoft.Types.{starting, idle, error}
use ironsoft.Config.{EkinoxConfig}
use ironsoft.Rest.Enrich.{LoggerResult}
use ironsoft.Rest.Api.{data_logger_start}
use ironsoft.Service.Exec.{Context, Exec, Action, pure, gets, ask, ◌>>=◌, ◌>>◌, mono_ms}
use ironsoft.Service.Health.{update_link_health, set_state, set_error}
use ironsoft.Service.Presence.{update_presence_state}
use ironsoft.Service.Publish.{send_ack, publish_status}
use ironsoft.Service.RestResult.{
  http_code_or_default, rest_error_or_http, logger_state_matches, result_reports_recording,
  or_throw, mark_rest_result, request_logger_state,
}

-- The first text that is not empty.
abbrev pub first_nonempty : List Text → Text
first_nonempty [] = []
first_nonempty (t ∷ rest) = if not (is_empty t) then t else first_nonempty rest

-- `none`: the endpoint is valid; `some`: the text of `err`.
unfoldable pub validate_rest_endpoint : EkinoxConfig → Option Text
validate_rest_endpoint config =
    if is_empty config.ekinox.ip
    then some (lit "ekinox.ip missing")
    else if config.ekinox.rest_port == 0
    then some (lit "rest_port is 0")
    else none

module _ {V : Type 0} (c : Context V) where
  open c use {setup, json, env}

  -- The refusal of a command while MQTT is offline.
  unfoldable pub refuse_offline : Text → Text → Action
  refuse_offline id type = do
    set_error c (lit "MQTT offline")
    publish_status c
    send_ack c id type false [] (lit "MQTT offline") 503

  unfoldable pub refuse_config : Text → Text → Text → Action
  refuse_config id type rest_reason = do
    set_error c rest_reason
    now_ms ← mono_ms c
    update_link_health c now_ms
    update_presence_state c now_ms rest_reason
    publish_status c
    send_ack c id type false rest_reason (lit "bad_config") 400

  -- The end of a logger command, where the endpoint is valid.
  unfoldable pub if_valid : Option Text → Text → Text → Action → Action
  if_valid none id type body = body
  if_valid (some rest_reason) id type body = refuse_config id type rest_reason

  -- The two checks in front of every logger command: can_execute_logger_cmd, validate_rest_endpoint.
  unfoldable pub guarded : Text → Text → Action → Action
  guarded id type body = do
    connected ← gets λ s. s.link.connected
    if not connected
        then refuse_offline id type
        else if_valid (validate_rest_endpoint setup.config) id type body

  abbrev read_field : V → Text
  read_field node = if json.is_string node then json.as_string node else []

  abbrev nested : V → String → Text
  nested cmd name =
      if json.is_object (json.member cmd name)
      then read_field (json.member (json.member cmd name) "sessionName")
      else []

  unfoldable pub extract_session_name : V → Text
  extract_session_name cmd = first_nonempty (
      read_field (json.member cmd "sessionName")
      ∷ read_field (json.member cmd "session_name")
      ∷ nested cmd "payload"
      ∷ nested cmd "params"
      ∷ [])

  unfoldable pub generate_session_name : Exec Text
  generate_session_name = do stamp ← ask env.utc_stamp; pure (lit "IronSoft_" ++ stamp)

  unfoldable pub session_name_for : V → Exec Text
  session_name_for cmd =
      let name = extract_session_name cmd in
      if is_empty name then generate_session_name else pure name

  unfoldable pub call_start : Text → Exec LoggerResult
  call_start session_name = do
    curl ← ask env.curl
    or_throw (data_logger_start json curl setup.config setup.config.rest_api session_name)

  -- The reply to a start that the device refused.
  unfoldable pub start_failed : Text → Text → LoggerResult → ℕ → Action
  start_failed id type start_result start_http_code =
      if start_result.http_code == 409
      then (do
        now_ms ← mono_ms c
        conflict_state ← request_logger_state c (lit "logger.start.conflict") now_ms
        publish_status c
        send_ack c id type true (lit "already recording") [] start_http_code)
      else (do
        set_state (if start_result.http_code == 404 then idle else error)
        let reported = rest_error_or_http start_result
        let err = if is_empty reported then lit "HTTP_" ++ decimal start_http_code else reported
        set_error c err
        publish_status c
        send_ack c id type false (lit "start failed") err start_http_code)

  -- The two looks at the device after a start that it accepted, and the reply.
  unfoldable pub verify_start : Text → Text → ℕ → Action
  verify_start id type start_http_code = do
    now_ms ← mono_ms c
    verify_now ← request_logger_state c (lit "logger.start.verify.now") now_ms
    later_ms ← mono_ms c
    verify_later ← request_logger_state c (lit "logger.start.verify.later") later_ms
    publish_status c
    let failing = if verify_later.ok then verify_later else verify_now
    let reported = rest_error_or_http failing
    let verify_err = if is_empty reported then lit "state_not_confirmed" else reported
    if logger_state_matches verify_now true || logger_state_matches verify_later true
        then send_ack c id type true (lit "recording started") [] start_http_code
        else send_ack c id type false (lit "recording not confirmed") verify_err
            (http_code_or_default failing start_http_code)

  unfoldable pub start_recording : Text → Text → V → Action
  start_recording id type cmd = do
    session_name ← session_name_for cmd
    set_state starting
    publish_status c
    start_result ← call_start session_name
    now_ms ← mono_ms c
    mark_rest_result c start_result (lit "logger.start") now_ms
    let start_http_code = http_code_or_default start_result 500
    if not start_result.ok
        then start_failed id type start_result start_http_code
        else verify_start id type start_http_code

  unfoldable pub handle_logger_start : Text → Text → V → Action
  handle_logger_start id type cmd = guarded id type do
    now_ms ← mono_ms c
    pre_status ← request_logger_state c (lit "logger.start.precheck") now_ms
    publish_status c
    if result_reports_recording pre_status
        then send_ack c id type true (lit "already recording") []
            (http_code_or_default pre_status 200)
        else start_recording id type cmd
