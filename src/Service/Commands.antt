-- ===== src/Service/Commands.antt =====
-- The MQTT commands and their handlers (services/ekinox/src/ekinox_service.cpp). Waiting for the
-- verification delay changes no member, and is left to the clocks of the environment.
pub mod Start
pub mod Stop
use ironsoft.Prelude.{
  ℕ, Bool, true, false, ◌&&◌, ◌||◌, not, Option, none, some, List, [], ◌∷◌, ◌++◌, String, ◌==◌,
  if◌then◌else◌,
}
use ironsoft.Text.{Text, lit, is_empty, decimal}
use ironsoft.Types.{
  CommandType, ping, logger_start, logger_stop, logger_status, unknown, try_parse_command_type,
}
use ironsoft.Json.{Json, Parsed, parsed, parse_error}
use ironsoft.Rest.Enrich.{LoggerResult}
use ironsoft.Service.State.{Service, Setup, CommandMessage}
use ironsoft.Service.Exec.{Context, Action, skip, pure, gets, modify, ◌>>=◌, ◌>>◌, mono_ms}
use ironsoft.Service.Publish.{publish_ack, send_ack, publish_status}
use ironsoft.Service.RestResult.{http_code_or_default, rest_error_or_http, request_logger_state}
use ironsoft.Service.Commands.Start.{guarded, handle_logger_start}
use ironsoft.Service.Commands.Stop.{handle_logger_stop}

module _ {V : Type 0} (c : Context V) where
  open c use {setup, json}

  unfoldable pub status_reply : Text → Text → LoggerResult → Action
  status_reply id type result = do
    active ← gets λ s. s.status.recording_active
    let message =
        if not (is_empty result.message)
        then result.message
        else if active
        then lit "recording active"
        else lit "recording inactive"
    let code = http_code_or_default result 500
    let reported = rest_error_or_http result
    let err = if is_empty reported then lit "HTTP_" ++ decimal code else reported
    if result.ok
        then send_ack c id type true message [] (http_code_or_default result 200)
        else send_ack c id type false [] err code

  unfoldable pub handle_logger_status : Text → Text → Action
  handle_logger_status id type = guarded c id type do
    now_ms ← mono_ms c
    result ← request_logger_state c (lit "logger.status.cmd") now_ms
    publish_status c
    status_reply id type result

  unfoldable pub handle_ping : Text → Text → Action
  handle_ping id type = send_ack c id type true (lit "pong") [] 200

  -- The `switch`; what `supported` leaves out comes first.
  unfoldable pub dispatch : CommandType → Text → Text → V → Action
  dispatch unknown id type root = publish_ack c type id false 400 [] (lit "unknown_type")
  dispatch ping id type root = handle_ping id type
  dispatch logger_start id type root = handle_logger_start c id type root
  dispatch logger_stop id type root = handle_logger_stop c id type
  dispatch logger_status id type root = handle_logger_status id type

  unfoldable pub bad_request : Text → Text → Action
  bad_request type id = publish_ack c type id false 400 [] (lit "bad_request")

  -- A string member, or the empty text.
  abbrev pub text_member : V → String → Text
  text_member root name =
      if json.is_string (json.member root name) then json.as_string (json.member root name) else []

  -- A `ts` member that is no 64-bit integer.
  unfoldable pub bad_timestamp : V → Bool
  bad_timestamp root =
      json.is_member root "ts"
      && (not (json.is_int64 (json.member root "ts"))
          && not (json.is_uint64 (json.member root "ts")))

  unfoldable pub handle_command_object : V → Action
  handle_command_object root =
      let type = text_member root "type" in
      let id = text_member root "id" in
      if is_empty type
      then bad_request [] id
      else if is_empty id
      then bad_request type []
      else if bad_timestamp root
      then bad_request type id
      else dispatch (try_parse_command_type type).0 id type root

  unfoldable pub handle_parsed : Parsed V → Action
  handle_parsed (parse_error e) = bad_request [] []
  handle_parsed (parsed root) =
      if json.is_object root then handle_command_object root else bad_request [] []

  unfoldable pub handle_command_message : CommandMessage → Action
  handle_command_message m = handle_parsed (json.parse m.payload)

  unfoldable pub handle_all : List CommandMessage → Action
  handle_all [] = skip
  handle_all (m ∷ rest) = do handle_command_message m; handle_all rest

  -- The queue is swapped out under the lock, and handled in its order.
  unfoldable pub drain_commands : Action
  drain_commands = do
    local ← gets λ s. s.pending_commands
    modify λ s. record s { pending_commands = [] }
    handle_all local
