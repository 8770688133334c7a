-- ===== src/Service/Invariant/Commands.antt =====
-- Every command handler keeps the invariant, and so does the queue of commands.
use ironsoft.Prelude.{ℕ, Option, none, some, List, [], ◌∷◌, arith}
use ironsoft.Text.{Text, is_empty}
use ironsoft.Types.{
  CommandType, ping, logger_start, logger_stop, logger_status, unknown, try_parse_command_type,
}
use ironsoft.Json.{Parsed, parsed, parse_error}
use ironsoft.Rest.Enrich.{LoggerResult}
use ironsoft.Service.State.{CommandMessage}
use ironsoft.Service.Steps.{
  Order, Steps, Steps-pure, Steps-gets, Steps-ask, Steps-bind, Steps-modify, Steps-if,
}
use ironsoft.Service.Exec.{Context, Action, ◌>>=◌, mono_ms}
use ironsoft.Service.Invariant.{
  Keep, keep, set_state-Inv, mono_ms-Inv, set_error-Inv, update_link_health-Inv,
}
use ironsoft.Service.Invariant.Rest.{
  publish_status-Inv, publish_ack-Inv, send_ack-Inv, update_presence_state-Inv, or_throw-Inv,
  mark_rest_result-Inv, request_logger_state-Inv,
}
use ironsoft.Service.RestResult.{request_logger_state}
use ironsoft.Service.Commands.Start.{
  refuse_offline, refuse_config, if_valid, guarded, generate_session_name, session_name_for,
  call_start, start_failed, verify_start, start_recording, handle_logger_start,
}
use ironsoft.Service.Commands.Stop.{
  already_stopped, call_stop, stop_refused, stop_failed, verify_stop, stop_recording,
  handle_logger_stop, clear_session,
}
use ironsoft.Service.Commands.{
  status_reply, handle_logger_status, handle_ping, dispatch, bad_request, text_member,
  bad_timestamp, handle_command_object, handle_parsed, handle_command_message, handle_all,
  drain_commands,
}

module _ {V : Type 0} (c : Context V) where
  open c use {setup, json}

  abbrev k : Order (Keep setup)
  k = keep c

  refuse_offline-Inv : (id type : Text) → Steps (Keep setup) (refuse_offline c id type)
  unfolding refuse_offline
  refuse_offline-Inv id type =
      Steps-bind k (set_error-Inv c _)
        λ _. Steps-bind k (publish_status-Inv c) λ _. send_ack-Inv c _ _ _ _ _ _

  refuse_config-Inv : (id type t : Text) → Steps (Keep setup) (refuse_config c id type t)
  unfolding refuse_config
  refuse_config-Inv id type t = Steps-bind k (set_error-Inv c _) λ _.
      Steps-bind k (mono_ms-Inv c) λ now_ms. Steps-bind k (update_link_health-Inv c _) λ _.
        Steps-bind k (update_presence_state-Inv c _ _)
          λ _. Steps-bind k (publish_status-Inv c) λ _. send_ack-Inv c _ _ _ _ _ _

  if_valid-Inv :
      (r : Option Text) (id type : Text) {body : Action}
      → Steps (Keep setup) body
      → Steps (Keep setup) (if_valid c r id type body)
  unfolding if_valid
  if_valid-Inv none id type b = b
  if_valid-Inv (some t) id type b = refuse_config-Inv id type t

  guarded-Inv :
      (id type : Text) {body : Action}
      → Steps (Keep setup) body
      → Steps (Keep setup) (guarded c id type body)
  unfolding guarded
  guarded-Inv id type b =
      Steps-bind k (Steps-gets k _)
        λ connected. Steps-if _ (refuse_offline-Inv id type) (if_valid-Inv _ id type b)

  -- Asking the device and publishing what it says.
  look-Inv :
      (reason : Text) {f : LoggerResult → Action}
      → ((r : LoggerResult) → Steps (Keep setup) (f r))
      → Steps (Keep setup) do now_ms ← mono_ms c; r ← request_logger_state c reason now_ms; f r
  look-Inv reason kf =
      Steps-bind k (mono_ms-Inv c) λ now_ms. Steps-bind k (request_logger_state-Inv c _ _) kf

  session_name_for-Inv : (root : V) → Steps (Keep setup) (session_name_for c root)
  unfolding session_name_for generate_session_name
  session_name_for-Inv root =
      Steps-if _ (Steps-bind k (Steps-ask k _) λ stamp. Steps-pure k _) (Steps-pure k _)

  start_failed-Inv :
      (id type : Text) (r : LoggerResult) (code : ℕ)
      → Steps (Keep setup) (start_failed c id type r code)
  unfolding start_failed
  start_failed-Inv id type r code =
      Steps-if _
        (look-Inv _ λ r. Steps-bind k (publish_status-Inv c) λ _. send_ack-Inv c _ _ _ _ _ _)
        (Steps-bind k (set_state-Inv c _) λ _.
          Steps-bind k (set_error-Inv c _)
            λ _. Steps-bind k (publish_status-Inv c) λ _. send_ack-Inv c _ _ _ _ _ _)

  verify_start-Inv : (id type : Text) (code : ℕ) → Steps (Keep setup) (verify_start c id type code)
  unfolding verify_start
  verify_start-Inv id type code = look-Inv _ λ first. look-Inv _ λ later.
      Steps-bind k (publish_status-Inv c)
        λ _. Steps-if _ (send_ack-Inv c _ _ _ _ _ _) (send_ack-Inv c _ _ _ _ _ _)

  handle_logger_start-Inv :
      (id type : Text) (root : V) → Steps (Keep setup) (handle_logger_start c id type root)
  unfolding handle_logger_start start_recording call_start
  handle_logger_start-Inv id type root = guarded-Inv id type (
      look-Inv _ λ pre. Steps-bind k (publish_status-Inv c) λ _.
        Steps-if _ (send_ack-Inv c _ _ _ _ _ _) (
          Steps-bind k (session_name_for-Inv root) λ name. Steps-bind k (set_state-Inv c _) λ _.
            Steps-bind k (publish_status-Inv c) λ _.
              Steps-bind k (Steps-bind k (Steps-ask k _) λ curl. or_throw-Inv c _) λ r.
                Steps-bind k (mono_ms-Inv c) λ now_ms.
                  Steps-bind k (mark_rest_result-Inv c _ _ _)
                    λ _. Steps-if _ (start_failed-Inv id type r _) (verify_start-Inv id type _)))

  clear_session-Inv : Steps (Keep setup) clear_session
  clear_session-Inv = Steps-modify _ λ s h. ground arith

  already_stopped-Inv :
      (id type : Text) (code : ℕ) → Steps (Keep setup) (already_stopped c id type code)
  unfolding already_stopped
  already_stopped-Inv id type code = Steps-bind k clear_session-Inv λ _.
      Steps-bind k (set_state-Inv c _)
        λ _. Steps-bind k (publish_status-Inv c) λ _. send_ack-Inv c _ _ _ _ _ _

  stop_refused-Inv :
      (id type : Text) (r : LoggerResult) (code : ℕ)
      → Steps (Keep setup) (stop_refused c id type r code)
  unfolding stop_refused
  stop_refused-Inv id type r code = Steps-bind k (set_state-Inv c _) λ _.
      Steps-bind k (set_error-Inv c _)
        λ _. Steps-bind k (publish_status-Inv c) λ _. send_ack-Inv c _ _ _ _ _ _

  stop_failed-Inv :
      (id type : Text) (r : LoggerResult) (code : ℕ)
      → Steps (Keep setup) (stop_failed c id type r code)
  unfolding stop_failed
  stop_failed-Inv id type r code =
      Steps-if _
        (look-Inv _ λ retry.
          Steps-bind k (publish_status-Inv c)
            λ _. Steps-if _ (already_stopped-Inv id type code) (stop_refused-Inv id type r code))
        (stop_refused-Inv id type r code)

  verify_stop-Inv : (id type : Text) (code : ℕ) → Steps (Keep setup) (verify_stop c id type code)
  unfolding verify_stop
  verify_stop-Inv id type code = look-Inv _ λ first. look-Inv _ λ later.
      Steps-bind k (Steps-if _ clear_session-Inv (Steps-pure k _)) λ _.
        Steps-bind k (publish_status-Inv c)
          λ _. Steps-if _ (send_ack-Inv c _ _ _ _ _ _) (send_ack-Inv c _ _ _ _ _ _)

  handle_logger_stop-Inv : (id type : Text) → Steps (Keep setup) (handle_logger_stop c id type)
  unfolding handle_logger_stop stop_recording call_stop
  handle_logger_stop-Inv id type = guarded-Inv id type (
      look-Inv _ λ pre. Steps-bind k (publish_status-Inv c) λ _.
        Steps-if _ (already_stopped-Inv id type _) (
          Steps-bind k (set_state-Inv c _) λ _. Steps-bind k (publish_status-Inv c) λ _.
            Steps-bind k (Steps-bind k (Steps-ask k _) λ curl. or_throw-Inv c _) λ r.
              Steps-bind k (mono_ms-Inv c) λ now_ms.
                Steps-bind k (mark_rest_result-Inv c _ _ _)
                  λ _. Steps-if _ (stop_failed-Inv id type r _) (verify_stop-Inv id type _)))

  handle_logger_status-Inv : (id type : Text) → Steps (Keep setup) (handle_logger_status c id type)
  unfolding handle_logger_status status_reply
  handle_logger_status-Inv id type = guarded-Inv id type (
      look-Inv _ λ r. Steps-bind k (publish_status-Inv c) λ _.
        Steps-bind k (Steps-gets k _)
          λ active. Steps-if _ (send_ack-Inv c _ _ _ _ _ _) (send_ack-Inv c _ _ _ _ _ _))

  dispatch-Inv :
      (t : CommandType) (id type : Text) (root : V) → Steps (Keep setup) (dispatch c t id type root)
  unfolding dispatch handle_ping
  dispatch-Inv unknown id type root = publish_ack-Inv c _ _ _ _ _ _
  dispatch-Inv ping id type root = send_ack-Inv c _ _ _ _ _ _
  dispatch-Inv logger_start id type root = handle_logger_start-Inv id type root
  dispatch-Inv logger_stop id type root = handle_logger_stop-Inv id type
  dispatch-Inv logger_status id type root = handle_logger_status-Inv id type

  bad_request-Inv : (type id : Text) → Steps (Keep setup) (bad_request c type id)
  unfolding bad_request
  bad_request-Inv type id = publish_ack-Inv c _ _ _ _ _ _

  handle_command_object-Inv : (root : V) → Steps (Keep setup) (handle_command_object c root)
  unfolding handle_command_object
  handle_command_object-Inv root =
      let type = text_member c root "type" in
      let id = text_member c root "id" in
      Steps-if (is_empty type) (bad_request-Inv [] id) (
        Steps-if (is_empty id) (bad_request-Inv type []) (
          Steps-if (bad_timestamp c root) (bad_request-Inv type id)
            (dispatch-Inv (try_parse_command_type type).0 id type root)))

  handle_parsed-Inv : (p : Parsed V) → Steps (Keep setup) (handle_parsed c p)
  unfolding handle_parsed
  handle_parsed-Inv (parse_error e) = bad_request-Inv _ _
  handle_parsed-Inv (parsed root) =
      Steps-if _ (handle_command_object-Inv root) (bad_request-Inv _ _)

  pub handle_command_message-Inv :
      (m : CommandMessage) → Steps (Keep setup) (handle_command_message c m)
  unfolding handle_command_message
  handle_command_message-Inv m = handle_parsed-Inv _

  handle_all-Inv : (l : List CommandMessage) → Steps (Keep setup) (handle_all c l)
  unfolding handle_all
  handle_all-Inv [] = Steps-pure k _
  handle_all-Inv (m ∷ rest) = Steps-bind k (handle_command_message-Inv m) λ _. handle_all-Inv rest

  -- Handling the queued commands keeps the invariant, whatever they hold and whatever they throw.
  pub drain_commands-Inv : Steps (Keep setup) (drain_commands c)
  unfolding drain_commands
  drain_commands-Inv =
      Steps-bind k (Steps-gets k _)
        λ local. Steps-bind k (Steps-modify _ λ s h. ground arith) λ _. handle_all-Inv local
