-- ===== src/Wire/Commands.antt =====
-- The logger commands of the desktop client (gui/src/mqtt_paho_client.cpp), as the service of the sensor
-- (services/ekinox) takes them.
use ironsoft.Prelude.{ℕ, ◌≡◌, refl, ◌∙◌, sym, ap, subst, [], ◌∷◌, Bool, true, false}
use ironsoft.Text.{Text, lit, text_eq, is_empty}
use ironsoft.Types.{CommandType, logger_start, logger_stop, logger_status, try_parse_command_type}
use ironsoft.Json.{negative, Json, Fields, Scalar, str, bool, int, parsed}
use ironsoft.Topics.{make_topics}
use ironsoft.Gui.Client.State.{Client, t_cmd, t_ack}
use ironsoft.Gui.Client.Pings.{logger_start_fields, logger_stop_fields, logger_status_fields}
use ironsoft.Service.State.{Service, CommandMessage}
use ironsoft.Service.Exec.{Context, Action, pure}
use ironsoft.Service.Commands.{
  dispatch, bad_timestamp, handle_command_object, handle_parsed, handle_command_message,
  handle_logger_status,
}
use ironsoft.Service.Commands.Start.{extract_session_name, session_name_for, handle_logger_start}
use ironsoft.Service.Commands.Stop.{handle_logger_stop}
use ironsoft.Wire.Names.{client_topics-agree}
use ironsoft.Service.Answers.{Answering}
use ironsoft.Service.Answers.Commands.{named, handle_command_message-answers}

-- The three calls of the desktop client.
pub data LoggerCommand : Type 0 where
  start : (session_name : Text) (now_s : ℕ) → LoggerCommand
  stop : LoggerCommand
  status : (now_s : ℕ) → LoggerCommand

abbrev pub fields_of : Text → LoggerCommand → Fields
fields_of id (start session_name now_s) = logger_start_fields id session_name now_s
fields_of id stop = logger_stop_fields id
fields_of id (status now_s) = logger_status_fields id now_s

abbrev pub type_of : LoggerCommand → Text
type_of (start session_name now_s) = lit "logger.start"
type_of stop = lit "logger.stop"
type_of (status now_s) = lit "logger.status"

abbrev pub is_stamped : LoggerCommand → Bool
is_stamped stop = false
is_stamped _ = true

abbrev pub command_of : LoggerCommand → CommandType
command_of (start session_name now_s) = logger_start
command_of stop = logger_stop
command_of (status now_s) = logger_status

-- What the desktop client wrote with Qt, as jsoncpp reads it.
module _ {V : Type 0} (json : Json V) where
  open json use {is_string, is_bool, is_int64, as_string, as_bool, int_value, member, is_member}

  abbrev IsScalar : V → Scalar → Type 0
  IsScalar v (str text) = (is_string v ≡ true) × (as_string v ≡ text)
  IsScalar v (bool b) = (is_bool v ≡ true) × (as_bool v ≡ b)
  IsScalar v (int n) = is_int64 v ≡ true
  IsScalar v (negative n) = is_int64 v ≡ true

  abbrev pub Carries : V → Fields → Type 0
  Carries obj [] = Unit
  Carries obj ((name, content) ∷ rest) =
      (is_member obj name ≡ true) × IsScalar (member obj name) content × Carries obj rest

-- The payload holds just the members that the desktop client wrote.
pub record IsCommand {V : Type 0} (json : Json V) (payload id : Text) (command : LoggerCommand)
    (obj : V) : Type 0 where
  pub parses : json.parse payload ≡ parsed obj
  pub object : json.is_object obj ≡ true
  pub carries : Carries json obj (fields_of id command)
  pub stamped : json.is_member obj "ts" ≡ is_stamped command

module _ {V : Type 0} (c : Context V) (id : Text) (named_id : is_empty id ≡ false) (obj : V) where
  open c use {setup, json, env}

  abbrev pub handler_of : LoggerCommand → Action
  handler_of (start session_name now_s) = handle_logger_start c id (lit "logger.start") obj
  handler_of stop = handle_logger_stop c id (lit "logger.stop")
  handler_of (status now_s) = handle_logger_status c id (lit "logger.status")

  handled :
      (command : LoggerCommand) (m : CommandMessage)
      → IsCommand json m.payload id command obj
      → handle_command_message c m ≡ handler_of command
  unfolding handle_command_message handle_parsed handle_command_object bad_timestamp dispatch
      logger_start_fields logger_stop_fields logger_status_fields try_parse_command_type lit text_eq
      is_empty
  handled (start session_name now_s) m is =
      let (_, (is_id, id_is), (_, (is_type, type_is), (_, whole, _))) = is.carries in
      rw (is.parses, is.object, is_type, type_is, is_id, id_is, named_id, is.stamped, whole) refl
  handled stop m is =
      let (_, (is_id, id_is), (_, (is_type, type_is), _)) = is.carries in
      rw (is.parses, is.object, is_type, type_is, is_id, id_is, named_id, is.stamped) refl
  handled (status now_s) m is =
      let (_, (is_id, id_is), (_, (is_type, type_is), (_, whole, _))) = is.carries in
      rw (is.parses, is.object, is_type, type_is, is_id, id_is, named_id, is.stamped, whole) refl

  named_by :
      (command : LoggerCommand) (m : CommandMessage)
      → IsCommand json m.payload id command obj
      → named c (json.parse m.payload) ≡ (type_of command, id)
  unfolding logger_start_fields logger_stop_fields logger_status_fields
  named_by (start session_name now_s) m is =
      let (_, (is_id, id_is), (_, (is_type, type_is), _)) = is.carries in
      rw (is.parses, is.object, is_type, type_is, is_id, id_is) refl
  named_by stop m is =
      let (_, (is_id, id_is), (_, (is_type, type_is), _)) = is.carries in
      rw (is.parses, is.object, is_type, type_is, is_id, id_is) refl
  named_by (status now_s) m is =
      let (_, (is_id, id_is), (_, (is_type, type_is), _)) = is.carries in
      rw (is.parses, is.object, is_type, type_is, is_id, id_is) refl

  -- The session that a start names.
  abbrev pub Requests : LoggerCommand → Type 0
  Requests (start session_name now_s) =
      is_empty session_name ≡ false → session_name_for c obj ≡ pure session_name
  Requests _ = Unit

  requested :
      (command : LoggerCommand) (m : CommandMessage)
      → IsCommand json m.payload id command obj
      → Requests command
  unfolding logger_start_fields extract_session_name session_name_for
  requested (start session_name now_s) m is =
      let (_, _, (_, _, (_, _, (_, (is_name, name_is), _)))) = is.carries in
      λ filled. rw (is_name, name_is, filled, filled) refl
  requested stop m is = tt
  requested (status now_s) m is = tt

  -- A logger command of the desktop client with an id that is not empty, which the service of the same
  -- drone reads as it was written, over a connection on which the MQTT client accepts every message: it
  -- comes on the service's topic of commands, it is taken by the handler of its name, with the session
  -- that the desktop client named where it named one, and it is answered once, with its type and id, on
  -- the desktop client's topic of acknowledgements, unless handling it throws.
  pub logger_command-answered :
      (gui : Client)
      → setup.topics ≡ make_topics gui.cfg.drone_id
      → ((n : ℕ) → env.publishes n ≡ true)
      → (command : LoggerCommand) (m : CommandMessage) (s : Service) → s.link.connected ≡ true
      → IsCommand json m.payload id command obj
      → (t_cmd gui ≡ setup.topics.cmd)
        × (handle_command_message c m ≡ handler_of command)
        × Requests command
        × Answering (t_ack gui) (type_of command) id s (handle_command_message c m s)
  logger_command-answered gui same_drone up command m s connected is =
      let agree = client_topics-agree gui in
      let same_cmd = agree.3 ∙ sym agree.8 ∙ sym (ap (λ t. t.cmd) same_drone) in
      let same_ack = agree.4 ∙ sym agree.9 in
      let answered =
        handle_command_message-answers c gui.cfg.drone_id same_drone up m s connected in
      (
        same_cmd,
        handled command m is,
        requested command m is,
        subst (λ topic. Answering topic (type_of command) id s (handle_command_message c m s))
            (sym same_ack)
            (subst
              (λ n.
                Answering (make_topics gui.cfg.drone_id).ack n.0 n.1 s
                  (handle_command_message c m s))
              (named_by command m is) answered),
      )
