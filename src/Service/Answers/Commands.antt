-- ===== src/Service/Answers/Commands.antt =====
-- Every command that is handled is answered exactly once.
use ironsoft.Prelude.{arith, ℕ, ◌≡◌, refl, sym, subst, Bool, true, false, [], ◌∷◌, if◌then◌else◌}
use ironsoft.Text.{Text, is_empty, tests_apart, lit}
use ironsoft.Topics.{make_topics}
use ironsoft.Topics.Distinct.{AllDistinct, channels, channels-AllDistinct}
use ironsoft.Json.{Parsed, parsed, parse_error}
use ironsoft.Types.{
  CommandType, ping, logger_start, logger_stop, logger_status, unknown, try_parse_command_type,
}
use ironsoft.Service.State.{Service, CommandMessage}
use ironsoft.Service.Exec.{Context, Action}
use ironsoft.Service.Quiet.{Apart}
use ironsoft.Service.Commands.{
  handle_ping, dispatch, bad_request, text_member, bad_timestamp, handle_command_object,
  handle_parsed, handle_command_message,
}
use ironsoft.Service.Answers.{Proper, Answering, Replies-if, publish_ack-Replies}
use ironsoft.Service.Answers.Logger.{
  Answers, accept-Answers, handle_logger_start-Answers, handle_logger_stop-Answers,
  handle_logger_status-Answers,
}

ack_filled : (drone_id : Text) → is_empty (make_topics drone_id).ack ≡ false
unfolding make_topics lit is_empty
ack_filled drone_id = refl

unknown_type-Proper : Proper false [] (lit "unknown_type")
unfolding lit
unknown_type-Proper = record { fits = λ e. cc; message_clean = tt; err_clean = ground arith }

bad_request-Proper : Proper false [] (lit "bad_request")
unfolding lit
bad_request-Proper = record { fits = λ e. cc; message_clean = tt; err_clean = ground arith }

module _ {V : Type 0} (c : Context V) where
  open c use {setup, json, env}

  abbrev pub object_names : Bool → V → Text × Text
  object_names true root = (text_member c root "type", text_member c root "id")
  object_names false root = ([], [])

  -- The type and the id that a payload names, or two empty texts.
  abbrev pub named : Parsed V → Text × Text
  named (parse_error e) = ([], [])
  named (parsed root) = object_names (json.is_object root) root

  module _ (up : (n : ℕ) → env.publishes n ≡ true) (apart : Apart setup) where
    dispatch-Answers :
        (t : CommandType) (id type : Text) (root : V)
        → Answers c type id (dispatch c t id type root)
    unfolding dispatch handle_ping
    dispatch-Answers unknown id type root =
        publish_ack-Replies c up apart type id false 400 [] (lit "unknown_type") unknown_type-Proper
    dispatch-Answers ping id type root = accept-Answers c up apart _ _ _ _
    dispatch-Answers logger_start id type root = handle_logger_start-Answers c up apart id type root
    dispatch-Answers logger_stop id type root = handle_logger_stop-Answers c up apart id type
    dispatch-Answers logger_status id type root = handle_logger_status-Answers c up apart id type

    bad_request-Answers : (type id : Text) → Answers c type id (bad_request c type id)
    unfolding bad_request
    bad_request-Answers type id =
        publish_ack-Replies c up apart type id false 400 [] (lit "bad_request") bad_request-Proper

    -- A missing type or id is answered as the empty text, which it was read as.
    blank_type :
        (type id : Text)
        → {m : Action} → Answers c type id m
        → Answers c type id (if is_empty type then bad_request c [] id else m)
    unfolding is_empty
    blank_type [] id a = bad_request-Answers [] id
    blank_type (b ∷ type) id a = a

    blank_id :
        (type id : Text)
        → {m : Action} → Answers c type id m
        → Answers c type id (if is_empty id then bad_request c type [] else m)
    unfolding is_empty
    blank_id type [] a = bad_request-Answers type []
    blank_id type (b ∷ id) a = a

    handle_command_object-Answers :
        (root : V)
        → Answers c
            (text_member c root "type")
            (text_member c root "id")
            (handle_command_object c root)
    unfolding handle_command_object
    handle_command_object-Answers root =
        let type = text_member c root "type" in
        let id = text_member c root "id" in
        blank_type type id (
          blank_id type id (
            Replies-if c (bad_timestamp c root) (bad_request-Answers type id)
              (dispatch-Answers (try_parse_command_type type).0 id type root)))

    handle_object :
        (object : Bool) (root : V)
        → Answers c
            (object_names object root).0
            (object_names object root).1
            (if object then handle_command_object c root else bad_request c [] [])
    handle_object true root = handle_command_object-Answers root
    handle_object false root = bad_request-Answers [] []

    handle_parsed-Answers : (p : Parsed V) → Answers c (named p).0 (named p).1 (handle_parsed c p)
    unfolding handle_parsed
    handle_parsed-Answers (parse_error e) = bad_request-Answers [] []
    handle_parsed-Answers (parsed root) = handle_object (json.is_object root) root

    handle_command_message-Answers :
        (m : CommandMessage)
        → Answers c
            (named (json.parse m.payload)).0
            (named (json.parse m.payload)).1
            (handle_command_message c m)
    unfolding handle_command_message
    handle_command_message-Answers m = handle_parsed-Answers (json.parse m.payload)

  -- The report topics of a drone are apart from its topic of acknowledgements.
  make_topics-Apart : (drone_id : Text) → setup.topics ≡ make_topics drone_id → Apart setup
  make_topics-Apart drone_id e =
      let all_apart =
        subst (λ t. AllDistinct (channels t)) (sym e) (channels-AllDistinct drone_id) in
      record {
        presence = tests_apart _ _ all_apart.0.1.1.1.0;
        status = tests_apart _ _ all_apart.1.0.1.1.0;
        ack = subst (λ t. is_empty t.ack ≡ false) (sym e) (ack_filled drone_id);
      }

  -- Where the MQTT client accepts every message and the topics are a drone's, a command that arrives
  -- while the service is connected is answered exactly once on the topic of the acknowledgements, with
  -- the type and the id that its payload names (the empty text for what it does not name, or is no
  -- object), and the service is connected after it, unless handling it throws: then nothing is added
  -- there. The answer names an error exactly where it refuses, and its message and error hold ASCII
  -- bytes only, and of those below 0x20 tabs and line ends only; DEL (0x7F) may be among them.
  pub handle_command_message-answers :
      (drone_id : Text)
      → setup.topics ≡ make_topics drone_id
      → ((n : ℕ) → env.publishes n ≡ true)
      → (m : CommandMessage) (s : Service) → s.link.connected ≡ true
      → Answering
          (make_topics drone_id).ack
          (named (json.parse m.payload)).0
          (named (json.parse m.payload)).1
          s
          (handle_command_message c m s)
  handle_command_message-answers drone_id e up m s h =
      subst
        (λ t.
          Answering t.ack (named (json.parse m.payload)).0 (named (json.parse m.payload)).1 s
            (handle_command_message c m s))
        e ((handle_command_message-Answers up (make_topics-Apart drone_id e) m).at s h)
