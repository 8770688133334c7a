-- ===== src/Tests/Wire.antt =====
-- The logger commands and the backend's heartbeats at concrete inputs.
use ironsoft.Prelude.{ℕ, ◌%◌, ◌^◌, ◌≡◌, refl, [], ◌∷◌, true, false}
use ironsoft.Prelude.Int.{pos}
use ironsoft.Text.{Text, lit, text_eq, is_empty}
use ironsoft.Topics.{make_topics}
use ironsoft.Gui.Client.State.{Client, start_client, t_cmd, t_ack}
use ironsoft.Gui.Client.Pings.{logger_start_fields}
use ironsoft.Service.State.{make_setup, init, CommandMessage}
use ironsoft.Service.Exec.{Context}
use ironsoft.Service.Commands.{handle_command_message}
use ironsoft.Service.Answers.{Answering}
use ironsoft.Backend.State.{start_backend, backend_topics}
use ironsoft.Backend.Session.{Attempt, beats, run_connect_loop}
use ironsoft.Backend.Numbers.{Counted, payloads_on, run_connect_loop-Counted}
use ironsoft.Config.{EkinoxConfig}
use ironsoft.Backend.State.{MqttConfig, default_mqtt_config}
use ironsoft.Gui.Config.{MqttGuiConfig, blank_config}
use ironsoft.Service.Options.{service_options}
use ironsoft.Backend.Options.{backend_options}
use ironsoft.Gui.Options.{client_options}
use ironsoft.Wire.Options.{SameBroker, Beside, options-Beside}
use ironsoft.Wire.Commands.{
  LoggerCommand, start, IsCommand, handler_of, Requests, type_of, logger_command-answered,
}
use ironsoft.Tests.Data.{
  Document, object, text, number, document_json, calm_context, loaded_config, connected_state,
}
use ironsoft.Tests.Client.{checked_json, bad_attempt, gui_ping, gui_config}

abbrev start_document : Document
start_document =
    ([], object)
    ∷ (lit "/type", text (lit "logger.start"))
    ∷ (lit "/id", text (lit "gui_start_1"))
    ∷ (lit "/ts", number (pos 9))
    ∷ (lit "/sessionName", text (lit "flight"))
    ∷ []

abbrev start_context : Context Text
start_context = record calm_context { json = document_json start_document }

abbrev start_command : LoggerCommand
start_command = start (lit "flight") 9

abbrev start_message : CommandMessage
start_message = record { topic = lit "ironsoft/uav/uav1/cmd"; payload = lit "{}" }

abbrev uav1_client : Client
uav1_client = record start_client { cfg = gui_config }

start_message-IsCommand :
    IsCommand (document_json start_document) (lit "{}") (lit "gui_start_1") start_command []
unfolding lit text_eq logger_start_fields
start_message-IsCommand = record {
  parses = refl;
  object = refl;
  carries = (refl, (refl, refl), (refl, (refl, refl), (refl, refl, (refl, (refl, refl), tt))));
  stamped = refl;
}

same_topics : start_context.setup.topics ≡ make_topics uav1_client.cfg.drone_id
unfolding make_setup
same_topics = refl

named_start : is_empty (lit "gui_start_1") ≡ false
unfolding lit is_empty
named_start = refl

is_connected : connected_state.link.connected ≡ true
unfolding init
is_connected = refl

logger_command-answered_example :
    (t_cmd uav1_client ≡ start_context.setup.topics.cmd)
    × (handle_command_message start_context start_message
        ≡ handler_of start_context (lit "gui_start_1") named_start [] start_command)
    × Requests start_context (lit "gui_start_1") named_start [] start_command
    × Answering
        (t_ack uav1_client)
        (type_of start_command)
        (lit "gui_start_1")
        connected_state
        (handle_command_message start_context start_message connected_state)
logger_command-answered_example =
    logger_command-answered start_context (lit "gui_start_1") named_start [] uav1_client same_topics
      (λ n. refl) start_command start_message connected_state is_connected start_message-IsCommand

-- Two heartbeats over the first connection, and one over the second.
abbrev two_beats : Attempt
two_beats = record bad_attempt { occurrences = beats 1000 ∷ beats 2000 ∷ [] }

abbrev one_beat : Attempt
one_beat = record bad_attempt { occurrences = beats 9000 ∷ [] }

run_connect_loop-Counted_example :
    (n : ℕ) × ((run_connect_loop
        (checked_json gui_ping)
        (backend_topics (lit "uav1"))
        ((two_beats, false) ∷ (one_beat, true) ∷ [])
        start_backend).heartbeat_seq
      ≡ n % 2 ^ 32)
    × Counted n (
        payloads_on
          (backend_topics (lit "uav1")).heartbeat
          (run_connect_loop
            (checked_json gui_ping)
            (backend_topics (lit "uav1"))
            ((two_beats, false) ∷ (one_beat, true) ∷ [])
            start_backend).sent)
run_connect_loop-Counted_example =
    run_connect_loop-Counted (checked_json gui_ping) (lit "uav1")
      ((two_beats, false) ∷ (one_beat, true) ∷ [])

abbrev user_config : EkinoxConfig
user_config = record loaded_config {
  mqtt = record (loaded_config.mqtt) { username = lit "op"; password = lit "pw" };
}

abbrev user_backend : MqttConfig
user_backend = record default_mqtt_config {
  host = lit "broker";
  username = lit "op";
  password = lit "pw";
}

abbrev user_gui : MqttGuiConfig
user_gui = record blank_config {
  host = lit "broker";
  port = 1883;
  user = lit "op";
  pass = lit "pw";
}

user-SameBroker : SameBroker user_config user_backend user_gui
unfolding lit is_empty
user-SameBroker = record {
  backend_host = refl;
  gui_host = refl;
  backend_port = refl;
  gui_port = refl;
  backend_user = refl;
  gui_user = refl;
  backend_password = refl;
  gui_password = refl;
  has_user = refl;
  has_password = refl;
}

options-Beside_example :
    Beside (service_options user_config 5000000000) (backend_options user_backend)
    × Beside (service_options user_config 5000000000) (client_options user_gui)
    × Beside (backend_options user_backend) (client_options user_gui)
options-Beside_example = options-Beside user_config user_backend user_gui 5000000000 user-SameBroker
