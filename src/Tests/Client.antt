-- ===== src/Tests/Client.antt =====
-- The desktop client and the backend, at concrete inputs.
use ironsoft.Prelude.{
  ℕ, zero, suc, ◌≡◌, refl, Bool, true, false, ◌&&◌, ◌||◌, Option, none, some, List, [], ◌∷◌, ◌++◌,
  if◌then◌else◌, arith,
}
use ironsoft.Prelude.Int.{ℤ, pos, negsuc}
use ironsoft.Text.{Text, lit, text_eq, is_empty}
use ironsoft.Types.{idle, state_to_string}
use ironsoft.Json.{parsed}
use ironsoft.Config
use ironsoft.Config.{Result, ok}
use ironsoft.Service.State.{StatusPayload}
use ironsoft.Service.Publish.{build_status_json}
use ironsoft.Topics.{make_topics}
use ironsoft.Gui.Json.{QJson}
use ironsoft.Gui.Config.{MqttGuiConfig, contents, blank_config, load_from_json_file}
use ironsoft.Gui.Config.Valid.{IsUsable, load_from_json_file-IsUsable}
use ironsoft.Gui.Client.State.{
  free, opening, consuming, erase_ping, Client, start_client, ping_updated, ack_received, find_ping,
  ekinox_status_changed, emit, set_connected, set_presence, set_client_state, set_config,
  topic_prefix, t_ekinox_prefix,
}
use ironsoft.Gui.Client.Messages.{Incoming, handle_message, handle_ekinox_presence}
use ironsoft.Gui.Client.Worker.{
  succeeds, fails, delivers, work, work_from, consume, next_message, connect_to_broker,
  after_subscription,
}
use ironsoft.Gui.Client.Events.{
  Event, works, configures, connects, stops, joins, pings, registers, shows, times_out, run_events,
  step,
}
use ironsoft.Gui.Client.Stopping.{IsStopped, stops-IsStopped}
use ironsoft.Gui.Client.Sessions.{IsConsistent, run_events-IsConsistent, has_session}
use ironsoft.Gui.Client.PingTimers.{is_pending, times_out-not_pending}
use ironsoft.Gui.Client.PingCounts.{IsCounted, run_events-IsCounted}
use ironsoft.Gui.Client.EarlyAck.{early_ack, command, early_ack-signals}
use ironsoft.Gui.Client.Pings.{
  ping_publish, ping_register, ping_show, can_publish, publish_command_payload, logger_stop_fields,
}
use ironsoft.Gui.Window.State.{
  Widgets, grey, set_backend_led, set_presence_led, set_telemetry_indicator, set_ping_rtt_display,
  set_last_error, set_mode_text, set_led_api, has_text, space_length,
}
use ironsoft.Gui.Window.Clicks.{trimmed}
use ironsoft.Gui.Window.Follows.{
  window_after, window_after-run_events, start_enabled-publish_command_payload,
}
use ironsoft.Gui.Client.Parse.{parse_object}
use ironsoft.Gui.Window.Slots.{
  on_signal, on_connected_changed, on_client_state_changed, on_ekinox_presence_changed,
  start_window, update_backend_health, update_logger_controls, update_ui_for_state,
}
use ironsoft.Backend.Json.{CheckedJson}
use ironsoft.Backend.State.{Topics, backend_topics, start_backend}
use ironsoft.Backend.Commands.{pong, ack_fields_of}
use ironsoft.Backend.Session.{
  Attempt, message, beats, send, answer_command, session, run_connect_loop, publish_presence_online,
  publish_status_retained,
}
use ironsoft.Backend.Losses.{run_connect_loop-disconnected, session-throws}
use ironsoft.Wire.Status.{shown_status, status-shown}
use ironsoft.Wire.Pong.{IsPing, ponged, ping-ponged}

-- What stands at a path of a document.
pub data Leaf : Type 0 where
  nothing branch : Leaf
  words : Text → Leaf
  flag : Bool → Leaf
  whole : ℤ → Leaf

abbrev pub leaf_at : List (Text × Leaf) → Text → Leaf
leaf_at [] path = nothing
leaf_at ((key, leaf) ∷ rest) path = if text_eq key path then leaf else leaf_at rest path

abbrev words_of : Leaf → Option Text
words_of (words t) = some t
words_of _ = none

abbrev flag_of : Leaf → Option Bool
flag_of (flag b) = some b
flag_of _ = none

abbrev whole_of : Leaf → Option ℤ
whole_of (whole n) = some n
whole_of _ = none

abbrev is_there : Leaf → Bool
is_there nothing = false
is_there _ = true

abbrev is_branch : Leaf → Bool
is_branch branch = true
is_branch _ = false

-- Every payload is read as the one document.
abbrev qt_json : List (Text × Leaf) → QJson Text
qt_json d = record {
  from_json = λ payload. parsed [];
  is_object = λ v. is_branch (leaf_at d v);
  value = λ v name. v ++ b'/' ∷ lit name;
  contains = λ v name. is_there (leaf_at d (v ++ b'/' ∷ lit name));
  string_of = λ v. words_of (leaf_at d v);
  bool_of = λ v. flag_of (leaf_at d v);
  int_of = λ v. whole_of (leaf_at d v);
  int64_of = λ v. whole_of (leaf_at d v);
}

abbrev pub checked_json : List (Text × Leaf) → CheckedJson Text
checked_json d = record {
  parse = λ payload. parsed [];
  null = lit "null";
  find = λ v name.
      if is_branch (leaf_at d v)
      then some (
          if is_there (leaf_at d (v ++ b'/' ∷ lit name)) then some (v ++ b'/' ∷ lit name) else none)
      else none;
  as_string = λ v. words_of (leaf_at d v);
  as_int = λ v. whole_of (leaf_at d v);
  as_bool = λ v. flag_of (leaf_at d v);
}

abbrev gui_document : List (Text × Leaf)
gui_document =
    ([], branch)
    ∷ (lit "/broker/host", words (lit "hub"))
    ∷ (lit "/broker/port", whole (pos 1883))
    ∷ (lit "/client/drone_id", words (lit "uav1"))
    ∷ []

abbrev pub gui_config : MqttGuiConfig
gui_config = record blank_config { host = lit "hub"; drone_id = lit "uav1" }

gui_config_loads :
    load_from_json_file (qt_json gui_document) (contents (lit "{}")) (lit "m.json") blank_config
    ≡ ok gui_config
unfolding load_from_json_file lit text_eq is_empty Config.◌>>=◌
gui_config_loads = refl

load_from_json_file-IsUsable_example : IsUsable gui_config
load_from_json_file-IsUsable_example =
    load_from_json_file-IsUsable (qt_json gui_document) (contents (lit "{}")) (lit "m.json")
      blank_config gui_config gui_config_loads

abbrev online_document : List (Text × Leaf)
online_document = ([], branch) ∷ (lit "/state", words (lit "online")) ∷ []

abbrev at_topic : Text → Incoming
at_topic topic = record { topic = topic; payload = lit "{}"; now_ms = 5; now_s = 7 }

-- This many calls that succeed.
abbrev successes : ℕ → List Event
successes zero = []
successes (suc n) = works succeeds ∷ successes n

-- A connection, with its subscriptions, and the sensor comes online.
abbrev go_online : List Event
go_online =
    (configures gui_config ∷ connects ∷ successes 10)
    ++ works (delivers (at_topic (lit "ironsoft/uav/uav1/ekinox/presence"))) ∷ []

-- Then a ping is sent and times out.
abbrev with_ping : List Event
with_ping =
    go_online
    ++ (pings (lit "p1") true ∷ registers 3 ∷ shows ∷ times_out (lit "p1") ∷ works fails ∷ [])

run_events-IsConsistent_example :
    IsConsistent (run_events (qt_json online_document) with_ping start_client)
run_events-IsConsistent_example = run_events-IsConsistent (qt_json online_document) with_ping

-- A connection, and a ping that waits.
abbrev with_waiting_ping : List Event
with_waiting_ping = go_online ++ (pings (lit "p1") true ∷ registers 3 ∷ shows ∷ [])

-- After it the window is free, and the ping is pending.
waiting_ping_runs :
    ((run_events (qt_json online_document) with_waiting_ping start_client).caller ≡ free)
    × (is_pending
          (lit "p1")
          (run_events (qt_json online_document) with_waiting_ping start_client).pending_pings
        ≡ true)
unfolding start_client set_connected set_presence set_client_state set_config topic_prefix
    t_ekinox_prefix step run_events work work_from consume next_message connect_to_broker
    handle_message handle_ekinox_presence parse_object lit text_eq ping_publish ping_register
    ping_show after_subscription can_publish erase_ping find_ping
waiting_ping_runs = (refl, refl)

times_out-not_pending_example :
    is_pending
      (lit "p1")
      (step
        (qt_json online_document)
        (times_out (lit "p1"))
        (run_events (qt_json online_document) with_waiting_ping start_client)).pending_pings
    ≡ false
times_out-not_pending_example =
    times_out-not_pending (lit "p1") (qt_json online_document) with_waiting_ping waiting_ping_runs.0

run_events-IsCounted_example :
    IsCounted (lit "p1") (run_events (qt_json online_document) with_ping start_client)
run_events-IsCounted_example = run_events-IsCounted (lit "p1") (qt_json online_document) with_ping

-- A client whose worker opens its connection.
abbrev opening_client : Client
opening_client = record start_client { cfg = gui_config; has_client = true; worker = opening 1000 }

-- From there: stop, nine steps of the worker, with a click in between, and the join.
stops-IsStopped_example : IsStopped (
    run_events
      (qt_json online_document)
      (stops ∷ ((successes 5 ++ (connects ∷ successes 3) ++ (works fails ∷ [])) ++ (joins ∷ [])))
      opening_client)
unfolding start_client
stops-IsStopped_example =
    stops-IsStopped (qt_json online_document)
      (successes 5 ++ (connects ∷ successes 3) ++ (works fails ∷ [])) opening_client refl refl
      (ground arith) refl

-- A client in a session, and the acknowledgement of a ping.
abbrev consuming_client : Client
consuming_client = record start_client {
  cfg = gui_config;
  connected = true;
  has_client = true;
  worker = consuming;
}

abbrev ack_document : List (Text × Leaf)
ack_document =
    ([], branch)
    ∷ (lit "/id", words (lit "p1"))
    ∷ (lit "/type", words (lit "ping"))
    ∷ (lit "/ok", flag true)
    ∷ []

abbrev early : Incoming
early = at_topic (lit "ironsoft/uav/uav1/ack")

early_ack-signals_example :
    ((run_events (qt_json ack_document) (early_ack (lit "p1") early 6) consuming_client).signals
      ≡ ping_updated (lit "p1") (negsuc 0) true
        ∷ ping_updated (lit "p1") (negsuc 0) false
        ∷ ack_received (lit "ping") (lit "p1") true
        ∷ [])
    × ((run_events (qt_json ack_document) (pings (lit "p1") true ∷ []) consuming_client).published
        ≡ command (lit "p1") consuming_client ∷ [])
unfolding start_client find_ping can_publish is_empty lit text_eq topic_prefix
early_ack-signals_example =
    early_ack-signals (qt_json ack_document) (lit "p1") early [] 6 consuming_client refl refl refl
      refl refl refl refl refl refl refl

abbrev blank_form : Widgets
blank_form = record {
  conn_state = [];
  connect_text = [];
  connect_enabled = true;
  ping_enabled = true;
  led_presence = grey;
  led_backend = grey;
  backend_tip = [];
  led_api = grey;
  api_tip = [];
  telemetry = [];
  telemetry_colour = grey;
  mode_value = [];
  error_value = [];
  error_icon = true;
  ping_rtt = [];
  ping_colour = grey;
  start_enabled = true;
  stop_enabled = true;
  session_input_enabled = true;
  recording_value = [];
  recording_colour = grey;
  session_value = [];
}

abbrev online_client : Client
online_client = run_events (qt_json online_document) go_online start_client

window_after-run_events_example :
    ((window_after blank_form online_client.signals).client_state ≡ online_client.state)
    × ((window_after blank_form online_client.signals).ui.ping_enabled ≡ online_client.connected)
window_after-run_events_example =
    window_after-run_events (qt_json online_document) blank_form go_online

one_button :
    (window_after blank_form online_client.signals).ui.start_enabled
      || (window_after blank_form online_client.signals).ui.stop_enabled
    ≡ true
unfolding start_client set_connected set_presence set_client_state set_config topic_prefix
    t_ekinox_prefix step run_events work work_from consume next_message connect_to_broker
    handle_message handle_ekinox_presence parse_object window_after on_signal on_connected_changed
    on_client_state_changed on_ekinox_presence_changed start_window update_backend_health
    update_logger_controls update_ui_for_state set_backend_led set_presence_led
    set_telemetry_indicator set_ping_rtt_display set_last_error set_mode_text set_led_api lit
    text_eq after_subscription
one_button = refl

start_enabled-publish_command_payload_example :
    (((window_after blank_form online_client.signals).ui.start_enabled
        && (window_after blank_form online_client.signals).ui.stop_enabled)
      ≡ false)
    × (has_session online_client.worker ≡ true)
    × ((publish_command_payload (logger_stop_fields (lit "s")) true online_client).0 ≡ true)
start_enabled-publish_command_payload_example =
    start_enabled-publish_command_payload (qt_json online_document) blank_form go_online
      (logger_stop_fields (lit "s")) one_button

abbrev service_status : StatusPayload
service_status = record {
  link_alive = true;
  api_ok = true;
  recording_active = false;
  state = idle;
  last_error = [];
  last_error_ts = 0;
  session_name = lit "s1";
}

abbrev status_document : List (Text × Leaf)
status_document =
    ([], branch)
    ∷ (lit "/link_alive", flag true)
    ∷ (lit "/api_ok", flag true)
    ∷ (lit "/recording_active", flag false)
    ∷ (lit "/recording", flag false)
    ∷ (lit "/state", words (state_to_string idle))
    ∷ (lit "/mode", words (state_to_string idle))
    ∷ (lit "/last_error", words [])
    ∷ (lit "/last_error_ts", whole (pos 0))
    ∷ (lit "/session_name", words (lit "s1"))
    ∷ (lit "/sessionName", words (lit "s1"))
    ∷ []

abbrev status_incoming : Incoming
status_incoming = at_topic (make_topics start_client.cfg.drone_id).status

status-shown_example :
    handle_message (qt_json status_document) status_incoming start_client
    ≡ emit
        (ekinox_status_changed (shown_status (qt_json status_document) service_status [] 7))
        start_client
unfolding build_status_json lit text_eq
status-shown_example =
    status-shown (qt_json status_document) start_client status_incoming refl service_status [] refl
      refl
      (
        refl,
        refl,
        (
          refl,
          refl,
          (
            refl,
            refl,
            (
              refl,
              refl,
              (
                refl,
                refl,
                (refl, refl, (refl, refl, (refl, refl, (refl, refl, (refl, refl, tt))))),
              ),
            ),
          ),
        ),
      )

abbrev pub gui_ping : List (Text × Leaf)
gui_ping = ([], branch) ∷ (lit "/id", words (lit "p1")) ∷ (lit "/type", words (lit "ping")) ∷ []

gui_ping-IsPing : IsPing (checked_json gui_ping) (lit "{}") (lit "p1")
unfolding lit text_eq
gui_ping-IsPing = record {
  root = [];
  type_value = lit "/type";
  id_value = lit "/id";
  parses = refl;
  has_type = refl;
  type_is = refl;
  has_id = refl;
  id_is = refl;
}

abbrev pong_document : List (Text × Leaf)
pong_document =
    ([], branch)
    ∷ (lit "/id", words (lit "p1"))
    ∷ (lit "/ok", flag true)
    ∷ (lit "/message", words (lit "pong"))
    ∷ []

abbrev pinging_client : Client
pinging_client = record start_client { pending_pings = (lit "p1", 2) ∷ [] }

abbrev uav_topics : Topics
uav_topics = backend_topics pinging_client.cfg.drone_id

ping-ponged_example :
    (answer_command (checked_json gui_ping) uav_topics (lit "{}") true start_backend
      ≡ some (send uav_topics.ack (ack_fields_of (lit "p1") pong) 1 false start_backend))
    × (handle_message (qt_json pong_document) (at_topic uav_topics.ack) pinging_client
        ≡ ponged (lit "p1") 2 5 pinging_client)
unfolding lit text_eq is_empty find_ping ack_fields_of
ping-ponged_example =
    ping-ponged (checked_json gui_ping) (qt_json pong_document) (lit "{}") (lit "p1") start_backend
      pinging_client (at_topic uav_topics.ack) 2 [] gui_ping-IsPing refl refl refl refl refl
      (refl, refl, (refl, refl, (refl, refl, tt))) refl

-- A payload that is no object.
abbrev list_document : List (Text × Leaf)
list_document = []

abbrev pub bad_attempt : Attempt
bad_attempt = record {
  can_connect = true;
  can_announce = true;
  can_report = true;
  can_subscribe = true;
  now_s = 9;
  occurrences = message uav_topics.cmd (lit "[]") true ∷ beats 40 ∷ [];
}

run_connect_loop-disconnected_example :
    (run_connect_loop
      (checked_json gui_ping)
      uav_topics
      ((bad_attempt, false) ∷ [])
      start_backend).connected
    ≡ false
unfolding start_backend
run_connect_loop-disconnected_example =
    run_connect_loop-disconnected (checked_json gui_ping) uav_topics ((bad_attempt, false) ∷ [])
      start_backend refl

session-throws_example :
    session (checked_json list_document) uav_topics bad_attempt start_backend
    ≡ publish_status_retained uav_topics
        (publish_presence_online uav_topics 9 (record start_backend { connected = true }))
session-throws_example =
    session-throws (checked_json list_document) uav_topics (lit "[]") [] true (beats 40 ∷ []) 9
      start_backend refl refl

-- A no-break space and a tab are no text, and are taken off both ends.
blank_has_no_text : has_text (0xC2 ∷ 0xA0 ∷ 9 ∷ []) ≡ false
unfolding has_text space_length
blank_has_no_text = refl

trimmed_both_ends :
    trimmed (0xE3 ∷ 0x80 ∷ 0x80 ∷ 65 ∷ 32 ∷ 66 ∷ 0xC2 ∷ 0xA0 ∷ 32 ∷ []) ≡ 65 ∷ 32 ∷ 66 ∷ []
unfolding trimmed space_length is_empty
trimmed_both_ends = refl
