-- ===== src/Gui/Window/Clicks.antt =====
-- The buttons of MainWindow, the form with the configuration, and the status asked for after a command
-- (gui/src/mainwindow.cpp). The calls of the MQTT client are its events; identifiers (QUuid) and clocks
-- come in as arguments.
use ironsoft.Prelude.{
  zero, suc, ◌-◌, ◌&&◌, ◌==◌, Option, none, some, ℕ, Bool, true, false, not, List, [], ◌∷◌,
  if◌then◌else◌, ◌++◌, ◌%◌, ◌^◌,
}
use ironsoft.Text.{Text, lit, is_empty}
use ironsoft.Config.{ok, err}
use ironsoft.Gui.Json.{QJson}
use ironsoft.Gui.Status.{ConnectionState}
use ironsoft.Gui.Config.{MqttGuiConfig, FileRead, blank_config, load_from_json_file}
use ironsoft.Gui.Client.State.{Client}
use ironsoft.Gui.Client.Pings.{
  publish_command_payload, logger_start_fields, logger_stop_fields, logger_status_fields,
}
use ironsoft.Gui.Client.Events.{Event, configures, connects, stops, pings}
use ironsoft.Gui.Window.Slots.{request_deferred_status_refresh}
use ironsoft.Gui.Window.State.{Window, is_connected, space_length}

-- The widgets in which the configuration is edited.
pub record Form : Type 0 where
  pub host : Text
  pub port : ℕ
  pub user : Text
  pub pass : Text
  pub drone_id : Text
  pub config_path : Text

unfoldable pub default_config : MqttGuiConfig
default_config = record {
  host = lit "192.168.1.36";
  port = 1883;
  user = [];
  pass = [];
  drone_id = lit "drone01";
  tls_enabled = false;
  ca_file = [];
  keepalive_s = 20;
}

-- The form after `applyConfigToUi`; the configuration becomes the current one.
unfoldable pub apply_config_to_ui : MqttGuiConfig → Form → Form
apply_config_to_ui cfg form = record form {
  host = cfg.host;
  port = cfg.port;
  user = cfg.user;
  pass = cfg.pass;
  drone_id = cfg.drone_id;
}

-- The current configuration, the form and the result of `loadConfigFromPath`.
pub record Loaded : Type 0 where
  pub current : MqttGuiConfig
  pub form : Form
  pub is_loaded : Bool

abbrev shows_config : MqttGuiConfig → Text → Bool → Form → Loaded
shows_config cfg path is_loaded form = record {
  current = cfg;
  form = record (apply_config_to_ui cfg form) { config_path = path };
  is_loaded = is_loaded;
}

-- `file` is what the path leads to, and `pretty_path` its absolute path.
unfoldable pub load_config_from_path :
    {V : Type 0} → QJson V → FileRead → Text → Text → Form → Loaded
load_config_from_path json file path pretty_path form =
    if is_empty path
    then shows_config default_config [] false form
    else elim (load_from_json_file json file path blank_config) [
      | err e ↦ shows_config default_config pretty_path false form
      | ok cfg ↦ shows_config cfg pretty_path true form
    ]

-- QString::trimmed; the first argument counts the bytes that are left of a white space character.
abbrev trim_start : ℕ → Text → Text
trim_start n [] = []
trim_start (suc n) (byte ∷ rest) = trim_start n rest
trim_start zero (byte ∷ rest) =
    let blank = space_length (byte ∷ rest) in
    let later = trim_start (blank - 1) rest in if blank == 0 then byte ∷ rest else later

abbrev trim_end : ℕ → Text → Text
trim_end n [] = []
trim_end (suc n) (byte ∷ rest) =
    let later = trim_end n rest in if is_empty later then [] else byte ∷ later
trim_end zero (byte ∷ rest) =
    let blank = space_length (byte ∷ rest) in
    let later = trim_end (blank - 1) rest in
    if not (blank == 0) && is_empty later then [] else byte ∷ later

unfoldable pub trimmed : Text → Text
trimmed text = trim_end 0 (trim_start 0 text)

-- The configuration that the connect button takes from the form.
unfoldable pub form_config : Form → MqttGuiConfig → MqttGuiConfig
form_config form current = record current {
  host = trimmed form.host;
  port = form.port % 2 ^ 16;
  user = form.user;
  pass = form.pass;
  drone_id = trimmed form.drone_id;
}

-- The current configuration, and the calls of the MQTT client.
unfoldable pub on_connect_clicked :
    ConnectionState → Form → MqttGuiConfig → MqttGuiConfig × List Event
on_connect_clicked ConnectionState.stopping form current = (current, [])
on_connect_clicked ConnectionState.disconnected form current =
    (form_config form current, configures (form_config form current) ∷ connects ∷ [])
on_connect_clicked _ form current = (current, stops ∷ [])

unfoldable pub on_ping_clicked : ConnectionState → Text → Bool → List Event
on_ping_clicked state id accepted = if not (is_connected state) then [] else pings id accepted ∷ []

unfoldable pub make_logger_cmd_id : Text → Text → Text
make_logger_cmd_id prefix uuid = if is_empty prefix then uuid else prefix ++ uuid

-- `stamp`: the time as yyyyMMdd_HHmmss.
abbrev pub auto_session_name : Text → Text
auto_session_name stamp = lit "IronSoft_" ++ stamp

unfoldable pub desired_session_name : Text → Text → Text
desired_session_name entered stamp =
    if is_empty (trimmed entered) then auto_session_name stamp else trimmed entered

-- What follows the publication of a command: a status is asked for one second later, unless it
-- failed.
abbrev after_command : Window → Bool × Client → Window × Client
after_command w (true, c) = (request_deferred_status_refresh w, c)
after_command w (false, c) = (w, c)

unfoldable pub on_logger_start_clicked :
    Text → Text → Text → ℕ → Bool → Window → Client → Window × Client
on_logger_start_clicked entered stamp uuid now_s accepted w c =
    if not (is_connected w.client_state)
    then (w, c)
    else after_command w (
        publish_command_payload
          (logger_start_fields (make_logger_cmd_id (lit "gui_start_") uuid)
            (desired_session_name entered stamp) now_s)
          accepted c)

unfoldable pub on_logger_stop_clicked : Text → Bool → Window → Client → Window × Client
on_logger_stop_clicked uuid accepted w c =
    if not (is_connected w.client_state)
    then (w, c)
    else after_command w (
        publish_command_payload (logger_stop_fields (make_logger_cmd_id (lit "gui_stop_") uuid))
          accepted c)

-- What the timer of `requestDeferredStatusRefresh` does.
unfoldable pub deferred_status_refresh : Text → ℕ → Bool → Window → Client → Window × Client
deferred_status_refresh uuid now_s accepted w c =
    let rest = record w { pending_refreshes = w.pending_refreshes - 1 } in
    if not (is_connected w.client_state) then (rest, c) else (
      rest,
      (publish_command_payload
          (logger_status_fields (make_logger_cmd_id (lit "gui_status_") uuid) now_s) accepted c).1,
    )

-- The path that QSettings keeps between two runs, with the configuration that is loaded from it: at
-- the start, where the path of the program's own directory stands in for a path that is not kept.
-- `file` is what a path leads to, `absolute` its absolute path, `native` its native spelling.
module _ {V : Type 0} (json : QJson V) (file : Text → FileRead)
    (absolute native : Text → Text) where
  abbrev kept_or_default : Option Text → Text → Text
  kept_or_default none default_path = default_path
  kept_or_default (some path) default_path = path

  abbrev loaded_from : Text → Form → Loaded
  loaded_from path form = load_config_from_path json (file path) path (native (absolute path)) form

  unfoldable pub load_config_defaults : Text → Option Text → Form → Option Text × Loaded
  load_config_defaults default_path kept form =
      let path = kept_or_default kept default_path in
      (some path, loaded_from path (record form { config_path = native path }))

  unfoldable pub save_config_path : Text → Option Text → Option Text
  save_config_path path kept = if is_empty path then kept else some (absolute path)

  -- `chosen` is what the file dialogue gives; it is empty where the dialogue is cancelled.
  unfoldable pub on_browse_config_clicked :
      Text → MqttGuiConfig → Option Text → Form → Option Text × Loaded
  on_browse_config_clicked chosen current kept form =
      if is_empty chosen
      then (kept, record { current = current; form = form; is_loaded = false })
      else let loaded = loaded_from chosen form in
        (if loaded.is_loaded then save_config_path chosen kept else kept, loaded)
