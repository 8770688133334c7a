-- ===== src/Gui/Window/View.antt =====
-- What the window shows, as a function of what it knows.
use ironsoft.Prelude.{ℕ, ◌≡◌, Bool, true, false, ◌&&◌, not, [], if◌then◌else◌, Option, none, some}
use ironsoft.Prelude.Int.{ℤ, negsuc}
use ironsoft.Text.{Text, lit, is_empty}
use ironsoft.Gui.Status.{ConnectionState, BackendStatus, EkinoxStatus, blank_status}
use ironsoft.Gui.Json.{is_some}
use ironsoft.Gui.Client.State.{
  Signal, connected_changed, state_changed, status_changed, ping_updated, ekinox_presence_changed,
  ekinox_status_changed,
}
use ironsoft.Gui.Window.State.{
  BackendHealth, red, green, grey, Widgets, Window, no_value, is_connected, has_text, rtt_text,
  rtt_colour, telemetry_text, telemetry_tint, backend_colour, backend_tooltip,
}
use ironsoft.Gui.Window.Slots.{conn_text, button_text, can_click}

-- What the signals tell.
pub record Known : Type 0 where
  pub link : Bool
  pub state : ConnectionState
  pub ekinox_online : Bool
  pub ekinox : Option EkinoxStatus
  pub backend : Option BackendStatus
  pub rtt_ms : ℤ
  pub timed_out : Bool

unfoldable pub nothing_known : Known
nothing_known = record {
  link = false;
  state = ConnectionState.disconnected;
  ekinox_online = false;
  ekinox = none;
  backend = none;
  rtt_ms = negsuc 0;
  timed_out = false;
}

-- A lost connection makes the sensor unknown; the backend's last status and the last ping stay.
unfoldable pub learn : Signal → Known → Known
learn (connected_changed true) k = record k { link = true }
learn (connected_changed false) k = record k { link = false; ekinox_online = false; ekinox = none }
learn (state_changed v) k = record k { state = v }
learn (status_changed st) k = record k { backend = some st }
learn (ping_updated id rtt_ms timeout) k = record k { rtt_ms = rtt_ms; timed_out = timeout }
learn (ekinox_presence_changed v) k = record k { ekinox_online = v }
learn (ekinox_status_changed st) k = record k { ekinox = some st }
learn _ k = k

abbrev pub status_of : Option BackendStatus → BackendStatus
status_of none = blank_status
status_of (some st) = st

abbrev pub records : Option EkinoxStatus → Bool
records none = false
records (some st) = st.recording_active

abbrev pub session_of : Option EkinoxStatus → Text
session_of none = []
session_of (some st) = st.session_name

abbrev pub link_alive : Option EkinoxStatus → Bool
link_alive none = false
link_alive (some st) = st.link_alive

abbrev pub ready : Known → Bool
ready k = is_connected k.state && k.ekinox_online

abbrev pub health : Known → BackendHealth
health k = if ready k then BackendHealth.online else BackendHealth.offline

-- Every widget from what is known.
unfoldable pub render : Known → Widgets
render k =
    let st = status_of k.backend in
    record {
      conn_state = conn_text k.state;
      connect_text = button_text k.state;
      connect_enabled = can_click k.state;
      ping_enabled = k.link;
      led_presence = if k.ekinox_online then green else red;
      led_backend = backend_colour (health k);
      backend_tip = backend_tooltip (health k);
      led_api = if st.api_ok then green else red;
      api_tip = if st.api_ok then lit "API healthy" else lit "API offline";
      telemetry = telemetry_text (link_alive k.ekinox) (is_some k.ekinox);
      telemetry_colour = telemetry_tint (link_alive k.ekinox) (is_some k.ekinox);
      mode_value = if is_empty st.mode then no_value else st.mode;
      error_value = if has_text st.last_error then st.last_error else no_value;
      error_icon = has_text st.last_error;
      ping_rtt = rtt_text k.rtt_ms k.timed_out;
      ping_colour = rtt_colour k.rtt_ms k.timed_out;
      start_enabled = ready k && not (records k.ekinox);
      stop_enabled = ready k && records k.ekinox;
      session_input_enabled = not (records k.ekinox);
      recording_value = if records k.ekinox then lit "RECORDING" else lit "IDLE";
      recording_colour = if records k.ekinox then green else grey;
      session_value =
          if not (is_empty (session_of k.ekinox)) then session_of k.ekinox else no_value;
    }

-- The members that the known facts leave open: the last presence of the backend, a status of the
-- sensor from before the connection was lost, and the timers that run.
pub record Hidden : Type 0 where
  pub presence : Bool
  pub old_status : EkinoxStatus
  pub refreshes : ℕ

abbrev pub last_of : EkinoxStatus → Option EkinoxStatus → EkinoxStatus
last_of old none = old
last_of old (some st) = st

-- The window that knows `k`.
unfoldable pub window_of : Known → Hidden → Window
window_of k h = record {
  client_state = k.state;
  backend_health = health k;
  presence_online = h.presence;
  last_status = status_of k.backend;
  has_status = is_some k.backend;
  last_ekinox_status = last_of h.old_status k.ekinox;
  has_ekinox_status = is_some k.ekinox;
  ekinox_presence_online = k.ekinox_online;
  telemetry_known = is_some k.ekinox;
  telemetry_link_alive = link_alive k.ekinox;
  pending_refreshes = h.refreshes;
  ui = render k;
}

-- A window that stands for what is known.
abbrev pub Represents : Known → Window → Type 0
Represents k w = (h : Hidden) × (w ≡ window_of k h)
