-- ===== src/Gui/Window/Slots.antt =====
-- The slots of MainWindow for the signals of the MQTT client, and what they call
-- (gui/src/mainwindow.cpp).
use ironsoft.Prelude.{◌+◌, Bool, true, false, ◌&&◌, ◌||◌, not, [], if◌then◌else◌}
use ironsoft.Prelude.Int.{ℤ, negsuc}
use ironsoft.Text.{Text, lit, is_empty, text_eq}
use ironsoft.Gui.Status.{
  ConnectionState, BackendStatus, EkinoxStatus, blank_status, blank_ekinox_status,
}
use ironsoft.Gui.Client.State.{
  Signal, connected_changed, presence_changed, state_changed, heartbeat_received,
  ekinox_heartbeat_received, status_changed, ping_updated, ack_received, ekinox_presence_changed,
  ekinox_status_changed,
}
use ironsoft.Gui.Window.State.{
  BackendHealth, green, grey, Widgets, Window, with_ui, no_value, is_connected, set_presence_led,
  set_backend_led, set_led_api, set_telemetry_indicator, set_mode_text, set_last_error,
  set_ping_rtt_display,
}

unfoldable pub update_backend_health : Window → Window
update_backend_health w =
    set_backend_led
      (if is_connected w.client_state && w.ekinox_presence_online
        then BackendHealth.online
        else BackendHealth.offline)
      w

abbrev pub shows_recording : Window → Bool
shows_recording w = w.has_ekinox_status && w.last_ekinox_status.recording_active

unfoldable pub update_logger_controls : Window → Window
update_logger_controls w =
    let ready = is_connected w.client_state && w.ekinox_presence_online in
    let recording = shows_recording w in
    with_ui
      (λ u. record u {
        start_enabled = ready && not recording;
        stop_enabled = ready && recording;
        session_input_enabled = not recording;
        recording_value = if recording then lit "RECORDING" else lit "IDLE";
        recording_colour = if recording then green else grey;
        session_value =
            if w.has_ekinox_status && not (is_empty w.last_ekinox_status.session_name)
            then w.last_ekinox_status.session_name
            else no_value;
      })
      w

-- The cases of the switch.
abbrev pub conn_text : ConnectionState → Text
conn_text ConnectionState.disconnected = lit "Disconnected"
conn_text ConnectionState.connecting = lit "Connecting..."
conn_text ConnectionState.connected = lit "Connected"
conn_text ConnectionState.stopping = lit "Disconnecting..."

abbrev pub button_text : ConnectionState → Text
button_text ConnectionState.disconnected = lit "Connect"
button_text _ = lit "Disconnect"

abbrev pub can_click : ConnectionState → Bool
can_click ConnectionState.stopping = false
can_click _ = true

unfoldable pub update_ui_for_state : ConnectionState → Window → Window
update_ui_for_state state w = update_logger_controls (
    with_ui
      (λ u. record u {
        conn_state = conn_text state;
        connect_text = button_text state;
        connect_enabled = can_click state;
      })
      w)

-- `if (!connected)`
abbrev pub forget_session : Window → Window
forget_session w =
    with_ui (λ u. set_telemetry_indicator false false (set_presence_led false u))
      (record w {
        presence_online = false;
        ekinox_presence_online = false;
        has_ekinox_status = false;
        telemetry_known = false;
        telemetry_link_alive = false;
      })

unfoldable pub on_connected_changed : Bool → Window → Window
on_connected_changed connected w =
    let shown = with_ui (λ u. record u { ping_enabled = connected }) w in
    update_logger_controls
      (update_backend_health (if not connected then forget_session shown else shown))

unfoldable pub on_presence_changed : Bool → Window → Window
on_presence_changed online w = record w { presence_online = online }

unfoldable pub on_client_state_changed : ConnectionState → Window → Window
on_client_state_changed state w =
    update_logger_controls
      (update_backend_health (update_ui_for_state state (record w { client_state = state })))

unfoldable pub on_heartbeat_received : Window → Window
on_heartbeat_received w = update_backend_health w

unfoldable pub on_heartbeat_tick : Window → Window
on_heartbeat_tick w = update_backend_health w

unfoldable pub on_status_changed : BackendStatus → Window → Window
on_status_changed st w =
    let shown =
      with_ui (λ u. set_last_error st.last_error (set_led_api st.api_ok (set_mode_text st.mode u)))
        w in
    update_logger_controls (record shown { last_status = st; has_status = true })

unfoldable pub on_ping_updated : ℤ → Bool → Window → Window
on_ping_updated rtt_ms timeout w = with_ui (set_ping_rtt_display rtt_ms timeout) w

-- The acknowledgement of a stop command, after which a status is asked for.
unfoldable pub is_stop_ack : Text → Bool
is_stop_ack type = text_eq type (lit "logger.stop") || text_eq type (lit "session.stop")

unfoldable pub request_deferred_status_refresh : Window → Window
request_deferred_status_refresh w = record w { pending_refreshes = w.pending_refreshes + 1 }

unfoldable pub on_ack_received : Text → Window → Window
on_ack_received type w =
    if is_stop_ack type then request_deferred_status_refresh (update_logger_controls w) else w

unfoldable pub on_ekinox_presence_changed : Bool → Window → Window
on_ekinox_presence_changed online w = update_logger_controls (
    update_backend_health
      (with_ui (set_presence_led online) (record w { ekinox_presence_online = online })))

unfoldable pub on_ekinox_status_changed : EkinoxStatus → Window → Window
on_ekinox_status_changed st w = update_logger_controls (
    with_ui (set_telemetry_indicator st.link_alive true) (record w {
      has_ekinox_status = true;
      last_ekinox_status = st;
      telemetry_known = true;
      telemetry_link_alive = st.link_alive;
    }))

unfoldable pub on_ekinox_heartbeat_received : Window → Window
on_ekinox_heartbeat_received w = update_backend_health w

-- The connections that the constructor makes.
unfoldable pub on_signal : Signal → Window → Window
on_signal (connected_changed v) = on_connected_changed v
on_signal (presence_changed v) = on_presence_changed v
on_signal (state_changed v) = on_client_state_changed v
on_signal heartbeat_received = on_heartbeat_received
on_signal (status_changed st) = on_status_changed st
on_signal (ping_updated id rtt_ms timeout) = on_ping_updated rtt_ms timeout
on_signal (ack_received type id is_ok) = on_ack_received type
on_signal (ekinox_presence_changed v) = on_ekinox_presence_changed v
on_signal (ekinox_status_changed st) = on_ekinox_status_changed st
on_signal ekinox_heartbeat_received = on_ekinox_heartbeat_received

-- The member initialisers, on the widgets of the form.
abbrev pub unshown : Widgets → Window
unshown form = record {
  client_state = ConnectionState.disconnected;
  backend_health = BackendHealth.offline;
  presence_online = false;
  last_status = blank_status;
  has_status = false;
  last_ekinox_status = blank_ekinox_status;
  has_ekinox_status = false;
  ekinox_presence_online = false;
  telemetry_known = false;
  telemetry_link_alive = false;
  pending_refreshes = 0;
  ui = form;
}

-- The constructor, on whatever widgets setupUi makes; `load_config_defaults` fills the form.
unfoldable pub start_window : Widgets → Window
start_window form =
    let led_set =
      set_backend_led BackendHealth.offline (with_ui (set_presence_led false) (unshown form)) in
    let values_set =
      with_ui
        (λ u. set_ping_rtt_display (negsuc 0) false (
          set_last_error []
            (set_mode_text no_value (set_telemetry_indicator false false (set_led_api false u)))))
        led_set in
    update_logger_controls (
      with_ui (λ u. record u { ping_enabled = false })
        (update_ui_for_state ConnectionState.disconnected values_set))
