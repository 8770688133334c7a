-- ===== src/Gui/Window/State.antt =====
-- The members of MainWindow (gui/src/mainwindow.h), and the widgets that its slots write
-- (gui/src/mainwindow.cpp). A style sheet is modelled by its colour. The log window, the times of the
-- last heartbeats, which only a log line reads, and the members that only decide whether a log line is
-- written are left out.
use ironsoft.Prelude.{
  ℕ, zero, suc, ◌-◌, Bool, true, false, ◌&&◌, ◌||◌, ◌==◌, leb, [], ◌∷◌, if◌then◌else◌, ◌++◌,
}
use ironsoft.Prelude.Int.{ℤ, pos, negsuc}
use ironsoft.Text.{Text, lit, is_empty, decimal}
use ironsoft.Gui.Status.{ConnectionState, BackendStatus, EkinoxStatus}

pub data BackendHealth : Type 0 where
  offline stale online : BackendHealth

pub data Colour : Type 0 where
  red amber green grey orange : Colour

-- What the slots write to the widgets.
pub record Widgets : Type 0 where
  pub conn_state : Text
  pub connect_text : Text
  pub connect_enabled : Bool
  pub ping_enabled : Bool
  pub led_presence : Colour
  pub led_backend : Colour
  pub backend_tip : Text
  pub led_api : Colour
  pub api_tip : Text
  pub telemetry : Text
  pub telemetry_colour : Colour
  pub mode_value : Text
  pub error_value : Text
  pub error_icon : Bool
  pub ping_rtt : Text
  pub ping_colour : Colour
  pub start_enabled : Bool
  pub stop_enabled : Bool
  pub session_input_enabled : Bool
  pub recording_value : Text
  pub recording_colour : Colour
  pub session_value : Text

pub record Window : Type 0 where
  pub client_state : ConnectionState
  pub backend_health : BackendHealth
  pub presence_online : Bool
  pub last_status : BackendStatus
  pub has_status : Bool
  pub last_ekinox_status : EkinoxStatus
  pub has_ekinox_status : Bool
  pub ekinox_presence_online : Bool
  pub telemetry_known : Bool
  pub telemetry_link_alive : Bool
  -- The timers of requestDeferredStatusRefresh that run.
  pub pending_refreshes : ℕ
  pub ui : Widgets

abbrev pub with_ui : (Widgets → Widgets) → Window → Window
with_ui f w = record w { ui = f w.ui }

-- What stands for a value that is not there: one byte of the source (151), which is no UTF-8.
unfoldable pub no_value : Text
no_value = 151 ∷ []

abbrev pub is_connected : ConnectionState → Bool
is_connected ConnectionState.connected = true
is_connected _ = false

unfoldable pub set_presence_led : Bool → Widgets → Widgets
set_presence_led up u = record u { led_presence = if up then green else red }

-- The cases of the switch; `default` is that of `offline`.
abbrev pub backend_colour : BackendHealth → Colour
backend_colour BackendHealth.online = green
backend_colour stale = amber
backend_colour BackendHealth.offline = red

abbrev pub backend_tooltip : BackendHealth → Text
backend_tooltip BackendHealth.online = lit "Backend online"
backend_tooltip stale = lit "Backend heartbeat stale"
backend_tooltip BackendHealth.offline = lit "Backend offline"

unfoldable pub set_backend_led : BackendHealth → Window → Window
set_backend_led health w =
    with_ui
      (λ u. record u { led_backend = backend_colour health; backend_tip = backend_tooltip health })
      (record w { backend_health = health })

unfoldable pub set_led_api : Bool → Widgets → Widgets
set_led_api is_ok u = record u {
  led_api = if is_ok then green else red;
  api_tip = if is_ok then lit "API healthy" else lit "API offline";
}

-- The text and the colour, by whether the link is alive and whether that is known.
abbrev pub telemetry_text : Bool → Bool → Text
telemetry_text link_alive false = no_value
telemetry_text true true = lit "ONLINE"
telemetry_text false true = lit "OFFLINE"

abbrev pub telemetry_tint : Bool → Bool → Colour
telemetry_tint link_alive false = grey
telemetry_tint true true = green
telemetry_tint false true = orange

unfoldable pub set_telemetry_indicator : Bool → Bool → Widgets → Widgets
set_telemetry_indicator link_alive has_value u = record u {
  telemetry = telemetry_text link_alive has_value;
  telemetry_colour = telemetry_tint link_alive has_value;
}

unfoldable pub set_mode_text : Text → Widgets → Widgets
set_mode_text mode u = record u { mode_value = if is_empty mode then no_value else mode }

abbrev byte_at : ℕ → Text → ℕ
byte_at n [] = 0
byte_at zero (byte ∷ rest) = byte
byte_at (suc n) (byte ∷ rest) = byte_at n rest

-- The third byte of a white space character whose first two are 0xE2 0x80.
abbrev is_wide_space : ℕ → Bool
is_wide_space byte = leb 0x80 byte && leb byte 0x8A || byte == 0xA8 || byte == 0xA9 || byte == 0xAF

-- The bytes of the white space character (QChar::isSpace) at the head of a text in UTF-8; 0: there is
-- none. Qt's texts hold UTF-16, and are kept here as UTF-8.
unfoldable pub space_length : Text → ℕ
space_length text =
    let first = byte_at 0 text in
    let second = byte_at 1 text in
    let third = byte_at 2 text in
    if leb 9 first && leb first 13 || first == 32
    then 1
    else if first == 0xC2 && (second == 0x85 || second == 0xA0)
    then 2
    else if first == 0xE1 && second == 0x9A && third == 0x80
    then 3
    else if first == 0xE2 && second == 0x80 && is_wide_space third
    then 3
    else if first == 0xE2 && second == 0x81 && third == 0x9F
    then 3
    else if first == 0xE3 && second == 0x80 && third == 0x80
    then 3
    else 0

-- After so many bytes that are left of a white space character.
abbrev has_text_after : ℕ → Text → Bool
has_text_after n [] = false
has_text_after (suc n) (byte ∷ rest) = has_text_after n rest
has_text_after zero (byte ∷ rest) =
    let blank = space_length (byte ∷ rest) in
    let later = has_text_after (blank - 1) rest in if blank == 0 then true else later

-- `!err.trimmed().isEmpty()`
unfoldable pub has_text : Text → Bool
has_text text = has_text_after 0 text

unfoldable pub set_last_error : Text → Widgets → Widgets
set_last_error err u = record u {
  error_value = if has_text err then err else no_value;
  error_icon = has_text err;
}

-- The text and the colour of a round-trip time, and of a timeout.
abbrev pub rtt_text : ℤ → Bool → Text
rtt_text rtt_ms true = lit "timeout"
rtt_text (negsuc n) false = no_value
rtt_text (pos rtt_ms) false = decimal rtt_ms ++ lit " ms"

abbrev pub rtt_colour : ℤ → Bool → Colour
rtt_colour rtt_ms true = orange
rtt_colour (negsuc n) false = grey
rtt_colour (pos rtt_ms) false = green

unfoldable pub set_ping_rtt_display : ℤ → Bool → Widgets → Widgets
set_ping_rtt_display rtt_ms timeout u = record u {
  ping_rtt = rtt_text rtt_ms timeout;
  ping_colour = rtt_colour rtt_ms timeout;
}
