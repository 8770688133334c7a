-- ===== src/Gui/Window/Refines.antt =====
-- The slots of the window keep what it shows in step with what the signals tell.
use ironsoft.Prelude.{
  ◌+◌, ◌≡◌, refl, ap, subst, sym, ◌∙◌, Bool, true, false, Option, none, some, if◌then◌else◌,
}
use ironsoft.Prelude.Int.{ℤ}
use ironsoft.Text.{Text, is_empty}
use ironsoft.Gui.Status.{ConnectionState, BackendStatus, EkinoxStatus, blank_ekinox_status}
use ironsoft.Gui.Client.State.{
  Signal, connected_changed, presence_changed, state_changed, heartbeat_received,
  ekinox_heartbeat_received, status_changed, ping_updated, ack_received, ekinox_presence_changed,
  ekinox_status_changed,
}
use ironsoft.Gui.Window.State.{
  has_text, no_value, Widgets, Window, set_presence_led, set_backend_led, set_led_api,
  set_telemetry_indicator, set_mode_text, set_last_error, set_ping_rtt_display,
}
use ironsoft.Gui.Window.Slots.{
  request_deferred_status_refresh, on_signal, start_window, on_heartbeat_tick, on_connected_changed,
  update_backend_health, update_logger_controls, on_client_state_changed, update_ui_for_state,
  on_presence_changed, on_status_changed, on_ping_updated, on_ack_received, is_stop_ack,
  on_ekinox_presence_changed, on_ekinox_status_changed, on_heartbeat_received,
  on_ekinox_heartbeat_received,
}
use ironsoft.Gui.Window.View.{Known, nothing_known, learn, render, Hidden, window_of, Represents}

-- A known sensor status, or none.
abbrev with_ekinox : Option EkinoxStatus → Known → Known
with_ekinox e k = record k { ekinox = e }

controls-window_of :
    (e : Option EkinoxStatus) (k : Known) (h : Hidden)
    → update_logger_controls (window_of (with_ekinox e k) h) ≡ window_of (with_ekinox e k) h
unfolding update_logger_controls window_of render is_empty no_value
controls-window_of none k h = refl
controls-window_of (some st) k h = refl

health-window_of : (k : Known) (h : Hidden) → update_backend_health (window_of k h) ≡ window_of k h
unfolding update_backend_health set_backend_led window_of render
health-window_of k h = refl

connected-Represents :
    (v : Bool) (e : Option EkinoxStatus) (k : Known) (h : Hidden)
    → Represents
        (learn (connected_changed v) (with_ekinox e k))
        (on_connected_changed v (window_of (with_ekinox e k) h))
unfolding on_connected_changed update_backend_health set_backend_led set_telemetry_indicator
    set_presence_led update_logger_controls window_of render learn is_empty no_value
connected-Represents true none k h = (h, refl)
connected-Represents true (some st) k h = (h, refl)
connected-Represents false none k h = (record h { presence = false }, refl)
connected-Represents false (some st) k h = (record h { presence = false; old_status = st }, refl)

state-Represents :
    (v : ConnectionState) (e : Option EkinoxStatus) (k : Known) (h : Hidden)
    → Represents
        (learn (state_changed v) (with_ekinox e k))
        (on_client_state_changed v (window_of (with_ekinox e k) h))
unfolding on_client_state_changed update_ui_for_state update_backend_health set_backend_led
    update_logger_controls window_of render learn is_empty no_value
state-Represents v none k h = (h, refl)
state-Represents v (some st) k h = (h, refl)

presence-Represents :
    (v : Bool) (e : Option EkinoxStatus) (k : Known) (h : Hidden)
    → Represents
        (learn (ekinox_presence_changed v) (with_ekinox e k))
        (on_ekinox_presence_changed v (window_of (with_ekinox e k) h))
unfolding on_ekinox_presence_changed update_backend_health set_backend_led set_presence_led
    update_logger_controls window_of render learn is_empty no_value
presence-Represents v none k h = (h, refl)
presence-Represents v (some st) k h = (h, refl)

ekinox-Represents :
    (st : EkinoxStatus) (k : Known) (h : Hidden)
    → Represents (learn (ekinox_status_changed st) k) (on_ekinox_status_changed st (window_of k h))
unfolding on_ekinox_status_changed set_telemetry_indicator update_logger_controls window_of render
    learn is_empty no_value
ekinox-Represents st k h = (h, refl)

status-Represents :
    (st : BackendStatus) (e : Option EkinoxStatus) (k : Known) (h : Hidden)
    → Represents
        (learn (status_changed st) (with_ekinox e k))
        (on_status_changed st (window_of (with_ekinox e k) h))
unfolding on_status_changed set_mode_text set_led_api set_last_error update_logger_controls
    window_of render learn is_empty no_value
status-Represents st none k h = (h, refl)
status-Represents st (some old) k h = (h, refl)

ping-Represents :
    (id : Text) (rtt_ms : ℤ) (timeout : Bool) (k : Known) (h : Hidden)
    → Represents
        (learn (ping_updated id rtt_ms timeout) k)
        (on_ping_updated rtt_ms timeout (window_of k h))
unfolding on_ping_updated set_ping_rtt_display window_of render learn
ping-Represents id rtt_ms timeout k h = (h, refl)

unchanged-Represents :
    (signal : Signal) (k : Known) (h : Hidden)
    → learn signal k ≡ k
    → (w : Window) → w ≡ window_of k h
    → Represents (learn signal k) w
unchanged-Represents signal k h nothing w same = (h, same ∙ ap (λ l. window_of l h) (sym nothing))

refresh-window_of :
    (k : Known) (h : Hidden)
    → request_deferred_status_refresh (window_of k h)
      ≡ window_of k (record h { refreshes = h.refreshes + 1 })
unfolding request_deferred_status_refresh window_of
refresh-window_of k h = refl

ack-Represents :
    (type id : Text) (is_ok : Bool) (k : Known) (h : Hidden)
    → Represents (learn (ack_received type id is_ok) k) (on_ack_received type (window_of k h))
unfolding on_ack_received learn
ack-Represents type id is_ok k h =
    elim (is_stop_ack type)
      as (λ b. Represents k (
        if b
        then request_deferred_status_refresh (update_logger_controls (window_of k h))
        else window_of k h)) [
          | true ↦ (
            record h { refreshes = h.refreshes + 1 },
            ap request_deferred_status_refresh (controls-window_of k.ekinox k h)
                ∙ refresh-window_of k h,
          )
          | false ↦ (h, refl)
        ]

presence_changed-Represents :
    (v : Bool) (k : Known) (h : Hidden)
    → Represents (learn (presence_changed v) k) (on_presence_changed v (window_of k h))
unfolding on_presence_changed window_of render learn
presence_changed-Represents v k h = (record h { presence = v }, refl)

window_of-Represents :
    (signal : Signal) (k : Known) (h : Hidden)
    → Represents (learn signal k) (on_signal signal (window_of k h))
unfolding on_signal on_heartbeat_received on_ekinox_heartbeat_received learn
window_of-Represents (connected_changed v) k h = connected-Represents v k.ekinox k h
window_of-Represents (presence_changed v) k h = presence_changed-Represents v k h
window_of-Represents (state_changed v) k h = state-Represents v k.ekinox k h
window_of-Represents heartbeat_received k h = (h, health-window_of k h)
window_of-Represents (status_changed st) k h = status-Represents st k.ekinox k h
window_of-Represents (ping_updated id rtt_ms timeout) k h = ping-Represents id rtt_ms timeout k h
window_of-Represents (ack_received type id is_ok) k h = ack-Represents type id is_ok k h
window_of-Represents (ekinox_presence_changed v) k h = presence-Represents v k.ekinox k h
window_of-Represents (ekinox_status_changed st) k h = ekinox-Represents st k h
window_of-Represents ekinox_heartbeat_received k h = (h, health-window_of k h)

pub on_signal-Represents :
    (signal : Signal) (k : Known) (w : Window)
    → Represents k w
    → Represents (learn signal k) (on_signal signal w)
on_signal-Represents signal k w (h, same) =
    subst (λ v. Represents (learn signal k) (on_signal signal v)) (sym same)
      (window_of-Represents signal k h)

pub on_heartbeat_tick-Represents :
    (k : Known) (w : Window) → Represents k w → Represents k (on_heartbeat_tick w)
unfolding on_heartbeat_tick
on_heartbeat_tick-Represents k w (h, same) =
    (h, ap update_backend_health same ∙ health-window_of k h)

pub start_window-Represents : (form : Widgets) → Represents nothing_known (start_window form)
unfolding start_window nothing_known update_ui_for_state set_ping_rtt_display set_last_error
    set_mode_text set_telemetry_indicator set_led_api set_backend_led set_presence_led
    update_logger_controls window_of render is_empty no_value has_text
start_window-Represents form =
    (record { presence = false; old_status = blank_ekinox_status; refreshes = 0 }, refl)
