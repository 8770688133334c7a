-- ===== src/Gui/Window/Follows.antt =====
-- The window and its MQTT client together: the signals that the client emitted, shown by the window.
use ironsoft.Prelude.{
  ◌≡◌, refl, ap, subst, sym, ◌∙◌, Bool, true, false, not, ◌&&◌, ◌||◌, List, [], ◌∷◌, arith,
}
use ironsoft.Json.{Fields}
use ironsoft.Gui.Json.{QJson}
use ironsoft.Gui.Status.{ConnectionState}
use ironsoft.Gui.Client.State.{
  Client, Signal, start_client, connected_changed, presence_changed, state_changed,
  heartbeat_received, ekinox_heartbeat_received, status_changed, ping_updated, ack_received,
  ekinox_presence_changed, ekinox_status_changed, same_state,
}
use ironsoft.Gui.Client.Announced.{last_connected, last_state, run_events-IsAnnounced}
use ironsoft.Gui.Client.Sessions.{run_events-IsConsistent, has_session}
use ironsoft.Gui.Client.Pings.{can_publish, publish_command_payload}
use ironsoft.Gui.Client.Events.{Event, run_events}
use ironsoft.Gui.Window.State.{Widgets, Window, is_connected}
use ironsoft.Gui.Window.Slots.{on_signal, start_window}
use ironsoft.Gui.Window.View.{
  records, ready, Known, nothing_known, learn, render, window_of, Represents,
}
use ironsoft.Gui.Window.Refines.{on_signal-Represents, start_window-Represents}

-- The window after the signals, the newest first.
unfoldable pub window_after : Widgets → List Signal → Window
window_after form [] = start_window form
window_after form (signal ∷ earlier) = on_signal signal (window_after form earlier)

-- What the signals tell, the newest first.
unfoldable pub known_after : List Signal → Known
known_after [] = nothing_known
known_after (signal ∷ earlier) = learn signal (known_after earlier)

window_after-Represents :
    (form : Widgets) (signals : List Signal)
    → Represents (known_after signals) (window_after form signals)
unfolding window_after known_after
window_after-Represents form [] = start_window-Represents form
window_after-Represents form (signal ∷ earlier) =
    on_signal-Represents signal (known_after earlier) (window_after form earlier)
      (window_after-Represents form earlier)

pub window_after-render :
    (form : Widgets) (signals : List Signal)
    → (window_after form signals).ui ≡ render (known_after signals)
unfolding window_of
window_after-render form signals =
    let (h, same) = window_after-Represents form signals in ap (λ w. w.ui) same

known_after-link : (signals : List Signal) → (known_after signals).link ≡ last_connected signals
unfolding known_after last_connected learn nothing_known
known_after-link [] = refl
known_after-link (connected_changed true ∷ earlier) = refl
known_after-link (connected_changed false ∷ earlier) = refl
known_after-link (presence_changed v ∷ earlier) = known_after-link earlier
known_after-link (state_changed v ∷ earlier) = known_after-link earlier
known_after-link (heartbeat_received ∷ earlier) = known_after-link earlier
known_after-link (ekinox_heartbeat_received ∷ earlier) = known_after-link earlier
known_after-link (status_changed st ∷ earlier) = known_after-link earlier
known_after-link (ping_updated id r t ∷ earlier) = known_after-link earlier
known_after-link (ack_received t id o ∷ earlier) = known_after-link earlier
known_after-link (ekinox_presence_changed v ∷ earlier) = known_after-link earlier
known_after-link (ekinox_status_changed st ∷ earlier) = known_after-link earlier

known_after-state : (signals : List Signal) → (known_after signals).state ≡ last_state signals
unfolding known_after last_state learn nothing_known
known_after-state [] = refl
known_after-state (connected_changed true ∷ earlier) = known_after-state earlier
known_after-state (connected_changed false ∷ earlier) = known_after-state earlier
known_after-state (presence_changed v ∷ earlier) = known_after-state earlier
known_after-state (state_changed v ∷ earlier) = refl
known_after-state (heartbeat_received ∷ earlier) = known_after-state earlier
known_after-state (ekinox_heartbeat_received ∷ earlier) = known_after-state earlier
known_after-state (status_changed st ∷ earlier) = known_after-state earlier
known_after-state (ping_updated id r t ∷ earlier) = known_after-state earlier
known_after-state (ack_received t id o ∷ earlier) = known_after-state earlier
known_after-state (ekinox_presence_changed v ∷ earlier) = known_after-state earlier
known_after-state (ekinox_status_changed st ∷ earlier) = known_after-state earlier

either_button :
    (state : ConnectionState) (up recording : Bool)
    → ((is_connected state && up) && not recording) || ((is_connected state && up) && recording)
      ≡ true
    → same_state state ConnectionState.connected ≡ true
either_button ConnectionState.connected up recording h = refl
either_button ConnectionState.disconnected up recording h = h
either_button ConnectionState.connecting up recording h = h
either_button ConnectionState.stopping up recording h = h

never_both : (ready recording : Bool) → ((ready && not recording) && (ready && recording)) ≡ false
never_both ready recording = ground arith

module _ {V : Type 0} (json : QJson V) (form : Widgets) (es : List Event) where
  abbrev client : Client
  client = run_events json es start_client

  abbrev shown : Window
  shown = window_after form (run_events json es start_client).signals

  shown-state : shown.client_state ≡ client.state
  unfolding window_of
  shown-state =
      let (h, same) = window_after-Represents form client.signals in
      ap (λ w. w.client_state) same
      ∙ known_after-state client.signals
      ∙ (run_events-IsAnnounced json es).2

  shown-link : shown.ui.ping_enabled ≡ client.connected
  unfolding render
  shown-link =
      ap (λ u. u.ping_enabled) (window_after-render form client.signals)
      ∙ known_after-link client.signals
      ∙ (run_events-IsAnnounced json es).0

  -- Whatever the two threads did: once the window has handled all the signals of its MQTT client, it
  -- takes the client to be in the state in which it is, and its ping button is enabled exactly while
  -- the client is connected.
  pub window_after-run_events :
      (shown.client_state ≡ client.state) × (shown.ui.ping_enabled ≡ client.connected)
  window_after-run_events = (shown-state, shown-link)

  connected_state-can_publish :
      same_state client.state ConnectionState.connected ≡ true
      → (can_publish client ≡ true) × (has_session client.worker ≡ true)
  unfolding can_publish
  connected_state-can_publish up = let p = run_events-IsConsistent json es in ground arith

  -- Whatever the two threads did: once the window has handled all the signals of its MQTT client, its
  -- start button and its stop button are not both enabled, and if one of them is, the worker has a
  -- session, and a command that the MQTT client accepts is published.
  pub start_enabled-publish_command_payload :
      (fields : Fields)
      → shown.ui.start_enabled || shown.ui.stop_enabled ≡ true
      → ((shown.ui.start_enabled && shown.ui.stop_enabled) ≡ false)
        × (has_session client.worker ≡ true)
        × ((publish_command_payload fields true client).0 ≡ true)
  unfolding render publish_command_payload
  start_enabled-publish_command_payload fields enabled =
      let seen = window_after-render form client.signals in
      let k = known_after client.signals in
      let rendered = subst (λ u. u.start_enabled || u.stop_enabled ≡ true) seen enabled in
      let at = known_after-state client.signals ∙ (run_events-IsAnnounced json es).2 in
      let up =
        subst (λ v. same_state v ConnectionState.connected ≡ true) at
          (either_button k.state k.ekinox_online (records k.ekinox) rendered) in
      let (can, session) = connected_state-can_publish up in
      (
        subst (λ u. (u.start_enabled && u.stop_enabled) ≡ false) (sym seen)
            (never_both (ready k) (records k.ekinox)),
        session,
        ground arith,
      )
