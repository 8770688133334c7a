-- ===== src/Gui/Client/Messages.antt =====
-- A message that the worker thread consumed (gui/src/mqtt_paho_client.cpp): the chain of topics.
use ironsoft.Prelude.{ℕ, true, false, [], if◌then◌else◌}
use ironsoft.Text.{Text, lit, text_eq}
use ironsoft.Config.{ok, err}
use ironsoft.Gui.Json.{QJson, get_or}
use ironsoft.Gui.Client.State.{
  Client, heartbeat_received, ekinox_heartbeat_received, status_changed, ekinox_presence_changed,
  ekinox_status_changed, emit, set_presence, t_presence, t_status, t_heartbeat, t_ack,
  t_ekinox_presence, t_ekinox_status, t_ekinox_heartbeat,
}
use ironsoft.Gui.Client.Parse.{parse_object, parse_status_json, parse_ekinox_status_json}
use ironsoft.Gui.Client.Pings.{handle_ack_message}

-- The topic and the payload, and the two clocks as the message is handled.
pub record Incoming : Type 0 where
  pub topic : Text
  pub payload : Text
  pub now_ms : ℕ
  pub now_s : ℕ

module _ {V : Type 0} (json : QJson V) where
  open json use {value, string_of}

  abbrev pub state_text : V → Text
  state_text obj = get_or [] (string_of (value obj "state"))

  unfoldable pub handle_presence : Text → Client → Client
  handle_presence payload s = elim (parse_object json payload) [
    | err e ↦ s
    | ok obj ↦
        if text_eq (state_text obj) (lit "online")
        then set_presence true s
        else if text_eq (state_text obj) (lit "offline")
        then set_presence false s
        else s
  ]

  unfoldable pub handle_status : Text → ℕ → Client → Client
  handle_status payload now_s s = elim (parse_status_json json payload now_s) [
    | err e ↦ s
    | ok st ↦ emit (status_changed st) s
  ]

  unfoldable pub handle_ekinox_presence : Text → Client → Client
  handle_ekinox_presence payload s = elim (parse_object json payload) [
    | err e ↦ s
    | ok obj ↦ emit (ekinox_presence_changed (text_eq (state_text obj) (lit "online"))) s
  ]

  unfoldable pub handle_ekinox_status : Text → ℕ → Client → Client
  handle_ekinox_status payload now_s s = elim (parse_ekinox_status_json json payload now_s) [
    | err e ↦ s
    | ok st ↦ emit (ekinox_status_changed st) s
  ]

  unfoldable pub handle_message : Incoming → Client → Client
  handle_message m s =
      if text_eq m.topic (t_presence s)
      then handle_presence m.payload s
      else if text_eq m.topic (t_status s)
      then handle_status m.payload m.now_s s
      else if text_eq m.topic (t_heartbeat s)
      then emit heartbeat_received s
      else if text_eq m.topic (t_ack s)
      then handle_ack_message json m.payload m.now_ms s
      else if text_eq m.topic (t_ekinox_presence s)
      then handle_ekinox_presence m.payload s
      else if text_eq m.topic (t_ekinox_status s)
      then handle_ekinox_status m.payload m.now_s s
      else if text_eq m.topic (t_ekinox_heartbeat s)
      then emit ekinox_heartbeat_received s
      else s
