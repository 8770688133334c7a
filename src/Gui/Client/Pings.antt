-- ===== src/Gui/Client/Pings.antt =====
-- Pings and the other commands, their acknowledgements and timeouts (gui/src/mqtt_paho_client.cpp).
use ironsoft.Prelude.{
  ℕ, ◌-◌, Bool, true, false, ◌&&◌, ◌||◌, not, Option, none, some, List, [], ◌∷◌, if◌then◌else◌,
}
use ironsoft.Prelude.Int.{pos, negsuc}
use ironsoft.Text.{Text, lit, is_empty, text_eq}
use ironsoft.Json.{Fields, str, int}
use ironsoft.Config.{ok, err}
use ironsoft.Gui.Json.{QJson, get_or, is_some}
use ironsoft.Gui.Client.State.{
  Client, free, in_ping, in_show, ping_updated, ack_received, emit, find_ping, erase_ping, t_cmd,
}
use ironsoft.Gui.Client.Parse.{parse_object}

-- A command may be handed to the MQTT client.
unfoldable pub can_publish : Client → Bool
can_publish s = s.has_client && s.connected

-- `accepted` is false where the MQTT client throws; the second component is the result.
unfoldable pub publish_command_payload : Fields → Bool → Client → Bool × Client
publish_command_payload fields accepted s =
    if can_publish s && accepted
    then (true, record s { published = record { topic = t_cmd s; fields = fields } ∷ s.published })
    else (false, s)

unfoldable pub logger_start_fields : Text → Text → ℕ → Fields
logger_start_fields id session_name now_s =
    ("id", str id)
    ∷ ("type", str (lit "logger.start"))
    ∷ ("ts", int now_s)
    ∷ ("sessionName", str session_name)
    ∷ []

unfoldable pub logger_stop_fields : Text → Fields
logger_stop_fields id = ("id", str id) ∷ ("type", str (lit "logger.stop")) ∷ []

unfoldable pub logger_status_fields : Text → ℕ → Fields
logger_status_fields id now_s =
    ("id", str id) ∷ ("type", str (lit "logger.status")) ∷ ("ts", int now_s) ∷ []

unfoldable pub ping_fields : Text → Fields
ping_fields id = ("id", str id) ∷ ("type", str (lit "ping")) ∷ []

-- `publishCmdPing` up to `client_->publish`; the id is a fresh UUID.
unfoldable pub ping_publish : Text → Bool → Client → Client
ping_publish id accepted s =
    if can_publish s && accepted
    then record s {
      published = record { topic = t_cmd s; fields = ping_fields id } ∷ s.published;
      caller = in_ping id;
    }
    else s

-- Its block under the lock: the ping is registered.
unfoldable pub ping_register : Text → ℕ → Client → Client
ping_register id now_ms s = record s {
  pending_pings = (id, now_ms) ∷ erase_ping id s.pending_pings;
  caller = in_show id;
}

-- Its end: the ping is shown, and its timer started.
unfoldable pub ping_show : Text → Client → Client
ping_show id s =
    emit (ping_updated id (negsuc 0) false) (record s { timers = id ∷ s.timers; caller = free })

-- The first timer with this id is over.
unfoldable pub remove_timer : Text → List Text → List Text
remove_timer id [] = []
remove_timer id (key ∷ rest) =
    let kept = remove_timer id rest in if text_eq key id then rest else key ∷ kept

unfoldable pub handle_ping_timeout : Text → Client → Client
handle_ping_timeout id s =
    let removed = is_some (find_ping id s.pending_pings) in
    let t = record s { pending_pings = erase_ping id s.pending_pings } in
    if not removed || s.stop then t else emit (ping_updated id (negsuc 0) true) t

-- The end of `handleAckMessage`: a ping that waited, or another command.
unfoldable pub settle_ack : Text → Text → Bool → Option ℕ → ℕ → Client → Client
settle_ack type id is_ok none now_ms s = emit (ack_received type id is_ok) s
settle_ack type id is_ok (some sent_ms) now_ms s =
    emit (ack_received (if is_empty type then lit "ping" else type) id is_ok) (
      emit (ping_updated id (pos (now_ms - sent_ms)) false)
        (record s { pending_pings = erase_ping id s.pending_pings }))

module _ {V : Type 0} (json : QJson V) where
  open json use {value, string_of, bool_of}

  abbrev pub ack_id : V → Text
  ack_id obj = get_or [] (string_of (value obj "id"))

  unfoldable pub handle_ack_object : V → ℕ → Client → Client
  handle_ack_object obj now_ms s =
      let id = ack_id obj in
      let type = get_or [] (string_of (value obj "type")) in
      let is_ok = get_or false (bool_of (value obj "ok")) in
      if is_empty id then s else settle_ack type id is_ok (find_ping id s.pending_pings) now_ms s

  unfoldable pub handle_ack_message : Text → ℕ → Client → Client
  handle_ack_message payload now_ms s = elim (parse_object json payload) [
    | err e ↦ s
    | ok obj ↦ handle_ack_object obj now_ms s
  ]
