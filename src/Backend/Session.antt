-- ===== src/Backend/Session.antt =====
-- The two threads of the backend (backend/src/mqtt_client.cpp): the connect loop, the heartbeats and
-- `stop`. The commands are handled by the handler of main.cpp.
use ironsoft.Prelude.{
  ℕ, ◌+◌, ◌-◌, ◌%◌, ◌^◌, ltb, ◌/◌, Bool, true, false, ◌&&◌, not, if◌then◌else◌, Option, none, some,
  List, [], ◌∷◌,
}
use ironsoft.Text.{Text, lit, text_eq}
use ironsoft.Json.{Fields, Scalar, str, bool, int, negative}
use ironsoft.Backend.Json.{CheckedJson}
use ironsoft.Backend.State.{Topics, Backend, Sent}
use ironsoft.Backend.Commands.{
  CmdHandlerResult, ack_fields_of, handle_cmd_ping_only, best_effort_id,
}

unfoldable pub send : Text → Fields → ℕ → Bool → Backend → Backend
send topic fields qos retained b = record b {
  sent = record { topic = topic; fields = fields; qos = qos; retained = retained } ∷ b.sent;
}

-- The last will, which the broker publishes when the connection is lost.
unfoldable pub last_will : Topics → ℕ → Sent
last_will topics now_s = record {
  topic = topics.presence;
  fields = ("state", str (lit "offline")) ∷ ("ts", int now_s) ∷ ("reason", str (lit "lwt")) ∷ [];
  qos = 1;
  retained = true;
}

unfoldable pub publish_presence_online : Topics → ℕ → Backend → Backend
publish_presence_online topics now_s =
    send topics.presence (("state", str (lit "online")) ∷ ("ts", int now_s) ∷ []) 1 true

unfoldable pub publish_status_retained : Topics → Backend → Backend
publish_status_retained topics =
    send topics.status
      (("mode", str (lit "IDLE")) ∷ ("api_ok", bool true) ∷ ("last_error", str []) ∷ []) 1 true

-- The int that 32 bits stand for.
unfoldable pub int32 : ℕ → Scalar
int32 bits = if ltb bits (2 ^ 31) then int bits else negative (2 ^ 32 - 1 - bits)

-- One round of the heartbeat thread; fetch_add of an atomic int wraps around.
unfoldable pub heartbeat_round : Topics → ℕ → Backend → Backend
heartbeat_round topics steady_ms b =
    if not b.stop_requested && b.connected
    then send topics.heartbeat
        (("seq", int32 b.heartbeat_seq) ∷ ("uptime_s", int (steady_ms / 1000)) ∷ []) 0 false
        (record b { heartbeat_seq = (b.heartbeat_seq + 1) % 2 ^ 32 })
    else b

-- `start`; the two threads begin.
unfoldable pub start_threads : Backend → Backend
start_threads b = record b { stop_requested = false }

-- The first statements of `stop`; the joins follow.
unfoldable pub request_stop : Backend → Backend
request_stop b = record b { stop_requested = true; running = false }

-- After the joins: is the MQTT client told to disconnect?
abbrev pub stop_disconnects : Backend → Bool
stop_disconnects b = b.connected

-- What happens while the connect thread waits in consume_message: a message with its topic and
-- payload, and whether the MQTT client accepts the acknowledgement; a round of the other thread; a
-- call of stop.
pub data Occurrence : Type 0 where
  message : Text → Text → Bool → Occurrence
  beats : ℕ → Occurrence
  stop_called : Occurrence

-- Which of the calls in front of the message loop return: connect, and those for presence,
-- status and subscription; the others throw. The occurrences end where consume_message gives null or throws.
pub record Attempt : Type 0 where
  pub can_connect : Bool
  pub can_announce : Bool
  pub can_report : Bool
  pub can_subscribe : Bool
  pub now_s : ℕ
  pub occurrences : List Occurrence

module _ {V : Type 0} (json : CheckedJson V) (topics : Topics) where
  -- The acknowledgement; the MQTT client throws where it does not accept it.
  abbrev pub acknowledge : Text → Bool → Backend → Option CmdHandlerResult → Option Backend
  acknowledge payload accepted b none = none
  acknowledge payload accepted b (some res) =
      if accepted
      then some (send topics.ack (ack_fields_of (best_effort_id json payload) res) 1 false b)
      else none

  -- A command of the loop; `none`: the handler throws, or the MQTT client.
  unfoldable pub answer_command : Text → Bool → Backend → Option Backend
  answer_command payload accepted b =
      acknowledge payload accepted b (handle_cmd_ping_only json payload)

  abbrev pub on_message : Text → Text → Bool → Backend → Option Backend
  on_message topic payload accepted b =
      if text_eq topic topics.cmd then answer_command payload accepted b else some b

  -- What follows a message: the test of the loop, and the messages after it; or the exception.
  abbrev pub after_message : (Backend → Backend) → Backend → Option Backend → Backend
  after_message go_on b none = b
  after_message go_on b (some c) = if c.stop_requested then c else go_on c

  unfoldable pub consume_messages : List Occurrence → Backend → Backend
  consume_messages [] b = b
  consume_messages (message topic payload accepted ∷ rest) b =
      after_message (consume_messages rest) b (on_message topic payload accepted b)
  consume_messages (beats steady_ms ∷ rest) b =
      consume_messages rest (heartbeat_round topics steady_ms b)
  consume_messages (stop_called ∷ rest) b = consume_messages rest (request_stop b)

  -- The body of the `try` block: each call may throw, which ends it.
  unfoldable pub session : Attempt → Backend → Backend
  session a b =
      if not a.can_connect
      then b
      else let up = record b { connected = true } in
        let announced = publish_presence_online topics a.now_s up in
        let reported = publish_status_retained topics announced in
        if not a.can_announce
        then up
        else if not a.can_report
        then announced
        else if not a.can_subscribe
        then reported
        else if reported.stop_requested
        then reported
        else consume_messages a.occurrences reported

  -- The loop, for as many rounds as there are attempts; a stop may be asked for while it sleeps.
  unfoldable pub run_connect_loop : List (Attempt × Bool) → Backend → Backend
  run_connect_loop [] b = b
  run_connect_loop ((a, stop_in_sleep) ∷ rest) b =
      let ended = record (session a b) { connected = false } in
      let woken = if stop_in_sleep then request_stop ended else ended in
      let later = run_connect_loop rest woken in if b.stop_requested then b else later
