-- ===== src/Gui/Client/State.antt =====
-- The members of MqttPahoClient (gui/src/mqtt_paho_client.h), and its setters. A log line is a signal
-- that nothing but the log window reads; log lines are left out.
use ironsoft.Prelude.{
  ℕ, Bool, true, false, not, Option, none, some, List, [], ◌∷◌, if◌then◌else◌, ◌++◌,
}
use ironsoft.Prelude.Int.{ℤ}
use ironsoft.Text.{Text, text_eq, lit}
use ironsoft.Json.{Fields}
use ironsoft.Gui.Status.{ConnectionState, BackendStatus, EkinoxStatus}
use ironsoft.Gui.Config.{MqttGuiConfig, blank_config}

pub data Signal : Type 0 where
  connected_changed presence_changed : Bool → Signal
  state_changed : ConnectionState → Signal
  heartbeat_received ekinox_heartbeat_received : Signal
  status_changed : BackendStatus → Signal
  -- The id, the round-trip time (-1: none), and whether the ping timed out.
  ping_updated : Text → ℤ → Bool → Signal
  ack_received : Text → Text → Bool → Signal
  ekinox_presence_changed : Bool → Signal
  ekinox_status_changed : EkinoxStatus → Signal

-- The topics to which the worker subscribes, in this order.
pub data Channel : Type 0 where
  to_presence to_status to_heartbeat to_ack to_ekinox_presence to_ekinox_status : Channel
  to_ekinox_heartbeat : Channel

-- Where the worker thread stands in `workerLoop`, with its backoff; `finished`: it has returned, and
-- was not joined; `terminated`: an exception left the thread, which ends the program. While it consumes
-- messages the backoff is the initial one.
pub data Worker : Type 0 where
  no_worker finished terminated consuming : Worker
  at_head opening starting waiting : ℕ → Worker
  subscribing : ℕ → Channel → Worker

-- Where the thread of the window stands: between two calls, in a ping that is published and not yet
-- registered, in one that is registered and not yet shown, or in `stop`, which waits for the worker.
pub data Caller : Type 0 where
  free in_stop : Caller
  in_ping in_show : Text → Caller

-- What was handed to the MQTT client.
pub record Published : Type 0 where
  pub topic : Text
  pub fields : Fields

-- `signals` and `published` are newest first; `timers` holds the ids of the ping timers that run.
pub record Client : Type 0 where
  pub cfg : MqttGuiConfig
  pub stop : Bool
  pub connected : Bool
  pub presence : Bool
  pub state : ConnectionState
  pub has_client : Bool
  pub worker : Worker
  pub caller : Caller
  pub pending_pings : List (Text × ℕ)
  pub timers : List Text
  pub signals : List Signal
  pub published : List Published

unfoldable pub start_client : Client
start_client = record {
  cfg = blank_config;
  stop = false;
  connected = false;
  presence = false;
  state = ConnectionState.disconnected;
  has_client = false;
  worker = no_worker;
  caller = free;
  pending_pings = [];
  timers = [];
  signals = [];
  published = [];
}

abbrev pub emit : Signal → Client → Client
emit signal s = record s { signals = signal ∷ s.signals }

abbrev pub same_bool : Bool → Bool → Bool
same_bool a b = if a then b else not b

abbrev pub same_state : ConnectionState → ConnectionState → Bool
same_state ConnectionState.disconnected ConnectionState.disconnected = true
same_state ConnectionState.connecting ConnectionState.connecting = true
same_state ConnectionState.connected ConnectionState.connected = true
same_state ConnectionState.stopping ConnectionState.stopping = true
same_state _ _ = false

-- The setters emit a signal where the value changes.
unfoldable pub set_connected : Bool → Client → Client
set_connected v s =
    if same_bool s.connected v then s else emit (connected_changed v) (record s { connected = v })

unfoldable pub set_presence : Bool → Client → Client
set_presence v s =
    if same_bool s.presence v then s else emit (presence_changed v) (record s { presence = v })

unfoldable pub set_client_state : ConnectionState → Client → Client
set_client_state v s =
    if same_state s.state v then s else emit (state_changed v) (record s { state = v })

unfoldable pub set_config : MqttGuiConfig → Client → Client
set_config cfg s = record s { cfg = cfg }

-- QHash: one entry for a key.
unfoldable pub find_ping : Text → List (Text × ℕ) → Option ℕ
find_ping id [] = none
find_ping id ((key, sent_ms) ∷ rest) = if text_eq key id then some sent_ms else find_ping id rest

unfoldable pub erase_ping : Text → List (Text × ℕ) → List (Text × ℕ)
erase_ping id [] = []
erase_ping id ((key, sent_ms) ∷ rest) =
    let kept = erase_ping id rest in if text_eq key id then kept else (key, sent_ms) ∷ kept

unfoldable pub topic_prefix : Client → Text
topic_prefix s = lit "ironsoft/uav/" ++ s.cfg.drone_id

abbrev pub t_cmd : Client → Text
t_cmd s = topic_prefix s ++ lit "/cmd"

abbrev pub t_presence : Client → Text
t_presence s = topic_prefix s ++ lit "/presence"

abbrev pub t_status : Client → Text
t_status s = topic_prefix s ++ lit "/status"

abbrev pub t_heartbeat : Client → Text
t_heartbeat s = topic_prefix s ++ lit "/heartbeat"

abbrev pub t_ack : Client → Text
t_ack s = topic_prefix s ++ lit "/ack"

unfoldable pub t_ekinox_prefix : Client → Text
t_ekinox_prefix s = topic_prefix s ++ lit "/ekinox"

abbrev pub t_ekinox_presence : Client → Text
t_ekinox_presence s = t_ekinox_prefix s ++ lit "/presence"

abbrev pub t_ekinox_status : Client → Text
t_ekinox_status s = t_ekinox_prefix s ++ lit "/status"

abbrev pub t_ekinox_heartbeat : Client → Text
t_ekinox_heartbeat s = t_ekinox_prefix s ++ lit "/heartbeat"
