-- ===== src/Service/State.antt =====
-- The members of EkinoxService that change (services/ekinox/include/ironsoft/ekinox/ekinox_service.h
-- and ekinox_state.h), grouped by concern, and those that the constructor fixes. A time point is a
-- number of nanoseconds of the steady clock.
pub mod Bounds
use ironsoft.Prelude.{
  ℕ, ◌*◌, ◌/◌, ◌+◌, min, max, Bool, true, false, Option, none, some, List, [], ◌∷◌, ltb, ◌==◌,
  if◌then◌else◌, ◌%◌, ◌^◌,
}
use ironsoft.Text.{Text, lit}
use ironsoft.Types.{ServiceState, disconnected}
use ironsoft.Topics.{EkinoxTopics, make_topics}
use ironsoft.Json.{Fields}
use ironsoft.Config.{EkinoxConfig}
use ironsoft.Udp.{UdpConfig, UdpSession}

abbrev pub TimePoint : Type 0
TimePoint = ℕ

abbrev pub ns_per_ms : ℕ
ns_per_ms = 1000000

-- std::chrono::milliseconds, added to a time point.
abbrev pub milliseconds : ℕ → ℕ
milliseconds n = n * ns_per_ms

unfoldable pub mono_ms_of : TimePoint → ℕ
mono_ms_of tp = tp / ns_per_ms

pub record PresencePayload : Type 0 where
  pub online : Bool
  pub reason : Text
  pub timestamp : ℕ

pub record StatusPayload : Type 0 where
  pub link_alive : Bool
  pub api_ok : Bool
  pub recording_active : Bool
  pub state : ServiceState
  pub last_error : Text
  pub last_error_ts : ℕ
  pub session_name : Text

-- The connection to the broker, and when its retained messages are due.
pub record Link : Type 0 where
  pub connected : Bool
  pub presence_online : Bool
  pub last_presence_ts : ℕ
  pub last_presence_emit_ts_ms : ℕ
  pub next_reconnect_attempt : Option TimePoint
  pub current_backoff_ms : ℕ
  pub heartbeat_seq : ℕ
  pub start_tp : TimePoint
  pub next_status_pub : TimePoint
  pub next_heartbeat_pub : TimePoint

-- What is known of the REST API.
pub record RestHealth : Type 0 where
  pub rest_alive : Bool
  pub last_rest_success : TimePoint
  pub last_rest_ok : TimePoint
  pub last_rest_ok_ts_ms : ℕ
  pub rest_fail_streak : ℕ
  pub rest_success_streak : ℕ
  pub last_rest_error : Text
  pub next_rest_poll_ms : ℕ

-- The sensor's UDP link.
pub record Sensor : Type 0 where
  pub sensor_connected : Bool
  pub udp_link_alive : Bool
  pub rx_fail_streak : ℕ
  pub rx_ok_streak : ℕ
  pub sensor_reconnect_needed : Bool
  pub rx_timeout_error_active : Bool
  pub next_sensor_attempt : Option TimePoint
  pub reported_no_sbg : Bool
  pub udp_session : UdpSession

pub record CommandMessage : Type 0 where
  pub topic : Text
  pub payload : Text

-- A message handed to the MQTT client; `fields` are the members of the JSON object in its payload.
pub record Message : Type 0 where
  pub topic : Text
  pub fields : Fields
  pub qos : ℕ
  pub retained : Bool

-- `sent` is newest first; `tick` counts the calls into the environment.
pub record Service : Type 0 where
  pub status : StatusPayload
  pub presence : PresencePayload
  pub link : Link
  pub rest : RestHealth
  pub sensor : Sensor
  pub pending_commands : List CommandMessage
  pub sent : List Message
  pub tick : ℕ

-- What the constructor computes from the configuration; `has_sbg` is the macro DEKINOX_HAS_SBG.
pub record Setup : Type 0 where
  pub config : EkinoxConfig
  pub topics : EkinoxTopics
  pub presence_timeout : ℕ
  pub rest_poll_interval : ℕ
  pub udp_config : UdpConfig
  pub has_sbg : Bool

abbrev pub presence_default : ℕ
presence_default = 10000

abbrev pub clamp : ℕ → ℕ → ℕ → ℕ
clamp x lo hi = if ltb x lo then lo else if ltb hi x then hi else x

unfoldable pub make_setup : Bool → EkinoxConfig → Setup
make_setup has_sbg config =
    let configured = config.timeouts.presence_timeout_ms in
    let presence_timeout = if ltb 0 configured then configured else presence_default in
    let half = presence_timeout / 2 in
    record {
      config = config;
      topics = make_topics config.mqtt.drone_id;
      presence_timeout = presence_timeout;
      rest_poll_interval = if half == 0 then 1000 else clamp half 1000 2000;
      udp_config = record {
        ip = config.ekinox.ip;
        remote_port = config.ekinox.udp_port % 2 ^ 16;
        local_port = config.ekinox.udp_local_port % 2 ^ 16;
        rx_dead_ms = config.timeouts.rx_dead_ms % 2 ^ 32;
      };
      has_sbg = has_sbg;
    }

-- The members after the constructor, which reads the two clocks.
unfoldable pub init : Setup → ℕ → TimePoint → Service
init setup unix_ts now = record {
  status = record {
    link_alive = false;
    api_ok = false;
    recording_active = false;
    state = disconnected;
    last_error = [];
    last_error_ts = 0;
    session_name = [];
  };
  presence = record { online = false; reason = []; timestamp = unix_ts };
  link = record {
    connected = false;
    presence_online = false;
    last_presence_ts = 0;
    last_presence_emit_ts_ms = 0;
    next_reconnect_attempt = some now;
    current_backoff_ms = setup.config.timeouts.reconnect_backoff_ms;
    heartbeat_seq = 0;
    start_tp = now;
    next_status_pub = now;
    next_heartbeat_pub = now;
  };
  rest = record {
    rest_alive = false;
    last_rest_success = 0;
    last_rest_ok = 0;
    last_rest_ok_ts_ms = 0;
    rest_fail_streak = 0;
    rest_success_streak = 0;
    last_rest_error = [];
    next_rest_poll_ms = 0;
  };
  sensor = record {
    sensor_connected = false;
    udp_link_alive = false;
    rx_fail_streak = 0;
    rx_ok_streak = 0;
    sensor_reconnect_needed = false;
    rx_timeout_error_active = false;
    next_sensor_attempt = some now;
    reported_no_sbg = false;
    udp_session = record {
      config = record { ip = []; remote_port = 0; local_port = 0; rx_dead_ms = 0 };
      last_rx_ms = 0;
      connected = false;
    };
  };
  pending_commands = [];
  sent = [];
  tick = 0;
}
