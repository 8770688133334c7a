-- ===== src/Backend/State.antt =====
-- backend/include/ironsoft/topics.h and mqtt_config.h, backend/src/state.h, and what main.cpp makes of
-- the configuration file.
use ironsoft.Prelude.{ℕ, ◌++◌, Bool, true, false, Option, none, some, List, [], String}
use ironsoft.Prelude.Int.{ℤ, pos}
use ironsoft.Text.{Text, lit}
use ironsoft.Json.{Fields}
use ironsoft.Backend.Json.{CheckedJson, at, ◌>>=◌}

pub record Topics : Type 0 where
  pub prefix : Text
  pub presence : Text
  pub status : Text
  pub heartbeat : Text
  pub cmd : Text
  pub ack : Text

unfoldable pub backend_topics : Text → Topics
backend_topics drone_id =
    let prefix = lit "ironsoft/uav/" ++ drone_id in
    record {
      prefix = prefix;
      presence = prefix ++ lit "/presence";
      status = prefix ++ lit "/status";
      heartbeat = prefix ++ lit "/heartbeat";
      cmd = prefix ++ lit "/cmd";
      ack = prefix ++ lit "/ack";
    }

pub record MqttConfig : Type 0 where
  pub host : Text
  pub port : ℤ
  pub username : Text
  pub password : Text
  pub tls_enabled : Bool
  pub ca_file : Text
  pub drone_id : Text
  pub keepalive_s : ℤ

abbrev pub default_mqtt_config : MqttConfig
default_mqtt_config = record {
  host = [];
  port = pos 1883;
  username = [];
  password = [];
  tls_enabled = false;
  ca_file = [];
  drone_id = lit "drone01";
  keepalive_s = pos 30;
}

module _ {V : Type 0} (json : CheckedJson V) where
  open json use {find, as_string, as_int, as_bool}

  abbrev text_member_of : V → String → Option Text
  text_member_of value name = at json value name >>= as_string

  abbrev int_member_of : V → String → Option ℤ
  int_member_of value name = at json value name >>= as_int

  -- What follows `if (root.isMember(...))`, on the configuration so far.
  abbrev with_auth : Option V → MqttConfig → Option MqttConfig
  with_auth none cfg = some cfg
  with_auth (some auth) cfg = do
    username ← text_member_of auth "username"
    password ← text_member_of auth "password"
    some (record cfg { username = username; password = password })

  abbrev with_tls : Option V → MqttConfig → Option MqttConfig
  with_tls none cfg = some cfg
  with_tls (some tls) cfg = do
    enabled ← at json tls "enabled" >>= as_bool
    ca_file ← text_member_of tls "ca_file"
    some (record cfg { tls_enabled = enabled; ca_file = ca_file })

  abbrev with_client : Option V → MqttConfig → Option MqttConfig
  with_client none cfg = some cfg
  with_client (some client) cfg = do
    drone_id ← text_member_of client "drone_id"
    keepalive ← int_member_of client "keepalive_s"
    some (record cfg { drone_id = drone_id; keepalive_s = keepalive })

  -- `none`: an accessor throws, and nothing catches it.
  unfoldable pub parse_mqtt_config : V → Option MqttConfig
  parse_mqtt_config root = do
    broker ← at json root "broker"
    host ← text_member_of broker "host"
    port ← int_member_of broker "port"
    auth ← find root "auth"
    authorised ← with_auth auth (record default_mqtt_config { host = host; port = port })
    tls ← find root "tls"
    secured ← with_tls tls authorised
    client ← find root "client"
    with_client client secured

-- A message that was handed to the MQTT client.
pub record Sent : Type 0 where
  pub topic : Text
  pub fields : Fields
  pub qos : ℕ
  pub retained : Bool

-- BackendState and MqttBackendClient. `heartbeat_seq` is the 32 bits of its int; `sent` is newest first; the members `mode` and `last_error`,
-- which nothing reads or writes, are left out.
pub record Backend : Type 0 where
  pub running : Bool
  pub heartbeat_seq : ℕ
  pub connected : Bool
  pub stop_requested : Bool
  pub sent : List Sent

unfoldable pub start_backend : Backend
start_backend = record {
  running = true;
  heartbeat_seq = 0;
  connected = false;
  stop_requested = false;
  sent = [];
}
