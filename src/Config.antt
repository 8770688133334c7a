-- ===== src/Config.antt =====
-- services/ekinox/include/ironsoft/ekinox/ekinox_config.h and services/ekinox/src/ekinox_config.cpp:
-- the configuration and its loader. The `int` fields hold numbers: the loader stores no negative one.
pub mod Valid
use ironsoft.Prelude.{
  ℕ, String, Bool, true, false, ◌&&◌, ◌||◌, not, Option, none, some, List, [], ◌++◌, ltb, leb,
  if◌then◌else◌,
}
use ironsoft.Prelude.Int.{ℤ, pos, pos_part, ltb_ℤ, leb_ℤ}
use ironsoft.Text.{Text, lit, is_empty}
use ironsoft.Json.{Json, Parsed, parsed, parse_error}

pub record MqttCfg : Type 0 where
  pub host : Text
  pub port : ℕ
  pub drone_id : Text
  pub username : Text
  pub password : Text
  pub tls_enabled : Bool
  pub ca_file : Text

pub record EkinoxNetCfg : Type 0 where
  pub ip : Text
  pub udp_port : ℕ
  pub udp_local_port : ℕ
  pub rest_port : ℕ

pub record RestApiConfig : Type 0 where
  pub base_path : Text
  pub datalogger_path : Text

pub record EkinoxTimeouts : Type 0 where
  pub rx_dead_ms : ℕ
  pub udp_rx_timeout_ms : ℕ
  pub udp_rx_fail_threshold : ℕ
  pub udp_rx_ok_to_clear_threshold : ℕ
  pub start_timeout_ms : ℕ
  pub stop_timeout_ms : ℕ
  pub reconnect_backoff_ms : ℕ
  pub reconnect_backoff_max_ms : ℕ
  pub presence_timeout_ms : ℕ

pub record EkinoxConfig : Type 0 where
  pub mqtt : MqttCfg
  pub ekinox : EkinoxNetCfg
  pub timeouts : EkinoxTimeouts
  pub rest_api : RestApiConfig

-- The member initialisers of the structs.
abbrev pub default_net : EkinoxNetCfg
default_net = record { ip = []; udp_port = 0; udp_local_port = 0; rest_port = 80 }

abbrev pub default_rest_api : RestApiConfig
default_rest_api = record { base_path = lit "/api/v1"; datalogger_path = lit "/dataLogger" }

abbrev pub default_timeouts : EkinoxTimeouts
default_timeouts = record {
  rx_dead_ms = 1500;
  udp_rx_timeout_ms = 5000;
  udp_rx_fail_threshold = 3;
  udp_rx_ok_to_clear_threshold = 2;
  start_timeout_ms = 10000;
  stop_timeout_ms = 10000;
  reconnect_backoff_ms = 250;
  reconnect_backoff_max_ms = 2000;
  presence_timeout_ms = 5000;
}

-- A loader returns false with `err` set, or true.
pub data Result (A : Type 0) : Type 0 where
  err : Text → Result A
  ok : A → Result A

-- The rest of the loader, where it has not returned.
module _ {A B : Type 0} where
  infixl 5 ◌>>=◌
  unfoldable pub ◌>>=◌ : Result A → (A → Result B) → Result B
  ◌>>=◌ (err reason) rest = err reason
  ◌>>=◌ (ok value) rest = rest value

module _ {B : Type 0} where
  infixl 5 ◌>>◌
  abbrev pub ◌>>◌ : Result (Unit {0}) → Result B → Result B
  ◌>>◌ check rest = check >>= λ _. rest

abbrev pub require : Bool → Text → Result (Unit {0})
require holds reason = if holds then ok tt else err reason

abbrev port_in_range : Option ℤ → Bool → Text → Result ℕ
port_in_range none allow_zero field = err (lit "invalid " ++ field)
port_in_range (some port) allow_zero field =
    if ltb_ℤ port (if allow_zero then pos 0 else pos 1) || ltb_ℤ (pos 65535) port
    then err (lit "invalid " ++ field)
    else ok (pos_part port)

abbrev positive : Option ℤ → Text → Result ℕ
positive none field = err (lit "invalid " ++ field)
positive (some val) field =
    if leb_ℤ val (pos 0) then err (lit "invalid " ++ field) else ok (pos_part val)

abbrev parsed_or_err : {A : Type 0} → Parsed A → Result A
parsed_or_err (parsed v) = ok v
parsed_or_err (parse_error e) = err e

abbrev contents_or_err : Option Text → Text → Result Text
contents_or_err none path = err (lit "failed to open " ++ path)
contents_or_err (some content) path = ok content

module _ {V : Type 0} (json : Json V) where
  open json use {
    parse, is_object, is_string, is_bool, is_null, as_string, as_bool, int_value, member,
  }

  unfoldable pub validate_port : V → Text → Bool → Result ℕ
  validate_port value field allow_zero = port_in_range (int_value value) allow_zero field

  unfoldable pub validate_positive_timeout : V → Text → Result ℕ
  validate_positive_timeout value field = positive (int_value value) field

  -- A required string: `!value.isString() || value.asString().empty()` is refused.
  abbrev pub required_text : V → Text → Result Text
  required_text value message =
      if not (is_string value) || is_empty (as_string value)
      then err message
      else ok (as_string value)

  -- `if (value.isString()) target = value.asString();`
  abbrev pub string_or : V → Text → Text
  string_or value target = if is_string value then as_string value else target

  abbrev pub bool_or : V → Bool → Bool
  bool_or value target = if is_bool value then as_bool value else target

  abbrev pub nonempty_or : V → Text → Text
  nonempty_or value target =
      if is_string value && not (is_empty (as_string value)) then as_string value else target

  abbrev pub optional_port : V → Text → Bool → ℕ → Result ℕ
  optional_port value field allow_zero target =
      if not (is_null value) then validate_port value field allow_zero else ok target

  unfoldable pub load_mqtt : V → Result MqttCfg
  load_mqtt mqtt = do
    require (is_object mqtt) (lit "missing mqtt")
    host ← required_text (member mqtt "host") (lit "missing mqtt.host")
    port ← validate_port (member mqtt "port") (lit "mqtt.port") false
    drone_id ← required_text (member mqtt "drone_id") (lit "missing mqtt.drone_id")
    let auth = member mqtt "auth"
    let tls = member mqtt "tls"
    ok (record {
      host = host;
      port = port;
      drone_id = drone_id;
      username = if is_object auth then string_or (member auth "username") [] else [];
      password = if is_object auth then string_or (member auth "password") [] else [];
      tls_enabled = if is_object tls then bool_or (member tls "enabled") false else false;
      ca_file = if is_object tls then string_or (member tls "ca_file") [] else [];
    })

  unfoldable pub load_net : V → Result EkinoxNetCfg
  load_net ekinox = do
    require (is_object ekinox) (lit "missing ekinox")
    ip ← required_text (member ekinox "ip") (lit "missing ekinox.ip")
    udp_port ←
        optional_port (member ekinox "udp_port") (lit "ekinox.udp_port") true default_net.udp_port
    udp_local_port ←
        optional_port (member ekinox "udp_local_port") (lit "ekinox.udp_local_port") true
          default_net.udp_local_port
    rest_port ←
        optional_port (member ekinox "rest_port") (lit "ekinox.rest_port") false
          default_net.rest_port
    ok (record {
      ip = ip;
      udp_port = udp_port;
      udp_local_port = udp_local_port;
      rest_port = rest_port;
    })

  -- The lambda `read_timeout`.
  unfoldable pub read_timeout : V → String → ℕ → Result ℕ
  read_timeout timeouts field target =
      let value = member timeouts field in
      if is_null value then ok target else validate_positive_timeout value (lit field)

  unfoldable pub read_timeouts : V → Result EkinoxTimeouts
  read_timeouts timeouts = do
    rx_dead_ms ← read_timeout timeouts "rx_dead_ms" default_timeouts.rx_dead_ms
    udp_rx_timeout_ms ← read_timeout timeouts "udp_rx_timeout_ms" default_timeouts.udp_rx_timeout_ms
    fail ← read_timeout timeouts "udp_rx_fail_threshold" default_timeouts.udp_rx_fail_threshold
    clear ←
        read_timeout timeouts "udp_rx_ok_to_clear_threshold"
          default_timeouts.udp_rx_ok_to_clear_threshold
    start ← read_timeout timeouts "start_timeout_ms" default_timeouts.start_timeout_ms
    stop ← read_timeout timeouts "stop_timeout_ms" default_timeouts.stop_timeout_ms
    backoff ← read_timeout timeouts "reconnect_backoff_ms" default_timeouts.reconnect_backoff_ms
    backoff_max ←
        read_timeout timeouts "reconnect_backoff_max_ms" default_timeouts.reconnect_backoff_max_ms
    presence ← read_timeout timeouts "presence_timeout_ms" default_timeouts.presence_timeout_ms
    ok (record {
      rx_dead_ms = rx_dead_ms;
      udp_rx_timeout_ms = udp_rx_timeout_ms;
      udp_rx_fail_threshold = fail;
      udp_rx_ok_to_clear_threshold = clear;
      start_timeout_ms = start;
      stop_timeout_ms = stop;
      reconnect_backoff_ms = backoff;
      reconnect_backoff_max_ms = backoff_max;
      presence_timeout_ms = presence;
    })

  unfoldable pub load_timeouts : V → Result EkinoxTimeouts
  unfolding read_timeouts
  load_timeouts timeouts =
      if is_object timeouts then read_timeouts timeouts else ok default_timeouts

  unfoldable pub load_rest_api : V → Result RestApiConfig
  load_rest_api rest_api =
      if not (is_null rest_api) && not (is_object rest_api)
      then err (lit "rest_api must be object")
      else if is_object rest_api
      then ok (record {
        base_path = nonempty_or (member rest_api "base_path") default_rest_api.base_path;
        datalogger_path =
            nonempty_or (member rest_api "datalogger_path") default_rest_api.datalogger_path;
      })
      else ok default_rest_api

  -- `read_file` stands for the stream that reads a whole file; `none`: it cannot be opened.
  unfoldable pub load_json_file : (Text → Option Text) → Text → Result V
  load_json_file read_file path = do
    content ← contents_or_err (read_file path) path
    parsed_or_err (parse content)

  unfoldable pub load_ekinox_config : (Text → Option Text) → Text → Result EkinoxConfig
  load_ekinox_config read_file path = do
    root ← load_json_file read_file path
    require (is_object root) (lit "config root must be object")
    mqtt ← load_mqtt (member root "mqtt")
    ekinox ← load_net (member root "ekinox")
    timeouts ← load_timeouts (member root "timeouts")
    rest_api ← load_rest_api (member root "rest_api")
    ok (record { mqtt = mqtt; ekinox = ekinox; timeouts = timeouts; rest_api = rest_api })
