-- ===== src/Gui/Config.antt =====
-- The configuration of the desktop client and its loader (gui/src/mqtt_paho_client.h and .cpp).
pub mod Valid
use ironsoft.Prelude.{
  ℕ, Bool, true, false, ◌||◌, not, Option, none, some, List, [], ◌++◌, if◌then◌else◌,
}
use ironsoft.Prelude.Int.{ℤ, pos, negsuc, pos_part, ltb_ℤ, leb_ℤ}
use ironsoft.Text.{Text, lit, is_empty}
use ironsoft.Json.{Parsed, parsed, parse_error}
use ironsoft.Config.{Result, ok, err, require, ◌>>=◌, ◌>>◌}
use ironsoft.Gui.Json.{QJson, get_or}

pub record MqttGuiConfig : Type 0 where
  pub host : Text
  pub port : ℕ
  pub user : Text
  pub pass : Text
  pub drone_id : Text
  pub tls_enabled : Bool
  pub ca_file : Text
  pub keepalive_s : ℕ

-- `MqttGuiConfig cfg;`
abbrev pub blank_config : MqttGuiConfig
blank_config = record {
  host = [];
  port = 1883;
  user = [];
  pass = [];
  drone_id = lit "drone01";
  tls_enabled = false;
  ca_file = [];
  keepalive_s = 20;
}

-- What QFile makes of the path; an open error has its errorString.
pub data FileRead : Type 0 where
  not_found : FileRead
  cannot_open : Text → FileRead
  contents : Text → FileRead

abbrev pub read_contents : FileRead → Text → Result Text
read_contents not_found path = err (lit "Config file " ++ path ++ lit " not found")
read_contents (cannot_open reason) path = err (lit "Cannot open " ++ path ++ lit ": " ++ reason)
read_contents (contents text) path = ok text

abbrev pub parsed_or_invalid : {A : Type 0} → Parsed A → Text → Result A
parsed_or_invalid (parsed v) path = ok v
parsed_or_invalid (parse_error e) path = err (lit "Invalid JSON in " ++ path ++ lit ": " ++ e)

-- `if (keepalive <= 0) keepalive = 20;`
abbrev pub keepalive_or_default : ℤ → ℕ
keepalive_or_default keepalive = if leb_ℤ keepalive (pos 0) then 20 else pos_part keepalive

module _ {V : Type 0} (json : QJson V) where
  open json use {from_json, is_object, value, string_of, bool_of, int_of}

  -- `value(name).toString()`
  abbrev pub text_at : V → Text
  text_at v = get_or [] (string_of v)

  -- `out` is the configuration as it was; where the loader fails, it is kept.
  unfoldable pub load_from_json_file : FileRead → Text → MqttGuiConfig → Result MqttGuiConfig
  load_from_json_file file path out = do
    text ← read_contents file path
    root ← parsed_or_invalid (from_json text) path
    require (is_object root) (lit "Root object must be an object in " ++ path)
    let broker = value root "broker"
    let host = text_at (value broker "host")
    let port = get_or (negsuc 0) (int_of (value broker "port"))
    require (not (is_empty host)) (lit "Missing broker.host in " ++ path)
    require (not (leb_ℤ port (pos 0) || ltb_ℤ (pos 65535) port))
        (lit "Invalid broker.port in " ++ path)
    let client = value root "client"
    let drone_id = text_at (value client "drone_id")
    require (not (is_empty drone_id)) (lit "Missing client.drone_id in " ++ path)
    let auth = value root "auth"
    let tls = value root "tls"
    ok (record {
      host = host;
      port = pos_part port;
      user = text_at (value auth "username");
      pass = text_at (value auth "password");
      drone_id = drone_id;
      tls_enabled = get_or false (bool_of (value tls "enabled"));
      ca_file = text_at (value tls "ca_file");
      keepalive_s =
          keepalive_or_default (get_or (pos out.keepalive_s) (int_of (value client "keepalive_s")));
    })
