-- ===== src/Tests/Data.antt =====
-- Concrete inputs: a JSON document as a table of paths, an environment, a configuration.
use ironsoft.Prelude.{
  ◌+◌, ◌*◌, Bool, true, false, Option, none, some, List, [], ◌∷◌, ◌++◌, if◌then◌else◌,
}
use ironsoft.Prelude.Int.{ℤ, pos}
use ironsoft.Text.{Text, lit, text_eq}
use ironsoft.Json.{Json, parsed}
use ironsoft.Config.{EkinoxConfig, default_timeouts, default_rest_api}
use ironsoft.Udp.{no_error, time_out}
use ironsoft.Rest.Http.{responded}
use ironsoft.Service.State.{Service, Setup, make_setup, init}
use ironsoft.Service.Exec.{Context, Env}

-- What stands at a path of a document.
pub data Node : Type 0 where
  object absent : Node
  text : Text → Node
  number : ℤ → Node

abbrev pub Document : Type 0
Document = List (Text × Node)

abbrev pub find : Document → Text → Node
find [] path = absent
find ((key, node) ∷ rest) path = if text_eq key path then node else find rest path

abbrev pub is_object_node : Node → Bool
is_object_node object = true
is_object_node _ = false

abbrev pub is_string_node : Node → Bool
is_string_node (text t) = true
is_string_node _ = false

abbrev pub is_number_node : Node → Bool
is_number_node (number n) = true
is_number_node _ = false

abbrev pub is_absent_node : Node → Bool
is_absent_node absent = true
is_absent_node _ = false

abbrev pub text_of : Node → Text
text_of (text t) = t
text_of _ = []

abbrev pub number_of : Node → Option ℤ
number_of (number n) = some n
number_of _ = none

-- Every payload is read as the one document, and nothing but its length is written.
abbrev pub document_json : Document → Json Text
document_json d = record {
  parse = λ payload. parsed [];
  is_object = λ v. is_object_node (find d v);
  is_string = λ v. is_string_node (find d v);
  is_bool = λ v. false;
  is_int64 = λ v. is_number_node (find d v);
  is_uint64 = λ v. is_number_node (find d v);
  is_numeric = λ v. is_number_node (find d v);
  is_null = λ v. is_absent_node (find d v);
  as_string = λ v. text_of (find d v);
  as_bool = λ v. false;
  int_value = λ v. number_of (find d v);
  as_int = λ v. number_of (find d v);
  member = λ v name. v ++ b'/' ∷ lit name;
  is_member = λ v name. if is_absent_node (find d (v ++ b'/' ∷ lit name)) then false else true;
  write = λ fields. lit "{}";
}

abbrev pub config_document : Document
config_document =
    ([], object)
    ∷ (lit "/mqtt", object)
    ∷ (lit "/mqtt/host", text (lit "broker"))
    ∷ (lit "/mqtt/port", number (pos 1883))
    ∷ (lit "/mqtt/drone_id", text (lit "uav1"))
    ∷ (lit "/ekinox", object)
    ∷ (lit "/ekinox/ip", text (lit "10.0.0.7"))
    ∷ []

abbrev pub loaded_config : EkinoxConfig
loaded_config = record {
  mqtt = record {
    host = lit "broker";
    port = 1883;
    drone_id = lit "uav1";
    username = [];
    password = [];
    tls_enabled = false;
    ca_file = [];
  };
  ekinox = record { ip = lit "10.0.0.7"; udp_port = 0; udp_local_port = 0; rest_port = 80 };
  timeouts = default_timeouts;
  rest_api = default_rest_api;
}

abbrev pub ping_document : Document
ping_document = ([], object) ∷ (lit "/type", text (lit "ping")) ∷ (lit "/id", text (lit "7")) ∷ []

-- A device that records.
abbrev pub recording_document : Document
recording_document =
    ([], object)
    ∷ (lit "/status", text (lit "recording"))
    ∷ (lit "/writeSpeed", number (pos 12))
    ∷ []

-- Ten milliseconds pass between two calls; the broker accepts everything, the device answers 200, and
-- the sensor is silent.
abbrev pub calm : Env
calm = record {
  steady_ns = λ n. 5000000000 + n * 10000000;
  unix_s = λ n. 1700000000;
  utc_stamp = λ n. lit "20240101_000000";
  curl = λ n request. responded 200 (lit "{}");
  connects = λ n. true;
  subscribes = λ n. true;
  publishes = λ n. true;
  waits = λ n. true;
  disconnects = λ n. true;
  sbg_opening = λ n config. record { ip_valid = true; create = no_error; init = no_error };
  sbg_poll = λ n. record { received = none; status = time_out };
}

abbrev pub calm_setup : Setup
calm_setup = make_setup true loaded_config

abbrev pub calm_context : Context Text
calm_context = record { setup = calm_setup; json = document_json ping_document; env = calm }

abbrev pub built_state : Service
built_state = init calm_setup 1700000000 5000000000

abbrev pub connected_state : Service
connected_state = record built_state { link = record (built_state.link) { connected = true } }

-- Connected, with two successes behind it.
abbrev pub proven_state : Service
proven_state = record connected_state {
  rest = record (connected_state.rest) {
    rest_alive = true;
    last_rest_ok_ts_ms = 4900;
    rest_success_streak = 2;
  };
}

-- A sensor session over an open socket, while the device records.
abbrev pub recording_state : Service
recording_state = record proven_state {
  status = record (proven_state.status) { recording_active = true };
  sensor = record (proven_state.sensor) {
    sensor_connected = true;
    udp_session = record (proven_state.sensor.udp_session) { connected = true; last_rx_ms = 1 };
  };
}
