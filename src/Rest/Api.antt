-- ===== src/Rest/Api.antt =====
-- The public calls of EkinoxLoggerApi (services/ekinox/src/ekinox_logger_api.cpp).
use ironsoft.Prelude.{Bool, true, false, ◌++◌, [], ◌∷◌, Option, none, some, ◌==◌, if◌then◌else◌}
use ironsoft.Prelude.Int.{negsuc}
use ironsoft.Text.{Text, lit, is_empty}
use ironsoft.Json.{Json, str}
use ironsoft.Config.{EkinoxConfig, RestApiConfig}
use ironsoft.Rest.Path.{build_paths, build_url, build_datalogger_base_url}
use ironsoft.Rest.Enrich.{LoggerResult, empty_result}
use ironsoft.Rest.Http.{Request, CurlOutcome, perform_http_request}

unfoldable pub make_config_error : Text → LoggerResult
make_config_error field = record empty_result {
  ok = false;
  error_code = negsuc 1;
  error_string = lit "missing " ++ field;
}

-- `none`: the target is valid; `some`: the value of `out_error`.
unfoldable pub validate_rest_target : EkinoxConfig → Option LoggerResult
validate_rest_target config =
    if is_empty config.ekinox.ip
    then some (make_config_error (lit "ekinox.ip"))
    else if config.ekinox.rest_port == 0
    then some (make_config_error (lit "ekinox.rest_port"))
    else none

unfoldable pub build_base_url : EkinoxConfig → RestApiConfig → Text
build_base_url config api = elim (validate_rest_target config) [
  | none ↦ build_datalogger_base_url config api
  | some e ↦ []
]

unfoldable pub http_get : EkinoxConfig → Text → Request
http_get config path = record {
  method = lit "GET";
  url = build_url config path;
  payload = [];
  send_json_body = false;
}

unfoldable pub http_post : EkinoxConfig → Text → Text → Bool → Request
http_post config path payload send_json_body = record {
  method = lit "POST";
  url = build_url config path;
  payload = payload;
  send_json_body = send_json_body;
}

-- `curl` answers the request; `none`: a Json exception.
module _ {V : Type 0} (json : Json V) (curl : Request → CurlOutcome) where
  unfoldable pub call_with_validation : EkinoxConfig → Request → Option LoggerResult
  call_with_validation config request = elim (validate_rest_target config) [
    | none ↦ perform_http_request json (curl request)
    | some error ↦ some error
  ]

  unfoldable pub data_logger_get : EkinoxConfig → RestApiConfig → Option LoggerResult
  data_logger_get config api = call_with_validation config (http_get config (build_paths api).base)

  unfoldable pub data_logger_start : EkinoxConfig → RestApiConfig → Text → Option LoggerResult
  data_logger_start config api session_name = call_with_validation config (
      http_post config (build_paths api).start (json.write (("sessionName", str session_name) ∷ []))
        true)

  unfoldable pub data_logger_stop : EkinoxConfig → RestApiConfig → Option LoggerResult
  data_logger_stop config api =
      call_with_validation config (http_post config (build_paths api).stop (lit "{}") true)

  -- The older names of the calls.
  unfoldable pub get_datalogger_info : EkinoxConfig → RestApiConfig → Option LoggerResult
  get_datalogger_info = data_logger_get

  unfoldable pub get_datalogger_status : EkinoxConfig → RestApiConfig → Option LoggerResult
  get_datalogger_status = data_logger_get

  unfoldable pub start_datalogger : EkinoxConfig → RestApiConfig → Text → Option LoggerResult
  start_datalogger = data_logger_start

  unfoldable pub stop_datalogger : EkinoxConfig → RestApiConfig → Option LoggerResult
  stop_datalogger = data_logger_stop
