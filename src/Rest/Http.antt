-- ===== src/Rest/Http.antt =====
-- `perform_http_request` of services/ekinox/src/ekinox_logger_api.cpp. libcurl is a parameter: it
-- turns a request into an outcome.
use ironsoft.Prelude.{
  ℕ, Bool, true, false, ◌&&◌, ◌++◌, [], Option, some, leb, ltb, if◌then◌else◌, length, take,
}
use ironsoft.Prelude.Int.{pos, negsuc}
use ironsoft.Text.{Text, lit, is_empty, decimal}
use ironsoft.Json.{Json}
use ironsoft.Rest.Enrich.{LoggerResult, empty_result, enrich_from_json}

pub record Request : Type 0 where
  pub method : Text
  pub url : Text
  pub payload : Text
  pub send_json_body : Bool

-- curl_easy_init fails; or curl_easy_perform fails, with its code and curl_easy_strerror of that; or
-- there is a response, with its code and body.
pub data CurlOutcome : Type 0 where
  no_handle : CurlOutcome
  failed : ℕ → Text → CurlOutcome
  responded : ℕ → Text → CurlOutcome

abbrev pub max_logged_body : ℕ
max_logged_body = 300

unfoldable pub make_preview : Text → Text
make_preview body =
    if leb (length body) max_logged_body then body else take max_logged_body body ++ lit "..."

-- The fields that the request sets for a response, before the body is read as JSON.
unfoldable pub response_result : ℕ → Text → LoggerResult
response_result http_code body =
    let message = make_preview body in
    let base = record empty_result { body = body; http_code = http_code; message = message } in
    if leb 200 http_code && ltb http_code 300
    then record base { ok = true; error_code = pos 0; error_string = [] }
    else record base {
      ok = false;
      error_code = pos http_code;
      error_string = if is_empty message then lit "http_" ++ decimal http_code else message;
    }

module _ {V : Type 0} (json : Json V) where
  unfoldable pub perform_http_request : CurlOutcome → Option LoggerResult
  perform_http_request no_handle = some (record empty_result {
    ok = false;
    error_code = negsuc 0;
    error_string = lit "curl_easy_init failed";
  })
  perform_http_request (failed rc strerror) =
      some (record empty_result { ok = false; error_code = pos rc; error_string = strerror })
  perform_http_request (responded http_code body) =
      enrich_from_json json (response_result http_code body)
