-- ===== src/Tests/Rest.antt =====
-- The configuration, the REST client and the texts, at concrete inputs.
use mathlib.Core.List.{reverse}
use ironsoft.Prelude.{◌≡◌, ◌≢◌, refl, true, [], ◌∷◌, ◌++◌, ◌↔◌, ◌⊎◌, some, All, ◌≤◌, length}
use ironsoft.Prelude.Int.{pos}
use ironsoft.Text.{lit, text_eq, is_empty}
use ironsoft.Text.Sanitize.{
  sanitize_and_clip, Clipped, IsClean, sanitize_and_clip-Clipped, sanitize_and_clip-IsClean,
}
use ironsoft.Types.{recording, try_parse_state, state_to_string}
use ironsoft.Types.RoundTrip.{try_parse_state_iff}
use ironsoft.Config
use ironsoft.Config.{
  EkinoxConfig, Result, ok, load_ekinox_config, load_json_file, load_mqtt, load_net, load_timeouts,
  load_rest_api, validate_port,
}
use ironsoft.Config.Valid.{IsValid, load_ekinox_config-IsValid}
use ironsoft.Rest.Enrich.{
  LoggerResult, empty_result, enrich_object, enrich_from_json, read_status, read_mode, read_session,
  read_write_speed, read_state_name, fill_message, assign_recording, finish,
}
use ironsoft.Rest.Http.{responded, perform_http_request, make_preview, response_result}
use ironsoft.Rest.Path.{drop_slashes, join_paths}
use ironsoft.Rest.Slashes.{NoSlashInFront, OnlySlashes, base_of, join_paths-cases}
use ironsoft.Rest.Reports.{enrich_object-reported, flag, reported, speed}
use ironsoft.Rest.Outcome.{Judged, perform_http_request-Judged}
use ironsoft.Tests.Data.{document_json, config_document, loaded_config, recording_document}

config_loads :
    load_ekinox_config (document_json config_document) (λ path. some (lit "{}")) (lit "ekinox.json")
    ≡ ok loaded_config
unfolding load_ekinox_config load_json_file load_mqtt load_net load_timeouts load_rest_api
    validate_port lit text_eq is_empty Config.◌>>=◌
config_loads = refl

pub loaded_IsValid : IsValid loaded_config
loaded_IsValid =
    load_ekinox_config-IsValid (document_json config_document) (λ path. some (lit "{}"))
      (lit "ekinox.json") loaded_config config_loads

load_ekinox_config-IsValid_example : IsValid loaded_config
load_ekinox_config-IsValid_example =
    load_ekinox_config-IsValid (document_json config_document) (λ path. some (lit "{}"))
      (lit "ekinox.json") loaded_config config_loads

sanitize_and_clip-Clipped_example : Clipped 4 [] (lit "a\"bc") (sanitize_and_clip (lit "a\"bc") 4)
sanitize_and_clip-Clipped_example = sanitize_and_clip-Clipped (lit "a\"bc") 4

sanitize_and_clip-IsClean_example :
    All IsClean (sanitize_and_clip (1 ∷ 200 ∷ lit "a\"bc") 4)
    × (length (sanitize_and_clip (1 ∷ 200 ∷ lit "a\"bc") 4) ≤ 4)
sanitize_and_clip-IsClean_example = sanitize_and_clip-IsClean (1 ∷ 200 ∷ lit "a\"bc") 4

try_parse_state_iff_example :
    (try_parse_state (lit "RECORDING") ≡ (recording, true))
    ↔ (lit "RECORDING" ≡ state_to_string recording)
try_parse_state_iff_example = try_parse_state_iff (lit "RECORDING") recording

tail_filled : drop_slashes (lit "//dataLogger/") ≢ []
unfolding drop_slashes lit
tail_filled = λ e. cc

join_paths-cases_example :
    NoSlashInFront (drop_slashes (lit "//dataLogger/"))
    × ((NoSlashInFront (reverse (base_of (lit "api/v1/")))
          × (join_paths (lit "api/v1/") (lit "//dataLogger/")
              ≡ base_of (lit "api/v1/") ++ b'/' ∷ drop_slashes (lit "//dataLogger/")))
        ⊎ (OnlySlashes (lit "api/v1/")
            × (join_paths (lit "api/v1/") (lit "//dataLogger/")
                ≡ b'/' ∷ b'/' ∷ drop_slashes (lit "//dataLogger/"))))
join_paths-cases_example = join_paths-cases (lit "api/v1/") (lit "//dataLogger/") tail_filled

abbrev recorded_result : LoggerResult
recorded_result = record empty_result {
  has_recording_flag = true;
  recording_active = true;
  message = lit "recording";
  status_value = lit "recording";
  has_write_speed = true;
  write_speed = pos 12;
}

recording_enriched :
    enrich_object (document_json recording_document) [] empty_result ≡ some recorded_result
unfolding enrich_object read_status read_mode read_session read_write_speed read_state_name
    fill_message assign_recording finish lit text_eq is_empty
recording_enriched = refl

enrich_object-reported_example :
    flag (document_json recording_document) [] recorded_result
    ≡ reported (document_json recording_document) [] (speed (document_json recording_document) [])
enrich_object-reported_example =
    enrich_object-reported (document_json recording_document) [] empty_result recorded_result refl
      refl recording_enriched

abbrev answered_result : LoggerResult
answered_result = record empty_result {
  ok = true;
  http_code = 200;
  body = lit "{}";
  message = lit "{}";
  has_recording_flag = true;
  recording_active = true;
  status_value = lit "recording";
  has_write_speed = true;
  write_speed = pos 12;
}

request_answered :
    perform_http_request (document_json recording_document) (responded 200 (lit "{}"))
    ≡ some answered_result
unfolding perform_http_request response_result make_preview enrich_from_json enrich_object
    read_status read_mode read_session read_write_speed read_state_name fill_message
    assign_recording finish lit text_eq is_empty
request_answered = refl

perform_http_request-Judged_example : Judged (responded 200 (lit "{}")) answered_result
perform_http_request-Judged_example =
    perform_http_request-Judged (document_json recording_document) (responded 200 (lit "{}"))
      answered_result tt request_answered
