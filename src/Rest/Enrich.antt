-- ===== src/Rest/Enrich.antt =====
-- LoggerResult, and `enrich_from_json` of services/ekinox/src/ekinox_logger_api.cpp.
use ironsoft.Prelude.{
  ℕ, Bool, true, false, ◌&&◌, ◌||◌, not, Option, none, some, List, [], ◌∷◌, if◌then◌else◌, String,
}
use ironsoft.Prelude.Int.{ℤ, pos, ltb_ℤ}
use ironsoft.Text.{Text, lit, text_eq, is_empty}
use ironsoft.Json.{Json, Parsed, parsed, parse_error}

pub record LoggerResult : Type 0 where
  pub ok : Bool
  pub error_code : ℤ
  pub http_code : ℕ
  pub message : Text
  pub error_string : Text
  pub body : Text
  pub has_recording_flag : Bool
  pub recording_active : Bool
  pub session_name : Text
  pub status_value : Text
  pub mode : Text
  pub has_write_speed : Bool
  pub write_speed : ℤ

-- `LoggerResult result{};`
abbrev pub empty_result : LoggerResult
empty_result = record {
  ok = false;
  error_code = pos 0;
  http_code = 0;
  message = [];
  error_string = [];
  body = [];
  has_recording_flag = false;
  recording_active = false;
  session_name = [];
  status_value = [];
  mode = [];
  has_write_speed = false;
  write_speed = pos 0;
}

-- The result that is filled in, with the two local flags.
pub record Reading : Type 0 where
  pub result : LoggerResult
  pub used_heuristic : Bool
  pub recording_via_heuristic : Bool

unfoldable pub fill_message : LoggerResult → LoggerResult
fill_message result =
    if is_empty result.message
    then (if not (is_empty result.status_value)
        then record result { message = result.status_value }
        else if not (is_empty result.mode)
        then record result { message = result.mode }
        else result)
    else result

abbrev pub assign : Option Bool → LoggerResult → LoggerResult
assign none result = result
assign (some b) result = record result { has_recording_flag = true; recording_active = b }

-- `none`: asInt throws.
abbrev pub with_write_speed : Reading → Option ℤ → Option Reading
with_write_speed r none = none
with_write_speed r (some speed) = some (record {
  result = record (r.result) { has_write_speed = true; write_speed = speed };
  used_heuristic = true;
  recording_via_heuristic = ltb_ℤ (pos 0) speed || r.recording_via_heuristic;
})

module _ {V : Type 0} (json : Json V) where
  open json use {
    parse, is_object, is_string, is_bool, is_numeric, as_string, as_bool, as_int, member,
  }

  unfoldable pub read_status : V → LoggerResult → Reading
  read_status root result =
      let status = member root "status" in
      if is_string status
      then record {
        result = record result { status_value = as_string status };
        used_heuristic = true;
        recording_via_heuristic = text_eq (as_string status) (lit "recording");
      }
      else record { result = result; used_heuristic = false; recording_via_heuristic = false }

  unfoldable pub read_mode : V → Reading → Reading
  read_mode root r =
      let mode = member root "mode" in
      if is_string mode
      then record r { result = record (r.result) { mode = as_string mode } }
      else r

  unfoldable pub read_session : V → Reading → Reading
  read_session root r =
      let session = member root "sessionName" in
      if is_string session
      then (let named = record (r.result) { session_name = as_string session } in
          if not (is_empty (as_string session)) && not (text_eq named.status_value (lit "ready"))
          then record { result = named; used_heuristic = true; recording_via_heuristic = true }
          else record r { result = named })
      else r

  unfoldable pub read_write_speed : V → Reading → Option Reading
  read_write_speed root r =
      let write_speed = member root "writeSpeed" in
      if is_numeric write_speed then with_write_speed r (as_int write_speed) else some r

  unfoldable pub read_state_name : V → LoggerResult → LoggerResult
  read_state_name root result =
      let state = member root "state" in
      if is_empty result.status_value && is_string state
      then record result { status_value = as_string state }
      else result

  -- The chain of `assign_bool`: the first member that is a Boolean.
  abbrev pub first_bool : V → List String → Option Bool
  first_bool root [] = none
  first_bool root (name ∷ names) =
      if is_bool (member root name)
      then some (as_bool (member root name))
      else first_bool root names

  unfoldable pub assign_recording : V → Reading → LoggerResult
  assign_recording root r =
      if r.used_heuristic
      then assign (some r.recording_via_heuristic) r.result
      else assign
          (first_bool root ("recording" ∷ "isRecording" ∷ "recording_active" ∷ "active" ∷ []))
          r.result

  unfoldable pub finish : V → Option Reading → Option LoggerResult
  finish root none = none
  finish root (some r) =
      some
        (assign_recording root (record r { result = fill_message (read_state_name root r.result) }))

  unfoldable pub enrich_object : V → LoggerResult → Option LoggerResult
  unfolding finish
  enrich_object root result =
      finish root
        (read_write_speed root (read_session root (read_mode root (read_status root result))))

  abbrev pub enrich_parsed : Parsed V → LoggerResult → Option LoggerResult
  enrich_parsed (parse_error e) result = some result
  enrich_parsed (parsed root) result =
      if is_object root then enrich_object root result else some result

  -- `none`: a Json exception leaves the function.
  unfoldable pub enrich_from_json : LoggerResult → Option LoggerResult
  enrich_from_json result =
      if is_empty result.body then some result else enrich_parsed (parse result.body) result
