-- ===== src/Gui/Client/Parse.antt =====
-- The readers of the status payloads (gui/src/mqtt_paho_client.cpp). `now_s` is
-- QDateTime::currentSecsSinceEpoch; the log lines on missing fields are left out.
use ironsoft.Prelude.{ℕ, Bool, false, [], if◌then◌else◌}
use ironsoft.Prelude.Int.{ℤ, pos}
use ironsoft.Text.{Text, lit}
use ironsoft.Json.{parsed, parse_error}
use ironsoft.Config.{Result, ok, err}
use ironsoft.Gui.Json.{QJson, get_or}
use ironsoft.Gui.Status.{BackendStatus, EkinoxStatus}

module _ {V : Type 0} (json : QJson V) where
  open json use {from_json, is_object, value, contains, string_of, bool_of, int64_of}

  -- `session_name` where it stands, else `sessionName`; no text where that is none.
  unfoldable pub session_field : V → Text
  session_field obj = get_or [] (
      string_of
        (if contains obj "session_name" then value obj "session_name" else value obj "sessionName"))

  unfoldable pub ts_field : V → ℕ → ℤ
  ts_field obj now_s = get_or (pos now_s) (int64_of (value obj "ts"))

  -- `toBool()` of the first of the two members that stands.
  abbrev pub recording_field : V → Bool
  recording_field obj =
      if contains obj "recording_active"
      then get_or false (bool_of (value obj "recording_active"))
      else if contains obj "recording"
      then get_or false (bool_of (value obj "recording"))
      else false

  unfoldable pub read_ekinox_status : V → ℕ → EkinoxStatus
  read_ekinox_status obj now_s =
      let state = get_or [] (string_of (value obj "state")) in
      record {
        state = state;
        mode = get_or state (string_of (value obj "mode"));
        link_alive =
            get_or (get_or false (bool_of (value obj "linkAlive")))
              (bool_of (value obj "link_alive"));
        recording_active = recording_field obj;
        session_name = session_field obj;
        last_error = get_or [] (string_of (value obj "last_error"));
        ts = ts_field obj now_s;
      }

  -- A member of another kind is logged as missing, and the field keeps its initial value.
  unfoldable pub read_backend_status : V → ℕ → BackendStatus
  read_backend_status obj now_s = record {
    mode = get_or [] (string_of (value obj "mode"));
    api_ok = get_or false (bool_of (value obj "api_ok"));
    last_error = get_or [] (string_of (value obj "last_error"));
    ts = ts_field obj now_s;
    recording_active = recording_field obj;
    session_name = session_field obj;
  }

  -- The checks in front of both readers.
  unfoldable pub parse_object : Text → Result V
  parse_object payload = elim (from_json payload) [
    | parse_error e ↦ err e
    | parsed root ↦ if is_object root then ok root else err (lit "root is not an object")
  ]

  unfoldable pub parse_status_json : Text → ℕ → Result BackendStatus
  parse_status_json payload now_s = elim (parse_object payload) [
    | err e ↦ err e
    | ok obj ↦ ok (read_backend_status obj now_s)
  ]

  unfoldable pub parse_ekinox_status_json : Text → ℕ → Result EkinoxStatus
  parse_ekinox_status_json payload now_s = elim (parse_object payload) [
    | err e ↦ err e
    | ok obj ↦ ok (read_ekinox_status obj now_s)
  ]
