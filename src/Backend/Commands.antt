-- ===== src/Backend/Commands.antt =====
-- The command handler of the backend (backend/src/main.cpp), and the acknowledgement of a command
-- (backend/src/mqtt_client.cpp).
use ironsoft.Prelude.{Bool, true, false, if◌then◌else◌, Option, none, some, [], ◌∷◌}
use ironsoft.Text.{Text, lit, text_eq}
use ironsoft.Json.{Fields, str, bool, Parsed, parsed, parse_error}
use ironsoft.Backend.Json.{CheckedJson, ◌>>=◌}

pub record CmdHandlerResult : Type 0 where
  pub is_ok : Bool
  pub message : Text
  pub error : Text

unfoldable pub ack_fields_of : Text → CmdHandlerResult → Fields
ack_fields_of cmd_id res =
    ("id", str cmd_id)
    ∷ ("ok", bool res.is_ok)
    ∷ (if res.is_ok then ("message", str res.message) else ("error", str res.error))
    ∷ []

abbrev pub pong : CmdHandlerResult
pong = record { is_ok = true; message = lit "pong"; error = [] }

abbrev pub refusal : Text → CmdHandlerResult
refusal error = record { is_ok = false; message = []; error = error }

module _ {V : Type 0} (json : CheckedJson V) where
  open json use {parse, find, as_string}

  -- `root.get("type", "").asString()`
  abbrev type_text : Option V → Option Text
  type_text none = some []
  type_text (some v) = as_string v

  abbrev result_of_type : Text → CmdHandlerResult
  result_of_type type = if text_eq type (lit "ping") then pong else refusal (lit "UNKNOWN_CMD")

  abbrev result_of : Parsed V → Option CmdHandlerResult
  result_of (parse_error e) = some (refusal (lit "BAD_JSON"))
  result_of (parsed root) = (find root "type" >>= type_text) >>= λ type. some (result_of_type type)

  -- `none`: it throws.
  unfoldable pub handle_cmd_ping_only : Text → Option CmdHandlerResult
  handle_cmd_ping_only cmd_json = result_of (parse cmd_json)

  abbrev or_empty : Option Text → Text
  or_empty none = []
  or_empty (some text) = text

  abbrev id_text : Option V → Option Text
  id_text none = some []
  id_text (some v) = as_string v

  abbrev id_of : Parsed V → Text
  id_of (parse_error e) = []
  id_of (parsed root) = or_empty (find root "id" >>= id_text)

  -- What is thrown is caught, and the id stays empty.
  unfoldable pub best_effort_id : Text → Text
  best_effort_id payload = id_of (parse payload)
