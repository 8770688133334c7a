-- ===== src/Wire/Reads.antt =====
-- What one part writes, and another one reads, with jsoncpp or with Qt: the documented behaviour of
-- both.
use ironsoft.Prelude.{◌≡◌, ap, ◌∙◌, if◌then◌else◌, true, some, [], ◌∷◌}
use ironsoft.Prelude.Int.{pos, negsuc}
use ironsoft.Text.{Text, lit}
use ironsoft.Config.{Result, ok, err}
use ironsoft.Gui.Client.Parse.{parse_object}
use ironsoft.Json.{parsed, parse_error, Fields, Scalar, str, bool, int, negative}
use ironsoft.Gui.Json.{QJson}
use ironsoft.Backend.Json.{CheckedJson}

module _ {V : Type 0} (json : QJson V) where
  open json use {from_json, is_object, value, contains, string_of, bool_of, int64_of}

  abbrev ReadsScalar : V → Scalar → Type 0
  ReadsScalar v (str text) = string_of v ≡ some text
  ReadsScalar v (bool b) = bool_of v ≡ some b
  ReadsScalar v (int n) = int64_of v ≡ some (pos n)
  ReadsScalar v (negative n) = int64_of v ≡ some (negsuc n)

  -- Each member that was written is there, and reads as what was written.
  abbrev pub Reads : V → Fields → Type 0
  Reads obj [] = Unit
  Reads obj ((name, content) ∷ rest) =
      (contains obj name ≡ true) × ReadsScalar (value obj name) content × Reads obj rest

  -- The checks in front of every reader of the desktop client.
  pub parse_object-parsed :
      (payload : Text) (obj : V)
      → from_json payload ≡ parsed obj
      → is_object obj ≡ true
      → parse_object json payload ≡ ok obj
  unfolding parse_object
  parse_object-parsed payload obj parses object =
      ap
        (λ r. elim r as (λ x. Result V) [
          | parse_error e ↦ err e
          | parsed root ↦ if is_object root then ok root else err (lit "root is not an object")
        ])
        parses
      ∙ ap (λ b. if b then ok obj else err (lit "root is not an object")) object

-- The backend reads a command with this type and this id: both are texts.
pub record IsCall {W : Type 0} (json : CheckedJson W) (payload type id : Text) : Type 0 where
  pub root : W
  pub type_value : W
  pub id_value : W
  pub parses : json.parse payload ≡ parsed root
  pub has_type : json.find root "type" ≡ some (some type_value)
  pub type_is : json.as_string type_value ≡ some type
  pub has_id : json.find root "id" ≡ some (some id_value)
  pub id_is : json.as_string id_value ≡ some id
