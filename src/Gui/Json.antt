-- ===== src/Gui/Json.antt =====
-- What the desktop client uses of Qt's JSON classes: the reader and the accessors of QJsonValue. Qt is
-- no part of the repository, so all of it is a parameter of the model.
use ironsoft.Prelude.{String, Bool, true, false, Option, none, some}
use ironsoft.Prelude.Int.{ℤ}
use ironsoft.Text.{Text}
use ironsoft.Json.{Parsed}

pub record QJson (V : Type 0) : Type 0 where
  -- fromJson: the root of the document, or the text of the error.
  pub from_json : Text → Parsed V
  pub is_object : V → Bool
  -- value: the undefined value where `V` is no object, or has no such member.
  pub value : V → String → V
  pub contains : V → String → Bool
  -- The content, where the value is of the kind.
  pub string_of : V → Option Text
  pub bool_of : V → Option Bool
  -- `some` where toInt does not fall back on its default: an integral number in the range of int.
  pub int_of : V → Option ℤ
  -- A number, cut to a 64-bit integer.
  pub int64_of : V → Option ℤ

-- toString, toBool, toInt with a default.
module _ {A : Type 0} where
  abbrev pub get_or : A → Option A → A
  get_or default none = default
  get_or default (some a) = a

  abbrev pub is_some : Option A → Bool
  is_some none = false
  is_some (some a) = true
