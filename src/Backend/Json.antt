-- ===== src/Backend/Json.antt =====
-- What the backend uses of jsoncpp, where it does not test the types first: accessors that throw.
-- jsoncpp is no part of the repository, so all of it is a parameter of the model.
use ironsoft.Prelude.{String, Bool, Option, none, some}
use ironsoft.Prelude.Int.{ℤ}
use ironsoft.Text.{Text}
use ironsoft.Json.{Parsed}

pub record CheckedJson (V : Type 0) : Type 0 where
  -- parseFromStream
  pub parse : Text → Parsed V
  -- The null value, which operator[] gives for a member that is missing.
  pub null : V
  -- isMember, get and operator[]: `none` where the value is neither an object nor null, and the call
  -- throws; `some none` where there is no such member.
  pub find : V → String → Option (Option V)
  -- asString, asInt and asBool: `none` where the value cannot be converted, and the call throws.
  pub as_string : V → Option Text
  pub as_int : V → Option ℤ
  pub as_bool : V → Option Bool

-- An exception ends the function that it is thrown in.
module _ {A B : Type 0} where
  infixl 5 ◌>>=◌
  abbrev pub ◌>>=◌ : Option A → (A → Option B) → Option B
  ◌>>=◌ none f = none
  ◌>>=◌ (some a) f = f a

module _ {V : Type 0} (json : CheckedJson V) where
  open json use {null, find}

  abbrev pub or_null : Option V → V
  or_null none = null
  or_null (some v) = v

  -- `value[name]`
  unfoldable pub at : V → String → Option V
  at value name = find value name >>= λ found. some (or_null found)
