-- ===== src/Json.antt =====
-- What the program uses of jsoncpp: the reader, the type tests and the accessors of Json::Value.
-- jsoncpp is no part of the repository, so all of it is a parameter of the model.
use ironsoft.Prelude.{ℕ, String, Bool, Option, List}
use ironsoft.Prelude.Int.{ℤ}
use ironsoft.Text.{Text}

-- What the program assigns to the members of an object that it sends.
pub data Scalar : Type 0 where
  str : Text → Scalar
  bool : Bool → Scalar
  int : ℕ → Scalar
  -- The number -(n + 1).
  negative : ℕ → Scalar

-- The assignments `root["name"] = value;`, in their order.
abbrev pub Fields : Type 0
Fields = List (String × Scalar)

-- The outcome of CharReader::parse: the root, or the text of the errors.
pub data Parsed (V : Type 0) : Type 0 where
  parsed : V → Parsed V
  parse_error : Text → Parsed V

pub record Json (V : Type 0) : Type 0 where
  pub parse : Text → Parsed V
  pub is_object : V → Bool
  pub is_string : V → Bool
  pub is_bool : V → Bool
  pub is_int64 : V → Bool
  pub is_uint64 : V → Bool
  pub is_numeric : V → Bool
  pub is_null : V → Bool
  pub as_string : V → Text
  pub as_bool : V → Bool
  -- isInt with asInt: `some` of the number exactly when isInt holds.
  pub int_value : V → Option ℤ
  -- asInt of a numeric value; `none`: the value is out of the range of int, and asInt throws.
  pub as_int : V → Option ℤ
  -- operator[]: the null value where the member is missing.
  pub member : V → String → V
  pub is_member : V → String → Bool
  -- writeString of the object with these members, without indentation.
  pub write : Fields → Text
