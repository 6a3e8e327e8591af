-- ===== src/Models/Values.antt =====
-- The Python values that JSON columns, task arguments and audit details hold. A UUID stands for its
-- canonical text too, since the program converts between the two without a check.
use loboguara.Common.{
  ℕ, String, Bool, Option, none, some, Result, ok, err, str_eq, if◌then◌else◌, List,
}
use loboguara.Common.{type_error, value_error}
use loboguara.Common.Int.{ℤ, pos}
use loboguara.Common.Text.{strip, parse_int}

mutual
  pub data Value : Type 0 where
    null : Value
    boolean : Bool → Value
    integer : ℤ → Value
    text : String → Value
    uuid : ℕ → Value
    array : Items → Value
    object : Fields → Value

  pub data Items : Type 0 where
    nil : Items
    cons : Value → Items → Items

  pub data Fields : Type 0 where
    end : Fields
    field : String → Value → Fields → Fields

-- a flat mapping with text keys
abbrev pub Mapping : Type 0
Mapping = List (String × Value)

-- `mapping.get(key)` on a JSON object; `none` is a missing key
unfoldable pub entry : String → Fields → Option Value
entry k end = none
entry k (field j v rest) = if str_eq j k then some v else entry k rest

int_of_text : Option ℤ → Result ℤ
int_of_text none = err (value_error "int")
int_of_text (some z) = ok z

-- `int(value)`
unfoldable pub py_int : Value → Result ℤ
unfolding int_of_text
py_int null = err (type_error "int")
py_int (boolean b) = ok (if b then pos 1 else pos 0)
py_int (integer z) = ok z
py_int (text s) = int_of_text (parse_int (strip s))
py_int (uuid u) = err (value_error "int")
py_int (array xs) = err (type_error "int")
py_int (object fs) = err (type_error "int")

abbrev pub optional_text : Option String → Value
optional_text none = null
optional_text (some s) = text s

abbrev pub optional_uuid : Option ℕ → Value
optional_uuid none = null
optional_uuid (some u) = uuid u
