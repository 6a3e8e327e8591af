-- ===== src/Common/Exceptions.antt =====
-- Python exceptions as values.
use Prim.Native.Nat.{ℕ}
use Prim.Native.String.{String}

-- The exceptions that the program raises or that a call of it may meet.
pub data Exception : Type 0 where
  lookup_error runtime_error value_error type_error key_error url_error attribute_error :
      String → Exception
  http_error http_exception : ℕ → String → Exception
  json_error integrity_error : Exception

pub data Result {ℓ} (A : Type ℓ) : Type ℓ where
  ok : A → Result A
  err : Exception → Result A
