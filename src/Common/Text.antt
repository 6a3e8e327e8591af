-- ===== src/Common/Text.antt =====
-- Python's operations on `str`, on ASCII text: `upper`, `lower`, `strip` and `in`.
use Prim.Native.Nat.{ℕ, zero, suc, ◌+◌, ◌-◌, ◌*◌}
use Prim.Native.Char.{Char, code}
use Prim.Native.String
use Prim.Native.String.{String, [], ◌∷◌}
use mathlib.Core.Bool.{Bool, true, false, ◌||◌, ◌&&◌}
use mathlib.Core.Option.{Option, none, some}
use text.Mathlib.Text.{find?, starts_with as text_starts_with}
pub use text.Mathlib.TextEquality.{starts_with_iff}
pub use text.Mathlib.TextPositions.{starts_with-append}
use loboguara.Common.Int.{ℤ, pos, negsuc, scale}
use loboguara.Common.Tests.{ltb, leb, is_some, ◌==◌, if◌then◌else◌}

infixr 65 ◌⧺◌
abbrev pub ◌⧺◌ : String → String → String
s ⧺ t = String.◌++◌ s t

-- the member of the second alphabet at the place that the character has in the first
translate : String → String → Char → Char
translate [] _ c = c
translate (_ ∷ _) [] c = c
translate (a ∷ from) (b ∷ to) c = if code a == code c then b else translate from to c

unfoldable pub lower : String → String
unfolding translate
lower [] = []
lower (c ∷ s) = translate "ABCDEFGHIJKLMNOPQRSTUVWXYZ" "abcdefghijklmnopqrstuvwxyz" c ∷ lower s

unfoldable pub upper : String → String
unfolding translate
upper [] = []
upper (c ∷ s) = translate "abcdefghijklmnopqrstuvwxyz" "ABCDEFGHIJKLMNOPQRSTUVWXYZ" c ∷ upper s

unfoldable pub is_space : Char → Bool
is_space c =
    code c == 32 || (leb 9 (code c) && leb (code c) 13) || (leb 28 (code c) && leb (code c) 31)

unfoldable pub lstrip : String → String
unfolding is_space
lstrip [] = []
lstrip (c ∷ s) = if is_space c then lstrip s else c ∷ s

rstrip : String → String
unfolding is_space
rstrip [] = []
rstrip (c ∷ s) = elim (rstrip s) [ [] ↦ if is_space c then [] else c ∷ [] | d ∷ r ↦ c ∷ d ∷ r ]

unfoldable pub strip : String → String
unfolding rstrip
strip s = rstrip (lstrip s)

-- `sub in s`
abbrev pub contains : String → String → Bool
contains sub s = is_some (find? s sub)

abbrev pub starts_with : String → String → Bool
starts_with s prefix = text_starts_with s prefix

-- `s[:n]`
unfoldable pub prefix : ℕ → String → String
prefix zero s = []
prefix (suc n) [] = []
prefix (suc n) (c ∷ s) = c ∷ prefix n s

abbrev is_decimal : Char → Bool
is_decimal c = leb 48 (code c) && leb (code c) 57

-- the digits of a number with single underscores between them; `after` is whether a digit came last
digits : Bool → ℕ → String → Option ℕ
digits after n [] = if after then some n else none
digits after n (c ∷ s) =
    let number = digits true (n * 10 + (code c - 48)) s in
    let gap = digits false n s in
    if is_decimal c then number else if after && code c == 95 then gap else none

-- `int(text)` of an unsigned decimal text; `none` is ValueError
unfoldable pub parse_nat : String → Option ℕ
unfolding digits
parse_nat s = digits false 0 s

-- `len(s)`
abbrev pub text_length : String → ℕ
text_length s = String.count s

-- `s[n:]`
unfoldable pub drop_text : ℕ → String → String
drop_text zero s = s
drop_text (suc n) [] = []
drop_text (suc n) (c ∷ s) = drop_text n s

-- `int(text)` of a decimal text with a sign or none
signed : Char → Option ℕ → Option ℕ → Option ℤ
signed c rest whole =
    if code c == 45
    then elim rest [ none ↦ none | some n ↦ some (scale (negsuc 0) n) ]
    else if code c == 43
    then elim rest [ none ↦ none | some n ↦ some (pos n) ]
    else elim whole [ none ↦ none | some n ↦ some (pos n) ]

unfoldable pub parse_int : String → Option ℤ
unfolding signed
parse_int [] = none
parse_int (c ∷ s) = signed c (parse_nat s) (parse_nat (c ∷ s))

-- whether a text has characters of ASCII alone
unfoldable pub is_ascii : String → Bool
is_ascii [] = true
is_ascii (c ∷ s) = ltb (code c) 128 && is_ascii s

-- whether a text has an underscore
unfoldable pub has_underscore : String → Bool
has_underscore [] = false
has_underscore (c ∷ s) = code c == 95 || has_underscore s
