-- ===== src/Classifier/Words.antt =====
-- The regular expressions of classifier.py as functions on ASCII text, and the title that is made of a
-- line.
use Prim.Native.Char.{Char, code}
use Prim.Native.String.{String, [], ◌∷◌}
use loboguara.Common.{
  ℕ, zero, suc, ◌+◌, ◌-◌, ◌*◌, Bool, true, false, not, Option, none, some, is_some, ◌&&◌, ◌||◌, ltb,
  leb, ◌==◌, str_eq, if◌then◌else◌,
}
use loboguara.Common as Common
use loboguara.Common.Text.{
  ◌⧺◌, contains, starts_with, strip, lstrip, is_space, prefix, drop_text, text_length,
}

-- a character of `\d`
is_digit : Char → Bool
is_digit c = leb 48 (code c) && leb (code c) 57

-- a character of `\w`
is_word : Char → Bool
unfolding is_digit
is_word c =
    is_digit c
    || (leb 65 (code c) && leb (code c) 90)
    || (leb 97 (code c) && leb (code c) 122)
    || code c == 95

-- whether `\b` holds behind a word
ends_word : String → Bool
ends_word [] = true
ends_word (c ∷ s) = not (is_word c)

-- one of the words stands here, up to its end
word_here : Common.List String → String → Bool
word_here Common.List.[] s = false
word_here (Common.List.◌∷◌ w words) s =
    (starts_with s w && ends_word (drop_text (text_length w) s)) || word_here words s

-- the search from a place on; `inside` is whether a word goes on there
search_word : Common.List String → Bool → String → Bool
search_word words inside [] = false
search_word words inside (c ∷ s) =
    (not inside && word_here words (c ∷ s)) || search_word words (is_word c) s

-- `re.search(r"\b(w1|w2|...)\b", s)`, for words of letters
unfoldable pub has_word : Common.List String → String → Bool
unfolding search_word word_here ends_word is_word is_digit
has_word words s = search_word words false s

-- `any(token in s for token in tokens)`
abbrev pub has_any : Common.List String → String → Bool
has_any tokens s = Common.any (λ t. contains t s) tokens

-- the digits that the text starts with, as a number with the rest; `none` if there are none
read_digits : Option ℕ → String → Option (ℕ × String)
read_digits none [] = none
read_digits (some n) [] = some (n, [])
read_digits seen (c ∷ s) =
    let n = Common.get_or seen 0 in
    let rest = read_digits (some (n * 10 + (code c - 48))) s in
    if is_digit c then rest else elim seen [ none ↦ none | some m ↦ some (m, c ∷ s) ]

-- `(\d+)`
unfoldable pub number_here : String → Option (ℕ × String)
unfolding read_digits is_digit
number_here s = read_digits none s

-- the first place where the pattern matches
module _ {A : Type 0} where
  unfoldable pub search_text : (String → Option A) → String → Option A
  search_text here [] = here []
  search_text here (c ∷ s) =
      let later = search_text here s in elim (here (c ∷ s)) [ none ↦ later | some a ↦ some a ]

-- the text behind a literal that it starts with
unfoldable pub behind : String → String → Option String
behind literal s = if starts_with s literal then some (drop_text (text_length literal) s) else none

-- whether `(?:\.\d+)?` at the start has a digit other than 0, and the rest
fraction_here : String → Bool × String
fraction_here s = elim (behind "." s) [
  | none ↦ (false, s)
  | some t ↦ elim (number_here t) [ none ↦ (false, s) | some (m, rest) ↦ (not (m == 0), rest) ]
]

-- `\s*ms` and the comparison with 5000
slow_here : ℕ → Bool × String → Option Bool
slow_here n (more, rest) =
    if starts_with (lstrip rest) "ms" then some (ltb 5000 n || (n == 5000 && more)) else none

-- `duration:\s*(\d+(?:\.\d+)?)\s*ms` here: whether the number is over 5000
duration_here : String → Option Bool
duration_here s = elim (behind "duration:" s) [
  | none ↦ none
  | some t ↦ elim (number_here (lstrip t)) [
    | none ↦ none
    | some (n, rest) ↦ slow_here n (fraction_here rest)
  ]
]

-- whether the first duration in the text is over 5000 ms
unfoldable pub slow_duration : String → Bool
unfolding duration_here slow_here fraction_here
slow_duration s = Common.get_or (search_text duration_here s) false

-- `(?:>=|=|:)`
behind_sign : String → Option String
behind_sign s = Common.or_else (behind ">=" s) (Common.or_else (behind "=" s) (behind ":" s))

-- `pull_failures\s*(?:>=|=|:)\s*(\d+)` here
failures_here : String → Option ℕ
failures_here s = elim (behind "pull_failures" s) [
  | none ↦ none
  | some t ↦ elim (behind_sign (lstrip t)) [
    | none ↦ none
    | some u ↦ elim (number_here (lstrip u)) [ none ↦ none | some (n, rest) ↦ some n ]
  ]
]

unfoldable pub pull_failures : String → Option ℕ
unfolding failures_here behind_sign
pull_failures s = search_text failures_here s

-- `(\d+)\s*(?:s|sec|secs|seconds|min|mins|minutes)` here
age_here : String → Option ℕ
age_here s = elim (number_here s) [
  | none ↦ none
  | some (n, rest) ↦
      let unit = lstrip rest in
      if starts_with unit "s" || starts_with unit "min" then some n else none
]

unfoldable pub heartbeat_age : String → Option ℕ
unfolding age_here
heartbeat_age s = search_text age_here s

-- `re.sub(r"\s+", " ", s)`; `gap` is whether the characters before were white space
compact_from : Bool → String → String
compact_from gap [] = []
compact_from gap (c ∷ s) =
    let inside = compact_from true s in
    let outside = c ∷ compact_from false s in
    if is_space c then (if gap then inside else " " ⧺ inside) else outside

unfoldable pub compact_spaces : String → String
unfolding compact_from is_space
compact_spaces s = compact_from false s

-- `s.strip('"')`
lstrip_quotes : String → String
lstrip_quotes [] = []
lstrip_quotes (c ∷ s) = let rest = lstrip_quotes s in if code c == 34 then rest else c ∷ s

rstrip_quotes : String → String
rstrip_quotes [] = []
rstrip_quotes (c ∷ s) = elim (rstrip_quotes s) [
  | [] ↦ if code c == 34 then [] else c ∷ []
  | d ∷ r ↦ c ∷ d ∷ r
]

unfoldable pub strip_quotes : String → String
unfolding lstrip_quotes rstrip_quotes
strip_quotes s = rstrip_quotes (lstrip_quotes s)

-- `compact` behind its default, cut to 120 characters
unfoldable pub cut_title : String → String
cut_title compact = if ltb 120 (text_length compact) then prefix 117 compact ⧺ "..." else compact

-- `if not compact: ...`
unfoldable pub named_line : String → String
named_line compact = if str_eq compact "" then "empty log line" else compact

-- `_title_from_text`
unfoldable pub title_from_text : String → String → String
title_from_text head line =
    head ⧺ ": " ⧺ cut_title (named_line (strip_quotes (strip (compact_spaces line))))
