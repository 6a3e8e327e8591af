-- ===== src/Classifier/Titles.antt =====
-- classifier.py: the length of a title.
use Prim.Native.String.count.{nil, cons}
use text.Mathlib.TextLemmas.{length-append}
use Prim.Native.String.{String, [], ◌∷◌}
use loboguara.Common.{ℕ, zero, suc, ◌≤◌, arith, ltb, inl, inr, Bool-cases, str_eq, ◌≡◌, refl}
use loboguara.Common.Text.{◌⧺◌, text_length, prefix, strip}
use loboguara.Classifier.Words.{
  cut_title, named_line, title_from_text, strip_quotes, compact_spaces,
}

text_length-prefix : (n : ℕ) (s : String) → text_length (prefix n s) ≤ n
unfolding prefix
text_length-prefix zero s = omega (arith, nil)
text_length-prefix (suc n) [] = omega (arith, nil)
text_length-prefix (suc n) (c ∷ s) = omega (arith, cons c (prefix n s), text_length-prefix n s)

cut_title-bound : (s : String) → text_length (cut_title s) ≤ 120
unfolding cut_title
cut_title-bound s =
    let cut = text_length-prefix 117 s in
    let joined = length-append (prefix 117 s) "..." in
    elim (Bool-cases (ltb 120 (text_length s))) [
      | inl long ↦ rw long (omega arith)
      | inr short ↦ rw short (ground arith)
    ]

named_line-bound : (s : String) → 1 ≤ text_length (named_line s)
unfolding named_line
named_line-bound [] = omega arith
named_line-bound (c ∷ s) = elim (Bool-cases (str_eq (c ∷ s) "")) [
  | inl empty ↦ rw empty (omega arith)
  | inr full ↦ rw full (omega (arith, cons c s))
]

cut_title-some : (s : String) → 1 ≤ text_length s → 1 ≤ text_length (cut_title s)
unfolding cut_title
cut_title-some s h =
    let joined = length-append (prefix 117 s) "..." in
    elim (Bool-cases (ltb 120 (text_length s))) [
      | inl long ↦ rw long (omega arith)
      | inr short ↦ rw short h
    ]

-- The title that is made of a line is the given head, a colon and a space, and then between one and 120
-- characters.
pub title_from_text-bound :
    (head line : String)
    → (rest : String) × (title_from_text head line ≡ head ⧺ ": " ⧺ rest)
      × (1 ≤ text_length rest)
      × (text_length rest ≤ 120)
unfolding title_from_text
title_from_text-bound head line =
    let named = named_line (strip_quotes (strip (compact_spaces line))) in
    (cut_title named, refl, cut_title-some named (named_line-bound _), cut_title-bound named)
