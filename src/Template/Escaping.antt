-- ===== src/Template/Escaping.antt =====
-- What Telegram shows for an escaped text is the text.
use Prim.Native.Char.{Char, code}
use loboguara.Common.{
  String, ◌≡◌, refl, ap, false, arith, inl, inr, Bool-cases, ◌==◌, if◌then◌else◌,
}
use loboguara.Template.{escape_telegram_markdown_v2, is_member, escaped_chars, backslash}

-- MarkdownV2 shows the character behind a backslash as it is.
pub unescape : String → String
unescape String.[] = ""
unescape (String.◌∷◌ c String.[]) = String.◌∷◌ c ""
unescape (String.◌∷◌ c (String.◌∷◌ d s)) =
    if code c == b'\\' then String.◌∷◌ d (unescape s) else String.◌∷◌ c (unescape (String.◌∷◌ d s))

unescape_plain :
    (c : Char) (s : String)
    → (code c == b'\\') ≡ false
    → unescape (String.◌∷◌ c s) ≡ String.◌∷◌ c (unescape s)
unfolding unescape
unescape_plain c String.[] h = refl
unescape_plain c (String.◌∷◌ d s) h = rw h

unescape_pair :
    (c : Char) (s : String)
    → unescape (String.◌∷◌ backslash (String.◌∷◌ c s)) ≡ String.◌∷◌ c (unescape s)
unfolding unescape
unescape_pair c s = refl

-- what is escaped includes the backslash
plain_of_kept : (c : Char) → is_member c escaped_chars ≡ false → (code c == b'\\') ≡ false
unfolding is_member
plain_of_kept c h = ground arith

-- Unescaping an escaped text gives the text back.
pub unescape-escape : (s : String) → unescape (escape_telegram_markdown_v2 s) ≡ s
unfolding escape_telegram_markdown_v2
unescape-escape String.[] = unfold unescape in refl
unescape-escape (String.◌∷◌ c s) = elim (Bool-cases (is_member c escaped_chars)) [
  | inl special ↦
      rw (special, unescape_pair c (escape_telegram_markdown_v2 s))
        (ap (String.◌∷◌ c) (unescape-escape s))
  | inr kept ↦
      rw (kept, unescape_plain c (escape_telegram_markdown_v2 s) (plain_of_kept c kept))
        (ap (String.◌∷◌ c) (unescape-escape s))
]

-- The literals hold the characters that the source's do.
escaped_chars_first : escape_telegram_markdown_v2 "a\\b.c" ≡ "a\\\\b\\.c"
unfolding escape_telegram_markdown_v2
escaped_chars_first = refl
