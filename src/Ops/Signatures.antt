-- ===== src/Ops/Signatures.antt =====
-- main.py: the checks of a webhook's signature. The answer is `none`, or the reason of a refusal.
use mathlib.Core.Path.{subst}
use Prim.Native.String.append
use Prim.Native.String.count.{cons}
use loboguara.Common.{
  ◌+◌, ◌≡◌, ◌≢◌, ◌≤◌, ◌↔◌, ◌⊎◌, ◌∙◌, suc, true≢false, refl, ap, sym, inl, inr, Bool-cases,
  str_eq_iff, type_error, arith, String, Bool, true, false, Option, none, some, ◌&&◌, ◌||◌, str_eq,
  ltb, get_or, Result, ok, err, if◌then◌else◌,
}
use loboguara.Common.Int.{ℤ, pos, negsuc, pos_part, neg_part}
use loboguara.Common.Text.{
  ◌⧺◌, strip, starts_with, starts_with_iff, starts_with-append, is_ascii, text_length, drop_text,
}
use loboguara.Models.{Time, text, py_int}
use loboguara.World.{Env}
use loboguara.Classifier.Words.{behind}

abbrev pub is_blank : Option String → Bool
is_blank none = true
is_blank (some s) = str_eq s ""

-- `abs(now - timestamp) > skew`
unfoldable pub is_expired : Time → ℤ → ℤ → Bool
is_expired now timestamp skew =
    ltb (pos_part skew + pos_part timestamp) (neg_part skew + now + neg_part timestamp)
    || ltb (pos_part skew + now + neg_part timestamp) (neg_part skew + pos_part timestamp)

-- the text behind "sha256="
abbrev pub received : String → String → String
received prefix header = get_or (behind (prefix ⧺ "=") (strip header)) (strip header)

-- `hmac.compare_digest` on texts, which raises where one is not ASCII
unfoldable pub compare_digest : String → String → Result Bool
compare_digest a b =
    if is_ascii a && is_ascii b
    then ok (str_eq a b)
    else err (type_error "comparing strings with non-ASCII characters is not supported")

-- the end of both checks
unfoldable pub answer_of : Result Bool → Result (Option String)
answer_of (ok same) = ok (if same then none else some "invalid_signature")
answer_of (err e) = err e

-- the branches of `_verify_voice_webhook_signature` once a secret is set
unfoldable pub check_voice :
    Env
    → Time
    → (body timestamp_header signature_header : String) → Result ℤ
    → Result (Option String)
check_voice env now body timestamp_header signature_header (err e) = ok (some "invalid_timestamp")
check_voice env now body timestamp_header signature_header (ok timestamp) =
    if is_expired now timestamp env.config.voice_webhook_max_skew_seconds
    then ok (some "timestamp_expired")
    else answer_of (
        compare_digest
          (env.hmac_sha256 env.config.voice_webhook_secret (timestamp_header ⧺ "." ⧺ body))
          (received "sha256" signature_header))

-- `_verify_voice_webhook_signature`
unfoldable pub verify_voice_webhook_signature :
    Env
    → Time
    → (body : String) → (timestamp_header signature_header : Option String) → Result (Option String)
unfolding check_voice
verify_voice_webhook_signature env now body timestamp_header signature_header =
    if str_eq env.config.voice_webhook_secret ""
    then ok none
    else if is_blank timestamp_header
    then ok (some "missing_timestamp")
    else if is_blank signature_header
    then ok (some "missing_signature")
    else check_voice env now body (get_or timestamp_header "") (get_or signature_header "")
        (py_int (text (get_or timestamp_header "")))

-- `_verify_json_webhook_signature`
unfoldable pub verify_json_webhook_signature :
    Env
    → (body : String) → (signature_header secret header_prefix : Option String)
    → Result (Option String)
verify_json_webhook_signature env body signature_header secret header_prefix =
    if is_blank secret
    then ok none
    else if is_blank signature_header
    then ok (some "missing_signature")
    else (let header = get_or signature_header "" in
        let digest =
          if is_blank header_prefix
          then strip header
          else received (get_or header_prefix "") header in
        answer_of (compare_digest (env.hmac_sha256 (get_or secret "") body) digest))

-- A time is as far from the clock as the skew at most, before it or behind it.
abbrev pub IsWithin : Time → ℤ → ℤ → Type 0
IsWithin now (pos t) (pos skew) = (now ≤ t + skew) × (t ≤ now + skew)
IsWithin now (negsuc t) (pos skew) = now + suc t ≤ skew
IsWithin now (pos t) (negsuc k) = ⊥
IsWithin now (negsuc t) (negsuc k) = ⊥

-- A header holds a digest, with or without the prefix.
abbrev pub IsSigned : String → String → Type 0
IsSigned digest header =
    (strip header ≡ "sha256=" ⧺ digest)
    ⊎ ((strip header ≡ digest) × (starts_with digest "sha256=" ≡ false))

is_expired-IsWithin :
    (now : Time) (t skew : ℤ) → (is_expired now t skew ≡ false) ↔ IsWithin now t skew
unfolding is_expired
is_expired-IsWithin now (pos t) (pos skew) = ground arith
is_expired-IsWithin now (negsuc t) (pos skew) = ground arith
is_expired-IsWithin now (pos t) (negsuc skew) = ground arith
is_expired-IsWithin now (negsuc t) (negsuc skew) = ground arith

drop_text-append : (t r : String) → drop_text (text_length t) (t ⧺ r) ≡ r
unfolding drop_text
drop_text-append String.[] r = append.nil r
drop_text-append (String.◌∷◌ c t) r =
    ap (λ n. drop_text n (String.◌∷◌ c t ⧺ r)) (cons c t)
    ∙ ap (drop_text (suc (text_length t))) (append.cons c t r)
    ∙ drop_text-append t r

received-prefixed : (h r : String) → strip h ≡ "sha256=" ⧺ r → received "sha256" h ≡ r
unfolding behind
received-prefixed h r p = rw (p, starts_with-append "sha256=" r) (drop_text-append "sha256=" r)

received-bare :
    (h : String) → starts_with (strip h) "sha256=" ≡ false → received "sha256" h ≡ strip h
unfolding behind
received-bare h bare = rw bare refl

received-IsSigned : (digest h : String) → (digest ≡ received "sha256" h) ↔ IsSigned digest h
received-IsSigned digest h = elim (Bool-cases (starts_with (strip h) "sha256=")) [
  | inl prefixed ↦
      let (r, p) = (starts_with_iff (strip h) "sha256=").0 prefixed in
      let received_r = received-prefixed h r (sym p) in
      (
        (λ same. inl (sym p ∙ ap (λ d. "sha256=" ⧺ d) (sym (same ∙ received_r)))),
        (λ signed. elim signed [
          | inl q ↦ sym (received-prefixed h digest q)
          | inr (q, bare) ↦
              elim (true≢false (sym prefixed ∙ ap (λ d. starts_with d "sha256=") q ∙ bare)) [ ]
        ]),
      )
  | inr bare ↦ (
    (λ same.
        let q = same ∙ received-bare h bare in
        inr (sym q, ap (λ d. starts_with d "sha256=") q ∙ bare)),
    (λ signed. elim signed [
      | inl q ↦
          elim (true≢false (
            sym (starts_with-append "sha256=" digest)
            ∙ ap (λ d. starts_with d "sha256=") (sym q)
            ∙ bare)) [ ]
      | inr (q, unprefixed) ↦ sym (received-bare h bare ∙ q)
    ]),
  )
]

compare_digest-same :
    (a b : String) → is_ascii a ≡ true → (answer_of (compare_digest a b) ≡ ok none) ↔ (a ≡ b)
unfolding compare_digest answer_of
compare_digest-same a b plain = (
  (λ h. elim (Bool-cases (is_ascii b)) [
    | inl both ↦ (str_eq_iff a b).0 (ground arith)
    | inr other ↦ elim (true≢false (ground arith)) [ ]
  ]),
  (λ same.
      let other : is_ascii b ≡ true = ap is_ascii (sym same) ∙ plain in
      let equal = (str_eq_iff a b).1 same in ground arith),
)

check_voice-accepts :
    (env : Env) (now : Time) (body timestamp_header signature_header : String) (read : Result ℤ)
    → let digest =
        env.hmac_sha256 env.config.voice_webhook_secret (timestamp_header ⧺ "." ⧺ body) in
      is_ascii digest ≡ true
      → (check_voice env now body timestamp_header signature_header read ≡ ok none) ↔ (
          (t : ℤ) × (read ≡ ok t)
          × IsWithin now t env.config.voice_webhook_max_skew_seconds
          × IsSigned digest signature_header)
unfolding check_voice
check_voice-accepts env now body timestamp_header signature_header (err e) plain =
    (λ h. ground arith, λ h. ground arith)
check_voice-accepts env now body timestamp_header signature_header (ok z) plain =
    let digest = env.hmac_sha256 env.config.voice_webhook_secret (timestamp_header ⧺ "." ⧺ body) in
    let skew = env.config.voice_webhook_max_skew_seconds in
    let same = compare_digest-same digest (received "sha256" signature_header) plain in
    let signed = received-IsSigned digest signature_header in
    let within = is_expired-IsWithin now z skew in
    (
      (λ h. elim (Bool-cases (is_expired now z skew)) [
        | inl late ↦ ground arith
        | inr current ↦ (z, refl, within.0 current, signed.0 (same.0 (ground arith)))
      ]),
      (λ (x, read, near, header).
          let x_is_z : x ≡ z = ground arith in
          rw (within.1 (subst (λ y. IsWithin now y skew) x_is_z near)) (same.1 (signed.1 header))),
    )

ne_blank : (s : String) → (s ≢ "") ↔ (str_eq s "" ≡ false)
ne_blank s = (
  (λ ne. elim (Bool-cases (str_eq s "")) [
    | inl same ↦ elim (ne ((str_eq_iff s "").0 same)) [ ]
    | inr other ↦ other
  ]),
  (λ other same. true≢false (sym ((str_eq_iff s "").1 same) ∙ other)),
)

blank-get_or : (o : Option String) → is_blank o ≡ str_eq (get_or o "") ""
blank-get_or none = refl
blank-get_or (some s) = refl

-- With a secret set, and a digest that is ASCII as every `hexdigest()` is, a callback is accepted just where
-- both headers are there, the first is a time that is within the skew of the clock on either side, and the
-- second is the digest of the first, a dot and the body under the secret, with the prefix `sha256=` or
-- without.
pub voice_signature_exact :
    (env : Env) (now : Time) (body : String) (timestamp_header signature_header : Option String)
    → let digest =
        env.hmac_sha256 env.config.voice_webhook_secret (get_or timestamp_header "" ⧺ "." ⧺ body) in
      env.config.voice_webhook_secret ≢ ""
      → is_ascii digest ≡ true
      → (verify_voice_webhook_signature env now body timestamp_header signature_header ≡ ok none)
        ↔ ((get_or timestamp_header "" ≢ "")
            × (get_or signature_header "" ≢ "")
            × ((t : ℤ) × (py_int (text (get_or timestamp_header "")) ≡ ok t)
                × IsWithin now t env.config.voice_webhook_max_skew_seconds
                × IsSigned digest (get_or signature_header "")))
unfolding verify_voice_webhook_signature
voice_signature_exact env now body timestamp_header signature_header secret plain =
    let secret_there = (ne_blank env.config.voice_webhook_secret).0 secret in
    let time_there = ne_blank (get_or timestamp_header "") in
    let signature_there = ne_blank (get_or signature_header "") in
    let time_blank = blank-get_or timestamp_header in
    let signature_blank = blank-get_or signature_header in
    let checked =
      check_voice-accepts env now body (get_or timestamp_header "") (get_or signature_header "")
        (py_int (text (get_or timestamp_header ""))) plain in
    (
      (λ h. elim (Bool-cases (is_blank timestamp_header)) [
        | inl none_there ↦ elim (true≢false (ground arith)) [ ]
        | inr t ↦ elim (Bool-cases (is_blank signature_header)) [
          | inl none_there ↦ elim (true≢false (ground arith)) [ ]
          | inr g ↦ (
            time_there.1 (sym time_blank ∙ t),
            signature_there.1 (sym signature_blank ∙ g),
            checked.0 (ground arith),
          )
        ]
      ]),
      (λ (time, signature, rest).
          rw
            (
              secret_there,
              time_blank ∙ time_there.0 time,
              signature_blank ∙ signature_there.0 signature,
            )
            (checked.1 rest)),
    )
