-- ===== src/Redis.antt =====
-- What the program uses of Redis: keys with an expiry, counters, `SET NX` and lists. A `Slot` is what
-- one key holds; a key whose time has come reads as missing.
use loboguara.Common.{
  ℕ, ◌+◌, ◌-◌, Bool, false, Option, none, some, List, leb, is_some, drop, length, if◌then◌else◌,
}

pub record Cell {ℓ} (A : Type ℓ) : Type ℓ where
  pub value : A
  pub expires : Option ℕ

abbrev pub Slot {ℓ} : Type ℓ → Type ℓ
Slot A = Option (Cell A)

abbrev pub is_past : ℕ → Option ℕ → Bool
is_past now none = false
is_past now (some t) = leb t now

module _ {ℓ} {A : Type ℓ} where
  -- the cell that is still there
  abbrev pub live : ℕ → Slot A → Slot A
  live now none = none
  live now (some c) = if is_past now c.expires then none else some c

  -- GET
  abbrev pub read : ℕ → Slot A → Option A
  read now s = elim (live now s) [ none ↦ none | some c ↦ some c.value ]

  -- EXISTS
  abbrev pub exists : ℕ → Slot A → Bool
  exists now s = is_some (live now s)

  -- EXPIRE
  abbrev pub expire : ℕ → ℕ → Slot A → Slot A
  expire now ttl s = elim (live now s) [
    | none ↦ none
    | some c ↦ some (record { value = c.value; expires = some (now + ttl) })
  ]

  -- SET with EX
  abbrev pub set_ex : ℕ → ℕ → A → Slot A
  set_ex now ttl v = some (record { value = v; expires = some (now + ttl) })

-- INCR: a missing key counts from 0 and has no expiry, a present one keeps its own.
abbrev pub incr : ℕ → Slot ℕ → ℕ × Slot ℕ
incr now s = elim (live now s) [
  | none ↦ (1, some (record { value = 1; expires = none }))
  | some c ↦ (c.value + 1, some (record { value = c.value + 1; expires = c.expires }))
]

-- LTRIM key -limit -1: the last `limit` entries stay
abbrev pub keep_last {ℓ} : {A : Type ℓ} → ℕ → List A → List A
keep_last limit xs = drop (length xs - limit) xs
