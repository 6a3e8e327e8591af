-- ===== src/Database/Tables.antt =====
-- A table as a list of rows with a numeric primary key.
use loboguara.Common.{
  ℕ, ◌≡◌, refl, ◌≢◌, Option, none, some, List, [], ◌∷◌, arith, find?, length, ◌==◌, if◌then◌else◌,
  Bool, true, false, not, ◌++◌, is_some, keep, All, if-both,
}

module _ {R : Type 0} (key : R → ℕ) where
  abbrev pub by_key : ℕ → List R → Option R
  by_key i rows = find? (λ r. key r == i) rows

  unfoldable pub update_key : ℕ → (R → R) → List R → List R
  update_key i f [] = []
  update_key i f (r ∷ rows) = (if key r == i then f r else r) ∷ update_key i f rows

  -- A row that is found has the key it was looked up by.
  pub key_of_found : (i : ℕ) (rows : List R) (r : R) → by_key i rows ≡ some r → key r ≡ i
  key_of_found i [] r h = ground arith
  key_of_found i (s ∷ rows) r h = ground (arith, key_of_found i rows r)

  -- The changed row is found by its key, and every other row as before.
  pub by_key-update_key_self :
      (i : ℕ) (f : R → R) (rows : List R) (r : R)
      → ((r : R) → key (f r) ≡ key r)
      → by_key i rows ≡ some r
      → by_key i (update_key i f rows) ≡ some (f r)
  unfolding update_key
  by_key-update_key_self i f [] r same h = ground arith
  by_key-update_key_self i f (s ∷ rows) r same h =
      ground (arith, same s, by_key-update_key_self i f rows r same)

  pub by_key-update_key_ne :
      (i j : ℕ) (f : R → R) (rows : List R)
      → ((r : R) → key (f r) ≡ key r)
      → i ≢ j
      → by_key j (update_key i f rows) ≡ by_key j rows
  unfolding update_key
  by_key-update_key_ne i j f [] same h = refl
  by_key-update_key_ne i j f (s ∷ rows) same h =
      ground (arith, same s, by_key-update_key_ne i j f rows same h)

  -- Nothing is found where nothing was.
  pub by_key-update_key-none :
      (i j : ℕ) (f : R → R) (rows : List R)
      → ((r : R) → key (f r) ≡ key r)
      → by_key j rows ≡ none
      → by_key j (update_key i f rows) ≡ none
  unfolding update_key
  by_key-update_key-none i j f [] same h = refl
  by_key-update_key-none i j f (s ∷ rows) same h =
      ground (arith, same s, by_key-update_key-none i j f rows same)

  pub length-update_key :
      (i : ℕ) (f : R → R) (rows : List R) → length (update_key i f rows) ≡ length rows
  unfolding update_key
  length-update_key i f [] = refl
  length-update_key i f (s ∷ rows) = ground (arith, length-update_key i f rows)

  -- whether a row has the key: what a foreign key asks
  abbrev pub has_key : ℕ → List R → Bool
  has_key i rows = is_some (by_key i rows)

  pub has_key-snoc :
      (i : ℕ) (rows : List R) (r : R) → has_key i rows ≡ true → has_key i (rows ++ r ∷ []) ≡ true
  has_key-snoc i [] r h = ground arith
  has_key-snoc i (s ∷ rows) r h = ground (arith, has_key-snoc i rows r)

  pub has_key-update_key :
      (i j : ℕ) (f : R → R) (rows : List R)
      → ((r : R) → key (f r) ≡ key r)
      → has_key j (update_key i f rows) ≡ has_key j rows
  unfolding update_key
  has_key-update_key i j f [] same = refl
  has_key-update_key i j f (s ∷ rows) same =
      ground (arith, same s, has_key-update_key i j f rows same)

  pub has_key-keep :
      (i j : ℕ) (rows : List R)
      → (j == i) ≡ false
      → has_key j rows ≡ true
      → has_key j (keep (λ r. not (key r == i)) rows) ≡ true
  has_key-keep i j [] ne h = h
  has_key-keep i j (s ∷ rows) ne h = ground (arith, has_key-keep i j rows ne)

  pub All-update_key {κ} :
      (P : R → Type κ) (i : ℕ) (f : R → R) (rows : List R)
      → ((r : R) → P r → P (f r))
      → All P rows
      → All P (update_key i f rows)
  unfolding update_key
  All-update_key P i f [] k h = tt
  All-update_key P i f (r ∷ rows) k h =
      (if-both P (key r == i) (f r) r (k r h.0) h.0, All-update_key P i f rows k h.1)
