-- ===== src/Directory/Paging.antt =====
-- main.py: the order and the pages of `list_contacts`, `list_groups` and `list_rules`, and
-- `_validate_ops_limit`.
use loboguara.Common.{
  ℕ, zero, suc, ◌+◌, ◌*◌, ◌≤◌, ◌≡◌, refl, sym, ap, Bool, not, List, [], ◌∷◌, ◌++◌, ◌&&◌, ◌||◌,
  arith, take, drop, length, keep, String, ltb, http_exception, if◌then◌else◌,
}
use loboguara.Common.Int.{ltb_ℤ, pos}
use loboguara.Models.{Uuid}
use loboguara.World.{Env}
use loboguara.Action.{Action, pure, raise}

-- `_validate_ops_limit`
unfoldable pub validate_ops_limit : Env → ℕ → Action (Unit {0})
validate_ops_limit env limit =
    if ltb_ℤ env.config.ops_endpoint_max_limit (pos limit)
    then raise (http_exception 400 "limit exceeds maximum")
    else pure tt

module _ {A : Type 0} (before : A → A → Bool) where
  insert_by : A → List A → List A
  insert_by x [] = x ∷ []
  insert_by x (y ∷ ys) = let rest = insert_by x ys in if before y x then y ∷ rest else x ∷ y ∷ ys

  -- `ORDER BY`: equal rows keep their order
  unfoldable pub sort_by : List A → List A
  unfolding insert_by
  sort_by [] = []
  sort_by (x ∷ xs) = insert_by x (sort_by xs)

-- `ORDER BY name ASC, id ASC`
unfoldable pub name_before : Env → String × Uuid → String × Uuid → Bool
name_before env a b = env.text_before a.0 b.0 || (not (env.text_before b.0 a.0) && ltb a.1 b.1)

-- a list response: the number of all rows and the page
pub record Page (A : Type 0) : Type 0 where
  pub total : ℕ
  pub limit : ℕ
  pub offset : ℕ
  pub items : List A

module _ {A : Type 0} where
  -- `rows[offset : offset + limit]`, with the number of all rows
  unfoldable pub page_of : ℕ → ℕ → List A → Page A
  page_of limit offset rows = record {
    total = length rows;
    limit = limit;
    offset = offset;
    items = take limit (drop offset rows);
  }

  take-none : (n : ℕ) → take {A = A} n [] ≡ []
  take-none zero = refl
  take-none (suc n) = refl

  take-drop :
      (a b c : ℕ) (rows : List A) → a + b ≡ c → take a rows ++ take b (drop a rows) ≡ take c rows
  take-drop zero b c rows h = let same : b ≡ c = omega arith in ap (λ k. take k rows) same
  take-drop (suc a) zero c [] h = sym (take-none c)
  take-drop (suc a) (suc b) c [] h = sym (take-none c)
  take-drop (suc a) b zero (x ∷ rows) h = ground arith
  take-drop (suc a) b (suc c) (x ∷ rows) h = rw (take-drop a b c rows (omega arith)) refl

  -- One more page goes on where the pages before it ended.
  pub page_of_next :
      (limit n : ℕ) (rows : List A)
      → take (n * limit) rows ++ (page_of limit (n * limit) rows).items ≡ take (suc n * limit) rows
  unfolding page_of
  page_of_next limit n rows = take-drop (n * limit) limit (suc n * limit) rows (omega arith)

  pub take_all : (n : ℕ) (rows : List A) → length rows ≤ n → take n rows ≡ rows
  take_all zero [] h = refl
  take_all (suc n) [] h = refl
  take_all (suc n) (x ∷ rows) h = rw (take_all n rows (omega arith))
  take_all zero (x ∷ rows) h = elim h [ ]

module _ {A : Type 0} (before : A → A → Bool) (p : A → Bool) where
  length-keep-insert_by :
      (x : A) (rows : List A)
      → length (keep p (insert_by before x rows)) ≡ length (keep p (x ∷ rows))
  unfolding insert_by
  length-keep-insert_by x [] = refl
  length-keep-insert_by x (y ∷ rows) = ground (arith, length-keep-insert_by x rows)

  -- The order of a list takes each row as often as it is there.
  pub length-keep-sort_by :
      (rows : List A) → length (keep p (sort_by before rows)) ≡ length (keep p rows)
  unfolding sort_by
  length-keep-sort_by [] = refl
  length-keep-sort_by (x ∷ rows) =
      let here = length-keep-insert_by x (sort_by before rows) in
      ground (arith, here, length-keep-sort_by rows)

module _ {A : Type 0} (before : A → A → Bool) where
  length-insert_by : (x : A) (rows : List A) → length (insert_by before x rows) ≡ suc (length rows)
  unfolding insert_by
  length-insert_by x [] = refl
  length-insert_by x (y ∷ rows) = ground (arith, length-insert_by x rows)

  pub length-sort_by : (rows : List A) → length (sort_by before rows) ≡ length rows
  unfolding sort_by
  length-sort_by [] = refl
  length-sort_by (x ∷ rows) =
      let here = length-insert_by x (sort_by before rows) in
      omega (arith, here, length-sort_by rows)
