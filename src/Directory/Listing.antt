-- ===== src/Directory/Listing.antt =====
-- main.py: `list_contacts`, as a client uses it that reads page by page.
use loboguara.Common.{
  ℕ, zero, suc, ◌*◌, ◌≤◌, ◌≡◌, refl, ◌∙◌, ap, Bool, false, List, [], ◌++◌, arith, keep, length,
  take, ok,
}
use loboguara.Common.Int.{ltb_ℤ, pos}
use loboguara.Models.{Contact}
use loboguara.World.{World, Env}
use loboguara.Action.{Action, pure, ◌>>=◌, combinators}
use loboguara.Directory.Paging.{
  validate_ops_limit, sort_by, page_of, page_of_next, take_all, length-keep-sort_by, length-sort_by,
}
use loboguara.Directory.Contacts.{contact_before, list_contacts}

-- the contacts of the first `n` pages, asked for one after the other
unfoldable pub read_pages : Env → (limit n : ℕ) → Action (List Contact)
read_pages env limit zero = pure []
read_pages env limit (suc n) = do
  before ← read_pages env limit n
  page ← list_contacts env limit (n * limit)
  pure (before ++ page.items)

abbrev Allowed : Env → ℕ → Type 0
Allowed env limit = ltb_ℤ env.config.ops_endpoint_max_limit (pos limit) ≡ false

list_contacts-run :
    (env : Env) (limit offset : ℕ) (w : World)
    → ltb_ℤ env.config.ops_endpoint_max_limit (pos limit) ≡ false
    → list_contacts env limit offset w
      ≡ (ok (page_of limit offset (sort_by (contact_before env) w.contacts)), w)
unfolding list_contacts validate_ops_limit combinators
list_contacts-run env limit offset w allowed = rw allowed refl

read_pages-take :
    (env : Env) (limit n : ℕ) (w : World)
    → ltb_ℤ env.config.ops_endpoint_max_limit (pos limit) ≡ false
    → read_pages env limit n w
      ≡ (ok (take (n * limit) (sort_by (contact_before env) w.contacts)), w)
unfolding read_pages combinators
read_pages-take env limit zero w allowed =
    let none_yet : 0 ≡ 0 * limit = omega arith in
    ap (λ k. (ok (take k (sort_by (contact_before env) w.contacts)), w)) none_yet
read_pages-take env limit (suc n) w allowed =
    let here = list_contacts-run env limit (n * limit) w allowed in
    let next = page_of_next limit n (sort_by (contact_before env) w.contacts) in
    rw (read_pages-take env limit n w allowed, here) (ap (λ rows. (ok rows, w)) next)

-- A client that reads enough pages of contacts, with a limit that the settings allow, gets all of them in
-- the order of the list, each row as often as it is in the table: for every test, as many pass it.
pub read_pages_all :
    (env : Env) (limit n : ℕ) (w : World)
    → ltb_ℤ env.config.ops_endpoint_max_limit (pos limit) ≡ false
    → length w.contacts ≤ n * limit
    → (read_pages env limit n w ≡ (ok (sort_by (contact_before env) w.contacts), w))
      × ((p : Contact → Bool)
          → length (keep p (sort_by (contact_before env) w.contacts)) ≡ length (keep p w.contacts))
read_pages_all env limit n w allowed enough = (
  read_pages-take env limit n w allowed
      ∙ ap (λ rows. (ok rows, w))
          (take_all (n * limit) _ (omega (arith, length-sort_by (contact_before env) w.contacts))),
  λ p. length-keep-sort_by (contact_before env) p w.contacts,
)
