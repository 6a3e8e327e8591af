-- ===== src/Directory/Contacts.antt =====
-- main.py: `/contacts`. A path parameter comes as `uuid.UUID` reads it: `none` is its ValueError.
use loboguara.Common.{
  ℕ, String, Bool, not, Option, is_some, or_else, get_or, List, [], ◌∷◌, ◌++◌, ◌||◌, any, keep,
  ◌==◌, http_exception, if◌then◌else◌,
}
use loboguara.Models.{Uuid, Contact, Notification, GroupMember}
use loboguara.World.{World, Env}
use loboguara.Action.{Action, pure, raise, gets, modify, or_raise, when, ◌>>=◌, ◌>>◌}
use loboguara.Database.{contact_by_id, uuid4}
use loboguara.Database.Tables.{update_key}
use loboguara.Directory.Paging.{validate_ops_limit, sort_by, name_before, Page, page_of}

-- schemas.py: `ContactCreate`
pub record ContactCreate : Type 0 where
  pub name : String
  pub email : Option String
  pub phone : Option String
  pub whatsapp : Option String
  pub telegram_id : Option String

-- schemas.py: `ContactUpdate`
pub record ContactUpdate : Type 0 where
  pub name : Option String
  pub email : Option String
  pub phone : Option String
  pub whatsapp : Option String
  pub telegram_id : Option String

abbrev pub set_contacts : World → List Contact → World
set_contacts w rows = record w { db = record w.db { contacts = rows } }

-- `_load_contact_or_404`
unfoldable pub load_contact : Option Uuid → Action (Uuid × Contact)
load_contact contact_id = do
  i ← or_raise contact_id (http_exception 400 "Invalid contact id")
  found ← gets (contact_by_id i)
  contact ← or_raise found (http_exception 404 "Contact not found")
  pure (i, contact)

abbrev pub contact_row : Uuid → ContactCreate → Contact
contact_row i c = record {
  id = i;
  name = c.name;
  email = c.email;
  phone = c.phone;
  whatsapp = c.whatsapp;
  telegram_id = c.telegram_id;
}

unfoldable pub add_contact : Contact → Action (Unit {0})
add_contact row = modify λ w. set_contacts w (w.contacts ++ row ∷ [])

-- `create_contact`
unfoldable pub create_contact : ContactCreate → Action Contact
create_contact contact = do
  i ← uuid4
  add_contact (contact_row i contact)
  pure (contact_row i contact)

-- `ORDER BY name ASC, id ASC`
abbrev pub contact_before : Env → Contact → Contact → Bool
contact_before env a b = name_before env (a.name, a.id) (b.name, b.id)

-- `list_contacts`
unfoldable pub list_contacts : Env → (limit offset : ℕ) → Action (Page Contact)
list_contacts env limit offset = do
  validate_ops_limit env limit
  rows ← gets (λ w. w.contacts)
  pure (page_of limit offset (sort_by (contact_before env) rows))

-- `get_contact`
unfoldable pub get_contact : Option Uuid → Action Contact
get_contact contact_id = do loaded ← load_contact contact_id; pure loaded.1

-- the test of `update_data`
abbrev pub has_contact_fields : ContactUpdate → Bool
has_contact_fields u =
    is_some u.name
    || is_some u.email
    || is_some u.phone
    || is_some u.whatsapp
    || is_some u.telegram_id

-- `setattr` of each field that is given
abbrev pub updated_contact : ContactUpdate → Contact → Contact
updated_contact u c = record {
  id = c.id;
  name = get_or u.name c.name;
  email = or_else u.email c.email;
  phone = or_else u.phone c.phone;
  whatsapp = or_else u.whatsapp c.whatsapp;
  telegram_id = or_else u.telegram_id c.telegram_id;
}

unfoldable pub change_contact : Uuid → ContactUpdate → Action (Unit {0})
change_contact i u =
    modify λ w. set_contacts w (update_key (λ (c : Contact). c.id) i (updated_contact u) w.contacts)

-- `update_contact`
unfoldable pub update_contact : Option Uuid → ContactUpdate → Action Contact
update_contact contact_id u = do
  loaded ← load_contact contact_id
  if has_contact_fields u
      then change_contact loaded.0 u >> pure (updated_contact u loaded.1)
      else raise (http_exception 400 "No contact fields provided")

-- the two queries of `_delete_contact_guard`, through `_has_any_rows`
abbrev pub is_notified : Uuid → World → Bool
is_notified i w = any (λ (n : Notification). n.contact_id == i) w.notifications

abbrev pub is_in_a_group : Uuid → World → Bool
is_in_a_group i w = any (λ (m : GroupMember). m.contact_id == i) w.members

-- `_delete_contact_guard`
unfoldable pub delete_contact_guard : Uuid → Action (Unit {0})
delete_contact_guard i = do
  notified ← gets (is_notified i)
  when notified (raise (http_exception 409 "Contact has related notifications"))
  grouped ← gets (is_in_a_group i)
  when grouped (raise (http_exception 409 "Contact has related group members"))

unfoldable pub remove_contact : Uuid → Action (Unit {0})
remove_contact i = modify λ w. set_contacts w (keep (λ (c : Contact). not (c.id == i)) w.contacts)

-- `delete_contact`
unfoldable pub delete_contact : Option Uuid → Action (Unit {0})
delete_contact contact_id = do
  loaded ← load_contact contact_id
  delete_contact_guard loaded.0
  remove_contact loaded.0
