-- ===== src/Directory/Members.antt =====
-- main.py: `/groups/{group_id}/members`. The pair of group and contact is the key of a membership.
use loboguara.Common.{
  Bool, not, Option, is_some, List, [], ◌∷◌, ◌++◌, ◌&&◌, find?, keep, ◌==◌, http_exception,
}
use loboguara.Models.{Uuid, GroupMember}
use loboguara.World.{World}
use loboguara.Action.{Action, pure, gets, modify, or_raise, when, ◌>>=◌, ◌>>◌}
use loboguara.Database.{contact_by_id, members_of_group}
use loboguara.Directory.Groups.{load_group}

abbrev pub set_members : World → List GroupMember → World
set_members w rows = record w { db = record w.db { members = rows } }

abbrev pub is_pair : Uuid → Uuid → GroupMember → Bool
is_pair group contact m = m.group_id == group && m.contact_id == contact

-- the query for a membership
abbrev pub find_member : Uuid → Uuid → World → Option GroupMember
find_member group contact w = find? (is_pair group contact) w.members

abbrev pub member_row : Uuid → Uuid → GroupMember
member_row group contact = record { group_id = group; contact_id = contact }

unfoldable pub insert_member : Uuid → Uuid → Action (Unit {0})
insert_member group contact = modify λ w. set_members w (w.members ++ member_row group contact ∷ [])

-- the query for a contact that has to be there
unfoldable pub expect_contact : Uuid → Action (Unit {0})
expect_contact contact = do
  found ← gets (contact_by_id contact)
  row ← or_raise found (http_exception 404 "Contact not found")
  pure tt

-- `if not existing: ...`
unfoldable pub insert_if_missing : Uuid → Uuid → Action (Unit {0})
insert_if_missing group contact = do
  existing ← gets (find_member group contact)
  when (not (is_some existing)) (insert_member group contact)

-- `add_group_member`
unfoldable pub add_group_member : Option Uuid → Uuid → Action GroupMember
add_group_member group_id contact = do
  loaded ← load_group group_id
  expect_contact contact
  insert_if_missing loaded.0 contact
  pure (member_row loaded.0 contact)

unfoldable pub remove_member : Uuid → Uuid → Action (Unit {0})
remove_member group contact =
    modify λ w. set_members w (keep (λ m. not (is_pair group contact m)) w.members)

-- `membership` and its removal
unfoldable pub remove_if_there : Uuid → Uuid → Action (Unit {0})
remove_if_there group contact = do
  existing ← gets (find_member group contact)
  membership ← or_raise existing (http_exception 404 "Membership not found")
  remove_member group contact

-- `delete_group_member`
unfoldable pub delete_group_member : Option Uuid → Option Uuid → Action (Unit {0})
delete_group_member group_id contact_id = do
  loaded ← load_group group_id
  contact ← or_raise contact_id (http_exception 400 "Invalid contact id")
  expect_contact contact
  remove_if_there loaded.0 contact

-- `list_group_members`
unfoldable pub list_group_members : Option Uuid → Action (List GroupMember)
list_group_members group_id = do loaded ← load_group group_id; gets (members_of_group loaded.0)
