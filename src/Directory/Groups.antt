-- ===== src/Directory/Groups.antt =====
-- main.py: `/groups`. The name of a group is unique (models.py).
use loboguara.Common.{
  ℕ, String, Bool, not, Option, is_some, or_else, get_or, List, [], ◌∷◌, ◌++◌, ◌&&◌, ◌||◌, any,
  keep, ◌==◌, str_eq, http_exception, integrity_error, if◌then◌else◌,
}
use loboguara.Models.{Uuid, Group, Rule, GroupMember}
use loboguara.World.{World, Env}
use loboguara.Action.{Action, pure, raise, gets, modify, or_raise, when, ◌>>=◌, ◌>>◌}
use loboguara.Database.{group_by_id, uuid4}
use loboguara.Database.Tables.{update_key}
use loboguara.Directory.Paging.{validate_ops_limit, sort_by, name_before, Page, page_of}

-- schemas.py: `GroupCreate`
pub record GroupCreate : Type 0 where
  pub name : String
  pub description : Option String

-- schemas.py: `GroupUpdate`
pub record GroupUpdate : Type 0 where
  pub name : Option String
  pub description : Option String

abbrev pub set_groups : World → List Group → World
set_groups w rows = record w { db = record w.db { groups = rows } }

-- `_load_group_or_404`
unfoldable pub load_group : Option Uuid → Action (Uuid × Group)
load_group group_id = do
  i ← or_raise group_id (http_exception 400 "Invalid group id")
  found ← gets (group_by_id i)
  group ← or_raise found (http_exception 404 "Group not found")
  pure (i, group)

-- whether a row other than that of the UUID has the name
abbrev pub is_name_taken : Uuid → String → World → Bool
is_name_taken i name w = any (λ (g : Group). not (g.id == i) && str_eq g.name name) w.groups

abbrev pub group_row : Uuid → GroupCreate → Group
group_row i g = record { id = i; name = g.name; description = g.description }

unfoldable pub add_group : Group → Action (Unit {0})
add_group row = modify λ w. set_groups w (w.groups ++ row ∷ [])

-- `create_group`
unfoldable pub create_group : GroupCreate → Action Group
create_group group = do
  i ← uuid4
  taken ← gets (is_name_taken i group.name)
  when taken (raise integrity_error)
  add_group (group_row i group)
  pure (group_row i group)

-- `list_groups`
unfoldable pub list_groups : Env → (limit offset : ℕ) → Action (Page Group)
list_groups env limit offset = do
  validate_ops_limit env limit
  rows ← gets (λ w. w.groups)
  pure (
      page_of limit offset
        (sort_by (λ (a b : Group). name_before env (a.name, a.id) (b.name, b.id)) rows))

-- `get_group`
unfoldable pub get_group : Option Uuid → Action Group
get_group group_id = do loaded ← load_group group_id; pure loaded.1

-- the test of `update_data`
abbrev pub has_group_fields : GroupUpdate → Bool
has_group_fields u = is_some u.name || is_some u.description

-- `setattr` of each field that is given
abbrev pub updated_group : GroupUpdate → Group → Group
updated_group u g = record {
  id = g.id;
  name = get_or u.name g.name;
  description = or_else u.description g.description;
}

unfoldable pub change_group : Uuid → GroupUpdate → Action (Unit {0})
change_group i u =
    modify λ w. set_groups w (update_key (λ (g : Group). g.id) i (updated_group u) w.groups)

-- the commit of `update_group`
unfoldable pub commit_group : Uuid → GroupUpdate → Group → Action Group
commit_group i u group = do
  taken ← gets (is_name_taken i (get_or u.name group.name))
  when taken (raise integrity_error)
  change_group i u
  pure (updated_group u group)

-- `update_group`
unfoldable pub update_group : Option Uuid → GroupUpdate → Action Group
update_group group_id u = do
  loaded ← load_group group_id
  if has_group_fields u
      then commit_group loaded.0 u loaded.1
      else raise (http_exception 400 "No group fields provided")

-- the two queries of `_delete_group_guard`, through `_has_any_rows`
abbrev pub is_recipient : Uuid → World → Bool
is_recipient i w = any (λ (r : Rule). r.recipient_group_id == i) w.rules

abbrev pub has_members : Uuid → World → Bool
has_members i w = any (λ (m : GroupMember). m.group_id == i) w.members

-- `_delete_group_guard`
unfoldable pub delete_group_guard : Uuid → Action (Unit {0})
delete_group_guard i = do
  ruled ← gets (is_recipient i)
  when ruled (raise (http_exception 409 "Group has related rules"))
  peopled ← gets (has_members i)
  when peopled (raise (http_exception 409 "Group has related members"))

unfoldable pub remove_group : Uuid → Action (Unit {0})
remove_group i = modify λ w. set_groups w (keep (λ (g : Group). not (g.id == i)) w.groups)

-- `delete_group`
unfoldable pub delete_group : Option Uuid → Action (Unit {0})
delete_group group_id = do
  loaded ← load_group group_id
  delete_group_guard loaded.0
  remove_group loaded.0
