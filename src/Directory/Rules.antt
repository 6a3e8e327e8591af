-- ===== src/Directory/Rules.antt =====
-- main.py: `/rules`. A rule's group is a foreign key (models.py).
use loboguara.Common.{
  ℕ, String, Bool, true, not, Option, none, some, is_some, or_else, get_or, List, [], ◌∷◌, ◌++◌,
  ◌&&◌, ◌||◌, keep, ◌==◌, http_exception, integrity_error, if◌then◌else◌,
}
use loboguara.Common.Int.{ℤ, leb_ℤ, ltb_ℤ}
use loboguara.Models.{Uuid, Rule, Mapping, Fields, Value, object}
use loboguara.World.{World, Env}
use loboguara.Action.{Action, pure, raise, gets, modify, or_raise, on_option, ◌>>=◌, ◌>>◌}
use loboguara.Database.{rule_by_id, group_by_id, uuid4}
use loboguara.Database.Tables.{update_key}
use loboguara.Engine.{simulate_rule}
use loboguara.Directory.Paging.{validate_ops_limit, sort_by, name_before, Page, page_of}

-- schemas.py: `RuleCreate`, behind its validators
pub record RuleCreate : Type 0 where
  pub rule_name : String
  pub condition_json : Mapping
  pub recipient_group_id : Uuid
  pub channels : List String
  pub active : Bool
  pub priority : ℤ
  pub requires_ack : Bool
  pub ack_deadline : Option ℤ
  pub fallback_policy_json : Option Fields
  pub dedupe_window_seconds : Option ℤ
  pub dedupe_fields_json : Option (List String)
  pub notification_templates_json : Option (List (String × String))
  pub runbook_url : Option String
  pub channel_retry_policy_json : Option Fields

-- schemas.py: `RuleUpdate`, behind its validators
pub record RuleUpdate : Type 0 where
  pub rule_name : Option String
  pub condition_json : Option Mapping
  pub recipient_group_id : Option Uuid
  pub channels : Option (List String)
  pub active : Option Bool
  pub priority : Option ℤ
  pub requires_ack : Option Bool
  pub ack_deadline : Option ℤ
  pub fallback_policy_json : Option Fields
  pub dedupe_window_seconds : Option ℤ
  pub dedupe_fields_json : Option (List String)
  pub notification_templates_json : Option (List (String × String))
  pub runbook_url : Option String
  pub channel_retry_policy_json : Option Fields

abbrev pub policy_value : Option Fields → Option Value
policy_value none = none
policy_value (some fs) = some (object fs)

-- The readers take a missing list of dedupe fields or templates as an empty one.
abbrev pub rule_row : Uuid → RuleCreate → Rule
rule_row i r = record {
  id = i;
  rule_name = r.rule_name;
  condition_json = r.condition_json;
  recipient_group_id = r.recipient_group_id;
  channels = r.channels;
  active = r.active;
  priority = r.priority;
  requires_ack = r.requires_ack;
  ack_deadline = r.ack_deadline;
  fallback_policy_json = policy_value r.fallback_policy_json;
  dedupe_window_seconds = r.dedupe_window_seconds;
  dedupe_fields_json = get_or r.dedupe_fields_json [];
  notification_templates_json = get_or r.notification_templates_json [];
  runbook_url = r.runbook_url;
  channel_retry_policy_json = r.channel_retry_policy_json;
}

abbrev pub set_rules : World → List Rule → World
set_rules w rows = record w { db = record w.db { rules = rows } }

-- the commit of a new rule, with its foreign key
unfoldable pub insert_rule_row : Rule → Action (Unit {0})
insert_rule_row row w =
    (if is_some (group_by_id row.recipient_group_id w)
        then modify (λ v. set_rules v (v.rules ++ row ∷ []))
        else raise integrity_error)
      w

-- `create_rule`
unfoldable pub create_rule : RuleCreate → Action Rule
create_rule rule = do i ← uuid4; insert_rule_row (rule_row i rule); pure (rule_row i rule)

-- `ORDER BY priority ASC, rule_name ASC, id ASC`
unfoldable pub listed_before : Env → Rule → Rule → Bool
listed_before env a b =
    ltb_ℤ a.priority b.priority
    || (leb_ℤ a.priority b.priority && name_before env (a.rule_name, a.id) (b.rule_name, b.id))

-- the filters of `list_rules`
abbrev pub is_listed : Option Bool → Option Uuid → Rule → Bool
is_listed active group r =
    elim active [ none ↦ true | some b ↦ if b then r.active else not r.active ]
    && elim group [ none ↦ true | some g ↦ r.recipient_group_id == g ]

-- `list_rules`
unfoldable pub list_rules :
    Env → Option Bool → Option Uuid → (limit offset : ℕ) → Action (Page Rule)
list_rules env active group limit offset = do
  validate_ops_limit env limit
  rows ← gets (λ w. w.rules)
  pure (page_of limit offset (sort_by (listed_before env) (keep (is_listed active group) rows)))

unfoldable pub load_rule : Option Uuid → Action (Uuid × Rule)
load_rule rule_id = do
  i ← or_raise rule_id (http_exception 400 "Invalid rule id")
  found ← gets (rule_by_id i)
  rule ← or_raise found (http_exception 404 "Rule not found")
  pure (i, rule)

-- the test of `provided`
abbrev pub has_rule_fields : RuleUpdate → Bool
has_rule_fields u =
    is_some u.rule_name
    || is_some u.condition_json
    || is_some u.recipient_group_id
    || is_some u.channels
    || is_some u.active
    || is_some u.priority
    || is_some u.requires_ack
    || is_some u.ack_deadline
    || is_some u.fallback_policy_json
    || is_some u.dedupe_window_seconds
    || is_some u.dedupe_fields_json
    || is_some u.notification_templates_json
    || is_some u.runbook_url
    || is_some u.channel_retry_policy_json

-- `setattr` of each field that is given
abbrev pub updated_rule : RuleUpdate → Rule → Rule
updated_rule u r = record {
  id = r.id;
  rule_name = get_or u.rule_name r.rule_name;
  condition_json = get_or u.condition_json r.condition_json;
  recipient_group_id = get_or u.recipient_group_id r.recipient_group_id;
  channels = get_or u.channels r.channels;
  active = get_or u.active r.active;
  priority = get_or u.priority r.priority;
  requires_ack = get_or u.requires_ack r.requires_ack;
  ack_deadline = or_else u.ack_deadline r.ack_deadline;
  fallback_policy_json = or_else (policy_value u.fallback_policy_json) r.fallback_policy_json;
  dedupe_window_seconds = or_else u.dedupe_window_seconds r.dedupe_window_seconds;
  dedupe_fields_json = get_or u.dedupe_fields_json r.dedupe_fields_json;
  notification_templates_json = get_or u.notification_templates_json r.notification_templates_json;
  runbook_url = or_else u.runbook_url r.runbook_url;
  channel_retry_policy_json = or_else u.channel_retry_policy_json r.channel_retry_policy_json;
}

unfoldable pub change_rule : Uuid → (Rule → Rule) → Action (Unit {0})
change_rule i f = modify λ w. set_rules w (update_key (λ (r : Rule). r.id) i f w.rules)

-- the query for the new group, if one is given
unfoldable pub expect_group : Option Uuid → Action (Unit {0})
expect_group group = on_option group (pure tt) λ g. do
  found ← gets (group_by_id g)
  row ← or_raise found (http_exception 404 "Group not found")
  pure tt

-- the end of `update_rule`
unfoldable pub commit_rule : Uuid → RuleUpdate → Rule → Action Rule
commit_rule i u rule = do
  expect_group u.recipient_group_id
  change_rule i (updated_rule u)
  pure (updated_rule u rule)

-- `update_rule`
unfoldable pub update_rule : Option Uuid → RuleUpdate → Action Rule
update_rule rule_id u = do
  loaded ← load_rule rule_id
  if has_rule_fields u
      then commit_rule loaded.0 u loaded.1
      else raise (http_exception 400 "No rule fields provided")

abbrev pub toggled : Rule → Rule
toggled r = record r { active = not r.active }

-- `toggle_rule`
unfoldable pub toggle_rule : Option Uuid → Action Rule
toggle_rule rule_id = do
  loaded ← load_rule rule_id
  change_rule loaded.0 toggled
  pure (toggled loaded.1)

-- the endpoint `simulate_rule`
unfoldable pub simulate_endpoint : Env → Option Uuid → Fields → Action Bool
simulate_endpoint env rule_id payload = do
  loaded ← load_rule rule_id
  pure (simulate_rule env loaded.1 payload)
