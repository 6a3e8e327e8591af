-- ===== src/Escalation/Policies.antt =====
-- worker.py: how `_handle_escalation_impl` reads a rule's `fallback_policy_json`.
use loboguara.Common.{String, Option, none, some, List, [], ◌∷◌, or_else}
use loboguara.Models.{
  Uuid, Value, Items, Fields, null, boolean, integer, text, uuid, array, object, nil, cons, entry,
  Mapping,
}
use loboguara.Providers.{truthy_entry}

-- the group and the channels to escalate to, or the field that is wrong, with the diagnostic
pub data FallbackPolicy : Type 0 where
  usable : Uuid → List String → FallbackPolicy
  invalid : String → Mapping → FallbackPolicy

-- `type(value).__name__`
abbrev type_name : Value → String
type_name null = "NoneType"
type_name (boolean _) = "bool"
type_name (integer _) = "int"
type_name (text _) = "str"
type_name (uuid _) = "str"
type_name (array _) = "list"
type_name (object _) = "dict"

abbrev optional_type_name : Option Value → String
optional_type_name none = "NoneType"
optional_type_name (some v) = type_name v

-- the texts of a list; `none` if one of its members is no text
unfoldable pub text_items : Items → Option (List String)
text_items nil = some []
text_items (cons (text s) rest) = elim (text_items rest) [
  | none ↦ none
  | some names ↦ some (s ∷ names)
]
text_items (cons _ rest) = none

-- `raw_group_id`
abbrev pub raw_group_id : Fields → Option Value
raw_group_id policy =
    or_else (truthy_entry "escalation_group_id" policy) (entry "escalation_group" policy)

-- `raw_channels`
abbrev pub raw_channels : Fields → Value
raw_channels policy = elim (entry "channels" policy) [
  | none ↦ array (cons (text "VOICE") nil)
  | some v ↦ v
]

-- `escalation_group_id`; `none` is an invalid field
unfoldable pub group_of : (String → Option Uuid) → Option Value → Option Uuid
group_of parse_uuid (some (uuid u)) = some u
group_of parse_uuid (some (text s)) = parse_uuid s
group_of parse_uuid _ = none

-- `fallback_channels`; `none` is an invalid field
unfoldable pub channels_of : Value → Option (List String)
unfolding text_items
channels_of (array items) = text_items items
channels_of _ = none

abbrev diagnostic : Fields → Mapping
diagnostic policy =
    ("policy_type", text "dict")
    ∷ ("escalation_group_id_type", text (optional_type_name (raw_group_id policy)))
    ∷ ("channels_type", text (type_name (raw_channels policy)))
    ∷ []

-- the check of the policy, up to `invalid_field`
unfoldable pub read_policy : (parse_uuid : String → Option Uuid) → Value → FallbackPolicy
unfolding group_of channels_of
read_policy parse_uuid (object policy) = elim (group_of parse_uuid (raw_group_id policy)) [
  | none ↦ invalid "escalation_group_id" (diagnostic policy)
  | some group ↦ elim (channels_of (raw_channels policy)) [
    | none ↦ invalid "channels" (diagnostic policy)
    | some names ↦ usable group names
  ]
]
read_policy parse_uuid policy = invalid "policy" (("policy_type", text (type_name policy)) ∷ [])
