-- ===== src/Escalation/Accepted.antt =====
-- schemas.py: `_validate_fallback_policy_json_value`, and what the worker makes of a policy that it
-- accepts.
use loboguara.Common.{
  ◌≡◌, refl, ap, ◌∙◌, arith, String, Bool, true, false, ◌&&◌, Option, none, some, is_some, or_else,
  List, str_eq, str_eq_iff, inl, inr, Option-cases, Bool-cases, if◌then◌else◌,
}
use loboguara.Models.{Uuid, Value, Items, Fields, text, uuid, array, object, nil, cons, entry}
use loboguara.World.{Env}
use loboguara.Providers.{truthy, truthy_entry}
use loboguara.Escalation.Policies.{
  usable, read_policy, text_items, group_of, channels_of, raw_group_id, raw_channels,
}

-- `uuid.UUID(str(value))`
unfoldable pub uuid_of_text : Env → (parse_uuid : String → Option Uuid) → Value → Option Uuid
uuid_of_text env parse_uuid (uuid u) = some u
uuid_of_text env parse_uuid (text s) = parse_uuid s
uuid_of_text env parse_uuid v = parse_uuid (env.value_text v)

all_texts : Items → Bool
all_texts nil = true
all_texts (cons (text s) items) = all_texts items
all_texts (cons _ items) = false

-- a list of texts that is not empty
valid_channels : Value → Bool
valid_channels (array (cons v items)) = all_texts (cons v items)
valid_channels _ = false

valid_group : Env → (String → Option Uuid) → Option Value → Bool
valid_group env parse_uuid none = false
valid_group env parse_uuid (some v) = is_some (uuid_of_text env parse_uuid v)

valid_channel_entry : Option Value → Bool
valid_channel_entry none = false
valid_channel_entry (some v) = valid_channels v

-- `_validate_fallback_policy_json_value`: does it accept?
unfoldable pub valid_fallback_policy : Env → (parse_uuid : String → Option Uuid) → Fields → Bool
unfolding valid_group valid_channel_entry valid_channels all_texts
valid_fallback_policy env parse_uuid policy =
    valid_group env parse_uuid (entry "escalation_group_id" policy)
    && valid_channel_entry (entry "channels" policy)

-- the group is given as a text, as JSON gives it
abbrev pub is_text : Option Value → Bool
is_text (some (text s)) = true
is_text (some (uuid u)) = true
is_text _ = false

text_items-all : (items : Items) → all_texts items ≡ true → is_some (text_items items) ≡ true
unfolding all_texts text_items
text_items-all nil h = refl
text_items-all (cons (text s) items) h = elim (Option-cases (text_items items)) [
  | inl none_there ↦ ground (arith, text_items-all items h, ap is_some none_there)
  | inr (names, found) ↦ rw found refl
]
text_items-all (cons v items) h = ground arith

channels_at :
    (v : Option Value)
    → valid_channel_entry v ≡ true
    → is_some (channels_of (elim v [ none ↦ array (cons (text "VOICE") nil) | some c ↦ c ])) ≡ true
unfolding valid_channel_entry valid_channels channels_of
channels_at (some (array (cons c items))) h = text_items-all (cons c items) h
channels_at none h = ground arith
channels_at (some v) h = ground arith

group_at :
    (env : Env) (parse_uuid : String → Option Uuid) (v other : Option Value)
    → parse_uuid "" ≡ none
    → valid_group env parse_uuid v ≡ true
    → is_text v ≡ true
    → is_some (
        group_of parse_uuid
          (or_else (elim v [ none ↦ none | some x ↦ if truthy x then some x else none ]) other))
      ≡ true
unfolding valid_group uuid_of_text group_of truthy
group_at env parse_uuid (some (uuid u)) other blank h t = refl
group_at env parse_uuid (some (text s)) other blank h t = elim (Bool-cases (str_eq s "")) [
  | inl empty ↦
      let missing : is_some (parse_uuid s) ≡ false =
        ap (λ x. is_some (parse_uuid x)) ((str_eq_iff s "").0 empty) ∙ ap is_some blank in
      ground (arith, h, missing)
  | inr full ↦ rw full h
]
group_at env parse_uuid none other blank h t = ground arith
group_at env parse_uuid (some v) other blank h t = ground arith

some_of {ℓ} : {A : Type ℓ} (o : Option A) → is_some o ≡ true → (a : A) × (o ≡ some a)
some_of none h = ground arith
some_of (some a) h = (a, refl)

read-usable :
    (parse_uuid : String → Option Uuid) (policy : Fields) (group : Uuid) (names : List String)
    → group_of parse_uuid (raw_group_id policy) ≡ some group
    → channels_of (raw_channels policy) ≡ some names
    → read_policy parse_uuid (object policy) ≡ usable group names
unfolding read_policy
read-usable parse_uuid policy group names found known = ground (arith, found, known)

-- A policy that the API accepts, with its group given as a text, is one that the worker escalates by: it
-- reads a group and channels from it and reports no invalid field. An empty text is no UUID.
pub accepted_policy_usable :
    (env : Env) (parse_uuid : String → Option Uuid) (policy : Fields)
    → parse_uuid "" ≡ none
    → valid_fallback_policy env parse_uuid policy ≡ true
    → is_text (entry "escalation_group_id" policy) ≡ true
    → (group : Uuid) × (names : List String) × (read_policy parse_uuid (object policy)
        ≡ usable group names)
unfolding valid_fallback_policy truthy_entry
accepted_policy_usable env parse_uuid policy blank valid t =
    let both : (valid_group env parse_uuid (entry "escalation_group_id" policy) ≡ true)
        × (valid_channel_entry (entry "channels" policy) ≡ true) =
      (ground arith, ground arith) in
    let group_there =
      group_at env parse_uuid (entry "escalation_group_id" policy) (entry "escalation_group" policy)
        blank both.0 t in
    let names_there = channels_at (entry "channels" policy) both.1 in
    let (group, found) = some_of (group_of parse_uuid (raw_group_id policy)) group_there in
    let (names, known) = some_of (channels_of (raw_channels policy)) names_there in
    (group, names, read-usable parse_uuid policy group names found known)
