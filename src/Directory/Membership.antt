-- ===== src/Directory/Membership.antt =====
-- main.py: `add_group_member` and `delete_group_member`, beside a relation between groups and contacts.
use mathlib.Core.Path.{fun_ext}
use loboguara.Common.{
  ◌≡◌, refl, sym, ap, ◌∙◌, Bool, true, false, not, Option, some, is_some, List, [], ◌∷◌, ◌++◌, ◌&&◌,
  ◌||◌, arith, any, keep, All, All-weaken, find?, inl, inr, Option-cases, ◌==◌,
}
use loboguara.Models.{Uuid, GroupMember, Group, Contact}
use loboguara.World.{World, Db}
use loboguara.Action.Keeps.{Keeps, Keeps-modify, keeps_rules}
use loboguara.Frame.{InDb}
use loboguara.Database.Tables.{by_key}
use loboguara.Action.{combinators}
use loboguara.Database.{contact_by_id, group_by_id}
use loboguara.Directory.Groups.{load_group}
use loboguara.Directory.Members.{
  add_group_member, delete_group_member, expect_contact, insert_if_missing, insert_member,
  remove_if_there, remove_member, find_member, member_row, is_pair,
}

-- the abstract view: which contact is in which group
abbrev pub Relation : Type 0
Relation = Uuid → Uuid → Bool

unfoldable pub relation : World → Relation
relation w group contact = any (is_pair group contact) w.members

abbrev same_pair : Uuid → Uuid → Relation
same_pair group contact g c = group == g && contact == c

-- a call that adds or deletes a membership
pub data MemberCall : Type 0 where
  adds deletes : Uuid → Uuid → MemberCall

-- what the call means for the relation
abbrev pub meaning : MemberCall → Relation → Relation
meaning (adds group contact) r g c = same_pair group contact g c || r g c
meaning (deletes group contact) r g c = not (same_pair group contact g c) && r g c

-- what the call does to the world, whether it returns or raises
unfoldable pub run_call : MemberCall → World → World
run_call (adds group contact) w = (add_group_member (some group) contact w).1
run_call (deletes group contact) w = (delete_group_member (some group) (some contact) w).1

any-snoc :
    (p : GroupMember → Bool) (rows : List GroupMember) (m : GroupMember)
    → any p (rows ++ m ∷ []) ≡ (p m || any p rows)
any-snoc p [] m = ground arith
any-snoc p (n ∷ rows) m = ground (arith, any-snoc p rows m)

any-keep :
    (group contact g c : Uuid) (rows : List GroupMember)
    → any (is_pair g c) (keep (λ m. not (is_pair group contact m)) rows)
      ≡ (not (same_pair group contact g c) && any (is_pair g c) rows)
any-keep group contact g c [] = ground arith
any-keep group contact g c (m ∷ rows) = ground (arith, any-keep group contact g c rows)

abbrev pub group_of_call : MemberCall → Uuid
group_of_call (adds group _) = group
group_of_call (deletes group _) = group

abbrev pub contact_of_call : MemberCall → Uuid
contact_of_call (adds _ contact) = contact
contact_of_call (deletes _ contact) = contact

-- the group and the contact of the call are there
abbrev pub KnownCall : World → MemberCall → Type 0
KnownCall w call =
    (is_some (group_by_id (group_of_call call) w) ≡ true)
    × (is_some (contact_by_id (contact_of_call call) w) ≡ true)

abbrev pub run_calls : List MemberCall → World → World
run_calls [] w = w
run_calls (call ∷ calls) w = run_calls calls (run_call call w)

abbrev pub meanings : List MemberCall → Relation → Relation
meanings [] r = r
meanings (call ∷ calls) r = meanings calls (meaning call r)

find-any :
    (group contact : Uuid) (rows : List GroupMember)
    → is_some (find? (is_pair group contact) rows) ≡ any (is_pair group contact) rows
find-any group contact [] = refl
find-any group contact (m ∷ rows) = ground (arith, find-any group contact rows)

absent :
    (group contact g c : Uuid) (rows : List GroupMember)
    → any (is_pair group contact) rows ≡ false
    → any (is_pair g c) rows ≡ (not (same_pair group contact g c) && any (is_pair g c) rows)
absent group contact g c [] h = ground arith
absent group contact g c (m ∷ rows) h = ground (arith, absent group contact g c rows)

present :
    (group contact g c : Uuid) (rows : List GroupMember)
    → any (is_pair group contact) rows ≡ true
    → any (is_pair g c) rows ≡ (same_pair group contact g c || any (is_pair g c) rows)
present group contact g c [] h = ground arith
present group contact g c (m ∷ rows) h = ground (arith, present group contact g c rows)

-- The branches of a call whose group and contact are there.
add_member-run :
    (group contact : Uuid) (w : World)
    → KnownCall w (adds group contact)
    → (g c : Uuid)
    → relation (run_call (adds group contact) w) g c ≡ meaning (adds group contact) (relation w) g c
unfolding run_call relation add_group_member load_group expect_contact insert_if_missing
    insert_member combinators
add_member-run group contact w known g c = elim (Option-cases (group_by_id group w)) [
  | inl missing ↦ ground (arith, known, ap is_some missing)
  | inr (row, found) ↦ elim (Option-cases (contact_by_id contact w)) [
    | inl missing ↦ ground (arith, known, ap is_some missing)
    | inr (person, there) ↦ elim (Option-cases (find_member group contact w)) [
      | inl new ↦
          rw (found, there, new) (any-snoc (is_pair g c) w.members (member_row group contact))
      | inr (m, old) ↦
          rw (found, there, old)
            (present group contact g c w.members
              (sym (find-any group contact w.members) ∙ ap is_some old))
    ]
  ]
]

delete_member-run :
    (group contact : Uuid) (w : World)
    → KnownCall w (deletes group contact)
    → (g c : Uuid)
    → relation (run_call (deletes group contact) w) g c
      ≡ meaning (deletes group contact) (relation w) g c
unfolding run_call relation delete_group_member load_group expect_contact remove_if_there
    remove_member combinators
delete_member-run group contact w known g c = elim (Option-cases (group_by_id group w)) [
  | inl missing ↦ ground (arith, known, ap is_some missing)
  | inr (row, found) ↦ elim (Option-cases (contact_by_id contact w)) [
    | inl missing ↦ ground (arith, known, ap is_some missing)
    | inr (person, there) ↦ elim (Option-cases (find_member group contact w)) [
      | inl new ↦
          rw (found, there, new)
            (absent group contact g c w.members
              (sym (find-any group contact w.members) ∙ ap is_some new))
      | inr (m, old) ↦ rw (found, there, old) (any-keep group contact g c w.members)
    ]
  ]
]

-- A call leaves the groups and the contacts as they are.
Knows : MemberCall → Db → Type 0
Knows call db =
    (is_some (by_key (λ (g : Group). g.id) (group_of_call call) db.groups) ≡ true)
    × (is_some (by_key (λ (c : Contact). c.id) (contact_of_call call) db.contacts) ≡ true)

insert_member-Knows :
    (call : MemberCall) (group contact : Uuid)
    → Keeps (InDb (Knows call)) (insert_member group contact)
unfolding insert_member Knows
insert_member-Knows call group contact = Keeps-modify _ λ w h. record { holds = h.holds }

remove_member-Knows :
    (call : MemberCall) (group contact : Uuid)
    → Keeps (InDb (Knows call)) (remove_member group contact)
unfolding remove_member Knows
remove_member-Knows call group contact = Keeps-modify _ λ w h. record { holds = h.holds }

add_member-Knows :
    (call : MemberCall) (i : Option Uuid) (contact : Uuid)
    → Keeps (InDb (Knows call)) (add_group_member i contact)
unfolding add_group_member load_group expect_contact insert_if_missing
add_member-Knows call i contact = search (keeps_rules, insert_member-Knows) depth 16

delete_member-Knows :
    (call : MemberCall) (i contact : Option Uuid)
    → Keeps (InDb (Knows call)) (delete_group_member i contact)
unfolding delete_group_member load_group expect_contact remove_if_there
delete_member-Knows call i contact = search (keeps_rules, remove_member-Knows) depth 16

KnownCall-run_call :
    (first call : MemberCall) (w : World) → KnownCall w call → KnownCall (run_call first w) call
unfolding run_call Knows
KnownCall-run_call (adds group contact) call w known =
    ((add_member-Knows call (some group) contact).after w (record { holds = known })).holds
KnownCall-run_call (deletes group contact) call w known =
    ((delete_member-Knows call (some group) (some contact)).after w
      (record { holds = known })).holds

relation-run_call :
    (call : MemberCall) (w : World)
    → KnownCall w call
    → relation (run_call call w) ≡ meaning call (relation w)
relation-run_call (adds group contact) w known =
    fun_ext λ g. fun_ext λ c. add_member-run group contact w known g c
relation-run_call (deletes group contact) w known =
    fun_ext λ g. fun_ext λ c. delete_member-run group contact w known g c

-- On groups and contacts that are there, any sequence of calls that add and delete memberships does to
-- the relation of groups and contacts what inserting and removing the pairs in that order does, however
-- often a pair is added or deleted.
pub run_calls_refines :
    (calls : List MemberCall) (w : World)
    → All (KnownCall w) calls
    → relation (run_calls calls w) ≡ meanings calls (relation w)
run_calls_refines [] w known = refl
run_calls_refines (call ∷ calls) w known =
    run_calls_refines calls (run_call call w) (
      All-weaken (KnownCall w) (KnownCall (run_call call w)) calls
        (λ other k. KnownCall-run_call call other w k) known.1)
    ∙ ap (meanings calls) (relation-run_call call w known.0)
