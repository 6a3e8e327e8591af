-- ===== src/Directory/Integrity.antt =====
-- main.py: the calls of `/contacts`, `/groups` and `/rules` as steps on the tables, and their foreign keys.
use loboguara.Common.{
  ◌≡◌, refl, ap, ◌∙◌, Option, none, some, is_some, [], ◌∷◌, ◌++◌, All-snoc, All-keep, inl, inr,
  Option-cases, Bool-cases, get_or,
}
use loboguara.Models.{Uuid, Contact, Group, Rule}
use loboguara.World.{World}
use loboguara.Action.{combinators, ◌>>◌, pure}
use loboguara.Action.Keeps.{Keeps, Keeps-modify, keeps_rules}
use loboguara.Database.{contact_by_id, group_by_id}
use loboguara.Database.Tables.{has_key-snoc, has_key-update_key, update_key, All-update_key}
use loboguara.Frame.{InDb}
use loboguara.Lifecycle.Ranks.{uuid4-InDb}
use loboguara.Directory.References.{
  KnownMember, KnownRule, Referential, contacts-Referential, groups-Referential,
  contact_gone-Referential, group_gone-Referential, has_group,
}
use loboguara.Directory.Members.{
  add_group_member, delete_group_member, expect_contact, insert_if_missing, insert_member,
  remove_if_there, remove_member, find_member, member_row,
}
use loboguara.Directory.Rules.{
  RuleCreate, RuleUpdate, create_rule, insert_rule_row, update_rule, toggle_rule, load_rule,
  commit_rule, change_rule, expect_group, updated_rule, toggled,
}
use loboguara.Directory.Groups.{
  GroupCreate, GroupUpdate, add_group, create_group, load_group, change_group, commit_group,
  update_group, delete_group_guard, remove_group, delete_group, is_recipient, has_members,
  updated_group,
}
use loboguara.Directory.Contacts.{
  ContactCreate, ContactUpdate, add_contact, create_contact, load_contact, change_contact,
  update_contact, delete_contact_guard, remove_contact, delete_contact, is_notified, is_in_a_group,
  updated_contact,
}

add_contact-Referential : (row : Contact) → Keeps (InDb Referential) (add_contact row)
unfolding add_contact
add_contact-Referential row = Keeps-modify _ λ w h. record {
  holds =
      contacts-Referential w.db (w.contacts ++ row ∷ [])
        (λ j. has_key-snoc (λ (c : Contact). c.id) j w.contacts row) h.holds;
}

create_contact-Referential :
    (contact : ContactCreate) → Keeps (InDb Referential) (create_contact contact)
unfolding create_contact
create_contact-Referential contact =
    search (keeps_rules, uuid4-InDb, add_contact-Referential) depth 9

change_contact-Referential :
    (i : Uuid) (u : ContactUpdate) → Keeps (InDb Referential) (change_contact i u)
unfolding change_contact
change_contact-Referential i u = Keeps-modify _ λ w h. record {
  holds =
      contacts-Referential w.db
        (update_key (λ (c : Contact). c.id) i (updated_contact u) w.contacts)
        (λ j k.
          has_key-update_key (λ (c : Contact). c.id) i j (updated_contact u) w.contacts (λ r. refl)
          ∙ k)
        h.holds;
}

update_contact-Referential :
    (i : Option Uuid) (u : ContactUpdate) → Keeps (InDb Referential) (update_contact i u)
unfolding update_contact load_contact
update_contact-Referential i u = search (keeps_rules, change_contact-Referential) depth 12

guarded_contact-Referential :
    (i : Uuid) → Keeps (InDb Referential) (delete_contact_guard i >> remove_contact i)
unfolding delete_contact_guard remove_contact combinators
guarded_contact-Referential i = record {
  after = λ w h. elim (Bool-cases (is_notified i w)) [
    | inl notified ↦ rw notified h
    | inr quiet ↦ elim (Bool-cases (is_in_a_group i w)) [
      | inl grouped ↦ rw (quiet, grouped) h
      | inr alone ↦
          rw (quiet, alone) (record { holds = contact_gone-Referential i w quiet alone h.holds })
    ]
  ];
}

delete_contact-Referential : (i : Option Uuid) → Keeps (InDb Referential) (delete_contact i)
unfolding delete_contact load_contact
delete_contact-Referential i = search (keeps_rules, guarded_contact-Referential) depth 12

add_group-Referential : (row : Group) → Keeps (InDb Referential) (add_group row)
unfolding add_group
add_group-Referential row = Keeps-modify _ λ w h. record {
  holds =
      groups-Referential w.db (w.groups ++ row ∷ [])
        (λ j. has_key-snoc (λ (g : Group). g.id) j w.groups row) h.holds;
}

create_group-Referential : (group : GroupCreate) → Keeps (InDb Referential) (create_group group)
unfolding create_group
create_group-Referential group = search (keeps_rules, uuid4-InDb, add_group-Referential) depth 12

change_group-Referential :
    (i : Uuid) (u : GroupUpdate) → Keeps (InDb Referential) (change_group i u)
unfolding change_group
change_group-Referential i u = Keeps-modify _ λ w h. record {
  holds =
      groups-Referential w.db (update_key (λ (g : Group). g.id) i (updated_group u) w.groups)
        (λ j k.
          has_key-update_key (λ (g : Group). g.id) i j (updated_group u) w.groups (λ r. refl) ∙ k)
        h.holds;
}

update_group-Referential :
    (i : Option Uuid) (u : GroupUpdate) → Keeps (InDb Referential) (update_group i u)
unfolding update_group commit_group load_group
update_group-Referential i u = search (keeps_rules, change_group-Referential) depth 16

guarded_group-Referential :
    (i : Uuid) → Keeps (InDb Referential) (delete_group_guard i >> remove_group i)
unfolding delete_group_guard remove_group combinators
guarded_group-Referential i = record {
  after = λ w h. elim (Bool-cases (is_recipient i w)) [
    | inl ruled ↦ rw ruled h
    | inr unruled ↦ elim (Bool-cases (has_members i w)) [
      | inl peopled ↦ rw (unruled, peopled) h
      | inr empty ↦
          rw (unruled, empty) (record { holds = group_gone-Referential i w unruled empty h.holds })
    ]
  ];
}

delete_group-Referential : (i : Option Uuid) → Keeps (InDb Referential) (delete_group i)
unfolding delete_group load_group
delete_group-Referential i = search (keeps_rules, guarded_group-Referential) depth 12

-- A membership comes in where its group and its contact were found.
add_member-Referential :
    (i : Option Uuid) (contact : Uuid) → Keeps (InDb Referential) (add_group_member i contact)
unfolding add_group_member load_group expect_contact insert_if_missing insert_member combinators
add_member-Referential none contact = record { after = λ w h. h }
add_member-Referential (some group) contact = record {
  after = λ w h. elim (Option-cases (group_by_id group w)) [
    | inl missing ↦ rw missing h
    | inr (g, found) ↦ elim (Option-cases (contact_by_id contact w)) [
      | inl missing ↦ rw (found, missing) h
      | inr (c, known) ↦ elim (Option-cases (find_member group contact w)) [
        | inl new ↦
            rw (found, known, new)
              (record {
                holds = record {
                  of_members =
                      All-snoc (KnownMember w.db) w.members (member_row group contact)
                        h.holds.of_members (ap is_some found, ap is_some known);
                  of_rules = h.holds.of_rules;
                  of_notifications = h.holds.of_notifications;
                };
              })
        | inr (m, old) ↦ rw (found, known, old) h
      ]
    ]
  ];
}

remove_member-Referential :
    (group contact : Uuid) → Keeps (InDb Referential) (remove_member group contact)
unfolding remove_member
remove_member-Referential group contact = Keeps-modify _ λ w h. record {
  holds = record {
    of_members = All-keep (KnownMember w.db) _ w.members h.holds.of_members;
    of_rules = h.holds.of_rules;
    of_notifications = h.holds.of_notifications;
  };
}

delete_member-Referential :
    (i contact : Option Uuid) → Keeps (InDb Referential) (delete_group_member i contact)
unfolding delete_group_member load_group expect_contact remove_if_there
delete_member-Referential i contact = search (keeps_rules, remove_member-Referential) depth 16

insert_rule_row-Referential : (row : Rule) → Keeps (InDb Referential) (insert_rule_row row)
unfolding insert_rule_row combinators
insert_rule_row-Referential row = record {
  after = λ w h. elim (Bool-cases (is_some (group_by_id row.recipient_group_id w))) [
    | inl there ↦ rw there (record {
      holds = record {
        of_members = h.holds.of_members;
        of_rules = All-snoc (KnownRule w.db) w.rules row h.holds.of_rules there;
        of_notifications = h.holds.of_notifications;
      };
    })
    | inr missing ↦ rw missing h
  ];
}

create_rule-Referential : (rule : RuleCreate) → Keeps (InDb Referential) (create_rule rule)
unfolding create_rule
create_rule-Referential rule = search (keeps_rules, uuid4-InDb, insert_rule_row-Referential) depth 9

-- A change of a rule to a group that is there.
change_rule-Referential :
    (i : Uuid) (f : Rule → Rule) (w : World)
    → ((r : Rule) → KnownRule w.db r → KnownRule w.db (f r))
    → InDb Referential w
    → InDb Referential (change_rule i f w).1
unfolding change_rule combinators
change_rule-Referential i f w keeps h = record {
  holds = record {
    of_members = h.holds.of_members;
    of_rules =
        All-update_key (λ (r : Rule). r.id) (KnownRule w.db) i f w.rules keeps h.holds.of_rules;
    of_notifications = h.holds.of_notifications;
  };
}

-- The new group of a rule, where one is given, was found.
expect_change-Referential :
    (group : Option Uuid) (i : Uuid) (f : Rule → Rule) (row : Rule)
    → ((r : Rule) → (f r).recipient_group_id ≡ get_or group r.recipient_group_id)
    → Keeps (InDb Referential) (expect_group group >> (change_rule i f >> pure row))
unfolding expect_group change_rule combinators
expect_change-Referential none i f row same = record {
  after = λ w h. change_rule-Referential i f w (λ r k. ap (has_group w.db) (same r) ∙ k) h;
}
expect_change-Referential (some g) i f row same = record {
  after = λ w h. elim (Option-cases (group_by_id g w)) [
    | inl missing ↦ rw missing h
    | inr (group, found) ↦
        let here =
          change_rule-Referential i f w (λ r k. ap (has_group w.db) (same r) ∙ ap is_some found)
            h in
        rw found here
  ];
}

commit_rule-Referential :
    (i : Uuid) (u : RuleUpdate) (rule : Rule) → Keeps (InDb Referential) (commit_rule i u rule)
unfolding commit_rule
commit_rule-Referential i u rule =
    expect_change-Referential u.recipient_group_id i (updated_rule u) (updated_rule u rule)
      (λ r. refl)

update_rule-Referential :
    (i : Option Uuid) (u : RuleUpdate) → Keeps (InDb Referential) (update_rule i u)
unfolding update_rule load_rule
update_rule-Referential i u = search (keeps_rules, commit_rule-Referential) depth 12

toggle_row-Referential : (i : Uuid) → Keeps (InDb Referential) (change_rule i toggled)
toggle_row-Referential i = record {
  after = λ w h. change_rule-Referential i toggled w (λ r k. k) h;
}

toggle_rule-Referential : (i : Option Uuid) → Keeps (InDb Referential) (toggle_rule i)
unfolding toggle_rule load_rule
toggle_rule-Referential i = search (keeps_rules, toggle_row-Referential) depth 12

-- One call of an endpoint that changes contacts, groups, memberships or rules.
pub data Edit : World → World → Type 0 where
  contact_created : (c : ContactCreate) (w : World) → Edit w (create_contact c w).1
  contact_updated :
      (i : Option Uuid) (u : ContactUpdate) (w : World) → Edit w (update_contact i u w).1
  contact_deleted : (i : Option Uuid) (w : World) → Edit w (delete_contact i w).1
  group_created : (g : GroupCreate) (w : World) → Edit w (create_group g w).1
  group_updated : (i : Option Uuid) (u : GroupUpdate) (w : World) → Edit w (update_group i u w).1
  group_deleted : (i : Option Uuid) (w : World) → Edit w (delete_group i w).1
  member_added : (i : Option Uuid) (c : Uuid) (w : World) → Edit w (add_group_member i c w).1
  member_deleted : (i c : Option Uuid) (w : World) → Edit w (delete_group_member i c w).1
  rule_created : (r : RuleCreate) (w : World) → Edit w (create_rule r w).1
  rule_updated : (i : Option Uuid) (u : RuleUpdate) (w : World) → Edit w (update_rule i u w).1
  rule_toggled : (i : Option Uuid) (w : World) → Edit w (toggle_rule i w).1

-- Calls one after the other.
pub data Edits : World → World → Type 0 where
  unedited : (w : World) → Edits w w
  edited : (u v w : World) → Edits u v → Edit v w → Edits u w

Edit-Referential : (v w : World) → Edit v w → InDb Referential v → InDb Referential w
Edit-Referential v w (contact_created c _) h = (create_contact-Referential c).after v h
Edit-Referential v w (contact_updated i u _) h = (update_contact-Referential i u).after v h
Edit-Referential v w (contact_deleted i _) h = (delete_contact-Referential i).after v h
Edit-Referential v w (group_created g _) h = (create_group-Referential g).after v h
Edit-Referential v w (group_updated i u _) h = (update_group-Referential i u).after v h
Edit-Referential v w (group_deleted i _) h = (delete_group-Referential i).after v h
Edit-Referential v w (member_added i c _) h = (add_member-Referential i c).after v h
Edit-Referential v w (member_deleted i c _) h = (delete_member-Referential i c).after v h
Edit-Referential v w (rule_created r _) h = (create_rule-Referential r).after v h
Edit-Referential v w (rule_updated i u _) h = (update_rule-Referential i u).after v h
Edit-Referential v w (rule_toggled i _) h = (toggle_rule-Referential i).after v h

Edits-Referential : (u w : World) → Edits u w → InDb Referential u → InDb Referential w
Edits-Referential u w (unedited _) h = h
Edits-Referential u w (edited _ v _ before last) h =
    Edit-Referential v w last (Edits-Referential u v before h)

-- Where every membership, rule and notification names groups and contacts that are there, it is so
-- after any sequence of calls that create, change and delete contacts, groups, memberships and rules.
pub references_survive : (u w : World) → Edits u w → Referential u.db → Referential w.db
references_survive u w edits h = (Edits-Referential u w edits (record { holds = h })).holds
