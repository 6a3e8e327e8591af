-- ===== src/Directory/References.antt =====
-- The foreign keys between the tables (models.py), and the changes of a table that leave them whole.
use loboguara.Common.{◌≡◌, Bool, true, false, not, List, keep, All, All-weaken, All-unless, ◌==◌}
use loboguara.Models.{Uuid, Contact, Group, GroupMember, Rule, Notification}
use loboguara.World.{World, Db}
use loboguara.Database.Tables.{has_key, has_key-keep}
use loboguara.Directory.Groups.{is_recipient, has_members}
use loboguara.Directory.Contacts.{is_notified, is_in_a_group}

abbrev pub has_contact : Db → Uuid → Bool
has_contact db i = has_key (λ (c : Contact). c.id) i db.contacts

abbrev pub has_group : Db → Uuid → Bool
has_group db i = has_key (λ (g : Group). g.id) i db.groups

abbrev pub KnownMember : Db → GroupMember → Type 0
KnownMember db m = (has_group db m.group_id ≡ true) × (has_contact db m.contact_id ≡ true)

abbrev pub KnownRule : Db → Rule → Type 0
KnownRule db r = has_group db r.recipient_group_id ≡ true

abbrev pub KnownNotification : Db → Notification → Type 0
KnownNotification db n = has_contact db n.contact_id ≡ true

-- every group and every contact that a row names is there
pub record Referential (db : Db) : Type 0 where
  pub of_members : All (KnownMember db) db.members
  pub of_rules : All (KnownRule db) db.rules
  pub of_notifications : All (KnownNotification db) db.notifications

pub contacts-Referential :
    (db : Db) (rows : List Contact)
    → ((j : Uuid) → has_contact db j ≡ true → has_key (λ (c : Contact). c.id) j rows ≡ true)
    → Referential db
    → Referential (record db { contacts = rows })
contacts-Referential db rows more h = record {
  of_members =
      All-weaken (KnownMember db) (KnownMember (record db { contacts = rows })) db.members
        (λ m k. (k.0, more m.contact_id k.1)) h.of_members;
  of_rules = h.of_rules;
  of_notifications =
      All-weaken (KnownNotification db) (KnownNotification (record db { contacts = rows }))
        db.notifications (λ n k. more n.contact_id k) h.of_notifications;
}

pub groups-Referential :
    (db : Db) (rows : List Group)
    → ((j : Uuid) → has_group db j ≡ true → has_key (λ (g : Group). g.id) j rows ≡ true)
    → Referential db
    → Referential (record db { groups = rows })
groups-Referential db rows more h = record {
  of_members =
      All-weaken (KnownMember db) (KnownMember (record db { groups = rows })) db.members
        (λ m k. (more m.group_id k.0, k.1)) h.of_members;
  of_rules =
      All-weaken (KnownRule db) (KnownRule (record db { groups = rows })) db.rules
        (λ r k. more r.recipient_group_id k) h.of_rules;
  of_notifications = h.of_notifications;
}

-- What the guards of a removal have seen is enough for it.
pub contact_gone-Referential :
    (i : Uuid) (w : World)
    → is_notified i w ≡ false
    → is_in_a_group i w ≡ false
    → Referential w.db
    → Referential (record w.db { contacts = keep (λ (c : Contact). not (c.id == i)) w.contacts })
contact_gone-Referential i w quiet alone h =
    let left = record w.db { contacts = keep (λ (c : Contact). not (c.id == i)) w.contacts } in
    let stays = λ (j : Uuid) (ne : (j == i) ≡ false).
      has_key-keep (λ (c : Contact). c.id) i j w.contacts ne in
    record {
      of_members =
          All-unless (KnownMember w.db) (KnownMember left) (λ (m : GroupMember). m.contact_id == i)
            w.members alone (λ m ne k. (k.0, stays m.contact_id ne k.1)) h.of_members;
      of_rules = h.of_rules;
      of_notifications =
          All-unless (KnownNotification w.db) (KnownNotification left)
            (λ (n : Notification). n.contact_id == i) w.notifications quiet
            (λ n ne k. stays n.contact_id ne k) h.of_notifications;
    }

pub group_gone-Referential :
    (i : Uuid) (w : World)
    → is_recipient i w ≡ false
    → has_members i w ≡ false
    → Referential w.db
    → Referential (record w.db { groups = keep (λ (g : Group). not (g.id == i)) w.groups })
group_gone-Referential i w unruled empty h =
    let left = record w.db { groups = keep (λ (g : Group). not (g.id == i)) w.groups } in
    let stays =
      λ (j : Uuid) (ne : (j == i) ≡ false). has_key-keep (λ (g : Group). g.id) i j w.groups ne in
    record {
      of_members =
          All-unless (KnownMember w.db) (KnownMember left) (λ (m : GroupMember). m.group_id == i)
            w.members empty (λ m ne k. (stays m.group_id ne k.0, k.1)) h.of_members;
      of_rules =
          All-unless (KnownRule w.db) (KnownRule left) (λ (r : Rule). r.recipient_group_id == i)
            w.rules unruled (λ r ne k. stays r.recipient_group_id ne k) h.of_rules;
      of_notifications = h.of_notifications;
    }
