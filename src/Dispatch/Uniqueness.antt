-- ===== src/Dispatch/Uniqueness.antt =====
-- One notification for each incident, contact and channel.
use loboguara.Common.{
  ℕ, ◌+◌, ◌≤◌, ◌≡◌, refl, Bool, true, false, Option, none, List, [], ◌∷◌, ◌++◌, arith, keep, find?,
  length, inl, inr, Option-cases, Bool-cases, String, ◌==◌, ==_iff, ◌↔◌,
}
use loboguara.Models.{
  Uuid, Incident, Notification, NotificationChannel, AuditAction, Mapping, GroupMember, Rule,
  channel_eq, channel_eq_iff,
}
use loboguara.World.{World, Env, Db}
use loboguara.Action.{combinators}
use loboguara.Action.Keeps.{Keeps, Keeps-pure, Keeps-when, Keeps-modify, keeps_rules}
use loboguara.Database.{addressed_to, uuid4, add_audit}
use loboguara.Frame.{InDb}
use loboguara.Dispatch.{
  new_notification, add_notification, insert_notification, get_or_create_notification,
  queue_channel_send, notifications_of_member, notifications_of_members, queue_notification,
  dispatch_with_rule, dispatch_incident,
}

module _ {A : Type 0} where
  pub length-keep_snoc :
      (p : A → Bool) (xs : List A) (x : A) → length (keep p (xs ++ x ∷ [])) ≤ length (keep p xs) + 1
  length-keep_snoc p [] x = ground arith
  length-keep_snoc p (y ∷ xs) x = ground (arith, length-keep_snoc p xs x)

  pub length-keep_miss :
      (p : A → Bool) (xs : List A) (x : A)
      → p x ≡ false
      → length (keep p (xs ++ x ∷ [])) ≡ length (keep p xs)
  length-keep_miss p [] x h = ground arith
  length-keep_miss p (y ∷ xs) x h = ground (arith, length-keep_miss p xs x h)

  pub keep-none : (p : A → Bool) (xs : List A) → find? p xs ≡ none → keep p xs ≡ []
  keep-none p [] h = refl
  keep-none p (x ∷ xs) h = ground (arith, keep-none p xs)

-- At most one notification of the incident to the contact on the channel.
abbrev pub AtMostOne : Uuid → Uuid → NotificationChannel → Db → Type 0
AtMostOne incident contact channel db =
    length (keep (addressed_to incident contact channel) db.notifications) ≤ 1

module _ (i c : Uuid) (ch : NotificationChannel) where
  add_audit-AtMostOne :
      (t : Uuid) (o : Option Uuid) (a : AuditAction) (d : Mapping)
      → Keeps (InDb (AtMostOne i c ch)) (add_audit t o a d)
  unfolding add_audit
  add_audit-AtMostOne t o a d = record { after = λ w h. record { holds = h.holds } }

  queue-AtMostOne :
      (j t : Uuid) (channel : NotificationChannel)
      → Keeps (InDb (AtMostOne i c ch)) (queue_channel_send j t channel)
  unfolding queue_channel_send
  queue-AtMostOne j t channel = Keeps-when _ _ (Keeps-modify _ (λ w h. record { holds = h.holds }))

  -- A row is added only where none has its address.
  insert-AtMostOne :
      (rows : List Notification) (j incident contact : Uuid) (channel : NotificationChannel)
      (now : ℕ)
      → find? (addressed_to incident contact channel) rows ≡ none
      → length (keep (addressed_to i c ch) rows) ≤ 1
      → length (
          keep (addressed_to i c ch) (rows ++ new_notification j incident contact channel now ∷ []))
        ≤ 1
  insert-AtMostOne rows j incident contact channel now missing h =
      let row = new_notification j incident contact channel now in
      let p = addressed_to i c ch in
      elim (Bool-cases (p row)) [
        | inl same ↦
            let absent =
              keep-none p rows
                (moved (==_iff incident i) (==_iff contact c) (channel_eq_iff channel ch) same) in
            let one = length-keep_snoc p rows row in ground arith
        | inr other ↦ let one = length-keep_miss p rows row other in ground arith
      ]
    where
      moved :
          (((incident == i) ≡ true) ↔ (incident ≡ i))
          → (((contact == c) ≡ true) ↔ (contact ≡ c))
          → ((channel_eq channel ch ≡ true) ↔ (channel ≡ ch))
          → addressed_to i c ch (new_notification j incident contact channel now) ≡ true
          → find? (addressed_to i c ch) rows ≡ none
      moved e f g same =
          let a : incident ≡ i = ground arith in
          let b : contact ≡ c = ground arith in
          let d : channel ≡ ch = ground arith in rw (← a, ← b, ← d) missing

  get_or_create-AtMostOne :
      (incident contact : Uuid) (channel : NotificationChannel)
      → Keeps (InDb (AtMostOne i c ch)) (get_or_create_notification incident contact channel)
  unfolding get_or_create_notification add_notification insert_notification uuid4 combinators
  get_or_create-AtMostOne incident contact channel = record {
    after = λ w h.
        elim (Option-cases (find? (addressed_to incident contact channel) w.notifications)) [
          | inl missing ↦ rw missing (record {
            holds =
                insert-AtMostOne w.notifications w.next_uuid incident contact channel w.now missing
                  h.holds;
          })
          | inr (n, found) ↦ rw found h
        ];
  }

  member-AtMostOne :
      (incident : Incident) (contact : Uuid) (names : List String)
      → Keeps (InDb (AtMostOne i c ch)) (notifications_of_member incident contact names)
  unfolding notifications_of_member
  member-AtMostOne incident contact [] = Keeps-pure []
  member-AtMostOne incident contact (name ∷ names) =
      let rest = member-AtMostOne incident contact names in
      search (keeps_rules, get_or_create-AtMostOne) depth 9

  members-AtMostOne :
      (incident : Incident) (members : List GroupMember) (names : List String)
      → Keeps (InDb (AtMostOne i c ch)) (notifications_of_members incident members names)
  unfolding notifications_of_members
  members-AtMostOne incident [] names = Keeps-pure []
  members-AtMostOne incident (member ∷ members) names =
      let rest = members-AtMostOne incident members names in
      search (keeps_rules, member-AtMostOne) depth 9

  queue_notification-AtMostOne :
      (env : Env) (rule : Rule) (incident : Incident) (t : Uuid) (n : Notification)
      → Keeps (InDb (AtMostOne i c ch)) (queue_notification env rule incident t n)
  unfolding queue_notification
  queue_notification-AtMostOne env rule incident t n =
      search (keeps_rules, add_audit-AtMostOne, queue-AtMostOne) depth 9

  dispatch_with_rule-AtMostOne :
      (env : Env) (incident : Incident) (t : Uuid) (rule : Rule)
      → Keeps (InDb (AtMostOne i c ch)) (dispatch_with_rule env incident t rule)
  unfolding dispatch_with_rule
  dispatch_with_rule-AtMostOne env incident t rule =
      search (keeps_rules, members-AtMostOne, queue_notification-AtMostOne) depth 9

  dispatch-AtMostOne :
      (env : Env) (j t : Uuid) → Keeps (InDb (AtMostOne i c ch)) (dispatch_incident env j t)
  unfolding dispatch_incident
  dispatch-AtMostOne env j t = search (keeps_rules, dispatch_with_rule-AtMostOne) depth 9

-- A dispatch of any incident leaves at most one notification for each incident, contact and channel,
-- if there was at most one before; also where a dispatch runs twice, or a contact is twice in the
-- group, or a channel twice in the rule.
pub dispatch_at_most_one :
    (env : Env) (j trace : Uuid) (w : World) (incident contact : Uuid)
    (channel : NotificationChannel)
    → length (keep (addressed_to incident contact channel) w.notifications) ≤ 1
    → length (
        keep
          (addressed_to incident contact channel)
          (dispatch_incident env j trace w).1.notifications)
      ≤ 1
dispatch_at_most_one env j trace w incident contact channel h =
    ((dispatch-AtMostOne incident contact channel env j trace).after w (record { holds = h })).holds
