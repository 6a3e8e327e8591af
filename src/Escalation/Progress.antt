-- ===== src/Escalation/Progress.antt =====
-- Escalations and dispatches take no incident back, and with the rest of the operations on incidents
-- no run of them does.
use loboguara.Common.{
  ℕ, ◌≤◌, ◌≡◌, refl, true, Option, some, List, [], ◌∷◌, arith, inl, inr, Option-cases, Bool-cases,
  String,
}
use loboguara.Models.{Uuid, Incident, Notification, NotificationChannel, GroupMember, Rule, is_open}
use loboguara.World.{World, Env}
use loboguara.Action.{combinators}
use loboguara.Action.Keeps.{Keeps, Keeps-pure, Keeps-modify, Keeps-when, keeps_rules}
use loboguara.Database.{incident_by_id, update_incident}
use loboguara.Frame.{InDb, touch_metrics-InDb}
use loboguara.Lifecycle.{acknowledge_incident, resolve_incident, handle_voice_callback}
use loboguara.Lifecycle.Ranks.{
  HasCome, rank, up_escalated, uuid4-InDb, add_audit-HasCome, update_incident-HasCome, after_then,
  by_own_id, acknowledge_incident-HasCome, resolve_incident-HasCome, handle_voice_callback-HasCome,
}
use loboguara.Dispatch.{
  add_notification, insert_notification, get_or_create_notification, queue_channel_send,
  notifications_of_member, notifications_of_members, queue_notification, dispatch_with_rule,
  dispatch_incident,
}
use loboguara.Escalation.{
  FallbackPolicy, usable, invalid, escalated_row, escalate_on, escalate_to, follow_policy,
  log_escalation, escalate_open, handle_escalation, record_periodic_task_heartbeat, log_sweep,
  sweep_row, sweep_incident, sweep_all, stale_incident_sweeper,
}

module _ (i : Uuid) (k : ℕ) where
  insert-HasCome : (row : Notification) → Keeps (InDb (HasCome i k)) (insert_notification row)
  unfolding insert_notification
  insert-HasCome row = Keeps-modify _ (λ w h. record { holds = h.holds })

  get_or_create-HasCome :
      (incident contact : Uuid) (channel : NotificationChannel)
      → Keeps (InDb (HasCome i k)) (get_or_create_notification incident contact channel)
  unfolding get_or_create_notification add_notification
  get_or_create-HasCome incident contact channel =
      search (keeps_rules, uuid4-InDb, insert-HasCome) depth 12

  queue-HasCome :
      (j t : Uuid) (channel : NotificationChannel)
      → Keeps (InDb (HasCome i k)) (queue_channel_send j t channel)
  unfolding queue_channel_send
  queue-HasCome j t channel = Keeps-when _ _ (Keeps-modify _ (λ w h. record { holds = h.holds }))

  escalate_on-HasCome :
      (incident : Incident) (t contact : Uuid) (channel : NotificationChannel)
      → Keeps (InDb (HasCome i k)) (escalate_on incident t contact channel)
  unfolding escalate_on
  escalate_on-HasCome incident t contact channel =
      search (keeps_rules, get_or_create-HasCome, add_audit-HasCome, queue-HasCome) depth 12

  escalate_to-HasCome :
      (incident : Incident) (t : Uuid) (members : List GroupMember) (names : List String)
      → Keeps (InDb (HasCome i k)) (escalate_to incident t members names)
  unfolding escalate_to
  escalate_to-HasCome incident t members names = search (keeps_rules, escalate_on-HasCome) depth 12

  follow_policy-HasCome :
      (incident : Incident) (t : Uuid) (policy : FallbackPolicy)
      → Keeps (InDb (HasCome i k)) (follow_policy incident t policy)
  unfolding follow_policy
  follow_policy-HasCome incident t (invalid bad d) = search (keeps_rules, add_audit-HasCome) depth 9
  follow_policy-HasCome incident t (usable group names) =
      search (keeps_rules, escalate_to-HasCome) depth 9

  log_escalation-HasCome :
      (parse_uuid : String → Option Uuid) (incident : Incident) (t : Uuid)
      → Keeps (InDb (HasCome i k)) (log_escalation parse_uuid incident t)
  unfolding log_escalation
  log_escalation-HasCome parse_uuid incident t =
      search (keeps_rules, add_audit-HasCome, follow_policy-HasCome) depth 12

  escalate_open-HasCome :
      (parse_uuid : String → Option Uuid) (incident : Incident) (t : Uuid) (w : World)
      → incident_by_id incident.id w ≡ some incident
      → is_open incident.status ≡ true
      → InDb (HasCome i k) w
      → InDb (HasCome i k) (escalate_open parse_uuid incident t w).1
  unfolding escalate_open
  escalate_open-HasCome parse_uuid incident t w found live h =
      after_then {P = InDb (HasCome i k)} (update_incident incident.id escalated_row)
        (log_escalation parse_uuid incident t) w
        (update_incident-HasCome i k incident.id incident escalated_row w found (λ r. refl)
          (up_escalated incident.status live) h)
        (log_escalation-HasCome parse_uuid incident t)

  handle_escalation-HasCome :
      (env : Env) (parse_uuid : String → Option Uuid) (j t : Uuid)
      → Keeps (InDb (HasCome i k)) (handle_escalation env parse_uuid j t)
  unfolding handle_escalation combinators
  handle_escalation-HasCome env parse_uuid j t = record {
    after = λ w h. elim (Option-cases (incident_by_id j w)) [
      | inl missing ↦ rw missing h
      | inr (r, found) ↦ elim (Bool-cases (is_open r.status)) [
        | inl live ↦
            let here = escalate_open-HasCome parse_uuid r t w (by_own_id w j r found) live h in
            rw (found, live) here
        | inr over ↦ rw (found, over) h
      ]
    ];
  }

  notifications_of_member-HasCome :
      (incident : Incident) (contact : Uuid) (names : List String)
      → Keeps (InDb (HasCome i k)) (notifications_of_member incident contact names)
  unfolding notifications_of_member
  notifications_of_member-HasCome incident contact [] = Keeps-pure []
  notifications_of_member-HasCome incident contact (name ∷ names) =
      let rest = notifications_of_member-HasCome incident contact names in
      search (keeps_rules, get_or_create-HasCome) depth 9

  notifications_of_members-HasCome :
      (incident : Incident) (members : List GroupMember) (names : List String)
      → Keeps (InDb (HasCome i k)) (notifications_of_members incident members names)
  unfolding notifications_of_members
  notifications_of_members-HasCome incident [] names = Keeps-pure []
  notifications_of_members-HasCome incident (member ∷ members) names =
      let rest = notifications_of_members-HasCome incident members names in
      search (keeps_rules, notifications_of_member-HasCome) depth 9

  queue_notification-HasCome :
      (env : Env) (rule : Rule) (incident : Incident) (t : Uuid) (n : Notification)
      → Keeps (InDb (HasCome i k)) (queue_notification env rule incident t n)
  unfolding queue_notification
  queue_notification-HasCome env rule incident t n =
      search (keeps_rules, add_audit-HasCome, queue-HasCome) depth 9

  dispatch-HasCome :
      (env : Env) (j t : Uuid) → Keeps (InDb (HasCome i k)) (dispatch_incident env j t)
  unfolding dispatch_incident dispatch_with_rule
  dispatch-HasCome env j t =
      search (keeps_rules, notifications_of_members-HasCome, queue_notification-HasCome) depth 12

  log_sweep-HasCome : (j : Uuid) → Keeps (InDb (HasCome i k)) (log_sweep j)
  unfolding log_sweep
  log_sweep-HasCome j = search (keeps_rules, uuid4-InDb, add_audit-HasCome) depth 9

  sweep_row-HasCome :
      (r : Incident) (w : World)
      → incident_by_id r.id w ≡ some r
      → InDb (HasCome i k) w
      → InDb (HasCome i k) (sweep_row r w).1
  unfolding sweep_row combinators
  sweep_row-HasCome r w found h = elim (Bool-cases (is_open r.status)) [
    | inl live ↦
        let here =
          after_then {P = InDb (HasCome i k)} (update_incident r.id escalated_row) (log_sweep r.id)
            w
            (update_incident-HasCome i k r.id r escalated_row w found (λ r. refl)
              (up_escalated r.status live) h)
            (log_sweep-HasCome r.id) in
        rw live here
    | inr over ↦ rw over h
  ]

  sweep_incident-HasCome : (j : Uuid) → Keeps (InDb (HasCome i k)) (sweep_incident j)
  unfolding sweep_incident combinators
  sweep_incident-HasCome j = record {
    after = λ w h. elim (Option-cases (incident_by_id j w)) [
      | inl missing ↦ rw missing h
      | inr (r, found) ↦ rw found (sweep_row-HasCome r w (by_own_id w j r found) h)
    ];
  }

  sweep_all-HasCome : (stale : List Incident) → Keeps (InDb (HasCome i k)) (sweep_all stale)
  unfolding sweep_all
  sweep_all-HasCome [] = Keeps-pure 0
  sweep_all-HasCome (r ∷ stale) =
      let rest = sweep_all-HasCome stale in search (keeps_rules, sweep_incident-HasCome) depth 9

  sweeper-HasCome : (env : Env) → Keeps (InDb (HasCome i k)) (stale_incident_sweeper env)
  unfolding stale_incident_sweeper record_periodic_task_heartbeat
  sweeper-HasCome env = search (keeps_rules, sweep_all-HasCome, touch_metrics-InDb) depth 12

-- One call that works on incidents, from a state of the world to the next.
pub data Step : World → World → Type 0 where
  acknowledging :
      (j : Option Uuid) (by : Option String) (w : World) → Step w (acknowledge_incident j by w).1
  resolving :
      (j : Option Uuid) (by remark : Option String) (w : World)
      → Step w (resolve_incident j by remark w).1
  answering :
      (env : Env) (j : Option Uuid) (digits : String) (rejected : Option String) (w : World)
      → Step w (handle_voice_callback env j digits rejected w).1
  dispatching :
      (env : Env) (j trace : Uuid) (w : World) → Step w (dispatch_incident env j trace w).1
  escalating :
      (env : Env) (parse_uuid : String → Option Uuid) (j trace : Uuid) (w : World)
      → Step w (handle_escalation env parse_uuid j trace w).1
  sweeping : (env : Env) (w : World) → Step w (stale_incident_sweeper env w).1

-- Calls one after the other.
pub data Steps : World → World → Type 0 where
  stay : (w : World) → Steps w w
  after : (u v w : World) → Steps u v → Step v w → Steps u w

Step-HasCome :
    (i : Uuid) (k : ℕ) (v w : World) → Step v w → InDb (HasCome i k) v → InDb (HasCome i k) w
Step-HasCome i k v w (acknowledging j by _) h = (acknowledge_incident-HasCome i k j by).after v h
Step-HasCome i k v w (resolving j by remark _) h =
    (resolve_incident-HasCome i k j by remark).after v h
Step-HasCome i k v w (answering env j d r _) h =
    (handle_voice_callback-HasCome i k env j d r).after v h
Step-HasCome i k v w (dispatching env j t _) h = (dispatch-HasCome i k env j t).after v h
Step-HasCome i k v w (escalating env p j t _) h =
    (handle_escalation-HasCome i k env p j t).after v h
Step-HasCome i k v w (sweeping env _) h = (sweeper-HasCome i k env).after v h

Steps-HasCome :
    (i : Uuid) (k : ℕ) (u w : World) → Steps u w → InDb (HasCome i k) u → InDb (HasCome i k) w
Steps-HasCome i k u w (stay _) h = h
Steps-HasCome i k u w (after _ v _ before last) h =
    Step-HasCome i k v w last (Steps-HasCome i k u v before h)

-- After any sequence of acknowledgments, resolutions, answered calls, dispatches, escalations and
-- sweeps an incident that was there is there, and its status has not gone back in the order open,
-- then acknowledged or escalated, then resolved.
pub never_goes_back :
    (u w : World) (i : Uuid) (r : Incident)
    → incident_by_id i u ≡ some r
    → Steps u w
    → (s : Incident) × (incident_by_id i w ≡ some s) × (rank r.status ≤ rank s.status)
never_goes_back u w i r found steps =
    (Steps-HasCome i (rank r.status) u w steps (record { holds = (r, found, omega arith) })).holds
