-- ===== src/Dlq/Failures/Records.antt =====
-- What the failure of a task leaves as it was.
use loboguara.Common.{
  ◌≡◌, ◌≢◌, ◌∙◌, sym, is_some, str_eq, ◌&&◌, refl, ℕ, String, true, false, not, Option, none, some,
  List, inl, inr, Bool-cases, Option-cases, arith,
}
use loboguara.Models.{Uuid, Notification, NotificationStatus, Mapping, failed}
use loboguara.Common.Int.{ℤ}
use loboguara.World.{World, Env, Db, DlqEntry}
use loboguara.Action.{when, on_option, pure, gets, resume, ◌>>=◌, ◌>>◌}
use loboguara.Action.Keeps.{Keeps, Keeps-modify, Keeps-when, Keeps-then, Keeps-pure, keeps_rules}
use loboguara.Metrics.{increment_metric_counter}
use loboguara.Dlq.Failures.{set_failed}
use loboguara.Lifecycle.Ranks.{uuid4-InDb}
use loboguara.Database.{notification_by_id}
use loboguara.Database.Tables.{key_of_found}
use loboguara.Delivery.{notification_is_terminal, status_is_terminal}
use loboguara.Delivery.Ended.{HasStatus, add_audit-HasStatus, update_notification-HasStatus}
use loboguara.Dlq.{push_dlq_entry, append_entry, trim_dlq_to_limit, trim_queue}
use loboguara.Dlq.Failures.{
  id_of, incident_of, settle_notification, fail_notification, log_final_failure,
  failed_notification, record_final_failure, handle_task_final_failure, on_task_failure,
}
use loboguara.Frame.{
  InDb, increment_metric_counter-InDb, record_channel_failure-InDb, refresh_dlq_metric-InDb,
}

module _ {Q : Db → Type 0} (env : Env) where
  append_entry-InDb : (e : DlqEntry) → Keeps (InDb Q) (append_entry e)
  unfolding append_entry
  append_entry-InDb e = Keeps-modify _ (λ w h. record { holds = h.holds })

  trim_queue-InDb : (n : ℕ) → Keeps (InDb Q) (trim_queue n)
  unfolding trim_queue
  trim_queue-InDb n = Keeps-modify _ (λ w h. record { holds = h.holds })

  trim-InDb : (m : Option ℤ) → Keeps (InDb Q) (trim_dlq_to_limit env m)
  unfolding trim_dlq_to_limit
  trim-InDb m = search (keeps_rules, trim_queue-InDb, refresh_dlq_metric-InDb) depth 9

  push-InDb :
      (task_name : String) (args : List Uuid) (kwargs : Mapping) (error : String)
      → Keeps (InDb Q) (push_dlq_entry env task_name args kwargs error)
  unfolding push_dlq_entry
  push-InDb task_name args kwargs error =
      search (keeps_rules, uuid4-InDb, append_entry-InDb, trim-InDb, refresh_dlq_metric-InDb) depth
        12

module _ (i : Uuid) (s : NotificationStatus) (ended : status_is_terminal s ≡ true) (env : Env) where
  log-HasStatus :
      (t : String) (p : DlqEntry) (u : Uuid) (o : Option Uuid)
      → Keeps (InDb (HasStatus i s)) (log_final_failure t p u o)
  unfolding log_final_failure
  log-HasStatus t p u o = search (keeps_rules, add_audit-HasStatus) depth 9

  fail_ended :
      (p : DlqEntry) (n : Notification) (w : World)
      → notification_is_terminal n ≡ true
      → (fail_notification env p n w).1 ≡ w
  unfolding fail_notification when
  fail_ended p n w over = ground arith

  set_failed-HasStatus :
      (p : DlqEntry) (n : Notification)
      → n.id ≢ i
      → Keeps (InDb (HasStatus i s)) (set_failed env p n)
  unfolding set_failed
  set_failed-HasStatus p n other =
      Keeps-then _ _
        (update_notification-HasStatus i s n.id
          (λ r. record r { status = failed; error_message = some p.error }) other (λ r. refl))
        (search (keeps_rules, increment_metric_counter-InDb, record_channel_failure-InDb) depth 9)

  fail-HasStatus :
      (p : DlqEntry) (n : Notification)
      → (notification_is_terminal n ≡ false → n.id ≢ i)
      → Keeps (InDb (HasStatus i s)) (fail_notification env p n)
  unfolding fail_notification
  fail-HasStatus p n other = elim (Bool-cases (notification_is_terminal n)) [
    | inl over ↦ record { after = λ w h. rw (fail_ended p n w over) h }
    | inr live ↦ Keeps-when _ _ (set_failed-HasStatus p n (other live))
  ]

  -- A row that has not ended is another one.
  same_row :
      (w : World) (n : Notification) (j : Uuid)
      → InDb (HasStatus i s) w
      → notification_by_id j w ≡ some n
      → j ≡ i
      → notification_is_terminal n ≡ true
  same_row w n j h found e =
      let there : notification_by_id i w ≡ some n = rw e at found in
      let same : some h.holds.0 ≡ some n = sym h.holds.1 ∙ there in
      let status = h.holds.2 in ground arith

  other_row :
      (p : DlqEntry) (w : World) (n : Notification)
      → InDb (HasStatus i s) w
      → failed_notification p w ≡ some n
      → notification_is_terminal n ≡ false
      → n.id ≢ i
  unfolding failed_notification
  other_row p w n h found live e = elim (Option-cases (id_of p.notification_id)) [
    | inl missing ↦ ground arith
    | inr (j, named) ↦
        let there : notification_by_id j w ≡ some n = ground arith in
        let key = key_of_found (λ (r : Notification). r.id) j w.notifications n there in
        let over = same_row w n j h there (sym key ∙ e) in ground arith
  ]

  on_row :
      (t : String) (p : DlqEntry) (o : Option Notification)
      → ((n : Notification) → o ≡ some n → notification_is_terminal n ≡ false → n.id ≢ i)
      → Keeps (InDb (HasStatus i s)) (
          on_option o
            (when
              (not (is_some (id_of p.notification_id)) && str_eq t "escalation_worker")
              (increment_metric_counter env "tasks_failed_by_channel" "ESCALATION"))
            (fail_notification env p)
          >> pure (incident_of o))
  unfolding ◌>>◌ on_option
  on_row t p none other = search (keeps_rules, increment_metric_counter-InDb) depth 9
  on_row t p (some n) other =
      let fail = fail-HasStatus p n (other n refl) in
      Keeps-then _ _ (record { after = λ w h. unfold on_option in fail.after w h }) (Keeps-pure _)

  settle-HasStatus :
      (t : String) (p : DlqEntry) → Keeps (InDb (HasStatus i s)) (settle_notification env t p)
  unfolding settle_notification gets ◌>>=◌ resume
  settle-HasStatus t p = record {
    after = λ w h.
        (on_row t p (failed_notification p w) (λ n e live. other_row p w n h e live)).after w h;
  }

  record-HasStatus :
      (t : String) (p : DlqEntry) → Keeps (InDb (HasStatus i s)) (record_final_failure env t p)
  unfolding record_final_failure
  record-HasStatus t p = search (keeps_rules, uuid4-InDb, settle-HasStatus, log-HasStatus) depth 12

  handle-HasStatus :
      (t : String) (args : List Uuid) (kwargs : Mapping) (error : String)
      → Keeps (InDb (HasStatus i s)) (handle_task_final_failure env t args kwargs error)
  unfolding handle_task_final_failure
  handle-HasStatus t args kwargs error = search (keeps_rules, push-InDb, record-HasStatus) depth 9

  failure-HasStatus :
      (t : String) (retries : ℕ) (args : List Uuid) (kwargs : Mapping) (error : String)
      → Keeps (InDb (HasStatus i s)) (on_task_failure env t retries args kwargs error)
  unfolding on_task_failure
  failure-HasStatus t retries args kwargs error = search (keeps_rules, handle-HasStatus) depth 9

-- The failure of a task for good, whatever notification it names, does not change the status of one
-- that has been sent, delivered or answered.
pub final_failure_keeps_ended :
    (env : Env) (task_name : String) (retries : ℕ) (args : List Uuid) (kwargs : Mapping)
    (error : String) (w : World) (n : Notification) (i : Uuid)
    → notification_by_id i w ≡ some n
    → notification_is_terminal n ≡ true
    → HasStatus i n.status (on_task_failure env task_name retries args kwargs error w).1.db
final_failure_keeps_ended env task_name retries args kwargs error w n i found ended =
    ((failure-HasStatus i n.status ended env task_name retries args kwargs error).after w
      (record { holds = (n, found, refl) })).holds
