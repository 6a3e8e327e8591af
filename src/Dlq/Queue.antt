-- ===== src/Dlq/Queue.antt =====
-- The length of the dead-letter queue.
use loboguara.Common.{
  ℕ, ◌+◌, ◌-◌, leb→le, sym, ◌≤◌, ◌≡◌, refl, Option, none, List, [], ◌∷◌, ◌++◌, arith, length,
  length-drop, drop, ok, String, leb, inl, inr, Bool-cases, ap,
}
use loboguara.Common.Int.{ℤ}
use loboguara.Models.{Uuid, Mapping}
use loboguara.Redis.{keep_last}
use loboguara.World.{World, Env, encoded}
use loboguara.Action.{combinators}
use loboguara.Database.{uuid4}
use loboguara.Metrics.{touch_metrics, refresh_dlq_metric}
use loboguara.Dlq.{
  bound_dlq_max_items, trim_queue, trim_dlq_to_limit, append_entry, push_dlq_entry, dlq_payload,
  prune_queue, prune_dlq, Pruned,
}
use loboguara.Escalation.{record_periodic_task_heartbeat}

-- A list that is short enough is kept whole.
keep_last_short {ℓ} : {A : Type ℓ} (n : ℕ) (xs : List A) → length xs ≤ n → keep_last n xs ≡ xs
keep_last_short n xs h =
    let zero_left : length xs - n ≡ 0 = omega arith in ap (λ k. drop k xs) zero_left

-- A push appends the new entry and keeps the newest of the queue, as many as the limit allows.
pub push_keeps_newest :
    (env : Env) (task_name : String) (args : List Uuid) (kwargs : Mapping) (error : String)
    (w : World)
    → (push_dlq_entry env task_name args kwargs error w).1.dlq
      ≡ keep_last
          (bound_dlq_max_items env none)
          (w.dlq ++ encoded (dlq_payload task_name args kwargs error w.next_uuid) ∷ [])
unfolding push_dlq_entry append_entry trim_dlq_to_limit trim_queue refresh_dlq_metric touch_metrics
    uuid4 combinators
push_keeps_newest env task_name args kwargs error w =
    let entries = w.dlq ++ encoded (dlq_payload task_name args kwargs error w.next_uuid) ∷ [] in
    let limit = bound_dlq_max_items env none in
    elim (Bool-cases (leb (length entries) limit)) [
      | inl short ↦
          rw short (sym (keep_last_short limit entries (leb→le (length entries) limit short)))
      | inr long ↦ rw long refl
    ]

-- A prune leaves at most the limit, and what it removed and what it left are what was there.
pub prune_counts :
    (env : Env) (max_items : Option ℤ) (w : World) (result : Pruned)
    → (prune_dlq env max_items w).0 ≡ ok result
    → (result.removed + result.remaining ≡ length w.dlq)
      × (result.remaining ≤ bound_dlq_max_items env max_items)
      × (result.remaining ≡ length (prune_dlq env max_items w).1.dlq)
unfolding prune_dlq prune_queue trim_queue refresh_dlq_metric touch_metrics
    record_periodic_task_heartbeat combinators
prune_counts env max_items w result h =
    let limit = bound_dlq_max_items env max_items in
    let rest = length-drop (length w.dlq - limit) w.dlq in
    elim (Bool-cases (leb (length w.dlq) limit)) [
      | inl short ↦ ground arith
      | inr long ↦ ground arith
    ]
