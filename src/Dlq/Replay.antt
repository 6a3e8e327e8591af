-- ===== src/Dlq/Replay.antt =====
-- What a replay of the dead-letter queue leaves alone.
use loboguara.Common.{
  none, ℕ, ◌≡◌, refl, Bool, true, Option, some, List, [], ◌∷◌, length, ok, String,
}
use loboguara.Common.Int.{ℤ}
use loboguara.Models.{Uuid, Mapping}
use loboguara.Redis.{read, Slot}
use loboguara.World.{World, Env, RawEntry, encoded, garbage}
use loboguara.Action.{combinators}
use loboguara.Action.Keeps.{Keeps, Keeps-pure, Keeps-modify, keeps_rules}
use loboguara.Database.{uuid4}
use loboguara.Metrics.{touch_metrics, refresh_dlq_metric}
use loboguara.Dlq.{
  store_lock, acquire_dlq_replay_lock, release_dlq_replay_lock, replay_locked,
  write_dlq_replay_report, replay_dlq, replay_raw, replay_all, replay_batch, bound_replay_limit,
}

-- While another holds the lock, a replay answers that it is locked, with nothing replayed and the
-- length of the queue, and leaves the queue, the tables, the tasks, the requests and the lock alone.
pub replay_of_locked :
    (env : Env) (parse_uuid : String → Option Uuid) (limit : Option ℤ) (w : World) (holder : Uuid)
    → read w.now w.replay_lock ≡ some holder
    → ((replay_dlq env parse_uuid limit w).0
        ≡ ok (record {
          status = "locked";
          replayed = 0;
          remaining = length w.dlq;
          dry_run = env.config.dlq_replay_dry_run;
          limit = bound_replay_limit env limit;
          candidates = none;
        }))
      × ((replay_dlq env parse_uuid limit w).1.dlq ≡ w.dlq)
      × ((replay_dlq env parse_uuid limit w).1.db ≡ w.db)
      × ((replay_dlq env parse_uuid limit w).1.tasks ≡ w.tasks)
      × ((replay_dlq env parse_uuid limit w).1.requests ≡ w.requests)
      × ((replay_dlq env parse_uuid limit w).1.replay_lock ≡ w.replay_lock)
unfolding replay_dlq acquire_dlq_replay_lock replay_locked write_dlq_replay_report uuid4 combinators
replay_of_locked env parse_uuid limit w holder held = rw held (refl, refl, refl, refl, refl, refl)

-- the queue, the tables, the tasks and the requests as they are
abbrev pub Unchanged : World → World → Type 0
Unchanged v w = (w.dlq ≡ v.dlq) × (w.db ≡ v.db) × (w.tasks ≡ v.tasks) × (w.requests ≡ v.requests)

module _ (v : World) (env : Env) where
  store_lock-Unchanged : (f : World → Slot Uuid) → Keeps (Unchanged v) (store_lock f)
  unfolding store_lock
  store_lock-Unchanged f = Keeps-modify _ (λ w h. h)

  uuid4-Unchanged : Keeps (Unchanged v) uuid4
  unfolding uuid4
  uuid4-Unchanged = record { after = λ w h. h }

  touch_metrics-Unchanged : (fields : Mapping) → Keeps (Unchanged v) (touch_metrics env fields)
  unfolding touch_metrics
  touch_metrics-Unchanged [] = record { after = λ w h. h }
  touch_metrics-Unchanged (e ∷ fields) = record { after = λ w h. h }

  refresh-Unchanged : Keeps (Unchanged v) (refresh_dlq_metric env)
  unfolding refresh_dlq_metric touch_metrics
  refresh-Unchanged = record { after = λ w h. h }

  acquire-Unchanged : Keeps (Unchanged v) (acquire_dlq_replay_lock env)
  unfolding acquire_dlq_replay_lock
  acquire-Unchanged = search (keeps_rules, uuid4-Unchanged, store_lock-Unchanged) depth 9

  report-Unchanged :
      (s : String) (z : ℤ) (a b c : ℕ) (l : Bool) (n : ℕ)
      → Keeps (Unchanged v) (write_dlq_replay_report env s z a b c l n)
  unfolding write_dlq_replay_report
  report-Unchanged s z a b c l n = Keeps-modify _ (λ w h. h)

  release-Unchanged : (t : Uuid) → Keeps (Unchanged v) (release_dlq_replay_lock t)
  unfolding release_dlq_replay_lock
  release-Unchanged t = search (keeps_rules, store_lock-Unchanged) depth 9

  module _ (dry : env.config.dlq_replay_dry_run ≡ true) (parse_uuid : String → Option Uuid) where
    raw-Unchanged : (raw : RawEntry) → Keeps (Unchanged v) (replay_raw env parse_uuid raw)
    unfolding replay_raw
    raw-Unchanged (garbage s) = Keeps-pure _
    raw-Unchanged (encoded e) = rw dry (Keeps-pure (e ∷ [], 0))

    all-Unchanged :
        (entries : List RawEntry) → Keeps (Unchanged v) (replay_all env parse_uuid entries)
    unfolding replay_all
    all-Unchanged [] = Keeps-pure _
    all-Unchanged (raw ∷ entries) =
        let rest = all-Unchanged entries in search (keeps_rules, raw-Unchanged) depth 9

    batch-Unchanged :
        (z : ℤ) (limit : ℕ) → Keeps (Unchanged v) (replay_batch env parse_uuid z limit)
    unfolding replay_batch
    batch-Unchanged z limit =
        search
          (keeps_rules, all-Unchanged, refresh-Unchanged, touch_metrics-Unchanged, report-Unchanged)
          depth 12

    locked-Unchanged : (z : ℤ) (limit : ℕ) → Keeps (Unchanged v) (replay_locked env z limit)
    unfolding replay_locked
    locked-Unchanged z limit = search (keeps_rules, report-Unchanged) depth 9

    replay-Unchanged : (limit : Option ℤ) → Keeps (Unchanged v) (replay_dlq env parse_uuid limit)
    unfolding replay_dlq
    replay-Unchanged limit =
        search
          (keeps_rules, acquire-Unchanged, batch-Unchanged, locked-Unchanged, release-Unchanged)
          depth 12

-- A dry run of a replay leaves the queue, the tables, the tasks and the requests as they are.
pub dry_run-Unchanged :
    (env : Env) (parse_uuid : String → Option Uuid) (limit : Option ℤ) (w : World)
    → env.config.dlq_replay_dry_run ≡ true
    → Unchanged w (replay_dlq env parse_uuid limit w).1
dry_run-Unchanged env parse_uuid limit w dry =
    (replay-Unchanged w env dry parse_uuid limit).after w (refl, refl, refl, refl)
