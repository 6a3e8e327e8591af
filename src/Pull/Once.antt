-- ===== src/Pull/Once.antt =====
-- main.py and worker.py: the three pulls, and the unique constraint on incidents (models.py).
use loboguara.Common.{ℕ, ◌≤◌, Option, String, keep, length}
use loboguara.World.{World, Env}
use loboguara.Frame.{InDb}
use loboguara.Ingest.{is_from}
use loboguara.Ingest.Once.{AtMostOne, ingest-AtMostOne}
use loboguara.Pull.RadarPull.{pull_oasis_radar}
use loboguara.Pull.Sentry.{pull_sentry}
use loboguara.Pull.Langfuse.{pull_langfuse}
use loboguara.Pull.Frame.{pull_radar-InDb, pull_sentry-InDb, pull_langfuse-InDb}

-- One pull of one of the three services.
pub data Pulled : World → World → Type 0 where
  from_radar :
      (env : Env) (lookback limit : ℕ) (header : Option String) (w : World)
      → Pulled w (pull_oasis_radar env lookback limit header w).1
  from_sentry : (env : Env) (w : World) → Pulled w (pull_sentry env w).1
  from_langfuse : (env : Env) (w : World) → Pulled w (pull_langfuse env w).1

Pulled-AtMostOne :
    (s e : String) (v w : World) → Pulled v w → InDb (AtMostOne s e) v → InDb (AtMostOne s e) w
Pulled-AtMostOne s e v w (from_radar env lookback limit header _) h =
    (pull_radar-InDb (ingest-AtMostOne s e) env lookback limit header).after v h
Pulled-AtMostOne s e v w (from_sentry env _) h =
    (pull_sentry-InDb (ingest-AtMostOne s e) env).after v h
Pulled-AtMostOne s e v w (from_langfuse env _) h =
    (pull_langfuse-InDb (ingest-AtMostOne s e) env).after v h

-- If each event of each source has at most one incident, it has at most one after a pull of Loki, Sentry
-- or Langfuse, whatever the services answer and whether or not the pull raises.
pub pull_at_most_one :
    (v w : World) (source external_event_id : String)
    → Pulled v w
    → length (keep (is_from source external_event_id) v.incidents) ≤ 1
    → length (keep (is_from source external_event_id) w.incidents) ≤ 1
pull_at_most_one v w source external_event_id pull h =
    (Pulled-AtMostOne source external_event_id v w pull (record { holds = h })).holds
