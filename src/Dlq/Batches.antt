-- ===== src/Dlq/Batches.antt =====
-- worker.py: how much of the dead-letter queue one run of `replay_dlq` takes.
use loboguara.Common.{ℕ, ◌≤◌, none, some, List, length}
use loboguara.World.{World}
use loboguara.Action.{Action}
use loboguara.Action.Gives.{Gives}
use loboguara.Dlq.{DlqEntry, Replayed}

-- no more than so many candidates and replayed entries
abbrev pub TakesAtMost : ℕ → Replayed → Type 0
TakesAtMost n r =
    (r.replayed ≤ n) × (elim r.candidates [ none ↦ 0 | some entries ↦ length entries ] ≤ n)

abbrev AtMost : ℕ → List DlqEntry × ℕ → Type 0
AtMost n counts = (length counts.0 ≤ n) × (counts.1 ≤ n)
