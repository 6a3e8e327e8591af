-- ===== src/Pull/Totals.antt =====
-- main.py: the counts that `pull_oasis_radar` reports.
use loboguara.Common.{ℕ, ◌+◌, ◌≡◌, refl, arith, List, [], ◌∷◌, length, Option, String, ok}
use mathlib.Core.Path.{subst}
use loboguara.World.{World, Env}
use loboguara.Action.Gives.{
  Gives, Returned, Gives-pure, Gives-then, Gives-bind, Gives-chain, Gives-if,
}
use loboguara.Pull.Radar.{RadarEntry}
use loboguara.Pull.Entries.{Counts, ingest_entries}
use loboguara.Pull.RadarPull.{PullResult, pull_entries, pull_oasis_radar, no_counts}

-- the counts of the loop
abbrev AddUp : ℕ → Counts → Type 0
AddUp n counts = counts.accepted + counts.duplicates ≡ n

ingest_entries-AddUp :
    (env : Env) (entries : List RadarEntry) (counts : Counts) (n : ℕ)
    → counts.accepted + counts.duplicates + length entries ≡ n
    → Gives (AddUp n) (ingest_entries env entries counts)
unfolding ingest_entries
ingest_entries-AddUp env [] counts n h = Gives-pure (AddUp n) counts (omega arith)
ingest_entries-AddUp env (e ∷ entries) counts n h = Gives-bind (AddUp n) _ _ λ seen.
    Gives-if (AddUp n) seen _ _ (ingest_entries-AddUp env entries _ n (omega arith))
      (Gives-then (AddUp n) _ _ (ingest_entries-AddUp env entries _ n (omega arith)))

abbrev pub Balanced : PullResult → Type 0
Balanced r = r.accepted + r.duplicates ≡ r.fetched

pull_entries-Balanced :
    (env : Env) (entries : List RadarEntry) → Gives Balanced (pull_entries env entries)
unfolding pull_entries
pull_entries-Balanced env [] =
    Gives-then Balanced _ _ (Gives-then Balanced _ _ (Gives-pure Balanced _ refl))
pull_entries-Balanced env (e ∷ entries) =
    Gives-chain Balanced (AddUp (length (e ∷ entries))) _ _
      (ingest_entries-AddUp env (e ∷ entries) no_counts _ (omega arith))
      (λ counts h. Gives-then Balanced _ _ (Gives-then Balanced _ _ (Gives-pure Balanced _ h)))

pull_oasis_radar-Balanced :
    (env : Env) (lookback_seconds limit : ℕ) (header : Option String)
    → Gives Balanced (pull_oasis_radar env lookback_seconds limit header)
unfolding pull_oasis_radar
pull_oasis_radar-Balanced env lookback_seconds limit header = Gives-then Balanced _ _ (
    Gives-then Balanced _ _
      (Gives-bind Balanced _ _ (λ entries. pull_entries-Balanced env entries)))

-- A pull of Loki's entries that returns reports as many accepted and duplicate entries as it fetched.
pub pull_oasis_radar_balance :
    (env : Env) (lookback_seconds limit : ℕ) (header : Option String) (w : World)
    (result : PullResult)
    → (pull_oasis_radar env lookback_seconds limit header w).0 ≡ ok result
    → result.accepted + result.duplicates ≡ result.fetched
pull_oasis_radar_balance env lookback_seconds limit header w result h =
    subst (Returned Balanced) h ((pull_oasis_radar-Balanced env lookback_seconds limit header).of w)
