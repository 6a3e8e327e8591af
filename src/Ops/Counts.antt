-- ===== src/Ops/Counts.antt =====
-- main.py: the counts of `_calculate_sla_metrics`.
use loboguara.Common.{
  ℕ, ◌+◌, ◌*◌, ◌-◌, ◌≤◌, ◌≡◌, refl, arith, Bool, not, is_some, List, [], ◌∷◌, ◌&&◌, keep, map,
  length, ◌==◌, ◌∙◌,
}
use loboguara.Models.{Incident, IncidentStatus, opened, acknowledged, resolved, escalated}
use loboguara.World.{World}
use loboguara.Ops.Sla.{is_since, has_status, status_rank, count_by_status, calculate_sla_metrics}

-- the sum of the counts
abbrev pub sum_counts : List (IncidentStatus × ℕ) → ℕ
sum_counts [] = 0
sum_counts (e ∷ counts) = e.1 + sum_counts counts

nonzero :
    (counts : List (IncidentStatus × ℕ))
    → sum_counts (keep (λ (e : IncidentStatus × ℕ). not (e.1 == 0)) counts) ≡ sum_counts counts
nonzero [] = refl
nonzero (e ∷ counts) = ground (arith, nonzero counts)

rank_bound : (s : IncidentStatus) → status_rank s ≤ 3
rank_bound opened = omega arith
rank_bound acknowledged = omega arith
rank_bound resolved = omega arith
rank_bound escalated = omega arith

four_statuses :
    (rows : List Incident)
    → length (keep (has_status opened) rows)
        + (length (keep (has_status acknowledged) rows)
            + (length (keep (has_status resolved) rows)
                + (length (keep (has_status escalated) rows) + 0)))
      ≡ length rows
four_statuses [] = omega arith
four_statuses (r ∷ rows) = ground (arith, four_statuses rows, rank_bound r.status)

fewer :
    (p q : Incident → Bool) (rows : List Incident)
    → length (keep (λ r. p r && q r) rows) ≤ length (keep p rows)
fewer p q [] = omega arith
fewer p q (r ∷ rows) = ground (arith, fewer p q rows)

-- The acknowledged incidents of the window are at most all of it, and the counts by status add up to all
-- of it.
pub sla_counts :
    (hours : ℕ) (w : World)
    → ((calculate_sla_metrics hours w).acknowledged_incidents
        ≤ (calculate_sla_metrics hours w).total_incidents)
      × (sum_counts (calculate_sla_metrics hours w).incidents_by_status
          ≡ (calculate_sla_metrics hours w).total_incidents)
unfolding calculate_sla_metrics count_by_status
sla_counts hours w =
    let rows = keep (is_since (w.now - hours * 3600)) w.incidents in
    let all_statuses = opened ∷ acknowledged ∷ resolved ∷ escalated ∷ [] in
    (
      fewer (is_since (w.now - hours * 3600)) (λ r. is_some r.acknowledged_at) w.incidents,
      nonzero (map (λ s. (s, length (keep (has_status s) rows))) all_statuses) ∙ four_statuses rows,
    )
