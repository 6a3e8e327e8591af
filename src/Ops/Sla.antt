-- ===== src/Ops/Sla.antt =====
-- main.py: `_calculate_sla_metrics`. Rates and means are fractions.
use loboguara.Common.{
  ℕ, ◌+◌, ◌-◌, ◌*◌, Bool, not, Option, none, some, is_some, List, [], ◌∷◌, ◌&&◌, keep, map, length,
  leb, ◌==◌, get_or,
}
use loboguara.Models.{Time, Incident, IncidentStatus, opened, acknowledged, resolved, escalated}
use loboguara.World.{World}

abbrev pub status_rank : IncidentStatus → ℕ
status_rank opened = 0
status_rank acknowledged = 1
status_rank resolved = 2
status_rank escalated = 3

abbrev pub has_status : IncidentStatus → Incident → Bool
has_status s r = status_rank r.status == status_rank s

-- `created_at >= window_start`
abbrev pub is_since : Time → Incident → Bool
is_since start r = leb start r.created_at

-- the sum of the times, and how many they are
pub record MeanTime : Type 0 where
  pub acknowledged_sum : ℕ
  pub created_sum : ℕ
  pub count : ℕ

-- schemas.py: `SLAMetricsResponse`; the rate is acknowledged incidents over all, or 0 where there are
-- none, and the mean time is the difference of the sums over the count
pub record SlaMetrics : Type 0 where
  pub hours : ℕ
  pub window_start : Time
  pub window_end : Time
  pub total_incidents : ℕ
  pub acknowledged_incidents : ℕ
  pub average_tta : Option MeanTime
  pub incidents_by_status : List (IncidentStatus × ℕ)

sum_of : (Incident → ℕ) → List Incident → ℕ
sum_of f [] = 0
sum_of f (r ∷ rows) = f r + sum_of f rows

-- `AVG(...)`, which is NULL on no rows
mean_time : List Incident → Option MeanTime
mean_time [] = none
mean_time (r ∷ rows) = some (record {
  acknowledged_sum = sum_of (λ i. get_or i.acknowledged_at 0) (r ∷ rows);
  created_sum = sum_of (λ i. i.created_at) (r ∷ rows);
  count = length (r ∷ rows);
})

-- `GROUP BY status`
unfoldable pub count_by_status : List Incident → List (IncidentStatus × ℕ)
count_by_status rows =
    keep (λ (e : IncidentStatus × ℕ). not (e.1 == 0))
      (map (λ s. (s, length (keep (has_status s) rows)))
        (opened ∷ acknowledged ∷ resolved ∷ escalated ∷ []))

-- `_calculate_sla_metrics`
unfoldable pub calculate_sla_metrics : ℕ → World → SlaMetrics
unfolding sum_of mean_time
calculate_sla_metrics hours w =
    let start = w.now - hours * 3600 in
    let rows = keep (is_since start) w.incidents in
    let answered =
      keep (λ (r : Incident). is_since start r && is_some r.acknowledged_at) w.incidents in
    record {
      hours = hours;
      window_start = start;
      window_end = w.now;
      total_incidents = length rows;
      acknowledged_incidents = length answered;
      average_tta = mean_time answered;
      incidents_by_status = count_by_status rows;
    }
