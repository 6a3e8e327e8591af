-- ===== src/Pull/Frame.antt =====
-- The rules for a pull of Loki, Sentry or Langfuse, of a property of the tables that ingestion keeps.
use loboguara.Common.{
  ℕ, zero, suc, arith, List, [], ◌∷◌, Option, String, Exception, http_error, url_error,
}
use loboguara.Models.{Items, nil, cons, object, Mapping}
use loboguara.World.{Db, Env, HttpRequest, HttpReply, reply, failed}
use loboguara.Action.{Action}
use loboguara.Action.Keeps.{Keeps, Keeps-pure, Keeps-modify, Keeps-when, keeps_rules}
use loboguara.Frame.{InDb, http_call-InDb}
use loboguara.Ingest.{Event, ingest_event, is_duplicate}
use loboguara.Directory.Paging.{validate_ops_limit}
use loboguara.Ops.Guards.{require_admin_token}
use loboguara.Pull.Radar.{RadarEntry, attempts, after_attempt, fetch_oasis_radar_entries}
use loboguara.Pull.Entries.{Counts, ingest_entries}
use loboguara.Pull.RadarPull.{
  edit_metrics, note_failure, fail_pull, set_radar_cursor, note_success, pull_entries,
  pull_oasis_radar,
}
use loboguara.Pull.Sentry.{
  Issue, Progress, get_json, list_sentry_projects, ingest_issues, pull_projects,
  advance_sentry_cursor, pull_sentry_now, pull_sentry_from, pull_sentry,
}
use loboguara.Pull.Langfuse.{
  ingest_observations, set_langfuse_cursor, pull_langfuse_since, pull_langfuse,
}

module _ {Q : Db → Type 0}
    (ingest-InDb : (env : Env) (event : Event) → Keeps (InDb Q) (ingest_event env event)) where
  require-InDb :
      (env : Env) (header : Option String) → Keeps (InDb Q) (require_admin_token env header)
  unfolding require_admin_token
  require-InDb env header = search (keeps_rules) depth 9

  validate-InDb : (env : Env) (limit : ℕ) → Keeps (InDb Q) (validate_ops_limit env limit)
  unfolding validate_ops_limit
  validate-InDb env limit = search (keeps_rules) depth 6

  is_duplicate-InDb : (k : String) (n : ℕ) → Keeps (InDb Q) (is_duplicate k n)
  unfolding is_duplicate
  is_duplicate-InDb k n = record { after = λ w h. record { holds = ground (arith, h.holds) } }

  edit_metrics-InDb : (f : Mapping → Mapping) → Keeps (InDb Q) (edit_metrics f)
  unfolding edit_metrics
  edit_metrics-InDb f = Keeps-modify _ λ w h. record { holds = h.holds }

  after_attempt-InDb :
      (answer : HttpReply) (again : Action String)
      → Keeps (InDb Q) again
      → Keeps (InDb Q) (after_attempt answer again)
  unfolding after_attempt
  after_attempt-InDb (reply a b c) again h = Keeps-pure b
  after_attempt-InDb (failed x) again h = h

  attempts-InDb :
      (env : Env) (request : HttpRequest) (n : ℕ) → Keeps (InDb Q) (attempts env request n)
  unfolding attempts
  attempts-InDb env request zero = search (keeps_rules, http_call-InDb) depth 9
  attempts-InDb env request (suc n) =
      let again = attempts-InDb env request n in
      search (keeps_rules, http_call-InDb, after_attempt-InDb) depth 9

  note_failure-InDb : (status : String) → Keeps (InDb Q) (note_failure status)
  unfolding note_failure
  note_failure-InDb status = search (keeps_rules, edit_metrics-InDb) depth 9

  fetch-InDb :
      (env : Env) (query : String) (lookback limit : ℕ)
      → Keeps (InDb Q) (fetch_oasis_radar_entries env query lookback limit)
  unfolding fetch_oasis_radar_entries
  fetch-InDb env query lookback limit = search (keeps_rules, attempts-InDb) depth 12

  ingest_entries-InDb :
      (env : Env) (entries : List RadarEntry) (counts : Counts)
      → Keeps (InDb Q) (ingest_entries env entries counts)
  unfolding ingest_entries
  ingest_entries-InDb env [] counts = Keeps-pure counts
  ingest_entries-InDb env (x ∷ entries) counts =
      let rest = ingest_entries-InDb env entries in
      search (keeps_rules, is_duplicate-InDb, ingest-InDb) depth 12

  set_cursor-InDb : (n : ℕ) → Keeps (InDb Q) (set_radar_cursor n)
  unfolding set_radar_cursor
  set_cursor-InDb n = Keeps-modify _ λ w h. record { holds = h.holds }

  note_success-InDb : (n : ℕ) (counts : Counts) → Keeps (InDb Q) (note_success n counts)
  unfolding note_success
  note_success-InDb n counts = search (keeps_rules, edit_metrics-InDb) depth 9

  pull_entries-InDb :
      (env : Env) (entries : List RadarEntry) → Keeps (InDb Q) (pull_entries env entries)
  unfolding pull_entries
  pull_entries-InDb env [] = search (keeps_rules, edit_metrics-InDb) depth 9
  pull_entries-InDb env (x ∷ entries) =
      search (keeps_rules, ingest_entries-InDb, set_cursor-InDb, note_success-InDb) depth 12

  fail_pull-InDb : (x : Exception) → Keeps (InDb Q) (fail_pull x)
  unfolding fail_pull
  fail_pull-InDb (http_error n b) = search (keeps_rules, note_failure-InDb) depth 9
  fail_pull-InDb (url_error b) = search (keeps_rules, note_failure-InDb) depth 9
  fail_pull-InDb _ = search (keeps_rules, note_failure-InDb) depth 9

  pub pull_radar-InDb :
      (env : Env) (lookback limit : ℕ) (header : Option String)
      → Keeps (InDb Q) (pull_oasis_radar env lookback limit header)
  unfolding pull_oasis_radar
  pull_radar-InDb env lookback limit header =
      search
        (keeps_rules, require-InDb, validate-InDb, fetch-InDb, fail_pull-InDb, pull_entries-InDb)
        depth 12

  get_json-InDb :
      (env : Env) (url authorization : String) → Keeps (InDb Q) (get_json env url authorization)
  unfolding get_json
  get_json-InDb env url authorization = search (keeps_rules, http_call-InDb) depth 9

  projects-InDb : (env : Env) → Keeps (InDb Q) (list_sentry_projects env)
  unfolding list_sentry_projects
  projects-InDb env = search (keeps_rules, get_json-InDb) depth 9

  ingest_issues-InDb :
      (env : Env) (project : String) (last : ℕ) (issues : List Issue) (p : Progress)
      → Keeps (InDb Q) (ingest_issues env project last issues p)
  unfolding ingest_issues
  ingest_issues-InDb env project last [] p = Keeps-pure p
  ingest_issues-InDb env project last (x ∷ issues) p =
      let rest = ingest_issues-InDb env project last issues in
      search (keeps_rules, ingest-InDb) depth 12

  pull_projects-InDb :
      (env : Env) (last : ℕ) (projects : List String) (p : Progress)
      → Keeps (InDb Q) (pull_projects env last projects p)
  unfolding pull_projects
  pull_projects-InDb env last [] p = Keeps-pure p
  pull_projects-InDb env last (x ∷ projects) p =
      let rest = pull_projects-InDb env last projects in
      search (keeps_rules, get_json-InDb, ingest_issues-InDb) depth 12

  advance-InDb : (last latest : ℕ) → Keeps (InDb Q) (advance_sentry_cursor last latest)
  unfolding advance_sentry_cursor
  advance-InDb last latest = Keeps-when _ _ (Keeps-modify _ (λ w h. record { holds = h.holds }))

  pub pull_sentry-InDb : (env : Env) → Keeps (InDb Q) (pull_sentry env)
  unfolding pull_sentry pull_sentry_now pull_sentry_from
  pull_sentry-InDb env =
      search (keeps_rules, projects-InDb, pull_projects-InDb, advance-InDb) depth 14

  observations-InDb :
      (env : Env) (items : Items) (n : ℕ) → Keeps (InDb Q) (ingest_observations env items n)
  unfolding ingest_observations
  observations-InDb env nil n = Keeps-pure n
  observations-InDb env (cons (object obs) items) n =
      let rest = observations-InDb env items in search (keeps_rules, ingest-InDb) depth 12
  observations-InDb env (cons _ items) n = observations-InDb env items n

  langfuse_cursor-InDb : (t : ℕ) → Keeps (InDb Q) (set_langfuse_cursor t)
  unfolding set_langfuse_cursor
  langfuse_cursor-InDb t = Keeps-modify _ λ w h. record { holds = h.holds }

  pub pull_langfuse-InDb : (env : Env) → Keeps (InDb Q) (pull_langfuse env)
  unfolding pull_langfuse pull_langfuse_since
  pull_langfuse-InDb env =
      search (keeps_rules, get_json-InDb, observations-InDb, langfuse_cursor-InDb) depth 14
