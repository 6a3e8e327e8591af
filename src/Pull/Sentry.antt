-- ===== src/Pull/Sentry.antt =====
-- worker.py: `_pull_sentry_impl`.
use loboguara.Common.{
  ℕ, ◌+◌, max, String, not, ◌&&◌, Option, none, some, List, [], ◌∷◌, ltb, leb, str_eq, get_or,
  Result, ok, err, json_error, type_error, http_error, if◌then◌else◌,
}
use loboguara.Common.Int.{ℤ, pos, pos_part, ltb_ℤ, leb_ℤ}
use loboguara.Common.Text.{◌⧺◌, lower, upper, strip}
use loboguara.Models.{Value, Items, Fields, null, text, array, object, nil, cons, entry, py_int}
use loboguara.World.{World, Env, HttpReply, reply, failed}
use loboguara.Action.{Action, pure, gets, lift, modify, when, ◌>>=◌, ◌>>◌}
use loboguara.Metrics.{set_redis}
use loboguara.Providers.{http_call, truthy, truthy_entry}
use loboguara.Ingest.{Event, ingest_event}

-- `raise_for_status` and `json()` of a reply
unfoldable pub json_reply : Env → HttpReply → Result Value
json_reply env (failed e) = err e
json_reply env (reply status body parsed) =
    if leb 200 status && ltb status 300
    then elim (env.json_loads body) [ none ↦ err json_error | some v ↦ ok v ]
    else err (http_error status body)

-- `httpx.get(url, ...)` up to its JSON
unfoldable pub get_json : Env → (url authorization : String) → Action Value
get_json env url authorization = do
  answer ← http_call env (record { url = url; authorization = authorization; body = [] })
  lift (json_reply env answer)

-- `_severity_from_sentry_level`
unfoldable pub severity_from_sentry_level : Env → Option Value → String
severity_from_sentry_level env level =
    let normalized = lower (
      strip (elim level [
        | none ↦ "error"
        | some v ↦ if truthy v then env.value_text v else "error"
      ])) in
    if str_eq normalized "warning"
    then "WARN"
    else if str_eq (upper normalized) ""
    then "ERROR"
    else upper normalized

-- the slugs of the projects
slugs_of : Env → Items → List String
slugs_of env nil = []
slugs_of env (cons v items) =
    let rest = slugs_of env items in
    elim v [
      | object item ↦ elim (truthy_entry "slug" item) [
        | none ↦ rest
        | some slug ↦
            let name = strip (env.value_text slug) in if str_eq name "" then rest else name ∷ rest
      ]
      | _ ↦ rest
    ]

projects_of : Env → Value → List String
projects_of env (array items) = slugs_of env items
projects_of env _ = []

abbrev pub sentry_authorization : Env → String
sentry_authorization env = "Bearer " ⧺ env.config.sentry_api_token

-- `_list_sentry_projects`
unfoldable pub list_sentry_projects : Env → Action (List String)
unfolding projects_of slugs_of
list_sentry_projects env = do
  payload ←
      get_json env
        ("https://sentry.io/api/0/organizations/" ⧺ env.config.sentry_org_slug ⧺ "/projects/")
        (sentry_authorization env)
  pure (projects_of env payload)

-- `int(str(issue.get("id") or 0))`
unfoldable pub issue_id : Env → Fields → Result ℤ
issue_id env issue = elim (truthy_entry "id" issue) [
  | none ↦ ok (pos 0)
  | some v ↦ py_int (text (env.value_text v))
]

-- an issue beside its id
abbrev pub Issue : Type 0
Issue = ℤ × Fields

with_id : Result ℤ → Fields → Result (List Issue) → Result (List Issue)
with_id (ok z) issue (ok issues) = ok ((z, issue) ∷ issues)
with_id (ok z) issue (err e) = err e
with_id (err e) issue _ = err e

-- the keys of `sorted`, which reads every issue first
identified : Env → Items → Result (List Issue)
identified env nil = ok []
identified env (cons v items) =
    let rest = identified env items in
    elim v [ object issue ↦ with_id (issue_id env issue) issue rest | _ ↦ err (type_error "get") ]

insert_issue : Issue → List Issue → List Issue
insert_issue x [] = x ∷ []
insert_issue x (y ∷ ys) =
    let rest = insert_issue x ys in if ltb_ℤ y.0 x.0 then y ∷ rest else x ∷ y ∷ ys

-- `sorted(issues, key=...)`
unfoldable pub sort_issues : List Issue → List Issue
unfolding insert_issue
sort_issues [] = []
sort_issues (x ∷ xs) = insert_issue x (sort_issues xs)

-- the issues of a project; an answer that is no list is passed over
unfoldable pub issues_of : Env → Value → Result (List Issue)
unfolding identified with_id
issues_of env (array items) = identified env items
issues_of env _ = ok []

abbrev pub entry_or : Env → String → Fields → String → String
entry_or env key fs default = elim (truthy_entry key fs) [
  | none ↦ default
  | some v ↦ env.value_text v
]

-- `str(((issue.get("project") or {}).get("slug")) or project)`
project_slug : Env → Fields → String → String
project_slug env issue project = elim (truthy_entry "project" issue) [
  | some (object fs) ↦ entry_or env "slug" fs project
  | _ ↦ project
]

-- the event of an issue
unfoldable pub issue_event : Env → String → Fields → Event
unfolding project_slug
issue_event env project issue =
    let id = env.value_text (get_or (entry "id" issue) null) in
    record {
      source = "sentry";
      external_event_id = "sentry-" ⧺ id;
      severity = severity_from_sentry_level env (entry "level" issue);
      service = some (project_slug env issue project);
      title = entry_or env "title" issue "Sentry issue";
      message = some (entry_or env "culprit" issue (entry_or env "shortId" issue ""));
      payload_json = object issue;
      schedule_at = none;
      dedupe_key = some ("sentry:" ⧺ id);
    }

-- what the loops count: fetched, ingested and the latest id
pub record Progress : Type 0 where
  pub fetched : ℕ
  pub ingested : ℕ
  pub max_seen : ℕ

-- the loop over the issues of a project
unfoldable pub ingest_issues :
    Env → String → (last_seen : ℕ) → List Issue → Progress → Action Progress
ingest_issues env project last_seen [] p = pure p
ingest_issues env project last_seen ((z, issue) ∷ issues) p =
    if leb_ℤ z (pos last_seen)
    then ingest_issues env project last_seen issues
        (record { fetched = p.fetched + 1; ingested = p.ingested; max_seen = p.max_seen })
    else do
      ingest_event env (issue_event env project issue)
      ingest_issues env project last_seen issues (record {
        fetched = p.fetched + 1;
        ingested = p.ingested + 1;
        max_seen = max p.max_seen (pos_part z);
      })

-- the loop over the projects
unfoldable pub pull_projects : Env → (last_seen : ℕ) → List String → Progress → Action Progress
pull_projects env last_seen [] p = pure p
pull_projects env last_seen (project ∷ projects) p = do
  payload ←
      get_json env
        ("https://sentry.io/api/0/projects/"
          ⧺ env.config.sentry_org_slug
          ⧺ "/"
          ⧺ project
          ⧺ "/issues/?"
          ⧺ env.urlencode (("query", "is:unresolved") ∷ ("sort", "date") ∷ ("limit", "25") ∷ []))
        (sentry_authorization env)
  issues ← lift (issues_of env payload)
  next ← ingest_issues env project last_seen (sort_issues issues) p
  pull_projects env last_seen projects next

-- `redis_conn.set(...)` behind its test
unfoldable pub advance_sentry_cursor : (last_seen max_seen : ℕ) → Action (Unit {0})
advance_sentry_cursor last_seen max_seen =
    when (ltb last_seen max_seen)
      (modify λ w. set_redis w (record w.redis { sentry_cursor = some max_seen }))

-- the end of a pull
pub data SentryPull : Type 0 where
  sentry_disabled missing_api_token : SentryPull
  sentry_pulled : Progress → SentryPull

-- behind the settings
unfoldable pub pull_sentry_from : Env → (last_seen : ℕ) → Action SentryPull
pull_sentry_from env last_seen = do
  projects ← list_sentry_projects env
  p ←
      pull_projects env last_seen projects
        (record { fetched = 0; ingested = 0; max_seen = last_seen })
  advance_sentry_cursor last_seen p.max_seen
  pure (sentry_pulled p)

abbrev pub sentry_cursor_of : World → ℕ
sentry_cursor_of w = get_or w.sentry_cursor 0

unfoldable pub pull_sentry_now : Env → Action SentryPull
pull_sentry_now env = do last_seen ← gets sentry_cursor_of; pull_sentry_from env last_seen

-- `_pull_sentry_impl`
unfoldable pub pull_sentry : Env → Action SentryPull
pull_sentry env =
    if not env.config.sentry_pull_enabled
    then pure sentry_disabled
    else if str_eq (strip env.config.sentry_api_token) ""
    then pure missing_api_token
    else pull_sentry_now env
