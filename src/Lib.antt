-- ===== src/Lib.antt =====
-- Alerts from monitoring become incidents, and incidents become calls, messages and mails to the
-- people on duty. The API (main.py) takes events in, matches them against rules (engine.py) and
-- answers for the life of an incident; Celery workers (worker.py) dispatch an incident to the contacts
-- of the rule's group, deliver each notification over its provider with retries, a circuit breaker and
-- a rate limit, keep a dead-letter queue of failed tasks, and escalate what nobody takes up. The API
-- and the workers meet in PostgreSQL (models.py) and Redis, which World models as one state.
--
-- - Common: library names passed on, tests, lists, Python's texts, integers and exceptions.
-- - Models, World, Redis: models.py, the Redis keys and the settings of config.py. A UUID is its number
--   and stands for its text too; a time is in seconds. Each family of Redis keys is a field of Store.
-- - Action: a call as a function of the world to a result or an exception and the next world, with
--   the Python statements as combinators; Action/Keeps: an invariant's rule for each combinator,
--   Action/Gives: the same for what a call returns. Frame: calls that leave the tables alone.
-- - Database: rows by key, changes, the audit log. Metrics: `_touch_metrics` and what is built on it.
-- - Channel: the circuit breaker and the rate limit of worker.py; Channel/Circuit and Channel/Limits
--   are its theorems.
-- - Template: the messages (`_render_notification_template`). Providers: Twilio, SignalWire, Telegram
--   and Resend, whose answers are a parameter (Env.http).
-- - Delivery: `_send_notification_channel_impl`, with Delivery/Records (how an end is recorded) and
--   Delivery/Telegram (dedupe key, limit of a service, digest); Delivery/Terminal, Delivery/Ended,
--   Delivery/Retry, Delivery/Redelivery and Delivery/Repeat are its theorems.
-- - Tasks: the three channel tasks and their retry handler; Tasks/Policy is the policy of a rule, with
--   the validator of schemas.py.
-- - Dispatch: `dispatch_incident`. Escalation: `_handle_escalation_impl` and
--   `stale_incident_sweeper`; Escalation/Progress joins the calls on incidents to a step relation,
--   Escalation/Accepted has the validator of a policy in schemas.py.
-- - Lifecycle: `acknowledge_incident`, `resolve_incident`, `handle_voice_callback` and the documents of
--   a call; Lifecycle/Signed sets the check of the signature before the callback. Engine:
--   `evaluate_rules` and `_simulate_rule`. Ingest: `ingest_event` and `is_duplicate`.
-- - Dlq: push, trim, prune, lock and replay of the dead-letter queue; Dlq/Failures: the handler of
--   failed tasks.
-- - Directory: the endpoints of main.py for contacts, groups, memberships and rules, with the guards
--   of their deletions; Directory/Integrity joins them to a step relation, Directory/Membership sets a
--   relation beside the table of memberships, and Directory/Listing a client that reads all pages.
-- - Classifier: classifier.py, a module for each part of it; its regular expressions (Classifier/Words)
--   are functions on ASCII text, and the rules for a line stand in Classifier/Lines.
-- - Ops: the endpoints of main.py for operations: SLA, alerts, queues, dead letters, integration
--   status, readiness, incidents and their timelines, and the signatures of webhooks.
-- - Pull: `_fetch_oasis_radar_entries` and `pull_oasis_radar` of main.py, and of worker.py
--   `_pull_oasis_radar_impl`, `_pull_sentry_impl`, `_pull_langfuse_impl` and the digest of suppressed
--   messages (`_send_telegram_digest_impl`). What a pull takes in goes through Ingest.
-- - Tests: settings and rows, and each theorem at some of them.
--
-- Loops are structural recursion over the rows and entries that the code has read, so no fuel is
-- needed. Within one call the clock stands still, and Redis and PostgreSQL answer; a lifetime that is
-- given to Redis is positive. A call is one step, and calls run one after the other: of two calls that
-- overlap, nothing is said here. The source locks the row that it works on in the delivery, its records,
-- the escalation and the voice callback, and locks none where it acknowledges or resolves an incident,
-- sweeps, or looks for a notification before it adds one. `uuid.uuid4()` draws a number that no earlier
-- draw gave. Letters change case as in ASCII. JSON values have no fractions.
--
-- JSON's parser, floats, HMAC and the services are parameters (Env); a rate is a pair of numbers, and
-- a comparison of rates multiplies out. The loop over the three attempts of a fetch recurses on the
-- attempts that are left.
--
-- Not modelled: `notify_event` and `notify_exception` (observability.py), which change nothing that
-- the program reads; the export of a timeline as text, the health endpoints and the exporter of metrics
-- in main.py, which format and probe; what the responses of the operations endpoints carry for their
-- reader alone (`message`, `threshold` and `metadata` of an alert, `details` of a check, `evidence`);
-- migrations and scripts. An entry of the dead-letter queue stands for its JSON text.
pub mod Common
pub mod Models
pub mod Redis
pub mod World
pub mod Action
pub mod Database
pub mod Metrics
pub mod Channel
pub mod Template
pub mod Providers
pub mod Frame
pub mod Delivery
pub mod Tasks
pub mod Lifecycle
pub mod Dispatch
pub mod Escalation
pub mod Engine
pub mod Ingest
pub mod Dlq
pub mod Directory
pub mod Classifier
pub mod Ops
pub mod Pull
pub mod Tests
