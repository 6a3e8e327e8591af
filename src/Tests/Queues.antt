-- ===== src/Tests/Queues.antt =====
-- The theorems on the dead-letter queue, the rules, the limits and the retries.
use loboguara.Common.{
  ℕ, suc, ◌*◌, min, ◌*◌, ◌+◌, ◌/◌, ◌≤◌, ◌≡◌, refl, ◌++◌, arith, String, true, Option, none, some,
  List, [], ◌∷◌, ok, max, length, All,
}
use loboguara.Common.Int.{pos, pos_part}
use loboguara.Models.{Uuid, text, field, end, Rule}
use loboguara.Redis.{keep_last}
use loboguara.World.{World, encoded}
use loboguara.Action.{combinators}
use loboguara.Metrics.{touch_metrics, refresh_dlq_metric}
use loboguara.Dlq.{
  push_dlq_entry, prune_dlq, prune_queue, trim_queue, Pruned, bound_dlq_max_items, dlq_payload,
  bound_replay_limit, replay_dlq,
}
use loboguara.Escalation.{record_periodic_task_heartbeat}
use loboguara.Dlq.Queue.{push_keeps_newest, prune_counts}
use loboguara.Dlq.Replay.{replay_of_locked, dry_run-Unchanged, Unchanged}
use loboguara.Engine.{
  evaluate_rules, decide_rule, condition_matches, key_matches, both, regex_field, simulate_rule,
}
use loboguara.Engine.Matching.{
  evaluate_rules_first, evaluate_rules-none, simulate-agrees, IsFirstMatch, IsPassedOver,
}
use loboguara.Tasks.{retry_countdown}
use loboguara.Tasks.Countdown.{retry_countdown_bounds, retry_countdown_doubles, pause}
use loboguara.Template.{escape_telegram_markdown_v2}
use loboguara.Template.Escaping.{unescape, unescape-escape}
use loboguara.Tests.Worlds.{test_env, test_rule, world_with}

abbrev queue_world : World
queue_world = world_with [] []

push_keeps_newest_example :
    (push_dlq_entry test_env "voice_worker" (9 ∷ 8 ∷ []) [] "busy" queue_world).1.dlq
    ≡ keep_last
        (bound_dlq_max_items test_env none)
        (queue_world.dlq ++ encoded (dlq_payload "voice_worker" (9 ∷ 8 ∷ []) [] "busy" 1000) ∷ [])
push_keeps_newest_example =
    push_keeps_newest test_env "voice_worker" (9 ∷ 8 ∷ []) [] "busy" queue_world

abbrev pruned_one : Pruned
pruned_one = record { removed = 1; remaining = 2; max_items = 2 }

prune_runs : (prune_dlq test_env none queue_world).0 ≡ ok pruned_one
unfolding prune_dlq prune_queue trim_queue bound_dlq_max_items refresh_dlq_metric touch_metrics
    record_periodic_task_heartbeat combinators
prune_runs = refl

prune_counts_example :
    (pruned_one.removed + pruned_one.remaining ≡ length queue_world.dlq)
    × (pruned_one.remaining ≤ bound_dlq_max_items test_env none)
    × (pruned_one.remaining ≡ length (prune_dlq test_env none queue_world).1.dlq)
prune_counts_example = prune_counts test_env none queue_world pruned_one prune_runs

abbrev no_uuid : String → Option Uuid
no_uuid s = none

abbrev locked_world : World
locked_world = record queue_world {
  redis = record queue_world.redis {
    replay_lock = some (record { value = 77; expires = some 230 });
  };
}

replay_of_locked_example :
    ((replay_dlq test_env no_uuid none locked_world).0
      ≡ ok (record {
        status = "locked";
        replayed = 0;
        remaining = length locked_world.dlq;
        dry_run = test_env.config.dlq_replay_dry_run;
        limit = bound_replay_limit test_env none;
        candidates = none;
      }))
    × ((replay_dlq test_env no_uuid none locked_world).1.dlq ≡ locked_world.dlq)
    × ((replay_dlq test_env no_uuid none locked_world).1.db ≡ locked_world.db)
    × ((replay_dlq test_env no_uuid none locked_world).1.tasks ≡ locked_world.tasks)
    × ((replay_dlq test_env no_uuid none locked_world).1.requests ≡ locked_world.requests)
    × ((replay_dlq test_env no_uuid none locked_world).1.replay_lock ≡ locked_world.replay_lock)
replay_of_locked_example = replay_of_locked test_env no_uuid none locked_world 77 refl

dry_run-Unchanged_example :
    Unchanged queue_world (replay_dlq test_env no_uuid (some (pos 2)) queue_world).1
dry_run-Unchanged_example = dry_run-Unchanged test_env no_uuid (some (pos 2)) queue_world refl

abbrev other_rule : Rule
other_rule = record test_rule { id = 2; condition_json = ("source_regex", text "sonar") ∷ [] }

abbrev two_rules : List Rule
two_rules = other_rule ∷ test_rule ∷ []

rule_found :
    evaluate_rules test_env (field "source" (text "radar") end) two_rules ≡ ok (some test_rule)
unfolding evaluate_rules decide_rule condition_matches key_matches both regex_field
    loboguara.Models.entry
rule_found = refl

evaluate_rules_first_example :
    IsFirstMatch test_env (field "source" (text "radar") end) two_rules test_rule
evaluate_rules_first_example =
    evaluate_rules_first test_env (field "source" (text "radar") end) two_rules test_rule rule_found

no_rule_found : evaluate_rules test_env (field "source" (text "lidar") end) two_rules ≡ ok none
unfolding evaluate_rules decide_rule condition_matches key_matches both regex_field
    loboguara.Models.entry
no_rule_found = refl

evaluate_rules-none_example :
    All (IsPassedOver test_env (field "source" (text "lidar") end)) two_rules
evaluate_rules-none_example =
    evaluate_rules-none test_env (field "source" (text "lidar") end) two_rules no_rule_found

source_is_plain : regex_field "source" ≡ none
unfolding regex_field
source_is_plain = refl

simulate-agrees_example :
    condition_matches test_env (field "source" (text "lidar") end) test_rule.condition_json
    ≡ ok (simulate_rule test_env test_rule (field "source" (text "lidar") end))
simulate-agrees_example =
    simulate-agrees test_env test_rule (field "source" (text "lidar") end) (source_is_plain, tt)

retry_countdown_bounds_example :
    (1 ≤ pos_part (retry_countdown (pos 5) (pos 60) true 2 17))
    × (pos_part (retry_countdown (pos 5) (pos 60) true 2 17) ≤ 60 + max 1 (60 / 3))
retry_countdown_bounds_example = retry_countdown_bounds (pos 5) 60 true 2 17 (omega arith)

unescape-escape_example : unescape (escape_telegram_markdown_v2 "a_b\\c.") ≡ "a_b\\c."
unescape-escape_example = unescape-escape "a_b\\c."

retry_countdown_doubles_example :
    ((draw : ℕ) → pause 5 60 0 draw ≡ min 5 60)
    × ((retries before draw : ℕ)
        → pause 5 60 (suc retries) draw ≡ min (2 * pause 5 60 retries before) 60)
    × ((retries draw : ℕ) → 60 ≤ retries → pause 5 60 retries draw ≡ 60)
retry_countdown_doubles_example = retry_countdown_doubles 5 60 (omega arith) (omega arith)
