-- ===== src/Tests/Deliveries.antt =====
-- The theorems on deliveries, circuits and limits, at a few rows.
use mathlib.Core.Option
use loboguara.Common.{
  ℕ, ◌+◌, ◌≤◌, ◌<◌, ◌≡◌, ◌≢◌, refl, arith, String, true, false, Option, none, some, List, [], ◌∷◌,
  ok, err, leb, ltb, min, ◌⊎◌, length, url_error, runtime_error, Exception,
}
use loboguara.Common.Int.{pos}
use loboguara.Models.{
  field, end, boolean, integer, object, opened, Notification, pending, sent, delivered, email,
  telegram, voice,
}
use loboguara.World.{World, Env, failed as no_reply, reply as http_reply}
use loboguara.Action.{combinators}
use loboguara.Database.{notification_by_id}
use loboguara.Channel.{
  channel_is_circuit_open, channel_rate_limit_exceeded, count_send, open_channel_circuit,
  record_channel_failure, rate_limit_bucket,
}
use loboguara.Channel.Circuit.{
  fail_times, failure_count, circuit_opens_at_threshold, circuit_open_until,
  record_channel_failure_ne,
}
use loboguara.Channel.Limits.{admitted, rate_limit_exact}
use loboguara.Delivery.{
  send_notification_channel, already_terminal, sent_now, suppressed_duplicate, Job, send_telegram,
  send_telegram_once, send_telegram_unless_limited, send_within_limit, send_on_channel, send_branch,
  matched_rule,
}
use loboguara.Dlq.Failures.{on_task_failure}
use loboguara.Dlq.Failures.Records.{final_failure_keeps_ended}
use loboguara.Delivery.Ended.{send_keeps_ended, HasStatus}
use loboguara.Delivery.Redelivery.{IsHeldBack, retry_window, telegram_retry_suppressed}
use loboguara.Delivery.Telegram.{
  telegram_notification_dedupe_window, claim_dedupe_key, telegram_service_rate_limit_state,
}
use loboguara.Metrics.{touch_metrics}
use loboguara.Delivery.Repeat.{sent_at_most_once}
use loboguara.Providers.{send_telegram_via_bot_api, http_call}
use loboguara.Tests.Worlds.{test_env, row_of, sending, world_with}

abbrev delivery_world : World
delivery_world =
    world_with (row_of 7 opened ∷ []) (sending 9 sent email ∷ sending 10 pending telegram ∷ [])

abbrev answering : Env
answering = record test_env {
  http = λ n request. http_reply 200 "" (
      some (
        object (
          field "ok" (boolean true)
            (field "result" (object (field "message_id" (integer (pos 5)) end)) end))));
}

telegram_sends : (send_notification_channel answering 10 99 telegram delivery_world).0 ≡ ok sent_now
unfolding send_notification_channel send_within_limit send_on_channel send_branch send_telegram
    send_telegram_once send_telegram_unless_limited send_telegram_via_bot_api claim_dedupe_key
    telegram_service_rate_limit_state channel_is_circuit_open channel_rate_limit_exceeded count_send
    touch_metrics http_call combinators loboguara.Common.Text.strip loboguara.Common.Text.lstrip
    loboguara.Providers.fields_of loboguara.Providers.truthy_entry loboguara.Models.entry
    loboguara.Delivery.finish_send loboguara.Delivery.mark_notification_sent
    loboguara.Delivery.unless_terminal loboguara.Database.update_notification
    loboguara.Metrics.increment_metric_counter loboguara.Database.add_audit
    loboguara.Channel.reset_channel_circuit_state
telegram_sends = refl

abbrev sent_world : World
sent_world = record (send_notification_channel answering 10 99 telegram delivery_world).1 {
  now = 900;
}

sent_at_most_once_example :
    send_notification_channel answering 10 98 email sent_world ≡ (ok already_terminal, sent_world)
sent_at_most_once_example =
    sent_at_most_once answering 10 99 98 telegram email delivery_world 900 telegram_sends

send_keeps_ended_example :
    HasStatus 9 sent (send_notification_channel test_env 10 99 telegram delivery_world).1.db
send_keeps_ended_example =
    send_keeps_ended test_env 9 10 99 telegram delivery_world (sending 9 sent email) refl refl

closed : channel_is_circuit_open voice delivery_world ≡ false
unfolding channel_is_circuit_open
closed = refl

circuit_opens_at_threshold_example :
    channel_is_circuit_open voice (fail_times test_env voice 2 delivery_world)
    ≡ leb test_env.config.cb_failure_threshold 2
circuit_opens_at_threshold_example =
    circuit_opens_at_threshold test_env voice 2 delivery_world (omega arith) (omega arith) refl
      closed (omega arith)

circuit_open_until_example :
    channel_is_circuit_open voice
      (record (open_channel_circuit test_env voice delivery_world).1 { now = 229 })
    ≡ ltb 229 (delivery_world.now + test_env.config.cb_open_seconds)
circuit_open_until_example = circuit_open_until test_env voice delivery_world 229

voice_is_not_email : voice ≢ email
voice_is_not_email e = ground arith

record_channel_failure_ne_example :
    (channel_is_circuit_open email (record_channel_failure test_env voice delivery_world).1
      ≡ channel_is_circuit_open email delivery_world)
    × (failure_count email (record_channel_failure test_env voice delivery_world).1
        ≡ failure_count email delivery_world)
record_channel_failure_ne_example =
    record_channel_failure_ne test_env voice email delivery_world voice_is_not_email

same_bucket : (rate_limit_bucket 60 180 ≡ 3) × (rate_limit_bucket 60 200 ≡ 3)
same_bucket = (refl, refl)

abbrev two_times : List ℕ
two_times = 180 ∷ 200 ∷ []

rate_limit_exact_example :
    admitted test_env voice two_times delivery_world
    ≡ min (length two_times) test_env.config.channel_rate_limit_per_minute
rate_limit_exact_example =
    rate_limit_exact test_env voice 3 two_times delivery_world (omega arith)
      (same_bucket.0, (same_bucket.1, tt)) refl

abbrev offline : Env
offline = record test_env { http = λ n request. no_reply (url_error "timed out") }

abbrev telegram_down : Exception
telegram_down = runtime_error "Telegram sendMessage failed: timed out"

telegram_raises :
    (send_notification_channel offline 10 99 telegram delivery_world).0 ≡ err telegram_down
unfolding send_notification_channel send_within_limit send_on_channel send_branch send_telegram
    send_telegram_once send_telegram_unless_limited send_telegram_via_bot_api claim_dedupe_key
    telegram_service_rate_limit_state channel_is_circuit_open channel_rate_limit_exceeded count_send
    touch_metrics http_call combinators loboguara.Common.Text.strip loboguara.Common.Text.lstrip
telegram_raises = refl

in_time :
    270 < delivery_world.now + retry_window offline (sending 10 pending telegram) delivery_world
unfolding telegram_notification_dedupe_window matched_rule
in_time = omega arith

abbrev later : World
later = record (send_notification_channel offline 10 99 telegram delivery_world).1 { now = 270 }

telegram_retry_suppressed_example :
    ((send_notification_channel offline 10 99 telegram later).1.requests ≡ later.requests)
    × (IsHeldBack (send_notification_channel offline 10 99 telegram later).0
        ⊎ ((Option.map
                (λ (x : Notification). x.status)
                (notification_by_id 10 (send_notification_channel offline 10 99 telegram later).1)
              ≡ some delivered)
            × ((key : String) × ((send_notification_channel offline 10 99 telegram later).0
                  ≡ ok (
                      suppressed_duplicate key
                        (retry_window offline (sending 10 pending telegram) delivery_world))))))
telegram_retry_suppressed_example =
    telegram_retry_suppressed offline 10 99 (sending 10 pending telegram) delivery_world
      telegram_down 270 refl refl telegram_raises in_time

final_failure_keeps_ended_example :
    HasStatus 9 sent
      (on_task_failure test_env "telegram_worker" 5 (10 ∷ 99 ∷ []) [] "down" delivery_world).1.db
final_failure_keeps_ended_example =
    final_failure_keeps_ended test_env "telegram_worker" 5 (10 ∷ 99 ∷ []) [] "down" delivery_world
      (sending 9 sent email) 9 refl refl
