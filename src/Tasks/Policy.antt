-- ===== src/Tasks/Policy.antt =====
-- schemas.py: `_validate_channel_retry_policy_value`; worker.py: the defaults and their override.
use loboguara.Common.{String, Bool, true, false, Option, none, some, ◌&&◌, ◌||◌, str_eq, or_else}
use loboguara.Common.Int.{ℤ, pos, leb_ℤ}
use loboguara.Common.Text.{upper, lower}
use loboguara.Models.{
  Value, Fields, null, boolean, integer, object, end, field, entry, NotificationChannel,
  channel_value,
}
use loboguara.World.{Env}
use loboguara.Providers.{truthy_entry}

-- `value is not None and (not isinstance(value, int) or value < least)`, negated; a bool is an int
valid_int : ℤ → Option Value → Bool
valid_int least none = true
valid_int least (some null) = true
valid_int least (some (integer z)) = leb_ℤ least z
valid_int least (some (boolean true)) = leb_ℤ least (pos 1)
valid_int least (some (boolean false)) = leb_ℤ least (pos 0)
valid_int least (some _) = false

-- `jitter is not None and not isinstance(jitter, bool)`, negated
valid_jitter : Option Value → Bool
valid_jitter none = true
valid_jitter (some null) = true
valid_jitter (some (boolean b)) = true
valid_jitter (some _) = false

-- one channel's policy
unfoldable pub valid_channel_policy : Value → Bool
unfolding valid_int valid_jitter
valid_channel_policy (object policy) =
    valid_int (pos 0) (entry "max_retries" policy)
    && valid_int (pos 1) (entry "backoff_seconds" policy)
    && valid_int (pos 1) (entry "backoff_max_seconds" policy)
    && valid_jitter (entry "jitter" policy)
valid_channel_policy _ = false

allowed_channel : String → Bool
allowed_channel name =
    let n = upper name in str_eq n "VOICE" || str_eq n "EMAIL" || str_eq n "TELEGRAM"

-- `_validate_channel_retry_policy_value`: does it accept?
unfoldable pub valid_retry_policy : Fields → Bool
unfolding allowed_channel
valid_retry_policy end = true
valid_retry_policy (field channel policy rest) =
    allowed_channel channel && valid_channel_policy policy && valid_retry_policy rest

pub record RetryPolicy : Type 0 where
  pub max_retries : Value
  pub backoff_seconds : Value
  pub backoff_max_seconds : Value
  pub jitter : Value

-- `defaults`
unfoldable pub default_policy : Env → RetryPolicy
default_policy env = record {
  max_retries = integer env.config.celery_task_max_retries;
  backoff_seconds = integer env.config.celery_task_retry_backoff;
  backoff_max_seconds = integer env.config.celery_task_retry_backoff_max;
  jitter = boolean env.config.celery_task_retry_jitter;
}

-- `merged[key] = channel_policy[key]`, if the key is there
abbrev overridden : String → Fields → Value → Value
overridden key fs default = elim (entry key fs) [ none ↦ default | some v ↦ v ]

-- the channel's entry, under its name in capitals or in small letters
abbrev channel_policy_of : NotificationChannel → Fields → Option Value
channel_policy_of channel policy =
    or_else (truthy_entry (channel_value channel) policy)
      (entry (lower (channel_value channel)) policy)

override_policy : RetryPolicy → Option Value → RetryPolicy
override_policy d (some (object fs)) = record {
  max_retries = overridden "max_retries" fs d.max_retries;
  backoff_seconds = overridden "backoff_seconds" fs d.backoff_seconds;
  backoff_max_seconds = overridden "backoff_max_seconds" fs d.backoff_max_seconds;
  jitter = overridden "jitter" fs d.jitter;
}
override_policy d _ = d

-- the policy of a rule over the defaults
unfoldable pub merge_policy : Env → NotificationChannel → Fields → RetryPolicy
unfolding override_policy default_policy
merge_policy env channel policy =
    override_policy (default_policy env) (channel_policy_of channel policy)
