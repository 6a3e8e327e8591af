-- ===== src/Classifier/Rules.antt =====
-- classifier.py: the rules for the lines of PostgreSQL, Redis, Celery, Sargaço and Loki, and the
-- default.
use loboguara.Common.{String, ◌&&◌, ◌||◌, [], ◌∷◌, str_eq, get_or}
use loboguara.Common.{if◌then◌else◌}
use loboguara.Common.Text.{◌⧺◌, lower, contains}
use loboguara.Classifier.Words.{has_any, has_word, slow_duration, title_from_text, behind}

-- `SeverityTitle`
abbrev pub SeverityTitle : Type 0
SeverityTitle = String × String

-- the severity that `_default_text_classification` finds
unfoldable pub default_severity : String → String
default_severity line =
    let low = lower line in
    if has_word ("panic" ∷ "fatal" ∷ []) low
    then "FATAL"
    else if has_word ("critical" ∷ "crit" ∷ []) low
    then "CRITICAL"
    else if has_word ("error" ∷ "exception" ∷ "failed" ∷ "failure" ∷ []) low
    then "ERROR"
    else if has_word ("warn" ∷ "warning" ∷ []) low
    then "WARN"
    else "INFO"

-- `_default_text_classification`
unfoldable pub default_text_classification : String → String → SeverityTitle
default_text_classification head line = (default_severity line, title_from_text head line)

-- `_classify_postgres`
unfoldable pub classify_postgres : String → SeverityTitle
classify_postgres line =
    let low = lower line in
    if contains "password authentication failed" low
    then ("ERROR", "Postgres authentication failed")
    else if contains "too many connections for role" low
    then ("ERROR", "Postgres connection limit reached")
    else if contains "canceling statement due to lock timeout" low
    then ("ERROR", "Postgres lock timeout")
    else if slow_duration low
    then ("ERROR", "Postgres slow query")
    else if contains "not yet accepting connections" low
    then ("CRITICAL", "Postgres not accepting connections")
    else if contains "could not extend file" low || contains "could not write to file" low
    then ("CRITICAL", "Postgres storage write failure")
    else if contains "invalid page in block" low || contains "page verification failed" low
    then ("FATAL", "Postgres data corruption detected")
    else if contains "could not open relation mapping file" low
    then ("FATAL", "Postgres relation mapping failure")
    else if contains "database system is shut down" low
    then ("FATAL", "Postgres is shut down")
    else if contains "panic:" low
    then ("FATAL", "Postgres panic")
    else default_text_classification "Postgres log" line

-- `_classify_redis`
unfoldable pub classify_redis : String → SeverityTitle
classify_redis line =
    let low = lower line in
    if contains "server initialized" low
    then ("INFO", "Redis server initialized")
    else if contains "maxmemory" low || contains "keys_evicted" low
    then ("ERROR", "Redis memory pressure")
    else if contains "latency latest" low
    then ("ERROR", "Redis high latency")
    else if contains "background aof rewrite" low && has_any ("error" ∷ "failed" ∷ "fail" ∷ []) low
    then ("CRITICAL", "Redis AOF rewrite failed")
    else if contains "redis is down" low
    then ("FATAL", "Redis is down")
    else if contains "out of memory" low || contains "oom-killer" low
    then ("FATAL", "Redis killed by OOM")
    else default_text_classification "Redis log" line

-- `worker_name`
abbrev pub worker_name : String → String
worker_name service =
    if str_eq service "celery" then "worker" else get_or (behind "celery-" service) service

-- `_classify_celery`
unfoldable pub classify_celery : String → String → SeverityTitle
classify_celery service line =
    let low = lower line in
    let worker = worker_name service in
    if contains "retry in" low || contains "retrying in" low
    then ("ERROR", "Celery " ⧺ worker ⧺ " task retry scheduled")
    else if contains "maxretriesexceedederror" low || contains "max retries" low
    then ("ERROR", "Celery " ⧺ worker ⧺ " task exhausted retries")
    else if contains "softtimelimitexceeded" low || contains "timelimitexceeded" low
    then ("ERROR", "Celery " ⧺ worker ⧺ " task time limit exceeded")
    else if contains "cannot connect to redis://" low
        || (contains "broker transport" low && contains "unreachable" low)
    then ("CRITICAL", "Celery " ⧺ worker ⧺ " lost broker connectivity")
    else if contains "restart loop" low || contains "restartcount" low
    then ("CRITICAL", "Celery " ⧺ worker ⧺ " restart loop detected")
    else if contains "no workers available" low || contains "no consumer" low
    then ("CRITICAL", "Celery " ⧺ worker ⧺ " queue has no consumer")
    else default_text_classification ("Celery " ⧺ worker ⧺ " log") line

-- `_classify_sargaco`
unfoldable pub classify_sargaco : String → SeverityTitle
classify_sargaco line =
    let low = lower line in
    if contains "s3error" low || (contains "connectionerror" low && contains "retry" low)
    then ("ERROR", "Sargaço transient storage failure")
    else if contains "slow request" low
    then ("ERROR", "Sargaço slow request")
    else if contains "no writable volumes" low || contains "disk full" low
    then ("CRITICAL", "Sargaço out of writable storage")
    else if contains "connectionrefusederror" low || (contains "timeout" low && contains "8333" low)
    then ("CRITICAL", "Sargaço S3 endpoint unavailable")
    else if contains "weed server" low && has_any ("exit" ∷ "dead" ∷ "not present" ∷ []) low
    then ("FATAL", "Sargaço process exited")
    else default_text_classification "Sargaço log" line

-- `_classify_loki`
unfoldable pub classify_loki : String → SeverityTitle
classify_loki line =
    let low = lower line in
    if contains "at least one label pair" low
      || contains "error processing query" low
      || (contains "promtail" low && has_any ("batch" ∷ "invalid" ∷ "label pair" ∷ []) low)
    then ("INFO", "Loki: batch processing noise (ignore)")
    else default_text_classification "Loki log" line
