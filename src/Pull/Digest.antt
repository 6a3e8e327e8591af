-- ===== src/Pull/Digest.antt =====
-- worker.py: `_send_telegram_digest_impl`. The buffer's entries are JSON that the program wrote.
use loboguara.Common.{ℕ, ◌+◌, ◌==◌, String, none, List, [], ◌∷◌, get_or, str_eq, if◌then◌else◌}
use loboguara.Common.Text.{◌⧺◌}
use loboguara.Redis.{read}
use loboguara.World.{World, Env, DigestItem}
use loboguara.Action.{Action, pure, gets, modify, ◌>>=◌, ◌>>◌}
use loboguara.Metrics.{set_redis}
use loboguara.Template.{escape_telegram_markdown_v2}
use loboguara.Providers.{send_telegram_via_bot_api}
use loboguara.Pull.Radar.{number_text}

abbrev or_word : String → String → String
or_word s default = if str_eq s "" then default else s

-- the text of a service's digest
unfoldable pub digest_text : Env → String → DigestItem → String
digest_text env service item =
    "*Digest de alertas suprimidos*\n*Serviço*: "
    ⧺ escape_telegram_markdown_v2 service
    ⧺ "\n*Título*: "
    ⧺ escape_telegram_markdown_v2 (or_word item.title "sem título")
    ⧺ "\n*Severidade*: "
    ⧺ escape_telegram_markdown_v2 (or_word item.severity "ERROR")
    ⧺ "\n*Ocorrências*: "
    ⧺ escape_telegram_markdown_v2
        (number_text env (if item.occurrences == 0 then 1 else item.occurrences))
    ⧺ "\n*Última supressão*: "
    ⧺ escape_telegram_markdown_v2 (env.time_text item.suppressed_at)

-- the loop over the buffer: how many were sent
unfoldable pub send_digests : Env → List (String × DigestItem) → ℕ → Action ℕ
send_digests env [] sent = pure sent
send_digests env ((service, item) ∷ items) sent = do
  send_telegram_via_bot_api env env.config.telegram_logs_chat_id (digest_text env service item)
  send_digests env items (sent + 1)

unfoldable pub clear_digest : Action (Unit {0})
clear_digest = modify λ w. set_redis w (record w.redis { digest = none })

-- `buffered`
abbrev pub buffered : World → List (String × DigestItem)
buffered w = get_or (read w.now w.digest) []

-- what follows the reading of the buffer
unfoldable pub send_buffered : Env → List (String × DigestItem) → Action ℕ
send_buffered env [] = pure 0
send_buffered env (e ∷ items) = do sent ← send_digests env (e ∷ items) 0; clear_digest; pure sent

-- `_send_telegram_digest_impl`: how many were sent
unfoldable pub send_telegram_digest : Env → Action ℕ
send_telegram_digest env = do items ← gets buffered; send_buffered env items
