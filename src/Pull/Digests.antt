-- ===== src/Pull/Digests.antt =====
-- worker.py: what `_send_telegram_digest_impl` does with its buffer.
use loboguara.Common.{
  ℕ, ◌+◌, ◌≡◌, refl, ap, ◌∙◌, arith, List, [], ◌∷◌, length, String, Result, ok, err, get_or, map,
  sym, true, append-append, append-nil, take, ◌≤◌, ◌++◌, ◌⊎◌, inl, inr, suc, Bool-cases, str_eq,
}
use loboguara.Redis.{read}
use loboguara.World.{World, Env, DigestItem, Store, HttpRequest}
use loboguara.Action.{resume, pure, combinators, ◌>>◌}
use loboguara.Action.Keeps.{Keeps, Keeps-pure, Keeps-then}
use loboguara.Action.Gives.{Gives, Returned, Gives-pure, Gives-then}
use loboguara.Common.Text.{◌⧺◌, strip}
use loboguara.Models.{text, boolean}
use loboguara.Providers.{send_telegram_via_bot_api, http_call}
use loboguara.Providers.Effects.{send_telegram_world, telegram_answer_world}
use loboguara.Pull.Digest.{
  digest_text, send_digests, clear_digest, buffered, send_buffered, send_telegram_digest,
}

-- the buffer is the one of the start
record HasBuffer (items : List (String × DigestItem)) (w : World) : Type 0 where
  pub is_same : buffered w ≡ items

send_telegram-HasBuffer :
    (d : List (String × DigestItem)) (env : Env) (chat message : String)
    → Keeps (HasBuffer d) (send_telegram_via_bot_api env chat message)
send_telegram-HasBuffer d env chat message = record {
  after = λ w h.
      let same = send_telegram_world env chat message w in
      record {
        is_same =
            ap
              (λ (redis : Store).
                get_or (read (send_telegram_via_bot_api env chat message w).1.now redis.digest) [])
              same.0
            ∙ ap (λ now. get_or (read now w.digest) []) same.2
            ∙ h.is_same;
      };
}

send_digests-HasBuffer :
    (d : List (String × DigestItem)) (env : Env) (items : List (String × DigestItem)) (n : ℕ)
    → Keeps (HasBuffer d) (send_digests env items n)
unfolding send_digests
send_digests-HasBuffer d env [] n = Keeps-pure n
send_digests-HasBuffer d env (e ∷ items) n =
    Keeps-then _ _ (send_telegram-HasBuffer d env _ _) (send_digests-HasBuffer d env items (n + 1))

-- the request that `sendMessage` gets for one service's digest
abbrev pub digest_request : Env → String × DigestItem → HttpRequest
digest_request env entry = record {
  url = "https://api.telegram.org/bot" ⧺ strip env.config.telegram_bot_token ⧺ "/sendMessage";
  authorization = "";
  body =
      ("chat_id", text env.config.telegram_logs_chat_id)
      ∷ ("text", text (digest_text env entry.0 entry.1))
      ∷ ("parse_mode", text "MarkdownV2")
      ∷ ("disable_web_page_preview", boolean true)
      ∷ [];
}

-- one message: its request is made, or there is no token and the call raises
unfoldable Asked : List HttpRequest → HttpRequest → Result String × World → Type 0
Asked before request (ok s, w) = w.requests ≡ before ++ request ∷ []
Asked before request (err e, w) = (w.requests ≡ before) ⊎ (w.requests ≡ before ++ request ∷ [])

with_token-Asked :
    (before : List HttpRequest) (request : HttpRequest) (r : Result String × World)
    → r.1.requests ≡ before ++ request ∷ []
    → Asked before request r
unfolding Asked
with_token-Asked before request (ok s, w) h = h
with_token-Asked before request (err e, w) h = inr h

send_telegram-Asked :
    (env : Env) (entry : String × DigestItem) (w : World)
    → Asked w.requests (digest_request env entry) (
        send_telegram_via_bot_api env env.config.telegram_logs_chat_id
          (digest_text env entry.0 entry.1)
          w)
unfolding Asked send_telegram_via_bot_api http_call combinators
send_telegram-Asked env entry w =
    elim (Bool-cases (str_eq (strip env.config.telegram_bot_token) "")) [
      | inl missing ↦ ground (arith)
      | inr there ↦ with_token-Asked _ _ _ (simp (there, telegram_answer_world) refl)
    ]

-- How many were sent, and their requests in the order of the buffer, behind those from before. A loop that
-- raises has made the requests of a first part.
unfoldable pub Sent : List HttpRequest → List HttpRequest → Result ℕ × World → Type 0
Sent before messages (ok n, w) = w.requests ≡ before ++ messages
Sent before messages (err e, w) =
    (k : ℕ) × (k ≤ length messages) × (w.requests ≡ before ++ take k messages)

more-Sent :
    (env : Env) (items : List (String × DigestItem)) (n : ℕ) (before : List HttpRequest)
    (request : HttpRequest) (r : Result String × World)
    → ((w : World) → Sent w.requests (map (digest_request env) items) (send_digests env items n w))
    → Asked before request r
    → Sent before
        (request ∷ map (digest_request env) items)
        (resume (λ _. send_digests env items n) r)
unfolding Sent Asked resume
more-Sent env items n before request (ok s, w) later h =
    continued (send_digests env items n w) (later w)
  where
    continued :
        (r : Result ℕ × World)
        → Sent w.requests (map (digest_request env) items) r
        → Sent before (request ∷ map (digest_request env) items) r
    continued (ok m, v) all =
        all
        ∙ ap (λ xs. xs ++ map (digest_request env) items) h
        ∙ append-append before (request ∷ []) (map (digest_request env) items)
    continued (err e, v) (k, few, part) = (
      suc k,
      omega arith,
      part
          ∙ ap (λ xs. xs ++ take k (map (digest_request env) items)) h
          ∙ append-append before (request ∷ []) (take k (map (digest_request env) items)),
    )
more-Sent env items n before request (err e, w) later (inl none_asked) =
    (0, omega arith, none_asked ∙ sym (append-nil before))
more-Sent env items n before request (err e, w) later (inr one_asked) = (1, omega arith, one_asked)

send_digests-Sent :
    (env : Env) (items : List (String × DigestItem)) (n : ℕ) (w : World)
    → Sent w.requests (map (digest_request env) items) (send_digests env items n w)
unfolding Sent send_digests combinators
send_digests-Sent env [] n w = sym (append-nil w.requests)
send_digests-Sent env (e ∷ items) n w =
    more-Sent env items (n + 1) w.requests (digest_request env e)
      (send_telegram_via_bot_api env env.config.telegram_logs_chat_id (digest_text env e.0 e.1) w)
      (send_digests-Sent env items (n + 1)) (send_telegram-Asked env e w)

send_digests-count :
    (env : Env) (items : List (String × DigestItem)) (n total : ℕ)
    → n + length items ≡ total
    → Gives (λ sent. sent ≡ total) (send_digests env items n)
unfolding send_digests
send_digests-count env [] n total h = Gives-pure (λ sent. sent ≡ total) n (omega arith)
send_digests-count env (e ∷ items) n total h =
    Gives-then (λ sent. sent ≡ total) _ _ (send_digests-count env items (n + 1) total (omega arith))

-- what a digest that starts in a world may end with
unfoldable pub Settled : Env → World → Result ℕ × World → Type 0
Settled env start (ok n, w) =
    (n ≡ length (buffered start))
    × (buffered w ≡ [])
    × Sent start.requests (map (digest_request env) (buffered start)) (ok n, w)
Settled env start (err e, w) =
    (buffered w ≡ buffered start)
    × Sent start.requests (map (digest_request env) (buffered start)) (err e, w)

settle :
    (env : Env) (start : World) (r : Result ℕ × World)
    → Returned (λ sent. sent ≡ length (buffered start)) r.0
    → buffered r.1 ≡ buffered start
    → Sent start.requests (map (digest_request env) (buffered start)) r
    → Settled env start (resume (λ sent. clear_digest >> pure sent) r)
unfolding Settled Sent resume clear_digest combinators
settle env start (ok n, w) count same asked = (count, refl, asked)
settle env start (err e, w) count same asked = (same, asked)

send_buffered-Settled :
    (env : Env) (items : List (String × DigestItem)) (w : World)
    → buffered w ≡ items
    → Settled env w (send_buffered env items w)
unfolding Settled Sent send_buffered combinators
send_buffered-Settled env [] w same = rw same (refl, refl, sym (append-nil w.requests))
send_buffered-Settled env (e ∷ items) w same =
    settle env w (send_digests env (e ∷ items) 0 w)
      ((send_digests-count env (e ∷ items) 0 (length (buffered w)) (rw same (omega arith))).of w)
      ((send_digests-HasBuffer (buffered w) env (e ∷ items) 0).after w
        (record { is_same = refl })).is_same
      (rw same (send_digests-Sent env (e ∷ items) 0 w))

-- A digest that returns has made one request for each text of the buffer, in its order, reports their
-- number, and has emptied the buffer. A digest that raises has made the requests of a first part of the
-- buffer, and leaves the whole buffer, with that part, to the next one.
pub digest_all_or_kept : (env : Env) (w : World) → Settled env w (send_telegram_digest env w)
unfolding send_telegram_digest combinators
digest_all_or_kept env w = send_buffered-Settled env (buffered w) w refl
