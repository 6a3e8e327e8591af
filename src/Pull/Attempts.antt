-- ===== src/Pull/Attempts.antt =====
-- main.py: the attempts of `_fetch_oasis_radar_entries`.
use loboguara.Common.{
  ℕ, zero, suc, ◌+◌, ◌≤◌, ◌≡◌, refl, sym, ap, ◌∙◌, arith, Bool, true, false, [], ◌∷◌, ◌++◌, length,
  length-append, Result, ok, err, inl, inr, Bool-cases,
}
use loboguara.World.{World, Env, HttpRequest, HttpReply, reply, failed}
use loboguara.Action.{combinators}
use loboguara.Providers.{http_call}
use loboguara.Pull.Radar.{attempts, after_attempt, read_reply}

abbrev pub is_reply : HttpReply → Bool
is_reply (reply _ _ _) = true
is_reply (failed _) = false

abbrev pub is_ok {ℓ} : {A : Type ℓ} → Result A → Bool
is_ok (ok _) = true
is_ok (err _) = false

-- the world behind one request
abbrev pub requested : HttpRequest → World → World
requested request w = record w { requests = w.requests ++ request ∷ [] }

attempts-reply :
    (env : Env) (request : HttpRequest) (n : ℕ) (w : World) (answer : HttpReply)
    → env.http (length w.requests) request ≡ answer
    → is_reply answer ≡ true
    → (is_ok (attempts env request n w).0 ≡ true)
      × ((attempts env request n w).1 ≡ requested request w)
unfolding attempts after_attempt read_reply http_call combinators
attempts-reply env request zero w (reply s b p) h here = rw h (refl, refl)
attempts-reply env request (suc n) w (reply s b p) h here = rw h (refl, refl)
attempts-reply env request n w (failed e) h here = ground arith

attempts-failed :
    (env : Env) (request : HttpRequest) (n : ℕ) (w : World) (answer : HttpReply)
    → env.http (length w.requests) request ≡ answer
    → is_reply answer ≡ false
    → attempts env request (suc n) w ≡ attempts env request n (requested request w)
unfolding attempts after_attempt http_call combinators
attempts-failed env request n w (failed e) h here = rw h refl
attempts-failed env request n w (reply s b p) h here = ground arith

one_more :
    (request : HttpRequest) (w : World)
    → length (requested request w).requests ≡ length w.requests + 1
one_more request w = length-append w.requests (request ∷ [])

-- an attempt that is answered ends the loop
answered_now :
    (env : Env) (request : HttpRequest) (n : ℕ) (w : World)
    → is_reply (env.http (length w.requests) request) ≡ true
    → (is_ok (attempts env request n w).0 ≡ true)
      × (length (attempts env request n w).1.requests ≡ length w.requests + 1)
answered_now env request n w answered =
    let here =
      attempts-reply env request n w (env.http (length w.requests) request) refl answered in
    (here.0, ap (λ (v : World). length v.requests) here.1 ∙ one_more request w)

-- Where one of the attempts that the loop has is answered, the loop returns and makes no request behind
-- the first answered one.
pub attempts_answered :
    (env : Env) (request : HttpRequest) (n k : ℕ) (w : World)
    → k ≤ n
    → is_reply (env.http (length w.requests + k) request) ≡ true
    → (is_ok (attempts env request n w).0 ≡ true)
      × (length (attempts env request n w).1.requests ≤ length w.requests + k + 1)
attempts_answered env request n zero w h answered =
    let same : length w.requests + 0 ≡ length w.requests = omega arith in
    let here =
      answered_now env request n w
        (ap (λ i. is_reply (env.http i request)) (sym same) ∙ answered) in
    (here.0, omega (arith, here.1))
attempts_answered env request zero (suc k) w h answered = elim h [ ]
attempts_answered env request (suc n) (suc k) w h answered =
    elim (Bool-cases (is_reply (env.http (length w.requests) request))) [
      | inl now ↦
          let here = answered_now env request (suc n) w now in (here.0, omega (arith, here.1))
      | inr later ↦
          let again = requested request w in
          let size = one_more request w in
          let same : length again.requests + k ≡ length w.requests + suc k = omega (arith, size) in
          let rest =
            attempts_answered env request n k again (omega arith)
              (ap (λ i. is_reply (env.http i request)) same ∙ answered) in
          let step =
            attempts-failed env request n w (env.http (length w.requests) request) refl later in
          (
            ap (λ r. is_ok r.0) step ∙ rest.0,
            omega (arith, size, rest.1, ap (λ r. length r.1.requests) step),
          )
    ]
