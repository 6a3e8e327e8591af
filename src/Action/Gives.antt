-- ===== src/Action/Gives.antt =====
-- What an action returns: one rule for each way to build an action. Nothing is said of one that raises.
use loboguara.Common.{
  Bool, true, false, Exception, Result, ok, err, Option, none, some, if◌then◌else◌,
}
use loboguara.World.{World}
use loboguara.Action.{Action, resume, pure, raise, on_option, ◌>>=◌, ◌>>◌}

abbrev pub Returned {ℓ κ} : {A : Type ℓ} → (A → Type κ) → Result A → Type κ
Returned Q (ok a) = Q a
Returned Q (err e) = Unit

-- If the action returns, what it returns has the property.
pub record Gives {ℓ κ} {A : Type ℓ} (Q : A → Type κ) (m : Action A) : Type (ℓ ⊔ κ) where
  pub of : (w : World) → Returned Q (m w).0

module _ {ℓ κ} {A : Type ℓ} (Q : A → Type κ) where
  pub Gives-pure : (a : A) → Q a → Gives Q (pure a)
  unfolding pure
  Gives-pure a h = record { of = λ w. h }

  pub Gives-raise : (e : Exception) → Gives Q (raise e)
  unfolding raise
  Gives-raise e = record { of = λ w. tt }

  Gives-resume {μ} :
      {B : Type μ} (next : B → Action A) (r : Result B × World)
      → ((b : B) → Gives Q (next b))
      → Returned Q (resume next r).0
  unfolding resume
  Gives-resume next (ok b, w) later = (later b).of w
  Gives-resume next (err e, w) later = tt

  pub Gives-bind {μ} :
      {B : Type μ} (m : Action B) (next : B → Action A)
      → ((b : B) → Gives Q (next b))
      → Gives Q (m >>= next)
  unfolding ◌>>=◌
  Gives-bind m next later = record { of = λ w. Gives-resume next (m w) later }

  pub Gives-then {μ} :
      {B : Type μ} (m : Action B) (next : Action A) → Gives Q next → Gives Q (m >> next)
  unfolding ◌>>◌
  Gives-then m next later = record { of = λ w. Gives-resume (λ _. next) (m w) (λ _. later) }

  pub Gives-if : (b : Bool) (m n : Action A) → Gives Q m → Gives Q n → Gives Q (if b then m else n)
  Gives-if true m n hm hn = hm
  Gives-if false m n hm hn = hn

  pub Gives-on_option {μ} :
      {B : Type μ} (o : Option B) (m : Action A) (k : B → Action A)
      → Gives Q m
      → ((b : B) → Gives Q (k b))
      → Gives Q (on_option o m k)
  unfolding on_option
  Gives-on_option none m k missing there = missing
  Gives-on_option (some b) m k missing there = there b

  -- what a first call gives to the rest
  Gives-after {μ ν} :
      {B : Type μ} (R : B → Type ν) (next : B → Action A) (r : Result B × World)
      → Returned R r.0
      → ((b : B) → R b → Gives Q (next b))
      → Returned Q (resume next r).0
  unfolding resume
  Gives-after R next (ok b, w) h later = (later b h).of w
  Gives-after R next (err e, w) h later = tt

  pub Gives-chain {μ ν} :
      {B : Type μ} (R : B → Type ν) (m : Action B) (next : B → Action A)
      → Gives R m
      → ((b : B) → R b → Gives Q (next b))
      → Gives Q (m >>= next)
  unfolding ◌>>=◌
  Gives-chain R m next first later = record {
    of = λ w. Gives-after R next (m w) (first.of w) later;
  }
