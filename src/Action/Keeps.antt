-- ===== src/Action/Keeps.antt =====
-- Invariants of actions: one rule for each way to build an action. A relation to the world in which
-- a call began is such an invariant too.
use loboguara.Common.{
  ◌≡◌, refl, Bool, true, false, Option, none, some, Exception, Result, ok, err, List, [], ◌∷◌,
  if◌then◌else◌,
}
use loboguara.World.{World}
use loboguara.Action.{
  Action, resume, rescue, pure, raise, gets, lift, or_raise, modify, when, on_option, try_except,
  for_each, ◌>>=◌, ◌>>◌,
}

-- Whether the action returns or raises, it keeps `P`.
pub record Keeps {ℓ} {A : Type ℓ} (P : World → Type 0) (m : Action A) : Type ℓ where
  pub after : (w : World) → P w → P (m w).1

module _ {P : World → Type 0} where
  pub Keeps-pure {ℓ} : {A : Type ℓ} (a : A) → Keeps P (pure a)
  unfolding pure
  Keeps-pure a = record { after = λ w h. h }

  pub Keeps-raise {ℓ} : {A : Type ℓ} (e : Exception) → Keeps P (raise {A = A} e)
  unfolding raise
  Keeps-raise e = record { after = λ w h. h }

  pub Keeps-gets {ℓ} : {A : Type ℓ} (f : World → A) → Keeps P (gets f)
  unfolding gets
  Keeps-gets f = record { after = λ w h. h }

  pub Keeps-lift {ℓ} : {A : Type ℓ} (r : Result A) → Keeps P (lift r)
  unfolding lift
  Keeps-lift r = record { after = λ w h. h }

  pub Keeps-or_raise {ℓ} : {A : Type ℓ} (o : Option A) (e : Exception) → Keeps P (or_raise o e)
  unfolding or_raise
  Keeps-or_raise none e = record { after = λ w h. h }
  Keeps-or_raise (some a) e = record { after = λ w h. h }

  pub Keeps-modify : (f : World → World) → ((w : World) → P w → P (f w)) → Keeps P (modify f)
  unfolding modify
  Keeps-modify f k = record { after = k }

  Keeps-resume {ℓ κ} :
      {A : Type ℓ} {B : Type κ} (f : A → Action B) (r : Result A × World)
      → ((a : A) → Keeps P (f a))
      → P r.1
      → P (resume f r).1
  unfolding resume
  Keeps-resume f (ok a, w) kf h = (kf a).after w h
  Keeps-resume f (err e, w) kf h = h

  Keeps-rescue {ℓ} :
      {A : Type ℓ} (handler : Exception → Action A) (r : Result A × World)
      → ((e : Exception) → Keeps P (handler e))
      → P r.1
      → P (rescue handler r).1
  unfolding rescue
  Keeps-rescue handler (ok a, w) kh h = h
  Keeps-rescue handler (err e, w) kh h = (kh e).after w h

  pub Keeps-bind {ℓ κ} :
      {A : Type ℓ} {B : Type κ} (call : Action A) (next : A → Action B)
      → Keeps P call
      → ((result : A) → Keeps P (next result))
      → Keeps P (call >>= next)
  unfolding ◌>>=◌
  Keeps-bind call next first later = record {
    after = λ w h. Keeps-resume next (call w) later (first.after w h);
  }

  pub Keeps-then {ℓ κ} :
      {A : Type ℓ} {B : Type κ} (m : Action A) (k : Action B)
      → Keeps P m
      → Keeps P k
      → Keeps P (m >> k)
  unfolding ◌>>◌
  Keeps-then m k km kk = record {
    after = λ w h. Keeps-resume (λ _. k) (m w) (λ _. kk) (km.after w h);
  }

  pub Keeps-if {ℓ} :
      {A : Type ℓ} (test : Bool) (yes_branch no_branch : Action A)
      → (test ≡ true → Keeps P yes_branch)
      → (test ≡ false → Keeps P no_branch)
      → Keeps P (if test then yes_branch else no_branch)
  Keeps-if true _ _ when_true _ = when_true refl
  Keeps-if false _ _ _ when_false = when_false refl

  pub Keeps-when : (b : Bool) (m : Action (Unit {0})) → Keeps P m → Keeps P (when b m)
  unfolding when
  Keeps-when true m km = record { after = km.after }
  Keeps-when false m km = record { after = λ w h. h }

  pub Keeps-on_option {ℓ κ} :
      {A : Type ℓ} {B : Type κ} (o : Option A) (m : Action B) (k : A → Action B)
      → Keeps P m
      → ((a : A) → Keeps P (k a))
      → Keeps P (on_option o m k)
  unfolding on_option
  Keeps-on_option none m k km kk = record { after = km.after }
  Keeps-on_option (some a) m k km kk = record { after = (kk a).after }

  pub Keeps-try_except {ℓ} :
      {A : Type ℓ} (m : Action A) (handler : Exception → Action A)
      → Keeps P m
      → ((e : Exception) → Keeps P (handler e))
      → Keeps P (try_except m handler)
  unfolding try_except
  Keeps-try_except m handler km kh = record {
    after = λ w h. Keeps-rescue handler (m w) kh (km.after w h);
  }

  pub Keeps-for_each {ℓ} :
      {A : Type ℓ} (xs : List A) (body : A → Action (Unit {0}))
      → ((x : A) → Keeps P (body x))
      → Keeps P (for_each xs body)
  unfolding for_each
  Keeps-for_each [] body kb = Keeps-pure tt
  Keeps-for_each (x ∷ xs) body kb = Keeps-then (body x) _ (kb x) (Keeps-for_each xs body kb)

pub ruleset keeps_rules = (
  Keeps-pure, Keeps-raise, Keeps-gets, Keeps-lift, Keeps-or_raise, Keeps-bind, Keeps-then, Keeps-if,
  Keeps-when, Keeps-on_option, Keeps-try_except, Keeps-for_each,
)
