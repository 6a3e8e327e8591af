-- ===== src/Action.antt =====
-- A call of the program: it reads and changes the world, and returns or raises. What was committed
-- before a raise stays, so the world comes back beside the exception too.
pub mod Keeps
pub mod Gives
use loboguara.Common.{
  Bool, true, false, Option, none, some, Exception, Result, ok, err, List, [], ◌∷◌,
}
use loboguara.World.{World}

abbrev pub Action {ℓ} : Type ℓ → Type ℓ
Action A = World → Result A × World

module _ {ℓ} {A : Type ℓ} where
  unfoldable pub pure : A → Action A
  pure a w = (ok a, w)

  unfoldable pub raise : Exception → Action A
  raise e w = (err e, w)

  unfoldable pub gets : (World → A) → Action A
  gets f w = (ok (f w), w)

  unfoldable pub lift : Result A → Action A
  lift r w = (r, w)

  -- `if x is None: raise e`
  unfoldable pub or_raise : Option A → Exception → Action A
  or_raise none e w = (err e, w)
  or_raise (some a) e w = (ok a, w)

unfoldable pub modify : (World → World) → Action (Unit {0})
modify f w = (ok tt, f w)

-- what follows a call that returned
unfoldable pub resume {ℓ κ} :
    {A : Type ℓ} {B : Type κ} → (A → Action B) → Result A × World → Result B × World
resume f (ok a, w) = f a w
resume f (err e, w) = (err e, w)

-- what follows a call that raised
unfoldable pub rescue {ℓ} :
    {A : Type ℓ} → (Exception → Action A) → Result A × World → Result A × World
rescue handler (ok a, w) = (ok a, w)
rescue handler (err e, w) = handler e w

infixl 5 ◌>>=◌ ◌>>◌
unfoldable pub ◌>>=◌ {ℓ κ} : {A : Type ℓ} {B : Type κ} → Action A → (A → Action B) → Action B
unfolding resume
◌>>=◌ m f w = resume f (m w)

unfoldable pub ◌>>◌ {ℓ κ} : {A : Type ℓ} {B : Type κ} → Action A → Action B → Action B
unfolding resume
◌>>◌ m k w = resume (λ _. k) (m w)

-- `if b: m`
unfoldable pub when : Bool → Action (Unit {0}) → Action (Unit {0})
when true m w = m w
when false m w = (ok tt, w)

-- `if x is None: m else: k(x)`
unfoldable pub on_option {ℓ κ} :
    {A : Type ℓ} {B : Type κ} → Option A → Action B → (A → Action B) → Action B
on_option none m k w = m w
on_option (some a) m k w = k a w

-- `try: m except Exception: handler`
unfoldable pub try_except {ℓ} : {A : Type ℓ} → Action A → (Exception → Action A) → Action A
unfolding rescue
try_except m handler w = rescue handler (m w)

-- `for x in xs: body(x)`
unfoldable pub for_each {ℓ} : {A : Type ℓ} → List A → (A → Action (Unit {0})) → Action (Unit {0})
unfolding pure ◌>>◌
for_each [] body = pure tt
for_each (x ∷ xs) body = body x >> for_each xs body

-- To unfold this is to unfold the combinators.
unfoldable pub combinators : Unit {0}
unfolding pure raise gets lift or_raise modify ◌>>=◌ ◌>>◌ when on_option try_except for_each
combinators = tt
