-- ===== src/Base/Effect.antt =====
-- Exceptions and effects. A method that talks to the outside is a function from the state of its
-- world to an outcome with the world after it; what was done before a raise stays done.
use Prim.Native.String.{String}
use mathlib.Core.Path.{◌≡◌, refl}
use mathlib.Core.Logic.{◌⊎◌, inl, inr}
use mathlib.Core.Bool.{Bool, true, false}
use mathlib.Core.List.{List, [], ◌∷◌}
use text.Mathlib.Text.{◌==◌ as str_eq}
use kafka_sqs.Base.Tests.{if◌then◌else◌}
use kafka_sqs.Base.Lists.{any}

-- An exception that `except Exception` catches: the names of its classes, its own first and then
-- the classes that it derives from, and its text.
pub record Exc : Type 0 where
  pub classes : List String
  pub text : String

-- isinstance(error, classes)
unfoldable pub is_instance : Exc → List String → Bool
is_instance e classes = any (λ c. any (str_eq c) e.classes) classes

abbrev first_of_classes : List String → String
first_of_classes [] = ""
first_of_classes (c ∷ cs) = c

-- type(error).__name__
abbrev pub type_name : Exc → String
type_name e = first_of_classes e.classes

abbrev pub value_error : String → Exc
value_error t = record { classes = "ValueError" ∷ "Exception" ∷ []; text = t }

abbrev pub runtime_error : String → Exc
runtime_error t = record { classes = "RuntimeError" ∷ "Exception" ∷ []; text = t }

abbrev pub type_error : String → Exc
type_error t = record { classes = "TypeError" ∷ "Exception" ∷ []; text = t }

-- What a pure call returns or raises.
pub data Reply {ℓ} (A : Type ℓ) : Type ℓ where
  value : A → Reply A
  error : Exc → Reply A

pub Reply-cases {ℓ} :
    {A : Type ℓ} (r : Reply A) → ((a : A) × (r ≡ value a)) ⊎ ((e : Exc) × (r ≡ error e))
Reply-cases (value a) = inl (a, refl)
Reply-cases (error e) = inr (e, refl)

-- What a call leaves: a result and the world, an exception and the world, or a loop of the model
-- whose fuel ran out.
pub data Outcome {ℓ κ} (W : Type ℓ) (A : Type κ) : Type (ℓ ⊔ κ) where
  ok : A → W → Outcome W A
  raise : Exc → W → Outcome W A
  out_of_fuel : Outcome W A

abbrev pub Eff {ℓ κ} : Type ℓ → Type κ → Type (ℓ ⊔ κ)
Eff W A = W → Outcome W A

module _ {ℓ κ} {W : Type ℓ} {A : Type κ} where
  abbrev pub pure : A → Eff W A
  pure a w = ok a w

  abbrev pub throw : Exc → Eff W A
  throw e w = raise e w

  abbrev pub lift : Reply A → Eff W A
  lift (value a) w = ok a w
  lift (error e) w = raise e w

  -- A call that cannot raise.
  abbrev pub reads : (W → A × W) → Eff W A
  reads f w = let (a, w') = f w in ok a w'

module _ {ℓ κ μ} {W : Type ℓ} {A : Type κ} {B : Type μ} where
  abbrev pub continue : Outcome W A → (A → Eff W B) → Outcome W B
  continue (ok a w) f = f a w
  continue (raise e w) f = raise e w
  continue out_of_fuel f = out_of_fuel

  -- try: m; except Exception as e: h e; else: f
  abbrev pub attempt : Outcome W A → (Exc → Eff W B) → (A → Eff W B) → Outcome W B
  attempt (ok a w) h f = f a w
  attempt (raise e w) h f = h e w
  attempt out_of_fuel h f = out_of_fuel

  infixl 5 ◌>>=◌
  abbrev pub ◌>>=◌ : Eff W A → (A → Eff W B) → Eff W B
  ◌>>=◌ m f w = continue (m w) f

  abbrev pub try_except : Eff W A → (Exc → Eff W B) → (A → Eff W B) → Eff W B
  try_except m h f w = attempt (m w) h f

module _ {ℓ κ} {W : Type ℓ} {B : Type κ} where
  infixl 5 ◌>>◌
  abbrev pub ◌>>◌ : Eff W (Unit {0}) → Eff W B → Eff W B
  m >> k = m >>= λ _. k

-- Inversion of a chain.
module _ {ℓ κ μ} {W : Type ℓ} {A : Type κ} {B : Type μ} where
  pub continue-eq-ok :
      (o : Outcome W A) (f : A → Eff W B) {b : B} {w : W}
      → continue o f ≡ ok b w
      → (a : A) × (v : W) × (o ≡ ok a v) × (f a v ≡ ok b w)
  continue-eq-ok (ok a v) f h = (a, v, refl, h)
  continue-eq-ok (raise e v) f h = absurd (cc)
  continue-eq-ok out_of_fuel f h = absurd (cc)

  pub continue-eq-raise :
      (o : Outcome W A) (f : A → Eff W B) {e : Exc} {w : W}
      → continue o f ≡ raise e w
      → (o ≡ raise e w) ⊎ ((a : A) × (v : W) × (o ≡ ok a v) × (f a v ≡ raise e w))
  continue-eq-raise (ok a v) f h = inr (a, v, refl, h)
  continue-eq-raise (raise x v) f h = inl (cc)
  continue-eq-raise out_of_fuel f h = absurd (cc)

module _ {ℓ κ} {W : Type ℓ} {A : Type κ} where
  pub lift-eq-ok : (r : Reply A) {a : A} {w w' : W} → lift r w ≡ ok a w' → (r ≡ value a) × (w ≡ w')
  lift-eq-ok (value b) h = (cc, cc)
  lift-eq-ok (error e) h = absurd (cc)

  -- A call behind a guard that raises.
  pub guarded_ok :
      (b : Bool) (e : Exc) (m : Eff W A) {a : A} {w w' : W}
      → (if b then throw e else m) w ≡ ok a w'
      → (b ≡ false) × (m w ≡ ok a w')
  guarded_ok true e m h = absurd (cc)
  guarded_ok false e m h = (refl, h)
