-- ===== src/Base/Finishes.antt =====
-- Calls that return or raise, so that no loop of the model has run out of fuel.
use mathlib.Core.Path.{◌≡◌, refl}
use mathlib.Core.Bool.{Bool, true, false}
use kafka_sqs.Base.Tests.{if◌then◌else◌}
use kafka_sqs.Base.Effect.{Exc, Outcome, ok, raise, out_of_fuel, Eff, continue, attempt}

module _ {ℓ} {W : Type ℓ} {A : Type 0} where
  abbrev pub ran_out : Outcome W A → Bool
  ran_out (ok a w) = false
  ran_out (raise e w) = false
  ran_out out_of_fuel = true

  -- The call returns or raises.
  pub record Finishes (o : Outcome W A) : Type 0 where
    pub finishes : ran_out o ≡ false

module _ {ℓ} {W : Type ℓ} {A B : Type 0} where
  pub attempt_Finishes :
      (o : Outcome W A) (h : Exc → Eff W B) (f : A → Eff W B)
      → Finishes o
      → ((e : Exc) (w : W) → Finishes (h e w))
      → ((a : A) (w : W) → Finishes (f a w))
      → Finishes (attempt o h f)
  attempt_Finishes (ok a w) h f e kh kf = kf a w
  attempt_Finishes (raise x w) h f e kh kf = kh x w
  attempt_Finishes out_of_fuel h f e kh kf = absurd (cc (e.finishes))

  pub continue_Finishes :
      (o : Outcome W A) (f : A → Eff W B)
      → Finishes o
      → ((a : A) (w : W) → o ≡ ok a w → Finishes (f a w))
      → Finishes (continue o f)
  continue_Finishes (ok a w) f e kf = kf a w refl
  continue_Finishes (raise x w) f e kf = record { finishes = refl }
  continue_Finishes out_of_fuel f e kf = absurd (cc (e.finishes))

module _ {ℓ} {W : Type ℓ} {A : Type 0} where
  pub if_Finishes :
      (b : Bool) (m n : Eff W A) (w : W)
      → (b ≡ true → Finishes (m w))
      → (b ≡ false → Finishes (n w))
      → Finishes ((if b then m else n) w)
  if_Finishes true m n w hm hn = hm refl
  if_Finishes false m n w hm hn = hn refl
