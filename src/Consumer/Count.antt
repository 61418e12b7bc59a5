-- ===== src/Consumer/Count.antt =====
-- A number that calls leave in the world, for a bound on how often a call is made.
use kafka_sqs.Base.{ℕ, ◌≡◌, refl, Bool, true, false, if◌then◌else◌}
use kafka_sqs.Base.Effect.{Exc, Outcome, ok, raise, out_of_fuel, Eff, continue, attempt}

module _ {ℓ} {W : Type ℓ} {A : Type 0} where
  abbrev pub Left : Outcome W A → (A → W → Type 0) → (W → Type 0) → Type 0
  Left (ok a w) P Q = P a w
  Left (raise e w) P Q = Q w
  Left out_of_fuel P Q = Unit

  -- A call that returns leaves `P`, and one that raises leaves `Q`.
  pub record Leaves (o : Outcome W A) (P : A → W → Type 0) (Q : W → Type 0) : Type 0 where
    pub at : Left o P Q

  -- The number is the same after the call.
  abbrev pub Keeps : (W → ℕ) → ℕ → Outcome W A → Type 0
  Keeps count n o = Leaves o (λ _ w. count w ≡ n) (λ w. count w ≡ n)

  pub Leaves-map :
      (o : Outcome W A) {P P' : A → W → Type 0} {Q Q' : W → Type 0}
      → Leaves o P Q
      → ((a : A) (w : W) → P a w → P' a w)
      → ((w : W) → Q w → Q' w)
      → Leaves o P' Q'
  Leaves-map (ok a w) h f g = record { at = f a w h.at }
  Leaves-map (raise e w) h f g = record { at = g w h.at }
  Leaves-map out_of_fuel h f g = record { at = tt }

module _ {ℓ} {W : Type ℓ} {A : Type 0} {P : A → W → Type 0} {Q : W → Type 0} where
  pub Leaves-ok : {o : Outcome W A} {a : A} {w : W} → Leaves o P Q → o ≡ ok a w → P a w
  Leaves-ok l e = rw e at l.at

  pub Leaves-raise : {o : Outcome W A} {e : Exc} {w : W} → Leaves o P Q → o ≡ raise e w → Q w
  Leaves-raise l e = rw e at l.at

module _ {ℓ} {W : Type ℓ} {A B : Type 0} where
  pub attempt_Leaves :
      (o : Outcome W A) (h : Exc → Eff W B) (f : A → Eff W B) {P : A → W → Type 0} {Q : W → Type 0}
      {P' : B → W → Type 0} {Q' : W → Type 0}
      → Leaves o P Q
      → ((e : Exc) (w : W) → Q w → Leaves (h e w) P' Q')
      → ((a : A) (w : W) → P a w → Leaves (f a w) P' Q')
      → Leaves (attempt o h f) P' Q'
  attempt_Leaves (ok a w) h f l kh kf = kf a w l.at
  attempt_Leaves (raise x w) h f l kh kf = kh x w l.at
  attempt_Leaves out_of_fuel h f l kh kf = record { at = tt }

  pub continue_Leaves :
      (o : Outcome W A) (f : A → Eff W B) {P : A → W → Type 0} {P' : B → W → Type 0}
      {Q : W → Type 0}
      → Leaves o P Q
      → ((a : A) (w : W) → P a w → Leaves (f a w) P' Q)
      → Leaves (continue o f) P' Q
  continue_Leaves (ok a w) f l kf = kf a w l.at
  continue_Leaves (raise x w) f l kf = record { at = l.at }
  continue_Leaves out_of_fuel f l kf = record { at = tt }

module _ {ℓ} {W : Type ℓ} {A : Type 0} {P : A → W → Type 0} {Q : W → Type 0} where
  pub if_Leaves :
      (b : Bool) (m n : Eff W A) (w : W)
      → (b ≡ true → Leaves (m w) P Q)
      → (b ≡ false → Leaves (n w) P Q)
      → Leaves ((if b then m else n) w) P Q
  if_Leaves true m n w hm hn = hm refl
  if_Leaves false m n w hm hn = hn refl
