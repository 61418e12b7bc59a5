-- ===== src/Consumer/Ends.antt =====
-- Postconditions of the watched consumer: one on a return, with its result, and one on a raise.
use kafka_sqs.Base.{◌≡◌, refl, Bool, true, false, if◌then◌else◌}
use kafka_sqs.Base.Effect.{Exc, Outcome, ok, raise, out_of_fuel, Eff, continue, attempt}
use kafka_sqs.Consumer.Watch.{Phase, Call, step, Watched, told}

module _ {ℓ} {W : Type ℓ} {A : Type 0} where
  abbrev pub Holds : Outcome (Watched W) A → (A → Phase → Type 0) → (Phase → Type 0) → Type 0
  Holds (ok a s) P Q = P a s.phase
  Holds (raise e s) P Q = Q s.phase
  Holds out_of_fuel P Q = Unit

  pub record Ends (o : Outcome (Watched W) A) (P : A → Phase → Type 0) (Q : Phase → Type 0)
      : Type 0 where
    pub at : Holds o P Q

  told_Holds :
      (d : Bool) (p : Phase) (returned : A → Call) (raised : Call) (o : Outcome W A)
      → Holds
          (told d p returned raised o)
          (λ a q. q ≡ step d p (returned a))
          (λ q. q ≡ step d p raised)
  told_Holds d p returned raised (ok a w) = refl
  told_Holds d p returned raised (raise e w) = refl
  told_Holds d p returned raised out_of_fuel = tt

  pub told_Ends :
      (d : Bool) (p : Phase) (returned : A → Call) (raised : Call) (o : Outcome W A)
      → Ends
          (told d p returned raised o)
          (λ a q. q ≡ step d p (returned a))
          (λ q. q ≡ step d p raised)
  told_Ends d p returned raised o = record { at = told_Holds d p returned raised o }

  pub Ends-mono :
      (o : Outcome (Watched W) A) {P P' : A → Phase → Type 0} {Q Q' : Phase → Type 0}
      → Ends o P Q
      → ((a : A) (p : Phase) → P a p → P' a p)
      → ((p : Phase) → Q p → Q' p)
      → Ends o P' Q'
  Ends-mono (ok a s) h f g = record { at = f a s.phase h.at }
  Ends-mono (raise e s) h f g = record { at = g s.phase h.at }
  Ends-mono out_of_fuel h f g = record { at = tt }

module _ {ℓ} {W : Type ℓ} {A B : Type 0} where
  pub attempt_Ends :
      (o : Outcome (Watched W) A) (h : Exc → Eff (Watched W) B) (f : A → Eff (Watched W) B)
      {P : A → Phase → Type 0} {Q : Phase → Type 0} {P' : B → Phase → Type 0} {Q' : Phase → Type 0}
      → Ends o P Q
      → ((e : Exc) (s : Watched W) → Q s.phase → Ends (h e s) P' Q')
      → ((a : A) (s : Watched W) → P a s.phase → Ends (f a s) P' Q')
      → Ends (attempt o h f) P' Q'
  attempt_Ends (ok a s) h f e kh kf = kf a s e.at
  attempt_Ends (raise x s) h f e kh kf = kh x s e.at
  attempt_Ends out_of_fuel h f e kh kf = record { at = tt }

  pub continue_Ends :
      (o : Outcome (Watched W) A) (f : A → Eff (Watched W) B) {P : A → Phase → Type 0}
      {P' : B → Phase → Type 0} {Q : Phase → Type 0}
      → Ends o P Q
      → ((a : A) (s : Watched W) → P a s.phase → Ends (f a s) P' Q)
      → Ends (continue o f) P' Q
  continue_Ends (ok a s) f e kf = kf a s e.at
  continue_Ends (raise x s) f e kf = record { at = e.at }
  continue_Ends out_of_fuel f e kf = record { at = tt }

module _ {ℓ} {W : Type ℓ} {A : Type 0} {P : A → Phase → Type 0} {Q : Phase → Type 0} where
  pub if_Ends :
      (b : Bool) (m n : Eff (Watched W) A) (s : Watched W)
      → (b ≡ true → Ends (m s) P Q)
      → (b ≡ false → Ends (n s) P Q)
      → Ends ((if b then m else n) s) P Q
  if_Ends true m n s hm hn = hm refl
  if_Ends false m n s hm hn = hn refl
