-- ===== src/Base/Select.antt =====
-- Laws of `any`, `All`, `select`, `find` and `Distinct`.
use mathlib.Core.Path.{◌≡◌, refl}
use mathlib.Core.Bool.{Bool, true, false, not, ◌||◌}
use mathlib.Core.List.{List, [], ◌∷◌}
use mathlib.Core.Option.{some}
use native.Mathlib.Omega.{arith}
use kafka_sqs.Base.Tests.{if◌then◌else◌}
use kafka_sqs.Base.Lists.{All, any, select, find}

module _ {ℓ} {A : Type ℓ} where
  pub All-mono {κ μ} :
      {P : A → Type κ} {Q : A → Type μ} (xs : List A) → ((x : A) → P x → Q x) → All P xs → All Q xs
  All-mono [] f h = tt
  All-mono (x ∷ xs) f h = (f x h.0, All-mono xs f h.1)

  pub All-select {κ μ} :
      {P : A → Type κ} {Q : A → Type μ} (q : A → Bool) (xs : List A)
      → ((x : A) → q x ≡ true → P x → Q x)
      → All P xs
      → All Q (select q xs)
  All-select q [] f h = tt
  All-select {P} {Q} q (x ∷ xs) f h = keep (q x) (f x) (All-select q xs f h.1)
    where
      keep :
          (b : Bool)
          → (b ≡ true → P x → Q x)
          → All Q (select q xs)
          → All Q (if b then x ∷ select q xs else select q xs)
      keep true g r = (g refl h.0, r)
      keep false g r = r

  -- A kept row is found as before.
  pub any-select :
      (p q : A → Bool) (xs : List A)
      → ((x : A) → p x ≡ true → q x ≡ true)
      → any p (select q xs) ≡ any p xs
  any-select p q [] f = refl
  any-select p q (x ∷ xs) f = ground (arith, f x, any-select p q xs f)

  pub any-select_lacks :
      (p q : A → Bool) (xs : List A) → any p xs ≡ false → any p (select q xs) ≡ false
  any-select_lacks p q [] h = refl
  any-select_lacks p q (x ∷ xs) h = ground (arith, any-select_lacks p q xs)

  -- No row that fails the test is left.
  pub any-select_removed : (p : A → Bool) (xs : List A) → any p (select (λ x. not (p x)) xs) ≡ false
  any-select_removed p [] = refl
  any-select_removed p (x ∷ xs) = ground (arith, any-select_removed p xs)

  pub select_unchanged :
      (p : A → Bool) (xs : List A) → any p xs ≡ false → select (λ x. not (p x)) xs ≡ xs
  select_unchanged p [] h = refl
  select_unchanged p (x ∷ xs) h = ground (arith, select_unchanged p xs)

  pub find-some_of_any :
      (p : A → Bool) (xs : List A) → any p xs ≡ true → (x : A) × (find p xs ≡ some x)
  find-some_of_any p [] h = absurd (cc)
  find-some_of_any p (x ∷ xs) h = here (p x) (λ e. find-some_of_any p xs e) h
    where
      here :
          (b : Bool)
          → (any p xs ≡ true → (y : A) × (find p xs ≡ some y))
          → (b || any p xs) ≡ true
          → (y : A) × ((if b then some x else find p xs) ≡ some y)
      here true r e = (x, refl)
      here false r e = r e

  pub any_of_find : (p : A → Bool) (xs : List A) {x : A} → find p xs ≡ some x → any p xs ≡ true
  any_of_find p [] h = cc
  any_of_find p (y ∷ xs) {x} h = ground (arith, any_of_find p xs {x = x})

  pub find_holds : (p : A → Bool) (xs : List A) {x : A} → find p xs ≡ some x → p x ≡ true
  find_holds p [] h = absurd (cc)
  find_holds p (y ∷ xs) {x} h = ground (arith, find_holds p xs {x = x})

  -- No two rows that are the same to a test.
  abbrev pub Distinct : (A → A → Bool) → List A → Type 0
  Distinct same [] = Unit
  Distinct same (x ∷ xs) = (any (same x) xs ≡ false) × Distinct same xs

  pub Distinct-select :
      (same : A → A → Bool) (q : A → Bool) (xs : List A)
      → Distinct same xs
      → Distinct same (select q xs)
  Distinct-select same q [] h = tt
  Distinct-select same q (x ∷ xs) h =
      keep (q x) (any-select_lacks (same x) q xs h.0) (Distinct-select same q xs h.1)
    where
      keep :
          (b : Bool)
          → any (same x) (select q xs) ≡ false
          → Distinct same (select q xs)
          → Distinct same (if b then x ∷ select q xs else select q xs)
      keep true new r = (new, r)
      keep false new r = r
