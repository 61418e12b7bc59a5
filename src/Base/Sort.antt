-- ===== src/Base/Sort.antt =====
-- Insertion sort by a Boolean order, stable as Python's `sorted` is.
use Prim.Native.Nat.{ℕ}
use mathlib.Core.Path.{◌≡◌}
use mathlib.Core.Bool.{Bool, true, false}
use mathlib.Core.List.{List, [], ◌∷◌, Perm}
use mathlib.Core.List.Perm
use native.Mathlib.Omega.{arith}
use kafka_sqs.Base.Tests.{Bool-cases, if◌then◌else◌, leb}
use kafka_sqs.Base.Lists.{All}
use mathlib.Core.Logic.{inl, inr}

module _ {ℓ} {A : Type ℓ} where
  unfoldable pub insert_by : (A → A → Bool) → A → List A → List A
  insert_by le x [] = x ∷ []
  insert_by le x (y ∷ l) = let rest = insert_by le x l in if le x y then x ∷ y ∷ l else y ∷ rest

  unfoldable pub sort_by : (A → A → Bool) → List A → List A
  unfolding insert_by
  sort_by le [] = []
  sort_by le (x ∷ l) = insert_by le x (sort_by le l)

  pub record IsOrder (le : A → A → Bool) : Type ℓ where
    pub total : (x y : A) → le x y ≡ false → le y x ≡ true
    pub trans : (x y z : A) → le x y ≡ true → le y z ≡ true → le x z ≡ true

  -- Every item comes before all that follow it.
  abbrev pub IsSorted : (A → A → Bool) → List A → Type 0
  IsSorted le [] = Unit
  IsSorted le (x ∷ l) = All (λ y. le x y ≡ true) l × IsSorted le l

  insert_by-perm : (le : A → A → Bool) (x : A) (l : List A) → Perm (insert_by le x l) (x ∷ l)
  unfolding insert_by
  insert_by-perm le x [] = Perm.rfl
  insert_by-perm le x (y ∷ l) = elim (Bool-cases (le x y)) [
    | inl before ↦ rw before Perm.rfl
    | inr after ↦ rw after (Perm.trans (Perm.cons y (insert_by-perm le x l)) (Perm.swap x y l))
  ]

  pub sort_by-perm : (le : A → A → Bool) (l : List A) → Perm (sort_by le l) l
  unfolding sort_by
  sort_by-perm le [] = Perm.rfl
  sort_by-perm le (x ∷ l) =
      Perm.trans (insert_by-perm le x (sort_by le l)) (Perm.cons x (sort_by-perm le l))

  All-insert_by {κ} :
      (P : A → Type κ) (le : A → A → Bool) (x : A) (l : List A)
      → P x
      → All P l
      → All P (insert_by le x l)
  unfolding insert_by
  All-insert_by P le x [] h hs = (h, tt)
  All-insert_by P le x (y ∷ l) h hs = elim (Bool-cases (le x y)) [
    | inl before ↦ rw before (h, hs)
    | inr after ↦ rw after (hs.0, All-insert_by P le x l h hs.1)
  ]

  pub sort_by-All {κ} :
      (P : A → Type κ) (le : A → A → Bool) (l : List A) → All P l → All P (sort_by le l)
  unfolding sort_by
  sort_by-All P le [] hs = tt
  sort_by-All P le (x ∷ l) hs = All-insert_by P le x (sort_by le l) hs.0 (sort_by-All P le l hs.1)

  module _ (le : A → A → Bool) (order : IsOrder le) where
    All-below :
        (x y : A) (l : List A)
        → le x y ≡ true
        → All (λ z. le y z ≡ true) l
        → All (λ z. le x z ≡ true) l
    All-below x y [] h hs = tt
    All-below x y (z ∷ l) h hs = (order.trans x y z h hs.0, All-below x y l h hs.1)

    insert_by-IsSorted : (x : A) (l : List A) → IsSorted le l → IsSorted le (insert_by le x l)
    unfolding insert_by
    insert_by-IsSorted x [] h = (tt, tt)
    insert_by-IsSorted x (y ∷ l) h = elim (Bool-cases (le x y)) [
      | inl before ↦ rw before ((before, All-below x y l before h.0), h)
      | inr after ↦ rw after (
        All-insert_by (λ z. le y z ≡ true) le x l (order.total x y after) h.0,
        insert_by-IsSorted x l h.1,
      )
    ]

    pub sort_by-IsSorted : (l : List A) → IsSorted le (sort_by le l)
    unfolding sort_by
    sort_by-IsSorted [] = tt
    sort_by-IsSorted (x ∷ l) = insert_by-IsSorted x (sort_by le l) (sort_by-IsSorted l)

-- An order by a number.
pub leb_by-IsOrder {ℓ} : {A : Type ℓ} (f : A → ℕ) → IsOrder (λ x y. leb (f x) (f y))
leb_by-IsOrder f = record { total = λ x y h. ground arith; trans = λ x y z h h'. ground arith }

pub leb_by_desc-IsOrder {ℓ} : {A : Type ℓ} (f : A → ℕ) → IsOrder (λ x y. leb (f y) (f x))
leb_by_desc-IsOrder f = record { total = λ x y h. ground arith; trans = λ x y z h h'. ground arith }
