-- ===== src/Base/TextOrder.antt =====
-- The order of texts by code points, as Python compares them, is total and transitive.
use Prim.Native.Nat.{Ordering, compare as compare_ℕ}
use Prim.Native.Char.{Char, code}
use Prim.Native.String.compare
use Prim.Native.String.{String, [], ◌∷◌, compare, then}
use mathlib.Core.Path.{◌≡◌, refl, ap, ◌∙◌}
use mathlib.Core.Bool.{Bool, true, false}
use native.Mathlib.Omega.{arith}
use text.Mathlib.TextEquality.{Char-path}
use kafka_sqs.Base.Tests.{ltb, ◌==◌, if◌then◌else◌}

abbrev pub le_of : Ordering → Bool
le_of Ordering.lt = true
le_of Ordering.eq = true
le_of Ordering.gt = false

abbrev pub le_text : String → String → Bool
le_text s t = le_of (compare s t)

le_text-nil : (t : String) → le_text [] t ≡ true
le_text-nil [] = ap le_of compare.nil-nil
le_text-nil (d ∷ t) = ap le_of (compare.nil-cons d t)

cons-le_text-nil : (c : Char) (s : String) → le_text (c ∷ s) [] ≡ false
cons-le_text-nil c s = ap le_of (compare.cons-nil c s)

le_text-cons :
    (c d : Char) (s t : String)
    → le_text (c ∷ s) (d ∷ t) ≡ (if code c == code d then le_text s t else ltb (code c) (code d))
le_text-cons c d s t = ap le_of (compare.cons-cons c d s t) ∙ by_code (compare_ℕ (code c) (code d))
  where
    by_code :
        (o : Ordering)
        → le_of ((then) o (compare s t)) ≡ (
            if elim o [ Ordering.eq ↦ true | _ ↦ false ]
            then le_text s t
            else elim o [ Ordering.lt ↦ true | _ ↦ false ])
    by_code Ordering.lt = refl
    by_code Ordering.eq = refl
    by_code Ordering.gt = refl

pub le_text_total : (s t : String) → le_text s t ≡ false → le_text t s ≡ true
le_text_total [] t h = absurd (cc (h, le_text-nil t))
le_text_total (c ∷ s) [] h = le_text-nil (c ∷ s)
le_text_total (c ∷ s) (d ∷ t) h =
    ground (arith, le_text_total s t, le_text-cons c d s t, le_text-cons d c t s)

pub le_text_trans : (s t u : String) → le_text s t ≡ true → le_text t u ≡ true → le_text s u ≡ true
le_text_trans [] t u h h' = le_text-nil u
le_text_trans (c ∷ s) [] u h h' = absurd (cc (h, cons-le_text-nil c s))
le_text_trans (c ∷ s) (d ∷ t) [] h h' = absurd (cc (h', cons-le_text-nil d t))
le_text_trans (c ∷ s) (d ∷ t) (e ∷ u) h h' =
    ground
      (arith, le_text_trans s t u, le_text-cons c d s t, le_text-cons d e t u, le_text-cons c e s u)

pub le_text_antisymm : (s t : String) → le_text s t ≡ true → le_text t s ≡ true → s ≡ t
le_text_antisymm [] [] h h' = refl
le_text_antisymm [] (d ∷ t) h h' = absurd (cc (h', cons-le_text-nil d t))
le_text_antisymm (c ∷ s) [] h h' = absurd (cc (h, cons-le_text-nil c s))
le_text_antisymm (c ∷ s) (d ∷ t) h h' =
    λ i. Char-path c d same i ∷ le_text_antisymm s t below above i
  where
    same : code c ≡ code d
    same = ground (arith, le_text-cons c d s t, le_text-cons d c t s)

    below : le_text s t ≡ true
    below = ground (arith, same, le_text-cons c d s t)

    above : le_text t s ≡ true
    above = ground (arith, same, le_text-cons d c t s)
