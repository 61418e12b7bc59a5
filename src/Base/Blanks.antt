-- ===== src/Base/Blanks.antt =====
-- White space at the ends of a text: a text is blank exactly if it consists of white space.
use native.Mathlib.Omega.{arith}
use Prim.Native.Char.{Char, code}
use Prim.Native.String.{String, [], ◌∷◌}
use mathlib.Core.Path.{◌≡◌, refl, sym, ap, ◌∙◌}
use mathlib.Core.Logic.{inl, inr}
use mathlib.Core.Bool.{Bool, true, ◌&&◌}
use kafka_sqs.Base.Tests.{Bool-cases}
use kafka_sqs.Base.Text.{is_space, lstrip, rstrip, cons_unless_space, strip, is_empty, is_blank}

-- s.isspace(), of a text that may be empty.
all_space : String → Bool
all_space [] = true
all_space (c ∷ s) = is_space (code c) && all_space s

all_space-lstrip : (s : String) → all_space (lstrip s) ≡ all_space s
unfolding lstrip all_space
all_space-lstrip [] = refl
all_space-lstrip (c ∷ s) = elim (Bool-cases (is_space (code c))) [
  | inl e ↦ rw e (all_space-lstrip s)
  | inr e ↦ ground arith
]

all_space-cons_unless_space :
    (c : Char) (r : String) → all_space (cons_unless_space c r) ≡ (is_space (code c) && all_space r)
unfolding all_space
all_space-cons_unless_space c [] = elim (Bool-cases (is_space (code c))) [
  | inl e ↦ rw e refl
  | inr e ↦ ground arith
]
all_space-cons_unless_space c (d ∷ s) = refl

is_empty-cons_unless_space :
    (c : Char) (r : String) → is_empty (cons_unless_space c r) ≡ (is_space (code c) && is_empty r)
is_empty-cons_unless_space c [] = elim (Bool-cases (is_space (code c))) [
  | inl e ↦ rw e refl
  | inr e ↦ rw e refl
]
is_empty-cons_unless_space c (d ∷ s) = ground arith

all_space-rstrip : (s : String) → all_space (rstrip s) ≡ all_space s
unfolding rstrip all_space
all_space-rstrip [] = refl
all_space-rstrip (c ∷ s) =
    all_space-cons_unless_space c (rstrip s) ∙ ap (λ b. is_space (code c) && b) (all_space-rstrip s)

is_empty-rstrip : (s : String) → is_empty (rstrip s) ≡ all_space s
unfolding rstrip all_space
is_empty-rstrip [] = refl
is_empty-rstrip (c ∷ s) =
    is_empty-cons_unless_space c (rstrip s) ∙ ap (λ b. is_space (code c) && b) (is_empty-rstrip s)

is_blank-all_space : (s : String) → is_blank s ≡ all_space s
unfolding is_blank strip
is_blank-all_space s = is_empty-rstrip (lstrip s) ∙ all_space-lstrip s

pub is_blank-strip : (s : String) → is_blank (strip s) ≡ is_blank s
unfolding strip
is_blank-strip s =
    is_blank-all_space (strip s)
    ∙ all_space-rstrip (lstrip s)
    ∙ all_space-lstrip s
    ∙ sym (is_blank-all_space s)
