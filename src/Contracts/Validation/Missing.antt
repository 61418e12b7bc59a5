-- ===== src/Contracts/Validation/Missing.antt =====
-- The path of a property that is missing.
use Prim.Native.Nat.{ℕ, ◌≤◌, ◌<◌}
use Prim.Native.Char.{Char, char, code}
use Prim.Native.String.{String, [], ◌∷◌, ◌++◌, count}
use mathlib.Core.Path.{◌≡◌, refl, ap, ◌∙◌}
use mathlib.Core.Logic.{◌≢◌}
use mathlib.Core.Bool.{false}
use mathlib.Core.Option.{some}
use mathlib.Core.List.{List, [] as nil, ◌∷◌ as cons, ◌++◌ as append}
use native.Mathlib.Omega.{arith}
use text.Mathlib.TextEquality.{eq_iff}
use text.Mathlib.TextLemmas.{nil-append, cons-append, length-append, length-cons}
use kafka_sqs.Base.Text.{is_empty}
use kafka_sqs.Contracts.Libraries.{PathPart, name}
use kafka_sqs.Contracts.Validation.{
  nonempty, is_required_suffix, field_before, missing_property, json_path, to_issue,
}

-- No line feed, at which the `.` of a regular expression stops.
abbrev OneLine : String → Type 0
OneLine [] = Unit
OneLine (c ∷ s) = (code c ≢ 10) × OneLine s

-- Printable ASCII but the apostrophe and the backslash: `repr` of the text is the text between
-- apostrophes.
abbrev pub PlainText : String → Type 0
PlainText [] = Unit
PlainText (c ∷ s) = (32 ≤ code c) × (code c < 127) × (code c ≢ 39) × (code c ≢ 92) × PlainText s

PlainText-OneLine : (s : String) → PlainText s → OneLine s
PlainText-OneLine [] plain = tt
PlainText-OneLine (c ∷ s) (low, high, quote, slash, rest) =
    (λ e. omega (arith, low, e), PlainText-OneLine s rest)

abbrev suffix : String
suffix = "' is a required property"

abbrev first_code : String → ℕ
first_code [] = 0
first_code (c ∷ s) = code c

abbrev rest_of : String → String
rest_of [] = []
rest_of (c ∷ s) = s

-- A longer text that ends in the suffix is no suffix itself.
cons_append-ne-suffix : (c : Char) (s : String) → c ∷ (s ++ suffix) ≢ suffix
cons_append-ne-suffix c s e =
    omega (arith, ap count e, length-cons c (s ++ suffix), length-append s suffix)

cons_append-ne-suffix_line :
    (c : Char) (s : String) → c ∷ (s ++ suffix) ≢ "' is a required property\n"
cons_append-ne-suffix_line c [] e = omega (arith, ap (λ t. first_code (rest_of t)) e)
cons_append-ne-suffix_line c (d ∷ s) e = omega (
  arith,
  ap count e,
  length-cons c ((d ∷ s) ++ suffix),
  length-append (d ∷ s) suffix,
  length-cons d s,
)

is_required_suffix-append : (c : Char) (s : String) → is_required_suffix (c ∷ (s ++ suffix)) ≡ false
is_required_suffix-append c s = ground (
  arith,
  eq_iff (c ∷ (s ++ suffix)) suffix,
  eq_iff (c ∷ (s ++ suffix)) "' is a required property\n",
  cons_append-ne-suffix c s,
  cons_append-ne-suffix_line c s,
)

field_before-append : (s : String) → OneLine s → field_before (s ++ suffix) ≡ some s
unfolding field_before
field_before-append [] h = refl
field_before-append (c ∷ s) h =
    rw cons-append (ground (arith, is_required_suffix-append c s, field_before-append s h.1))

quote : Char
quote = char 39 tt

cons_quote : (t : String) → "'" ++ t ≡ quote ∷ t
unfolding quote
cons_quote t = cons-append quote [] t ∙ ap (λ s. quote ∷ s) (nil-append t)

missing_property-append :
    (field : String)
    → OneLine field
    → is_empty field ≡ false
    → missing_property ("'" ++ (field ++ suffix)) ≡ some field
unfolding missing_property quote
missing_property-append [] line full = absurd (cc)
missing_property-append (c ∷ s) line full =
    ap missing_property (cons_quote ((c ∷ s) ++ suffix))
    ∙ ap nonempty (field_before-append (c ∷ s) line)

-- The issue for a missing property, whose name is not empty and consists of printable ASCII without
-- the apostrophe and the backslash, so that jsonschema shows it between apostrophes, is that it is
-- required, at its own path: the path of the object followed by the name.
pub to_issue-required :
    (path : List PathPart) (field : String)
    → PlainText field
    → is_empty field ≡ false
    → to_issue (record {
      absolute_path = path;
      message = "'" ++ (field ++ "' is a required property");
      validator = "required";
    })
      ≡ record {
        path = json_path (append path (cons (name field) nil));
        message = "is required";
        rule = "required";
      }
unfolding to_issue
to_issue-required path field plain full =
    rw (missing_property-append field (PlainText-OneLine field plain) full) refl
