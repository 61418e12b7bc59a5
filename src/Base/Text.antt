-- ===== src/Base/Text.antt =====
-- Python text: blank tests by `str.strip`, and `str` of integers and UUIDs.
use Prim.Native.Nat.{ℕ, zero, suc, ◌/◌, ◌%◌, ◌^◌}
use Prim.Native.Char.{Char, code}
use Prim.Native.String.{String, [], ◌∷◌, ◌++◌}
use mathlib.Core.Path.{◌≡◌, refl}
use mathlib.Core.Bool.{Bool, true, false, ◌&&◌, ◌||◌}
use mathlib.Core.List.{List, [] as nil, ◌∷◌ as cons}
use kafka_sqs.Base.Tests.{leb, ◌==◌, if◌then◌else◌}

-- The code points that `str.strip` removes.
unfoldable pub is_space : ℕ → Bool
is_space c =
    (leb 9 c && leb c 13)
    || (leb 28 c && leb c 32)
    || (c == 133)
    || (c == 160)
    || (c == 5760)
    || (leb 8192 c && leb c 8202)
    || (c == 8232)
    || (c == 8233)
    || (c == 8239)
    || (c == 8287)
    || (c == 12288)

unfoldable pub lstrip : String → String
lstrip [] = []
lstrip (c ∷ s) = let rest = lstrip s in if is_space (code c) then rest else c ∷ s

abbrev pub cons_unless_space : Char → String → String
cons_unless_space c [] = if is_space (code c) then [] else c ∷ []
cons_unless_space c (d ∷ s) = c ∷ d ∷ s

unfoldable pub rstrip : String → String
rstrip [] = []
rstrip (c ∷ s) = cons_unless_space c (rstrip s)

-- s.strip()
unfoldable pub strip : String → String
unfolding lstrip rstrip is_space
strip s = rstrip (lstrip s)

abbrev pub is_empty : String → Bool
is_empty [] = true
is_empty (c ∷ s) = false

-- not s.strip()
unfoldable pub is_blank : String → Bool
unfolding strip
is_blank s = is_empty (strip s)

abbrev nth : List String → ℕ → String
nth nil n = ""
nth (cons s l) zero = s
nth (cons s l) (suc n) = nth l n

abbrev digit_list : List String
digit_list = cons "0" (
    cons "1" (
      cons "2" (
        cons "3" (
          cons "4" (
            cons "5" (
              cons "6" (
                cons "7" (
                  cons "8" (
                    cons "9"
                      (cons "a" (cons "b" (cons "c" (cons "d" (cons "e" (cons "f" nil)))))))))))))))

abbrev hex_digit : ℕ → String
hex_digit n = nth digit_list n

digits_of : ℕ → ℕ → String → String
digits_of zero n out = out
digits_of (suc f) n out =
    let rest = digits_of f (n / 10) (hex_digit (n % 10) ++ out) in if n == 0 then out else rest

-- str(n)
unfoldable pub str_int : ℕ → String
unfolding digits_of
str_int n = if n == 0 then "0" else digits_of n n ""

-- The `k` lowest hexadecimal digits of a number.
hex : ℕ → ℕ → String
hex zero n = ""
hex (suc k) n = hex k (n / 16) ++ hex_digit (n % 16)

-- str(uuid): 8, 4, 4, 4 and 12 digits
unfoldable pub str_uuid : ℕ → String
unfolding hex
str_uuid u =
    hex 8 (u / 2 ^ 96)
    ++ ("-"
        ++ (hex 4 (u / 2 ^ 80)
            ++ ("-" ++ (hex 4 (u / 2 ^ 64) ++ ("-" ++ (hex 4 (u / 2 ^ 48) ++ ("-" ++ hex 12 u)))))))

strip_blanks : strip "  orders \n" ≡ "orders"
unfolding strip
strip_blanks = refl

str_int_example : str_int 1048 ≡ "1048"
unfolding str_int
str_int_example = refl

str_uuid_example : str_uuid 255 ≡ "00000000-0000-0000-0000-0000000000ff"
unfolding str_uuid
str_uuid_example = refl
