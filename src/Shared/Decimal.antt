-- ===== src/Shared/Decimal.antt =====
-- `%d` and `%lld` print an integer, atoi and atoll read one. Where the C functions leave the range
-- of their type, which is undefined, the model goes on with the integer.
use Prim.Native.Nat.{ℕ, zero, suc, ◌+◌, ◌-◌, ◌*◌, ◌/◌, ◌%◌, ◌<◌}
use mathlib.Core.Path.{◌≡◌, refl, ap, ◌∙◌}
use mathlib.Core.Logic.{inl, inr, ◌≢◌}
use mathlib.Core.Bool.{Bool, true, false, ◌&&◌, ◌||◌}
use mathlib.Core.List.{[], ◌∷◌, ◌++◌}
use native.Mathlib.Omega.{arith}
use wind_cloud_v.Shared.Tests.{ltb, leb, ◌==◌, if◌then◌else◌, Bool-cases}
use wind_cloud_v.Shared.Int.{ℤ, pos, negsuc}
use wind_cloud_v.Shared.Text.{Bytes, has_byte}

abbrev pub is_digit : ℕ → Bool
is_digit c = leb b'0' c && leb c b'9'

-- isspace
abbrev is_space : ℕ → Bool
is_space c = c == 32 || (leb 9 c && leb c 13)

-- The digits of n, the last one first computed: one round for each digit.
digits_fuel : ℕ → ℕ → Bytes
digits_fuel zero n = []
digits_fuel (suc fuel) n =
    let rest = digits_fuel fuel (n / 10) in
    if ltb n 10 then (48 + n) ∷ [] else rest ++ (48 + n % 10) ∷ []

unfoldable pub print_ℕ : ℕ → Bytes
unfolding digits_fuel
print_ℕ n = digits_fuel (suc n) n

unfoldable pub print_ℤ : ℤ → Bytes
print_ℤ (pos n) = print_ℕ n
print_ℤ (negsuc n) = b'-' ∷ print_ℕ (suc n)

-- The digits in front of the first other byte.
unfoldable pub read_digits : ℕ → Bytes → ℕ
read_digits acc [] = acc
read_digits acc (c ∷ cs) =
    let rest = read_digits (acc * 10 + (c - 48)) cs in if is_digit c then rest else acc

negate : ℕ → ℤ
negate zero = pos 0
negate (suc n) = negsuc n

read_signed : Bytes → ℤ
read_signed [] = pos 0
read_signed (c ∷ cs) =
    if c == b'-'
    then negate (read_digits 0 cs)
    else if c == b'+'
    then pos (read_digits 0 cs)
    else pos (read_digits 0 (c ∷ cs))

-- Space in front, a sign, digits; 0 where no digit stands.
unfoldable pub atoll : Bytes → ℤ
unfolding read_signed read_digits negate
atoll [] = pos 0
atoll (c ∷ cs) = let rest = atoll cs in if is_space c then rest else read_signed (c ∷ cs)

-- The text does not go on with a digit.
abbrev pub EndsNumber : Bytes → Type 0
EndsNumber [] = Unit {0}
EndsNumber (c ∷ cs) = is_digit c ≡ false

read_digits-end : (acc : ℕ) (rest : Bytes) → EndsNumber rest → read_digits acc rest ≡ acc
unfolding read_digits
read_digits-end acc [] e = refl
read_digits-end acc (c ∷ rest) e = ground arith

-- Every byte is a digit.
abbrev AllDigits : Bytes → Type 0
AllDigits [] = Unit {0}
AllDigits (c ∷ cs) = (is_digit c ≡ true) × AllDigits cs

-- The number that digits stand for, behind the digits of acc.
abbrev value_from : ℕ → Bytes → ℕ
value_from acc [] = acc
value_from acc (c ∷ cs) = value_from (acc * 10 + (c - 48)) cs

read_digits-digit :
    (acc d : ℕ) (cs : Bytes)
    → is_digit d ≡ true
    → read_digits acc (d ∷ cs) ≡ read_digits (acc * 10 + (d - 48)) cs
unfolding read_digits
read_digits-digit acc d cs h = rw h

read_digits-value :
    (ds : Bytes) (acc : ℕ) (rest : Bytes)
    → AllDigits ds
    → EndsNumber rest
    → read_digits acc (ds ++ rest) ≡ value_from acc ds
read_digits-value [] acc rest a e = read_digits-end acc rest e
read_digits-value (d ∷ ds) acc rest a e =
    read_digits-digit acc d (ds ++ rest) a.0 ∙ read_digits-value ds (acc * 10 + (d - 48)) rest a.1 e

AllDigits-append : (xs ys : Bytes) → AllDigits xs → AllDigits ys → AllDigits (xs ++ ys)
AllDigits-append [] ys a b = b
AllDigits-append (x ∷ xs) ys a b = (a.0, AllDigits-append xs ys a.1 b)

value_from-append :
    (xs : Bytes) (acc d : ℕ) → value_from acc (xs ++ d ∷ []) ≡ value_from acc xs * 10 + (d - 48)
value_from-append [] acc d = refl
value_from-append (x ∷ xs) acc d = value_from-append xs (acc * 10 + (x - 48)) d

digits_fuel_lem :
    (fuel n : ℕ)
    → n < fuel
    → AllDigits (digits_fuel fuel n) × (value_from 0 (digits_fuel fuel n) ≡ n)
unfolding digits_fuel
digits_fuel_lem zero n h = absurd (omega arith)
digits_fuel_lem (suc fuel) n h = elim (Bool-cases (ltb n 10)) [
  | inl small ↦ rw small ((ground arith, tt), ground arith)
  | inr big ↦
      let (a, v) = digits_fuel_lem fuel (n / 10) (ground arith) in
      rw big (
        AllDigits-append _ _ a (ground arith, tt),
        value_from-append (digits_fuel fuel (n / 10)) 0 (48 + n % 10) ∙ omega (arith, v),
      )
]

print_ℕ-AllDigits : (n : ℕ) → AllDigits (print_ℕ n)
unfolding print_ℕ
print_ℕ-AllDigits n = (digits_fuel_lem (suc n) n (omega arith)).0

value_from-print_ℕ : (n : ℕ) → value_from 0 (print_ℕ n) ≡ n
unfolding print_ℕ
value_from-print_ℕ n = (digits_fuel_lem (suc n) n (omega arith)).1

concat-ne-nil : (xs : Bytes) (d : ℕ) → xs ++ d ∷ [] ≢ []
concat-ne-nil [] d e = cc
concat-ne-nil (x ∷ xs) d e = cc

pub print_ℕ-ne-nil : (n : ℕ) → print_ℕ n ≢ []
unfolding print_ℕ
print_ℕ-ne-nil n = ground (arith, concat-ne-nil (digits_fuel n (n / 10)) (48 + n % 10))

-- A text that starts with a digit is read from there.
atoll-digits :
    (cs rest : Bytes)
    → AllDigits cs
    → cs ≢ []
    → atoll (cs ++ rest) ≡ pos (read_digits 0 (cs ++ rest))
unfolding atoll
atoll-digits [] rest a n = absurd (n refl)
atoll-digits (c ∷ cs) rest a n = ground arith

read_digits-print_ℕ :
    (n : ℕ) (rest : Bytes) → EndsNumber rest → read_digits 0 (print_ℕ n ++ rest) ≡ n
read_digits-print_ℕ n rest e =
    read_digits-value (print_ℕ n) 0 rest (print_ℕ-AllDigits n) e ∙ value_from-print_ℕ n

atoll_minus : (cs : Bytes) → atoll (b'-' ∷ cs) ≡ negate (read_digits 0 cs)
unfolding atoll
atoll_minus cs = refl

-- What was printed is read back, whatever stands behind it but a digit.
pub atoll-print_ℤ : (a : ℤ) (rest : Bytes) → EndsNumber rest → atoll (print_ℤ a ++ rest) ≡ a
unfolding print_ℤ negate
atoll-print_ℤ (pos n) rest e =
    atoll-digits (print_ℕ n) rest (print_ℕ-AllDigits n) (print_ℕ-ne-nil n)
    ∙ ap pos (read_digits-print_ℕ n rest e)
atoll-print_ℤ (negsuc n) rest e =
    atoll_minus (print_ℕ (suc n) ++ rest) ∙ ap negate (read_digits-print_ℕ (suc n) rest e)

has_byte-digits : (c : ℕ) (ds : Bytes) → is_digit c ≡ false → AllDigits ds → has_byte c ds ≡ false
unfolding has_byte
has_byte-digits c [] h a = refl
has_byte-digits c (d ∷ ds) h a = ground (arith, has_byte-digits c ds h a.1)

-- A number is printed with digits and a minus sign only.
pub has_byte-print_ℤ :
    (c : ℕ) (a : ℤ) → is_digit c ≡ false → c ≢ b'-' → has_byte c (print_ℤ a) ≡ false
unfolding print_ℤ has_byte
has_byte-print_ℤ c (pos n) h m = has_byte-digits c (print_ℕ n) h (print_ℕ-AllDigits n)
has_byte-print_ℤ c (negsuc n) h m =
    ground (arith, has_byte-digits c (print_ℕ (suc n)) h (print_ℕ-AllDigits (suc n)))
