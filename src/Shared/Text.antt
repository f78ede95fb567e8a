-- ===== src/Shared/Text.antt =====
-- C strings: the bytes before the terminating NUL. `strlen` is `length`, `strcmp(a, b) == 0` is
-- `str_eq a b`, `s[0] == '\0'` is `is_empty s`.
use Prim.Native.Char.{code}
use Prim.Native.String.{String}
use Prim.Native.Nat.{ℕ, zero, suc, ◌+◌, ◌/◌, ◌%◌, ◌-◌, ◌≤◌, ◌<◌}
use mathlib.Core.Path.{◌≡◌, refl, sym, ap, subst, ◌∙◌}
use mathlib.Core.Logic.{◌↔◌, ◌⊎◌, inl, inr}
use mathlib.Core.Bool.{Bool, true, false, ◌&&◌, ◌||◌}
use mathlib.Core.Option.{Option, none, some, some-injective}
use mathlib.Core.List.{List, [], ◌∷◌, ◌++◌}
use native.Mathlib.Omega.{arith}
use wind_cloud_v.Shared.Tests.{◌==◌, ltb, if◌then◌else◌, Bool-cases, ==_iff}
use wind_cloud_v.Shared.Lists.{length, length-take, take}

abbrev pub Bytes : Type 0
Bytes = List ℕ

-- The code points of an ASCII literal.
abbrev pub codes : String → Bytes
codes String.[] = []
codes (String.◌∷◌ c s) = code c ∷ codes s

-- A code point in UTF-8 (three bytes are enough for the texts of the program).
abbrev utf8 : ℕ → Bytes
utf8 c =
    if ltb c 128
    then c ∷ []
    else if ltb c 2048
    then (192 + c / 64) ∷ (128 + c % 64) ∷ []
    else (224 + c / 4096) ∷ (128 + c / 64 % 64) ∷ (128 + c % 64) ∷ []

-- The bytes of a literal of the source.
abbrev pub utf8_codes : String → Bytes
utf8_codes String.[] = []
utf8_codes (String.◌∷◌ c s) = utf8 (code c) ++ utf8_codes s

-- A chain of early returns: `none` ends it.
infixl 5 ◌>>=◌
abbrev pub ◌>>=◌ : {A B : Type 0} → Option A → (A → Option B) → Option B
none >>= f = none
some a >>= f = f a

unfoldable pub str_eq : Bytes → Bytes → Bool
str_eq [] [] = true
str_eq (x ∷ xs) (y ∷ ys) = x == y && str_eq xs ys
str_eq _ _ = false

pub str_eq_iff : (a b : Bytes) → (str_eq a b ≡ true) ↔ (a ≡ b)
unfolding str_eq
str_eq_iff [] [] = ground arith
str_eq_iff [] (y ∷ b) = ground arith
str_eq_iff (x ∷ a) [] = ground arith
str_eq_iff (x ∷ a) (y ∷ b) = ground (arith, str_eq_iff a b)

pub str_eq_refl : (a : Bytes) → str_eq a a ≡ true
str_eq_refl a = (str_eq_iff a a).1 refl

abbrev pub is_empty : Bytes → Bool
is_empty [] = true
is_empty (_ ∷ _) = false

-- `strchr(s, c) != NULL`
unfoldable pub has_byte : ℕ → Bytes → Bool
has_byte c [] = false
has_byte c (x ∷ xs) = x == c || has_byte c xs

-- `strncmp(s, p, strlen(p)) == 0`
unfoldable pub starts_with : Bytes → Bytes → Bool
starts_with [] s = true
starts_with (x ∷ p) [] = false
starts_with (x ∷ p) (y ∷ s) = x == y && starts_with p s

-- `strstr(s, p) != NULL`
unfoldable pub contains : Bytes → Bytes → Bool
unfolding starts_with
contains p [] = starts_with p []
contains p (x ∷ s) = starts_with p (x ∷ s) || contains p s

-- `strrchr`: the text before the last `c` and the text after it.
unfoldable pub split_last : ℕ → Bytes → Option (Bytes × Bytes)
split_last c [] = none
split_last c (x ∷ xs) = elim (split_last c xs) [
  | some (before, after) ↦ some (x ∷ before, after)
  | none ↦ if x == c then some ([], xs) else none
]

pub split_last-none : (c : ℕ) (s : Bytes) → has_byte c s ≡ false → split_last c s ≡ none
unfolding split_last has_byte
split_last-none c [] h = refl
split_last-none c (x ∷ s) h = ground (arith, split_last-none c s)

pub split_last-append :
    (c : ℕ) (s t : Bytes) → has_byte c t ≡ false → split_last c (s ++ c ∷ t) ≡ some (s, t)
unfolding split_last
split_last-append c [] t h = ground (arith, split_last-none c t h)
split_last-append c (x ∷ s) t h = ground (arith, split_last-append c s t h)

split_last_cases :
    (c : ℕ) (s : Bytes)
    → ((split_last c s ≡ none) × (has_byte c s ≡ false))
      ⊎ ((r : Bytes × Bytes) × (split_last c s ≡ some r)
          × (s ≡ r.0 ++ c ∷ r.1)
          × (has_byte c r.1 ≡ false))
unfolding split_last has_byte
split_last_cases c [] = inl (refl, refl)
split_last_cases c (x ∷ s) = elim (split_last_cases c s) [
  | inl (e, h) ↦ elim (Bool-cases (x == c)) [
    | inl hit ↦ inr (([], s), rw (e, hit), rw ((==_iff x c).0 hit), h)
    | inr miss ↦ inl (rw (e, miss), rw (miss, h))
  ]
  | inr (r, e, p, h) ↦ inr ((x ∷ r.0, r.1), rw e, ap (◌∷◌ x) p, h)
]

-- The two halves make up the text, and the second holds no separator.
pub split_last_sound :
    (c : ℕ) (s : Bytes) {r : Bytes × Bytes}
    → split_last c s ≡ some r
    → (s ≡ r.0 ++ c ∷ r.1) × (has_byte c r.1 ≡ false)
split_last_sound c s {r} e = elim (split_last_cases c s) [
  | inl (n, _) ↦ cc
  | inr (q, e', p, h) ↦ subst Halves (some-injective q r (sym e' ∙ e)) (p, h)
]
  where
    Halves : Bytes × Bytes → Type 0
    Halves q = (s ≡ q.0 ++ c ∷ q.1) × (has_byte c q.1 ≡ false)

-- `strcpy` or `sprintf` into a buffer of `size` bytes: `none` where the text and its NUL do not
-- fit, which in C is undefined behaviour.
unfoldable pub strcpy : ℕ → Bytes → Option Bytes
strcpy size s = if ltb (length s) size then some s else none

-- `snprintf(buf, size, ...) >= size` means failure: `none`.
unfoldable pub snprintf : ℕ → Bytes → Option Bytes
snprintf size s = if ltb (length s) size then some s else none

-- `snprintf` or `strncpy` whose result is not looked at: what fits of the text.
unfoldable pub truncated : ℕ → Bytes → Bytes
truncated size s = take (size - 1) s

pub strcpy-eq-some :
    (size : ℕ) (s : Bytes) {t : Bytes} → strcpy size s ≡ some t → (t ≡ s) × (length s < size)
unfolding strcpy
strcpy-eq-some size s e = ground arith

pub snprintf-eq-some :
    (size : ℕ) (s : Bytes) {t : Bytes} → snprintf size s ≡ some t → (t ≡ s) × (length s < size)
unfolding snprintf
snprintf-eq-some size s e = ground arith

pub length-truncated : (size : ℕ) (s : Bytes) → 0 < size → length (truncated size s) < size
unfolding truncated
length-truncated size s h = omega (arith, length-take (size - 1) s)

pub take_all : (n : ℕ) (s : Bytes) → length s ≤ n → take n s ≡ s
take_all zero [] h = refl
take_all zero (x ∷ s) h = absurd (omega arith)
take_all (suc n) [] h = refl
take_all (suc n) (x ∷ s) h = ap (◌∷◌ x) (take_all n s (omega arith))

-- A text that fits is not cut.
pub truncated_fits : (size : ℕ) (s : Bytes) → length s < size → truncated size s ≡ s
unfolding truncated
truncated_fits size s h = take_all (size - 1) s (omega arith)
