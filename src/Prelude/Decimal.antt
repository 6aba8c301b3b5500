-- ===== src/Prelude/Decimal.antt =====
-- What the program uses of `std::stoll`, `std::stoi` and `std::to_string`, and 64-bit arithmetic.
pub mod RoundTrip
use tiny_kv_distributed_stor.Prelude.{
  ℕ, zero, suc, ◌+◌, ◌-◌, ◌*◌, ◌/◌, ◌%◌, ◌^◌, ◌≤◌, ◌<◌, ◌≡◌, refl, Bool, true, false, ◌&&◌, ◌||◌,
  Option, none, some, List, [], ◌∷◌, ◌++◌, arith, ltb, leb, ◌==◌, if◌then◌else◌, inl, inr,
  Bool-cases, ltb→lt,
}
use tiny_kv_distributed_stor.Prelude.Text.{Text, codes}
use tiny_kv_distributed_stor.Prelude.Int.{ℤ, pos, negsuc, sub_ℕ}

-- `std::isspace` and `std::isdigit` in the "C" locale, the only one the program runs in.
abbrev pub is_space : ℕ → Bool
is_space c = (c == 32) || (leb 9 c && leb c 13)

abbrev pub is_digit : ℕ → Bool
is_digit c = leb 48 c && leb c 57

-- A decimal numeral, with an accumulator of the digits that follow.
unfoldable pub digits_onto : ℕ → ℕ → Text → Text
digits_onto zero n acc = acc
digits_onto (suc fuel) n acc = elim (ltb n 10) [
  | true ↦ (48 + n) ∷ acc
  | false ↦ digits_onto fuel (n / 10) ((48 + n % 10) ∷ acc)
]

-- A number has fewer digits than its successor's value.
unfoldable pub decimal : ℕ → Text
unfolding digits_onto
decimal n = digits_onto (suc n) n []

-- `std::to_string`
unfoldable pub to_string : ℤ → Text
unfolding decimal
to_string (pos n) = decimal n
to_string (negsuc n) = 45 ∷ decimal (suc n)

-- The digits that a text begins with, as a number, after those read so far.
unfoldable pub leading_number : ℕ → Text → ℕ
leading_number n [] = n
leading_number n (c ∷ s) =
    let rest = leading_number (n * 10 + (c - 48)) s in if is_digit c then rest else n

unfoldable pub skip_space : Text → Text
skip_space [] = []
skip_space (c ∷ s) = if is_space c then skip_space s else c ∷ s

-- A numeral after its sign; what follows the digits is ignored. `limit` is the largest magnitude.
unfoldable pub unsigned : ℕ → Text → Option ℕ
unfolding leading_number
unsigned limit [] = none
unsigned limit (c ∷ s) =
    if is_digit c
    then (let n = leading_number 0 (c ∷ s) in if leb n limit then some n else none)
    else none

abbrev pub negated : Option ℕ → Option ℤ
negated none = none
negated (some n) = some (sub_ℕ 0 n)

abbrev pub positive : Option ℕ → Option ℤ
positive none = none
positive (some n) = some (pos n)

unfoldable pub signed : ℕ → Text → Option ℤ
unfolding unsigned
signed limit [] = none
signed limit (c ∷ s) =
    if c == 45
    then negated (unsigned limit s)
    else if c == 43
    then positive (unsigned (limit - 1) s)
    else positive (unsigned (limit - 1) (c ∷ s))

-- `std::stoll`; `none` where it throws, for want of a digit or out of range.
unfoldable pub stoll : Text → Option ℤ
unfolding signed skip_space
stoll s = signed (2 ^ 63) (skip_space s)

unfoldable pub stoi : Text → Option ℤ
unfolding signed skip_space
stoi s = signed (2 ^ 31) (skip_space s)

-- A value of `long long`.
abbrev pub Fits64 : ℤ → Type 0
Fits64 (pos n) = n < 2 ^ 63
Fits64 (negsuc n) = n < 2 ^ 63

-- A value of `int`.
abbrev pub Fits32 : ℤ → Type 0
Fits32 (pos n) = n < 2 ^ 31
Fits32 (negsuc n) = n < 2 ^ 31

-- The two's complement value of a sum that may have left the range of `long long`.
unfoldable pub wrap64 : ℤ → ℤ
wrap64 (pos n) = let m = n % 2 ^ 64 in if ltb m (2 ^ 63) then pos m else negsuc (2 ^ 64 - 1 - m)
wrap64 (negsuc n) = let m = n % 2 ^ 64 in if ltb m (2 ^ 63) then negsuc m else pos (2 ^ 64 - 1 - m)

pub wrap64_of_fits : (z : ℤ) → Fits64 z → wrap64 z ≡ z
unfolding wrap64
wrap64_of_fits (pos n) h = ground arith
wrap64_of_fits (negsuc n) h = ground arith

-- The same for `int`.
unfoldable pub wrap32 : ℤ → ℤ
wrap32 (pos n) = let m = n % 2 ^ 32 in if ltb m (2 ^ 31) then pos m else negsuc (2 ^ 32 - 1 - m)
wrap32 (negsuc n) = let m = n % 2 ^ 32 in if ltb m (2 ^ 31) then negsuc m else pos (2 ^ 32 - 1 - m)

pub wrap32_of_fits : (z : ℤ) → Fits32 z → wrap32 z ≡ z
unfolding wrap32
wrap32_of_fits (pos n) h = ground arith
wrap32_of_fits (negsuc n) h = ground arith

pub wrap64-Fits64 : (z : ℤ) → Fits64 (wrap64 z)
unfolding wrap64
wrap64-Fits64 (pos n) = elim (Bool-cases (ltb (n % 2 ^ 64) (2 ^ 63))) [
  | inl e ↦ rw e (ltb→lt _ _ e)
  | inr e ↦ rw e (ground arith)
]
wrap64-Fits64 (negsuc n) = elim (Bool-cases (ltb (n % 2 ^ 64) (2 ^ 63))) [
  | inl e ↦ rw e (ltb→lt _ _ e)
  | inr e ↦ rw e (ground arith)
]

stoll_tests :
    (stoll (codes " -12abc") ≡ some (negsuc 11))
    × (stoll (codes "9223372036854775808") ≡ none)
    × (to_string (negsuc 41) ≡ codes "-42")
unfolding stoll to_string
stoll_tests = (refl, refl, refl)
