-- ===== src/Prelude/Decimal/RoundTrip.antt =====
-- Reading back what `std::to_string` wrote.
use tiny_kv_distributed_stor.Prelude.{
  ◌≢◌, ℕ, zero, suc, ◌+◌, ◌-◌, ◌*◌, ◌/◌, ◌%◌, ◌^◌, ◌≤◌, ◌<◌, ◌≡◌, refl, sym, ap, ◌∙◌, true, false,
  some, Bool, ◌||◌, ◌==◌, All, [], ◌∷◌, inl, inr, arith, ltb, Bool-cases,
}
use mathlib.Core.Path.{subst}
use tiny_kv_distributed_stor.Prelude.Text.{Text}
use tiny_kv_distributed_stor.Prelude.Int.{ℤ, pos, negsuc}
use tiny_kv_distributed_stor.Prelude.Decimal.{
  is_digit, digits_onto, decimal, to_string, leading_number, skip_space, unsigned, signed, stoll,
  stoi, Fits64, Fits32,
}

-- The text of a number begins with a digit.
abbrev StartsWithDigit : Text → Type 0
StartsWithDigit [] = ⊥
StartsWithDigit (c ∷ s) = is_digit c ≡ true

digits_onto_last :
    (fuel n : ℕ) (acc : Text) → ltb n 10 ≡ true → digits_onto (suc fuel) n acc ≡ (48 + n) ∷ acc
unfolding digits_onto
digits_onto_last fuel n acc e = rw (e, digits_onto)

digits_onto_next :
    (fuel n : ℕ) (acc : Text)
    → ltb n 10 ≡ false
    → digits_onto (suc fuel) n acc ≡ digits_onto fuel (n / 10) ((48 + n % 10) ∷ acc)
unfolding digits_onto
digits_onto_next fuel n acc e = rw (e, digits_onto)

leading_number_digit :
    (n c : ℕ) (s : Text)
    → is_digit c ≡ true
    → leading_number n (c ∷ s) ≡ leading_number (n * 10 + (c - 48)) s
unfolding leading_number
leading_number_digit n c s e = rw e

digits_onto-StartsWithDigit :
    (fuel n : ℕ) (acc : Text) → n < fuel → StartsWithDigit (digits_onto fuel n acc)
digits_onto-StartsWithDigit zero n acc h = absurd (omega arith)
digits_onto-StartsWithDigit (suc fuel) n acc h = elim (Bool-cases (ltb n 10)) [
  | inl e ↦ subst StartsWithDigit (sym (digits_onto_last fuel n acc e)) (ground arith)
  | inr e ↦
      subst StartsWithDigit (sym (digits_onto_next fuel n acc e))
        (digits_onto-StartsWithDigit fuel (n / 10) ((48 + n % 10) ∷ acc) (ground arith))
]

leading_number-digits_onto :
    (fuel n : ℕ) (acc : Text)
    → n < fuel
    → leading_number 0 (digits_onto fuel n acc) ≡ leading_number n acc
leading_number-digits_onto zero n acc h = absurd (omega arith)
leading_number-digits_onto (suc fuel) n acc h = elim (Bool-cases (ltb n 10)) [
  | inl e ↦
      ap (leading_number 0) (digits_onto_last fuel n acc e)
      ∙ (leading_number_digit 0 (48 + n) acc (ground arith)
          ∙ ap (λ m. leading_number m acc) (omega arith))
  | inr e ↦
      ap (leading_number 0) (digits_onto_next fuel n acc e)
      ∙ (leading_number-digits_onto fuel (n / 10) ((48 + n % 10) ∷ acc) (ground arith)
          ∙ (leading_number_digit (n / 10) (48 + n % 10) acc (ground arith)
              ∙ ap (λ m. leading_number m acc) (omega arith)))
]

unsigned_lem :
    (limit n : ℕ) (s : Text)
    → StartsWithDigit s
    → leading_number 0 s ≡ n
    → n ≤ limit
    → unsigned limit s ≡ some n
unfolding unsigned
unsigned_lem limit n [] d e h = absurd d
unsigned_lem limit n (c ∷ s) d e h =
    rw d (rw (sym (leading_number_digit 0 c s d) ∙ e) (ground arith))

unsigned-decimal : (limit n : ℕ) → n ≤ limit → unsigned limit (decimal n) ≡ some n
unfolding decimal
unsigned-decimal limit n h =
    unsigned_lem limit n _ (digits_onto-StartsWithDigit (suc n) n [] (omega arith))
      (leading_number-digits_onto (suc n) n [] (omega arith) ∙ unfold leading_number in refl) h

-- A text that begins with a digit has no space to skip and no sign.
signed_digits :
    (limit : ℕ) (s : Text) (n : ℕ)
    → StartsWithDigit s
    → unsigned (limit - 1) s ≡ some n
    → signed limit (skip_space s) ≡ some (pos n)
unfolding skip_space signed
signed_digits limit [] n d h = absurd d
signed_digits limit (c ∷ s) n d h = ground arith

FitsIn : ℕ → ℤ → Type 0
FitsIn limit (pos n) = n < limit
FitsIn limit (negsuc n) = n < limit

signed-to_string :
    (limit : ℕ) (z : ℤ) → FitsIn limit z → signed limit (skip_space (to_string z)) ≡ some z
unfolding to_string FitsIn
signed-to_string limit (pos n) h =
    signed_digits limit _ n
      (unfold decimal in digits_onto-StartsWithDigit (suc n) n [] (omega arith))
      (unsigned-decimal _ n (omega arith))
signed-to_string limit (negsuc n) h =
    let e = unsigned-decimal limit (suc n) (omega arith) in
    unfold skip_space signed in rw e (ground arith)

-- `std::stoll` reads the numeral that `std::to_string` writes of a 64-bit number as that number.
pub stoll-to_string : (z : ℤ) → Fits64 z → stoll (to_string z) ≡ some z
unfolding stoll FitsIn
stoll-to_string (pos n) h = signed-to_string (2 ^ 63) (pos n) h
stoll-to_string (negsuc n) h = signed-to_string (2 ^ 63) (negsuc n) h

pub stoi-to_string : (z : ℤ) → Fits32 z → stoi (to_string z) ≡ some z
unfolding stoi FitsIn
stoi-to_string (pos n) h = signed-to_string (2 ^ 31) (pos n) h
stoi-to_string (negsuc n) h = signed-to_string (2 ^ 31) (negsuc n) h

abbrev pub is_numeral_char : ℕ → Bool
is_numeral_char c = is_digit c || (c == 45)

digits_onto-All :
    (fuel n : ℕ) (acc : Text)
    → All (λ c. is_numeral_char c ≡ true) acc
    → All (λ c. is_numeral_char c ≡ true) (digits_onto fuel n acc)
digits_onto-All zero n acc h = unfold digits_onto in h
digits_onto-All (suc fuel) n acc h = elim (Bool-cases (ltb n 10)) [
  | inl e ↦
      subst (All (λ c. is_numeral_char c ≡ true)) (sym (digits_onto_last fuel n acc e))
        (ground arith, h)
  | inr e ↦
      subst (All (λ c. is_numeral_char c ≡ true)) (sym (digits_onto_next fuel n acc e))
        (digits_onto-All fuel (n / 10) ((48 + n % 10) ∷ acc) (ground arith, h))
]

pub to_string-All : (z : ℤ) → All (λ c. is_numeral_char c ≡ true) (to_string z)
unfolding to_string decimal
to_string-All (pos n) = digits_onto-All (suc n) n [] tt
to_string-All (negsuc n) = (refl, digits_onto-All (suc (suc n)) (suc n) [] tt)

StartsWithDigit-ne : (s : Text) → StartsWithDigit s → s ≢ []
StartsWithDigit-ne [] h e = h
StartsWithDigit-ne (c ∷ s) h e = cc

pub to_string-ne : (z : ℤ) → to_string z ≢ []
unfolding to_string decimal
to_string-ne (pos n) = StartsWithDigit-ne _ (digits_onto-StartsWithDigit (suc n) n [] (omega arith))
to_string-ne (negsuc n) = λ e. cc
