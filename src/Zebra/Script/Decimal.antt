-- ===== src/Zebra/Script/Decimal.antt =====
-- The decimal text of an integer is read back by `atoi`.
use telebra.Base.{
  ℕ, zero, suc, ◌+◌, ◌*◌, ◌/◌, ◌%◌, ◌^◌, ◌≤◌, ◌<◌, ◌≡◌, refl, ap, ◌∙◌, [], ◌∷◌, arith, ◌==◌,
  ne→not_==, ==_iff, Bool-cases, inl, inr, Bytes, length, ℤ, pos, negsuc, negate,
}
use telebra.Libc.{atoi, signed_value, skip_spaces, is_space, digits_value}
use telebra.Zebra.Script.{digits, decimal, int_text}

-- Reading the last digit behind the digits in front of it.
digits_value_last :
    (n : ℕ) (out : Bytes) → digits_value (n / 10) ((b'0' + n % 10) ∷ out) ≡ digits_value n out
unfolding digits_value
digits_value_last n out = ground arith

digits_value-digits :
    (r n : ℕ) (out : Bytes) → n ≤ r → digits_value 0 (digits r n out) ≡ digits_value n out
unfolding digits
digits_value-digits zero n out le = let none_left : n ≡ 0 = omega (arith, le) in rw none_left refl
digits_value-digits (suc r) n out le = elim (Bool-cases (n == 0)) [
  | inl done ↦ rw done (rw ((==_iff n 0).0 done) refl)
  | inr more ↦ rw more (
      digits_value-digits r (n / 10) ((b'0' + n % 10) ∷ out) (ground arith)
      ∙ digits_value_last n out)
]

-- A text that begins with a digit.
abbrev BeginsDigit : Bytes → Type 0
BeginsDigit [] = ⊥
BeginsDigit (c ∷ cs) = (b'0' ≤ c) × (c ≤ b'9')

digits-BeginsDigit : (r n : ℕ) (out : Bytes) → BeginsDigit out → BeginsDigit (digits r n out)
unfolding digits
digits-BeginsDigit zero n out h = h
digits-BeginsDigit (suc r) n out h = elim (Bool-cases (n == 0)) [
  | inl done ↦ rw done h
  | inr more ↦ rw more (digits-BeginsDigit r (n / 10) ((b'0' + n % 10) ∷ out) (omega arith))
]

decimal-BeginsDigit : (n : ℕ) → BeginsDigit (decimal n)
unfolding decimal digits
decimal-BeginsDigit zero = omega arith
decimal-BeginsDigit (suc n) =
    let not_zero = ne→not_== (suc n) 0 (omega arith) in
    rw not_zero (digits-BeginsDigit n (suc n / 10) ((b'0' + suc n % 10) ∷ []) (omega arith))

digits_value-decimal : (n : ℕ) → digits_value 0 (decimal n) ≡ n
unfolding decimal digits_value
digits_value-decimal zero = refl
digits_value-decimal (suc n) =
    rw (ne→not_== (suc n) 0 (omega arith)) (digits_value-digits (suc n) (suc n) [] (omega arith))

signed_value-BeginsDigit :
    (s : Bytes) → BeginsDigit s → signed_value (skip_spaces s) ≡ pos (digits_value 0 s)
unfolding signed_value skip_spaces is_space digits_value
signed_value-BeginsDigit [] h = absurd h
signed_value-BeginsDigit (c ∷ cs) h = ground arith

pub atoi-int_text : (z : ℤ) → atoi (int_text z) ≡ z
unfolding atoi int_text signed_value skip_spaces is_space
atoi-int_text (pos n) =
    signed_value-BeginsDigit (decimal n) (decimal-BeginsDigit n) ∙ ap pos (digits_value-decimal n)
atoi-int_text (negsuc n) = ap negate (digits_value-decimal (suc n))

abbrev tens : ℕ → ℕ
tens zero = 1
tens (suc k) = 10 * tens k

length-digits : (k r n : ℕ) (out : Bytes) → n < tens k → length (digits r n out) ≤ k + length out
unfolding digits
length-digits k zero n out lt = omega arith
length-digits zero (suc r) n out lt =
    let none_left : n ≡ 0 = omega (arith, lt) in rw none_left (omega arith)
length-digits (suc k) (suc r) n out lt = elim (Bool-cases (n == 0)) [
  | inl done ↦ rw done (omega arith)
  | inr more ↦
      rw more
        (omega (arith, length-digits k r (n / 10) ((b'0' + n % 10) ∷ out) (omega (arith, lt))))
]

-- An `int` takes ten digits at most.
pub length-decimal : (n : ℕ) → n < 2 ^ 31 → length (decimal n) ≤ 10
unfolding decimal
length-decimal zero lt = omega arith
length-decimal (suc n) lt =
    rw (ne→not_== (suc n) 0 (omega arith)) (length-digits 10 (suc n) (suc n) [] (omega (arith, lt)))
