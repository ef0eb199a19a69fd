-- ===== src/Value/Digits.antt =====
-- value.go: the digits that are read from a number, and the zeros trimmed from them.
use statecharts.Base.{
  ℕ, ◌≡◌, refl, subst, true, false, ◌&&◌, [], ◌∷◌, ◌++◌, some, inl, inr, Bool-cases, arith, ◌==◌,
}
use statecharts.Base.Bytes.{Bytes, IsDigit, AllDigits}
use statecharts.Base.Options.{some_inj}
use statecharts.Identifier.{is_nil}
use statecharts.Value.Number.{
  is_decimal_digit, span_digits, starts_with_digit, parse_integer, parse_fraction, trim_zeros,
  trim_trailing_zeros,
}

-- What can follow the digits of a number.
abbrev pub NoDigitFirst : Bytes → Type 0
NoDigitFirst [] = Unit
NoDigitFirst (c ∷ cs) = is_decimal_digit c ≡ false

pub IsDigit-true : (c : ℕ) → IsDigit c → is_decimal_digit c ≡ true
IsDigit-true c h = let (a, b) = h in ground arith

pub IsDigit-of : (c : ℕ) → is_decimal_digit c ≡ true → IsDigit c
IsDigit-of c h = (ground arith, ground arith)

pub span_digits-append :
    (ds s : Bytes) → AllDigits ds → NoDigitFirst s → span_digits (ds ++ s) ≡ (ds, s)
unfolding span_digits
span_digits-append [] [] h g = refl
span_digits-append [] (c ∷ s) h g = rw g refl
span_digits-append (d ∷ ds) s h g =
    rw (IsDigit-true d h.0) (rw (span_digits-append ds s h.1 g) refl)

pub span_digits-AllDigits : (s : Bytes) → AllDigits (span_digits s).0
unfolding span_digits
span_digits-AllDigits [] = tt
span_digits-AllDigits (c ∷ cs) = elim (Bool-cases (is_decimal_digit c)) [
  | inl q ↦ rw q (IsDigit-of c q, span_digits-AllDigits cs)
  | inr q ↦ rw q tt
]

pub parse_integer-AllDigits :
    (s : Bytes) (r : Bytes × Bytes) → parse_integer s ≡ some r → AllDigits r.0
unfolding parse_integer
parse_integer-AllDigits [] r e = cc
parse_integer-AllDigits (c ∷ cs) r e = elim (Bool-cases (c == b'0')) [
  | inl z ↦ elim (Bool-cases (starts_with_digit cs)) [
    | inl n ↦ cc (rw (z, n) at e)
    | inr n ↦
        subst (λ y. AllDigits y.0) (some_inj (rw (z, n) at e)) ((IsDigit-of c (ground arith), tt))
  ]
  | inr z ↦ elim (Bool-cases (is_decimal_digit c)) [
    | inl d ↦
        subst (λ y. AllDigits y.0) (some_inj (rw (z, d) at e))
          (IsDigit-of c d, span_digits-AllDigits cs)
    | inr d ↦ cc (rw (z, d) at e)
  ]
]

pub parse_fraction-AllDigits :
    (s : Bytes) (r : Bytes × Bytes) → parse_fraction s ≡ some r → AllDigits r.0
unfolding parse_fraction
parse_fraction-AllDigits [] r e = subst (λ z. AllDigits z.0) (some_inj e) tt
parse_fraction-AllDigits (c ∷ cs) r e = elim (Bool-cases (c == b'.')) [
  | inr q ↦ subst (λ z. AllDigits z.0) (some_inj (rw q at e)) tt
  | inl q ↦ elim (Bool-cases (is_nil (span_digits cs).0)) [
    | inl n ↦ cc (rw (q, n) at e)
    | inr n ↦ subst (λ z. AllDigits z.0) (some_inj (rw (q, n) at e)) (span_digits-AllDigits cs)
  ]
]

pub trim_zeros-AllDigits : (s : Bytes) → AllDigits s → AllDigits (trim_zeros s)
unfolding trim_zeros
trim_zeros-AllDigits [] h = tt
trim_zeros-AllDigits (c ∷ cs) h = elim (Bool-cases (c == b'0')) [
  | inl q ↦ rw q (trim_zeros-AllDigits cs h.1)
  | inr q ↦ rw q h
]

-- Digits without a zero at their start.
abbrev pub IsSignificant : Bytes → Type 0
IsSignificant [] = Unit
IsSignificant (c ∷ cs) = (c == b'0') ≡ false

pub trim_zeros-IsSignificant : (s : Bytes) → IsSignificant (trim_zeros s)
unfolding trim_zeros
trim_zeros-IsSignificant [] = tt
trim_zeros-IsSignificant (c ∷ cs) = elim (Bool-cases (c == b'0')) [
  | inl q ↦ rw q (trim_zeros-IsSignificant cs)
  | inr q ↦ rw q q
]

pub trim_zeros_significant : (s : Bytes) → IsSignificant s → trim_zeros s ≡ s
unfolding trim_zeros
trim_zeros_significant [] h = refl
trim_zeros_significant (c ∷ cs) h = rw h refl

pub trim_trailing_zeros-AllDigits : (s : Bytes) → AllDigits s → AllDigits (trim_trailing_zeros s).0
unfolding trim_trailing_zeros
trim_trailing_zeros-AllDigits [] h = tt
trim_trailing_zeros-AllDigits (c ∷ cs) h =
    elim (Bool-cases (is_nil (trim_trailing_zeros cs).0 && (c == b'0'))) [
      | inl q ↦ rw q tt
      | inr q ↦ rw q (h.0, trim_trailing_zeros-AllDigits cs h.1)
    ]

pub trim_trailing_zeros_twice :
    (s : Bytes) → trim_trailing_zeros (trim_trailing_zeros s).0 ≡ ((trim_trailing_zeros s).0, 0)
unfolding trim_trailing_zeros
trim_trailing_zeros_twice [] = refl
trim_trailing_zeros_twice (c ∷ cs) =
    elim (Bool-cases (is_nil (trim_trailing_zeros cs).0 && (c == b'0'))) [
      | inl q ↦ rw q refl
      | inr q ↦ rw q (rw (trim_trailing_zeros_twice cs) (rw q refl))
    ]
