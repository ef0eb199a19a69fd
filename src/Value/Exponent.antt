-- ===== src/Value/Exponent.antt =====
-- value.go: the exponent of a canonical number.
use statecharts.Base.{
  ℕ, ◌+◌, ◌-◌, ◌*◌, ◌<◌, ◌≡◌, refl, sym, ap, ◌∙◌, Bool, true, false, ◌||◌, if◌then◌else◌, [], ◌∷◌,
  ◌++◌, append-nil, some, inl, inr, Bool-cases, arith, ◌==◌, ltb,
}
use statecharts.Base.Bytes.{
  Bytes, codes, decimal, spelled, spelled-decimal, AllDigits, decimal-AllDigits, decimal_not_nil,
}
use statecharts.Identifier.{is_nil}
use statecharts.Value.Number.{
  span_digits, digits_value, parse_fraction, parse_exponent_sign, parse_exponent, exponent_suffix,
}
use statecharts.Value.Digits.{NoDigitFirst, span_digits-append}

pub digits_value-spelled : (acc : ℕ) (s : Bytes) → digits_value acc s ≡ spelled acc s
digits_value-spelled acc [] = refl
digits_value-spelled acc (c ∷ s) = digits_value-spelled (acc * 10 + (c - b'0')) s

pub span_digits-decimal : (k : ℕ) → span_digits (decimal k) ≡ (decimal k, [])
span_digits-decimal k =
    ap span_digits (sym (append-nil (decimal k)))
    ∙ span_digits-append (decimal k) [] (decimal-AllDigits k) tt

pub parse_exponent_sign_digits : (s : Bytes) → AllDigits s → parse_exponent_sign s ≡ (false, s)
unfolding parse_exponent_sign
parse_exponent_sign_digits [] h = refl
parse_exponent_sign_digits (c ∷ cs) h =
    let (low, high) = h.0 in
    let other : ((c == b'+') || (c == b'-')) ≡ false = ground arith in rw other refl

pub is_nil-decimal : (k : ℕ) → is_nil (decimal k) ≡ false
is_nil-decimal k = go (decimal k) (decimal_not_nil k)
  where
    go : (s : Bytes) → ¬ (s ≡ []) → is_nil s ≡ false
    go [] h = absurd (h refl)
    go (c ∷ s) h = refl

pub parse_exponent_plus : (k : ℕ) → parse_exponent (codes "e" ++ decimal k) ≡ some ((false, k), [])
unfolding parse_exponent
parse_exponent_plus k = rw (parse_exponent_sign_digits (decimal k) (decimal-AllDigits k)) (
    rw (span_digits-decimal k) (
      rw (is_nil-decimal k)
        (ap (λ n. some ((false, n), [])) (digits_value-spelled 0 (decimal k) ∙ spelled-decimal k))))

pub parse_exponent_minus : (k : ℕ) → parse_exponent (codes "e-" ++ decimal k) ≡ some ((true, k), [])
unfolding parse_exponent parse_exponent_sign
parse_exponent_minus k = rw (span_digits-decimal k) (
    rw (is_nil-decimal k)
      (ap (λ n. some ((true, n), [])) (digits_value-spelled 0 (decimal k) ∙ spelled-decimal k)))

pub parse_exponent_nil : parse_exponent [] ≡ some ((false, 0), [])
unfolding parse_exponent
parse_exponent_nil = refl

pub exponent_suffix_plus : (k : ℕ) → 0 < k → exponent_suffix (k + 0) 0 ≡ codes "e" ++ decimal k
unfolding exponent_suffix
exponent_suffix_plus k pos =
    let differ : (k + 0 == 0) ≡ false = ground (arith, pos) in
    let more : ltb 0 (k + 0) ≡ true = ground (arith, pos) in
    let same : k + 0 - 0 ≡ k = omega arith in
    rw (differ, more) (ap (λ n. codes "e" ++ decimal n) same)

pub exponent_suffix_minus : (k : ℕ) → 0 < k → exponent_suffix 0 (k + 0) ≡ codes "e-" ++ decimal k
unfolding exponent_suffix
exponent_suffix_minus k pos =
    let differ : (0 == k + 0) ≡ false = ground (arith, pos) in
    let less : ltb (k + 0) 0 ≡ false = ground (arith, pos) in
    let same : k + 0 - 0 ≡ k = omega arith in
    rw (differ, less) (ap (λ n. codes "e-" ++ decimal n) same)

abbrev pub up_of : Bool × ℕ → ℕ
up_of (n, e) = if n then 0 else e

abbrev pub down_of : Bool × ℕ → ℕ
down_of (n, e) = if n then e else 0

-- The end of a canonical number is read as an exponent that is printed the same way.
pub record IsSuffix (s : Bytes) : Type 0 where
  pub exponent : Bool × ℕ
  pub parsed : parse_exponent s ≡ some (exponent, [])
  pub fraction : parse_fraction s ≡ some ([], s)
  pub after_digits : NoDigitFirst s
  pub printed : exponent_suffix (up_of exponent + 0) (down_of exponent + 0) ≡ s

pub exponent_suffix-IsSuffix : (up down : ℕ) → IsSuffix (exponent_suffix up down)
unfolding exponent_suffix parse_fraction
exponent_suffix-IsSuffix up down = elim (Bool-cases (up == down)) [
  | inl q ↦ rw q (record {
    exponent = (false, 0);
    parsed = parse_exponent_nil;
    fraction = refl;
    after_digits = tt;
    printed = refl;
  })
  | inr q ↦ elim (Bool-cases (ltb down up)) [
    | inl r ↦
        rw (q, r)
          (record {
            exponent = (false, up - down);
            parsed = parse_exponent_plus (up - down);
            fraction = refl;
            after_digits = refl;
            printed = exponent_suffix_plus (up - down) (ground (arith, r));
          })
    | inr r ↦
        rw (q, r)
          (record {
            exponent = (true, down - up);
            parsed = parse_exponent_minus (down - up);
            fraction = refl;
            after_digits = refl;
            printed = exponent_suffix_minus (down - up) (ground (arith, q, r));
          })
  ]
]
