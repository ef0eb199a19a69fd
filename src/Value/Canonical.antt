-- ===== src/Value/Canonical.antt =====
-- value.go: the canonical spelling of a number is its own canonical spelling.
use statecharts.Base.{
  ℕ, ◌+◌, ◌≡◌, refl, ap, subst, ◌∙◌, Bool, true, false, ◌&&◌, [], ◌∷◌, ◌++◌, append-nil, some, inl,
  inr, Bool-cases, arith, ◌==◌, length,
}
use statecharts.Base.Bytes.{Bytes, codes, AllDigits, AllDigits-append}
use statecharts.Base.Options.{require, >>=-eq-some, some_inj}
use statecharts.Identifier.{is_nil}
use statecharts.Value.Number.{
  parse_sign, parse_integer, parse_fraction, parse_exponent, trim_zeros, trim_trailing_zeros,
  exponent_suffix, minus, print_canonical, canonical_number,
}
use statecharts.Value.Digits.{
  NoDigitFirst, IsDigit-true, span_digits-append, parse_integer-AllDigits, parse_fraction-AllDigits,
  trim_zeros-AllDigits, IsSignificant, trim_zeros-IsSignificant, trim_zeros_significant,
  trim_trailing_zeros-AllDigits, trim_trailing_zeros_twice,
}
use statecharts.Value.Exponent.{up_of, down_of, IsSuffix, exponent_suffix-IsSuffix}

-- The digits of a canonical number: some, with no zero at the start or at the end.
abbrev IsCanonicalDigits : Bytes → Type 0
IsCanonicalDigits [] = true ≡ false
IsCanonicalDigits (c ∷ cs) =
    AllDigits (c ∷ cs) × ((c == b'0') ≡ false) × (trim_trailing_zeros (c ∷ cs) ≡ (c ∷ cs, 0))

and_false : (b : Bool) → (b && false) ≡ false
and_false true = refl
and_false false = refl

kept-IsCanonicalDigits :
    (s : Bytes)
    → AllDigits s
    → IsSignificant s
    → is_nil s ≡ false
    → IsCanonicalDigits (trim_trailing_zeros s).0
unfolding trim_trailing_zeros
kept-IsCanonicalDigits [] h g n = cc
kept-IsCanonicalDigits (c ∷ cs) h g n =
    let kept : (is_nil (trim_trailing_zeros cs).0 && (c == b'0')) ≡ false =
      rw g (and_false (is_nil (trim_trailing_zeros cs).0)) in
    rw kept (
      (h.0, trim_trailing_zeros-AllDigits cs h.1),
      g,
      rw (trim_trailing_zeros_twice cs) (rw kept refl),
    )

parse_sign-minus :
    (negative : Bool) (s t : Bytes)
    → IsCanonicalDigits s
    → parse_sign (minus negative ++ (s ++ t)) ≡ (negative, s ++ t)
unfolding parse_sign
parse_sign-minus true s t d = refl
parse_sign-minus false [] t d = cc
parse_sign-minus false (c ∷ cs) t d =
    let (low, high) = d.0.0 in let other : (c == b'-') ≡ false = ground arith in rw other refl

parse_integer_digits :
    (s t : Bytes) → IsCanonicalDigits s → NoDigitFirst t → parse_integer (s ++ t) ≡ some (s, t)
unfolding parse_integer
parse_integer_digits [] t d n = cc
parse_integer_digits (c ∷ cs) t d n =
    rw d.1
      (rw (IsDigit-true c d.0.0) (ap (λ r. some (c ∷ r.0, r.1)) (span_digits-append cs t d.0.1 n)))

print_canonical_digits :
    (negative : Bool) (s : Bytes) (e : Bool × ℕ)
    → IsCanonicalDigits s
    → print_canonical negative s [] e
      ≡ minus negative ++ (s ++ exponent_suffix (up_of e + 0) (down_of e + 0))
unfolding print_canonical
print_canonical_digits negative [] e d = cc
print_canonical_digits negative (c ∷ cs) e d =
    rw (append-nil cs) (rw (trim_zeros_significant (c ∷ cs) d.1) (rw d.2 refl))

-- A number that is spelled by canonical digits and a canonical end is its own canonical spelling.
canonical_of_parts :
    (negative : Bool) (s t : Bytes)
    → IsCanonicalDigits s
    → IsSuffix t
    → canonical_number (minus negative ++ (s ++ t)) ≡ some (minus negative ++ (s ++ t))
unfolding canonical_number
canonical_of_parts negative s t d f = rw (parse_sign-minus negative s t d) (
    rw (parse_integer_digits s t d f.after_digits) (
      rw f.fraction (
        rw f.parsed (
          ap (λ z. some z)
            (print_canonical_digits negative s f.exponent d
              ∙ ap (λ z. minus negative ++ (s ++ z)) f.printed)))))

zero_canonical : canonical_number (codes "0") ≡ some (codes "0")
unfolding canonical_number parse_sign parse_integer parse_fraction parse_exponent print_canonical
    trim_zeros
zero_canonical = refl

print_canonical_canonical :
    (negative : Bool) (i f : Bytes) (e : Bool × ℕ)
    → AllDigits i
    → AllDigits f
    → canonical_number (print_canonical negative i f e) ≡ some (print_canonical negative i f e)
unfolding print_canonical
print_canonical_canonical negative i f e hi hf =
    let all = trim_zeros-AllDigits (i ++ f) (AllDigits-append i f hi hf) in
    let significant = trim_zeros-IsSignificant (i ++ f) in
    let up = up_of e + (trim_trailing_zeros (trim_zeros (i ++ f))).1 in
    let down = down_of e + length f in
    elim (Bool-cases (is_nil (trim_zeros (i ++ f)))) [
      | inl q ↦ rw q zero_canonical
      | inr q ↦ rw q (
          canonical_of_parts negative (trim_trailing_zeros (trim_zeros (i ++ f))).0
            (exponent_suffix up down)
            (kept-IsCanonicalDigits (trim_zeros (i ++ f)) all significant q)
            (exponent_suffix-IsSuffix up down))
    ]

-- The canonical spelling of a number is canonical: making it canonical again changes nothing.
pub canonical_number_twice :
    (s t : Bytes) → canonical_number s ≡ some t → canonical_number t ≡ some t
unfolding canonical_number
canonical_number_twice s t h =
    let (i, hi, e1) = >>=-eq-some (parse_integer (parse_sign s).1) _ h in
    let (f, hf, e2) = >>=-eq-some (parse_fraction i.1) _ e1 in
    let (e, he, e3) = >>=-eq-some (parse_exponent f.1) _ e2 in
    let (u, hu, e4) = >>=-eq-some (require (is_nil e.1)) _ e3 in
    subst (λ z. canonical_number z ≡ some z) (some_inj e4)
      (print_canonical_canonical (parse_sign s).0 i.0 f.0 e.0
        (parse_integer-AllDigits (parse_sign s).1 i hi) (parse_fraction-AllDigits i.1 f hf))
