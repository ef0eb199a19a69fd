-- ===== src/Base/Bytes.antt =====
-- Go strings as lists of bytes.
use Prim.Native.Nat.{ℕ, zero, suc, ◌+◌, ◌-◌, ◌*◌, ◌/◌, ◌%◌, ◌<◌, ◌≤◌}
use Prim.Native.Char.{code}
use Prim.Native.String.{String}
use mathlib.Core.Path.{◌≡◌, refl, ap, sym, ◌∙◌}
use mathlib.Core.Logic.{inl, inr}
use mathlib.Core.Bool.{Bool, true, false, ◌&&◌}
use mathlib.Core.List.{List, [], ◌∷◌, ◌++◌}
use native.Mathlib.Omega.{arith}
use statecharts.Base.Tests.{◌==◌, ltb, if◌then◌else◌, Bool-cases}

abbrev pub Bytes : Type 0
Bytes = List ℕ

-- The bytes of an ASCII literal.
abbrev pub codes : String → Bytes
codes String.[] = []
codes (String.◌∷◌ c s) = code c ∷ codes s

abbrev pub bytes_eq : Bytes → Bytes → Bool
bytes_eq [] [] = true
bytes_eq [] (y ∷ ys) = false
bytes_eq (x ∷ xs) [] = false
bytes_eq (x ∷ xs) (y ∷ ys) = (x == y) && bytes_eq xs ys

pub bytes_eq_refl : (xs : Bytes) → bytes_eq xs xs ≡ true
bytes_eq_refl [] = refl
bytes_eq_refl (x ∷ xs) = ground (arith, bytes_eq_refl xs)

pub eq_of_bytes_eq : (xs ys : Bytes) → bytes_eq xs ys ≡ true → xs ≡ ys
eq_of_bytes_eq [] [] h = refl
eq_of_bytes_eq [] (y ∷ ys) h = cc
eq_of_bytes_eq (x ∷ xs) [] h = cc
eq_of_bytes_eq (x ∷ xs) (y ∷ ys) h = ground (arith, eq_of_bytes_eq xs ys)

-- `strings.HasPrefix`
abbrev pub has_prefix : Bytes → Bytes → Bool
has_prefix [] s = true
has_prefix (p ∷ ps) [] = false
has_prefix (p ∷ ps) (c ∷ s) = (p == c) && has_prefix ps s

-- `strings.TrimPrefix` where the prefix has two bytes.
abbrev pub trim_two : ℕ → ℕ → Bytes → Bytes
trim_two a b [] = []
trim_two a b (c ∷ []) = c ∷ []
trim_two a b (c ∷ d ∷ s) = if (c == a) && (d == b) then s else c ∷ d ∷ s

digits : ℕ → ℕ → Bytes
digits zero n = []
digits (suc fuel) n =
    let rest = digits fuel (n / 10) ++ ((b'0' + n % 10) ∷ []) in
    if ltb n 10 then (b'0' + n) ∷ [] else rest

-- `%d` of package fmt for a number that is not negative. A number has fewer digits than its
-- value, so the fuel does not run out.
unfoldable pub decimal : ℕ → Bytes
unfolding digits
decimal n = digits (suc n) n

-- The number that the digits spell.
abbrev pub spelled : ℕ → Bytes → ℕ
spelled acc [] = acc
spelled acc (c ∷ cs) = spelled (acc * 10 + (c - b'0')) cs

spelled_snoc :
    (acc c : ℕ) (s : Bytes) → spelled acc (s ++ (c ∷ [])) ≡ spelled acc s * 10 + (c - b'0')
spelled_snoc acc c [] = refl
spelled_snoc acc c (d ∷ s) = spelled_snoc (acc * 10 + (d - b'0')) c s

spelled-digits : (fuel n : ℕ) → n < fuel → spelled 0 (digits fuel n) ≡ n
unfolding digits
spelled-digits zero n h = elim h [ ]
spelled-digits (suc fuel) n h = elim (Bool-cases (ltb n 10)) [
  | inl small ↦ rw small (omega arith)
  | inr large ↦ rw large (
      spelled_snoc 0 (b'0' + n % 10) (digits fuel (n / 10))
      ∙ omega (arith, spelled-digits fuel (n / 10) (ground arith)))
]

pub spelled-decimal : (n : ℕ) → spelled 0 (decimal n) ≡ n
unfolding decimal
spelled-decimal n = spelled-digits (suc n) n (omega arith)

-- Different numbers are printed differently.
pub decimal_injective : (m n : ℕ) → decimal m ≡ decimal n → m ≡ n
decimal_injective m n e = sym (spelled-decimal m) ∙ ap (spelled 0) e ∙ spelled-decimal n

-- A byte from `0` to `9`.
abbrev pub IsDigit : ℕ → Type 0
IsDigit c = (b'0' ≤ c) × (c ≤ b'9')

abbrev pub AllDigits : Bytes → Type 0
AllDigits [] = Unit
AllDigits (c ∷ cs) = IsDigit c × AllDigits cs

pub AllDigits-append : (s t : Bytes) → AllDigits s → AllDigits t → AllDigits (s ++ t)
AllDigits-append [] t h g = g
AllDigits-append (c ∷ s) t h g = (h.0, AllDigits-append s t h.1 g)

digits-AllDigits : (fuel n : ℕ) → AllDigits (digits fuel n)
unfolding digits
digits-AllDigits zero n = tt
digits-AllDigits (suc fuel) n = elim (Bool-cases (ltb n 10)) [
  | inl small ↦ rw small ((omega arith, ground arith), tt)
  | inr large ↦ rw large (
      AllDigits-append (digits fuel (n / 10)) ((b'0' + n % 10) ∷ [])
        (digits-AllDigits fuel (n / 10)) ((omega arith, omega arith), tt))
]

pub decimal-AllDigits : (n : ℕ) → AllDigits (decimal n)
unfolding decimal
decimal-AllDigits n = digits-AllDigits (suc n) n

snoc_not_nil : (s : Bytes) (c : ℕ) → ¬ (s ++ (c ∷ []) ≡ [])
snoc_not_nil [] c h = cc
snoc_not_nil (d ∷ s) c h = cc

pub decimal_not_nil : (n : ℕ) → ¬ (decimal n ≡ [])
unfolding decimal digits
decimal_not_nil n h = elim (Bool-cases (ltb n 10)) [
  | inl small ↦ cc (rw small at h)
  | inr large ↦ snoc_not_nil (digits n (n / 10)) (b'0' + n % 10) (rw large at h)
]

-- Go's `<` on strings.
abbrev pub bytes_lt : Bytes → Bytes → Bool
bytes_lt [] [] = false
bytes_lt [] (y ∷ ys) = true
bytes_lt (x ∷ xs) [] = false
bytes_lt (x ∷ xs) (y ∷ ys) = if x == y then bytes_lt xs ys else ltb x y

insert_bytes : Bytes → List Bytes → List Bytes
insert_bytes a [] = a ∷ []
insert_bytes a (b ∷ bs) = if bytes_lt b a then b ∷ insert_bytes a bs else a ∷ b ∷ bs

unfoldable pub sort_bytes : List Bytes → List Bytes
unfolding insert_bytes
sort_bytes [] = []
sort_bytes (a ∷ as') = insert_bytes a (sort_bytes as')
