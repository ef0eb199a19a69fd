-- ===== src/Base/Lists.antt =====
-- Lists measured and indexed by native numbers, and predicates on their members.
use Prim.Native.Nat.{ℕ, zero, suc, ◌+◌}
use mathlib.Core.Path.{◌≡◌, refl}
use mathlib.Core.Bool.{Bool, true, false, ◌||◌, ◌&&◌}
use mathlib.Core.List.{List, [], ◌∷◌, ◌++◌, map}
use mathlib.Core.Option.{Option, none, some}
use native.Mathlib.Omega.{arith}
use statecharts.Base.Tests.{if◌then◌else◌}

module _ {ℓ} {A : Type ℓ} where
  abbrev pub length : List A → ℕ
  length [] = 0
  length (x ∷ xs) = suc (length xs)

  abbrev pub get_elem? : List A → ℕ → Option A
  get_elem? [] i = none
  get_elem? (x ∷ xs) zero = some x
  get_elem? (x ∷ xs) (suc i) = get_elem? xs i

  pub length-append : (xs ys : List A) → length (xs ++ ys) ≡ length xs + length ys
  length-append [] ys = omega arith
  length-append (x ∷ xs) ys = omega (arith, length-append xs ys)

  abbrev pub is_empty : List A → Bool
  is_empty [] = true
  is_empty (x ∷ xs) = false

  abbrev pub is_some : Option A → Bool
  is_some none = false
  is_some (some a) = true

  abbrev pub any : (A → Bool) → List A → Bool
  any p [] = false
  any p (x ∷ xs) = p x || any p xs

  abbrev pub all : (A → Bool) → List A → Bool
  all p [] = true
  all p (x ∷ xs) = p x && all p xs

  abbrev pub keep : (A → Bool) → List A → List A
  keep p [] = []
  keep p (x ∷ xs) = if p x then x ∷ keep p xs else keep p xs

  abbrev pub find : (A → Bool) → List A → Option A
  find p [] = none
  find p (x ∷ xs) = if p x then some x else find p xs

  abbrev pub fold_left {κ} : {S : Type κ} → (S → A → S) → S → List A → S
  fold_left f s [] = s
  fold_left f s (x ∷ xs) = fold_left f (f s x) xs

  abbrev pub All {κ} : (A → Type κ) → List A → Type κ
  All P [] = Unit
  All P (x ∷ xs) = P x × All P xs

-- Every element is related to all that follow it.
abbrev pub Pairwise {ℓ κ} : {A : Type ℓ} → (A → A → Type κ) → List A → Type κ
Pairwise R [] = Unit
Pairwise R (x ∷ xs) = All (R x) xs × Pairwise R xs

pub All-weaken {ℓ κ μ} :
    {A : Type ℓ} (P : A → Type κ) (Q : A → Type μ) (xs : List A)
    → ((x : A) → P x → Q x)
    → All P xs
    → All Q xs
All-weaken P Q [] f h = tt
All-weaken P Q (x ∷ xs) f h = (f x h.0, All-weaken P Q xs f h.1)

pub Pairwise-weaken {ℓ κ μ} :
    {A : Type ℓ} (R : A → A → Type κ) (Q : A → A → Type μ) (xs : List A)
    → ((x y : A) → R x y → Q x y)
    → Pairwise R xs
    → Pairwise Q xs
Pairwise-weaken R Q [] f h = tt
Pairwise-weaken R Q (x ∷ xs) f h =
    (All-weaken (R x) (Q x) xs (f x) h.0, Pairwise-weaken R Q xs f h.1)

-- An invariant of the state is an invariant of a loop over a list.
pub fold_left_inv {ℓ κ μ} :
    {A : Type ℓ} {S : Type κ} (P : S → Type μ) (f : S → A → S)
    → ((s : S) (a : A) → P s → P (f s a))
    → (s : S) (xs : List A) → P s
    → P (fold_left f s xs)
fold_left_inv P f step s [] h = h
fold_left_inv P f step s (x ∷ xs) h = fold_left_inv P f step (f s x) xs (step s x h)

-- The list `xs` is an initial segment of `ys`.
abbrev pub Extends {ℓ} : {A : Type ℓ} → List A → List A → Type ℓ
Extends {A = A} xs ys = (zs : List A) × (ys ≡ xs ++ zs)

-- Lists that start with equally long parts are equal part by part.
pub append_inj {ℓ} :
    {A : Type ℓ} (s t : List A) {u v : List A}
    → length s ≡ length t
    → s ++ u ≡ t ++ v
    → (s ≡ t) × (u ≡ v)
append_inj [] [] n e = (refl, e)
append_inj [] (y ∷ t) n e = absurd (omega arith)
append_inj (x ∷ s) [] n e = absurd (omega arith)
append_inj (x ∷ s) (y ∷ t) {u} {v} n e =
    let tails : s ++ u ≡ t ++ v = cc in let (p, q) = append_inj s t (omega arith) tails in (cc, q)

pub map-append {ℓ κ} :
    {A : Type ℓ} {B : Type κ} (f : A → B) (xs ys : List A) → map f (xs ++ ys) ≡ map f xs ++ map f ys
map-append f [] ys = refl
map-append f (x ∷ xs) ys = rw (map-append f xs ys) refl

pub All-append {ℓ κ} :
    {A : Type ℓ} (P : A → Type κ) (xs ys : List A) → All P xs → All P ys → All P (xs ++ ys)
All-append P [] ys h g = g
All-append P (x ∷ xs) ys h g = (h.0, All-append P xs ys h.1 g)

-- A predicate of all the images, and of all the members.
pub All-map {ℓ κ μ} :
    {A : Type ℓ} {B : Type κ} (P : B → Type μ) (f : A → B) (xs : List A)
    → All (λ x. P (f x)) xs
    → All P (map f xs)
All-map P f [] h = tt
All-map P f (x ∷ xs) h = (h.0, All-map P f xs h.1)

pub All-of_map {ℓ κ μ} :
    {A : Type ℓ} {B : Type κ} (P : B → Type μ) (f : A → B) (xs : List A)
    → All P (map f xs)
    → All (λ x. P (f x)) xs
All-of_map P f [] h = tt
All-of_map P f (x ∷ xs) h = (h.0, All-of_map P f xs h.1)

pub Pairwise-snoc {ℓ κ} :
    {A : Type ℓ} (R : A → A → Type κ) (xs : List A) (y : A)
    → Pairwise R xs
    → All (λ x. R x y) xs
    → Pairwise R (xs ++ (y ∷ []))
Pairwise-snoc R [] y h g = (tt, tt)
Pairwise-snoc R (x ∷ xs) y h g =
    (All-append (R x) xs (y ∷ []) h.0 (g.0, tt), Pairwise-snoc R xs y h.1 g.1)
