-- ===== src/Base/Sets.antt =====
-- Go's `map[*compiledState]bool` sets over states named by their document order, with the sorts
-- that the interpreter iterates them by.
use mathlib.Core.Bool.{not}
use Prim.Native.Nat.{ℕ, ◌≤◌}
use mathlib.Core.Path.{◌≡◌, refl, ap, ◌∙◌}
use mathlib.Core.Bool.{Bool, false, ◌||◌, ◌&&◌}
use mathlib.Core.Logic.{inl, inr}
use mathlib.Core.List.{List, [], ◌∷◌}
use native.Mathlib.Omega.{arith}
use statecharts.Base.Tests.{ltb, ◌==◌, if◌then◌else◌, Bool-cases}
use statecharts.Base.Lists.{All, All-weaken, Pairwise}

abbrev pub elem : ℕ → List ℕ → Bool
elem a [] = false
elem a (x ∷ xs) = (a == x) || elem a xs

-- `set[a] = true`
unfoldable pub insert : ℕ → List ℕ → List ℕ
insert a xs = if elem a xs then xs else a ∷ xs

-- `delete(set, a)`
unfoldable pub delete : ℕ → List ℕ → List ℕ
delete a [] = []
delete a (x ∷ xs) = if a == x then delete a xs else x ∷ delete a xs

unfoldable pub insert_asc : ℕ → List ℕ → List ℕ
insert_asc a [] = a ∷ []
insert_asc a (x ∷ xs) = if ltb x a then x ∷ insert_asc a xs else a ∷ x ∷ xs

unfoldable pub insert_desc : ℕ → List ℕ → List ℕ
insert_desc a [] = a ∷ []
insert_desc a (x ∷ xs) = if ltb a x then x ∷ insert_desc a xs else a ∷ x ∷ xs

unfoldable pub sort_asc : List ℕ → List ℕ
unfolding insert_asc
sort_asc [] = []
sort_asc (x ∷ xs) = insert_asc x (sort_asc xs)

unfoldable pub sort_by_desc : List ℕ → List ℕ
unfolding insert_desc
sort_by_desc [] = []
sort_by_desc (x ∷ xs) = insert_desc x (sort_by_desc xs)

unfoldable pub sort_desc : List ℕ → List ℕ
unfolding sort_asc sort_by_desc
sort_desc xs = sort_by_desc (sort_asc xs)

-- Two lists with the same members.
abbrev pub SameSet : List ℕ → List ℕ → Type 0
SameSet xs ys = (a : ℕ) → elem a xs ≡ elem a ys

pub elem-insert : (a b : ℕ) (xs : List ℕ) → elem a (insert b xs) ≡ ((a == b) || elem a xs)
unfolding insert
elem-insert a b xs = ground (arith, elem_congr a b xs)
  where
    elem_congr : (a b : ℕ) (xs : List ℕ) → a ≡ b → elem a xs ≡ elem b xs
    elem_congr a b xs e = ap (λ c. elem c xs) e

pub elem-delete : (a b : ℕ) (xs : List ℕ) → elem a (delete b xs) ≡ (not (a == b) && elem a xs)
unfolding delete
elem-delete a b [] = ground arith
elem-delete a b (x ∷ xs) = ground (arith, elem-delete a b xs)

elem-insert_asc : (a b : ℕ) (xs : List ℕ) → elem a (insert_asc b xs) ≡ ((a == b) || elem a xs)
unfolding insert_asc
elem-insert_asc a b [] = refl
elem-insert_asc a b (x ∷ xs) = ground (arith, elem-insert_asc a b xs)

elem-insert_desc : (a b : ℕ) (xs : List ℕ) → elem a (insert_desc b xs) ≡ ((a == b) || elem a xs)
unfolding insert_desc
elem-insert_desc a b [] = refl
elem-insert_desc a b (x ∷ xs) = ground (arith, elem-insert_desc a b xs)

pub elem-sort_asc : (xs : List ℕ) (a : ℕ) → elem a (sort_asc xs) ≡ elem a xs
unfolding sort_asc
elem-sort_asc [] a = refl
elem-sort_asc (x ∷ xs) a = ground (arith, elem-insert_asc a x (sort_asc xs), elem-sort_asc xs a)

elem-sort_by_desc : (xs : List ℕ) (a : ℕ) → elem a (sort_by_desc xs) ≡ elem a xs
unfolding sort_by_desc
elem-sort_by_desc [] a = refl
elem-sort_by_desc (x ∷ xs) a =
    ground (arith, elem-insert_desc a x (sort_by_desc xs), elem-sort_by_desc xs a)

pub elem-sort_desc : (xs : List ℕ) (a : ℕ) → elem a (sort_desc xs) ≡ elem a xs
unfolding sort_desc
elem-sort_desc xs a = elem-sort_by_desc (sort_asc xs) a ∙ elem-sort_asc xs a

pub nil_of_elem : (xs : List ℕ) → ((a : ℕ) → elem a xs ≡ false) → xs ≡ []
nil_of_elem [] h = refl
nil_of_elem (x ∷ xs) h = ground (arith, h x)

All-insert_asc : (P : ℕ → Type 0) (a : ℕ) (xs : List ℕ) → P a → All P xs → All P (insert_asc a xs)
unfolding insert_asc
All-insert_asc P a [] p h = (p, tt)
All-insert_asc P a (x ∷ xs) p h = elim (Bool-cases (ltb x a)) [
  | inl q ↦ rw q (h.0, All-insert_asc P a xs p h.1)
  | inr q ↦ rw q (p, h)
]

All-insert_desc : (P : ℕ → Type 0) (a : ℕ) (xs : List ℕ) → P a → All P xs → All P (insert_desc a xs)
unfolding insert_desc
All-insert_desc P a [] p h = (p, tt)
All-insert_desc P a (x ∷ xs) p h = elim (Bool-cases (ltb a x)) [
  | inl q ↦ rw q (h.0, All-insert_desc P a xs p h.1)
  | inr q ↦ rw q (p, h)
]

insert_asc_sorted :
    (a : ℕ) (xs : List ℕ) → Pairwise (λ x y. x ≤ y) xs → Pairwise (λ x y. x ≤ y) (insert_asc a xs)
unfolding insert_asc
insert_asc_sorted a [] h = (tt, tt)
insert_asc_sorted a (x ∷ xs) h = elim (Bool-cases (ltb x a)) [
  | inl q ↦
      rw q (All-insert_asc (λ y. x ≤ y) a xs (ground (arith, q)) h.0, insert_asc_sorted a xs h.1)
  | inr q ↦
      let below : a ≤ x = ground (arith, q) in
      rw q
        ((below, All-weaken (λ y. x ≤ y) (λ y. a ≤ y) xs (λ y le. omega (arith, below, le)) h.0), h)
]

insert_desc_sorted :
    (a : ℕ) (xs : List ℕ) → Pairwise (λ x y. y ≤ x) xs → Pairwise (λ x y. y ≤ x) (insert_desc a xs)
unfolding insert_desc
insert_desc_sorted a [] h = (tt, tt)
insert_desc_sorted a (x ∷ xs) h = elim (Bool-cases (ltb a x)) [
  | inl q ↦
      rw q (All-insert_desc (λ y. y ≤ x) a xs (ground (arith, q)) h.0, insert_desc_sorted a xs h.1)
  | inr q ↦
      let above : x ≤ a = ground (arith, q) in
      rw q
        ((above, All-weaken (λ y. y ≤ x) (λ y. y ≤ a) xs (λ y le. omega (arith, above, le)) h.0), h)
]

pub sort_asc_sorted : (xs : List ℕ) → Pairwise (λ x y. x ≤ y) (sort_asc xs)
unfolding sort_asc
sort_asc_sorted [] = tt
sort_asc_sorted (x ∷ xs) = insert_asc_sorted x (sort_asc xs) (sort_asc_sorted xs)

sort_by_desc_sorted : (xs : List ℕ) → Pairwise (λ x y. y ≤ x) (sort_by_desc xs)
unfolding sort_by_desc
sort_by_desc_sorted [] = tt
sort_by_desc_sorted (x ∷ xs) = insert_desc_sorted x (sort_by_desc xs) (sort_by_desc_sorted xs)

pub sort_desc_sorted : (xs : List ℕ) → Pairwise (λ x y. y ≤ x) (sort_desc xs)
unfolding sort_desc
sort_desc_sorted xs = sort_by_desc_sorted (sort_asc xs)
