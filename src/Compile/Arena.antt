-- ===== src/Compile/Arena.antt =====
-- compile.go: states that stand in one list from a place on, with parents and children by place.
use statecharts.Base.{
  ℕ, zero, suc, ◌+◌, ◌<◌, ◌≤◌, ◌≡◌, refl, sym, ap, subst, ◌∙◌, false, if◌then◌else◌, List, [], ◌∷◌,
  ◌++◌, append-nil, Option, none, some, inl, inr, arith, ◌==◌, Bool-cases, Option-cases, length,
  get_elem?,
}
use statecharts.Chart.{StateRef, State}
use statecharts.Chart.Tree.{is_ref}

-- Every state, with its place, satisfies `P`.
abbrev pub AllAt {ℓ} : {A : Type 0} → (ℕ → A → Type ℓ) → ℕ → List A → Type ℓ
AllAt P n [] = Unit
AllAt P n (x ∷ xs) = P n x × AllAt P (suc n) xs

pub AllAt-append {ℓ} :
    {A : Type 0} (P : ℕ → A → Type ℓ) (n : ℕ) (xs ys : List A)
    → AllAt P n xs
    → AllAt P (n + length xs) ys
    → AllAt P n (xs ++ ys)
AllAt-append P n [] ys h g = subst (λ k. AllAt P k ys) (omega arith) g
AllAt-append P n (x ∷ xs) ys h g =
    (h.0, AllAt-append P (suc n) xs ys h.1 (subst (λ k. AllAt P k ys) (omega arith) g))

pub AllAt-weaken {ℓ κ} :
    {A : Type 0} (P : ℕ → A → Type ℓ) (Q : ℕ → A → Type κ) (n : ℕ) (xs : List A)
    → ((i : ℕ) (x : A) → n ≤ i → i < n + length xs → P i x → Q i x)
    → AllAt P n xs
    → AllAt Q n xs
AllAt-weaken P Q n [] f h = tt
AllAt-weaken P Q n (x ∷ xs) f h = (
  f n x (omega arith) (omega arith) h.0,
  AllAt-weaken P Q (suc n) xs (λ i y a b g. f i y (omega (arith, a)) (omega (arith, b)) g) h.1,
)

pub AllAt-get_elem? {ℓ} :
    {A : Type 0} (P : ℕ → A → Type ℓ) (n : ℕ) (xs : List A)
    → AllAt P n xs
    → (i : ℕ) (x : A) → get_elem? xs i ≡ some x
    → P (n + i) x
AllAt-get_elem? P n [] h i x e = cc
AllAt-get_elem? P n (y ∷ xs) h zero x e =
    let same : y ≡ x = cc in subst (λ k. P k x) (omega arith) (subst (λ z. P n z) same h.0)
AllAt-get_elem? P n (y ∷ xs) h (suc i) x e =
    subst (λ k. P k x) (omega arith) (AllAt-get_elem? P (suc n) xs h.1 i x e)

-- The places of the states whose parent is `p`, in document order.
abbrev pub with_parent : StateRef → StateRef → List State → List StateRef
with_parent p n [] = []
with_parent p n (x ∷ xs) =
    if is_ref x.parent p then n ∷ with_parent p (suc n) xs else with_parent p (suc n) xs

pub with_parent-append :
    (p n : ℕ) (xs ys : List State)
    → with_parent p n (xs ++ ys) ≡ with_parent p n xs ++ with_parent p (n + length xs) ys
with_parent-append p n [] ys = ap (λ k. with_parent p k ys) (omega arith)
with_parent-append p n (x ∷ xs) ys =
    let later = with_parent-append p (suc n) xs ys in
    let place : suc n + length xs ≡ n + suc (length xs) = omega arith in
    elim (Bool-cases (is_ref x.parent p)) [
      | inl e ↦ rw (e, later, place) refl
      | inr e ↦ rw (e, later, place) refl
    ]

-- A parent precedes its children.
abbrev pub ParentBefore : StateRef → State → Type 0
ParentBefore n x = (p : StateRef) → x.parent ≡ some p → p < n

pub with_parent_after :
    (p n : ℕ) (xs : List State)
    → AllAt ParentBefore n xs
    → n + length xs ≤ suc p
    → with_parent p n xs ≡ []
with_parent_after p n [] h le = refl
with_parent_after p n (x ∷ xs) h le = elim (Option-cases x.parent) [
  | inl e ↦ rw e (with_parent_after p (suc n) xs h.1 (omega (arith, le)))
  | inr (q, e) ↦
      let before : q < n = h.0 q e in
      let other : (p == q) ≡ false = ground (arith, le) in
      rw (e, other) (with_parent_after p (suc n) xs h.1 (omega (arith, le)))
]

-- What holds of the states of a subtree whose root has the parent `q` and the place `n`: parents
-- come first, the root alone has a parent outside, and children are those that name their parent.
pub record IsArena (q : Option StateRef) (n : StateRef) (xs : List State) : Type 0 where
  pub before : AllAt ParentBefore n xs
  pub outside : (p : StateRef) → p < n → with_parent p n xs ≡ (if is_ref q p then n ∷ [] else [])
  pub wired : AllAt (λ i x. x.children ≡ with_parent i n xs) n xs

-- The same of the children of `q`, which have the places `ns`.
pub record IsForest (q n : StateRef) (xs : List State) (ns : List StateRef) : Type 0 where
  pub before : AllAt ParentBefore n xs
  pub outside : (p : StateRef) → p < n → with_parent p n xs ≡ (if p == q then ns else [])
  pub wired : AllAt (λ i x. x.children ≡ with_parent i n xs) n xs

pub no_states-IsForest : (q n : StateRef) → IsForest q n [] []
no_states-IsForest q n = record { before = tt; outside = λ p lt. ground arith; wired = tt }

pub and_state-IsForest :
    (q n : StateRef) (xs ys : List State) (ns : List StateRef)
    → q < n
    → IsArena (some q) n xs
    → IsForest q (n + length xs) ys ns
    → IsForest q n (xs ++ ys) (n ∷ ns)
and_state-IsForest q n xs ys ns lt a f = record {
  before = AllAt-append ParentBefore n xs ys a.before f.before;
  outside = λ p le.
      with_parent-append p n xs ys
      ∙ rw (a.outside p le, f.outside p (omega (arith, le)))
          (elim (Bool-cases (p == q)) [ inl e ↦ rw e refl | inr e ↦ rw e refl ]);
  wired =
      AllAt-append (λ i x. x.children ≡ with_parent i n (xs ++ ys)) n xs ys
        (AllAt-weaken (λ i x. x.children ≡ with_parent i n xs)
          (λ i x. x.children ≡ with_parent i n (xs ++ ys)) n xs
          (λ i x ge le h.
            let other : (i == q) ≡ false = ground (arith, ge, lt) in
            let none_later = f.outside i le in
            h
            ∙ sym (
                with_parent-append i n xs ys
                ∙ rw (none_later, other) (append-nil (with_parent i n xs))))
          a.wired)
        (AllAt-weaken (λ i x. x.children ≡ with_parent i (n + length xs) ys)
          (λ i x. x.children ≡ with_parent i n (xs ++ ys)) (n + length xs) ys
          (λ i x ge le h.
            let none_before = with_parent_after i n xs a.before (omega (arith, ge)) in
            h ∙ sym (with_parent-append i n xs ys ∙ rw none_before refl))
          f.wired);
}

is_ref_after :
    (q : Option StateRef) (n i : StateRef)
    → ((p : StateRef) → q ≡ some p → p < n)
    → n ≤ i
    → is_ref q i ≡ false
is_ref_after none n i lt le = refl
is_ref_after (some p) n i lt le = let before : p < n = lt p refl in ground (arith, le)

pub state-IsArena :
    (q : Option StateRef) (n : StateRef) (x : State) (xs : List State)
    → x.parent ≡ q
    → ((p : StateRef) → q ≡ some p → p < n)
    → IsForest n (suc n) xs x.children
    → IsArena q n (x ∷ xs)
state-IsArena q n x xs e lt f = record {
  before = ((λ p h. lt p (sym e ∙ h)), f.before);
  outside = λ p le.
      let other : (p == n) ≡ false = ground (arith, le) in
      rw (e, f.outside p (omega (arith, le)), other) refl;
  wired = (
    rw (e, is_ref_after q n n lt (omega arith), f.outside n (omega arith)) (ground arith),
    AllAt-weaken (λ i y. y.children ≡ with_parent i (suc n) xs)
        (λ i y. y.children ≡ with_parent i n (x ∷ xs)) (suc n) xs
        (λ i y ge le h. rw (e, is_ref_after q n i lt (omega (arith, ge))) h) f.wired,
  );
}
