-- ===== src/Interpreter/Targets/Effective.antt =====
-- The fuel of `collectEffectiveTarget` suffices.
use statecharts.Base.{
  ℕ, zero, suc, ◌+◌, ◌<◌, ◌≤◌, true, false, List, [], ◌∷◌, none, ◌≡◌, refl, ◌∙◌, ap, arith, inl,
  inr, Bool-cases, Option-cases, All, length, fold_left, ◌==◌, get_elem?, ltb,
}
use statecharts.Base.Sets.{elem, delete, elem-delete}
use statecharts.Base.Maps.{get}
use statecharts.Chart.{Chart, StateRef, state_at}
use statecharts.Chart.Tree.{is_history}
use statecharts.Interpreter.Targets.{HistoryValue, resolve, collect_effective_target}

abbrev pub Distinct : List ℕ → Type 0
Distinct [] = Unit
Distinct (x ∷ xs) = (elem x xs ≡ false) × Distinct xs

length-delete_absent : (n : ℕ) (xs : List ℕ) → elem n xs ≡ false → length (delete n xs) ≡ length xs
unfolding delete
length-delete_absent n [] h = refl
length-delete_absent n (x ∷ xs) h = ground (arith, length-delete_absent n xs)

length-delete : (n : ℕ) (xs : List ℕ) → Distinct xs → length xs ≤ suc (length (delete n xs))
unfolding delete
length-delete n [] h = omega arith
length-delete n (x ∷ xs) (absent, h) = elim (Bool-cases (n == x)) [
  | inl q ↦
      let same : n ≡ x = ground (arith, q) in
      let gone = length-delete_absent n xs (ap (λ y. elem y xs) same ∙ absent) in
      rw q (omega (arith, gone))
  | inr q ↦ rw q (omega (arith, length-delete n xs h))
]

delete-Distinct : (n : ℕ) (xs : List ℕ) → Distinct xs → Distinct (delete n xs)
unfolding delete
delete-Distinct n [] h = tt
delete-Distinct n (x ∷ xs) (absent, h) = elim (Bool-cases (n == x)) [
  | inl q ↦ rw q (delete-Distinct n xs h)
  | inr q ↦ rw q (ground (arith, elem-delete x n xs, absent), delete-Distinct n xs h)
]

delete-below : (n : ℕ) (xs : List ℕ) → All (λ x. x < suc n) xs → All (λ x. x < n) (delete n xs)
unfolding delete
delete-below n [] h = tt
delete-below n (x ∷ xs) (lt, h) = elim (Bool-cases (n == x)) [
  | inl q ↦ rw q (delete-below n xs h)
  | inr q ↦ rw q (ground (arith, lt, q), delete-below n xs h)
]

-- Distinct numbers below a bound are no more than the bound.
pub Distinct-bound : (n : ℕ) (xs : List ℕ) → Distinct xs → All (λ x. x < n) xs → length xs ≤ n
Distinct-bound zero [] h below = omega arith
Distinct-bound zero (x ∷ xs) h below = let lt = below.0 in absurd (omega arith)
Distinct-bound (suc n) xs h below =
    let fewer = Distinct-bound n (delete n xs) (delete-Distinct n xs h) (delete-below n xs below) in
    let cut = length-delete n xs h in omega arith

fold_left_congr {ℓ κ} :
    {A : Type ℓ} {B : Type κ} (f g : B → A → B)
    → ((b : B) (a : A) → f b a ≡ g b a)
    → (b : B) (xs : List A) → fold_left f b xs ≡ fold_left g b xs
fold_left_congr f g same b [] = refl
fold_left_congr f g same b (x ∷ xs) =
    fold_left_congr f g same (f b x) xs ∙ ap (λ d. fold_left g d xs) (same b x)

pub get_elem?-beyond : {A : Type 0} (xs : List A) (i : ℕ) → length xs ≤ i → get_elem? xs i ≡ none
get_elem?-beyond [] i h = refl
get_elem?-beyond (x ∷ xs) zero h = absurd (omega arith)
get_elem?-beyond (x ∷ xs) (suc i) h = get_elem?-beyond xs i (omega arith)

module _ (c : Chart) where
  history_in_chart : (s : StateRef) → is_history (state_at c s).kind ≡ true → s < length c.order
  unfolding state_at
  history_in_chart s h = elim (Bool-cases (ltb s (length c.order))) [
    | inl q ↦ ground (arith, q)
    | inr q ↦
        let beyond : get_elem? c.order s ≡ none = get_elem?-beyond c.order s (ground (arith, q)) in
        cc (rw beyond at h)
  ]

  module _ (recorded : HistoryValue) where
    -- Once the fuel exceeds the number of the history states that are not being visited, how much
    -- it is makes no difference.
    collect_stable :
        (f g : ℕ) (visiting result : List StateRef) (s : StateRef)
        → Distinct visiting
        → All (λ x. x < length c.order) visiting
        → length c.order < length visiting + f
        → length c.order < length visiting + g
        → collect_effective_target c f recorded visiting result s
          ≡ collect_effective_target c g recorded visiting result s
    unfolding collect_effective_target
    collect_stable zero g visiting result s d below lf lg =
        let bound = Distinct-bound (length c.order) visiting d below in absurd (omega arith)
    collect_stable (suc f) zero visiting result s d below lf lg =
        let bound = Distinct-bound (length c.order) visiting d below in absurd (omega arith)
    collect_stable (suc f) (suc g) visiting result s d below lf lg =
        elim (Bool-cases (is_history (state_at c s).kind)) [
          | inr q ↦ rw (q, collect_effective_target) refl
          | inl q ↦ elim (Bool-cases (elem s visiting)) [
            | inl r ↦ rw (q, collect_effective_target) (rw (r, collect_effective_target) refl)
            | inr r ↦ elim (Option-cases (get s recorded)) [
              | inr (states, k) ↦
                  rw (q, collect_effective_target)
                    (rw (r, collect_effective_target) (rw (k, collect_effective_target) refl))
              | inl k ↦ elim (Option-cases (state_at c s).initial) [
                | inl i ↦
                    rw (q, collect_effective_target)
                      (rw (r, collect_effective_target)
                        (rw (k, collect_effective_target) (rw (i, collect_effective_target) refl)))
                | inr (t, i) ↦
                    rw (q, collect_effective_target)
                      (rw (r, collect_effective_target)
                        (rw (k, collect_effective_target)
                          (rw (i, collect_effective_target)
                            (fold_left_congr (collect_effective_target c f recorded (s ∷ visiting))
                              (collect_effective_target c g recorded (s ∷ visiting))
                              (λ b x.
                                collect_stable f g (s ∷ visiting) b x (r, d)
                                  (history_in_chart s q, below) (omega (arith, lf))
                                  (omega (arith, lg)))
                              result (resolve c t.target)))))
              ]
            ]
          ]
        ]

    -- The fuel with which the effective targets are collected is enough: any greater amount of it
    -- collects the same states, whatever history states refer to one another, cycles included.
    pub collect_effective_target_fuel :
        (fuel : ℕ) (result : List StateRef) (s : StateRef)
        → length c.order < fuel
        → collect_effective_target c fuel recorded [] result s
          ≡ collect_effective_target c (length c.order + 1) recorded [] result s
    collect_effective_target_fuel fuel result s enough =
        collect_stable fuel (length c.order + 1) [] result s tt tt (omega arith) (omega arith)
