-- ===== src/Interpreter/Select/Conflicts.antt =====
-- The transitions that survive `removeConflictingTransitions`.
use statecharts.Base.{
  ℕ, Bool, true, false, not, List, [], ◌∷◌, ◌++◌, some, ◌≡◌, refl, sym, ◌∙◌, ap, arith, any, keep,
  Pairwise, All, Bool-cases, inl, inr, ◌⊎◌, subst,
}
use mathlib.Core.Bool.{false≢true}
use statecharts.Base.Sets.{elem}
use statecharts.Chart.{Chart, StateRef, Transition}
use statecharts.Chart.Tree.{is_descendant}
use statecharts.Interpreter.Targets.{HistoryValue, compute_exit_set}
use statecharts.Interpreter.Select.{
  same_transition, exit_sets_intersect, Conflict, preempted, replaces, conflict, filter_transition,
  filter_from, remove_conflicting_transitions,
}

pub All-append {ℓ κ} :
    {A : Type ℓ} (P : A → Type κ) (xs ys : List A) → All P xs → All P ys → All P (xs ++ ys)
All-append P [] ys h g = g
All-append P (x ∷ xs) ys h g = (h.0, All-append P xs ys h.1 g)

All-keep {ℓ κ} :
    {A : Type ℓ} (P : A → Type κ) (p : A → Bool) (xs : List A) → All P xs → All P (keep p xs)
All-keep P p [] h = tt
All-keep P p (x ∷ xs) h = elim (Bool-cases (p x)) [
  | inl e ↦ rw e (h.0, All-keep P p xs h.1)
  | inr e ↦ rw e (All-keep P p xs h.1)
]

not_both :
    (a b : List ℕ) (s : ℕ) → exit_sets_intersect a b ≡ false → elem s a ≡ true → elem s b ≡ false
unfolding exit_sets_intersect
not_both [] b s h m = cc
not_both (x ∷ a) b s h m = ground (arith, not_both a b s, same s x)
  where
    same : (s x : ℕ) → s ≡ x → elem s b ≡ elem x b
    same s x e = ap (λ y. elem y b) e

Pairwise-keep {ℓ κ} :
    {A : Type ℓ} (R : A → A → Type κ) (p : A → Bool) (xs : List A)
    → Pairwise R xs
    → Pairwise R (keep p xs)
Pairwise-keep R p [] h = tt
Pairwise-keep R p (x ∷ xs) h = elim (Bool-cases (p x)) [
  | inl e ↦ rw e (All-keep (R x) p xs h.0, Pairwise-keep R p xs h.1)
  | inr e ↦ rw e (Pairwise-keep R p xs h.1)
]

Pairwise-snoc {ℓ κ} :
    {A : Type ℓ} (R : A → A → Type κ) (xs : List A) (y : A)
    → Pairwise R xs
    → All (λ x. R x y) xs
    → Pairwise R (xs ++ (y ∷ []))
Pairwise-snoc R [] y h g = (tt, tt)
Pairwise-snoc R (x ∷ xs) y h g =
    (All-append (R x) xs (y ∷ []) h.0 (g.0, tt), Pairwise-snoc R xs y h.1 g.1)

same_transition_refl : (t : Transition) → same_transition t t ≡ true
same_transition_refl t = ground arith

module _ (c : Chart) (recorded : HistoryValue) (configuration : List StateRef) where
  abbrev pub exits_of : Transition → List StateRef
  exits_of t = compute_exit_set c recorded configuration (t ∷ [])

  -- No state is left by both transitions.
  abbrev pub Disjoint : Transition → Transition → Type 0
  Disjoint t u = (s : StateRef) → elem s (exits_of u) ≡ true → elem s (exits_of t) ≡ false

  Conflict-cases : (r : Conflict c) → (r ≡ preempted) ⊎ ((ts : List Transition) × (r ≡ replaces ts))
  Conflict-cases preempted = inl refl
  Conflict-cases (replaces ts) = inr (ts, refl)

  abbrev Spared : Transition → List Transition → Transition → Type 0
  Spared t1 removed t = Disjoint t t1 ⊎ (any (same_transition t) removed ≡ true)

  Spared-more :
      (t1 u : Transition) (removed fs : List Transition)
      → All (Spared t1 removed) fs
      → All (Spared t1 (u ∷ removed)) fs
  Spared-more t1 u removed [] h = tt
  Spared-more t1 u removed (t ∷ fs) h = (
    elim h.0 [ inl d ↦ inl d | inr m ↦ inr (rw m (ground arith)) ],
    Spared-more t1 u removed fs h.1,
  )

  -- Each listed transition shares no exit with `t1`, or gives way to it, unless `t1` is preempted.
  conflict_spares :
      (t1 : Transition) (fs removed : List Transition)
      → conflict c recorded configuration t1 fs ≡ replaces removed
      → All (Spared t1 removed) fs
  unfolding conflict
  conflict_spares t1 [] removed e = tt
  conflict_spares t1 (t2 ∷ rest) removed e =
      elim (Bool-cases (exit_sets_intersect (exits_of t1) (exits_of t2))) [
        | inr apart ↦ (
          inl (λ s m. not_both (exits_of t1) (exits_of t2) s apart m),
          conflict_spares t1 rest removed (rw apart at e),
        )
        | inl meet ↦ elim (Bool-cases (is_descendant c t1.source (some t2.source))) [
          | inr above ↦ cc (rw (meet, above) at e)
          | inl below ↦ elim (Conflict-cases (conflict c recorded configuration t1 rest)) [
            | inl lost ↦ cc (rw (meet, below, lost) at e)
            | inr (ts, won) ↦
                let gives : t2 ∷ ts ≡ removed = cc (rw (meet, below, won) at e) in
                subst (λ rs. All (Spared t1 rs) (t2 ∷ rest)) gives
                  (
                    inr (rw (same_transition_refl t2)),
                    Spared-more t1 t2 ts rest (conflict_spares t1 rest ts won),
                  )
          ]
        ]
      ]

  Disjoint-kept :
      (t1 : Transition) (removed fs : List Transition)
      → All (Spared t1 removed) fs
      → All (λ t. Disjoint t t1) (keep (λ t. not (any (same_transition t) removed)) fs)
  Disjoint-kept t1 removed [] h = tt
  Disjoint-kept t1 removed (t ∷ fs) h = elim (Bool-cases (any (same_transition t) removed)) [
    | inl gone ↦ rw gone (Disjoint-kept t1 removed fs h.1)
    | inr stays ↦ rw stays (
      elim h.0 [ inl d ↦ d | inr m ↦ absurd (false≢true (sym stays ∙ m)) ],
      Disjoint-kept t1 removed fs h.1,
    )
  ]

  filter_transition-Disjoint :
      (fs : List Transition) (t1 : Transition)
      → Pairwise Disjoint fs
      → Pairwise Disjoint (filter_transition c recorded configuration fs t1)
  unfolding filter_transition
  filter_transition-Disjoint fs t1 h =
      elim (Conflict-cases (conflict c recorded configuration t1 fs)) [
        | inl lost ↦ rw (lost, filter_transition) h
        | inr (removed, won) ↦
            rw (won, filter_transition)
              (Pairwise-snoc Disjoint (keep (λ t. not (any (same_transition t) removed)) fs) t1
                (Pairwise-keep Disjoint _ fs h)
                (Disjoint-kept t1 removed fs (conflict_spares t1 fs removed won)))
      ]

  filter_from-Disjoint :
      (ts fs : List Transition)
      → Pairwise Disjoint fs
      → Pairwise Disjoint (filter_from c recorded configuration fs ts)
  unfolding filter_from
  filter_from-Disjoint [] fs h = h
  filter_from-Disjoint (t ∷ ts) fs h =
      filter_from-Disjoint ts (filter_transition c recorded configuration fs t)
        (filter_transition-Disjoint fs t h)

  -- The transitions that are taken together never leave the same state: the exit sets of any two
  -- that survive the removal of conflicts are disjoint.
  pub remove_conflicting_transitions-Disjoint :
      (enabled : List Transition)
      → Pairwise Disjoint (remove_conflicting_transitions c recorded configuration enabled)
  unfolding remove_conflicting_transitions
  remove_conflicting_transitions-Disjoint enabled = filter_from-Disjoint enabled [] tt

  filter_transition-All :
      (P : Transition → Type 0) (fs : List Transition) (t1 : Transition)
      → All P fs
      → P t1
      → All P (filter_transition c recorded configuration fs t1)
  unfolding filter_transition
  filter_transition-All P fs t1 h p =
      elim (Conflict-cases (conflict c recorded configuration t1 fs)) [
        | inl lost ↦ rw (lost, filter_transition) h
        | inr (removed, won) ↦
            rw (won, filter_transition) (All-append P _ (t1 ∷ []) (All-keep P _ fs h) (p, tt))
      ]

  filter_from-All :
      (P : Transition → Type 0) (ts fs : List Transition)
      → All P fs
      → All P ts
      → All P (filter_from c recorded configuration fs ts)
  unfolding filter_from
  filter_from-All P [] fs h g = h
  filter_from-All P (t ∷ ts) fs h g =
      filter_from-All P ts (filter_transition c recorded configuration fs t)
        (filter_transition-All P fs t h g.0) g.1

  -- What holds of every enabled transition holds of those that survive: none is made up.
  pub remove_conflicting_transitions-All :
      (P : Transition → Type 0) (enabled : List Transition)
      → All P enabled
      → All P (remove_conflicting_transitions c recorded configuration enabled)
  unfolding remove_conflicting_transitions
  remove_conflicting_transitions-All P enabled h = filter_from-All P enabled [] tt h
