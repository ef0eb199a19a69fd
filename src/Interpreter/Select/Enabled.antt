-- ===== src/Interpreter/Select/Enabled.antt =====
-- Where the selected transitions come from.
use statecharts.Base.{
  ℕ, true, List, [], ◌∷◌, Option, none, some, ◌≡◌, refl, any, All, Bool-cases, Option-cases, inl,
  inr, get_elem?, suc, ◌⊎◌,
}
use statecharts.Event.{Event}
use statecharts.Chart.{Chart, StateRef, Transition, state_at}
use statecharts.Chart.Tree.{proper_ancestors}
use statecharts.Session.{Host}
use statecharts.Interpreter.{Interpretation}
use statecharts.Interpreter.Select.{
  same_transition, cond_matches, is_candidate, first_enabled, enabled_in_chain, add_enabled,
  enabled_from, atomic_states_in_doc_order, select_transitions,
}
use statecharts.Interpreter.Select.Conflicts.{All-append, remove_conflicting_transitions-All}

module _ (c : Chart) {S : Type 0} (host : Host S) (ev : Option Event) where
  -- A transition of the state that is a candidate for the event.
  abbrev pub Offers : StateRef → Transition → Type 0
  Offers s t =
      ((i : ℕ) × (get_elem? (state_at c s).transitions i ≡ some t))
      × (is_candidate c host ev t ≡ true)

  -- A transition that the search may find: the state or one of its ancestors offers it.
  abbrev pub OfChain : List StateRef → Transition → Type 0
  OfChain [] t = ⊥
  OfChain (s ∷ chain) t = Offers s t ⊎ OfChain chain t

  -- One of the states, or an ancestor of it, offers the transition.
  abbrev pub OfStates : List StateRef → Transition → Type 0
  OfStates [] t = ⊥
  OfStates (s ∷ states) t = OfChain (s ∷ proper_ancestors c s none) t ⊎ OfStates states t

  abbrev Found : (Transition → Type 0) → Option Transition → Type 0
  Found P none = Unit
  Found P (some t) = P t

  first_enabled-Found :
      (P : Transition → Type 0) (ts : List Transition) (ip : Interpretation S)
      → ((i : ℕ) (t : Transition) → get_elem? ts i ≡ some t → is_candidate c host ev t ≡ true → P t)
      → Found P (first_enabled c host ev ts ip).1
  unfolding first_enabled
  first_enabled-Found P [] ip h = tt
  first_enabled-Found P (t ∷ ts) ip h =
      let rest = first_enabled-Found P ts ip (λ i. h (suc i)) in
      let after = first_enabled-Found P ts (cond_matches c host t ip).0 (λ i. h (suc i)) in
      elim (Bool-cases (is_candidate c host ev t)) [
        | inr q ↦ rw (q, first_enabled) rest
        | inl q ↦ elim (Bool-cases (cond_matches c host t ip).1) [
          | inl r ↦ rw (q, first_enabled) (rw (r, first_enabled) (h 0 t refl q))
          | inr r ↦ rw (q, first_enabled) (rw (r, first_enabled) after)
        ]
      ]

  Found-weaken :
      (P Q : Transition → Type 0) (o : Option Transition)
      → ((t : Transition) → P t → Q t)
      → Found P o
      → Found Q o
  Found-weaken P Q none f h = tt
  Found-weaken P Q (some t) f h = f t h

  enabled_in_chain-Found :
      (chain : List StateRef) (ip : Interpretation S)
      → Found (OfChain chain) (enabled_in_chain c host ev chain ip).1
  unfolding enabled_in_chain
  enabled_in_chain-Found [] ip = tt
  enabled_in_chain-Found (s ∷ chain) ip =
      let here =
        first_enabled-Found (Offers s) (state_at c s).transitions ip (λ i t e k. ((i, e), k)) in
      let up =
        enabled_in_chain-Found chain (first_enabled c host ev (state_at c s).transitions ip).0 in
      elim (Option-cases (first_enabled c host ev (state_at c s).transitions ip).1) [
        | inl q ↦
            rw (q, enabled_in_chain)
              (Found-weaken (OfChain chain) (OfChain (s ∷ chain)) _ (λ t k. inr k) up)
        | inr (t, q) ↦ rw (q, enabled_in_chain) (inl (rw q at here))
      ]

  add_enabled-All :
      (P : Transition → Type 0) (enabled : List Transition) (o : Option Transition)
      → All P enabled
      → Found P o
      → All P (add_enabled c host enabled o)
  add_enabled-All P enabled none h g = h
  add_enabled-All P enabled (some t) h g = elim (Bool-cases (any (same_transition t) enabled)) [
    | inl q ↦ rw q h
    | inr q ↦ rw q (All-append P enabled (t ∷ []) h (g, tt))
  ]

  enabled_from-All :
      (P : Transition → Type 0) (states : List StateRef) (enabled : List Transition)
      (ip : Interpretation S)
      → ((t : Transition) → OfStates states t → P t)
      → All P enabled
      → All P (enabled_from c host ev states enabled ip).1
  unfolding enabled_from
  enabled_from-All P [] enabled ip h g = g
  enabled_from-All P (s ∷ states) enabled ip h g =
      let chain = s ∷ proper_ancestors c s none in
      let found = enabled_in_chain-Found chain ip in
      enabled_from-All P states _ _ (λ t k. h t (inr k))
        (add_enabled-All P enabled (enabled_in_chain c host ev chain ip).1 g
          (Found-weaken (OfChain chain) P _ (λ t k. h t (inl k)) found))

  -- Every selected transition belongs to an active atomic state or to an ancestor of one, and is a
  -- candidate: with an event, it names a descriptor that matches the event; without one, it is
  -- eventless.
  pub select_transitions-OfStates :
      (ip : Interpretation S)
      → All
          (OfStates (atomic_states_in_doc_order c ip.configuration))
          (select_transitions c host ev ip).1
  unfolding select_transitions
  select_transitions-OfStates ip =
      remove_conflicting_transitions-All c _ _
        (OfStates (atomic_states_in_doc_order c ip.configuration)) _
        (enabled_from-All _ (atomic_states_in_doc_order c ip.configuration) [] ip (λ t k. k) tt)
