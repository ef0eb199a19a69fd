-- ===== src/Interpreter/Exit/Order.antt =====
-- The orders in which a microstep leaves and enters states.
use statecharts.Base.{◌≤◌, true, List, [], ◌∷◌, ◌≡◌, Pairwise, Pairwise-weaken, arith}
use statecharts.Base.Sets.{elem, sort_asc, sort_asc_sorted}
use statecharts.Chart.{Chart, StateRef, Transition}
use statecharts.Chart.Tree.{IsTree}
use statecharts.Chart.Tree.Order.{Below, Below-lt}
use statecharts.Interpreter.Targets.{HistoryValue, compute_entry_set, compute_entry}
use statecharts.Session.{Host}
use statecharts.Interpreter.{Interpretation}
use statecharts.Interpreter.Exit.{exit_state}

module _ (c : Chart) {S : Type 0} (host : Host S) where
  -- Each state, when it is left, has no active state below it.
  abbrev pub LeavesInward : List StateRef → Interpretation S → Type 0
  LeavesInward [] ip = Unit
  LeavesInward (s ∷ ss) ip =
      ((x : StateRef) → elem x ip.configuration ≡ true → ¬ Below c x s)
      × LeavesInward ss (exit_state c host ip s)

module _ (c : Chart) (tree : IsTree c) where
  -- In a chart whose parents precede their children, the list of the states to enter puts no state
  -- after one that lies below it: each is entered only after all its ancestors.
  pub compute_entry_set-outward :
      (recorded : HistoryValue) (ts : List Transition)
      → Pairwise (λ x y. ¬ Below c x y) (compute_entry_set c recorded ts).0
  unfolding compute_entry_set
  compute_entry_set-outward recorded ts =
      let entries = (compute_entry c recorded ts).states in
      Pairwise-weaken (λ x y. x ≤ y) (λ x y. ¬ Below c x y) (sort_asc entries)
        (λ x y le under. let lt = Below-lt c tree x y under in absurd (omega (arith, le, lt)))
        (sort_asc_sorted entries)

  module _ {S : Type 0} (host : Host S) where
    -- What is active below one of the states is one of them.
    abbrev Closed : List StateRef → Interpretation S → Type 0
    Closed ss ip =
        (s x : StateRef)
        → elem s ss ≡ true
        → elem x ip.configuration ≡ true
        → Below c x s
        → elem x ss ≡ true
