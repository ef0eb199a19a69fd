-- ===== src/Interpreter/Targets/Exits.antt =====
-- What `computeExitSet` computes.
use statecharts.Base.{
  Bool, not, ◌&&◌, ◌||◌, List, [], ◌∷◌, Option, ◌≡◌, ap, arith, any, is_empty, Bool-cases, inl, inr,
  fold_left,
}
use statecharts.Base.Sets.{elem, insert, elem-insert}
use statecharts.Chart.{Chart, StateRef, Transition}
use statecharts.Chart.Tree.{is_descendant}
use statecharts.Interpreter.Targets.{
  HistoryValue, exit_below, add_exits, compute_exit_set, transition_domain,
}

module _ (c : Chart) where
  exit_below-elem :
      (domain : Option StateRef) (ss exits : List StateRef) (a : StateRef)
      → elem a (exit_below c domain ss exits)
        ≡ (elem a exits || (elem a ss && is_descendant c a domain))
  unfolding exit_below
  exit_below-elem domain [] exits a = ground arith
  exit_below-elem domain (s ∷ ss) exits a = ground (
    arith,
    elem-insert a s exits,
    exit_below-elem domain ss (insert s exits) a,
    exit_below-elem domain ss exits a,
    same a s,
  )
    where
      same : (a s : StateRef) → a ≡ s → is_descendant c a domain ≡ is_descendant c s domain
      same a s e = ap (λ x. is_descendant c x domain) e

  module _ (recorded : HistoryValue) (configuration : List StateRef) where
    -- A transition with targets leaves what lies below its domain.
    abbrev pub leaves : StateRef → Transition → Bool
    leaves a t = not (is_empty t.target) && is_descendant c a (transition_domain c recorded t)

    add_exits-elem :
        (exits : List StateRef) (t : Transition) (a : StateRef)
        → elem a (add_exits c recorded configuration exits t)
          ≡ (elem a exits || (elem a configuration && leaves a t))
    unfolding add_exits
    add_exits-elem exits t a = elim (Bool-cases (is_empty t.target)) [
      | inl q ↦ rw (q, add_exits) (ground arith)
      | inr q ↦
          rw (q, add_exits) (exit_below-elem (transition_domain c recorded t) configuration exits a)
    ]

    compute_exit_set_from :
        (ts : List Transition) (exits : List StateRef) (a : StateRef)
        → elem a (fold_left (add_exits c recorded configuration) exits ts)
          ≡ (elem a exits || (elem a configuration && any (leaves a) ts))
    compute_exit_set_from [] exits a = ground arith
    compute_exit_set_from (t ∷ ts) exits a = ground (
      arith,
      compute_exit_set_from ts (add_exits c recorded configuration exits t) a,
      add_exits-elem exits t a,
    )

    -- A state is in the exit set exactly when it is active and some transition with targets has a
    -- domain above it.
    pub compute_exit_set_iff :
        (ts : List Transition) (a : StateRef)
        → elem a (compute_exit_set c recorded configuration ts)
          ≡ (elem a configuration && any (leaves a) ts)
    unfolding compute_exit_set
    compute_exit_set_iff ts a = compute_exit_set_from ts [] a
