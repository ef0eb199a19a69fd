-- ===== src/Interpreter/Targets.antt =====
-- interpreter.go: the entry set, the effective targets, the domain and the exit
-- set of transitions. `history` is `ip.historyValue`, `configuration` is `ip.configuration`.
pub mod Exits
pub mod Lcca
pub mod Effective
use statecharts.Base.{
  ℕ, zero, suc, ◌+◌, ◌*◌, Bool, true, false, if◌then◌else◌, ◌||◌, ◌&&◌, List, [], ◌∷◌, ◌++◌, Option,
  none, some, any, all, is_empty, fold_left, length,
}
use statecharts.Base.Sets.{elem, insert, sort_asc}
use statecharts.Base.Maps.{get, put}
use statecharts.Identifier.{Identifier}
use statecharts.Chart.{
  Chart, StateRef, State, StateKind, compound, parallel, history, Transition, Blocks, no_block,
  append_blocks, state_at, by_id, root,
}
use statecharts.Chart.Tree.{
  is_history, is_compound, is_parallel, real_children, proper_ancestors, is_descendant,
  is_compound_or_root,
}

-- `ip.historyValue`
abbrev pub HistoryValue : Type 0
HistoryValue = List (StateRef × List StateRef)

-- `entrySet` and `defaults`, which the entry computation fills.
pub record Entry : Type 0 where
  pub states : List StateRef
  pub defaults : List (StateRef × Blocks)

abbrev pub empty_entry : Entry
empty_entry = record { states = []; defaults = [] }

abbrev blocks_or_none : Option Blocks → Blocks
blocks_or_none none = no_block
blocks_or_none (some b) = b

-- `defaults[s]`
abbrev pub defaults_of : StateRef → List (StateRef × Blocks) → Blocks
defaults_of s m = blocks_or_none (get s m)

-- `defaults[s] = append(defaults[s], actions...)`
unfoldable pub add_defaults : StateRef → Blocks → Entry → Entry
add_defaults s actions es = record es {
  defaults = put s (append_blocks (defaults_of s es.defaults) actions) es.defaults;
}

-- `entrySet[s] = true`
unfoldable pub enter : StateRef → Entry → Entry
enter s es = record es { states = insert s es.states }

abbrev add_default_of_parent : Option StateRef → Blocks → Entry → Entry
add_default_of_parent none actions es = es
add_default_of_parent (some p) actions es = add_defaults p actions es

unfoldable pub resolve : Chart → List Identifier → List StateRef
resolve c [] = []
resolve c (id ∷ ids) = elim (by_id c id) [ none ↦ resolve c ids | some s ↦ s ∷ resolve c ids ]

module _ (c : Chart) where
  -- `entrySetCovers`
  unfoldable pub entry_set_covers : List StateRef → StateRef → Bool
  entry_set_covers states child =
      elem child states || any (λ s. is_descendant c s (some child)) states

  abbrev add_uncovered : (StateRef → Entry → Entry) → Entry → StateRef → Entry
  add_uncovered add es child = if entry_set_covers es.states child then es else add child es

  abbrev add_ancestor : (StateRef → Entry → Entry) → Entry → StateRef → Entry
  add_ancestor add es anc =
      let entered = enter anc es in
      if is_parallel (state_at c anc).kind
      then fold_left (add_uncovered add) entered (real_children c anc)
      else entered

  -- `addAncestorStatesToEnter`, with `add` for its calls of `addDescendantStatesToEnter`.
  unfoldable pub add_ancestor_states :
      (StateRef → Entry → Entry) → StateRef → Option StateRef → Entry → Entry
  unfolding enter entry_set_covers
  add_ancestor_states add s stop es = fold_left (add_ancestor add) es (proper_ancestors c s stop)

  -- The pair of loops that a history state or a default transition runs over its targets.
  abbrev pub add_targets :
      (StateRef → Entry → Entry) → List StateRef → Option StateRef → Entry → Entry
  add_targets add targets stop es =
      fold_left (λ e s. add_ancestor_states add s stop e) (fold_left (λ e s. add s e) es targets)
        targets

  abbrev add_history_default :
      (StateRef → Entry → Entry) → Option StateRef → Option Transition → Entry → Entry
  add_history_default add parent none es = es
  add_history_default add parent (some t) es =
      add_targets add (resolve c t.target) parent (add_default_of_parent parent t.actions es)

  abbrev add_initial : (StateRef → Entry → Entry) → StateRef → Option Transition → Entry → Entry
  add_initial add s none es = es
  add_initial add s (some t) es =
      add_targets add (resolve c t.target) (some s) (add_defaults s t.actions es)

  abbrev add_by_kind :
      StateKind → (StateRef → Entry → Entry) → HistoryValue → StateRef → Entry → Entry
  add_by_kind history add recorded s es = elim (get s recorded) [
    | some states ↦ add_targets add states (state_at c s).parent es
    | none ↦ add_history_default add (state_at c s).parent (state_at c s).initial es
  ]
  add_by_kind compound add recorded s es = add_initial add s (state_at c s).initial (enter s es)
  add_by_kind parallel add recorded s es =
      fold_left (λ e child. add child e) (enter s es) (real_children c s)
  add_by_kind _ add recorded s es = enter s es

  -- `addDescendantStatesToEnter`, on fuel for the depth of its calls.
  unfoldable pub add_descendant_states : ℕ → HistoryValue → StateRef → Entry → Entry
  unfolding add_ancestor_states add_defaults enter
  add_descendant_states zero recorded s es = es
  add_descendant_states (suc fuel) recorded s es =
      add_by_kind (state_at c s).kind (add_descendant_states fuel recorded) recorded s es

  -- The calls go down the tree, and from a history state to another at most once for each state.
  abbrev pub entry_fuel : ℕ
  entry_fuel = (length c.order + 1) * (length c.order + 1)

  abbrev add_new : List StateRef → StateRef → List StateRef
  add_new result r = if elem r result then result else result ++ (r ∷ [])

  -- `collectEffectiveTarget`: a state is in `seen` when it is in `result`. Every nested call adds a
  -- state to `visiting`, which bounds the depth by the number of states.
  unfoldable pub collect_effective_target :
      ℕ → HistoryValue → List StateRef → List StateRef → StateRef → List StateRef
  collect_effective_target zero recorded visiting result s = result
  collect_effective_target (suc fuel) recorded visiting result s =
      if is_history (state_at c s).kind
      then if elem s visiting then result else elim (get s recorded) [
        | some states ↦ fold_left add_new result states
        | none ↦ elim (state_at c s).initial [
          | none ↦ result
          | some t ↦
              fold_left (collect_effective_target fuel recorded (s ∷ visiting)) result
                (resolve c t.target)
        ]
      ]
      else add_new result s

  unfoldable pub effective_target_states : HistoryValue → Transition → List StateRef
  unfolding collect_effective_target resolve
  effective_target_states recorded t =
      fold_left (collect_effective_target (length c.order + 1) recorded []) [] (resolve c t.target)

  unfoldable pub all_descendants : List StateRef → StateRef → Bool
  all_descendants states a = all (λ s. is_descendant c s (some a)) states

  -- The loop of `findLCCA` over the ancestors of the first state.
  unfoldable pub first_common : List StateRef → List StateRef → StateRef
  unfolding all_descendants
  first_common states [] = root
  first_common states (a ∷ rest) =
      let other = first_common states rest in
      if is_compound_or_root c a && all_descendants states a then a else other

  unfoldable pub find_lcca : List StateRef → Option StateRef
  unfolding first_common
  find_lcca [] = none
  find_lcca (s ∷ ss) = some (first_common (s ∷ ss) (proper_ancestors c s none))

  abbrev domain_of : Transition → List StateRef → Option StateRef
  domain_of t [] = none
  domain_of t (s ∷ ss) =
      if t.is_internal
        && is_compound (state_at c t.source).kind
        && all_descendants (s ∷ ss) t.source
      then some t.source
      else find_lcca (t.source ∷ s ∷ ss)

  unfoldable pub transition_domain : HistoryValue → Transition → Option StateRef
  unfolding effective_target_states find_lcca all_descendants
  transition_domain recorded t = domain_of t (effective_target_states recorded t)

  -- One round of `computeEntrySet`.
  abbrev add_transition : HistoryValue → Entry → Transition → Entry
  add_transition recorded es t =
      let add = add_descendant_states entry_fuel recorded in
      fold_left (λ e s. add_ancestor_states add s (transition_domain recorded t) e)
        (fold_left (λ e s. add s e) es (resolve c t.target)) (effective_target_states recorded t)

  unfoldable pub compute_entry : HistoryValue → List Transition → Entry
  unfolding add_descendant_states add_ancestor_states transition_domain
  compute_entry recorded ts = fold_left (add_transition recorded) empty_entry ts

  -- `computeEntrySet`: the states in entry order, and the default actions by state.
  unfoldable pub compute_entry_set :
      HistoryValue → List Transition → List StateRef × List (StateRef × Blocks)
  unfolding compute_entry sort_asc
  compute_entry_set recorded ts =
      let es = compute_entry recorded ts in (sort_asc es.states, es.defaults)

  -- The active states below the domain, added to the exit set.
  unfoldable pub exit_below : Option StateRef → List StateRef → List StateRef → List StateRef
  exit_below domain [] exits = exits
  exit_below domain (s ∷ ss) exits =
      exit_below domain ss (if is_descendant c s domain then insert s exits else exits)

  -- One round of `computeExitSet`.
  unfoldable pub add_exits :
      HistoryValue → List StateRef → List StateRef → Transition → List StateRef
  unfolding exit_below transition_domain
  add_exits recorded configuration exits t =
      if is_empty t.target
      then exits
      else exit_below (transition_domain recorded t) configuration exits

  unfoldable pub compute_exit_set : HistoryValue → List StateRef → List Transition → List StateRef
  unfolding add_exits
  compute_exit_set recorded configuration ts = fold_left (add_exits recorded configuration) [] ts
