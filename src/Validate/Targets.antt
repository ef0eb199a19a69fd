-- ===== src/Validate/Targets.antt =====
-- definition_validate.go: the targets of a transition, which can be active together.
--
-- Each call of `collectDefaultAtoms` that calls itself adds its state to `visiting`, which holds no
-- state twice: the number of states is fuel enough.
use statecharts.Base.{
  ℕ, zero, suc, ◌+◌, Bool, true, false, not, ◌&&◌, ◌||◌, if◌then◌else◌, List, [], ◌∷◌, Option, none,
  some, length, get_elem?, all, map, is_empty,
}
use statecharts.Base.Bytes.{Bytes}
use statecharts.Base.Options
use statecharts.Base.Sets.{elem, insert}
use statecharts.Identifier.{Identifier}
use statecharts.Chart.{atomic, compound, parallel, final, history}
use statecharts.Chart.Tree.{is_atomic, is_parallel}
use statecharts.Definition.{TransitionDefinition}
use statecharts.Definition.Checked.{Checked, pass, ◌>>=◌, ◌>>◌, reject, indexed, or_at, whenever}
use statecharts.Validate.Expressions.{validate_plain_identifier, is_named}
use statecharts.Validate.Nodes.{
  Node, node_of, is_definition_descendant, least_common_definition_ancestor, node_is,
  real_definition_children,
}

-- `p` of every two elements, the earlier one first.
abbrev pub all_pairs {ℓ} : {A : Type ℓ} → (A → A → Bool) → List A → Bool
all_pairs p [] = true
all_pairs p (x ∷ xs) = all (p x) xs && all_pairs p xs

-- `collectDefaultAtoms` for each target, of which `none` is an ID that names no state.
abbrev pub collect_each :
    (ℕ → List ℕ → Option (List ℕ)) → List (Option ℕ) → List ℕ → Option (List ℕ)
collect_each f [] atoms = some atoms
collect_each f (none ∷ ns) atoms = none
collect_each f (some n ∷ ns) atoms = Options.◌>>=◌ (f n atoms) (λ more. collect_each f ns more)

module _ (nodes : List Node) where
  unfoldable pub default_targets : Option TransitionDefinition → Option (List (Option ℕ))
  default_targets none = none
  default_targets (some t) =
      if is_empty t.targets then none else some (map (node_of nodes) t.targets)

  -- The states that the loops of `collectDefaultAtoms` go through; no list at all where there is no
  -- default target.
  unfoldable pub default_states : Option Node → Option (List (Option ℕ))
  unfolding default_targets real_definition_children
  default_states none = none
  default_states (some n) = elim n.head.kind [
    | parallel ↦ some (map (λ c. some c) (real_definition_children nodes n.children))
    | atomic ↦ some []
    | final ↦ some []
    | compound ↦ default_targets n.head.initial
    | history ↦ default_targets n.head.initial
  ]

  -- `collectDefaultAtoms`: the atoms so far, with those of the state; errors are `none`.
  unfoldable pub collect_default_atoms : ℕ → List ℕ → ℕ → List ℕ → Option (List ℕ)
  unfolding default_states node_is
  collect_default_atoms zero visiting n atoms = none
  collect_default_atoms (suc fuel) visiting n atoms =
      let below = collect_each (collect_default_atoms fuel (n ∷ visiting)) in
      if elem n visiting
      then none
      else if node_is nodes (λ h. is_atomic h.kind) n
      then some (insert n atoms)
      else Options.◌>>=◌ (default_states (get_elem? nodes n)) (λ states. below states atoms)

  -- The first loop of `validateTargetSet`, from the `i`-th target on: the targets' nodes.
  unfoldable pub target_nodes : List Identifier → ℕ → List Identifier → Bytes → Checked (List ℕ)
  unfolding validate_plain_identifier
  target_nodes seen i [] path = pass []
  target_nodes seen i (t ∷ ts) path = do
    validate_plain_identifier t (indexed path i)
    reject (is_named t seen) (indexed path i)
    n ← or_at (node_of nodes t) (indexed path i)
    rest ← target_nodes (t ∷ seen) (suc i) ts path
    pass (n ∷ rest)

  -- Neither is an ancestor of the other.
  unfoldable pub unrelated : ℕ → ℕ → Bool
  unfolding is_definition_descendant
  unrelated a b =
      not (is_definition_descendant nodes a (some b) || is_definition_descendant nodes b (some a))

  abbrev parallel_at : Option ℕ → Bool
  parallel_at none = false
  parallel_at (some n) = node_is nodes (λ h. is_parallel h.kind) n

  -- Both can be active at once.
  unfoldable pub active_together : ℕ → ℕ → Bool
  unfolding least_common_definition_ancestor
  active_together a b = parallel_at (least_common_definition_ancestor nodes a b)

  -- The atoms that the targets expand to.
  unfoldable pub target_atoms : List ℕ → Option (List ℕ)
  unfolding collect_default_atoms
  target_atoms ns =
      collect_each (collect_default_atoms (length nodes + 1) []) (map (λ n. some n) ns) []

  unfoldable pub validate_target_set : List Identifier → Bytes → Checked (Unit {0})
  unfolding target_nodes unrelated active_together target_atoms
  validate_target_set targets path = do
    ns ← target_nodes [] 0 targets path
    reject (not (all_pairs unrelated ns)) path
    whenever (not (is_empty ns)) (do
      atoms ← or_at (target_atoms ns) path
      reject (is_empty atoms) path
      reject (not (all_pairs active_together atoms)) path)
