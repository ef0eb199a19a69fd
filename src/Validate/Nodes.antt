-- ===== src/Validate/Nodes.antt =====
-- definition_validate.go: the states of a definition, collected with their parents and found by ID.
--
-- A `*definitionStateNode` is the node's place in the order of collection, in which a parent
-- precedes its children: a walk to the root that starts at a node takes fewer steps than its place.
use statecharts.Base.{
  ℕ, zero, suc, Bool, true, false, not, if◌then◌else◌, List, [], ◌∷◌, ◌++◌, Option, none, some,
  is_some, ◌==◌, length, get_elem?,
}
use statecharts.Base.Bytes.{Bytes, codes, bytes_eq}
use statecharts.Base.Sets.{elem}
use statecharts.Identifier.{Identifier}
use statecharts.Chart.Tree.{is_history}
use statecharts.Definition.{
  StateHead, StateDefinition, state, StateDefinitions, no_states, and_state,
}
use statecharts.Definition.{head as head_of}
use statecharts.Definition.Checked.{Checked, pass, ◌>>=◌, ◌>>◌, reject, indexed, below_path}
use statecharts.Validate.Expressions.{validate_plain_identifier}

-- `definitionStateNode`, with the IDs of the state's children.
pub record Node : Type 0 where
  pub head : StateHead
  pub children : List Identifier
  pub parent : Option ℕ
  pub path : Bytes

abbrev pub child_ids : StateDefinitions → List Identifier
child_ids no_states = []
child_ids (and_state s ss) = (head_of s).id ∷ child_ids ss

unfoldable pub find_node : Identifier → ℕ → List Node → Option ℕ
find_node id i [] = none
find_node id i (n ∷ ns) =
    let rest = find_node id (suc i) ns in if bytes_eq n.head.id id then some i else rest

-- `v.byID[id]`, where `none` is a nil pointer.
unfoldable pub node_of : List Node → Identifier → Option ℕ
unfolding find_node
node_of nodes id = find_node id 0 nodes

-- `collectStates`: the nodes so far, with those of the state's subtree after them.
unfoldable mutual
  unfolding validate_plain_identifier node_of

  pub collect_states : Option ℕ → Bytes → List Node → StateDefinition → Checked (List Node)
  collect_states parent path nodes (state h cs) = do
    validate_plain_identifier h.id (below_path path (codes ".id"))
    reject (is_some (node_of nodes h.id)) (below_path path (codes ".id"))
    let node : Node = record { head = h; children = child_ids cs; parent = parent; path = path }
    collect_children (length nodes) path 0 (nodes ++ (node ∷ [])) cs

  pub collect_children : ℕ → Bytes → ℕ → List Node → StateDefinitions → Checked (List Node)
  collect_children parent path k nodes no_states = pass nodes
  collect_children parent path k nodes (and_state s ss) = do
    more ← collect_states (some parent) (indexed (below_path path (codes ".children")) k) nodes s
    collect_children parent path (suc k) more ss

module _ (nodes : List Node) where
  abbrev pub parent_of : Option Node → Option ℕ
  parent_of none = none
  parent_of (some n) = n.parent

  unfoldable pub node_parent : ℕ → Option ℕ
  node_parent n = parent_of (get_elem? nodes n)

  -- The loop of `isDefinitionDescendant`.
  unfoldable pub node_climbs : ℕ → ℕ → Option ℕ → Bool
  unfolding node_parent
  node_climbs a zero p = false
  node_climbs a (suc fuel) none = false
  node_climbs a (suc fuel) (some p) =
      let rest = node_climbs a fuel (node_parent p) in if p == a then true else rest

  unfoldable pub is_definition_descendant : ℕ → Option ℕ → Bool
  unfolding node_climbs
  is_definition_descendant n none = false
  is_definition_descendant n (some a) = node_climbs a n (node_parent n)

  -- The ancestors in the map of `leastCommonDefinitionAncestor`, the state itself included.
  unfoldable pub ancestors_or_self : ℕ → Option ℕ → List ℕ
  unfolding node_parent
  ancestors_or_self zero p = []
  ancestors_or_self (suc fuel) none = []
  ancestors_or_self (suc fuel) (some p) = p ∷ ancestors_or_self fuel (node_parent p)

  abbrev first_in : List ℕ → List ℕ → Option ℕ
  first_in set [] = none
  first_in set (n ∷ ns) = if elem n set then some n else first_in set ns

  unfoldable pub least_common_definition_ancestor : ℕ → ℕ → Option ℕ
  unfolding ancestors_or_self
  least_common_definition_ancestor left right =
      first_in (ancestors_or_self (suc left) (some left))
        (ancestors_or_self (suc right) (some right))

  abbrev kind_is : (StateHead → Bool) → Option Node → Bool
  kind_is p none = false
  kind_is p (some n) = p n.head

  -- Whether the node is there and its state satisfies `p`.
  unfoldable pub node_is : (StateHead → Bool) → ℕ → Bool
  node_is p n = kind_is p (get_elem? nodes n)

  -- `realDefinitionChildren`, of a node with these children.
  unfoldable pub real_definition_children : List Identifier → List ℕ
  unfolding node_of node_is
  real_definition_children [] = []
  real_definition_children (id ∷ ids) =
      let rest = real_definition_children ids in
      elim (node_of nodes id) [
        | none ↦ rest
        | some n ↦ if node_is (λ h. not (is_history h.kind)) n then n ∷ rest else rest
      ]
