-- ===== src/Validate/States.antt =====
-- definition_validate.go: the states.
use statecharts.Base.{
  ℕ, suc, Bool, true, false, not, ◌&&◌, ◌||◌, if◌then◌else◌, List, [], ◌∷◌, Option, none, some,
  is_some, get_elem?, is_empty,
}
use statecharts.Base.Bytes.{Bytes, codes}
use statecharts.Identifier.{Identifier}
use statecharts.Chart.{atomic, compound, parallel, final, history, HistoryKind}
use statecharts.Chart.Tree.{is_compound, is_parallel, is_final, is_history}
use statecharts.Definition.{
  TransitionDefinition, StateHead, StateDefinition, state, StateDefinitions, no_states, and_state,
}
use statecharts.Definition.{head as head_of}
use statecharts.Definition.Checked.{
  Checked, pass, ◌>>=◌, ◌>>◌, reject, deref, indexed, below_path, if_some, whenever,
}
use statecharts.Validate.Expressions.{validate_payload}
use statecharts.Validate.Content.{validate_blocks}
use statecharts.Validate.Nodes.{
  Node, node_of, node_parent, node_is, is_definition_descendant, real_definition_children,
  child_ids,
}
use statecharts.Validate.Parts.{
  Seen, is_no_blocks, is_no_states, is_internal_kind, is_shallow, no_targets, same_node, path_of,
  validate_data_definitions, validate_invokes, validate_transition, validate_transitions,
}

module _ (valid_utf8 : Bytes → Bool) where
  module _ (nodes : List Node) where
    -- The children of a parallel state, in the switch of `validateState`.
    unfoldable pub reject_final : List ℕ → Checked (Unit {0})
    unfolding node_is
    reject_final [] = pass tt
    reject_final (c ∷ cs) = do
      reject (node_is nodes (λ h. is_final h.kind) c)
          (below_path (path_of (get_elem? nodes c)) (codes ".kind"))
      reject_final cs

    -- The switch of `validateState`.
    unfoldable pub validate_shape : ℕ → StateHead → StateDefinitions → Bytes → Checked (Unit {0})
    unfolding reject_final real_definition_children node_parent
    validate_shape n h cs path = elim h.kind [
      | atomic ↦
          reject (is_some h.initial) (below_path path (codes ".initial"))
          >> reject (not (is_no_states cs)) (below_path path (codes ".children"))
      | compound ↦
          reject (is_empty (real_definition_children nodes (child_ids cs)))
            (below_path path (codes ".children"))
          >> reject (no_targets h.initial) (below_path path (codes ".initial"))
      | parallel ↦
          reject (is_some h.initial) (below_path path (codes ".initial"))
          >> reject (is_empty (real_definition_children nodes (child_ids cs)))
              (below_path path (codes ".children"))
          >> reject_final (real_definition_children nodes (child_ids cs))
      | final ↦
          reject (is_some h.initial) (below_path path (codes ".initial"))
          >> reject (not (is_no_states cs)) (below_path path (codes ".children"))
          >> reject (not (is_empty h.transitions)) (below_path path (codes ".transitions"))
          >> reject (not (is_empty h.invokes)) (below_path path (codes ".invokes"))
      | history ↦
          reject (not (is_some (node_parent nodes n))) path
          >> reject (no_targets h.initial) (below_path path (codes ".initial"))
          >> reject
              (not (is_no_states cs)
                || not (is_no_blocks h.on_entry)
                || not (is_no_blocks h.on_exit)
                || not (is_empty h.transitions)
                || not (is_empty h.invokes)
                || is_some h.done_data)
              path
    ]

    -- The default target of a history state, if it names a state.
    unfoldable pub validate_history_target : ℕ → HistoryKind → Option ℕ → Bytes → Checked (Unit {0})
    unfolding is_definition_descendant node_parent
    validate_history_target n kind none path = pass tt
    validate_history_target n kind (some t) path = do
      reject (not (is_definition_descendant nodes t (node_parent nodes n))) path
      reject (is_shallow kind && not (same_node (node_parent nodes t) (node_parent nodes n))) path

    abbrev pub is_below : ℕ → Option ℕ → Bool
    is_below n none = false
    is_below n (some t) = is_definition_descendant nodes t (some n)

    -- The loop over the default targets, in `validateState`.
    unfoldable pub validate_initial_targets :
        ℕ → StateHead → ℕ → List Identifier → Bytes → Checked (Unit {0})
    unfolding validate_history_target node_of
    validate_initial_targets n h i [] path = pass tt
    validate_initial_targets n h i (t ∷ ts) path = do
      let target_path = indexed (below_path path (codes ".initial.targets")) i
      reject (is_compound h.kind && not (is_below n (node_of nodes t))) target_path
      whenever (is_history h.kind)
          (validate_history_target n h.history (node_of nodes t) target_path)
      validate_initial_targets n h (suc i) ts path

    unfoldable pub validate_initial :
        Bool → ℕ → StateHead → Bytes → TransitionDefinition → Checked (Unit {0})
    unfolding validate_transition validate_initial_targets
    validate_initial is_root n h path t = do
      validate_transition valid_utf8 nodes t (below_path path (codes ".initial")) true
      reject (is_root && (not (is_no_blocks t.actions) || is_internal_kind t.type))
          (below_path path (codes ".initial"))
      validate_initial_targets n h 0 t.targets path

    -- The checks of `validateState` before the switch, up to the data.
    unfoldable pub validate_placement : Bool → StateHead → Bytes → Checked (Unit {0})
    validate_placement is_root h path = do
      reject (not (is_history h.kind) && not (is_shallow h.history))
          (below_path path (codes ".history"))
      whenever (is_root && (is_compound h.kind || is_parallel h.kind)) (do
        reject (not (is_no_blocks h.on_entry)) (below_path path (codes ".onEntry"))
        reject (not (is_no_blocks h.on_exit)) (below_path path (codes ".onExit"))
        reject (not (is_empty h.invokes)) (below_path path (codes ".invokes")))
      reject (not (is_final h.kind) && is_some h.done_data) (below_path path (codes ".doneData"))
      reject (is_root && not (is_empty h.items)) (below_path path (codes ".data"))
      reject ((is_final h.kind || is_history h.kind) && not (is_empty h.items))
          (below_path path (codes ".data"))

    -- `validateState`, of the state itself.
    unfoldable pub validate_head :
        Bool → Seen → ℕ → StateHead → StateDefinitions → Bytes → Checked Seen
    unfolding validate_placement validate_data_definitions validate_shape validate_initial
    validate_head is_root seen n h cs path = do
      validate_placement is_root h path
      ids ←
          if is_root
          then pass seen.data_ids
          else validate_data_definitions valid_utf8 seen.data_ids 0 h.items
              (below_path path (codes ".data"))
      validate_shape n h cs path
      if_some h.initial (validate_initial is_root n h path)
      validate_blocks valid_utf8 false h.on_entry (below_path path (codes ".onEntry"))
      validate_blocks valid_utf8 false h.on_exit (below_path path (codes ".onExit"))
      validate_transitions valid_utf8 nodes 0 h.transitions path
      more ← validate_invokes valid_utf8 (record seen { data_ids = ids }) 0 h.invokes path
      if_some h.done_data (λ d.
          validate_payload valid_utf8 d.params d.content (below_path path (codes ".doneData")))
      pass more

    -- `validateState`, whose node `n` is that of the state, and its loop over the children.
    unfoldable mutual
      unfolding validate_head node_of

      pub validate_state : Bool → Seen → ℕ → StateDefinition → Checked Seen
      validate_state is_root seen n (state h cs) = do
        more ← validate_head is_root seen n h cs (path_of (get_elem? nodes n))
        validate_children more cs

      pub validate_children : Seen → StateDefinitions → Checked Seen
      validate_children seen no_states = pass seen
      validate_children seen (and_state s ss) = do
        n ← deref (node_of nodes (head_of s).id)
        more ← validate_state false seen n s
        validate_children more ss
