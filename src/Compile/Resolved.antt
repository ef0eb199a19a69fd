-- ===== src/Compile/Resolved.antt =====
-- compile.go and definition_validate.go: in the chart of an accepted definition, an ID names one
-- state, and every target names a state.
use mathlib.Core.Option
use statecharts.Base.{
  ℕ, suc, ◌≡◌, refl, subst, Bool, true, false, not, ◌&&◌, ◌||◌, if◌then◌else◌, is_empty, List, [],
  ◌∷◌, Option, none, some, is_some, All, All-append, map, get_elem?,
}
use statecharts.Base.Bytes.{Bytes, codes}
use statecharts.Identifier.{Identifier}
use statecharts.Chart.{StateKind, HistoryKind}
use statecharts.Definition.{
  TransitionDefinition, StateHead, StateDefinition, state, StateDefinitions, no_states, and_state,
  Definition,
}
use statecharts.Definition.{head as head_of}
use statecharts.Definition.Checked.{
  pass, reject, or_at, deref, >>=-eq-pass, pass_inj, indexed, below_path, if_some,
}
use statecharts.Validate.Expressions.{validate_plain_identifier, validate_optional, is_named}
use statecharts.Validate.Content.{validate_blocks}
use statecharts.Validate.Nodes.{Node, node_of, collect_states}
use statecharts.Validate.Targets.{target_nodes, validate_target_set}
use statecharts.Validate.States.{
  validate_shape, validate_initial, validate_placement, validate_head, validate_state,
  validate_children,
}
use statecharts.Validate.Parts.{
  Seen, is_valid_type, path_of, validate_events, validate_data_definitions, validate_transition,
  validate_transitions,
}
use statecharts.Validate.{validate_header, complete_states, validate_root, normalize_definition}
use statecharts.Compile.Transitions.{TransitionOutline, written_outline}
use statecharts.Compile.Compiled.{document_order, document_orders, head_outline}
use statecharts.Compile.Ids.{
  node_id, head_id, Known, DistinctIds, node_of-Known, collect_states-IsCollected,
}

-- The targets of a transition are known.
abbrev pub KnownTargets : List Identifier → TransitionOutline → Type 0
KnownTargets ids t = All (Known ids) t.1

abbrev pub KnownOptional : List Identifier → Option TransitionOutline → Type 0
KnownOptional ids none = Unit
KnownOptional ids (some t) = KnownTargets ids t

abbrev pub KnownState :
    List Identifier
    → Identifier × StateKind × HistoryKind × Option TransitionOutline × List TransitionOutline
    → Type 0
KnownState ids o = KnownOptional ids o.3 × All (KnownTargets ids) o.4

or_at-eq-pass {ℓ} :
    {A : Type ℓ} (o : Option A) (path : Bytes) {a : A} → or_at o path ≡ pass a → is_some o ≡ true
or_at-eq-pass none path h = cc
or_at-eq-pass (some a) path h = refl

module _ (valid_utf8 : Bytes → Bool) (nodes : List Node) where
  target_nodes-Known :
      (seen : List Identifier) (i : ℕ) (ts : List Identifier) (path : Bytes) (ns : List ℕ)
      → target_nodes nodes seen i ts path ≡ pass ns
      → All (Known (map node_id nodes)) ts
  unfolding target_nodes
  target_nodes-Known seen i [] path ns e = tt
  target_nodes-Known seen i (t ∷ ts) path ns e =
      let (a, ha, e1) = >>=-eq-pass (validate_plain_identifier t (indexed path i)) _ e in
      let (b, hb, e2) = >>=-eq-pass (reject (is_named t seen) (indexed path i)) _ e1 in
      let (n, hn, e3) = >>=-eq-pass (or_at (node_of nodes t) (indexed path i)) _ e2 in
      let (rest, hr, e4) = >>=-eq-pass (target_nodes nodes (t ∷ seen) (suc i) ts path) _ e3 in
      (
        node_of-Known nodes t (or_at-eq-pass (node_of nodes t) (indexed path i) hn),
        target_nodes-Known (t ∷ seen) (suc i) ts path rest hr,
      )

  validate_transition-Known :
      (t : TransitionDefinition) (path : Bytes) (is_default : Bool) (x : Unit {0})
      → validate_transition valid_utf8 nodes t path is_default ≡ pass x
      → KnownTargets (map node_id nodes) (written_outline t)
  unfolding validate_transition validate_target_set
  validate_transition-Known t path is_default x h =
      let (a, ha, e1) =
        >>=-eq-pass (reject (not (is_valid_type t.type)) (below_path path (codes ".type"))) _ h in
      let (b, hb, e2) =
        >>=-eq-pass (reject (is_default && (not (is_empty t.events) || is_some t.condition)) path) _
          e1 in
      let (c, hc, e3) =
        >>=-eq-pass
          (reject
            (not is_default && is_empty t.events && not (is_some t.condition) && is_empty t.targets)
            path)
          _ e2 in
      let (d, hd, e4) = >>=-eq-pass (validate_events 0 t.events path) _ e3 in
      let (e, he, e5) =
        >>=-eq-pass
          (validate_optional valid_utf8 t.condition (below_path path (codes ".condition"))) _ e4 in
      let (f, hf, e6) =
        >>=-eq-pass
          (validate_blocks valid_utf8 false t.actions (below_path path (codes ".actions"))) _ e5 in
      let (ns, hn, e7) =
        >>=-eq-pass (target_nodes nodes [] 0 t.targets (below_path path (codes ".targets"))) _ e6 in
      target_nodes-Known [] 0 t.targets (below_path path (codes ".targets")) ns hn

  validate_transitions-Known :
      (i : ℕ) (ts : List TransitionDefinition) (path : Bytes) (x : Unit {0})
      → validate_transitions valid_utf8 nodes i ts path ≡ pass x
      → All (KnownTargets (map node_id nodes)) (map written_outline ts)
  unfolding validate_transitions
  validate_transitions-Known i [] path x h = tt
  validate_transitions-Known i (t ∷ ts) path x h =
      let at = indexed (below_path path (codes ".transitions")) i in
      let (a, ha, e1) = >>=-eq-pass (validate_transition valid_utf8 nodes t at false) _ h in
      (validate_transition-Known t at false a ha, validate_transitions-Known (suc i) ts path x e1)

  initial-Known :
      (is_root : Bool) (m : ℕ) (h : StateHead) (place : Bytes) (o : Option TransitionDefinition)
      (x : Unit {0})
      → if_some o (validate_initial valid_utf8 nodes is_root m h place) ≡ pass x
      → KnownOptional (map node_id nodes) (Option.map written_outline o)
  unfolding validate_initial
  initial-Known is_root m h place none x q = tt
  initial-Known is_root m h place (some t) x q =
      let at = below_path place (codes ".initial") in
      let (y, hy, e1) = >>=-eq-pass (validate_transition valid_utf8 nodes t at true) _ q in
      validate_transition-Known t at true y hy

  validate_head-Known :
      (is_root : Bool) (seen : Seen) (m : ℕ) (h : StateHead) (cs : StateDefinitions) (place : Bytes)
      (r : Seen)
      → validate_head valid_utf8 nodes is_root seen m h cs place ≡ pass r
      → KnownState (map node_id nodes) (head_outline h)
  unfolding validate_head
  validate_head-Known is_root seen m h cs place r e =
      let (a, ha, e1) = >>=-eq-pass (validate_placement valid_utf8 nodes is_root h place) _ e in
      let (b, hb, e2) =
        >>=-eq-pass
          (if is_root
            then pass seen.data_ids
            else validate_data_definitions valid_utf8 seen.data_ids 0 h.items
                (below_path place (codes ".data")))
          _ e1 in
      let (c, hc, e3) = >>=-eq-pass (validate_shape valid_utf8 nodes m h cs place) _ e2 in
      let (d, hd, e4) =
        >>=-eq-pass (if_some h.initial (validate_initial valid_utf8 nodes is_root m h place)) _
          e3 in
      let (f, hf, e5) =
        >>=-eq-pass
          (validate_blocks valid_utf8 false h.on_entry (below_path place (codes ".onEntry"))) _
          e4 in
      let (g, hg, e6) =
        >>=-eq-pass
          (validate_blocks valid_utf8 false h.on_exit (below_path place (codes ".onExit"))) _ e5 in
      let (j, hj, e7) =
        >>=-eq-pass (validate_transitions valid_utf8 nodes 0 h.transitions place) _ e6 in
      (
        initial-Known is_root m h place h.initial d hd,
        validate_transitions-Known 0 h.transitions place j hj,
      )

  mutual
    unfolding validate_state

    validate_state-Known :
        (s : StateDefinition) (is_root : Bool) (seen : Seen) (m : ℕ) (r : Seen)
        → validate_state valid_utf8 nodes is_root seen m s ≡ pass r
        → All (λ h. KnownState (map node_id nodes) (head_outline h)) (document_order s)
    validate_state-Known (state h cs) is_root seen m r e =
        let place = path_of (get_elem? nodes m) in
        let (a, ha, e1) =
          >>=-eq-pass (validate_head valid_utf8 nodes is_root seen m h cs place) _ e in
        (validate_head-Known is_root seen m h cs place a ha, validate_children-Known cs a r e1)

    validate_children-Known :
        (ss : StateDefinitions) (seen r : Seen)
        → validate_children valid_utf8 nodes seen ss ≡ pass r
        → All (λ h. KnownState (map node_id nodes) (head_outline h)) (document_orders ss)
    validate_children-Known no_states seen r e = tt
    validate_children-Known (and_state s ss) seen r e =
        let (m, hm, e1) = >>=-eq-pass (deref (node_of nodes (head_of s).id)) _ e in
        let (b, hb, e2) = >>=-eq-pass (validate_state valid_utf8 nodes false seen m s) _ e1 in
        All-append (λ h. KnownState (map node_id nodes) (head_outline h)) (document_order s)
          (document_orders ss) (validate_state-Known s false seen m b hb)
          (validate_children-Known ss b r e2)

-- What normalization has established of the states.
pub record IsAccepted (n : Definition) : Type 0 where
  pub distinct : DistinctIds (map head_id (document_order n.root))
  pub known :
      All
        (λ h. KnownState (map head_id (document_order n.root)) (head_outline h))
        (document_order n.root)

pub normalize_definition-IsAccepted :
    (valid_utf8 : Bytes → Bool) (d n : Definition)
    → normalize_definition valid_utf8 d ≡ pass n
    → IsAccepted n
unfolding normalize_definition validate_root
normalize_definition-IsAccepted valid_utf8 d n e =
    let (u, hu, e1) = >>=-eq-pass (validate_header valid_utf8 d) _ e in
    let (ids, hi, e2) =
      >>=-eq-pass (validate_data_definitions valid_utf8 [] 0 d.items (codes "definition.data")) _
        e1 in
    let (r, hr, e3) = >>=-eq-pass (complete_states d.root) _ e2 in
    let (seen, hs, e4) = >>=-eq-pass (validate_root valid_utf8 ids r) _ e3 in
    let (nodes, hn, e5) = >>=-eq-pass (collect_states none (codes "root") [] r) _ hs in
    let all = collect_states-IsCollected r none (codes "root") [] nodes tt hn in
    subst IsAccepted (pass_inj e4) (record {
      distinct = subst DistinctIds all.ids all.distinct;
      known =
          subst (λ z. All (λ h. KnownState z (head_outline h)) (document_order r)) all.ids
            (validate_state-Known valid_utf8 nodes r true _ 0 seen e5);
    })
