-- ===== src/Compile/Ids.antt =====
-- definition_validate.go: the IDs of the states of a definition that is accepted.
use statecharts.Base.{
  ℕ, suc, ◌≡◌, refl, sym, ap, subst, ◌∙◌, true, false, List, [], ◌∷◌, ◌++◌, append_assoc,
  append-nil, Option, some, is_some, inl, inr, Bool-cases, All, Pairwise, Pairwise-snoc, map,
  map-append, any, length,
}
use statecharts.Base.Bytes.{Bytes, codes, bytes_eq}
use statecharts.Identifier.{Identifier}
use statecharts.Definition.{
  StateHead, StateDefinition, state, StateDefinitions, no_states, and_state,
}
use statecharts.Definition.Checked.{
  pass, reject, >>=-eq-pass, pass_inj, reject-eq-pass, indexed, below_path,
}
use statecharts.Validate.Expressions.{validate_plain_identifier}
use statecharts.Validate.Nodes.{
  Node, child_ids, find_node, node_of, collect_states, collect_children,
}
use statecharts.Compile.Compiled.{document_order, document_orders}

abbrev pub node_id : Node → Identifier
node_id n = n.head.id

abbrev pub head_id : StateHead → Identifier
head_id h = h.id

-- The ID is among them.
abbrev pub Known : List Identifier → Identifier → Type 0
Known ids t = any (λ id. bytes_eq id t) ids ≡ true

-- No two are the same.
abbrev pub DistinctIds : List Identifier → Type 0
DistinctIds ids = Pairwise (λ a b. bytes_eq a b ≡ false) ids

find_node-absent :
    (id : Identifier) (i : ℕ) (nodes : List Node)
    → is_some (find_node id i nodes) ≡ false
    → All (λ a. bytes_eq a id ≡ false) (map node_id nodes)
unfolding find_node
find_node-absent id i [] h = tt
find_node-absent id i (n ∷ ns) h = elim (Bool-cases (bytes_eq n.head.id id)) [
  | inl q ↦ cc (rw q at h)
  | inr q ↦ (q, find_node-absent id (suc i) ns (rw q at h))
]

find_node-Known :
    (id : Identifier) (i : ℕ) (nodes : List Node)
    → is_some (find_node id i nodes) ≡ true
    → Known (map node_id nodes) id
unfolding find_node
find_node-Known id i [] h = cc
find_node-Known id i (n ∷ ns) h = elim (Bool-cases (bytes_eq n.head.id id)) [
  | inl q ↦ rw q refl
  | inr q ↦ rw q (find_node-Known id (suc i) ns (rw q at h))
]

pub node_of-Known :
    (nodes : List Node) (id : Identifier)
    → is_some (node_of nodes id) ≡ true
    → Known (map node_id nodes) id
unfolding node_of
node_of-Known nodes id h = find_node-Known id 0 nodes h

node_of-absent :
    (nodes : List Node) (id : Identifier)
    → is_some (node_of nodes id) ≡ false
    → All (λ a. bytes_eq a id ≡ false) (map node_id nodes)
unfolding node_of
node_of-absent nodes id h = find_node-absent id 0 nodes h

-- What a collection adds: the IDs in document order, none of which was there.
pub record IsCollected (nodes : List Node) (hs : List StateHead) (r : List Node) : Type 0 where
  pub ids : map node_id r ≡ map node_id nodes ++ map head_id hs
  pub distinct : DistinctIds (map node_id r)

mutual
  unfolding collect_states

  pub collect_states-IsCollected :
      (s : StateDefinition) (parent : Option ℕ) (path : Bytes) (nodes r : List Node)
      → DistinctIds (map node_id nodes)
      → collect_states parent path nodes s ≡ pass r
      → IsCollected nodes (document_order s) r
  collect_states-IsCollected (state h cs) parent path nodes r d e =
      let (a, ha, e1) =
        >>=-eq-pass (validate_plain_identifier h.id (below_path path (codes ".id"))) _ e in
      let (b, hb, e2) =
        >>=-eq-pass (reject (is_some (node_of nodes h.id)) (below_path path (codes ".id"))) _ e1 in
      let new = reject-eq-pass (is_some (node_of nodes h.id)) (below_path path (codes ".id")) hb in
      let node : Node = record {
        head = h;
        children = child_ids cs;
        parent = parent;
        path = path;
      } in
      let snoc : map node_id (nodes ++ (node ∷ [])) ≡ map node_id nodes ++ (h.id ∷ []) =
        map-append node_id nodes (node ∷ []) in
      let more : DistinctIds (map node_id (nodes ++ (node ∷ []))) = subst DistinctIds (sym snoc) (
        Pairwise-snoc (λ x y. bytes_eq x y ≡ false) (map node_id nodes) h.id d
          (node_of-absent nodes h.id new)) in
      let below =
        collect_children-IsCollected cs (length nodes) path 0 (nodes ++ (node ∷ [])) r more e2 in
      record {
        ids =
            below.ids
            ∙ ap (λ z. z ++ map head_id (document_orders cs)) snoc
            ∙ append_assoc (map node_id nodes) (h.id ∷ []) (map head_id (document_orders cs));
        distinct = below.distinct;
      }

  collect_children-IsCollected :
      (ss : StateDefinitions) (parent : ℕ) (path : Bytes) (k : ℕ) (nodes r : List Node)
      → DistinctIds (map node_id nodes)
      → collect_children parent path k nodes ss ≡ pass r
      → IsCollected nodes (document_orders ss) r
  collect_children-IsCollected no_states parent path k nodes r d e =
      subst (IsCollected nodes []) (pass_inj e)
        (record { ids = sym (append-nil (map node_id nodes)); distinct = d })
  collect_children-IsCollected (and_state s ss) parent path k nodes r d e =
      let (a, ha, e1) =
        >>=-eq-pass
          (collect_states (some parent) (indexed (below_path path (codes ".children")) k) nodes s) _
          e in
      let first =
        collect_states-IsCollected s (some parent) (indexed (below_path path (codes ".children")) k)
          nodes a d ha in
      let rest = collect_children-IsCollected ss parent path (suc k) a r first.distinct e1 in
      record {
        ids =
            rest.ids
            ∙ ap (λ z. z ++ map head_id (document_orders ss)) first.ids
            ∙ append_assoc (map node_id nodes) (map head_id (document_order s))
                (map head_id (document_orders ss))
            ∙ ap (λ z. map node_id nodes ++ z)
                (sym (map-append head_id (document_order s) (document_orders ss)));
        distinct = rest.distinct;
      }
