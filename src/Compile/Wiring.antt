-- ===== src/Compile/Wiring.antt =====
-- compile.go: the compiled chart is the definition's tree, laid out in document order.
use statecharts.Base.{
  ℕ, suc, ◌+◌, ◌<◌, ◌≡◌, refl, sym, subst, ◌∙◌, List, [], ◌++◌, Option, some, arith, length, map,
  map-append,
}
use statecharts.Base.Bytes.{Bytes, codes}
use statecharts.Chart.{StateRef, State}
use statecharts.Definition.{
  StateHead, StateDefinition, state, StateDefinitions, no_states, and_state,
}
use statecharts.Definition.Checked.{pass, indexed, below_path}
use statecharts.Compile.Content.{Program}
use statecharts.Compile.{compile_state, compile_children}
use statecharts.Compile.Transitions.{compile_initial-outline, compile_transitions-outline}
use statecharts.Compile.Arena.{
  AllAt, AllAt-append, IsArena, IsForest, no_states-IsForest, and_state-IsForest, state-IsArena,
}
use statecharts.Compile.Compiled.{
  some_inj, document_order, document_orders, outline, head_outline, CompiledHead,
  compile_state-CompiledState, compile_children-CompiledChildren, compile_children-nil,
}

module _ (p : Program) where
  mutual
    pub compile_state-IsArena :
        (path : Bytes) (q : Option StateRef) (n : StateRef) (s : StateDefinition) (xs : List State)
        → ((i : StateRef) → q ≡ some i → i < n)
        → compile_state p path q n s ≡ pass xs
        → IsArena q n xs
    compile_state-IsArena path q n (state h cs) xs lt e =
        let c = compile_state-CompiledState p path q n h cs xs e in
        subst (λ ys. IsArena q n ys) c.is_xs
          (state-IsArena q n (record c.first { children = c.places }) c.below c.compiled.parent lt
            (compile_children-IsForest path n (suc n) 0 cs c.below c.places (omega arith)
              c.children))

    pub compile_children-IsForest :
        (path : Bytes) (q n : StateRef) (k : ℕ) (ss : StateDefinitions) (xs : List State)
        (ns : List StateRef)
        → q < n
        → compile_children p path q n k ss ≡ pass (xs, ns)
        → IsForest q n xs ns
    compile_children-IsForest path q n k no_states xs ns lt e =
        let (a, b) = compile_children-nil p path q n k xs ns e in
        subst (λ z. IsForest q n z ns) a (subst (λ z. IsForest q n [] z) b (no_states-IsForest q n))
    compile_children-IsForest path q n k (and_state s ss) xs ns lt e =
        let c = compile_children-CompiledChildren p path q n k s ss xs ns e in
        let a =
          compile_state-IsArena (indexed (below_path path (codes ".children")) k) (some q) n s
            c.first (λ i h. omega (arith, lt, some_inj h)) c.child in
        let f =
          compile_children-IsForest path q (n + length c.first) (suc k) ss c.rest c.places
            (omega (arith, lt)) c.others in
        subst (λ z. IsForest q n z ns) c.is_xs
          (subst (λ z. IsForest q n (c.first ++ c.rest) z) c.is_ns
            (and_state-IsForest q n c.first c.rest c.places lt a f))

  -- What the place and the compiled head imply holds of every compiled state.
  mutual
    pub compile_state-AllAt :
        (P : StateRef → State → Type 0)
        → ((path : Bytes) (q : Option StateRef) (n : StateRef) (h : StateHead) (x : State)
              (ns : List StateRef)
            → CompiledHead p path q n h x
            → P n (record x { children = ns }))
        → (path : Bytes) (q : Option StateRef) (n : StateRef) (s : StateDefinition)
          (xs : List State)
        → compile_state p path q n s ≡ pass xs
        → AllAt P n xs
    compile_state-AllAt P f path q n (state h cs) xs e =
        let c = compile_state-CompiledState p path q n h cs xs e in
        subst (λ ys. AllAt P n ys) c.is_xs
          (
            f path q n h c.first c.places c.compiled,
            compile_children-AllAt P f path n (suc n) 0 cs c.below c.places c.children,
          )

    compile_children-AllAt :
        (P : StateRef → State → Type 0)
        → ((path : Bytes) (q : Option StateRef) (n : StateRef) (h : StateHead) (x : State)
              (ns : List StateRef)
            → CompiledHead p path q n h x
            → P n (record x { children = ns }))
        → (path : Bytes) (q n : StateRef) (k : ℕ) (ss : StateDefinitions) (xs : List State)
          (ns : List StateRef)
        → compile_children p path q n k ss ≡ pass (xs, ns)
        → AllAt P n xs
    compile_children-AllAt P f path q n k no_states xs ns e =
        let (a, b) = compile_children-nil p path q n k xs ns e in subst (λ z. AllAt P n z) a tt
    compile_children-AllAt P f path q n k (and_state s ss) xs ns e =
        let c = compile_children-CompiledChildren p path q n k s ss xs ns e in
        let first =
          compile_state-AllAt P f (indexed (below_path path (codes ".children")) k) (some q) n s
            c.first c.child in
        let rest =
          compile_children-AllAt P f path q (n + length c.first) (suc k) ss c.rest c.places
            c.others in
        subst (λ z. AllAt P n z) c.is_xs (AllAt-append P n c.first c.rest first rest)

  -- The states are the definition's, in document order.
  mutual
    pub compile_state-heads :
        (path : Bytes) (q : Option StateRef) (n : StateRef) (s : StateDefinition) (xs : List State)
        → compile_state p path q n s ≡ pass xs
        → map outline xs ≡ map head_outline (document_order s)
    compile_state-heads path q n (state h cs) xs e =
        let c = compile_state-CompiledState p path q n h cs xs e in
        subst (λ ys. map outline ys ≡ map head_outline (document_order (state h cs))) c.is_xs
          (rw
            (
              compile_children-heads path n (suc n) 0 cs c.below c.places c.children,
              c.compiled.id,
              c.compiled.kind,
              c.compiled.history_kind,
              compile_initial-outline p path n h.initial c.first.initial c.compiled.initial,
              compile_transitions-outline p path n 0 h.transitions c.first.transitions
                  c.compiled.transitions,
            )
            refl)

    compile_children-heads :
        (path : Bytes) (q n : StateRef) (k : ℕ) (ss : StateDefinitions) (xs : List State)
        (ns : List StateRef)
        → compile_children p path q n k ss ≡ pass (xs, ns)
        → map outline xs ≡ map head_outline (document_orders ss)
    compile_children-heads path q n k no_states xs ns e =
        let (a, b) = compile_children-nil p path q n k xs ns e in
        subst (λ z. map outline z ≡ []) a refl
    compile_children-heads path q n k (and_state s ss) xs ns e =
        let c = compile_children-CompiledChildren p path q n k s ss xs ns e in
        let first =
          compile_state-heads (indexed (below_path path (codes ".children")) k) (some q) n s c.first
            c.child in
        let rest =
          compile_children-heads path q (n + length c.first) (suc k) ss c.rest c.places c.others in
        subst (λ z. map outline z ≡ map head_outline (document_order s ++ document_orders ss))
          c.is_xs
          (map-append outline c.first c.rest
            ∙ rw (first, rest)
                (sym (map-append head_outline (document_order s) (document_orders ss))))
