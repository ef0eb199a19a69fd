-- ===== src/Compile/Layout.antt =====
-- compile.go: what the interpreter relies on in every compiled chart.
use statecharts.Base.{
  ℕ, zero, suc, ◌≤◌, ◌≡◌, sym, ap, subst, ◌∙◌, List, [], ◌∷◌, none, some, inl, inr, arith, length,
  get_elem?, map, Option-cases,
}
use statecharts.Base.Bytes.{codes}
use statecharts.Chart.{StateRef, State, Chart, state_at, root, Transition, empty_state}
use statecharts.Chart.Tree.{IsTree}
use statecharts.Definition.{Definition}
use statecharts.Definition.Checked.{pass, >>=-eq-pass, pass_inj}
use statecharts.Compile.Content.{Program, compile_data}
use statecharts.Compile.{compile_state, compile_chart}
use statecharts.Compile.Arena.{
  AllAt, AllAt-get_elem?, IsArena, ParentBefore, with_parent, with_parent_after,
}
use statecharts.Compile.Transitions.{compile_transitions-AllAt, compile_initial-source}
use statecharts.Compile.Wiring.{compile_state-IsArena, compile_state-AllAt, compile_state-heads}
use statecharts.Compile.Compiled.{document_order, outline, head_outline}

length_of_get_elem? : {A : Type 0} (xs : List A) (i : ℕ) → get_elem? xs i ≡ none → length xs ≤ i
length_of_get_elem? [] i e = omega arith
length_of_get_elem? (x ∷ xs) zero e = cc
length_of_get_elem? (x ∷ xs) (suc i) e = omega (arith, length_of_get_elem? xs i e)

module _ (p : Program) where
  compile_chart-order :
      (d : Definition) (c : Chart)
      → compile_chart p d ≡ pass c
      → compile_state p (codes "root") none root d.root ≡ pass c.order
  unfolding compile_chart
  compile_chart-order d c e =
      let (items, hi, e1) = >>=-eq-pass (compile_data p (codes "definition.data") 0 d.items) _ e in
      let (order, ho, e2) = >>=-eq-pass (compile_state p (codes "root") none root d.root) _ e1 in
      ho ∙ ap (λ y. pass y.order) (pass_inj e2)

  compile_chart-IsArena :
      (d : Definition) (c : Chart) → compile_chart p d ≡ pass c → IsArena none root c.order
  compile_chart-IsArena d c e =
      compile_state-IsArena p (codes "root") none root d.root c.order (λ i h. cc)
        (compile_chart-order d c e)

  -- A predicate of all the places of a chart, at one of them.
  state_at-AllAt :
      (c : Chart) (P : StateRef → State → Type 0) (s : StateRef)
      → AllAt P root c.order
      → ((i : StateRef) → P i empty_state)
      → P s (state_at c s)
  unfolding state_at
  state_at-AllAt c P s h nil = elim (Option-cases (get_elem? c.order s)) [
    | inl e ↦ rw e (nil s)
    | inr (x, e) ↦ rw e (subst (λ k. P k x) (omega arith) (AllAt-get_elem? P root c.order h s x e))
  ]

  -- In a compiled chart a parent precedes its children in document order.
  pub compile_chart-IsTree : (d : Definition) (c : Chart) → compile_chart p d ≡ pass c → IsTree c
  compile_chart-IsTree d c e = record {
    parent_lt =
        λ s. state_at-AllAt c ParentBefore s (compile_chart-IsArena d c e).before (λ i q h. cc);
  }

  -- In a compiled chart the children of a state are exactly the states whose parent it is, in
  -- document order.
  pub compile_chart-children :
      (d : Definition) (c : Chart) (s : StateRef)
      → compile_chart p d ≡ pass c
      → (state_at c s).children ≡ with_parent s root c.order
  unfolding state_at
  compile_chart-children d c s e =
      let a = compile_chart-IsArena d c e in
      elim (Option-cases (get_elem? c.order s)) [
        | inl out ↦ rw out (
            sym (
              with_parent_after s root c.order a.before
                (omega (arith, length_of_get_elem? c.order s out))))
        | inr (x, q) ↦ rw q (
            AllAt-get_elem? (λ i y. y.children ≡ with_parent i root c.order) root c.order a.wired s
              x q
            ∙ ap (λ k. with_parent k root c.order) (omega arith))
      ]

  -- Every transition of a compiled chart names the state that holds it and its place there.
  pub compile_chart-transitions :
      (d : Definition) (c : Chart) (s : StateRef) (i : ℕ) (t : Transition)
      → compile_chart p d ≡ pass c
      → get_elem? (state_at c s).transitions i ≡ some t
      → (t.source ≡ s) × (t.definition_index ≡ i)
  compile_chart-transitions d c s i t e =
      state_at-AllAt c
        (λ n x. get_elem? x.transitions i ≡ some t → (t.source ≡ n) × (t.definition_index ≡ i)) s
        (compile_state-AllAt p
          (λ n x. get_elem? x.transitions i ≡ some t → (t.source ≡ n) × (t.definition_index ≡ i))
          (λ path q n h x ns ok g.
            let r =
              AllAt-get_elem? (λ j u. (u.source ≡ n) × (u.definition_index ≡ j)) 0 x.transitions
                (compile_transitions-AllAt p path n 0 h.transitions x.transitions ok.transitions) i
                t g in
            (r.0, omega (arith, r.1)))
          (codes "root") none root d.root c.order (compile_chart-order d c e))
        (λ n g. cc)

  -- The default transition of a state of a compiled chart names that state.
  pub compile_chart-initial :
      (d : Definition) (c : Chart) (s : StateRef) (t : Transition)
      → compile_chart p d ≡ pass c
      → (state_at c s).initial ≡ some t
      → t.source ≡ s
  compile_chart-initial d c s t e =
      state_at-AllAt c (λ n x. x.initial ≡ some t → t.source ≡ n) s
        (compile_state-AllAt p (λ n x. x.initial ≡ some t → t.source ≡ n)
          (λ path q n h x ns ok g.
            compile_initial-source p path n h.initial t (ok.initial ∙ ap (λ o. pass o) g))
          (codes "root") none root d.root c.order (compile_chart-order d c e))
        (λ n g. cc)

  -- The states of a compiled chart are those of the definition, in document order: their number,
  -- their IDs, kinds and kinds of history, and the events, the targets and the types of their
  -- transitions and default transitions.
  pub compile_chart-document_order :
      (d : Definition) (c : Chart)
      → compile_chart p d ≡ pass c
      → map outline c.order ≡ map head_outline (document_order d.root)
  compile_chart-document_order d c e =
      compile_state-heads p (codes "root") none root d.root c.order (compile_chart-order d c e)
