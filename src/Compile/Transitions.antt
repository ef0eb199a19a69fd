-- ===== src/Compile/Transitions.antt =====
-- compile.go: compiled transitions.
use mathlib.Core.Option
use statecharts.Base.{
  ℕ, suc, ◌≡◌, refl, ap, sym, subst, ◌∙◌, Bool, List, [], ◌∷◌, Option, none, some, map,
}
use statecharts.Base.Bytes.{Bytes, codes}
use statecharts.Identifier.{Identifier}
use statecharts.Chart.{Transition}
use statecharts.Definition.{TransitionDefinition}
use statecharts.Definition.Checked.{pass, >>=-eq-pass, pass_inj, indexed, below_path}
use statecharts.Compile.Content.{Program, compile_blocks, resolve_optional}
use statecharts.Compile.{is_internal_type, compile_transition, compile_transitions, compile_initial}
use statecharts.Compile.Arena.{AllAt}

-- The events, the targets and the type.
abbrev pub TransitionOutline : Type 0
TransitionOutline = List Identifier × List Identifier × Bool

abbrev pub transition_outline : Transition → TransitionOutline
transition_outline t = (t.events, t.target, t.is_internal)

abbrev pub written_outline : TransitionDefinition → TransitionOutline
written_outline t = (t.events, t.targets, is_internal_type t.type)

module _ (p : Program) where
  record CompiledTransition (n i : ℕ) (t : TransitionDefinition) (x : Transition) : Type 0 where
    pub source : x.source ≡ n
    pub index : x.definition_index ≡ i
    pub outline : transition_outline x ≡ written_outline t

  compile_transition-CompiledTransition :
      (path : Bytes) (n i : ℕ) (t : TransitionDefinition) (x : Transition)
      → compile_transition p path n i t ≡ pass x
      → CompiledTransition n i t x
  unfolding compile_transition
  compile_transition-CompiledTransition path n i t x e =
      let (c, hc, e1) =
        >>=-eq-pass (resolve_optional p t.condition (below_path path (codes ".condition"))) _ e in
      let (a, ha, e2) =
        >>=-eq-pass (compile_blocks p (below_path path (codes ".actions")) 0 t.actions) _ e1 in
      subst (λ y. CompiledTransition n i t y) (pass_inj e2)
        (record { source = refl; index = refl; outline = refl })

  record CompiledTransitions (path : Bytes) (n i : ℕ) (t : TransitionDefinition)
      (ts : List TransitionDefinition) (xs : List Transition) : Type 0 where
    pub first : Transition
    pub rest : List Transition
    pub compiled : CompiledTransition n i t first
    pub others : compile_transitions p path n (suc i) ts ≡ pass rest
    pub is_xs : first ∷ rest ≡ xs

  compile_transitions-CompiledTransitions :
      (path : Bytes) (n i : ℕ) (t : TransitionDefinition) (ts : List TransitionDefinition)
      (xs : List Transition)
      → compile_transitions p path n i (t ∷ ts) ≡ pass xs
      → CompiledTransitions path n i t ts xs
  unfolding compile_transitions
  compile_transitions-CompiledTransitions path n i t ts xs e =
      let place = indexed (below_path path (codes ".transitions")) i in
      let (x, hx, e1) = >>=-eq-pass (compile_transition p place n i t) _ e in
      let (rest, hr, e2) = >>=-eq-pass (compile_transitions p path n (suc i) ts) _ e1 in
      record {
        first = x;
        rest = rest;
        compiled = compile_transition-CompiledTransition place n i t x hx;
        others = hr;
        is_xs = pass_inj e2;
      }

  compile_transitions-nil :
      (path : Bytes) (n i : ℕ) (xs : List Transition)
      → compile_transitions p path n i [] ≡ pass xs
      → [] ≡ xs
  unfolding compile_transitions
  compile_transitions-nil path n i xs e = pass_inj e

  pub compile_transitions-AllAt :
      (path : Bytes) (n i : ℕ) (ts : List TransitionDefinition) (xs : List Transition)
      → compile_transitions p path n i ts ≡ pass xs
      → AllAt (λ j u. (u.source ≡ n) × (u.definition_index ≡ j)) i xs
  compile_transitions-AllAt path n i [] xs e =
      subst (λ ys. AllAt (λ j u. (u.source ≡ n) × (u.definition_index ≡ j)) i ys)
        (compile_transitions-nil path n i xs e) tt
  compile_transitions-AllAt path n i (t ∷ ts) xs e =
      let c = compile_transitions-CompiledTransitions path n i t ts xs e in
      subst (λ ys. AllAt (λ j u. (u.source ≡ n) × (u.definition_index ≡ j)) i ys) c.is_xs
        (
          (c.compiled.source, c.compiled.index),
          compile_transitions-AllAt path n (suc i) ts c.rest c.others,
        )

  pub compile_transitions-outline :
      (path : Bytes) (n i : ℕ) (ts : List TransitionDefinition) (xs : List Transition)
      → compile_transitions p path n i ts ≡ pass xs
      → map transition_outline xs ≡ map written_outline ts
  compile_transitions-outline path n i [] xs e =
      ap (map transition_outline) (sym (compile_transitions-nil path n i xs e))
  compile_transitions-outline path n i (t ∷ ts) xs e =
      let c = compile_transitions-CompiledTransitions path n i t ts xs e in
      ap (map transition_outline) (sym c.is_xs)
      ∙ rw (c.compiled.outline, compile_transitions-outline path n (suc i) ts c.rest c.others) refl

  compile_initial-CompiledTransition :
      (path : Bytes) (n : ℕ) (t : TransitionDefinition) (x : Transition)
      → compile_initial p path n (some t) ≡ pass (some x)
      → CompiledTransition n 0 t x
  unfolding compile_initial
  compile_initial-CompiledTransition path n t x e =
      let (y, hy, e1) =
        >>=-eq-pass (compile_transition p (below_path path (codes ".initial")) n 0 t) _ e in
      let same : y ≡ x = some_inj (pass_inj e1) in
      subst (λ z. CompiledTransition n 0 t z) same
        (compile_transition-CompiledTransition (below_path path (codes ".initial")) n 0 t y hy)
    where
      some_inj : {a b : Transition} → some a ≡ some b → a ≡ b
      some_inj h = cc

  pub compile_initial-source :
      (path : Bytes) (n : ℕ) (o : Option TransitionDefinition) (x : Transition)
      → compile_initial p path n o ≡ pass (some x)
      → x.source ≡ n
  unfolding compile_initial
  compile_initial-source path n none x e = cc (pass_inj e)
  compile_initial-source path n (some t) x e =
      (compile_initial-CompiledTransition path n t x e).source

  pub compile_initial-outline :
      (path : Bytes) (n : ℕ) (o : Option TransitionDefinition) (x : Option Transition)
      → compile_initial p path n o ≡ pass x
      → Option.map transition_outline x ≡ Option.map written_outline o
  unfolding compile_initial
  compile_initial-outline path n none x e = ap (Option.map transition_outline) (sym (pass_inj e))
  compile_initial-outline path n (some t) (some x) e =
      ap (λ z. some z) (compile_initial-CompiledTransition path n t x e).outline
  compile_initial-outline path n (some t) none e =
      let (y, hy, e1) =
        >>=-eq-pass (compile_transition p (below_path path (codes ".initial")) n 0 t) _ e in
      cc (pass_inj e1)
