-- ===== src/Compile/Compiled.antt =====
-- compile.go: what the calls of `compileDefinitionState` that succeed have computed.
use statecharts.Base.{
  ℕ, suc, ◌+◌, ◌≡◌, refl, ap, subst, List, [], ◌∷◌, ◌++◌, Option, some, length, map,
}
use statecharts.Base.Bytes.{Bytes, codes}
use statecharts.Identifier.{Identifier}
use statecharts.Chart.{StateKind, HistoryKind, StateRef, State}
use statecharts.Definition.{
  StateHead, StateDefinition, state, StateDefinitions, no_states, and_state,
}
use statecharts.Definition.Checked.{pass, >>=-eq-pass, pass_inj, indexed, below_path}
use statecharts.Compile.Content.{Program, compile_blocks, compile_data}
use statecharts.Compile.{
  compile_done, compile_initial, compile_transitions, compile_invokes, compile_head, compile_state,
  compile_children,
}
use mathlib.Core.Option
use statecharts.Compile.Transitions.{TransitionOutline, transition_outline, written_outline}

pub some_inj : {a b : StateRef} → some a ≡ some b → a ≡ b
some_inj h = cc

-- The states of a definition, each before its children.
abbrev mutual
  pub document_order : StateDefinition → List StateHead
  document_order (state h cs) = h ∷ document_orders cs

  pub document_orders : StateDefinitions → List StateHead
  document_orders no_states = []
  document_orders (and_state s ss) = document_order s ++ document_orders ss

-- What an author wrote of a state, besides its content.
abbrev pub outline :
    State → Identifier × StateKind × HistoryKind × Option TransitionOutline × List TransitionOutline
outline x = (
  x.id,
  x.kind,
  x.history_kind,
  Option.map transition_outline x.initial,
  map transition_outline x.transitions,
)

abbrev pub head_outline :
    StateHead
    → Identifier × StateKind × HistoryKind × Option TransitionOutline × List TransitionOutline
head_outline h = (
  h.id,
  h.kind,
  h.history,
  Option.map written_outline h.initial,
  map written_outline h.transitions,
)

module _ (p : Program) where
  -- What the steps of `compile_head` have computed.
  pub record CompiledHead (path : Bytes) (q : Option StateRef) (n : StateRef) (h : StateHead)
      (x : State) : Type 0 where
    pub id : x.id ≡ h.id
    pub kind : x.kind ≡ h.kind
    pub history_kind : x.history_kind ≡ h.history
    pub parent : x.parent ≡ q
    pub initial : compile_initial p path n h.initial ≡ pass x.initial
    pub transitions : compile_transitions p path n 0 h.transitions ≡ pass x.transitions

  compile_head-CompiledHead :
      (path : Bytes) (q : Option StateRef) (n : StateRef) (h : StateHead) (x : State)
      → compile_head p path q n h ≡ pass x
      → CompiledHead path q n h x
  unfolding compile_head
  compile_head-CompiledHead path q n h x e =
      let (a, ha, e1) =
        >>=-eq-pass (compile_blocks p (below_path path (codes ".onEntry")) 0 h.on_entry) _ e in
      let (b, hb, e2) =
        >>=-eq-pass (compile_blocks p (below_path path (codes ".onExit")) 0 h.on_exit) _ e1 in
      let (c, hc, e3) =
        >>=-eq-pass (compile_data p (below_path path (codes ".data")) 0 h.items) _ e2 in
      let (d, hd, e4) = >>=-eq-pass (compile_done p path h.done_data) _ e3 in
      let (i, hi, e5) = >>=-eq-pass (compile_initial p path n h.initial) _ e4 in
      let (t, ht, e6) = >>=-eq-pass (compile_transitions p path n 0 h.transitions) _ e5 in
      let (v, hv, e7) = >>=-eq-pass (compile_invokes p path 0 h.invokes) _ e6 in
      subst (λ y. CompiledHead path q n h y) (pass_inj e7)
        (record {
          id = refl;
          kind = refl;
          history_kind = refl;
          parent = refl;
          initial = hi;
          transitions = ht;
        })

  -- A subtree that compiles: its first state, and its children's.
  pub record CompiledState (path : Bytes) (q : Option StateRef) (n : StateRef) (h : StateHead)
      (cs : StateDefinitions) (xs : List State) : Type 0 where
    pub first : State
    pub below : List State
    pub places : List StateRef
    pub compiled : CompiledHead path q n h first
    pub children : compile_children p path n (suc n) 0 cs ≡ pass (below, places)
    pub is_xs : record first { children = places } ∷ below ≡ xs

  pub compile_state-CompiledState :
      (path : Bytes) (q : Option StateRef) (n : StateRef) (h : StateHead) (cs : StateDefinitions)
      (xs : List State)
      → compile_state p path q n (state h cs) ≡ pass xs
      → CompiledState path q n h cs xs
  unfolding compile_state
  compile_state-CompiledState path q n h cs xs e =
      let (x, hx, e1) = >>=-eq-pass (compile_head p path q n h) _ e in
      let (bs, hb, e2) = >>=-eq-pass (compile_children p path n (suc n) 0 cs) _ e1 in
      record {
        first = x;
        below = bs.0;
        places = bs.1;
        compiled = compile_head-CompiledHead path q n h x hx;
        children = hb;
        is_xs = pass_inj e2;
      }

  -- A list of children that compiles: the first child's states, and the others'.
  pub record CompiledChildren (path : Bytes) (q n : StateRef) (k : ℕ) (s : StateDefinition)
      (ss : StateDefinitions) (xs : List State) (ns : List StateRef) : Type 0 where
    pub first : List State
    pub rest : List State
    pub places : List StateRef
    pub child :
        compile_state p (indexed (below_path path (codes ".children")) k) (some q) n s ≡ pass first
    pub others : compile_children p path q (n + length first) (suc k) ss ≡ pass (rest, places)
    pub is_xs : first ++ rest ≡ xs
    pub is_ns : n ∷ places ≡ ns

  pub compile_children-CompiledChildren :
      (path : Bytes) (q n : StateRef) (k : ℕ) (s : StateDefinition) (ss : StateDefinitions)
      (xs : List State) (ns : List StateRef)
      → compile_children p path q n k (and_state s ss) ≡ pass (xs, ns)
      → CompiledChildren path q n k s ss xs ns
  unfolding compile_children
  compile_children-CompiledChildren path q n k s ss xs ns e =
      let (x, hx, e1) =
        >>=-eq-pass (compile_state p (indexed (below_path path (codes ".children")) k) (some q) n s)
          _ e in
      let (bs, hb, e2) = >>=-eq-pass (compile_children p path q (n + length x) (suc k) ss) _ e1 in
      record {
        first = x;
        rest = bs.0;
        places = bs.1;
        child = hx;
        others = hb;
        is_xs = ap (λ z. z.0) (pass_inj e2);
        is_ns = ap (λ z. z.1) (pass_inj e2);
      }

  pub compile_children-nil :
      (path : Bytes) (q n : StateRef) (k : ℕ) (xs : List State) (ns : List StateRef)
      → compile_children p path q n k no_states ≡ pass (xs, ns)
      → ([] ≡ xs) × ([] ≡ ns)
  unfolding compile_children
  compile_children-nil path q n k xs ns e = (ap (λ z. z.0) (pass_inj e), ap (λ z. z.1) (pass_inj e))
