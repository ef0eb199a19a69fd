-- ===== src/Interpreter/Exit/History.antt =====
-- What a history state remembers once its parent has been left.
use statecharts.Base.{
  true, List, [], ◌∷◌, some, ◌≡◌, refl, sym, ◌∙◌, ap, arith, inl, inr, Bool-cases, ◌==◌, ==_iff,
  if◌then◌else◌, fold_left, is_empty, subst,
}
use statecharts.Base.Sets.{elem, sort_asc, sort_desc, elem-sort_desc}
use statecharts.Base.Maps.{get, get-put}
use statecharts.Chart.{Chart, StateRef, state_at}
use statecharts.Chart.Tree.{is_history}
use statecharts.Session.{Host}
use statecharts.Interpreter.{Interpretation, RunningInvoke}
use statecharts.Interpreter.Targets.{HistoryValue}
use statecharts.Interpreter.Invoke.{cancel_each, cancel_invokes, running_of}
use statecharts.Interpreter.Exit.{
  recorded_set, record_child, record_state, record_history, exit_state, exit_each, exit_states,
}
use statecharts.Interpreter.Frame.{Frame, Frame-refl}
use statecharts.Interpreter.Frame.Execute.{run_action_blocks-Frame}

module _ (c : Chart) (configuration : List StateRef) (h : StateRef) where
  -- What leaving `s` makes its history child `h` remember.
  abbrev remembered : StateRef → List StateRef
  remembered s = sort_asc (recorded_set c (state_at c h).history_kind s configuration)

  record_child-get :
      (s child : StateRef) (recorded : HistoryValue)
      → is_history (state_at c h).kind ≡ true
      → get h (record_child c configuration s recorded child)
        ≡ (if h == child then some (remembered s) else get h recorded)
  unfolding record_child
  record_child-get s child recorded hist = elim (Bool-cases (h == child)) [
    | inl q ↦
        subst
          (λ d.
            get h (record_child c configuration s recorded d)
            ≡ (if h == d then some (remembered s) else get h recorded))
          ((==_iff h child).0 q) (rw (hist, record_child) (get-put h h (remembered s) recorded))
    | inr q ↦ elim (Bool-cases (is_history (state_at c child).kind)) [
      | inl r ↦ rw (r, record_child) (get-put child h _ recorded ∙ rw q refl)
      | inr r ↦ rw (r, record_child) (rw q refl)
    ]
  ]

  record_children-get :
      (s : StateRef) (children : List StateRef) (recorded : HistoryValue)
      → is_history (state_at c h).kind ≡ true
      → get h (fold_left (record_child c configuration s) recorded children)
        ≡ (if elem h children then some (remembered s) else get h recorded)
  record_children-get s [] recorded hist = refl
  record_children-get s (child ∷ children) recorded hist = ground (
    arith,
    record_children-get s children (record_child c configuration s recorded child) hist,
    record_child-get s child recorded hist,
  )

  -- The history state `h` is a child of `p` and of no other state.
  abbrev pub IsHistoryOf : StateRef → Type 0
  IsHistoryOf p =
      (is_history (state_at c h).kind ≡ true)
      × ((s : StateRef) → elem h (state_at c s).children ≡ (p == s))

  record_history-get :
      (p : StateRef) (ordered : List StateRef) (recorded : HistoryValue)
      → IsHistoryOf p
      → get h (record_history c configuration ordered recorded)
        ≡ (if elem p ordered then some (remembered p) else get h recorded)
  unfolding record_history record_state
  record_history-get p [] recorded (hist, child) = refl
  record_history-get p (s ∷ ordered) recorded (hist, child) = ground (
    arith,
    record_history-get p ordered (record_state c configuration recorded s) (hist, child),
    record_children-get s (state_at c s).children recorded hist,
    child s,
    same s,
  )
    where
      same : (s : StateRef) → p ≡ s → remembered p ≡ remembered s
      same s e = ap remembered e

cancel_each-history :
    {S : Type 0} (ris : List RunningInvoke) (ip : Interpretation S)
    → (cancel_each ris ip).history_value ≡ ip.history_value
unfolding cancel_each
cancel_each-history [] ip = refl
cancel_each-history (ri ∷ ris) ip = cancel_each-history ris _

cancel_invokes-history :
    {S : Type 0} (s : StateRef) (ip : Interpretation S)
    → (cancel_invokes s ip).history_value ≡ ip.history_value
unfolding cancel_invokes
cancel_invokes-history s ip = elim (Bool-cases (is_empty (running_of s ip.active_invokes))) [
  | inl e ↦ rw (e, cancel_invokes)
  | inr e ↦ rw (e, cancel_invokes) (cancel_each-history (running_of s ip.active_invokes) ip)
]

history_of_Frame :
    {S : Type 0} {ip jp : Interpretation S} → Frame ip jp → jp.history_value ≡ ip.history_value
history_of_Frame f = sym (ap (λ x. x.history_value) f.same)

module _ (c : Chart) {S : Type 0} (host : Host S) where
  exit_each-history :
      (ss : List StateRef) (ip : Interpretation S)
      → (exit_each c host ss ip).history_value ≡ ip.history_value
  unfolding exit_each exit_state
  exit_each-history [] ip = refl
  exit_each-history (s ∷ ss) ip =
      exit_each-history ss (exit_state c host ip s)
      ∙ cancel_invokes-history s _
      ∙ history_of_Frame (run_action_blocks-Frame host c (state_at c s).on_exit (Frame-refl ip))

  -- Leaving states gives a history state whose parent is among them the active states that it
  -- remembers, as they were before any exit action ran: in document order, the active atomic
  -- descendants of the parent for a deep one, the active children of the parent for a shallow one.
  -- Any other history state keeps what it had. (It is a child of that parent and of no other state.)
  pub exit_states-history :
      (exits : List StateRef) (ip : Interpretation S) (h p : StateRef)
      → IsHistoryOf c ip.configuration h p
      → get h (exit_states c host exits ip).history_value ≡ (
          if elem p exits
          then some (sort_asc (recorded_set c (state_at c h).history_kind p ip.configuration))
          else get h ip.history_value)
  unfolding exit_states
  exit_states-history exits ip h p own =
      let recorded = record_history c ip.configuration (sort_desc exits) ip.history_value in
      ap (get h) (exit_each-history (sort_desc exits) (record ip { history_value = recorded }))
      ∙ record_history-get c ip.configuration h p (sort_desc exits) ip.history_value own
      ∙ ap
          (λ b.
            if b
            then some (sort_asc (recorded_set c (state_at c h).history_kind p ip.configuration))
            else get h ip.history_value)
          (elem-sort_desc exits p)
