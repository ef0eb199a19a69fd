-- ===== src/Interpreter/Configuration/Entering.antt =====
-- What entering a state and its invocations do to the configuration.
use statecharts.Base.{
  ◌||◌, List, [], ◌∷◌, Option, none, some, ◌≡◌, refl, sym, ap, ◌∙◌, arith, inl, inr, Bool-cases,
  Option-cases, ◌==◌, is_empty,
}
use statecharts.Base.Sets.{elem, insert, elem-insert}
use statecharts.Chart.{Chart, StateRef, Blocks, state_at, root}
use statecharts.Chart.Tree.{is_final}
use statecharts.Session.{Host, Result-cases}
use statecharts.Interpreter.{Interpretation, RunningInvoke, exec_context}
use statecharts.Interpreter.Model.{evaluate_payload}
use statecharts.Interpreter.Targets.{defaults_of}
use statecharts.Interpreter.Invoke.{cancel_each, cancel_invokes, running_of}
use statecharts.Interpreter.Enter.{
  evaluate_state_done, complete, notify_grandparent, notify_parent, finish_state, initialize_state,
  mark_invokes, activate, enter_state,
}
use statecharts.Interpreter.Step.{enter_each}
use statecharts.Interpreter.Frame.{Frame, Frame-refl, Frame-if}
use statecharts.Interpreter.Frame.Send.{enqueue_internal-Frame, report_error-Frame}
use statecharts.Interpreter.Frame.Model.{evaluate_payload-Frame}
use statecharts.Interpreter.Frame.Execute.{run_action_blocks-Frame, initialize_data-Frame}

-- A frame keeps the configuration.
pub configuration_of_Frame :
    {S : Type 0} {ip jp : Interpretation S} → Frame ip jp → jp.configuration ≡ ip.configuration
configuration_of_Frame f = sym (ap (λ x. x.configuration) f.same)

cancel_each-configuration :
    {S : Type 0} (ris : List RunningInvoke) (ip : Interpretation S)
    → (cancel_each ris ip).configuration ≡ ip.configuration
unfolding cancel_each
cancel_each-configuration [] ip = refl
cancel_each-configuration (ri ∷ ris) ip = cancel_each-configuration ris _

pub cancel_invokes-configuration :
    {S : Type 0} (s : StateRef) (ip : Interpretation S)
    → (cancel_invokes s ip).configuration ≡ ip.configuration
unfolding cancel_invokes
cancel_invokes-configuration s ip = elim (Bool-cases (is_empty (running_of s ip.active_invokes))) [
  | inl e ↦ rw (e, cancel_invokes)
  | inr e ↦ rw (e, cancel_invokes) (cancel_each-configuration (running_of s ip.active_invokes) ip)
]

module _ (c : Chart) {S : Type 0} (host : Host S) where
  pub evaluate_state_done-Frame :
      {ip jp : Interpretation S} (s : StateRef)
      → Frame ip jp
      → Frame ip (evaluate_state_done c host s jp).0
  unfolding evaluate_state_done
  evaluate_state_done-Frame {ip} {jp} s f =
      let ec = exec_context host c jp in
      let g = evaluate_payload-Frame host ec (state_at c s).done_payload f in
      elim (Result-cases (evaluate_payload host ec (state_at c s).done_payload jp).1) [
        | inl (v, q) ↦ rw (q, evaluate_state_done) g
        | inr (e, q) ↦ rw (q, evaluate_state_done) (report_error-Frame host e g)
      ]

  complete-configuration :
      (s : StateRef) (ip : Interpretation S)
      → (complete c host s ip).configuration ≡ ip.configuration
  unfolding complete
  complete-configuration s ip = elim (Option-cases (state_at c s).done_payload) [
    | inl q ↦ rw (q, complete)
    | inr (p, q) ↦
        rw (q, complete) (configuration_of_Frame (evaluate_state_done-Frame s (Frame-refl ip)))
  ]

  notify_grandparent-Frame :
      {ip jp : Interpretation S} (g : Option StateRef)
      → Frame ip jp
      → Frame ip (notify_grandparent c host g jp)
  unfolding notify_grandparent
  notify_grandparent-Frame none f = f
  notify_grandparent-Frame (some g) f = Frame-if _ (enqueue_internal-Frame _ f) f

  pub notify_parent-Frame :
      {ip jp : Interpretation S} (s p : StateRef)
      → Frame ip jp
      → Frame ip (notify_parent c host s p jp)
  unfolding notify_parent
  notify_parent-Frame s p f =
      notify_grandparent-Frame (state_at c p).parent
        (enqueue_internal-Frame _ (evaluate_state_done-Frame s f))

  finish_state-configuration :
      (s : StateRef) (ip : Interpretation S)
      → (finish_state c host s ip).configuration ≡ ip.configuration
  unfolding finish_state
  finish_state-configuration s ip = elim (Bool-cases (is_final (state_at c s).kind)) [
    | inr q ↦ rw (q, finish_state)
    | inl q ↦ elim (Option-cases (state_at c s).parent) [
      | inl r ↦ rw (q, finish_state) (rw (r, finish_state) (complete-configuration s ip))
      | inr (p, r) ↦ elim (Bool-cases (p == root)) [
        | inl t ↦
            rw (q, finish_state)
              (rw (r, finish_state) (rw (t, finish_state) (complete-configuration s ip)))
        | inr t ↦
            rw (q, finish_state)
              (rw (r, finish_state)
                (rw (t, finish_state)
                  (configuration_of_Frame (notify_parent-Frame s p (Frame-refl ip)))))
      ]
    ]
  ]

  initialize_state-configuration :
      (s : StateRef) (ip : Interpretation S)
      → (initialize_state c host s ip).configuration ≡ ip.configuration
  unfolding initialize_state
  initialize_state-configuration s ip =
      elim (Bool-cases (is_empty (state_at c s).items || elem s ip.initialized_data)) [
        | inl q ↦ rw (q, initialize_state)
        | inr q ↦
            rw (q, initialize_state)
              (configuration_of_Frame
                (initialize_data-Frame host c (state_at c s).items (Frame-refl ip)))
      ]

  mark_invokes-configuration :
      (s : StateRef) (ip : Interpretation S)
      → (mark_invokes c host s ip).configuration ≡ ip.configuration
  unfolding mark_invokes
  mark_invokes-configuration s ip = elim (Bool-cases (is_empty (state_at c s).invokes)) [
    | inl q ↦ rw (q, mark_invokes)
    | inr q ↦ rw (q, mark_invokes)
  ]

  activate-configuration :
      (s : StateRef) (ip : Interpretation S)
      → (activate c host s ip).configuration ≡ insert s ip.configuration
  unfolding activate
  activate-configuration s ip = refl

  enter_state-configuration :
      (s : StateRef) (defaults : Blocks) (ip : Interpretation S)
      → (enter_state c host s defaults ip).configuration ≡ insert s ip.configuration
  unfolding enter_state
  enter_state-configuration s defaults ip =
      let ready = initialize_state c host s (activate c host s ip) in
      finish_state-configuration s _
      ∙ mark_invokes-configuration s _
      ∙ configuration_of_Frame (
          run_action_blocks-Frame host c defaults
            (run_action_blocks-Frame host c (state_at c s).on_entry (Frame-refl ready)))
      ∙ initialize_state-configuration s _
      ∙ activate-configuration s ip

  pub enter_each-configuration :
      (defaults : List (StateRef × Blocks)) (ss : List StateRef) (ip : Interpretation S)
      (a : StateRef)
      → elem a (enter_each c host defaults ss ip).configuration
        ≡ (elem a ss || elem a ip.configuration)
  unfolding enter_each
  enter_each-configuration defaults [] ip a = refl
  enter_each-configuration defaults (s ∷ ss) ip a =
      let ip' = enter_state c host s (defaults_of s defaults) ip in
      enter_each-configuration defaults ss ip' a
      ∙ ap (λ l. elem a ss || elem a l) (enter_state-configuration s (defaults_of s defaults) ip)
      ∙ ground (arith, elem-insert a s ip.configuration)
