-- ===== src/Interpreter/Step/Invocations.antt =====
-- Starting invocations, and what an external event does to them, keeps the external queue.
use statecharts.Base.{
  ℕ, suc, [], Option, none, some, ◌≡◌, refl, inl, inr, Bool-cases, Option-cases, is_empty,
  fold_left_inv, fold_left, not, ◌&&◌, ◌⊎◌,
}
use statecharts.Base.Bytes.{codes, bytes_eq, sort_bytes}
use statecharts.Base.Sets.{sort_asc}
use statecharts.Base.Maps.{get_id}
use statecharts.Identifier.{Identifier}
use statecharts.Event.{Event, Error}
use statecharts.Chart.{Chart, StateRef, InvokeSpec, state_at}
use statecharts.Session.{
  Host, Result, ok, err, InvokeRequest, failed, started, InvokeStart, ExecContext, Result-cases,
}
use statecharts.Value.{string_or_null}
use statecharts.Interpreter.{Interpretation, RunningInvoke}
use statecharts.Interpreter.Model.{assign_model}
use statecharts.Interpreter.Invoke.{
  keys, choose_invoke_id, or_report, assign_id, evaluate_invoke_request, report_start, register,
  start_requested, begin_invoke, process_invokes, forward_to, side_effects_of,
  apply_invoke_side_effects, forward_one, finalize_one,
}
use statecharts.Interpreter.Frame.{Frame-refl}
use statecharts.Interpreter.Frame.Send.{
  report_error-Frame, report_comm_error-Frame, enqueue_internal-Frame,
}
use statecharts.Interpreter.Frame.Model.{
  assign_model-Frame, eval_string-Frame, evaluate_payload-Frame,
}
use statecharts.Interpreter.Frame.Execute.{run_finalize_blocks-Frame}
use statecharts.Interpreter.Step.Queue.{Queued, Queued-Frame, Queued-if}

InvokeStart-cases :
    (r : InvokeStart) → ((e : Error) × (r ≡ failed e)) ⊎ ((o : Option ℕ) × (r ≡ started o))
InvokeStart-cases (failed e) = inl (e, refl)
InvokeStart-cases (started o) = inr (o, refl)

module _ (c : Chart) {S : Type 0} (host : Host S) {ip : Interpretation S} where
  or_report-Queued :
      {A B : Type 0} (r : Interpretation S × Result A)
      (k : A → Interpretation S → Interpretation S × Option B)
      → Queued ip r.0
      → ((a : A) (jp : Interpretation S) → Queued ip jp → Queued ip (k a jp).0)
      → Queued ip (or_report c host r k).0
  unfolding or_report
  or_report-Queued (jp, err e) k f step = Queued-Frame f (report_error-Frame host e (Frame-refl jp))
  or_report-Queued (jp, ok a) k f step = step a jp f

  choose_invoke_id-Queued :
      (s : StateRef) (spec : InvokeSpec) {jp : Interpretation S}
      → Queued ip jp
      → Queued ip (choose_invoke_id c s spec jp).0
  unfolding choose_invoke_id
  choose_invoke_id-Queued s spec f = elim (Bool-cases (bytes_eq spec.id (codes ""))) [
    | inl q ↦ rw q (record { kept = f.kept })
    | inr q ↦ rw q f
  ]

  report_start-Queued :
      (id : Identifier) (e : Error) {jp : Interpretation S}
      → Queued ip jp
      → Queued ip (report_start c host id e jp)
  unfolding report_start
  report_start-Queued id e {jp} f =
      Queued-if e.is_handler_unavailable
        (Queued-Frame f (report_error-Frame host e (Frame-refl jp)))
        (Queued-Frame f (enqueue_internal-Frame _ (Frame-refl jp)))

  start_requested-Queued :
      (s : StateRef) (spec : InvokeSpec) (id : Identifier)
      (r : Interpretation S × Option InvokeRequest)
      → Queued ip r.0
      → Queued ip (start_requested c host s spec id r)
  unfolding start_requested register
  start_requested-Queued s spec id (jp, none) f = f
  start_requested-Queued s spec id (jp, some request) f =
      elim (InvokeStart-cases (host.start_invoke request spec)) [
        | inl (e, q) ↦ rw (q, start_requested) (report_start-Queued id e f)
        | inr (incoming, q) ↦ rw (q, start_requested) (record { kept = f.kept })
      ]

  assign_id-Queued :
      (spec : InvokeSpec) (id : Identifier) (ec : ExecContext) {jp : Interpretation S}
      → Queued ip jp
      → Queued ip (assign_id c host spec id ec jp).0
  unfolding assign_id
  assign_id-Queued spec id ec {jp} f = elim (Option-cases spec.id_location) [
    | inl q ↦ rw (q, assign_id) f
    | inr (location, q) ↦
        let value = string_or_null host.valid_utf8 id in
        let g = Queued-Frame f (assign_model-Frame host ec location value (Frame-refl jp)) in
        elim (Result-cases (assign_model host ec location value jp).1) [
          | inl (u, r) ↦ rw (q, assign_id) (rw (r, assign_id) g)
          | inr (e, r) ↦ rw (q, assign_id) (rw (r, assign_id) g)
        ]
  ]

  evaluate_invoke_request-Queued :
      (spec : InvokeSpec) (id : Identifier) (ec : ExecContext) {jp : Interpretation S}
      → Queued ip jp
      → Queued ip (evaluate_invoke_request c host spec id ec jp).0
  unfolding evaluate_invoke_request
  evaluate_invoke_request-Queued spec id ec {jp} f =
      or_report-Queued _ _ (assign_id-Queued spec id ec f) λ u ip1 f1.
        or_report-Queued _ _
          (Queued-Frame f1
            (eval_string-Frame host ec spec.type_expr spec.static_type _ (Frame-refl ip1)))
          λ typ ip2 f2.
            or_report-Queued _ _
              (Queued-Frame f2
                (eval_string-Frame host ec spec.source_expr spec.static_source _ (Frame-refl ip2)))
              λ source ip3 f3.
                or_report-Queued _ _
                  (Queued-Frame f3 (evaluate_payload-Frame host ec spec.payload (Frame-refl ip3)))
                  λ value ip4 f4. f4

  begin_invoke-Queued :
      (s : StateRef) (jp : Interpretation S) (spec : InvokeSpec)
      → Queued ip jp
      → Queued ip (begin_invoke c host s jp spec)
  unfolding begin_invoke
  begin_invoke-Queued s jp spec f =
      start_requested-Queued s spec _ _
        (evaluate_invoke_request-Queued spec _ _ (choose_invoke_id-Queued s spec f))

  pub process_invokes-Queued :
      {jp : Interpretation S} → Queued ip jp → Queued ip (process_invokes c host jp)
  unfolding process_invokes
  process_invokes-Queued {jp} f = Queued-if (is_empty jp.states_to_invoke) f (
      fold_left_inv (Queued ip)
        (λ kp s. fold_left (begin_invoke c host s) kp (state_at c s).invokes)
        (λ kp s g.
          fold_left_inv (Queued ip) (begin_invoke c host s) (begin_invoke-Queued s) kp
            (state_at c s).invokes g)
        (record jp { states_to_invoke = [] }) (sort_asc jp.states_to_invoke)
        (record { kept = f.kept }))

  forward_to-Queued :
      (ev : Event) (ri : RunningInvoke) (channel : ℕ) {jp : Interpretation S}
      → Queued ip jp
      → Queued ip (forward_to c host ev ri channel jp)
  unfolding forward_to
  forward_to-Queued ev ri channel {jp} f =
      let tried : Interpretation S = record jp { forward_seq = suc jp.forward_seq } in
      let g : Queued ip tried = record { kept = f.kept } in
      Queued-if (host.has_room channel jp.forward_seq) (record { kept = f.kept })
        (Queued-Frame g (report_comm_error-Frame host _ (Frame-refl tried)))

  forward_one-Queued :
      (ev : Event) (ri : RunningInvoke) {jp : Interpretation S}
      → Queued ip jp
      → Queued ip (forward_one c host ev ri jp)
  forward_one-Queued ev ri {jp} f = elim (Option-cases ri.incoming) [
    | inl q ↦ rw q f
    | inr (channel, q) ↦ rw q (
        Queued-if ri.auto_forward
          (forward_to-Queued ev (record ri { incoming = some channel }) channel f) f)
  ]

  finalize_one-Queued :
      (ev : Event) (ri : RunningInvoke) {jp : Interpretation S}
      → Queued ip jp
      → Queued ip (finalize_one c host ev ri jp)
  finalize_one-Queued ev ri {jp} f =
      Queued-if (not (bytes_eq ev.invoke_id (codes "")) && bytes_eq ri.id ev.invoke_id)
        (Queued-Frame f (run_finalize_blocks-Frame host c ri.finalize (Frame-refl jp))) f

  side_effects_of-Queued :
      (ev : Event) (jp : Interpretation S) (id : Identifier)
      → Queued ip jp
      → Queued ip (side_effects_of c host ev jp id)
  side_effects_of-Queued ev jp id f = elim (Option-cases (get_id id jp.invokes_by_id)) [
    | inl q ↦ rw (q, side_effects_of) f
    | inr (ri, q) ↦ rw (q, side_effects_of) (forward_one-Queued ev ri (finalize_one-Queued ev ri f))
  ]

  pub apply_invoke_side_effects-Queued :
      (ev : Event) {jp : Interpretation S}
      → Queued ip jp
      → Queued ip (apply_invoke_side_effects c host ev jp)
  unfolding apply_invoke_side_effects
  apply_invoke_side_effects-Queued ev {jp} f =
      fold_left_inv (Queued ip) (side_effects_of c host ev) (side_effects_of-Queued ev) jp
        (sort_bytes (keys jp.invokes_by_id)) f
