-- ===== src/Interpreter/Frame/Send.antt =====
-- Sending, cancelling and reporting errors keep the frame.
use statecharts.Base.{
  ℕ, [], ◌∷◌, Option, none, some, refl, ◌||◌, inl, inr, Bool-cases, Option-cases,
}
use statecharts.Base.Bytes.{codes, bytes_eq, has_prefix}
use statecharts.Identifier.{Identifier}
use statecharts.Event.{Event, Error}
use statecharts.Chart.{Delay, immediate, after}
use statecharts.Session.{Host, SendOptions, SendRequest, scxml_event_processor}
use statecharts.Interpreter.{
  Interpretation, RunningInvoke, canonical_io_processor_type, enqueue_internal, enqueue_external,
  report_error, report_comm_error, report_send_error,
}
use statecharts.Interpreter.Send.{
  dispatch_to_processor, dispatch_to_invoke, dispatch_scxml, dispatch_now, schedule_send,
  generate_send_id, do_cancel, session_target, invoke_channel, sent_event, after_processor,
}
use statecharts.Interpreter.Frame.{Frame, Frame-trans, Frame-if, Frame-silent, Extends-refl}

module _ {S : Type 0} where
  pub enqueue_internal-Frame :
      {ip jp : Interpretation S} (ev : Event) → Frame ip jp → Frame ip (enqueue_internal ev jp)
  unfolding enqueue_internal
  enqueue_internal-Frame {ip} {jp} ev f = Frame-trans f (record {
    same = refl;
    internal = (ev ∷ [], refl);
    external = Extends-refl jp.external_queue;
  })

  pub enqueue_external-Frame :
      {ip jp : Interpretation S} (ev : Event) → Frame ip jp → Frame ip (enqueue_external ev jp)
  unfolding enqueue_external
  enqueue_external-Frame {ip} {jp} ev f = Frame-trans f (record {
    same = refl;
    internal = Extends-refl jp.internal_queue;
    external = (ev ∷ [], refl);
  })

  pub do_cancel-Frame :
      {ip jp : Interpretation S} (id : Identifier) → Frame ip jp → Frame ip (do_cancel id jp)
  unfolding do_cancel
  do_cancel-Frame id f = Frame-if (bytes_eq id (codes "")) f (Frame-silent f refl refl refl)

module _ {S : Type 0} (host : Host S) {ip : Interpretation S} where
  pub report_error-Frame :
      {jp : Interpretation S} (e : Error) → Frame ip jp → Frame ip (report_error host e jp)
  unfolding report_error
  report_error-Frame e f = enqueue_internal-Frame _ f

  pub report_comm_error-Frame :
      {jp : Interpretation S} (e : Error) → Frame ip jp → Frame ip (report_comm_error host e jp)
  unfolding report_comm_error
  report_comm_error-Frame e f = enqueue_internal-Frame _ f

  pub report_send_error-Frame :
      {jp : Interpretation S} (id : Identifier) (e : Error)
      → Frame ip jp
      → Frame ip (report_send_error host id e jp)
  unfolding report_send_error
  report_send_error-Frame id e f = enqueue_internal-Frame _ f

  after_processor-Frame :
      {jp : Interpretation S} (id : Identifier) (o : Option Error)
      → Frame ip jp
      → Frame ip (after_processor host id o jp)
  unfolding after_processor
  after_processor-Frame id none f = f
  after_processor-Frame id (some e) f = report_send_error-Frame id e f

  dispatch_to_processor-Frame :
      {jp : Interpretation S} (id target typ : Identifier) (ev : Event)
      (p : SendRequest → Option Error)
      → Frame ip jp
      → Frame ip (dispatch_to_processor host id target typ ev p jp)
  unfolding dispatch_to_processor
  dispatch_to_processor-Frame id target typ ev p f =
      after_processor-Frame id _ (Frame-silent f refl refl refl)

  dispatch_to_invoke-Frame :
      {jp : Interpretation S} (id : Identifier) (ev : Event) (ri : RunningInvoke) (channel : ℕ)
      → Frame ip jp
      → Frame ip (dispatch_to_invoke host id ev ri channel jp)
  unfolding dispatch_to_invoke
  dispatch_to_invoke-Frame {jp} id ev ri channel f =
      Frame-if (host.has_room channel jp.forward_seq) (Frame-silent f refl refl refl)
        (report_send_error-Frame id _ (Frame-silent f refl refl refl))

  dispatch_scxml-Frame :
      {jp : Interpretation S} (id target : Identifier) (ev : Event) (p : SendRequest → Option Error)
      → Frame ip jp
      → Frame ip (dispatch_scxml host id target ev p jp)
  unfolding dispatch_scxml
  dispatch_scxml-Frame {jp} id target ev p f =
      let default = dispatch_to_processor-Frame id target scxml_event_processor ev p f in
      Frame-if (bytes_eq target (codes "#_internal")) (enqueue_internal-Frame _ f) (
        Frame-if (bytes_eq target (codes "") || bytes_eq target (session_target host))
          (enqueue_external-Frame _ f)
          (Frame-if (has_prefix (codes "#_") target)
            (elim (Option-cases (invoke_channel host target jp.invokes_by_id)) [
              | inl e ↦ rw e default
              | inr (found, e) ↦ rw e (dispatch_to_invoke-Frame id ev found.0 found.1 f)
            ])
            default))

  pub dispatch_now-Frame :
      {jp : Interpretation S} (id target typ : Identifier) (ev : Event)
      → Frame ip jp
      → Frame ip (dispatch_now host id target typ ev jp)
  unfolding dispatch_now
  dispatch_now-Frame id target typ ev f =
      elim (Option-cases (host.processor (canonical_io_processor_type typ))) [
        | inl e ↦ rw (e, dispatch_now) (report_send_error-Frame id _ f)
        | inr (p, e) ↦
            rw (e, dispatch_now)
              (Frame-if (bytes_eq (canonical_io_processor_type typ) scxml_event_processor)
                (dispatch_scxml-Frame id target ev p f)
                (dispatch_to_processor-Frame id target (canonical_io_processor_type typ) ev p f))
      ]

  schedule_by_delay :
      {jp : Interpretation S} (name : Identifier) (opts : SendOptions) (id : Identifier) (d : Delay)
      → Frame ip jp
      → Frame ip (schedule_send host name (record opts { delay = d }) id jp)
  unfolding schedule_send
  schedule_by_delay name opts id immediate f =
      dispatch_now-Frame id opts.target _ (sent_event host name opts) f
  schedule_by_delay name opts id (after d) f = Frame-silent f refl refl refl

  pub schedule_send-Frame :
      {jp : Interpretation S} (name : Identifier) (opts : SendOptions) (id : Identifier)
      → Frame ip jp
      → Frame ip (schedule_send host name opts id jp)
  schedule_send-Frame name opts id f = schedule_by_delay name opts id opts.delay f

  pub generate_send_id-Frame :
      {jp : Interpretation S} (given : Identifier)
      → Frame ip jp
      → Frame ip (generate_send_id host given jp).0
  unfolding generate_send_id
  generate_send_id-Frame given f = elim (Bool-cases (bytes_eq given (codes ""))) [
    | inl e ↦ rw e (Frame-silent f refl refl refl)
    | inr e ↦ rw e f
  ]
