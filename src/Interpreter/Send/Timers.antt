-- ===== src/Interpreter/Send/Timers.antt =====
-- Delayed sends: what `<cancel>` and a fired timer do to the pending records.
use statecharts.Base.{
  ℕ, Bool, true, false, not, ◌||◌, List, [], ◌∷◌, Option, none, some, ◌≡◌, refl, ◌∙◌, ap, inl, inr,
  Bool-cases, Option-cases, any, keep, All, ◌==◌, if◌then◌else◌,
}
use statecharts.Base.Bytes.{codes, bytes_eq, has_prefix}
use statecharts.Identifier.{Identifier}
use statecharts.Event.{Event, Error}
use statecharts.Session.{Host, SendRequest, scxml_event_processor}
use statecharts.Interpreter.{
  Interpretation, PendingSend, RunningInvoke, canonical_io_processor_type, enqueue_internal,
  enqueue_external, report_send_error,
}
use statecharts.Interpreter.Send.{
  session_target, after_processor, dispatch_to_processor, invoke_channel, dispatch_to_invoke,
  dispatch_scxml, dispatch_now, is_pending, forget_pending, do_cancel, fire_timer,
  handle_timer_fire,
}

-- The record of a send with the ID is not pending after `<cancel>`.
any-keep_none :
    (r : PendingSend) (send_id : Identifier) (ps : List PendingSend)
    → All (λ p. (p.order == r.order) ≡ true → bytes_eq p.event.send_id send_id ≡ true) ps
    → any (λ p. p.order == r.order) (keep (λ p. not (bytes_eq p.event.send_id send_id)) ps) ≡ false
any-keep_none r send_id [] h = refl
any-keep_none r send_id (p ∷ ps) h =
    let rest = any-keep_none r send_id ps h.1 in
    elim (Bool-cases (bytes_eq p.event.send_id send_id)) [
      | inl q ↦ rw q rest
      | inr q ↦ elim (Bool-cases (p.order == r.order)) [
        | inl same ↦ cc (h.0 same)
        | inr other ↦ rw q (rw other rest)
      ]
    ]

any_forget :
    (r : PendingSend) (ps : List PendingSend)
    → any (λ p. p.order == r.order) (keep (λ p. not (p.order == r.order)) ps) ≡ false
any_forget r [] = refl
any_forget r (p ∷ ps) = elim (Bool-cases (p.order == r.order)) [
  | inl q ↦ rw q (any_forget r ps)
  | inr q ↦ rw q (rw q (any_forget r ps))
]

module _ {S : Type 0} (host : Host S) where
  -- A delayed send that was cancelled by its ID, which is not empty, never does anything: its timer,
  -- when it fires, is ignored. (The pending records with its place in the sequence have that ID, as
  -- the record itself does.)
  pub handle_timer_fire-do_cancel :
      (r : PendingSend) (send_id : Identifier) (ip : Interpretation S)
      → bytes_eq send_id (codes "") ≡ false
      → All (λ p. (p.order == r.order) ≡ true → bytes_eq p.event.send_id send_id ≡ true) ip.pending
      → handle_timer_fire host r (do_cancel send_id ip) ≡ do_cancel send_id ip
  unfolding handle_timer_fire do_cancel is_pending
  handle_timer_fire-do_cancel r send_id ip given own =
      rw (given, any-keep_none r send_id ip.pending own)

  report_send_error-pending :
      (send_id : Identifier) (e : Error) (ip : Interpretation S)
      → (report_send_error host send_id e ip).pending ≡ ip.pending
  unfolding report_send_error enqueue_internal
  report_send_error-pending send_id e ip = refl

  after_processor-pending :
      (send_id : Identifier) (o : Option Error) (ip : Interpretation S)
      → (after_processor host send_id o ip).pending ≡ ip.pending
  unfolding after_processor
  after_processor-pending send_id none ip = refl
  after_processor-pending send_id (some e) ip = report_send_error-pending send_id e ip

  dispatch_to_processor-pending :
      (send_id target typ : Identifier) (ev : Event) (processor : SendRequest → Option Error)
      (ip : Interpretation S)
      → (dispatch_to_processor host send_id target typ ev processor ip).pending ≡ ip.pending
  unfolding dispatch_to_processor
  dispatch_to_processor-pending send_id target typ ev processor ip =
      after_processor-pending send_id _ _

  dispatch_to_invoke-pending :
      (send_id : Identifier) (ev : Event) (ri : RunningInvoke) (channel : ℕ) (ip : Interpretation S)
      → (dispatch_to_invoke host send_id ev ri channel ip).pending ≡ ip.pending
  unfolding dispatch_to_invoke
  dispatch_to_invoke-pending send_id ev ri channel ip =
      elim (Bool-cases (host.has_room channel ip.forward_seq)) [
        | inl q ↦ rw (q, dispatch_to_invoke)
        | inr q ↦ rw (q, dispatch_to_invoke) (report_send_error-pending send_id _ _)
      ]

  pending_if :
      (b : Bool) (x y ip : Interpretation S)
      → x.pending ≡ ip.pending
      → y.pending ≡ ip.pending
      → (if b then x else y).pending ≡ ip.pending
  pending_if true x y ip p q = p
  pending_if false x y ip p q = q

  enqueue_internal-pending :
      (ev : Event) (ip : Interpretation S) → (enqueue_internal ev ip).pending ≡ ip.pending
  unfolding enqueue_internal
  enqueue_internal-pending ev ip = refl

  enqueue_external-pending :
      (ev : Event) (ip : Interpretation S) → (enqueue_external ev ip).pending ≡ ip.pending
  unfolding enqueue_external
  enqueue_external-pending ev ip = refl

  dispatch_scxml-pending :
      (send_id target : Identifier) (ev : Event) (processor : SendRequest → Option Error)
      (ip : Interpretation S)
      → (dispatch_scxml host send_id target ev processor ip).pending ≡ ip.pending
  unfolding dispatch_scxml
  dispatch_scxml-pending send_id target ev processor ip =
      let default =
        dispatch_to_processor-pending send_id target scxml_event_processor ev processor ip in
      pending_if (bytes_eq target (codes "#_internal")) _ _ ip (enqueue_internal-pending _ ip) (
        pending_if (bytes_eq target (codes "") || bytes_eq target (session_target host)) _ _ ip
          (enqueue_external-pending _ ip)
          (pending_if (has_prefix (codes "#_") target) _ _ ip
            (elim (Option-cases (invoke_channel host target ip.invokes_by_id)) [
              | inl q ↦ rw q default
              | inr ((ri, channel), q) ↦ rw q (dispatch_to_invoke-pending send_id ev ri channel ip)
            ])
            default))

  pub dispatch_now-pending :
      (send_id target type : Identifier) (ev : Event) (ip : Interpretation S)
      → (dispatch_now host send_id target type ev ip).pending ≡ ip.pending
  unfolding dispatch_now
  dispatch_now-pending send_id target type ev ip =
      let typ = canonical_io_processor_type type in
      elim (Option-cases (host.processor typ)) [
        | inl q ↦ rw (q, dispatch_now) (report_send_error-pending send_id _ ip)
        | inr (processor, q) ↦
            rw (q, dispatch_now)
              (pending_if (bytes_eq typ scxml_event_processor) _ _ ip
                (dispatch_scxml-pending send_id target ev processor ip)
                (dispatch_to_processor-pending send_id target typ ev processor ip))
      ]

  pub fire_timer-pending :
      (r : PendingSend) (ip : Interpretation S) → is_pending r (fire_timer host r ip) ≡ false
  unfolding fire_timer is_pending forget_pending
  fire_timer-pending r ip = elim (Bool-cases (is_pending r ip)) [
    | inr q ↦ rw (q, fire_timer, is_pending) q
    | inl q ↦
        rw (q, fire_timer, is_pending)
          (ap (any (λ p. p.order == r.order))
              (dispatch_now-pending r.send_id r.target r.type r.event (forget_pending r ip))
            ∙ any_forget r ip.pending)
  ]
