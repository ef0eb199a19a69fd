-- ===== src/Interpreter/Send/Deliveries.antt =====
-- What one dispatch of a send leaves behind: one delivery at most, and a trace of it at least.
use statecharts.Base.{
  ℕ, suc, ◌+◌, ◌≤◌, Bool, true, false, not, ◌||◌, List, [], ◌∷◌, ◌++◌, Option, none, some, ◌≡◌,
  refl, arith, inl, inr, Bool-cases, Option-cases, keep, length, length-append, if◌then◌else◌,
}
use statecharts.Base.Bytes.{codes, bytes_eq, has_prefix}
use statecharts.Identifier.{Identifier}
use statecharts.Event.{Event, EventType, platform, Error}
use statecharts.Session.{Host, SendRequest, scxml_event_processor}
use statecharts.Interpreter.{
  Interpretation, RunningInvoke, canonical_io_processor_type, enqueue_internal, enqueue_external,
  report_send_error,
}
use statecharts.Interpreter.Send.{
  stamp_external_event, session_target, after_processor, dispatch_to_processor, invoke_channel,
  dispatch_to_invoke, dispatch_scxml, dispatch_now,
}

abbrev pub is_platform : EventType → Bool
is_platform platform = true
is_platform _ = false

abbrev pub not_platform : Event → Bool
not_platform ev = not (is_platform ev.type)

module _ {S : Type 0} where
  -- Where a send can end: with a processor, in an invocation's channel, or in one of the queues,
  -- where the events of type platform are the reported errors.
  abbrev pub deliveries : Interpretation S → ℕ
  deliveries ip =
      length ip.dispatched
      + length ip.forwarded
      + length ip.external_queue
      + length (keep not_platform ip.internal_queue)

  -- The deliveries and the reported errors.
  abbrev pub outcomes : Interpretation S → ℕ
  outcomes ip =
      length ip.dispatched
      + length ip.forwarded
      + length ip.external_queue
      + length ip.internal_queue

  -- At most one delivery, and at least one outcome.
  abbrev pub SendsOnce : Interpretation S → Interpretation S → Type 0
  SendsOnce ip jp = (deliveries jp ≤ suc (deliveries ip)) × (suc (outcomes ip) ≤ outcomes jp)

  SendsOnce-if :
      (b : Bool) (ip x y : Interpretation S)
      → SendsOnce ip x
      → SendsOnce ip y
      → SendsOnce ip (if b then x else y)
  SendsOnce-if true ip x y p q = p
  SendsOnce-if false ip x y p q = q

length-keep-snoc :
    (ev : Event) (q : List Event)
    → length (keep not_platform (q ++ (ev ∷ [])))
      ≡ length (keep not_platform q) + (if not_platform ev then 1 else 0)
length-keep-snoc ev [] = ground arith
length-keep-snoc ev (x ∷ q) = elim (Bool-cases (not_platform x)) [
  | inl p ↦ rw p (omega (arith, length-keep-snoc ev q))
  | inr p ↦ rw p (length-keep-snoc ev q)
]

module _ {S : Type 0} (host : Host S) where
  enqueue_internal-SendsOnce :
      (ev : Event) (ip : Interpretation S) → SendsOnce ip (enqueue_internal ev ip)
  unfolding enqueue_internal
  enqueue_internal-SendsOnce ev ip =
      let own = length-keep-snoc ev ip.internal_queue in
      let all = length-append ip.internal_queue (ev ∷ []) in
      elim (Bool-cases (not_platform ev)) [
        | inl q ↦ let own' = rw q at own in (omega (arith, own'), omega (arith, all))
        | inr q ↦ let own' = rw q at own in (omega (arith, own'), omega (arith, all))
      ]

  -- A reported error is an outcome and no delivery.
  report_send_error-counts :
      (send_id : Identifier) (e : Error) (ip : Interpretation S)
      → (deliveries (report_send_error host send_id e ip) ≡ deliveries ip)
        × (outcomes (report_send_error host send_id e ip) ≡ suc (outcomes ip))
  unfolding report_send_error enqueue_internal
  report_send_error-counts send_id e ip = (
    omega (arith, length-keep-snoc _ ip.internal_queue),
    omega (arith, length-append ip.internal_queue (_ ∷ [])),
  )

  report_send_error-SendsOnce :
      (send_id : Identifier) (e : Error) (ip : Interpretation S)
      → SendsOnce ip (report_send_error host send_id e ip)
  report_send_error-SendsOnce send_id e ip =
      let (own, all) = report_send_error-counts send_id e ip in
      (omega (arith, own), omega (arith, all))

  enqueue_external-SendsOnce :
      (ev : Event) (ip : Interpretation S) → SendsOnce ip (enqueue_external ev ip)
  unfolding enqueue_external
  enqueue_external-SendsOnce ev ip =
      let all = length-append ip.external_queue (ev ∷ []) in
      (omega (arith, all), omega (arith, all))

  -- A processor's error adds no delivery to the request that it was handed.
  after_processor-counts :
      (send_id : Identifier) (o : Option Error) (ip : Interpretation S)
      → (deliveries (after_processor host send_id o ip) ≡ deliveries ip)
        × (outcomes ip ≤ outcomes (after_processor host send_id o ip))
  unfolding after_processor
  after_processor-counts send_id none ip = (refl, omega arith)
  after_processor-counts send_id (some e) ip =
      let (own, all) = report_send_error-counts send_id e ip in (own, omega (arith, all))

  after_request-SendsOnce :
      (send_id : Identifier) (o : Option Error) (request : SendRequest) (n : ℕ)
      (ip : Interpretation S)
      → SendsOnce ip (
          after_processor host send_id o
            (record ip { dispatch_seq = n; dispatched = ip.dispatched ++ (request ∷ []) }))
  after_request-SendsOnce send_id o request n ip =
      let sent = length-append ip.dispatched (request ∷ []) in
      let (own, all) =
        after_processor-counts send_id o
          (record ip { dispatch_seq = n; dispatched = ip.dispatched ++ (request ∷ []) }) in
      (omega (arith, own, sent), omega (arith, all, sent))

  dispatch_to_processor-SendsOnce :
      (send_id target typ : Identifier) (ev : Event) (processor : SendRequest → Option Error)
      (ip : Interpretation S)
      → SendsOnce ip (dispatch_to_processor host send_id target typ ev processor ip)
  unfolding dispatch_to_processor
  dispatch_to_processor-SendsOnce send_id target typ ev processor ip =
      after_request-SendsOnce send_id _ _ _ ip

  dispatch_to_invoke-SendsOnce :
      (send_id : Identifier) (ev : Event) (ri : RunningInvoke) (channel : ℕ) (ip : Interpretation S)
      → SendsOnce ip (dispatch_to_invoke host send_id ev ri channel ip)
  unfolding dispatch_to_invoke
  dispatch_to_invoke-SendsOnce send_id ev ri channel ip =
      elim (Bool-cases (host.has_room channel ip.forward_seq)) [
        | inl q ↦
            let sent = length-append ip.forwarded ((channel, stamp_external_event host ev) ∷ []) in
            rw (q, dispatch_to_invoke) (omega (arith, sent), omega (arith, sent))
        | inr q ↦
            rw (q, dispatch_to_invoke)
              (report_send_error-SendsOnce send_id _
                (record ip { forward_seq = suc ip.forward_seq }))
      ]

  dispatch_scxml-SendsOnce :
      (send_id target : Identifier) (ev : Event) (processor : SendRequest → Option Error)
      (ip : Interpretation S)
      → SendsOnce ip (dispatch_scxml host send_id target ev processor ip)
  unfolding dispatch_scxml
  dispatch_scxml-SendsOnce send_id target ev processor ip =
      let default =
        dispatch_to_processor-SendsOnce send_id target scxml_event_processor ev processor ip in
      SendsOnce-if (bytes_eq target (codes "#_internal")) ip _ _ (enqueue_internal-SendsOnce _ ip) (
        SendsOnce-if (bytes_eq target (codes "") || bytes_eq target (session_target host)) ip _ _
          (enqueue_external-SendsOnce _ ip)
          (SendsOnce-if (has_prefix (codes "#_") target) ip _ _
            (elim (Option-cases (invoke_channel host target ip.invokes_by_id)) [
              | inl q ↦ rw q default
              | inr ((ri, channel), q) ↦
                  rw q (dispatch_to_invoke-SendsOnce send_id ev ri channel ip)
            ])
            default))

  pub dispatch_now-SendsOnce :
      (send_id target type : Identifier) (ev : Event) (ip : Interpretation S)
      → SendsOnce ip (dispatch_now host send_id target type ev ip)
  unfolding dispatch_now
  dispatch_now-SendsOnce send_id target type ev ip =
      let typ = canonical_io_processor_type type in
      elim (Option-cases (host.processor typ)) [
        | inl q ↦ rw (q, dispatch_now) (report_send_error-SendsOnce send_id _ ip)
        | inr (processor, q) ↦
            rw (q, dispatch_now)
              (SendsOnce-if (bytes_eq typ scxml_event_processor) ip _ _
                (dispatch_scxml-SendsOnce send_id target ev processor ip)
                (dispatch_to_processor-SendsOnce send_id target typ ev processor ip))
      ]
