-- ===== src/Interpreter/Send.antt =====
-- interpreter.go: `<send>`, `<cancel>` and delayed sends.
--
-- A delayed send's timer is the environment's call of `handle_timer_fire` with its record. Stopping
-- a timer has no effect beyond that: a record that is no longer pending is ignored when it fires.
pub mod Timers
pub mod Earliest
pub mod Replay
pub mod Deliveries
pub mod Once
use statecharts.Base.{
  ℕ, zero, suc, ◌+◌, Bool, true, false, not, if◌then◌else◌, ◌||◌, ◌&&◌, List, [], ◌∷◌, ◌++◌, Option,
  none, some, ltb, ◌==◌, keep, any, is_empty,
}
use statecharts.Base.Bytes.{Bytes, codes, bytes_eq, has_prefix, trim_two, decimal}
use statecharts.Base.Maps.{get_id}
use statecharts.Identifier.{Identifier}
use statecharts.Event.{Event, external, internal, Error, plain_error, send_execution_error}
use statecharts.Chart.{immediate, after, Delay}
use statecharts.Session.{
  Host, SendOptions, SendRequest, scxml_event_processor, scxml_event_processor_alias,
}
use statecharts.Interpreter.{
  Interpretation, PendingSend, RunningInvoke, canonical_io_processor_type, enqueue_internal,
  enqueue_external, report_send_error,
}

module _ {S : Type 0} (host : Host S) where
  unfoldable pub session_target : Identifier
  session_target = codes "#_scxml_" ++ host.session_id

  unfoldable pub stamp_external_event : Event → Event
  unfolding session_target
  stamp_external_event ev = record ev {
    type = external;
    origin = session_target;
    origin_type = scxml_event_processor_alias;
  }

  unfoldable pub delivery_id : ℕ → Bytes
  delivery_id n = host.delivery_namespace ++ (codes ":" ++ decimal n)

  unfoldable pub after_processor : Identifier → Option Error → Interpretation S → Interpretation S
  after_processor send_id none ip = ip
  after_processor send_id (some e) ip = report_send_error host send_id e ip

  unfoldable pub dispatch_to_processor :
      Identifier
      → Identifier
      → Identifier
      → Event
      → (SendRequest → Option Error)
      → Interpretation S
      → Interpretation S
  unfolding delivery_id
  dispatch_to_processor send_id target typ ev processor ip =
      let n = suc ip.dispatch_seq in
      let request : SendRequest = record {
        delivery_id = delivery_id n;
        send_id = send_id;
        event_send_id = ev.send_id;
        target = target;
        type = typ;
        event = ev.name;
        payload = ev.payload;
      } in
      after_processor send_id (processor request)
        (record ip { dispatch_seq = n; dispatched = ip.dispatched ++ (request ∷ []) })

  abbrev pub cannot_accept : Bytes → Bytes → Error
  cannot_accept id what = plain_error (codes "statecharts: invoke " ++ (host.quote id ++ what))

  -- The running invocation that a `#_<invokeid>` target names, if it takes events.
  abbrev pub invoke_channel :
      Identifier → List (Identifier × RunningInvoke) → Option (RunningInvoke × ℕ)
  invoke_channel target invokes = elim (get_id (trim_two b'#' b'_' target) invokes) [
    | none ↦ none
    | some ri ↦ elim ri.incoming [ none ↦ none | some channel ↦ some (ri, channel) ]
  ]

  -- The non-blocking channel send of `dispatchNow`.
  unfoldable pub dispatch_to_invoke :
      Identifier → Event → RunningInvoke → ℕ → Interpretation S → Interpretation S
  unfolding stamp_external_event
  dispatch_to_invoke send_id ev ri channel ip =
      let tried = record ip { forward_seq = suc ip.forward_seq } in
      if host.has_room channel ip.forward_seq
      then record tried { forwarded = ip.forwarded ++ ((channel, stamp_external_event ev) ∷ []) }
      else report_send_error host send_id
          (cannot_accept ri.id (codes " cannot accept another event")) tried

  -- The target's cases for the SCXML processor.
  unfoldable pub dispatch_scxml :
      Identifier
      → Identifier
      → Event
      → (SendRequest → Option Error)
      → Interpretation S
      → Interpretation S
  unfolding dispatch_to_processor dispatch_to_invoke stamp_external_event session_target
  dispatch_scxml send_id target ev processor ip =
      let default = dispatch_to_processor send_id target scxml_event_processor ev processor ip in
      if bytes_eq target (codes "#_internal")
      then enqueue_internal
          (record ev { type = internal; origin = codes ""; origin_type = codes "" }) ip
      else if bytes_eq target (codes "") || bytes_eq target session_target
      then enqueue_external (stamp_external_event ev) ip
      else if has_prefix (codes "#_") target
      then elim (invoke_channel target ip.invokes_by_id) [
        | none ↦ default
        | some (ri, channel) ↦ dispatch_to_invoke send_id ev ri channel ip
      ]
      else default

  abbrev pub unknown_io_processor_error : Identifier → Error
  unknown_io_processor_error typ =
      send_execution_error
        (codes "statecharts: no IOProcessor registered for type " ++ host.quote typ)

  unfoldable pub dispatch_now :
      Identifier → Identifier → Identifier → Event → Interpretation S → Interpretation S
  unfolding dispatch_scxml
  dispatch_now send_id target type ev ip =
      let typ = canonical_io_processor_type type in
      elim (host.processor typ) [
        | none ↦ report_send_error host send_id (unknown_io_processor_error typ) ip
        | some processor ↦
            if bytes_eq typ scxml_event_processor
            then dispatch_scxml send_id target ev processor ip
            else dispatch_to_processor send_id target typ ev processor ip
      ]

  abbrev pub sent_event : Identifier → SendOptions → Event
  sent_event name opts = record {
    name = name;
    type = external;
    payload = opts.payload;
    send_id = opts.send_id;
    origin = codes "";
    origin_type = codes "";
    invoke_id = codes "";
    delivery_id = codes "";
  }

  -- The end of `doSend`, once the send has its ID: dispatch it now, or arm its timer.
  unfoldable pub schedule_send :
      Identifier → SendOptions → Identifier → Interpretation S → Interpretation S
  unfolding dispatch_now
  schedule_send name opts send_id ip =
      let typ = canonical_io_processor_type opts.type in
      elim opts.delay [
        | immediate ↦ dispatch_now send_id opts.target typ (sent_event name opts) ip
        | after d ↦
            let n = suc ip.pending_seq in
            let waiting : PendingSend = record {
              send_id = send_id;
              target = opts.target;
              type = typ;
              event = sent_event name opts;
              fire_at = ip.now + d;
              order = n;
            } in
            record ip { pending_seq = n; pending = ip.pending ++ (waiting ∷ []) }
      ]

  -- The ID of a send: the author's, or the next one that `doSend` makes.
  unfoldable pub generate_send_id : Identifier → Interpretation S → Interpretation S × Identifier
  generate_send_id given ip =
      if bytes_eq given (codes "")
      then (record ip { send_seq = suc ip.send_seq }, codes "send." ++ decimal (suc ip.send_seq))
      else (ip, given)

module _ {S : Type 0} where
  -- `ip.pending[rec]`
  unfoldable pub is_pending : PendingSend → Interpretation S → Bool
  is_pending r ip = any (λ p. p.order == r.order) ip.pending

  -- `delete(ip.pending, rec)`
  unfoldable pub forget_pending : PendingSend → Interpretation S → Interpretation S
  forget_pending r ip = record ip { pending = keep (λ p. not (p.order == r.order)) ip.pending }

  unfoldable pub do_cancel : Identifier → Interpretation S → Interpretation S
  do_cancel send_id ip =
      if bytes_eq send_id (codes "")
      then ip
      else record ip { pending = keep (λ p. not (bytes_eq p.event.send_id send_id)) ip.pending }

module _ {S : Type 0} (host : Host S) where
  unfoldable pub fire_timer : PendingSend → Interpretation S → Interpretation S
  unfolding is_pending forget_pending
  fire_timer r ip =
      if is_pending r ip
      then dispatch_now host r.send_id r.target r.type r.event (forget_pending r ip)
      else ip

  unfoldable pub handle_timer_fire : PendingSend → Interpretation S → Interpretation S
  unfolding fire_timer is_pending
  handle_timer_fire r ip =
      if not (is_pending r ip)
      then ip
      else elim (host.timer_fired_hook r.send_id r.target r.type r.event) [
        | none ↦ fire_timer r ip
        | some e ↦ record ip { hook_err = some e; running = false }
      ]

-- The order of `replayTimerFire`'s sort: by deadline, then by age.
unfoldable pub fires_before : PendingSend → PendingSend → Bool
fires_before p q = if p.fire_at == q.fire_at then ltb p.order q.order else ltb p.fire_at q.fire_at

unfoldable pub insert_pending : PendingSend → List PendingSend → List PendingSend
insert_pending p [] = p ∷ []
insert_pending p (q ∷ qs) =
    let rest = q ∷ insert_pending p qs in if fires_before q p then rest else p ∷ q ∷ qs

unfoldable pub sort_pending : List PendingSend → List PendingSend
unfolding insert_pending fires_before
sort_pending [] = []
sort_pending (p ∷ ps) = insert_pending p (sort_pending ps)

-- `matches` of `replayTimerFire`: the exact matches, or else all with the send ID.
unfoldable pub replay_candidates :
    Identifier → Identifier → Identifier → Event → List PendingSend → List PendingSend
replay_candidates send_id target typ ev pending =
    let candidates = keep (λ p. bytes_eq p.send_id send_id) pending in
    let exact =
      keep (λ p. bytes_eq p.target target && bytes_eq p.type typ && bytes_eq p.event.name ev.name)
        candidates in
    if is_empty exact then candidates else exact

module _ {S : Type 0} (host : Host S) where
  unfoldable pub replay_timer_fire :
      Identifier → Identifier → Identifier → Event → Interpretation S → Interpretation S × Bool
  unfolding replay_candidates sort_pending forget_pending
  replay_timer_fire send_id target typ ev ip =
      elim (sort_pending (replay_candidates send_id target typ ev ip.pending)) [
        | [] ↦ (ip, false)
        | r ∷ rs ↦ (dispatch_now host send_id target typ ev (forget_pending r ip), true)
      ]
