-- ===== src/Interpreter/Invoke.antt =====
-- interpreter.go: invocations, from the states that were entered to the
-- services that run, and what an external event does to them.
pub mod Fresh
use statecharts.Base.{
  ℕ, zero, suc, ◌+◌, Bool, true, false, not, if◌then◌else◌, ◌||◌, ◌&&◌, List, [], ◌∷◌, ◌++◌, Option,
  none, some, any, is_empty, is_some, fold_left, length, map,
}
use statecharts.Base.Bytes.{Bytes, codes, bytes_eq, decimal, sort_bytes}
use statecharts.Base.Sets.{sort_asc}
use statecharts.Base.Maps.{get, put, remove, get_id, put_id, remove_id}
use statecharts.Identifier.{Identifier}
use statecharts.Value.{Value, string_or_null}
use statecharts.Event.{
  Event, Error, platform, plain_error, err_event_communication, platform_error_value, event_of,
}
use statecharts.Chart.{Chart, StateRef, State, InvokeSpec, state_at}
use statecharts.Session.{
  Host, ExecContext, InvokeRequest, InvokeStart, failed, started, Result, ok, err,
}
use statecharts.Interpreter.{
  Interpretation, RunningInvoke, enqueue_internal, report_error, report_comm_error, exec_context,
  canonical_invoke_type,
}
use statecharts.Interpreter.Model.{assign_model, eval_string, evaluate_payload}
use statecharts.Interpreter.Execute.{run_finalize_blocks}

-- The `invokesByID` entries go, and the services are cancelled.
unfoldable pub cancel_each : {S : Type 0} → List RunningInvoke → Interpretation S → Interpretation S
cancel_each [] ip = ip
cancel_each (ri ∷ ris) ip = cancel_each ris (record ip {
  invokes_by_id = remove_id ri.id ip.invokes_by_id;
  cancelled = ip.cancelled ++ (ri.id ∷ []);
})

abbrev pub running_of : StateRef → List (StateRef × List RunningInvoke) → List RunningInvoke
running_of s m = elim (get s m) [ none ↦ [] | some ris ↦ ris ]

unfoldable pub cancel_invokes : {S : Type 0} → StateRef → Interpretation S → Interpretation S
unfolding cancel_each
cancel_invokes s ip =
    if is_empty (running_of s ip.active_invokes)
    then ip
    else let done = cancel_each (running_of s ip.active_invokes) ip in
      record done { active_invokes = remove s done.active_invokes }

-- The IDs that the chart's invocations declare.
unfoldable pub declared_ids : List State → List Identifier
declared_ids [] = []
declared_ids (s ∷ ss) = map (λ spec. spec.id) s.invokes ++ declared_ids ss

abbrev pub keys : List (Identifier × RunningInvoke) → List Identifier
keys [] = []
keys ((id, ri) ∷ m) = id ∷ keys m

-- The `n`-th ID that `beginInvoke` makes for a state.
unfoldable pub invoke_id : Chart → StateRef → ℕ → Identifier
invoke_id c s n = (state_at c s).id ++ (codes ".invoke" ++ decimal n)

module _ (c : Chart) {S : Type 0} where
  unfoldable pub invoke_id_reserved : Interpretation S → Identifier → Bool
  unfolding declared_ids
  invoke_id_reserved ip id =
      is_some (get_id id ip.invokes_by_id) || any (bytes_eq id) (declared_ids c.order)

  -- The loop of `beginInvoke`: the number of the first ID from `n + 1` on that is not reserved.
  unfoldable pub free_number : ℕ → StateRef → Interpretation S → ℕ → ℕ
  unfolding invoke_id_reserved invoke_id
  free_number zero s ip n = suc n
  free_number (suc fuel) s ip n =
      let next = free_number fuel s ip (suc n) in
      if invoke_id_reserved ip (invoke_id c s (suc n)) then next else suc n

  -- At most this many IDs are reserved, so one of as many and one more is free.
  abbrev pub reserved_count : Interpretation S → ℕ
  reserved_count ip = length (keys ip.invokes_by_id) + length (declared_ids c.order)

  -- The ID of a new invocation: the declared one, or one made for the state.
  unfoldable pub choose_invoke_id :
      StateRef → InvokeSpec → Interpretation S → Interpretation S × Identifier
  unfolding free_number
  choose_invoke_id s spec ip =
      if bytes_eq spec.id (codes "")
      then (let n = free_number (reserved_count ip) s ip ip.invoke_seq in
          (record ip { invoke_seq = n }, invoke_id c s n))
      else (ip, spec.id)

module _ (c : Chart) {S : Type 0} (host : Host S) where
  -- A part of a request that failed: the error is reported and there is no request.
  unfoldable pub or_report :
      {A B : Type 0}
      → Interpretation S × Result A
      → (A → Interpretation S → Interpretation S × Option B)
      → Interpretation S × Option B
  or_report (ip, err e) k = (report_error host e ip, none)
  or_report (ip, ok a) k = k a ip

  unfoldable pub assign_id :
      InvokeSpec
      → Identifier
      → ExecContext
      → Interpretation S
      → Interpretation S × Result (Unit {0})
  assign_id spec id ec ip = elim spec.id_location [
    | none ↦ (ip, ok tt)
    | some location ↦
        let (ip', r) = assign_model host ec location (string_or_null host.valid_utf8 id) ip in
        elim r [
          | ok u ↦ (ip', ok u)
          | err e ↦ (ip', err (plain_error (codes "statecharts: invoke idlocation: " ++ e.message)))
        ]
  ]

  -- `evaluateInvokeRequest`, assigning the ID.
  unfoldable pub evaluate_invoke_request :
      InvokeSpec
      → Identifier
      → ExecContext
      → Interpretation S
      → Interpretation S × Option InvokeRequest
  evaluate_invoke_request spec id ec ip = or_report (assign_id spec id ec ip) λ _ ip1.
      or_report (eval_string host ec spec.type_expr spec.static_type (codes "invoke type") ip1)
        λ typ ip2.
          or_report
            (eval_string host ec spec.source_expr spec.static_source (codes "invoke source") ip2)
            λ source ip3. or_report (evaluate_payload host ec spec.payload ip3) λ value ip4. (
              ip4,
              some (record {
                definition_id = spec.definition_id;
                id = id;
                type = canonical_invoke_type typ;
                source = source;
                payload = value;
              }),
            )

  -- An invocation that could not be started.
  unfoldable pub report_start : Identifier → Error → Interpretation S → Interpretation S
  report_start id e ip =
      let ev =
        event_of err_event_communication platform
          (platform_error_value host.valid_utf8 host.to_valid_utf8 err_event_communication e) in
      if e.is_handler_unavailable
      then report_error host e ip
      else enqueue_internal (record ev { invoke_id = id }) ip

  unfoldable pub register : StateRef → RunningInvoke → Interpretation S → Interpretation S
  register s ri ip = record ip {
    active_invokes = put s (running_of s ip.active_invokes ++ (ri ∷ [])) ip.active_invokes;
    invokes_by_id = put_id ri.id ri ip.invokes_by_id;
  }

  unfoldable pub start_requested :
      StateRef
      → InvokeSpec
      → Identifier
      → Interpretation S × Option InvokeRequest
      → Interpretation S
  start_requested s spec id (ip, none) = ip
  start_requested s spec id (ip, some request) = elim (host.start_invoke request spec) [
    | failed e ↦ report_start id e ip
    | started incoming ↦
        register s
          (record {
            id = id;
            state = s;
            spec = spec;
            type = request.type;
            source = request.source;
            finalize = spec.finalize;
            auto_forward = spec.auto_forward;
            incoming = incoming;
          })
          ip
  ]

  unfoldable pub begin_invoke : StateRef → Interpretation S → InvokeSpec → Interpretation S
  begin_invoke s ip spec =
      let (ip', id) = choose_invoke_id c s spec ip in
      start_requested s spec id (evaluate_invoke_request spec id (exec_context host c ip') ip')

  -- `processInvokes`
  unfoldable pub process_invokes : Interpretation S → Interpretation S
  process_invokes ip =
      if is_empty ip.states_to_invoke
      then ip
      else fold_left (λ ip' s. fold_left (begin_invoke s) ip' (state_at c s).invokes)
          (record ip { states_to_invoke = [] }) (sort_asc ip.states_to_invoke)

  -- `<finalize>` of the invocation that the event comes from.
  abbrev pub finalize_one : Event → RunningInvoke → Interpretation S → Interpretation S
  finalize_one ev ri ip =
      if not (bytes_eq ev.invoke_id (codes "")) && bytes_eq ri.id ev.invoke_id
      then run_finalize_blocks host c ri.finalize ip
      else ip

  unfoldable pub forward_to : Event → RunningInvoke → ℕ → Interpretation S → Interpretation S
  forward_to ev ri channel ip =
      let tried = record ip { forward_seq = suc ip.forward_seq } in
      if host.has_room channel ip.forward_seq
      then record tried { forwarded = ip.forwarded ++ ((channel, ev) ∷ []) }
      else report_comm_error host
          (plain_error (
            codes "statecharts: invoke "
            ++ (host.quote ri.id ++ codes " cannot accept an autoforwarded event")))
          tried

  -- The copy of the event that an autoforwarding invocation gets.
  abbrev pub forward_one : Event → RunningInvoke → Interpretation S → Interpretation S
  forward_one ev ri ip = elim ri.incoming [
    | none ↦ ip
    | some channel ↦ if ri.auto_forward then forward_to ev ri channel ip else ip
  ]

  abbrev pub side_effects_of : Event → Interpretation S → Identifier → Interpretation S
  side_effects_of ev ip id = elim (get_id id ip.invokes_by_id) [
    | none ↦ ip
    | some ri ↦ forward_one ev ri (finalize_one ev ri ip)
  ]

  -- `applyInvokeSideEffects`, over `sortedInvokeIDs`.
  unfoldable pub apply_invoke_side_effects : Event → Interpretation S → Interpretation S
  apply_invoke_side_effects ev ip =
      fold_left (side_effects_of ev) ip (sort_bytes (keys ip.invokes_by_id))
