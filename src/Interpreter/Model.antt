-- ===== src/Interpreter/Model.antt =====
-- interpreter.go: calls of the datamodel session, what
-- a session does through its context, and `<send>` with an ID location.
use statecharts.Base.{Bool, not, if◌then◌else◌, List, [], ◌∷◌, ◌++◌, Option, none, some}
use statecharts.Base.Bytes.{Bytes, codes, bytes_eq}
use statecharts.Identifier.{Identifier}
use statecharts.Value.{
  Value, null, Fields, end, set_field, map_value, as_string, kind_name, string_or_null,
}
use statecharts.Event.{Event, internal, Error, plain_error, send_execution_error}
use statecharts.Chart.{Chart, Expression, Payload, content, params}
use statecharts.Session.{
  Host, ExecContext, SendOptions, Effect, raises, sends, cancels, logs, Activity, returns, acts,
  sends_at, Outcome, Result, ok, err,
}
use statecharts.Interpreter.{
  Interpretation, enqueue_internal, report_error, report_send_error, exec_context,
}
use statecharts.Interpreter.Send.{schedule_send, generate_send_id, do_cancel}

-- `ExecContext.Raise`: what it makes of the event.
unfoldable pub raised_event : Event → Event
raised_event ev = record ev {
  type = internal;
  send_id = codes "";
  origin = codes "";
  origin_type = codes "";
  invoke_id = codes "";
}

module _ {S : Type 0} where
  unfoldable pub do_log : Bytes → Value → Interpretation S → Interpretation S
  do_log label value ip = record ip { logged = ip.logged ++ ((label, value) ∷ []) }

module _ {S : Type 0} (host : Host S) where
  -- `doSend` where no ID location is given.
  unfoldable pub do_send_plain : Identifier → SendOptions → Interpretation S → Interpretation S
  do_send_plain name opts ip =
      let (ip', send_id) = generate_send_id host opts.send_id ip in
      schedule_send host name opts send_id ip'

  -- `forbidden` of `finalizeExecContext`.
  unfoldable pub forbidden : Bytes → Interpretation S → Interpretation S
  forbidden operation =
      report_error host (
        plain_error (codes "statecharts: " ++ (operation ++ codes " is not permitted in finalize")))

  unfoldable pub apply_effect : ExecContext → Effect → Interpretation S → Interpretation S
  apply_effect ec (raises ev) ip =
      if ec.in_finalize then forbidden (codes "raise") ip else enqueue_internal (raised_event ev) ip
  apply_effect ec (sends name opts) ip =
      if ec.in_finalize then forbidden (codes "send") ip else do_send_plain name opts ip
  apply_effect ec (cancels send_id) ip =
      if ec.in_finalize then forbidden (codes "cancel") ip else do_cancel send_id ip
  apply_effect ec (logs label value) ip = do_log label value ip

  abbrev pub id_location_error : Error → Error
  id_location_error e = send_execution_error (codes "statecharts: send idlocation: " ++ e.message)

  unfoldable pub after_location :
      Identifier
      → SendOptions
      → Identifier
      → Interpretation S × Result (Unit {0})
      → Interpretation S
  after_location name opts send_id (ip, err e) =
      report_send_error host send_id (id_location_error e) ip
  after_location name opts send_id (ip, ok u) =
      schedule_send host name (record opts { send_id = send_id }) send_id ip

  -- `doSend` with an ID location, which is given as what its call does.
  unfoldable pub do_send_at :
      Identifier
      → SendOptions
      → (Identifier → Interpretation S → Interpretation S × Result (Unit {0}))
      → Interpretation S
      → Interpretation S
  do_send_at name opts assign ip =
      if not (bytes_eq opts.send_id (codes ""))
      then report_send_error host opts.send_id
          (send_execution_error
            (codes "statecharts: send id and idlocation are mutually exclusive"))
          ip
      else let (ip', send_id) = generate_send_id host opts.send_id ip in
        after_location name opts send_id (assign send_id ip')

  -- What a session does until it returns.
  unfoldable pub perform : ExecContext → Activity S → Interpretation S → Interpretation S
  unfolding forbidden apply_effect do_send_at
  perform ec (returns s) ip = record ip { session = s }
  perform ec (acts e rest) ip = perform ec rest (apply_effect ec e ip)
  perform ec (sends_at name opts s location result rest) ip =
      let located =
        do_send_at name opts
          (λ send_id jp. let kp = perform ec (location send_id s) jp in (kp, result kp.session))
          (record ip { session = s }) in
      let after =
        if ec.in_finalize then forbidden (codes "send") (record ip { session = s }) else located in
      perform ec (rest after.session) after

  -- What a session's operation leaves behind.
  unfoldable pub settle :
      {A : Type 0} → ExecContext → Outcome S A → Interpretation S → Interpretation S × Result A
  unfolding perform
  settle ec out ip = let jp = perform ec out.activity ip in (jp, out.result jp.session)

  unfoldable pub evaluate_model_boolean :
      ExecContext → Expression → Interpretation S → Interpretation S × Result Bool
  evaluate_model_boolean ec e ip = settle ec (host.evaluate_boolean ec e ip.session) ip

  unfoldable pub evaluate_model_value :
      ExecContext → Expression → Interpretation S → Interpretation S × Result Value
  evaluate_model_value ec e ip = settle ec (host.evaluate_value ec e ip.session) ip

  unfoldable pub assign_model :
      ExecContext → Expression → Value → Interpretation S → Interpretation S × Result (Unit {0})
  assign_model ec location v ip = settle ec (host.assign ec location v ip.session) ip

  unfoldable pub execute_model :
      ExecContext → Expression → Interpretation S → Interpretation S × Result (Unit {0})
  execute_model ec e ip = settle ec (host.execute ec e ip.session) ip

  unfoldable pub value_string : Value → Bytes → Result Bytes
  unfolding as_string
  value_string v field = elim (as_string v) [
    | none ↦ err (
        plain_error (
          codes "statecharts: "
          ++ (field ++ (codes " expression returned " ++ (kind_name v ++ codes ", want string")))))
    | some s ↦ ok s
  ]

  unfoldable pub string_result :
      Bytes → Interpretation S × Result Value → Interpretation S × Result Bytes
  unfolding value_string
  string_result field (ip, err e) = (ip, err e)
  string_result field (ip, ok v) = (ip, value_string v field)

  unfoldable pub eval_string :
      ExecContext
      → Option Expression
      → Bytes
      → Bytes
      → Interpretation S
      → Interpretation S × Result Bytes
  eval_string ec none fallback field ip = (ip, ok fallback)
  eval_string ec (some e) fallback field ip = string_result field (evaluate_model_value ec e ip)

  -- The loop over the parameters of `evaluatePayload`.
  unfoldable pub evaluate_params :
      ExecContext
      → List (Identifier × Expression)
      → Fields
      → Interpretation S
      → Interpretation S × Result Fields
  evaluate_params ec [] fields ip = (ip, ok fields)
  evaluate_params ec ((name, e) ∷ ps) fields ip =
      let (ip', r) = evaluate_model_value ec e ip in
      elim r [ err x ↦ (ip', err x) | ok v ↦ evaluate_params ec ps (set_field name v fields) ip' ]

  unfoldable pub map_result : Interpretation S × Result Fields → Interpretation S × Result Value
  unfolding map_value
  map_result (ip, err e) = (ip, err e)
  map_result (ip, ok fields) = elim (map_value host.valid_utf8 fields) [
    | none ↦ (ip, err (plain_error (codes "statecharts: Value map key is not valid UTF-8")))
    | some v ↦ (ip, ok v)
  ]

  unfoldable pub evaluate_payload :
      ExecContext → Option Payload → Interpretation S → Interpretation S × Result Value
  evaluate_payload ec none ip = (ip, ok null)
  evaluate_payload ec (some (content e)) ip = evaluate_model_value ec e ip
  evaluate_payload ec (some (params [])) ip = (ip, ok null)
  evaluate_payload ec (some (params (p ∷ ps))) ip = map_result (evaluate_params ec (p ∷ ps) end ip)

  module _ (c : Chart) where
    -- The ID location that `executeOperation` gives to `doSend`: it assigns the send's ID.
    unfoldable pub assign_send_id :
        Expression → Identifier → Interpretation S → Interpretation S × Result (Unit {0})
    assign_send_id location send_id ip =
        assign_model (exec_context host c ip) location (string_or_null host.valid_utf8 send_id) ip

    -- `doSend`. The location is given as the expression that `executeOperation` assigns to.
    unfoldable pub do_send :
        Identifier → SendOptions → Option Expression → Interpretation S → Interpretation S
    unfolding do_send_at assign_send_id
    do_send name opts none ip = do_send_plain name opts ip
    do_send name opts (some location) ip = do_send_at name opts (assign_send_id location) ip
