-- ===== src/Interpreter/Execute.antt =====
-- interpreter.go: executable content. `runNested` and `runActionsWithContext` are
-- `run_blocks` and `run_block`.
use statecharts.Base.{Bool, true, false, List, [], ◌∷◌, Option, none, some}
use statecharts.Base.Bytes.{codes}
use statecharts.Value.{Value, null}
use statecharts.Event.{Error, internal, event_of}
use statecharts.Chart.{
  Chart, Expression, Operation, script, call, assign, raise, cancel, log, choose, foreach, send,
  SendOperation, Block, done, action, Blocks, no_block, block, Branches, otherwise, branch,
  DataItem, Delay,
}
use statecharts.Session.{Host, ExecContext, Result, ok, err, Iteration, finished, visit}
use statecharts.Interpreter.{Interpretation, enqueue_internal, report_error, exec_context}
use statecharts.Interpreter.Send.{do_cancel}
use statecharts.Interpreter.Model.{
  do_log, do_send, perform, evaluate_model_boolean, evaluate_model_value, assign_model,
  execute_model, eval_string, evaluate_payload,
}

abbrev pub error_of : {A : Type 0} → Result A → Option Error
error_of (ok a) = none
error_of (err e) = some e

-- The interpreter after an action, and the action's error.
abbrev pub Step : Type 0 → Type 0
Step S = Interpretation S × Option Error

-- The rest of an action after a part of it that may fail.
unfoldable pub and_then :
    {S A : Type 0} → Interpretation S × Result A → (A → Interpretation S → Step S) → Step S
and_then (ip, err e) k = (ip, some e)
and_then (ip, ok a) k = k a ip

unfoldable pub ending : {S A : Type 0} → Interpretation S × Result A → Step S
ending (ip, r) = (ip, error_of r)

module _ {S : Type 0} (host : Host S) where
  -- `forEachModel`, over the session's run of `ForEach`.
  unfoldable pub run_iteration :
      ExecContext → (Interpretation S → Interpretation S) → Iteration S → Interpretation S → Step S
  run_iteration ec body (finished activity error) ip =
      let jp = perform host ec activity ip in (jp, error jp.session)
  run_iteration ec body (visit activity resume) ip =
      let ip' = body (perform host ec activity ip) in run_iteration ec body (resume ip'.session) ip'

  -- The rest of a block after an action: an error is reported and ends the block.
  unfoldable pub continue_block : Step S → (Interpretation S → Interpretation S) → Interpretation S
  continue_block (ip, none) rest = rest ip
  continue_block (ip, some e) rest = report_error host e ip

  -- A condition of `<if>` that was evaluated: its body, or the branches after it.
  unfoldable pub choose_branch :
      Interpretation S × Result Bool
      → (Interpretation S → Interpretation S)
      → (Interpretation S → Step S)
      → Step S
  choose_branch (ip, err e) body rest = (ip, some e)
  choose_branch (ip, ok true) body rest = (body ip, none)
  choose_branch (ip, ok false) body rest = rest ip

  -- A value expression that may be left out: null.
  unfoldable pub optional_value :
      ExecContext → Option Expression → Interpretation S → Interpretation S × Result Value
  optional_value ec none ip = (ip, ok null)
  optional_value ec (some e) ip = evaluate_model_value host ec e ip

  -- The delay of a `<send>`: the static one, or what the delay expression spells.
  unfoldable pub send_delay :
      ExecContext → SendOperation → Interpretation S → Interpretation S × Result Delay
  send_delay ec o ip = elim o.delay_expr [
    | none ↦ (ip, ok o.delay)
    | some e ↦
        let (ip', r) = eval_string host ec (some e) (codes "") (codes "send delay") ip in
        elim r [ err x ↦ (ip', err x) | ok s ↦ (ip', host.parse_duration s) ]
  ]

  module _ (c : Chart) where
    -- The case `ExecutableSend` of `executeOperation`.
    unfoldable pub execute_send : ExecContext → SendOperation → Interpretation S → Step S
    execute_send ec o ip =
        and_then (eval_string host ec o.event_expr o.event (codes "send event") ip) λ name ip1.
          and_then (eval_string host ec o.target_expr o.target (codes "send target") ip1)
            λ target ip2.
              and_then (eval_string host ec o.type_expr o.type (codes "send type") ip2) λ typ ip3.
                and_then (send_delay ec o ip3) λ delay ip4.
                  and_then (evaluate_payload host ec o.payload ip4) λ value ip5. (
                    do_send host c name
                        (record {
                          send_id = o.id;
                          target = target;
                          type = typ;
                          payload = value;
                          delay = delay;
                        })
                        o.id_location ip5,
                    none,
                  )

    unfoldable mutual
      pub execute_operation : ExecContext → Operation → Interpretation S → Step S
      execute_operation ec (script e) ip = ending (execute_model host ec e ip)
      execute_operation ec (call e) ip = ending (execute_model host ec e ip)
      execute_operation ec (assign location e) ip =
          and_then (evaluate_model_value host ec e ip)
            λ v ip1. ending (assign_model host ec location v ip1)
      execute_operation ec (raise event_expr event value_expr) ip =
          and_then (eval_string host ec event_expr event (codes "raise event") ip) λ name ip1.
            and_then (optional_value ec value_expr ip1)
              λ v ip2. (enqueue_internal (event_of name internal v) ip2, none)
      execute_operation ec (cancel id_expr id) ip =
          and_then (eval_string host ec id_expr id (codes "cancel send ID") ip)
            λ send_id ip1. (do_cancel send_id ip1, none)
      execute_operation ec (log label_expr label value_expr) ip =
          and_then (eval_string host ec label_expr label (codes "log label") ip)
            λ l ip1. and_then (optional_value ec value_expr ip1) λ v ip2. (do_log l v ip2, none)
      execute_operation ec (choose branches) ip = run_branches ec branches ip
      execute_operation ec (foreach e bindings body) ip =
          run_iteration ec (run_blocks ec body) (host.for_each ec e bindings ip.session) ip
      execute_operation ec (send o) ip = execute_send ec o ip

      -- The loop over the conditions of `<if>`, then its else blocks.
      pub run_branches : ExecContext → Branches → Interpretation S → Step S
      run_branches ec (otherwise body) ip = (run_blocks ec body ip, none)
      run_branches ec (branch condition body rest) ip =
          choose_branch (evaluate_model_boolean host ec condition ip) (run_blocks ec body)
            (run_branches ec rest)

      pub run_block : ExecContext → Block → Interpretation S → Interpretation S
      run_block ec done ip = ip
      run_block ec (action o rest) ip =
          continue_block (execute_operation ec o ip) (run_block ec rest)

      pub run_blocks : ExecContext → Blocks → Interpretation S → Interpretation S
      run_blocks ec no_block ip = ip
      run_blocks ec (block b rest) ip = run_blocks ec rest (run_block ec b ip)

    -- `runActionBlocks`: each block has a context of its own.
    unfoldable pub run_action_blocks : Blocks → Interpretation S → Interpretation S
    run_action_blocks no_block ip = ip
    run_action_blocks (block b rest) ip =
        run_action_blocks rest (run_block (exec_context host c ip) b ip)

    -- `runFinalizeBlocks` in the context of `finalizeExecContext`.
    unfoldable pub run_finalize_blocks : Blocks → Interpretation S → Interpretation S
    run_finalize_blocks blocks ip =
        let ec = exec_context host c ip in run_blocks (record ec { in_finalize = true }) blocks ip

    unfoldable pub report_if : Step S → Interpretation S
    report_if (ip, none) = ip
    report_if (ip, some e) = report_error host e ip

    -- The loop of `initializeData`.
    unfoldable pub initialize_items :
        ExecContext → List DataItem → Interpretation S → Interpretation S
    initialize_items ec [] ip = ip
    initialize_items ec (d ∷ ds) ip = initialize_items ec ds (
        report_if (
          and_then (optional_value ec d.initializer ip)
            λ v ip1. ending (assign_model host ec d.location v ip1)))

    unfoldable pub initialize_data : List DataItem → Interpretation S → Interpretation S
    initialize_data ds ip = initialize_items (exec_context host c ip) ds ip
