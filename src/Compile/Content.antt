-- ===== src/Compile/Content.antt =====
-- compile.go: data declarations, payloads and executable content. `Program` is the datamodel's
-- compiled program, which resolves expressions to handles, with package time's `ParseDuration`.
use statecharts.Base.{ℕ, suc, not, if◌then◌else◌, List, [], ◌∷◌, Option, none, some, is_some}
use statecharts.Base.Bytes.{Bytes, codes}
use statecharts.Identifier.{Identifier, is_nil}
use statecharts.Chart.{
  Expression, Payload, content, params, DataItem, Delay, immediate, Operation, Block, done, action,
  Blocks, no_block, block, Branches, otherwise, branch,
}
use statecharts.Definition.{
  ExpressionDefinition, FunctionRef, ParamDefinition, DataDefinition, SendDefinition,
  ExecutableKind, Executable, executable, ChooseDefinition, no_choose, choose_of, ChooseBranches,
  no_branch, branch_of, ForEachDefinition, no_foreach, foreach_of, ExecutableBlock, end, then_do,
  ExecutableBlocks, no_blocks, blocks_of,
}
use statecharts.Definition.Checked.{
  Checked, pass, fail, at_path, panics, ◌>>=◌, ◌>>◌, reject, or_at, deref, indexed, below_path,
}

-- `DatamodelProgram`, as far as the compiler calls it.
pub record Program : Type 0 where
  pub resolve_expression : ExpressionDefinition → Option Expression
  pub resolve_function : FunctionRef → Option Expression
  pub resolve_data_location : Identifier → Option Expression
  pub fingerprint : Bytes
  pub parse_duration : Bytes → Option Delay

-- The first pointer that is not nil.
abbrev pub first_of {ℓ} : {A : Type ℓ} → Option A → Option A → Option A
first_of none b = b
first_of (some a) b = some a

module _ (p : Program) where
  -- `resolve`, with the path of the closure `add`.
  unfoldable pub resolve_optional :
      Option ExpressionDefinition → Bytes → Checked (Option Expression)
  resolve_optional none path = pass none
  resolve_optional (some e) path = do h ← or_at (p.resolve_expression e) path; pass (some h)

  unfoldable pub compile_initializer : DataDefinition → Bytes → Checked (Option Expression)
  unfolding resolve_optional
  compile_initializer d path =
      resolve_optional (first_of d.expr d.content)
        (below_path path (if is_some d.expr then codes ".expr" else codes ".content"))

  -- `compileData`, from the `i`-th declaration on.
  unfoldable pub compile_data : Bytes → ℕ → List DataDefinition → Checked (List DataItem)
  unfolding compile_initializer
  compile_data path i [] = pass []
  compile_data path i (d ∷ ds) = do
    reject (not (is_nil d.source)) (below_path (indexed path i) (codes ".source"))
    location ← or_at (p.resolve_data_location d.id) (below_path (indexed path i) (codes ".id"))
    init ← compile_initializer d (indexed path i)
    rest ← compile_data path (suc i) ds
    pass (record { location = location; initializer = init } ∷ rest)

  -- The loop of `compilePayload`, from the `i`-th parameter on.
  unfoldable pub compile_params :
      Bytes → ℕ → List ParamDefinition → Checked (List (Identifier × Expression))
  compile_params path i [] = pass []
  compile_params path i (v ∷ vs) = do
    e ← deref (first_of v.expr v.location)
    h ← or_at (p.resolve_expression e) (
        below_path (indexed (below_path path (codes ".params")) i)
          (if is_some v.expr then codes ".expr" else codes ".location"))
    rest ← compile_params path (suc i) vs
    pass ((v.name, h) ∷ rest)

  unfoldable pub compile_payload :
      Bytes → List ParamDefinition → Option ExpressionDefinition → Checked Payload
  unfolding compile_params
  compile_payload path vs (some e) = do
    h ← or_at (p.resolve_expression e) (below_path path (codes ".content"))
    pass (content h)
  compile_payload path vs none = do hs ← compile_params path 0 vs; pass (params hs)

  unfoldable pub compile_delay : Bytes → Bytes → Checked Delay
  compile_delay path spelling =
      if is_nil spelling
      then pass immediate
      else or_at (p.parse_duration spelling) (below_path path (codes ".send.delay"))

  -- The case `ExecutableSend` of `compileOperation`.
  unfoldable pub compile_send : Bytes → SendDefinition → Checked Operation
  unfolding compile_delay compile_payload resolve_optional
  compile_send path s = do
    event_expr ← resolve_optional s.event_expr (below_path path (codes ".send.eventExpr"))
    target_expr ← resolve_optional s.target_expr (below_path path (codes ".send.targetExpr"))
    type_expr ← resolve_optional s.type_expr (below_path path (codes ".send.typeExpr"))
    id_location ← resolve_optional s.id_location (below_path path (codes ".send.idLocation"))
    delay_expr ← resolve_optional s.delay_expr (below_path path (codes ".send.delayExpr"))
    delay ← compile_delay path s.delay
    payload ← compile_payload (below_path path (codes ".send")) s.params s.content
    pass (
        Operation.send (record {
          event = s.event;
          target = s.target;
          type = s.type;
          id = s.id;
          event_expr = event_expr;
          target_expr = target_expr;
          type_expr = type_expr;
          id_location = id_location;
          delay_expr = delay_expr;
          delay = delay;
          payload = some payload;
        }))

  unfoldable pub compile_index : Bytes → Identifier → Checked (Option Expression)
  compile_index path index = if is_nil index then pass none else (do
    h ← or_at (p.resolve_data_location index) (below_path path (codes ".foreach.index"))
    pass (some h))

  -- `compileOperation`, and `compileBlocks` with its two loops.
  unfoldable mutual
    pub compile_operation : Bytes → Executable → Checked Operation
    compile_operation path (executable ExecutableKind.script u c f) = do
      e ← deref u.script
      h ← or_at (p.resolve_expression e) (below_path path (codes ".script.expr"))
      pass (Operation.script h)
    compile_operation path (executable ExecutableKind.call u c f) = do
      e ← deref u.call
      h ← or_at (p.resolve_function e) (below_path path (codes ".call.function"))
      pass (Operation.call h)
    compile_operation path (executable ExecutableKind.raise u c f) = do
      r ← deref u.raise
      event_expr ← resolve_optional r.event_expr (below_path path (codes ".raise.eventExpr"))
      body ← resolve_optional r.body (below_path path (codes ".raise.data"))
      pass (Operation.raise event_expr r.event body)
    compile_operation path (executable ExecutableKind.cancel u c f) = do
      r ← deref u.cancel
      id_expr ← resolve_optional r.send_id_expr (below_path path (codes ".cancel.sendIDExpr"))
      pass (Operation.cancel id_expr r.send_id)
    compile_operation path (executable ExecutableKind.log u c f) = do
      r ← deref u.log
      label_expr ← resolve_optional r.label_expr (below_path path (codes ".log.labelExpr"))
      expr ← resolve_optional r.expr (below_path path (codes ".log.expr"))
      pass (Operation.log label_expr r.label expr)
    compile_operation path (executable ExecutableKind.assign u c f) = do
      r ← deref u.assign
      a ← or_at (p.resolve_expression r.location) (below_path path (codes ".assign.location"))
      b ← or_at (p.resolve_expression r.expr) (below_path path (codes ".assign.expr"))
      pass (Operation.assign a b)
    compile_operation path (executable ExecutableKind.choose u c f) = do
      branches ← compile_choose path c
      pass (Operation.choose branches)
    compile_operation path (executable ExecutableKind.foreach u c f) = compile_foreach path f
    compile_operation path (executable ExecutableKind.send u c f) = do
      s ← deref u.send
      compile_send path s
    compile_operation path (executable ExecutableKind.extension u c f) = do
      x ← deref u.extension
      fail (at_path (below_path path (codes ".extension")))
    compile_operation path (executable (ExecutableKind.unknown kind) u c f) =
        fail (at_path (below_path path (codes ".kind")))

    pub compile_choose : Bytes → ChooseDefinition → Checked Branches
    compile_choose path no_choose = fail panics
    compile_choose path (choose_of branches els) =
        compile_branches path 0 branches
          (compile_blocks (below_path path (codes ".choose.else")) 0 els)

    -- The last argument is the compilation of the else blocks, which the last step runs.
    pub compile_branches : Bytes → ℕ → ChooseBranches → Checked Blocks → Checked Branches
    compile_branches path i no_branch els = do x ← els; pass (otherwise x)
    compile_branches path i (branch_of condition actions rest) els = do
      let branch_path = indexed (below_path path (codes ".choose.branches")) i
      h ← or_at (p.resolve_expression condition) (below_path branch_path (codes ".condition"))
      x ← compile_blocks (below_path branch_path (codes ".actions")) 0 actions
      later ← compile_branches path (suc i) rest els
      pass (branch h x later)

    pub compile_foreach : Bytes → ForEachDefinition → Checked Operation
    compile_foreach path no_foreach = fail panics
    compile_foreach path (foreach_of array item index actions) = do
      h ← or_at (p.resolve_expression array) (below_path path (codes ".foreach.array"))
      i ← or_at (p.resolve_data_location item) (below_path path (codes ".foreach.item"))
      j ← compile_index path index
      x ← compile_blocks (below_path path (codes ".foreach.actions")) 0 actions
      pass (Operation.foreach h (record { item = i; index = j }) x)

    pub compile_block : Bytes → ℕ → ExecutableBlock → Checked Block
    compile_block path j end = pass done
    compile_block path j (then_do e rest) = do
      o ← compile_operation (indexed path j) e
      later ← compile_block path (suc j) rest
      pass (action o later)

    pub compile_blocks : Bytes → ℕ → ExecutableBlocks → Checked Blocks
    compile_blocks path i no_blocks = pass no_block
    compile_blocks path i (blocks_of b bs) = do
      x ← compile_block (indexed path i) 0 b
      rest ← compile_blocks path (suc i) bs
      pass (block x rest)
