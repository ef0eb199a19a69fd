-- ===== src/Validate/Content.antt =====
-- definition_validate.go: executable content.
use statecharts.Base.{ℕ, suc, ◌+◌, Bool, true, false, not, ◌&&◌, Option, none, some, is_some, ◌==◌}
use statecharts.Base.Bytes.{Bytes, codes, bytes_eq}
use statecharts.Identifier.{Identifier, is_nil}
use statecharts.Definition.{
  Payloads, ExecutableKind, Executable, executable, ChooseDefinition, no_choose, choose_of,
  ChooseBranches, no_branch, branch_of, ForEachDefinition, no_foreach, foreach_of, ExecutableBlock,
  end, then_do, ExecutableBlocks, no_blocks, blocks_of,
}
use statecharts.Definition.Checked.{
  Checked, pass, fail, at_path, ◌>>◌, reject, indexed, below_path, whenever,
}
use statecharts.Validate.Expressions.{
  validate_plain_identifier, validate_expression, validate_function_ref, validate_raise,
  validate_send, validate_cancel, validate_log, validate_extension,
}

abbrev pub count_if : Bool → ℕ
count_if true = 1
count_if false = 0

abbrev pub has_choose : ChooseDefinition → Bool
has_choose no_choose = false
has_choose (choose_of bs e) = true

abbrev pub has_foreach : ForEachDefinition → Bool
has_foreach no_foreach = false
has_foreach (foreach_of a i k bs) = true

-- The number of payloads that are present.
unfoldable pub payload_count : Payloads → ChooseDefinition → ForEachDefinition → ℕ
payload_count u c f =
    count_if (is_some u.raise)
    + count_if (is_some u.send)
    + count_if (is_some u.cancel)
    + count_if (is_some u.log)
    + count_if (is_some u.assign)
    + count_if (has_choose c)
    + count_if (has_foreach f)
    + count_if (is_some u.script)
    + count_if (is_some u.call)
    + count_if (is_some u.extension)

-- The kinds that invoke finalize content may not have.
abbrev pub leaves_finalize : ExecutableKind → Bool
leaves_finalize ExecutableKind.raise = true
leaves_finalize ExecutableKind.send = true
leaves_finalize ExecutableKind.cancel = true
leaves_finalize _ = false

-- A payload that the kind calls for.
abbrev pub required {ℓ} :
    {A : Type ℓ} → Option A → Bytes → (A → Checked (Unit {0})) → Checked (Unit {0})
required none path f = fail (at_path path)
required (some a) path f = f a

abbrev pub is_end : ExecutableBlock → Bool
is_end end = true
is_end (then_do e rest) = false

abbrev pub is_no_branch : ChooseBranches → Bool
is_no_branch no_branch = true
is_no_branch (branch_of c bs rest) = false

unfoldable pub validate_bindings : Identifier → Identifier → Bytes → Checked (Unit {0})
unfolding validate_plain_identifier
validate_bindings item index path = do
  validate_plain_identifier item (below_path path (codes ".foreach.item"))
  whenever (not (is_nil index)) (do
    validate_plain_identifier index (below_path path (codes ".foreach.index"))
    reject (bytes_eq index item) (below_path path (codes ".foreach.index")))

module _ (valid_utf8 : Bytes → Bool) (finalize : Bool) where
  -- The cases of `validateExecutable` that hold no other executables.
  unfoldable pub validate_plain : ExecutableKind → Payloads → Bytes → Checked (Unit {0})
  unfolding validate_raise validate_send validate_cancel validate_log validate_expression
  validate_plain ExecutableKind.raise u path =
      required u.raise path (λ r. validate_raise valid_utf8 r (below_path path (codes ".raise")))
  validate_plain ExecutableKind.send u path =
      required u.send path (λ s. validate_send valid_utf8 s (below_path path (codes ".send")))
  validate_plain ExecutableKind.cancel u path =
      required u.cancel path (λ c. validate_cancel valid_utf8 c (below_path path (codes ".cancel")))
  validate_plain ExecutableKind.log u path =
      required u.log path (λ l. validate_log valid_utf8 l (below_path path (codes ".log")))
  validate_plain ExecutableKind.assign u path = required u.assign path (λ a.
      validate_expression valid_utf8 a.location (below_path path (codes ".assign.location"))
      >> validate_expression valid_utf8 a.expr (below_path path (codes ".assign.expr")))
  validate_plain ExecutableKind.script u path =
      required u.script path
        (λ e. validate_expression valid_utf8 e (below_path path (codes ".script.expr")))
  validate_plain ExecutableKind.call u path =
      required u.call path
        (λ f. validate_function_ref valid_utf8 f (below_path path (codes ".call.function")))
  validate_plain ExecutableKind.extension u path =
      required u.extension path
        (λ x. validate_extension valid_utf8 x (below_path path (codes ".extension")))
  validate_plain kind u path = fail (at_path (below_path path (codes ".kind")))

  -- The switch of `validateExecutable`, with what its cases `choose` and `foreach` return.
  unfoldable pub validate_kind :
      ExecutableKind
      → Payloads
      → Checked (Unit {0})
      → Checked (Unit {0})
      → Bytes
      → Checked (Unit {0})
  unfolding validate_plain
  validate_kind ExecutableKind.choose u choose foreach path = choose
  validate_kind ExecutableKind.foreach u choose foreach path = foreach
  validate_kind kind u choose foreach path = validate_plain kind u path

  -- `validateExecutable`, and `validateBlocks` with its two loops.
  unfoldable mutual
    unfolding validate_kind validate_expression validate_bindings payload_count

    pub validate_executable : Executable → Bytes → Checked (Unit {0})
    validate_executable (executable kind u c f) path = do
      reject (not (payload_count u c f == 1)) path
      reject (finalize && leaves_finalize kind) path
      validate_kind kind u (validate_choose c path) (validate_foreach f path) path

    pub validate_choose : ChooseDefinition → Bytes → Checked (Unit {0})
    validate_choose no_choose path = fail (at_path path)
    validate_choose (choose_of branches els) path = do
      reject (is_no_branch branches) (below_path path (codes ".choose.branches"))
      validate_branches 0 branches path
      validate_blocks_from 0 els (below_path path (codes ".choose.else"))

    pub validate_branches : ℕ → ChooseBranches → Bytes → Checked (Unit {0})
    validate_branches i no_branch path = pass tt
    validate_branches i (branch_of condition actions rest) path = do
      let branch_path = indexed (below_path path (codes ".choose.branches")) i
      validate_expression valid_utf8 condition (below_path branch_path (codes ".condition"))
      validate_blocks_from 0 actions (below_path branch_path (codes ".actions"))
      validate_branches (suc i) rest path

    pub validate_foreach : ForEachDefinition → Bytes → Checked (Unit {0})
    validate_foreach no_foreach path = fail (at_path path)
    validate_foreach (foreach_of array item index actions) path = do
      validate_expression valid_utf8 array (below_path path (codes ".foreach.array"))
      validate_bindings item index path
      validate_blocks_from 0 actions (below_path path (codes ".foreach.actions"))

    pub validate_block : ℕ → ExecutableBlock → Bytes → Checked (Unit {0})
    validate_block j end path = pass tt
    validate_block j (then_do e rest) path = do
      validate_executable e (indexed path j)
      validate_block (suc j) rest path

    pub validate_blocks_from : ℕ → ExecutableBlocks → Bytes → Checked (Unit {0})
    validate_blocks_from i no_blocks path = pass tt
    validate_blocks_from i (blocks_of b bs) path = do
      reject (is_end b) (indexed path i)
      validate_block 0 b (indexed path i)
      validate_blocks_from (suc i) bs path

  unfoldable pub validate_blocks : ExecutableBlocks → Bytes → Checked (Unit {0})
  unfolding validate_blocks_from
  validate_blocks bs path = validate_blocks_from 0 bs path
