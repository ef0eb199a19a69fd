-- ===== src/Validate/Expressions.antt =====
-- definition_validate.go: identifiers, expressions, parameters and the executables that hold no
-- others. `utf8.ValidString` is the parameter `valid_utf8`.
use statecharts.Base.{
  ℕ, suc, Bool, false, not, ◌&&◌, ◌||◌, if◌then◌else◌, List, [], ◌∷◌, Option, none, some, is_some,
  is_empty, any,
}
use statecharts.Base.Bytes.{Bytes, codes, bytes_eq, has_prefix}
use statecharts.Identifier.{Identifier, is_nil, new_identifier}
use statecharts.Value.{Value}
use statecharts.Value.Wire.{to_wire}
use statecharts.Definition.{
  ExpressionDefinition, FunctionRef, ParamDefinition, RaiseDefinition, SendDefinition,
  CancelDefinition, LogDefinition, ExtensionDefinition,
}
use statecharts.Definition.Checked.{
  Checked, pass, ◌>>◌, reject, indexed, below_path, if_some, whenever,
}

-- `strings.HasSuffix`
unfoldable pub has_suffix : Bytes → Bytes → Bool
has_suffix suffix [] = is_nil suffix
has_suffix suffix (c ∷ cs) = bytes_eq (c ∷ cs) suffix || has_suffix suffix cs

-- Whether `validatePlainIdentifier` accepts the identifier.
unfoldable pub plain_identifier : Identifier → Bool
unfolding new_identifier has_suffix
plain_identifier id =
    new_identifier id
    && not (
        has_prefix (codes "#") id
        || bytes_eq id (codes "*")
        || has_suffix (codes ".") id
        || has_suffix (codes ".*") id)

-- `validatePlainIdentifier`, with the path that its caller puts on the error.
unfoldable pub validate_plain_identifier : Identifier → Bytes → Checked (Unit {0})
unfolding plain_identifier
validate_plain_identifier id path = reject (not (plain_identifier id)) path

-- Both are left out, or both are given.
abbrev pub not_one_of {ℓ} : {A : Type ℓ} → Bytes → Option A → Bool
not_one_of s none = is_nil s
not_one_of s (some a) = not (is_nil s)

-- Both are given.
abbrev pub both_given {ℓ} : {A : Type ℓ} → Bytes → Option A → Bool
both_given s none = false
both_given s (some a) = not (is_nil s)

abbrev pub is_named : Identifier → List Identifier → Bool
is_named id seen = any (λ other. bytes_eq id other) seen

module _ (valid_utf8 : Bytes → Bool) where
  -- `validateUTF8`, with the path that its caller puts on the error.
  unfoldable pub validate_utf8 : Bytes → Bytes → Checked (Unit {0})
  validate_utf8 s path = reject (not (valid_utf8 s)) path

  -- `MarshalBinary` fails exactly when `Wire` does: a wire form is always encoded.
  unfoldable pub validate_value : Value → Bytes → Checked (Unit {0})
  validate_value v path = reject (not (is_some (to_wire valid_utf8 v))) path

  unfoldable pub validate_expression : ExpressionDefinition → Bytes → Checked (Unit {0})
  unfolding validate_plain_identifier validate_value
  validate_expression e path = do
    validate_plain_identifier e.kind (below_path path (codes ".kind"))
    validate_value e.body (below_path path (codes ".data"))

  unfoldable pub validate_optional : Option ExpressionDefinition → Bytes → Checked (Unit {0})
  unfolding validate_expression
  validate_optional e path = if_some e (λ x. validate_expression x path)

  -- The loop of `validateParams`, from the `i`-th parameter on.
  unfoldable pub validate_params_from :
      List Identifier → ℕ → List ParamDefinition → Bytes → Checked (Unit {0})
  unfolding validate_plain_identifier validate_optional
  validate_params_from seen i [] path = pass tt
  validate_params_from seen i (v ∷ vs) path = do
    let param_path = indexed path i
    validate_plain_identifier v.name (below_path param_path (codes ".name"))
    reject (is_named v.name seen) (below_path param_path (codes ".name"))
    reject (if is_some v.expr then is_some v.location else not (is_some v.location)) param_path
    validate_optional v.expr (below_path param_path (codes ".expr"))
    validate_optional v.location (below_path param_path (codes ".location"))
    validate_params_from (v.name ∷ seen) (suc i) vs path

  unfoldable pub validate_params : List ParamDefinition → Bytes → Checked (Unit {0})
  unfolding validate_params_from
  validate_params vs path = validate_params_from [] 0 vs path

  -- The loop of `validateFunctionRef`.
  unfoldable pub validate_args : ℕ → List ExpressionDefinition → Bytes → Checked (Unit {0})
  unfolding validate_expression
  validate_args i [] path = pass tt
  validate_args i (e ∷ es) path = do
    validate_expression e (indexed (below_path path (codes ".args")) i)
    validate_args (suc i) es path

  unfoldable pub validate_function_ref : FunctionRef → Bytes → Checked (Unit {0})
  unfolding validate_plain_identifier validate_utf8 validate_args
  validate_function_ref f path = do
    validate_plain_identifier f.name (below_path path (codes ".name"))
    reject (is_nil f.version) (below_path path (codes ".version"))
    validate_utf8 f.version (below_path path (codes ".version"))
    validate_args 0 f.args path

  -- `if id != "" { validatePlainIdentifier(id) }`
  unfoldable pub validate_if_given : Identifier → Bytes → Checked (Unit {0})
  unfolding validate_plain_identifier
  validate_if_given id path = whenever (not (is_nil id)) (validate_plain_identifier id path)

  -- A field that is a string or an expression, not both.
  unfoldable pub validate_either :
      Bytes → Option ExpressionDefinition → Bytes → Bytes → Checked (Unit {0})
  unfolding validate_utf8 validate_optional
  validate_either s e string_path expr_path = do
    reject (both_given s e) expr_path
    validate_utf8 s string_path
    validate_optional e expr_path

  -- Parameters or one content expression, not both: `validateDoneData`, and parts of `validateSend`
  -- and `validateInvoke`.
  unfoldable pub validate_payload :
      List ParamDefinition → Option ExpressionDefinition → Bytes → Checked (Unit {0})
  unfolding validate_params validate_optional
  validate_payload vs e path = do
    reject (not (is_empty vs) && is_some e) (below_path path (codes ".content"))
    validate_params vs (below_path path (codes ".params"))
    validate_optional e (below_path path (codes ".content"))

  unfoldable pub validate_raise : RaiseDefinition → Bytes → Checked (Unit {0})
  unfolding validate_if_given validate_optional
  validate_raise r path = do
    reject (not_one_of r.event r.event_expr) path
    validate_if_given r.event (below_path path (codes ".event"))
    validate_optional r.event_expr (below_path path (codes ".eventExpr"))
    validate_optional r.body (below_path path (codes ".data"))

  unfoldable pub validate_send : SendDefinition → Bytes → Checked (Unit {0})
  unfolding validate_if_given validate_optional validate_either validate_payload
  validate_send s path = do
    reject (not_one_of s.event s.event_expr) path
    validate_if_given s.event (below_path path (codes ".event"))
    validate_optional s.event_expr (below_path path (codes ".eventExpr"))
    validate_either s.target s.target_expr (below_path path (codes ".target"))
        (below_path path (codes ".targetExpr"))
    validate_either s.type s.type_expr (below_path path (codes ".type"))
        (below_path path (codes ".typeExpr"))
    reject (both_given s.id s.id_location) (below_path path (codes ".idLocation"))
    validate_if_given s.id (below_path path (codes ".id"))
    validate_optional s.id_location (below_path path (codes ".idLocation"))
    validate_either s.delay s.delay_expr (below_path path (codes ".delay"))
        (below_path path (codes ".delayExpr"))
    validate_payload s.params s.content path

  unfoldable pub validate_cancel : CancelDefinition → Bytes → Checked (Unit {0})
  unfolding validate_if_given validate_optional
  validate_cancel c path = do
    reject (not_one_of c.send_id c.send_id_expr) path
    validate_if_given c.send_id (below_path path (codes ".sendID"))
    validate_optional c.send_id_expr (below_path path (codes ".sendIDExpr"))

  unfoldable pub validate_log : LogDefinition → Bytes → Checked (Unit {0})
  unfolding validate_either validate_optional
  validate_log l path = do
    validate_either l.label l.label_expr (below_path path (codes ".label"))
        (below_path path (codes ".labelExpr"))
    validate_optional l.expr (below_path path (codes ".expr"))

  unfoldable pub validate_extension : ExtensionDefinition → Bytes → Checked (Unit {0})
  unfolding validate_utf8 validate_value
  validate_extension x path = do
    reject (is_nil x.namespace) (below_path path (codes ".namespace"))
    validate_utf8 x.namespace (below_path path (codes ".namespace"))
    reject (is_nil x.name) (below_path path (codes ".name"))
    validate_utf8 x.name (below_path path (codes ".name"))
    validate_value x.body (below_path path (codes ".data"))
