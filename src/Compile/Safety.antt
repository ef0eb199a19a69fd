-- ===== src/Compile/Safety.antt =====
-- compile.go and definition_validate.go: the compiler dereferences no nil pointer of a definition
-- that has been validated.
use statecharts.Base.{
  ℕ, suc, ◌≡◌, refl, ap, Bool, true, false, not, ◌&&◌, if◌then◌else◌, is_empty, List, [], ◌∷◌,
  Option, none, some, is_some, inl, inr, Option-cases,
}
use statecharts.Base.Bytes.{Bytes, codes}
use statecharts.Definition.{ExpressionDefinition, ParamDefinition, DataDefinition}
use statecharts.Definition.Checked.{
  Fault, at_path, panics, Checked, pass, fail, ◌>>=◌, reject, or_at, >>=-eq-pass, indexed,
  below_path,
}
use statecharts.Identifier.{Identifier, is_nil}
use statecharts.Validate.Expressions.{
  validate_plain_identifier, validate_optional, is_named, validate_params_from, validate_params,
  validate_payload,
}
use statecharts.Compile.Content.{
  Program, first_of, resolve_optional, compile_initializer, compile_data, compile_params,
  compile_payload,
}

abbrev pub panicked {ℓ} : {A : Type ℓ} → Checked A → Bool
panicked (pass a) = false
panicked (fail panics) = true
panicked (fail e) = false

-- Nothing was nil that the code dereferenced.
abbrev pub Safe {ℓ} : {A : Type ℓ} → Checked A → Type 0
Safe m = panicked m ≡ false

pub >>=-Safe {ℓ κ} :
    {A : Type ℓ} {B : Type κ} (m : Checked A) (f : A → Checked B)
    → Safe m
    → ((a : A) → m ≡ pass a → Safe (f a))
    → Safe (m >>= f)
>>=-Safe (pass a) f h g = g a refl
>>=-Safe (fail panics) f h g = cc
>>=-Safe (fail (at_path p)) f h g = refl
>>=-Safe (fail Fault.without_path) f h g = refl

pub or_at-Safe {ℓ} : {A : Type ℓ} (o : Option A) (path : Bytes) → Safe (or_at o path)
or_at-Safe none path = refl
or_at-Safe (some a) path = refl

pub reject-Safe : (b : Bool) (path : Bytes) → Safe (reject b path)
reject-Safe true path = refl
reject-Safe false path = refl

-- A parameter with an expression or a location.
abbrev pub HasSource : ParamDefinition → Type 0
HasSource v = is_some (first_of v.expr v.location) ≡ true

abbrev pub AllSources : List ParamDefinition → Type 0
AllSources [] = Unit
AllSources (v ∷ vs) = HasSource v × AllSources vs

module _ (valid_utf8 : Bytes → Bool) where
  source_of :
      (e l : Option ExpressionDefinition) (path : Bytes) (u : Unit {0})
      → reject (if is_some e then is_some l else not (is_some l)) path ≡ pass u
      → is_some (first_of e l) ≡ true
  source_of none none path u h = cc
  source_of none (some l) path u h = refl
  source_of (some e) l path u h = refl

  validate_params_from-sources :
      (seen : List Identifier) (i : ℕ) (vs : List ParamDefinition) (path : Bytes) (u : Unit {0})
      → validate_params_from valid_utf8 seen i vs path ≡ pass u
      → AllSources vs
  unfolding validate_params_from
  validate_params_from-sources seen i [] path u h = tt
  validate_params_from-sources seen i (v ∷ vs) path u h =
      let at = indexed path i in
      let (a, ha, e1) =
        >>=-eq-pass (validate_plain_identifier v.name (below_path at (codes ".name"))) _ h in
      let (b, hb, e2) =
        >>=-eq-pass (reject (is_named v.name seen) (below_path at (codes ".name"))) _ e1 in
      let (c, hc, e3) =
        >>=-eq-pass
          (reject (if is_some v.expr then is_some v.location else not (is_some v.location)) at) _
          e2 in
      let (d, hd, e4) =
        >>=-eq-pass (validate_optional valid_utf8 v.expr (below_path at (codes ".expr"))) _ e3 in
      let (f, hf, e5) =
        >>=-eq-pass (validate_optional valid_utf8 v.location (below_path at (codes ".location"))) _
          e4 in
      (
        source_of v.expr v.location at c hc,
        validate_params_from-sources (v.name ∷ seen) (suc i) vs path u e5,
      )

  pub validate_payload-sources :
      (vs : List ParamDefinition) (e : Option ExpressionDefinition) (path : Bytes) (u : Unit {0})
      → validate_payload valid_utf8 vs e path ≡ pass u
      → AllSources vs
  unfolding validate_payload validate_params
  validate_payload-sources vs e path u h =
      let (a, ha, e1) =
        >>=-eq-pass (reject (not (is_empty vs) && is_some e) (below_path path (codes ".content"))) _
          h in
      let (b, hb, e2) =
        >>=-eq-pass (validate_params_from valid_utf8 [] 0 vs (below_path path (codes ".params"))) _
          e1 in
      validate_params_from-sources [] 0 vs (below_path path (codes ".params")) b hb

module _ (p : Program) where
  pub resolve_optional-Safe :
      (o : Option ExpressionDefinition) (path : Bytes) → Safe (resolve_optional p o path)
  unfolding resolve_optional
  resolve_optional-Safe none path = refl
  resolve_optional-Safe (some e) path =
      >>=-Safe (or_at (p.resolve_expression e) path) _ (or_at-Safe (p.resolve_expression e) path)
        (λ a h. refl)

  pub compile_data-Safe :
      (path : Bytes) (i : ℕ) (ds : List DataDefinition) → Safe (compile_data p path i ds)
  unfolding compile_data compile_initializer
  compile_data-Safe path i [] = refl
  compile_data-Safe path i (d ∷ ds) =
      >>=-Safe (reject (not (is_nil d.source)) _) _ (reject-Safe (not (is_nil d.source)) _) (λ a ha.
        >>=-Safe (or_at (p.resolve_data_location d.id) _) _
          (or_at-Safe (p.resolve_data_location d.id) _)
          (λ b hb.
            >>=-Safe (resolve_optional p (first_of d.expr d.content) _) _
              (resolve_optional-Safe (first_of d.expr d.content) _)
              (λ c hc.
                >>=-Safe (compile_data p path (suc i) ds) _ (compile_data-Safe path (suc i) ds)
                  (λ e he. refl))))

  compile_params-Safe :
      (path : Bytes) (i : ℕ) (vs : List ParamDefinition)
      → AllSources vs
      → Safe (compile_params p path i vs)
  unfolding compile_params
  compile_params-Safe path i [] h = refl
  compile_params-Safe path i (v ∷ vs) h = elim (Option-cases (first_of v.expr v.location)) [
    | inl q ↦ let source = h.0 in cc (ap is_some q)
    | inr (e, q) ↦ rw q (
        >>=-Safe (or_at (p.resolve_expression e) _) _ (or_at-Safe (p.resolve_expression e) _)
          (λ a ha.
            >>=-Safe (compile_params p path (suc i) vs) _ (compile_params-Safe path (suc i) vs h.1)
              (λ b hb. refl)))
  ]

  pub compile_payload-Safe :
      (path : Bytes) (vs : List ParamDefinition) (e : Option ExpressionDefinition)
      → AllSources vs
      → Safe (compile_payload p path vs e)
  unfolding compile_payload
  compile_payload-Safe path vs (some e) h =
      >>=-Safe (or_at (p.resolve_expression e) _) _ (or_at-Safe (p.resolve_expression e) _)
        (λ a ha. refl)
  compile_payload-Safe path vs none h =
      >>=-Safe (compile_params p path 0 vs) _ (compile_params-Safe path 0 vs h) (λ a ha. refl)
