-- ===== src/Compile/SafeSend.antt =====
-- compile.go and definition_validate.go: sends that have been validated are compiled without
-- dereferencing a nil pointer.
use statecharts.Base.{◌≡◌, refl, Bool, Option, none, some, inl, inr, Bool-cases}
use statecharts.Base.Bytes.{Bytes, codes}
use statecharts.Definition.{SendDefinition}
use statecharts.Definition.Checked.{Checked, pass, reject, or_at, >>=-eq-pass, below_path}
use statecharts.Identifier.{Identifier, is_nil}
use statecharts.Validate.Expressions.{
  validate_optional, validate_if_given, validate_either, not_one_of, both_given, validate_send,
}
use statecharts.Validate.Content.{required}
use statecharts.Compile.Content.{
  Program, resolve_optional, compile_payload, compile_delay, compile_send, compile_index,
}
use statecharts.Compile.Safety.{
  Safe, >>=-Safe, or_at-Safe, AllSources, validate_payload-sources, resolve_optional-Safe,
  compile_payload-Safe,
}

pub required-eq-pass {ℓ} :
    {A : Type ℓ} (o : Option A) (path : Bytes) (f : A → Checked (Unit {0})) {u : Unit {0}}
    → required o path f ≡ pass u
    → (a : A) × (o ≡ some a) × (f a ≡ pass u)
required-eq-pass none path f h = cc
required-eq-pass (some a) path f h = (a, refl, h)

module _ (valid_utf8 : Bytes → Bool) where
  pub validate_send-sources :
      (s : SendDefinition) (path : Bytes) (u : Unit {0})
      → validate_send valid_utf8 s path ≡ pass u
      → AllSources s.params
  unfolding validate_send
  validate_send-sources s path u h =
      let (a, ha, e1) = >>=-eq-pass (reject (not_one_of s.event s.event_expr) path) _ h in
      let (b, hb, e2) =
        >>=-eq-pass (validate_if_given valid_utf8 s.event (below_path path (codes ".event"))) _
          e1 in
      let (c, hc, e3) =
        >>=-eq-pass
          (validate_optional valid_utf8 s.event_expr (below_path path (codes ".eventExpr"))) _ e2 in
      let (d, hd, e4) =
        >>=-eq-pass
          (validate_either valid_utf8 s.target s.target_expr (below_path path (codes ".target"))
            (below_path path (codes ".targetExpr")))
          _ e3 in
      let (e, he, e5) =
        >>=-eq-pass
          (validate_either valid_utf8 s.type s.type_expr (below_path path (codes ".type"))
            (below_path path (codes ".typeExpr")))
          _ e4 in
      let (f, hf, e6) =
        >>=-eq-pass (reject (both_given s.id s.id_location) (below_path path (codes ".idLocation")))
          _ e5 in
      let (g, hg, e7) =
        >>=-eq-pass (validate_if_given valid_utf8 s.id (below_path path (codes ".id"))) _ e6 in
      let (i, hi, e8) =
        >>=-eq-pass
          (validate_optional valid_utf8 s.id_location (below_path path (codes ".idLocation"))) _
          e7 in
      let (j, hj, e9) =
        >>=-eq-pass
          (validate_either valid_utf8 s.delay s.delay_expr (below_path path (codes ".delay"))
            (below_path path (codes ".delayExpr")))
          _ e8 in
      validate_payload-sources valid_utf8 s.params s.content path u e9

module _ (p : Program) where
  compile_delay-Safe : (path spelling : Bytes) → Safe (compile_delay p path spelling)
  unfolding compile_delay
  compile_delay-Safe path spelling = elim (Bool-cases (is_nil spelling)) [
    | inl q ↦ rw q refl
    | inr q ↦ rw q (or_at-Safe (p.parse_duration spelling) _)
  ]

  pub compile_send-Safe :
      (path : Bytes) (s : SendDefinition) → AllSources s.params → Safe (compile_send p path s)
  unfolding compile_send
  compile_send-Safe path s h =
      >>=-Safe (resolve_optional p s.event_expr _) _ (resolve_optional-Safe p s.event_expr _)
        (λ a ha.
          >>=-Safe (resolve_optional p s.target_expr _) _ (resolve_optional-Safe p s.target_expr _)
            (λ b hb.
              >>=-Safe (resolve_optional p s.type_expr _) _ (resolve_optional-Safe p s.type_expr _)
                (λ c hc.
                  >>=-Safe (resolve_optional p s.id_location _) _
                    (resolve_optional-Safe p s.id_location _)
                    (λ d hd.
                      >>=-Safe (resolve_optional p s.delay_expr _) _
                        (resolve_optional-Safe p s.delay_expr _)
                        (λ e he.
                          >>=-Safe (compile_delay p path s.delay) _
                            (compile_delay-Safe path s.delay)
                            (λ f hf.
                              >>=-Safe (compile_payload p _ s.params s.content) _
                                (compile_payload-Safe p _ s.params s.content h) (λ g hg. refl)))))))

  pub compile_index-Safe : (path : Bytes) (k : Identifier) → Safe (compile_index p path k)
  unfolding compile_index
  compile_index-Safe path k = elim (Bool-cases (is_nil k)) [
    | inl q ↦ rw q refl
    | inr q ↦ rw q (
        >>=-Safe (or_at (p.resolve_data_location k) _) _ (or_at-Safe (p.resolve_data_location k) _)
          (λ a ha. refl))
  ]
