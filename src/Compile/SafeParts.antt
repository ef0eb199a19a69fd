-- ===== src/Compile/SafeParts.antt =====
-- compile.go and definition_validate.go: transitions and invokes that have been validated are
-- compiled without dereferencing a nil pointer.
use statecharts.Base.{
  ℕ, suc, ◌≡◌, refl, Bool, true, false, not, ◌&&◌, ◌||◌, List, [], ◌∷◌, Option, none, some, is_some,
  is_empty,
}
use statecharts.Base.Bytes.{Bytes, codes}
use statecharts.Definition.{
  ExecutableBlocks, TransitionDefinition, InvokeDefinition, DoneDataDefinition, StateHead,
}
use statecharts.Definition.Checked.{pass, reject, >>=-eq-pass, indexed, below_path, if_some}
use statecharts.Validate.Expressions.{validate_optional, validate_either, validate_payload}
use statecharts.Validate.Content.{validate_blocks}
use statecharts.Validate.Nodes.{Node}
use statecharts.Validate.States.{validate_initial}
use statecharts.Validate.Parts.{
  Seen, is_valid_type, validate_events, validate_invoke_ids, validate_invoke, validate_invokes,
  validate_transition, validate_transitions,
}
use statecharts.Compile.Content.{Program, resolve_optional, compile_payload, compile_blocks}
use statecharts.Compile.{
  compile_transition, compile_transitions, compile_initial, compile_invoke, compile_invokes,
  compile_done,
}
use statecharts.Compile.Safety.{
  Safe, >>=-Safe, validate_payload-sources, resolve_optional-Safe, compile_payload-Safe,
}
use statecharts.Compile.SafeContent.{compile_blocks-Safe}

module _ (valid_utf8 : Bytes → Bool) (p : Program) where
  pub blocks-Safe :
      (finalize : Bool) (bs : ExecutableBlocks) (path place : Bytes) (x : Unit {0})
      → validate_blocks valid_utf8 finalize bs place ≡ pass x
      → Safe (compile_blocks p path 0 bs)
  unfolding validate_blocks
  blocks-Safe finalize bs path place x h =
      compile_blocks-Safe valid_utf8 p finalize bs path place 0 0 x h

  pub compile_invoke-Safe :
      (seen : Seen) (i : InvokeDefinition) (path place : Bytes) (r : Seen)
      → validate_invoke valid_utf8 seen i place ≡ pass r
      → Safe (compile_invoke p path i)
  unfolding validate_invoke compile_invoke
  compile_invoke-Safe seen i path place r h =
      let (a, ha, e1) = >>=-eq-pass (validate_invoke_ids valid_utf8 seen i place) _ h in
      let (b, hb, e2) =
        >>=-eq-pass
          (validate_optional valid_utf8 i.id_location (below_path place (codes ".idLocation"))) _
          e1 in
      let (c, hc, e3) =
        >>=-eq-pass
          (validate_either valid_utf8 i.type i.type_expr (below_path place (codes ".type"))
            (below_path place (codes ".typeExpr")))
          _ e2 in
      let (d, hd, e4) =
        >>=-eq-pass
          (validate_either valid_utf8 i.src i.src_expr (below_path place (codes ".src"))
            (below_path place (codes ".srcExpr")))
          _ e3 in
      let (e, he, e5) = >>=-eq-pass (validate_payload valid_utf8 i.params i.content place) _ e4 in
      let (f, hf, e6) =
        >>=-eq-pass
          (validate_blocks valid_utf8 true i.finalize (below_path place (codes ".finalize"))) _
          e5 in
      >>=-Safe (resolve_optional p i.id_location _) _ (resolve_optional-Safe p i.id_location _)
        (λ g hg.
          >>=-Safe (resolve_optional p i.type_expr _) _ (resolve_optional-Safe p i.type_expr _)
            (λ j hj.
              >>=-Safe (resolve_optional p i.src_expr _) _ (resolve_optional-Safe p i.src_expr _)
                (λ k hk.
                  >>=-Safe (compile_payload p _ i.params i.content) _
                    (compile_payload-Safe p _ i.params i.content
                      (validate_payload-sources valid_utf8 i.params i.content place e he))
                    (λ l hl.
                      >>=-Safe (compile_blocks p _ 0 i.finalize) _
                        (blocks-Safe true i.finalize _ (below_path place (codes ".finalize")) f hf)
                        (λ m hm. refl)))))

  pub compile_invokes-Safe :
      (seen : Seen) (is : List InvokeDefinition) (path place : Bytes) (i k : ℕ) (r : Seen)
      → validate_invokes valid_utf8 seen k is place ≡ pass r
      → Safe (compile_invokes p path i is)
  unfolding validate_invokes compile_invokes
  compile_invokes-Safe seen [] path place i k r h = refl
  compile_invokes-Safe seen (v ∷ vs) path place i k r h =
      let at = indexed (below_path place (codes ".invokes")) k in
      let (a, ha, e1) = >>=-eq-pass (validate_invoke valid_utf8 seen v at) _ h in
      >>=-Safe (compile_invoke p _ v) _ (compile_invoke-Safe seen v _ at a ha) (λ b hb.
        >>=-Safe (compile_invokes p path (suc i) vs) _
          (compile_invokes-Safe a vs path place (suc i) (suc k) r e1) (λ c hc. refl))

  pub compile_done-Safe :
      (o : Option DoneDataDefinition) (path place : Bytes) (x : Unit {0})
      → if_some o (λ d. validate_payload valid_utf8 d.params d.content place) ≡ pass x
      → Safe (compile_done p path o)
  unfolding compile_done
  compile_done-Safe none path place x h = refl
  compile_done-Safe (some d) path place x h =
      >>=-Safe (compile_payload p _ d.params d.content) _
        (compile_payload-Safe p _ d.params d.content
          (validate_payload-sources valid_utf8 d.params d.content place x h))
        (λ a ha. refl)

  module _ (nodes : List Node) where
    pub compile_transition-Safe :
        (t : TransitionDefinition) (path place : Bytes) (n i : ℕ) (is_default : Bool) (x : Unit {0})
        → validate_transition valid_utf8 nodes t place is_default ≡ pass x
        → Safe (compile_transition p path n i t)
    unfolding validate_transition compile_transition
    compile_transition-Safe t path place n i is_default x h =
        let (a, ha, e1) =
          >>=-eq-pass (reject (not (is_valid_type t.type)) (below_path place (codes ".type"))) _
            h in
        let (b, hb, e2) =
          >>=-eq-pass
            (reject (is_default && (not (is_empty t.events) || is_some t.condition)) place) _ e1 in
        let (c, hc, e3) =
          >>=-eq-pass
            (reject
              (not is_default
                && is_empty t.events
                && not (is_some t.condition)
                && is_empty t.targets)
              place)
            _ e2 in
        let (d, hd, e4) = >>=-eq-pass (validate_events 0 t.events place) _ e3 in
        let (e, he, e5) =
          >>=-eq-pass
            (validate_optional valid_utf8 t.condition (below_path place (codes ".condition"))) _
            e4 in
        let (f, hf, e6) =
          >>=-eq-pass
            (validate_blocks valid_utf8 false t.actions (below_path place (codes ".actions"))) _
            e5 in
        >>=-Safe (resolve_optional p t.condition _) _ (resolve_optional-Safe p t.condition _)
          (λ g hg.
            >>=-Safe (compile_blocks p _ 0 t.actions) _
              (blocks-Safe false t.actions _ (below_path place (codes ".actions")) f hf)
              (λ j hj. refl))

    pub compile_transitions-Safe :
        (ts : List TransitionDefinition) (path place : Bytes) (n i k : ℕ) (x : Unit {0})
        → validate_transitions valid_utf8 nodes k ts place ≡ pass x
        → Safe (compile_transitions p path n i ts)
    unfolding validate_transitions compile_transitions
    compile_transitions-Safe [] path place n i k x h = refl
    compile_transitions-Safe (t ∷ ts) path place n i k x h =
        let at = indexed (below_path place (codes ".transitions")) k in
        let (a, ha, e1) = >>=-eq-pass (validate_transition valid_utf8 nodes t at false) _ h in
        >>=-Safe (compile_transition p _ n i t) _ (compile_transition-Safe t _ at n i false a ha)
          (λ b hb.
            >>=-Safe (compile_transitions p path n (suc i) ts) _
              (compile_transitions-Safe ts path place n (suc i) (suc k) x e1) (λ c hc. refl))

    pub compile_initial-Safe :
        (o : Option TransitionDefinition) (is_root : Bool) (m : ℕ) (h : StateHead)
        (path place : Bytes) (n : ℕ) (x : Unit {0})
        → if_some o (validate_initial valid_utf8 nodes is_root m h place) ≡ pass x
        → Safe (compile_initial p path n o)
    unfolding validate_initial compile_initial
    compile_initial-Safe none is_root m h path place n x e = refl
    compile_initial-Safe (some t) is_root m h path place n x e =
        let (a, ha, e1) =
          >>=-eq-pass
            (validate_transition valid_utf8 nodes t (below_path place (codes ".initial")) true) _
            e in
        >>=-Safe (compile_transition p _ n 0 t) _
          (compile_transition-Safe t _ (below_path place (codes ".initial")) n 0 true a ha)
          (λ b hb. refl)
