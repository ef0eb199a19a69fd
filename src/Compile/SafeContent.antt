-- ===== src/Compile/SafeContent.antt =====
-- compile.go and definition_validate.go: executable content that has been validated is compiled
-- without dereferencing a nil pointer.
use statecharts.Base.{ℕ, suc, ◌≡◌, refl, Bool, not, ◌&&◌, ◌==◌}
use statecharts.Base.Bytes.{Bytes, codes}
use statecharts.Chart.{Blocks}
use statecharts.Definition.{
  ExecutableKind, Payloads, Executable, executable, ChooseDefinition, no_choose, choose_of,
  ChooseBranches, no_branch, branch_of, ForEachDefinition, no_foreach, foreach_of, ExecutableBlock,
  end, then_do, ExecutableBlocks, no_blocks, blocks_of,
}
use statecharts.Definition.Checked.{Checked, pass, reject, or_at, >>=-eq-pass, indexed, below_path}
use statecharts.Validate.Expressions.{validate_expression}
use statecharts.Validate.Content.{
  payload_count, leaves_finalize, is_end, is_no_branch, validate_bindings, validate_plain,
  validate_kind, validate_executable, validate_choose, validate_branches, validate_foreach,
  validate_block, validate_blocks_from,
}
use statecharts.Compile.Content.{
  Program, resolve_optional, compile_index, compile_operation, compile_choose, compile_branches,
  compile_foreach, compile_block, compile_blocks,
}
use statecharts.Compile.Safety.{Safe, >>=-Safe, or_at-Safe, resolve_optional-Safe}
use statecharts.Compile.SafeSend.{
  required-eq-pass, validate_send-sources, compile_send-Safe, compile_index-Safe,
}

module _ (valid_utf8 : Bytes → Bool) (p : Program) (finalize : Bool) where
  -- The kinds that hold no other executables.
  plain_operation-Safe :
      (kind : ExecutableKind) (u : Payloads) (c : ChooseDefinition) (f : ForEachDefinition)
      (path place : Bytes) (x : Unit {0})
      → validate_plain valid_utf8 finalize kind u place ≡ pass x
      → Safe (compile_operation p path (executable kind u c f))
  unfolding validate_plain compile_operation
  plain_operation-Safe ExecutableKind.raise u c f path place x h =
      let (r, hr, e) = required-eq-pass u.raise place _ h in
      rw hr (
        >>=-Safe (resolve_optional p r.event_expr _) _ (resolve_optional-Safe p r.event_expr _)
          (λ a ha.
            >>=-Safe (resolve_optional p r.body _) _ (resolve_optional-Safe p r.body _)
              (λ b hb. refl)))
  plain_operation-Safe ExecutableKind.send u c f path place x h =
      let (s, hs, e) = required-eq-pass u.send place _ h in
      rw hs (
        compile_send-Safe p path s
          (validate_send-sources valid_utf8 s (below_path place (codes ".send")) x e))
  plain_operation-Safe ExecutableKind.cancel u c f path place x h =
      let (r, hr, e) = required-eq-pass u.cancel place _ h in
      rw hr (
        >>=-Safe (resolve_optional p r.send_id_expr _) _ (resolve_optional-Safe p r.send_id_expr _)
          (λ a ha. refl))
  plain_operation-Safe ExecutableKind.log u c f path place x h =
      let (r, hr, e) = required-eq-pass u.log place _ h in
      rw hr (
        >>=-Safe (resolve_optional p r.label_expr _) _ (resolve_optional-Safe p r.label_expr _)
          (λ a ha.
            >>=-Safe (resolve_optional p r.expr _) _ (resolve_optional-Safe p r.expr _)
              (λ b hb. refl)))
  plain_operation-Safe ExecutableKind.assign u c f path place x h =
      let (r, hr, e) = required-eq-pass u.assign place _ h in
      rw hr (
        >>=-Safe (or_at (p.resolve_expression r.location) _) _
          (or_at-Safe (p.resolve_expression r.location) _)
          (λ a ha.
            >>=-Safe (or_at (p.resolve_expression r.expr) _) _
              (or_at-Safe (p.resolve_expression r.expr) _) (λ b hb. refl)))
  plain_operation-Safe ExecutableKind.choose u c f path place x h = cc
  plain_operation-Safe ExecutableKind.foreach u c f path place x h = cc
  plain_operation-Safe ExecutableKind.script u c f path place x h =
      let (r, hr, e) = required-eq-pass u.script place _ h in
      rw hr (
        >>=-Safe (or_at (p.resolve_expression r) _) _ (or_at-Safe (p.resolve_expression r) _)
          (λ a ha. refl))
  plain_operation-Safe ExecutableKind.call u c f path place x h =
      let (r, hr, e) = required-eq-pass u.call place _ h in
      rw hr (
        >>=-Safe (or_at (p.resolve_function r) _) _ (or_at-Safe (p.resolve_function r) _)
          (λ a ha. refl))
  plain_operation-Safe ExecutableKind.extension u c f path place x h =
      let (r, hr, e) = required-eq-pass u.extension place _ h in rw hr refl
  plain_operation-Safe (ExecutableKind.unknown k) u c f path place x h = cc

  kind_of :
      (kind : ExecutableKind) (u : Payloads) (c : ChooseDefinition) (f : ForEachDefinition)
      (place : Bytes) (x : Unit {0})
      → validate_executable valid_utf8 finalize (executable kind u c f) place ≡ pass x
      → validate_kind valid_utf8 finalize kind u
          (validate_choose valid_utf8 finalize c place)
          (validate_foreach valid_utf8 finalize f place)
          place
        ≡ pass x
  unfolding validate_executable
  kind_of kind u c f place x h =
      let (a, ha, e1) = >>=-eq-pass (reject (not (payload_count u c f == 1)) place) _ h in
      let (b, hb, e2) = >>=-eq-pass (reject (finalize && leaves_finalize kind) place) _ e1 in e2

  mutual
    unfolding validate_executable validate_kind compile_operation

    pub compile_operation-Safe :
        (e : Executable) (path place : Bytes) (x : Unit {0})
        → validate_executable valid_utf8 finalize e place ≡ pass x
        → Safe (compile_operation p path e)
    compile_operation-Safe (executable ExecutableKind.choose u c f) path place x h =
        let e = kind_of ExecutableKind.choose u c f place x h in
        >>=-Safe (compile_choose p path c) _ (compile_choose-Safe c path place x e) (λ a ha. refl)
    compile_operation-Safe (executable ExecutableKind.foreach u c f) path place x h =
        let e = kind_of ExecutableKind.foreach u c f place x h in
        compile_foreach-Safe f path place x e
    compile_operation-Safe (executable ExecutableKind.raise u c f) path place x h =
        plain_operation-Safe ExecutableKind.raise u c f path place x
          (kind_of ExecutableKind.raise u c f place x h)
    compile_operation-Safe (executable ExecutableKind.send u c f) path place x h =
        plain_operation-Safe ExecutableKind.send u c f path place x
          (kind_of ExecutableKind.send u c f place x h)
    compile_operation-Safe (executable ExecutableKind.cancel u c f) path place x h =
        plain_operation-Safe ExecutableKind.cancel u c f path place x
          (kind_of ExecutableKind.cancel u c f place x h)
    compile_operation-Safe (executable ExecutableKind.log u c f) path place x h =
        plain_operation-Safe ExecutableKind.log u c f path place x
          (kind_of ExecutableKind.log u c f place x h)
    compile_operation-Safe (executable ExecutableKind.assign u c f) path place x h =
        plain_operation-Safe ExecutableKind.assign u c f path place x
          (kind_of ExecutableKind.assign u c f place x h)
    compile_operation-Safe (executable ExecutableKind.script u c f) path place x h =
        plain_operation-Safe ExecutableKind.script u c f path place x
          (kind_of ExecutableKind.script u c f place x h)
    compile_operation-Safe (executable ExecutableKind.call u c f) path place x h =
        plain_operation-Safe ExecutableKind.call u c f path place x
          (kind_of ExecutableKind.call u c f place x h)
    compile_operation-Safe (executable ExecutableKind.extension u c f) path place x h =
        plain_operation-Safe ExecutableKind.extension u c f path place x
          (kind_of ExecutableKind.extension u c f place x h)
    compile_operation-Safe (executable (ExecutableKind.unknown k) u c f) path place x h =
        plain_operation-Safe (ExecutableKind.unknown k) u c f path place x
          (kind_of (ExecutableKind.unknown k) u c f place x h)

    compile_choose-Safe :
        (c : ChooseDefinition) (path place : Bytes) (x : Unit {0})
        → validate_choose valid_utf8 finalize c place ≡ pass x
        → Safe (compile_choose p path c)
    compile_choose-Safe no_choose path place x h = cc
    compile_choose-Safe (choose_of bs els) path place x h =
        let (a, ha, e1) =
          >>=-eq-pass (reject (is_no_branch bs) (below_path place (codes ".choose.branches"))) _
            h in
        let (b, hb, e2) = >>=-eq-pass (validate_branches valid_utf8 finalize 0 bs place) _ e1 in
        compile_branches-Safe bs path place 0 0
          (compile_blocks p (below_path path (codes ".choose.else")) 0 els) b
          (compile_blocks-Safe els (below_path path (codes ".choose.else"))
            (below_path place (codes ".choose.else")) 0 0 x e2)
          hb

    compile_branches-Safe :
        (bs : ChooseBranches) (path place : Bytes) (i k : ℕ) (els : Checked Blocks) (x : Unit {0})
        → Safe els
        → validate_branches valid_utf8 finalize k bs place ≡ pass x
        → Safe (compile_branches p path i bs els)
    compile_branches-Safe no_branch path place i k els x safe h = >>=-Safe els _ safe (λ a ha. refl)
    compile_branches-Safe (branch_of c actions rest) path place i k els x safe h =
        let at = indexed (below_path place (codes ".choose.branches")) k in
        let (a, ha, e1) =
          >>=-eq-pass (validate_expression valid_utf8 c (below_path at (codes ".condition"))) _ h in
        let (b, hb, e2) =
          >>=-eq-pass
            (validate_blocks_from valid_utf8 finalize 0 actions (below_path at (codes ".actions")))
            _ e1 in
        >>=-Safe (or_at (p.resolve_expression c) _) _ (or_at-Safe (p.resolve_expression c) _)
          (λ d hd.
            >>=-Safe (compile_blocks p _ 0 actions) _
              (compile_blocks-Safe actions _ (below_path at (codes ".actions")) 0 0 b hb)
              (λ g hg.
                >>=-Safe (compile_branches p path (suc i) rest els) _
                  (compile_branches-Safe rest path place (suc i) (suc k) els x safe e2)
                  (λ j hj. refl)))

    compile_foreach-Safe :
        (f : ForEachDefinition) (path place : Bytes) (x : Unit {0})
        → validate_foreach valid_utf8 finalize f place ≡ pass x
        → Safe (compile_foreach p path f)
    compile_foreach-Safe no_foreach path place x h = cc
    compile_foreach-Safe (foreach_of array item index actions) path place x h =
        let (a, ha, e1) =
          >>=-eq-pass
            (validate_expression valid_utf8 array (below_path place (codes ".foreach.array"))) _
            h in
        let (b, hb, e2) = >>=-eq-pass (validate_bindings item index place) _ e1 in
        >>=-Safe (or_at (p.resolve_expression array) _) _
          (or_at-Safe (p.resolve_expression array) _)
          (λ d hd.
            >>=-Safe (or_at (p.resolve_data_location item) _) _
              (or_at-Safe (p.resolve_data_location item) _)
              (λ g hg.
                >>=-Safe (compile_index p path index) _ (compile_index-Safe p path index) (λ j hj.
                  >>=-Safe (compile_blocks p _ 0 actions) _
                    (compile_blocks-Safe actions _ (below_path place (codes ".foreach.actions")) 0 0
                      x e2)
                    (λ l hl. refl))))

    compile_block-Safe :
        (b : ExecutableBlock) (path place : Bytes) (i k : ℕ) (x : Unit {0})
        → validate_block valid_utf8 finalize k b place ≡ pass x
        → Safe (compile_block p path i b)
    compile_block-Safe end path place i k x h = refl
    compile_block-Safe (then_do e rest) path place i k x h =
        let (a, ha, e1) =
          >>=-eq-pass (validate_executable valid_utf8 finalize e (indexed place k)) _ h in
        >>=-Safe (compile_operation p (indexed path i) e) _
          (compile_operation-Safe e (indexed path i) (indexed place k) a ha)
          (λ b hb.
            >>=-Safe (compile_block p path (suc i) rest) _
              (compile_block-Safe rest path place (suc i) (suc k) x e1) (λ c hc. refl))

    pub compile_blocks-Safe :
        (bs : ExecutableBlocks) (path place : Bytes) (i k : ℕ) (x : Unit {0})
        → validate_blocks_from valid_utf8 finalize k bs place ≡ pass x
        → Safe (compile_blocks p path i bs)
    compile_blocks-Safe no_blocks path place i k x h = refl
    compile_blocks-Safe (blocks_of b bs) path place i k x h =
        let (a, ha, e1) = >>=-eq-pass (reject (is_end b) (indexed place k)) _ h in
        let (c, hc, e2) =
          >>=-eq-pass (validate_block valid_utf8 finalize 0 b (indexed place k)) _ e1 in
        >>=-Safe (compile_block p (indexed path i) 0 b) _
          (compile_block-Safe b (indexed path i) (indexed place k) 0 0 c hc)
          (λ d hd.
            >>=-Safe (compile_blocks p path (suc i) bs) _
              (compile_blocks-Safe bs path place (suc i) (suc k) x e2) (λ g hg. refl))
