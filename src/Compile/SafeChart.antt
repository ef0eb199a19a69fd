-- ===== src/Compile/SafeChart.antt =====
-- compile.go and definition_validate.go: a normalized definition is compiled without dereferencing a
-- nil pointer.
use statecharts.Base.{
  ℕ, suc, ◌+◌, ◌≡◌, refl, subst, Bool, true, false, if◌then◌else◌, List, [], Option, none, some,
  length, get_elem?,
}
use statecharts.Base.Bytes.{Bytes, codes}
use statecharts.Chart.{StateRef, root}
use statecharts.Definition.{
  StateHead, StateDefinition, state, StateDefinitions, no_states, and_state, Definition,
}
use statecharts.Definition.{head as head_of}
use statecharts.Definition.Checked.{pass, deref, >>=-eq-pass, pass_inj, below_path, if_some}
use statecharts.Validate.Expressions.{validate_payload}
use statecharts.Validate.Content.{validate_blocks}
use statecharts.Validate.Nodes.{Node, node_of, collect_states}
use statecharts.Validate.States.{
  validate_shape, validate_initial, validate_placement, validate_head, validate_state,
  validate_children,
}
use statecharts.Validate.Parts.{
  Seen, path_of, validate_data_definitions, validate_invokes, validate_transitions,
}
use statecharts.Validate.{validate_header, complete_states, validate_root, normalize_definition}
use statecharts.Compile.Content.{Program, compile_data, compile_blocks}
use statecharts.Compile.{
  compile_transitions, compile_initial, compile_invokes, compile_done, compile_head, compile_state,
  compile_children, compile_chart,
}
use statecharts.Compile.Safety.{Safe, >>=-Safe, compile_data-Safe}
use statecharts.Compile.SafeParts.{
  blocks-Safe, compile_invokes-Safe, compile_done-Safe, compile_transitions-Safe,
  compile_initial-Safe,
}

module _ (valid_utf8 : Bytes → Bool) (p : Program) where
  module _ (nodes : List Node) where
    compile_head-Safe :
        (is_root : Bool) (seen : Seen) (m : ℕ) (h : StateHead) (cs : StateDefinitions)
        (place : Bytes) (path : Bytes) (q : Option StateRef) (n : StateRef) (r : Seen)
        → validate_head valid_utf8 nodes is_root seen m h cs place ≡ pass r
        → Safe (compile_head p path q n h)
    unfolding validate_head compile_head
    compile_head-Safe is_root seen m h cs place path q n r e =
        let (a, ha, e1) = >>=-eq-pass (validate_placement valid_utf8 nodes is_root h place) _ e in
        let (b, hb, e2) =
          >>=-eq-pass
            (if is_root
              then pass seen.data_ids
              else validate_data_definitions valid_utf8 seen.data_ids 0 h.items
                  (below_path place (codes ".data")))
            _ e1 in
        let (c, hc, e3) = >>=-eq-pass (validate_shape valid_utf8 nodes m h cs place) _ e2 in
        let (d, hd, e4) =
          >>=-eq-pass (if_some h.initial (validate_initial valid_utf8 nodes is_root m h place)) _
            e3 in
        let (f, hf, e5) =
          >>=-eq-pass
            (validate_blocks valid_utf8 false h.on_entry (below_path place (codes ".onEntry"))) _
            e4 in
        let (g, hg, e6) =
          >>=-eq-pass
            (validate_blocks valid_utf8 false h.on_exit (below_path place (codes ".onExit"))) _
            e5 in
        let (j, hj, e7) =
          >>=-eq-pass (validate_transitions valid_utf8 nodes 0 h.transitions place) _ e6 in
        let (k, hk, e8) =
          >>=-eq-pass (validate_invokes valid_utf8 (record seen { data_ids = b }) 0 h.invokes place)
            _ e7 in
        let (l, hl, e9) =
          >>=-eq-pass
            (if_some h.done_data (λ d.
              validate_payload valid_utf8 d.params d.content
                (below_path place (codes ".doneData"))))
            _ e8 in
        >>=-Safe (compile_blocks p _ 0 h.on_entry) _
          (blocks-Safe valid_utf8 p false h.on_entry _ (below_path place (codes ".onEntry")) f hf)
          (λ a2 h2.
            >>=-Safe (compile_blocks p _ 0 h.on_exit) _
              (blocks-Safe valid_utf8 p false h.on_exit _ (below_path place (codes ".onExit")) g hg)
              (λ a3 h3.
                >>=-Safe (compile_data p _ 0 h.items) _ (compile_data-Safe p _ 0 h.items) (λ a4 h4.
                  >>=-Safe (compile_done p path h.done_data) _
                    (compile_done-Safe valid_utf8 p h.done_data path
                      (below_path place (codes ".doneData")) l hl)
                    (λ a5 h5.
                      >>=-Safe (compile_initial p path n h.initial) _
                        (compile_initial-Safe valid_utf8 p nodes h.initial is_root m h path place n
                          d hd)
                        (λ a6 h6.
                          >>=-Safe (compile_transitions p path n 0 h.transitions) _
                            (compile_transitions-Safe valid_utf8 p nodes h.transitions path place n
                              0 0 j hj)
                            (λ a7 h7.
                              >>=-Safe (compile_invokes p path 0 h.invokes) _
                                (compile_invokes-Safe valid_utf8 p (record seen { data_ids = b })
                                  h.invokes path place 0 0 k hk)
                                (λ a8 h8. refl)))))))

    mutual
      unfolding validate_state compile_state

      compile_state-Safe :
          (s : StateDefinition) (is_root : Bool) (seen : Seen) (m : ℕ) (path : Bytes)
          (q : Option StateRef) (n : StateRef) (r : Seen)
          → validate_state valid_utf8 nodes is_root seen m s ≡ pass r
          → Safe (compile_state p path q n s)
      compile_state-Safe (state h cs) is_root seen m path q n r e =
          let (a, ha, e1) =
            >>=-eq-pass
              (validate_head valid_utf8 nodes is_root seen m h cs (path_of (get_elem? nodes m))) _
              e in
          >>=-Safe (compile_head p path q n h) _
            (compile_head-Safe is_root seen m h cs (path_of (get_elem? nodes m)) path q n a ha)
            (λ b hb.
              >>=-Safe (compile_children p path n (suc n) 0 cs) _
                (compile_children-Safe cs a path n (suc n) 0 r e1) (λ c hc. refl))

      compile_children-Safe :
          (ss : StateDefinitions) (seen : Seen) (path : Bytes) (q n : StateRef) (k : ℕ) (r : Seen)
          → validate_children valid_utf8 nodes seen ss ≡ pass r
          → Safe (compile_children p path q n k ss)
      compile_children-Safe no_states seen path q n k r e = refl
      compile_children-Safe (and_state s ss) seen path q n k r e =
          let (m, hm, e1) = >>=-eq-pass (deref (node_of nodes (head_of s).id)) _ e in
          let (b, hb, e2) = >>=-eq-pass (validate_state valid_utf8 nodes false seen m s) _ e1 in
          >>=-Safe (compile_state p _ (some q) n s) _
            (compile_state-Safe s false seen m _ (some q) n b hb)
            (λ c hc.
              >>=-Safe (compile_children p path q (n + length c) (suc k) ss) _
                (compile_children-Safe ss b path q (n + length c) (suc k) r e2) (λ d hd. refl))

  -- A normalized definition is compiled, or rejected with an error: the compiler does not
  -- dereference a nil pointer, whatever the datamodel's program resolves.
  pub compile_chart-Safe :
      (d n : Definition) → normalize_definition valid_utf8 d ≡ pass n → Safe (compile_chart p n)
  unfolding normalize_definition validate_root compile_chart
  compile_chart-Safe d n e =
      let (u, hu, e1) = >>=-eq-pass (validate_header valid_utf8 d) _ e in
      let (ids, hi, e2) =
        >>=-eq-pass (validate_data_definitions valid_utf8 [] 0 d.items (codes "definition.data")) _
          e1 in
      let (r, hr, e3) = >>=-eq-pass (complete_states d.root) _ e2 in
      let (seen, hs, e4) = >>=-eq-pass (validate_root valid_utf8 ids r) _ e3 in
      let (nodes, hn, e5) = >>=-eq-pass (collect_states none (codes "root") [] r) _ hs in
      subst (λ z. Safe (compile_chart p z)) (pass_inj e4)
        (>>=-Safe (compile_data p _ 0 d.items) _ (compile_data-Safe p _ 0 d.items) (λ a ha.
          >>=-Safe (compile_state p (codes "root") none root r) _
            (compile_state-Safe nodes r true _ 0 (codes "root") none root seen e5) (λ b hb. refl)))
