-- ===== src/Compile/Sound.antt =====
-- compile.go: what `Compile` promises of a chart that it returns.
use statecharts.Base.{
  ◌<◌, ◌≡◌, refl, sym, ap, subst, Bool, true, false, not, Option, some, All, length, if◌then◌else◌,
}
use statecharts.Base.Bytes.{Bytes, codes, bytes_eq, eq_of_bytes_eq}
use statecharts.Identifier.{is_nil}
use statecharts.Revision.{derive_revision}
use statecharts.Chart.{StateRef, Chart, Transition, state_at, by_id}
use statecharts.Chart.Tree.{IsTree}
use statecharts.Definition.{Definition}
use statecharts.Definition.Checked.{
  pass, fail, without_path, reject, >>=-eq-pass, pass_inj, reject-eq-pass,
}
use statecharts.Validate.{normalize_definition}
use statecharts.Validate.Canonical.{Codec, canonical_bytes, or_error}
use statecharts.Validate.Idempotent.{normalize_definition_twice}
use statecharts.Compile.Content.{Program}
use statecharts.Compile.{compile_chart}
use statecharts.Compile.Layout.{compile_chart-IsTree}
use statecharts.Compile.Lookup.{Resolves, by_id-state_at, compile_chart-Resolves}
use statecharts.Compile.Whole.{Datamodel, CompiledChart, compile}

module _ (valid_utf8 : Bytes → Bool) (codec : Codec) (digest : Bytes → Bytes) where
  -- The definition that the chart keeps is normal; the states form a tree in document order, in which
  -- every state is found by its ID and every target names a state; the canonical bytes are the
  -- definition's, and the revision is derived from them, the datamodel and the fingerprint.
  pub record IsSound (r : CompiledChart) : Type 0 where
    pub normal : normalize_definition valid_utf8 r.definition ≡ pass r.definition
    pub tree : IsTree r.chart
    pub found :
        (s : StateRef) → s < length r.chart.order → by_id r.chart (state_at r.chart s).id ≡ some s
    pub resolved :
        (s : StateRef)
        → All (Resolves r.chart) (state_at r.chart s).transitions
          × ((t : Transition) → (state_at r.chart s).initial ≡ some t → Resolves r.chart t)
    pub canonical : canonical_bytes valid_utf8 codec r.definition ≡ pass r.canonical_definition
    pub fingerprint : is_nil r.fingerprint ≡ false
    pub revision :
        r.revision
        ≡ derive_revision digest r.canonical_definition r.definition.datamodel r.fingerprint

  fingerprint-eq-pass :
      (b : Bool) (u : Unit {0}) → (if b then fail without_path else pass tt) ≡ pass u → b ≡ false
  fingerprint-eq-pass true u h = cc
  fingerprint-eq-pass false u h = refl

  compiled-IsSound :
      (d n : Definition) (p : Program) (chart : Chart) (canonical name : Bytes)
      → normalize_definition valid_utf8 d ≡ pass n
      → bytes_eq n.datamodel name ≡ true
      → is_nil p.fingerprint ≡ false
      → canonical_bytes valid_utf8 codec n ≡ pass canonical
      → compile_chart p n ≡ pass chart
      → IsSound (record {
        chart = chart;
        definition = n;
        fingerprint = p.fingerprint;
        canonical_definition = canonical;
        revision = derive_revision digest canonical name p.fingerprint;
      })
  compiled-IsSound d n p chart canonical name hn hd hf hb hc = record {
    normal = normalize_definition_twice valid_utf8 d n hn;
    tree = compile_chart-IsTree p n chart hc;
    found = λ s lt. by_id-state_at valid_utf8 p d n chart s hn hc lt;
    resolved = λ s. compile_chart-Resolves valid_utf8 p d n chart s hn hc;
    canonical = hb;
    fingerprint = hf;
    revision =
        ap (λ z. derive_revision digest canonical z p.fingerprint)
          (sym (eq_of_bytes_eq n.datamodel name hd));
  }

  -- What Compile returns is sound: the definition that the chart keeps is normal; a parent precedes
  -- its children, every state is found by its ID, and every target names a state; the canonical bytes
  -- are the definition's, the fingerprint is not empty, and the revision is derived from both and
  -- the definition's datamodel.
  pub compile-IsSound :
      (d : Definition) (model : Option Datamodel) (r : CompiledChart)
      → compile valid_utf8 codec digest d model ≡ pass r
      → IsSound r
  unfolding compile
  compile-IsSound d model r e =
      let (m, hm, e1) = >>=-eq-pass (or_error model) _ e in
      let (n, hn, e2) = >>=-eq-pass (normalize_definition valid_utf8 d) _ e1 in
      let (u, hu, e3) =
        >>=-eq-pass (reject (not (bytes_eq n.datamodel m.name)) (codes "definition.datamodel")) _
          e2 in
      let (o, ho, e4) = >>=-eq-pass (or_error (m.compile n)) _ e3 in
      let (p, hp, e5) = >>=-eq-pass (or_error o) _ e4 in
      let (v, hv, e6) =
        >>=-eq-pass (if is_nil p.fingerprint then fail without_path else pass tt) _ e5 in
      let (b, hb, e7) = >>=-eq-pass (canonical_bytes valid_utf8 codec n) _ e6 in
      let (c, hc, e8) = >>=-eq-pass (compile_chart p n) _ e7 in
      subst IsSound (pass_inj e8) (
        compiled-IsSound d n p c b m.name hn
          (not_false (bytes_eq n.datamodel m.name)
            (reject-eq-pass (not (bytes_eq n.datamodel m.name)) (codes "definition.datamodel") hu))
          (fingerprint-eq-pass (is_nil p.fingerprint) v hv) hb hc)
    where
      not_false : (b : Bool) → not b ≡ false → b ≡ true
      not_false true h = refl
      not_false false h = cc
