-- ===== src/Compile/Whole.antt =====
-- compile.go: `Compile`, from a definition and a datamodel to a chart. `Datamodel` is an interface;
-- `digest` is SHA-256.
use statecharts.Base.{Bool, not, Option, if◌then◌else◌}
use statecharts.Base.Bytes.{Bytes, codes, bytes_eq}
use statecharts.Identifier.{Identifier, is_nil}
use statecharts.Revision.{derive_revision}
use statecharts.Chart.{Chart}
use statecharts.Definition.{Definition}
use statecharts.Definition.Checked.{without_path, Checked, pass, fail, ◌>>=◌, ◌>>◌, reject}
use statecharts.Validate.{normalize_definition}
use statecharts.Validate.Canonical.{Codec, canonical_bytes, or_error}
use statecharts.Compile.Content.{Program}
use statecharts.Compile.{compile_chart}

-- `Datamodel`, as far as the compiler calls it. Its compiler fails, returns a nil program, or
-- returns a program.
pub record Datamodel : Type 0 where
  pub name : Identifier
  pub compile : Definition → Option (Option Program)

-- What `Compile` puts in the chart besides the states.
pub record CompiledChart : Type 0 where
  pub chart : Chart
  pub definition : Definition
  pub fingerprint : Bytes
  pub canonical_definition : Bytes
  pub revision : Bytes

module _ (valid_utf8 : Bytes → Bool) (codec : Codec) (digest : Bytes → Bytes) where
  unfoldable pub compile : Definition → Option Datamodel → Checked CompiledChart
  unfolding normalize_definition canonical_bytes derive_revision compile_chart
  compile definition model = do
    m ← or_error model
    d ← normalize_definition valid_utf8 definition
    reject (not (bytes_eq d.datamodel m.name)) (codes "definition.datamodel")
    maybe ← or_error (m.compile d)
    program ← or_error maybe
    if is_nil program.fingerprint then fail without_path else pass tt
    canonical ← canonical_bytes valid_utf8 codec d
    chart ← compile_chart program d
    pass (record {
      chart = chart;
      definition = d;
      fingerprint = program.fingerprint;
      canonical_definition = canonical;
      revision = derive_revision digest canonical m.name program.fingerprint;
    })
