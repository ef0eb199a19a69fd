-- ===== src/Tests/Accepted.antt =====
-- The theorems about definitions, compiled charts and values, applied to a small definition.
use statecharts.Base.{◌≡◌, refl, false, List, [], ◌∷◌, ◌++◌, none, some, arith, map, All}
use statecharts.Base.Bytes.{Bytes, codes, decimal}
use statecharts.Value.{Value, Items}
use statecharts.Value.Number.{
  span_digits, parse_sign, parse_integer, parse_fraction, parse_exponent_sign, parse_exponent,
  trim_zeros, trim_trailing_zeros, exponent_suffix, print_canonical, canonical_number,
}
use statecharts.Value.Wire.{
  ValueKind, Scalars, scalars, ValueWire, wire, no_list, list_of, WireItems, no_map, no_payload,
  to_wire, to_wire_items, value_from_wire,
}
use statecharts.Value.Canonical.{canonical_number_twice}
use statecharts.Value.RoundTrip.{value_from_wire-to_wire}
use statecharts.Chart.{Transition, compound, atomic, state_at, by_id}
use statecharts.Chart.Tree.{IsTree}
use statecharts.Definition.{TransitionType}
use statecharts.Definition.Checked.{pass}
use statecharts.Validate.{normalize_definition}
use statecharts.Validate.Expressions.{is_named}
use statecharts.Validate.Nodes.{Node}
use statecharts.Validate.Targets.{collect_default_atoms}
use statecharts.Validate.Normalize.{Generator, generate}
use statecharts.Validate.Canonical.{Codec, canonical_header, canonical_bytes}
use statecharts.Validate.Idempotent.{normalize_definition_twice}
use statecharts.Validate.Generated.{generate_fresh}
use statecharts.Validate.Atoms.{collect_default_atoms_fuel}
use statecharts.Compile.{compile_chart}
use statecharts.Compile.Arena.{with_parent}
use statecharts.Compile.Compiled.{document_order, outline, head_outline}
use statecharts.Compile.Layout.{
  compile_chart-IsTree, compile_chart-children, compile_chart-document_order,
}
use statecharts.Revision.{derive_revision, hex_encode}
use statecharts.Compile.Whole.{Datamodel, CompiledChart, compile}
use statecharts.Compile.Sound.{IsSound, compile-IsSound}
use statecharts.Compile.Safety.{Safe}
use statecharts.Compile.SafeChart.{compile_chart-Safe}
use statecharts.Compile.Lookup.{Resolves, by_id-state_at, compile_chart-Resolves}
use statecharts.Tests.Definitions.{
  any_utf8, program, lamp, normal_lamp, lamp-normal, compiled_lamp, lamp-compiled, plain_head,
  default_to,
}

compile_chart-IsTree_example : IsTree compiled_lamp
compile_chart-IsTree_example = compile_chart-IsTree program normal_lamp compiled_lamp lamp-compiled

compile_chart-children_example :
    (state_at compiled_lamp 0).children ≡ with_parent 0 0 compiled_lamp.order
compile_chart-children_example =
    compile_chart-children program normal_lamp compiled_lamp 0 lamp-compiled

compile_chart-document_order_example :
    map outline compiled_lamp.order ≡ map head_outline (document_order normal_lamp.root)
compile_chart-document_order_example =
    compile_chart-document_order program normal_lamp compiled_lamp lamp-compiled

compile_chart-Safe_example : Safe (compile_chart program normal_lamp)
compile_chart-Safe_example = compile_chart-Safe any_utf8 program lamp normal_lamp lamp-normal

by_id-state_at_example : by_id compiled_lamp (state_at compiled_lamp 2).id ≡ some 2
by_id-state_at_example =
    by_id-state_at any_utf8 program lamp normal_lamp compiled_lamp 2 lamp-normal lamp-compiled
      (omega arith)

compile_chart-Resolves_example :
    All (Resolves compiled_lamp) (state_at compiled_lamp 0).transitions
    × ((t : Transition) → (state_at compiled_lamp 0).initial ≡ some t → Resolves compiled_lamp t)
compile_chart-Resolves_example =
    compile_chart-Resolves any_utf8 program lamp normal_lamp compiled_lamp 0 lamp-normal
      lamp-compiled

normalize_definition_twice_example : normalize_definition any_utf8 normal_lamp ≡ pass normal_lamp
normalize_definition_twice_example =
    normalize_definition_twice any_utf8 lamp normal_lamp lamp-normal

-- A codec that writes every definition alike.
abbrev codec : Codec
codec = record { marshal = λ d. some (codes "{}") }

abbrev used : Generator
used = record { reserved = codes "state.1" ∷ codes "state.3" ∷ []; next = 0 }

generate_fresh_example : is_named (generate (codes "state.") used).0 used.reserved ≡ false
generate_fresh_example = generate_fresh (codes "state.") used

-- A compound state whose default is its child.
abbrev two_nodes : List Node
two_nodes =
    record {
      head = record (plain_head (codes "run") false compound) {
        initial = some (default_to (codes "step") TransitionType.external);
      };
      children = codes "step" ∷ [];
      parent = none;
      path = codes "root";
    }
    ∷ record {
      head = plain_head (codes "step") false atomic;
      children = [];
      parent = some 0;
      path = codes "root.children[0]";
    }
    ∷ []

collect_default_atoms_fuel_example :
    collect_default_atoms two_nodes 9 [] 0 [] ≡ collect_default_atoms two_nodes 3 [] 0 []
collect_default_atoms_fuel_example = collect_default_atoms_fuel two_nodes 9 0 [] (omega arith)

-- A list of one and a half and a text.
abbrev some_list : Value
some_list =
    Value.list
      (Items.cons (Value.number (codes "15e-1")) (Items.cons (Value.text (codes "a")) Items.nil))

abbrev leaf_wire : Scalars → ValueWire
leaf_wire s = wire s no_list no_map no_payload

abbrev some_wire : ValueWire
some_wire =
    wire (scalars ValueKind.list)
      (list_of (
        WireItems.cons
          (leaf_wire (record (scalars ValueKind.number) { number = some (codes "15e-1") }))
          (WireItems.cons
            (leaf_wire (record (scalars ValueKind.string) { string = some (codes "a") }))
            WireItems.nil)))
      no_map no_payload

some_list-wire : to_wire any_utf8 some_list ≡ some some_wire
unfolding to_wire to_wire_items canonical_number span_digits parse_sign parse_integer parse_fraction
    parse_exponent_sign parse_exponent trim_zeros trim_trailing_zeros exponent_suffix
    print_canonical decimal
some_list-wire = refl

value_from_wire-to_wire_example : value_from_wire any_utf8 some_wire ≡ some some_list
value_from_wire-to_wire_example =
    value_from_wire-to_wire any_utf8 some_list some_wire some_list-wire

one_and_a_half : canonical_number (codes "1.50") ≡ some (codes "15e-1")
unfolding canonical_number span_digits parse_sign parse_integer parse_fraction parse_exponent_sign
    parse_exponent trim_zeros trim_trailing_zeros exponent_suffix print_canonical decimal
one_and_a_half = refl

canonical_number_twice_example : canonical_number (codes "15e-1") ≡ some (codes "15e-1")
canonical_number_twice_example =
    canonical_number_twice (codes "1.50") (codes "15e-1") one_and_a_half

abbrev null_model : Datamodel
null_model = record { name = codes "null"; compile = λ d. some (some program) }

abbrev no_digest : Bytes → Bytes
no_digest s = []

abbrev whole_lamp : CompiledChart
whole_lamp = record {
  chart = compiled_lamp;
  definition = normal_lamp;
  fingerprint = codes "null";
  canonical_definition = canonical_header ++ codes "{}";
  revision = codes "sha256:";
}

normal_bytes : canonical_bytes any_utf8 codec normal_lamp ≡ pass (canonical_header ++ codes "{}")
unfolding canonical_bytes
normal_bytes = rw (normalize_definition_twice any_utf8 lamp normal_lamp lamp-normal) refl

lamp-whole : compile any_utf8 codec no_digest lamp (some null_model) ≡ pass whole_lamp
unfolding compile derive_revision hex_encode
lamp-whole = rw lamp-normal (rw normal_bytes (rw lamp-compiled refl))

compile-IsSound_example : IsSound any_utf8 codec no_digest whole_lamp
compile-IsSound_example =
    compile-IsSound any_utf8 codec no_digest lamp (some null_model) whole_lamp lamp-whole
