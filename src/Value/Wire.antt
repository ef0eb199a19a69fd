-- ===== src/Value/Wire.antt =====
-- value.go: `ValueWire`, the wire form of a value, to and from.
use statecharts.Base.{
  ℕ, ◌+◌, Bool, true, false, if◌then◌else◌, Option, none, some, ◌==◌, is_some, not,
}
use statecharts.Base.Bytes.{Bytes, bytes_eq}
use statecharts.Base.Options.{◌>>=◌, ◌>>◌, require}
use statecharts.Identifier.{is_nil}
use statecharts.Value.{Value, boolean, text, object, Items, Fields}
use statecharts.Value.Number.{canonical_number}

-- `NumberValue`, `BoolValue`, `TaggedValue`: errors are `none`.
unfoldable pub number_value : Bytes → Option Value
unfolding canonical_number
number_value s = do c ← canonical_number s; some (Value.number c)

unfoldable pub tagged_value : (Bytes → Bool) → Bytes → Value → Option Value
tagged_value valid_utf8 tag payload =
    if is_nil tag then none else if valid_utf8 tag then some (Value.tagged tag payload) else none

-- `ValueKind`
pub data ValueKind : Type 0 where
  null bool string number list map tagged : ValueKind
  unknown : Bytes → ValueKind

-- The fields of `ValueWire` that hold no wire, of which a nil pointer is `none`.
pub record Scalars : Type 0 where
  pub version : ℕ
  pub kind : ValueKind
  pub bool : Option Bool
  pub string : Option Bytes
  pub number : Option Bytes
  pub tag : Option Bytes

-- `ValueWire`, with its list, its map and its payload.
mutual
  pub data ValueWire : Type 0 where
    wire : Scalars → WireList → WireMap → WirePayload → ValueWire

  pub data WireList : Type 0 where
    no_list : WireList
    list_of : WireItems → WireList

  pub data WireItems : Type 0 where
    nil : WireItems
    cons : ValueWire → WireItems → WireItems

  pub data WireMap : Type 0 where
    no_map : WireMap
    map_of : WireFields → WireMap

  pub data WireFields : Type 0 where
    end : WireFields
    field : Bytes → ValueWire → WireFields → WireFields

  pub data WirePayload : Type 0 where
    no_payload : WirePayload
    payload_of : ValueWire → WirePayload

abbrev pub value_wire_version : ℕ
value_wire_version = 1

abbrev pub scalars : ValueKind → Scalars
scalars k = record {
  version = value_wire_version;
  kind = k;
  bool = none;
  string = none;
  number = none;
  tag = none;
}

abbrev plain : Scalars → ValueWire
plain s = wire s no_list no_map no_payload

abbrev pub is_canonical : Bytes → Option Bytes → Bool
is_canonical s none = false
is_canonical s (some c) = bytes_eq c s

module _ (valid_utf8 : Bytes → Bool) where
  -- `Wire`, whose error is `none`.
  unfoldable mutual
    unfolding canonical_number

    pub to_wire : Value → Option ValueWire
    to_wire Value.null = some (plain (scalars ValueKind.null))
    to_wire (boolean b) = some (plain (record (scalars ValueKind.bool) { bool = some b }))
    to_wire (text s) = do
      require (valid_utf8 s)
      some (plain (record (scalars ValueKind.string) { string = some s }))
    to_wire (Value.number s) = do
      require (is_canonical s (canonical_number s))
      some (plain (record (scalars ValueKind.number) { number = some s }))
    to_wire (Value.list vs) = do
      ws ← to_wire_items vs
      some (wire (scalars ValueKind.list) (list_of ws) no_map no_payload)
    to_wire (object fs) = do
      ws ← to_wire_fields fs
      some (wire (scalars ValueKind.map) no_list (map_of ws) no_payload)
    to_wire (Value.tagged t v) = do
      require (not (is_nil t))
      require (valid_utf8 t)
      w ← to_wire v
      some (wire (record (scalars ValueKind.tagged) { tag = some t }) no_list no_map (payload_of w))

    pub to_wire_items : Items → Option WireItems
    to_wire_items Items.nil = some WireItems.nil
    to_wire_items (Items.cons v vs) = do
      w ← to_wire v
      ws ← to_wire_items vs
      some (WireItems.cons w ws)

    pub to_wire_fields : Fields → Option WireFields
    to_wire_fields Fields.end = some WireFields.end
    to_wire_fields (Fields.field k v fs) = do
      require (valid_utf8 k)
      w ← to_wire v
      ws ← to_wire_fields fs
      some (WireFields.field k w ws)

abbrev present : Bool → ℕ
present true = 1
present false = 0

abbrev has_list : WireList → Bool
has_list no_list = false
has_list (list_of ws) = true

abbrev has_map : WireMap → Bool
has_map no_map = false
has_map (map_of ws) = true

abbrev has_payload : WirePayload → Bool
has_payload no_payload = false
has_payload (payload_of w) = true

-- `wireFieldCount`
unfoldable pub wire_field_count : Scalars → WireList → WireMap → WirePayload → ℕ
wire_field_count s l m p =
    present (is_some s.bool)
    + present (is_some s.string)
    + present (is_some s.number)
    + present (has_list l)
    + present (has_map m)
    + present (is_some s.tag)
    + present (has_payload p)

-- The number of fields that go with a kind.
abbrev pub fields_wanted : ValueKind → ℕ
fields_wanted ValueKind.null = 0
fields_wanted ValueKind.tagged = 2
fields_wanted k = 1

module _ (valid_utf8 : Bytes → Bool) where
  -- The case of a kind, with what the list, the map and the payload have been decoded to.
  unfoldable pub value_of_kind :
      ValueKind → Scalars → Option Items → Option Fields → Option Value → Option Value
  unfolding number_value
  value_of_kind ValueKind.null s l m p = some Value.null
  value_of_kind ValueKind.bool s l m p = do b ← s.bool; some (boolean b)
  value_of_kind ValueKind.string s l m p = do t ← s.string; require (valid_utf8 t); some (text t)
  value_of_kind ValueKind.number s l m p = do n ← s.number; number_value n
  value_of_kind ValueKind.list s l m p = do vs ← l; some (Value.list vs)
  value_of_kind ValueKind.map s l m p = do fs ← m; some (object fs)
  value_of_kind ValueKind.tagged s l m p = do
    t ← s.tag
    require (not (is_nil t))
    require (valid_utf8 t)
    v ← p
    some (Value.tagged t v)
  value_of_kind (ValueKind.unknown k) s l m p = none

  -- `ValueFromWire`, whose error is `none`.
  unfoldable mutual
    unfolding value_of_kind wire_field_count

    pub value_from_wire : ValueWire → Option Value
    value_from_wire (wire s l m p) = do
      require (s.version == value_wire_version)
      require (wire_field_count s l m p == fields_wanted s.kind)
      value_of_kind s.kind s (values_of_list l) (fields_of_map m) (value_of_payload p)

    pub values_of_list : WireList → Option Items
    values_of_list no_list = none
    values_of_list (list_of ws) = values_of ws

    pub values_of : WireItems → Option Items
    values_of WireItems.nil = some Items.nil
    values_of (WireItems.cons w ws) = do
      v ← value_from_wire w
      vs ← values_of ws
      some (Items.cons v vs)

    pub fields_of_map : WireMap → Option Fields
    fields_of_map no_map = none
    fields_of_map (map_of ws) = fields_of ws

    pub fields_of : WireFields → Option Fields
    fields_of WireFields.end = some Fields.end
    fields_of (WireFields.field k w ws) = do
      require (valid_utf8 k)
      v ← value_from_wire w
      fs ← fields_of ws
      some (Fields.field k v fs)

    pub value_of_payload : WirePayload → Option Value
    value_of_payload no_payload = none
    value_of_payload (payload_of w) = value_from_wire w
