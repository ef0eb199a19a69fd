-- ===== src/Value.antt =====
-- value.go: canonical data. UTF-8 validity is the parameter `valid_utf8` (package unicode/utf8).
pub mod Number
pub mod Wire
pub mod RoundTrip
pub mod Digits
pub mod Exponent
pub mod Canonical
use statecharts.Base.{Bool, true, if◌then◌else◌, ◌&&◌, Option, none, some}
use statecharts.Base.Bytes.{Bytes, codes, bytes_eq}

-- `Value`. A map keeps its entries in a list, keyed once.
mutual
  pub data Value : Type 0 where
    null : Value
    boolean : Bool → Value
    text : Bytes → Value
    number : Bytes → Value
    list : Items → Value
    object : Fields → Value
    tagged : Bytes → Value → Value

  pub data Items : Type 0 where
    nil : Items
    cons : Value → Items → Items

  pub data Fields : Type 0 where
    end : Fields
    field : Bytes → Value → Fields → Fields

-- `AsString`
unfoldable pub as_string : Value → Option Bytes
as_string (text s) = some s
as_string v = none

-- `AsMap` and `AsTagged`, without the copies that they make.
unfoldable pub as_map : Value → Option Fields
as_map (object fs) = some fs
as_map v = none

unfoldable pub as_tagged : Value → Option (Bytes × Value)
as_tagged (tagged t v) = some (t, v)
as_tagged v = none

-- `m[key]`, the zero value for a missing key.
unfoldable pub get_field : Bytes → Fields → Value
get_field k end = null
get_field k (field j v fs) = let rest = get_field k fs in if bytes_eq j k then v else rest

-- `StringValue`, whose error is `none`.
unfoldable pub string_value : (Bytes → Bool) → Bytes → Option Value
string_value valid_utf8 s = if valid_utf8 s then some (text s) else none

-- `stringValue` of interpreter.go, which drops the error: the zero `Value` is null.
unfoldable pub string_or_null : (Bytes → Bool) → Bytes → Value
unfolding string_value
string_or_null valid_utf8 s = elim (string_value valid_utf8 s) [ none ↦ null | some v ↦ v ]

-- The name of a value's kind: `Kind`.
abbrev pub kind_name : Value → Bytes
kind_name null = codes "null"
kind_name (boolean b) = codes "bool"
kind_name (text s) = codes "string"
kind_name (number s) = codes "number"
kind_name (list xs) = codes "list"
kind_name (object fs) = codes "map"
kind_name (tagged t v) = codes "tagged"

-- `m[key] = value`
unfoldable pub set_field : Bytes → Value → Fields → Fields
set_field k v end = field k v end
set_field k v (field j w fs) =
    let rest = field j w (set_field k v fs) in if bytes_eq j k then field k v fs else rest

unfoldable pub keys_valid : (Bytes → Bool) → Fields → Bool
keys_valid valid_utf8 end = true
keys_valid valid_utf8 (field k v fs) = valid_utf8 k && keys_valid valid_utf8 fs

-- `MapValue`, whose error is `none`.
unfoldable pub map_value : (Bytes → Bool) → Fields → Option Value
unfolding keys_valid
map_value valid_utf8 fs = if keys_valid valid_utf8 fs then some (object fs) else none
