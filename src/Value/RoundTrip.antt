-- ===== src/Value/RoundTrip.antt =====
-- value.go: a value survives its wire form.
use statecharts.Base.{◌≡◌, refl, sym, ap, ◌∙◌, subst, Bool, true, not, some, Option-cases, inl, inr}
use statecharts.Base.Bytes.{Bytes, eq_of_bytes_eq}
use statecharts.Base.Options.{require, >>=-eq-some, require-eq-some, some_inj}
use statecharts.Identifier.{is_nil}
use statecharts.Value.{Value, boolean, text, object, Items, Fields}
use statecharts.Value.Number.{canonical_number}
use statecharts.Value.Wire.{
  number_value, ValueWire, WireItems, WireFields, wire_field_count, is_canonical, to_wire,
  to_wire_items, to_wire_fields, value_from_wire, value_of_kind, values_of, fields_of,
}

number_value_canonical :
    (s : Bytes)
    → is_canonical s (canonical_number s) ≡ true
    → number_value s ≡ some (Value.number s)
unfolding number_value
number_value_canonical s h = elim (Option-cases (canonical_number s)) [
  | inl e ↦ cc (ap (is_canonical s) e)
  | inr (c, e) ↦
      rw e (ap (λ t. some (Value.number t)) (eq_of_bytes_eq c s (sym (ap (is_canonical s) e) ∙ h)))
]

module _ (valid_utf8 : Bytes → Bool) where
  mutual
    unfolding to_wire value_from_wire value_of_kind wire_field_count

    pub value_from_wire_of :
        (v : Value) (w : ValueWire)
        → to_wire valid_utf8 v ≡ some w
        → value_from_wire valid_utf8 w ≡ some v
    value_from_wire_of Value.null w e =
        subst (λ u. value_from_wire valid_utf8 u ≡ some Value.null) (some_inj e) refl
    value_from_wire_of (boolean b) w e =
        subst (λ u. value_from_wire valid_utf8 u ≡ some (boolean b)) (some_inj e) refl
    value_from_wire_of (text s) w e =
        let (u, h, e1) = >>=-eq-some (require (valid_utf8 s)) _ e in
        subst (λ u. value_from_wire valid_utf8 u ≡ some (text s)) (some_inj e1) (rw h refl)
    value_from_wire_of (Value.number s) w e =
        let (u, h, e1) = >>=-eq-some (require (is_canonical s (canonical_number s))) _ e in
        subst (λ u. value_from_wire valid_utf8 u ≡ some (Value.number s)) (some_inj e1)
          (number_value_canonical s (require-eq-some (is_canonical s (canonical_number s)) h))
    value_from_wire_of (Value.list vs) w e =
        let (ws, h, e1) = >>=-eq-some (to_wire_items valid_utf8 vs) _ e in
        subst (λ u. value_from_wire valid_utf8 u ≡ some (Value.list vs)) (some_inj e1)
          (rw (values_of-to_wire_items vs ws h) refl)
    value_from_wire_of (object fs) w e =
        let (ws, h, e1) = >>=-eq-some (to_wire_fields valid_utf8 fs) _ e in
        subst (λ u. value_from_wire valid_utf8 u ≡ some (object fs)) (some_inj e1)
          (rw (fields_of-to_wire_fields fs ws h) refl)
    value_from_wire_of (Value.tagged t v) w e =
        let (a, ha, e1) = >>=-eq-some (require (not (is_nil t))) _ e in
        let (b, hb, e2) = >>=-eq-some (require (valid_utf8 t)) _ e1 in
        let (p, hp, e3) = >>=-eq-some (to_wire valid_utf8 v) _ e2 in
        subst (λ u. value_from_wire valid_utf8 u ≡ some (Value.tagged t v)) (some_inj e3)
          (rw (ha, hb, value_from_wire_of v p hp) refl)

    values_of-to_wire_items :
        (vs : Items) (ws : WireItems)
        → to_wire_items valid_utf8 vs ≡ some ws
        → values_of valid_utf8 ws ≡ some vs
    values_of-to_wire_items Items.nil ws e =
        subst (λ u. values_of valid_utf8 u ≡ some Items.nil) (some_inj e) refl
    values_of-to_wire_items (Items.cons v vs) ws e =
        let (a, ha, e1) = >>=-eq-some (to_wire valid_utf8 v) _ e in
        let (b, hb, e2) = >>=-eq-some (to_wire_items valid_utf8 vs) _ e1 in
        subst (λ u. values_of valid_utf8 u ≡ some (Items.cons v vs)) (some_inj e2)
          (rw (value_from_wire_of v a ha, values_of-to_wire_items vs b hb) refl)

    fields_of-to_wire_fields :
        (fs : Fields) (ws : WireFields)
        → to_wire_fields valid_utf8 fs ≡ some ws
        → fields_of valid_utf8 ws ≡ some fs
    fields_of-to_wire_fields Fields.end ws e =
        subst (λ u. fields_of valid_utf8 u ≡ some Fields.end) (some_inj e) refl
    fields_of-to_wire_fields (Fields.field k v fs) ws e =
        let (u, h, e1) = >>=-eq-some (require (valid_utf8 k)) _ e in
        let (a, ha, e2) = >>=-eq-some (to_wire valid_utf8 v) _ e1 in
        let (b, hb, e3) = >>=-eq-some (to_wire_fields valid_utf8 fs) _ e2 in
        subst (λ u. fields_of valid_utf8 u ≡ some (Fields.field k v fs)) (some_inj e3)
          (rw (h, value_from_wire_of v a ha, fields_of-to_wire_fields fs b hb) refl)

  -- The wire form of a value, read again, is the value: for every value that has a wire form.
  pub value_from_wire-to_wire :
      (v : Value) (w : ValueWire)
      → to_wire valid_utf8 v ≡ some w
      → value_from_wire valid_utf8 w ≡ some v
  value_from_wire-to_wire v w e = value_from_wire_of v w e
