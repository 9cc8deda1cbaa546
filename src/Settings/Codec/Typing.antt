-- ===== src/Settings/Codec/Typing.antt =====
-- Decoded values have the declared type and are among the choices.
use rheo_stream.Prelude.{String, ◌≡◌, ◌∙◌, Bool, true, Option, none, ok, >>=-eq-ok, some, arith}
use rheo_stream.Prelude.Int.{ℤ}
use rheo_stream.Prelude.Text.{split, strip, lower}
use rheo_stream.Settings.Codec.Decimal.{parse_int}
use rheo_stream.Settings.Value.{
  ValueType, str_type, int_type, bool_type, str_list_type, Value, int, bool, Error, setting_type,
  HasType,
}
use rheo_stream.Settings.Spec.{KeySpec, allows, check, check-eq-ok}
use rheo_stream.Settings.Codec.{coerce, decode_text, read_items, read_bool, or_mismatch}

coerce-HasType :
    (y : ValueType) (t : String) (e : Error) (v : Value) → coerce y t e ≡ ok v → HasType y v
unfolding coerce
coerce-HasType str_type t e v h = (t, ground arith)
coerce-HasType int_type t e v h = go (parse_int (strip t)) h
  where
    go : (o : Option ℤ) → or_mismatch int e o ≡ ok v → HasType int_type v
    go none q = cc
    go (some n) q = (n, ground arith)
coerce-HasType bool_type t e v h = go (read_bool (lower (strip t))) h
  where
    go : (o : Option Bool) → or_mismatch bool e o ≡ ok v → HasType bool_type v
    go none q = cc
    go (some b) q = (b, ground arith)
coerce-HasType str_list_type t e v h = (read_items (split b',' t), ground arith)

-- A text that is decoded gives a value of the declared type, among the choices if there are any.
pub decode_text-HasType :
    (spec : KeySpec) (t : String) (v : Value)
    → decode_text spec t ≡ ok v
    → HasType spec.type v × (allows spec.choices v ≡ true)
unfolding decode_text
decode_text-HasType spec t v h =
    let (w, coerced, rest) = >>=-eq-ok (coerce spec.type t (setting_type spec.key)) _ h in
    let (u, checked, same) =
      >>=-eq-ok (check (allows spec.choices w) (setting_type spec.key)) _ rest in
    (
      coerce-HasType spec.type t (setting_type spec.key) v (coerced ∙ same),
      cc (check-eq-ok (allows spec.choices w) (setting_type spec.key) checked),
    )
