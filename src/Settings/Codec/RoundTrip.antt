-- ===== src/Settings/Codec/RoundTrip.antt =====
-- Which values the text codec gives back.
use rheo_stream.Prelude.{
  String, Bool, true, false, List, [], ◌∷◌, map, some, ok, ◌≡◌, ◌≢◌, refl, sym, ◌∙◌, ap, subst,
  arith, str_eq, str_eq_iff, Bool-cases, inl, inr, ok_injective, if◌then◌else◌, elem, >>=-eq-ok,
}
use rheo_stream.Prelude.Text.{split, strip, join, lower}
use rheo_stream.Prelude.Text.Strip.{strip_idem}
use rheo_stream.Prelude.Text.Split.{Lacks, AllLack, split-AllLack, split-join, Lacks-strip}
use rheo_stream.Settings.Value.{
  ValueType, str_type, int_type, bool_type, str_list_type, Value, tuple, text, texts, all_text,
  Error, HasType, setting_type,
}
use rheo_stream.Settings.Spec.{KeySpec, allows, check}
use rheo_stream.Settings.Codec.{
  coerce, decode_text, encode_as, encode_text, read_items, read_bool, join_items,
}
use rheo_stream.Settings.Codec.Decimal.{show_int}
use rheo_stream.Settings.Codec.Decimal.RoundTrip.{parse_int-strip-show_int}
use rheo_stream.Settings.Codec.Typing.{decode_text-HasType}

-- An item that the comma-separated form keeps: no comma, no space at its ends, and not empty.
abbrev pub IsClean : String → Type 0
IsClean w = Lacks b',' w × (strip w ≡ w) × (w ≢ "")

abbrev pub AllClean : List String → Type 0
AllClean [] = Unit
AllClean (w ∷ ws) = IsClean w × AllClean ws

abbrev pub IsEncodable : Value → Type 0
IsEncodable (tuple xs) = AllClean (texts xs)
IsEncodable v = Unit

texts-map : (xs : List String) → texts (map text xs) ≡ xs
texts-map [] = refl
texts-map (x ∷ xs) = ap (λ r. x ∷ r) (texts-map xs)

all_text-map : (xs : List String) → all_text (map text xs) ≡ true
all_text-map [] = refl
all_text-map (x ∷ xs) = all_text-map xs

read_items-AllClean : (words : List String) → AllLack b',' words → AllClean (read_items words)
unfolding read_items
read_items-AllClean [] h = tt
read_items-AllClean (w ∷ ws) h = elim (Bool-cases (str_eq (strip w) "")) [
  | inl empty ↦ rw empty (read_items-AllClean ws h.1)
  | inr kept ↦ rw kept (
    (Lacks-strip b',' w h.0, strip_idem w, λ e. ground (arith, str_eq_iff (strip w) "")),
    read_items-AllClean ws h.1,
  )
]

read_items_of_AllClean : (words : List String) → AllClean words → read_items words ≡ words
unfolding read_items
read_items_of_AllClean [] h = refl
read_items_of_AllClean (w ∷ ws) h =
    ground (arith, read_items_of_AllClean ws h.1, str_eq_iff w "", h.0.1)

AllClean→AllLack : (words : List String) → AllClean words → AllLack b',' words
AllClean→AllLack [] h = tt
AllClean→AllLack (w ∷ ws) h = (h.0.0, AllClean→AllLack ws h.1)

read-join :
    (words : List String) → AllClean words → read_items (split b',' (join "," words)) ≡ words
read-join [] h = unfold read_items split join strip in refl
read-join (w ∷ ws) h =
    ap read_items (split-join "," w ws (AllClean→AllLack (w ∷ ws) h))
    ∙ read_items_of_AllClean (w ∷ ws) h

read_bool-lower : (b : Bool) → read_bool (lower (strip (if b then "true" else "false"))) ≡ some b
unfolding read_bool lower strip elem
read_bool-lower true = refl
read_bool-lower false = refl

module _ (show : Value → String) where
  -- An encodable value of the type has a text, which is read back as the value.
  encode_as-coerce :
      (y : ValueType) (v : Value) (x : Error)
      → HasType y v
      → IsEncodable v
      → (t : String) × (encode_as show y v ≡ ok t) × (coerce y t x ≡ ok v)
  unfolding encode_as join_items coerce
  encode_as-coerce str_type v x (s, e) clean = (s, rw e, rw e)
  encode_as-coerce int_type v x (n, e) clean =
      (show_int n, rw e, rw (e, parse_int-strip-show_int n))
  encode_as-coerce bool_type v x (b, e) clean =
      (if b then "true" else "false", rw e, rw (e, read_bool-lower b))
  encode_as-coerce str_list_type v x (xs, e) clean = (
    join "," xs,
    rw (e, all_text-map xs, texts-map xs),
    rw (e, read-join xs (subst AllClean (texts-map xs) (subst IsEncodable e clean))),
  )

  -- A value of the declared type, among the choices, whose items are clean if it is a list (not
  -- empty, no comma, no outer space), is encoded to a text that decodes to the same value.
  pub encode_text-decode_text :
      (spec : KeySpec) (v : Value)
      → HasType spec.type v
      → allows spec.choices v ≡ true
      → IsEncodable v
      → (t : String) × (encode_text show spec v ≡ ok t) × (decode_text spec t ≡ ok v)
  unfolding encode_text decode_text
  encode_text-decode_text spec v typed allowed clean =
      let (t, encoded, read) = encode_as-coerce spec.type v (setting_type spec.key) typed clean in
      (t, encoded, rw (read, allowed))

coerce-IsEncodable :
    (y : ValueType) (t : String) (x : Error) (v : Value)
    → HasType y v
    → coerce y t x ≡ ok v
    → IsEncodable v
unfolding coerce
coerce-IsEncodable str_type t x v (s, e) h = rw e tt
coerce-IsEncodable int_type t x v (s, e) h = rw e tt
coerce-IsEncodable bool_type t x v (s, e) h = rw e tt
coerce-IsEncodable str_list_type t x v (s, e) h = subst IsEncodable (ok_injective h) (
    subst AllClean (sym (texts-map (read_items (split b',' t))))
      (read_items-AllClean (split b',' t) (split-AllLack b',' t)))

-- Every decoded value is encodable.
pub decode_text-IsEncodable :
    (spec : KeySpec) (t : String) (v : Value) → decode_text spec t ≡ ok v → IsEncodable v
unfolding decode_text
decode_text-IsEncodable spec t v h =
    let (w, coerced, rest) = >>=-eq-ok (coerce spec.type t (setting_type spec.key)) _ h in
    let (u, checked, same) =
      >>=-eq-ok (check (allows spec.choices w) (setting_type spec.key)) _ rest in
    coerce-IsEncodable spec.type t (setting_type spec.key) v (decode_text-HasType spec t v h).0
      (coerced ∙ same)

-- A text that decodes gives a value whose own text decodes to that value again.
pub decode_text-encode_text :
    (show : Value → String) (spec : KeySpec) (t : String) (v : Value)
    → decode_text spec t ≡ ok v
    → (u : String) × (encode_text show spec v ≡ ok u) × (decode_text spec u ≡ ok v)
decode_text-encode_text show spec t v h =
    let (typed, allowed) = decode_text-HasType spec t v h in
    encode_text-decode_text show spec v typed allowed (decode_text-IsEncodable spec t v h)

-- No text decodes to a list with an item that is not clean (empty, with a comma, or with an outer
-- space).
pub decode_text-ne-unclean :
    (spec : KeySpec) (t : String) (v : Value) → ¬ IsEncodable v → decode_text spec t ≢ ok v
decode_text-ne-unclean spec t v unclean h = unclean (decode_text-IsEncodable spec t v h)
