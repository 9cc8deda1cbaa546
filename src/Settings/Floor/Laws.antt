-- ===== src/Settings/Floor/Laws.antt =====
-- What the floors of settings/resolver.py guarantee, over values of the floor's type.
use rheo_stream.Prelude.{
  String, Bool, true, false, not, ◌&&◌, List, [], ◌∷◌, ◌++◌, map, Result, ok, ◌≡◌, refl, sym, ◌∙◌,
  ap, arith, elem, keep, inter, diff, subset, elem-append, elem-keep, subset→elem, subset_of_elem,
  SameSet,
}
use rheo_stream.Prelude.Int.{min_ℤ, eq_of_parts}
use rheo_stream.Settings.Value.{
  Floor, min_floor, union_floor, subset_floor, and_floor, Item, text, Value, int, bool, tuple,
  Error, ValueType, str_list_type, HasType, floor_type,
}
use rheo_stream.Settings.Floor.{elem_item, keep_items, subset_items, apply_floor, is_looser}

elem_item-text : (x : String) (ys : List String) → elem_item (text x) (map text ys) ≡ elem x ys
unfolding elem_item elem
elem_item-text x [] = refl
elem_item-text x (y ∷ ys) = rw (elem_item-text x ys)

keep_items-text :
    (p : Item → Bool) (xs : List String)
    → keep_items p (map text xs) ≡ map text (keep (λ s. p (text s)) xs)
unfolding keep_items keep
keep_items-text p [] = refl
keep_items-text p (x ∷ xs) = ground (arith, keep_items-text p xs)

subset_items-text : (xs ys : List String) → subset_items (map text xs) (map text ys) ≡ subset xs ys
unfolding subset_items subset
subset_items-text [] ys = refl
subset_items-text (x ∷ xs) ys = rw (elem_item-text x ys, subset_items-text xs ys)

map-text-append : (xs ys : List String) → map text xs ++ map text ys ≡ map text (xs ++ ys)
map-text-append [] ys = refl
map-text-append (x ∷ xs) ys = ap (λ r. text x ∷ r) (map-text-append xs ys)

abbrev pub texts_value : List String → Value
texts_value xs = tuple (map text xs)

pub apply_floor-union :
    (a b : List String)
    → apply_floor union_floor (texts_value a) (texts_value b) ≡ ok (texts_value (a ++ diff b a))
unfolding apply_floor
apply_floor-union a b = simp (keep_items-text, elem_item-text, map-text-append)

pub apply_floor-subset :
    (a b : List String)
    → apply_floor subset_floor (texts_value a) (texts_value b) ≡ ok (texts_value (inter a b))
unfolding apply_floor
apply_floor-subset a b = simp (keep_items-text, elem_item-text)

pub is_looser-union :
    (a b : List String)
    → is_looser union_floor (texts_value a) (texts_value b) ≡ ok (not (subset a b))
unfolding is_looser
is_looser-union a b = simp subset_items-text

pub is_looser-subset :
    (a b : List String)
    → is_looser subset_floor (texts_value a) (texts_value b) ≡ ok (not (subset b a))
unfolding is_looser
is_looser-subset a b = simp subset_items-text

subset-append : (a b : List String) → subset a (a ++ b) ≡ true
subset-append a b = subset_of_elem a (a ++ b) (λ x h. ground (arith, elem-append x a b))

subset-inter : (a b : List String) → subset (inter a b) a ≡ true
subset-inter a b =
    subset_of_elem (inter a b) a (λ x h. ground (arith, elem-keep (λ y. elem y b) x a))

-- `v` is no looser than `d`.
abbrev pub Within : Floor → Value → Value → Type 0
Within f d v = is_looser f d v ≡ ok false

-- Two values of a type that mean the same: the same set of texts, or equal.
abbrev pub SameMeaning : ValueType → Value → Value → Type 0
SameMeaning str_list_type v w =
    (xs : List String) × (ys : List String) × (v ≡ texts_value xs)
    × (w ≡ texts_value ys)
    × SameSet xs ys
SameMeaning _ v w = v ≡ w

-- A floor of a deployment value and an override of its type returns a value of that type which is
-- no looser than the deployment value.
pub apply_floor-Within :
    (f : Floor) (d o : Value)
    → HasType (floor_type f) d
    → HasType (floor_type f) o
    → (v : Value) × (apply_floor f d o ≡ ok v) × HasType (floor_type f) v × Within f d v
apply_floor-Within min_floor d o (a, da) (b, ob) = (
  int (min_ℤ a b),
  unfold apply_floor in rw (da, ob) refl,
  (min_ℤ a b, refl),
  unfold is_looser in rw (da) (ground arith),
)
apply_floor-Within union_floor d o (a, da) (b, ob) = (
  texts_value (a ++ diff b a),
  rw (da, ob) (apply_floor-union a b),
  (a ++ diff b a, refl),
  rw (da, is_looser-union, subset-append),
)
apply_floor-Within subset_floor d o (a, da) (b, ob) = (
  texts_value (inter a b),
  rw (da, ob) (apply_floor-subset a b),
  (inter a b, refl),
  rw (da, is_looser-subset, subset-inter),
)
apply_floor-Within and_floor d o (a, da) (b, ob) = (
  bool (a && b),
  unfold apply_floor in rw (da, ob) (ground arith),
  (a && b, refl),
  unfold is_looser in rw (da) (ground arith),
)

subset_of-not : (b : Bool) → ◌≡◌ {A = Result Error Bool} (ok (not b)) (ok false) → b ≡ true
subset_of-not b h = ground arith

union-Within :
    (v w : Value) (a b : List String)
    → v ≡ texts_value a
    → w ≡ texts_value b
    → Within union_floor v w
    → subset a b ≡ true
union-Within v w a b va wb h = subset_of-not _ (sym (is_looser-union a b) ∙ rw (va, wb) at h)

subset-Within :
    (v w : Value) (a b : List String)
    → v ≡ texts_value a
    → w ≡ texts_value b
    → Within subset_floor v w
    → subset b a ≡ true
subset-Within v w a b va wb h = subset_of-not _ (sym (is_looser-subset a b) ∙ rw (va, wb) at h)

-- For an override of the floor's type that is no looser than the deployment value, the result of
-- the floor is the override, up to the order of a list.
pub apply_floor_exact :
    (f : Floor) (d o v : Value)
    → HasType (floor_type f) d
    → HasType (floor_type f) o
    → Within f d o
    → apply_floor f d o ≡ ok v
    → SameMeaning (floor_type f) v o
apply_floor_exact min_floor d o v (a, da) (b, ob) w e =
    unfold apply_floor is_looser in ground (arith, eq_of_parts a b)
apply_floor_exact union_floor d o v (a, da) (b, ob) w e = (
  a ++ diff b a,
  b,
  cc (apply_floor-union a b, da, ob, e),
  ob,
  λ x. ground (
    arith,
    elem-append x a (diff b a),
    elem-keep (λ y. not (elem y a)) x b,
    subset→elem x a b (union-Within d o a b da ob w),
  ),
)
apply_floor_exact subset_floor d o v (a, da) (b, ob) w e = (
  inter a b,
  b,
  cc (apply_floor-subset a b, da, ob, e),
  ob,
  λ x.
      ground
        (arith, elem-keep (λ y. elem y b) x a, subset→elem x b a (subset-Within d o a b da ob w)),
)
apply_floor_exact and_floor d o v (a, da) (b, ob) w e = unfold apply_floor is_looser in ground arith

subset_refl : (a : List String) → subset a a ≡ true
subset_refl a = subset_of_elem a a (λ x m. m)

subset_trans : (a b c : List String) → subset a b ≡ true → subset b c ≡ true → subset a c ≡ true
subset_trans a b c h k = subset_of_elem a c (λ x m. subset→elem x b c k (subset→elem x a b h m))

pub Within-refl : (f : Floor) (a : Value) → HasType (floor_type f) a → Within f a a
Within-refl min_floor a (x, ax) = unfold is_looser in rw (ax) (ground arith)
Within-refl union_floor a (x, ax) = rw (ax, is_looser-union, subset_refl)
Within-refl subset_floor a (x, ax) = rw (ax, is_looser-subset, subset_refl)
Within-refl and_floor a (x, ax) = unfold is_looser in rw (ax) (ground arith)

pub Within-trans :
    (f : Floor) (a b c : Value)
    → HasType (floor_type f) a
    → HasType (floor_type f) b
    → HasType (floor_type f) c
    → Within f a b
    → Within f b c
    → Within f a c
Within-trans min_floor a b c (x, ax) (y, by) (z, cz) h k = unfold is_looser in ground arith
Within-trans union_floor a b c (x, ax) (y, by) (z, cz) h k = rw (
  ax,
  cz,
  is_looser-union,
  subset_trans x y z (union-Within a b x y ax by h) (union-Within b c y z by cz k),
)
Within-trans subset_floor a b c (x, ax) (y, by) (z, cz) h k = rw (
  ax,
  cz,
  is_looser-subset,
  subset_trans z y x (subset-Within b c y z by cz k) (subset-Within a b x y ax by h),
)
Within-trans and_floor a b c (x, ax) (y, by) (z, cz) h k = unfold is_looser in ground arith
