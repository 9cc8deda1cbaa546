-- ===== src/Storage/Tables/Laws.antt =====
-- Lookups in a table that has grown or that an `UPDATE` has gone over.
use rheo_stream.Prelude.{
  is_some, Bool, true, false, String, str_eq, str_eq_iff, List, [], ◌∷◌, ◌++◌, Option, none, some,
  if◌then◌else◌, ◌≡◌, refl, ap, sym, subst, ◌∙◌, arith, Bool-cases, inl, inr,
}
use rheo_stream.Storage.Tables.{first, update_where}

pub none_of : {A : Type 0} (o : Option A) → is_some o ≡ false → o ≡ none
none_of none h = refl
none_of (some a) h = cc

module _ {A : Type 0} (p : A → Bool) where
  pub first-holds : (xs : List A) (x : A) → first p xs ≡ some x → p x ≡ true
  unfolding first
  first-holds [] x h = cc
  first-holds (y ∷ ys) x h = ground (arith, first-holds ys x)

  -- A row that is there stays the first one.
  pub first-grown : (xs ys : List A) (x : A) → first p xs ≡ some x → first p (xs ++ ys) ≡ some x
  unfolding first
  first-grown [] ys x h = cc
  first-grown (z ∷ zs) ys x h = ground (arith, first-grown zs ys x)

  pub first-new :
      (xs : List A) (x : A)
      → first p xs ≡ none
      → first p (xs ++ x ∷ []) ≡ (if p x then some x else none)
  unfolding first
  first-new [] x h = refl
  first-new (z ∷ zs) x h = ground (arith, first-new zs x)

  abbrev pub updated : (A → Bool) → (A → A) → Option A → Option A
  updated q f none = none
  updated q f (some x) = some (if q x then f x else x)

  -- An `UPDATE` that leaves what the lookup tests leaves the place of what it finds.
  pub first-update_where :
      (q : A → Bool) (f : A → A)
      → ((x : A) → p (f x) ≡ p x)
      → (xs : List A) → first p (update_where q f xs) ≡ updated q f (first p xs)
  unfolding first update_where
  first-update_where q f keeps [] = refl
  first-update_where q f keeps (x ∷ xs) = elim (Bool-cases (q x)) [
    | inl changed ↦ elim (Bool-cases (p x)) [
      | inl found ↦ ground (arith, keeps x)
      | inr other ↦ ground (arith, keeps x, first-update_where q f keeps xs)
    ]
    | inr kept ↦ elim (Bool-cases (p x)) [
      | inl found ↦ ground (arith)
      | inr other ↦ ground (arith, first-update_where q f keeps xs)
    ]
  ]

  pub first-none :
      (q : A → Bool)
      → ((x : A) → q x ≡ true → p x ≡ true)
      → (xs : List A) → first p xs ≡ none
      → first q xs ≡ none
  unfolding first
  first-none q under [] h = refl
  first-none q under (x ∷ xs) h = elim (Bool-cases (p x)) [
    | inl here ↦ cc
    | inr other ↦ ground (arith, under x, first-none q under xs)
  ]

  pub update_where-none : (f : A → A) (xs : List A) → first p xs ≡ none → update_where p f xs ≡ xs
  unfolding first update_where
  update_where-none f [] h = refl
  update_where-none f (x ∷ xs) h = elim (Bool-cases (p x)) [
    | inl here ↦ ground arith
    | inr other ↦ ground (arith, update_where-none f xs)
  ]

-- A table with a key: no two rows have the same one.
module _ {A : Type 0} (key : A → String) where
  abbrev pub has_key : String → A → Bool
  has_key k row = str_eq (key row) k

  abbrev pub Keyed : List A → Type 0
  Keyed [] = Unit {0}
  Keyed (x ∷ xs) = (first (has_key (key x)) xs ≡ none) × Keyed xs

  differ : (x y : A) → has_key (key x) y ≡ false → has_key (key y) x ≡ false
  differ x y h = elim (Bool-cases (has_key (key y) x)) [
    | inl same ↦
        let e = (str_eq_iff (key x) (key y)).0 same in
        let back : has_key (key x) y ≡ true = (str_eq_iff (key y) (key x)).1 (sym e) in cc
    | inr d ↦ d
  ]

  pub Keyed-grown :
      (xs : List A) (x : A) → Keyed xs → first (has_key (key x)) xs ≡ none → Keyed (xs ++ x ∷ [])
  unfolding first
  Keyed-grown [] x k h = (refl, tt)
  Keyed-grown (y ∷ ys) x (apart, k) h = elim (Bool-cases (has_key (key x) y)) [
    | inl same ↦ cc
    | inr other ↦ (
      first-new (has_key (key y)) ys x apart ∙ ground (arith, differ x y other),
      Keyed-grown ys x k (ground arith),
    )
  ]

  pub Keyed-update :
      (q : A → Bool) (f : A → A)
      → ((x : A) → key (f x) ≡ key x)
      → (xs : List A) → Keyed xs
      → Keyed (update_where q f xs)
  unfolding update_where
  Keyed-update q f same [] k = tt
  Keyed-update q f same (x ∷ xs) (apart, k) =
      let x1 = if q x then f x else x in
      let kept : key x1 ≡ key x = ground (arith, same x) in
      (
        subst (λ i. first (has_key i) (update_where q f xs) ≡ none) (sym kept)
            (first-update_where (has_key (key x)) q f (λ y. ap (λ i. str_eq i (key x)) (same y)) xs
              ∙ ap (updated (has_key (key x)) q f) apart),
        Keyed-update q f same xs k,
      )

  -- Where the row with the key fails a test, no row with the key passes it.
  pub Keyed-only :
      (q : A → Bool) (k : String)
      → ((x : A) → q x ≡ true → has_key k x ≡ true)
      → (xs : List A) (row : A) → Keyed xs
      → first (has_key k) xs ≡ some row
      → q row ≡ false
      → first q xs ≡ none
  unfolding first
  Keyed-only q k under [] row keyed h fails = refl
  Keyed-only q k under (x ∷ xs) row (apart, keyed) h fails = elim (Bool-cases (has_key k x)) [
    | inl here ↦
        let e = (str_eq_iff (key x) k).0 here in
        let rest : first q xs ≡ none =
          first-none (has_key (key x)) q
            (λ y p. subst (λ i. has_key i y ≡ true) (sym e) (under y p)) xs apart in
        let this : x ≡ row = cc in
        let failed : q x ≡ false = subst (λ r. q r ≡ false) (sym this) fails in ground (arith, rest)
    | inr other ↦ ground (arith, under x, Keyed-only q k under xs row keyed)
  ]

-- A row that is found and passes another test makes that test find a row.
pub first-passes :
    {A : Type 0} (p q : A → Bool) (xs : List A) (row : A)
    → first p xs ≡ some row
    → q row ≡ true
    → is_some (first q xs) ≡ true
unfolding first
first-passes p q [] row h e = cc
first-passes p q (x ∷ xs) row h e = elim (Bool-cases (p x)) [
  | inl here ↦
      let this : x ≡ row = cc in
      let passes : q x ≡ true = subst (λ r. q r ≡ true) (sym this) e in ground (arith, passes)
  | inr other ↦ elim (Bool-cases (q x)) [
    | inl passes ↦ ground arith
    | inr fails ↦ ground (arith, first-passes p q xs row)
  ]
]
