-- ===== src/Storage/Pools/Names.antt =====
-- Lists of names without repetition, and the last ones of them.
use rheo_stream.Prelude.{
  ℕ, suc, ◌≤◌, String, true, false, List, [], ◌∷◌, ◌++◌, str_eq, str_eq_iff, ltb, elem, elem-append,
  if◌then◌else◌, ◌≡◌, refl, ap, sym, ◌∙◌, subst, arith, Bool-cases, inl, inr,
}

abbrev pub count : List String → ℕ
count [] = 0
count (x ∷ xs) = suc (count xs)

abbrev pub removed : String → List String → List String
removed name [] = []
removed name (x ∷ xs) = let rest = removed name xs in if str_eq x name then rest else x ∷ rest

-- The last `n` of the names.
unfoldable pub recent : ℕ → List String → List String
recent n [] = []
recent n (x ∷ xs) = let rest = recent n xs in if ltb n (count (x ∷ xs)) then rest else x ∷ xs

abbrev pub AreDistinct : List String → Type 0
AreDistinct [] = Unit {0}
AreDistinct (x ∷ xs) = (elem x xs ≡ false) × AreDistinct xs

pub same_true : (x name : String) → str_eq x name ≡ true → str_eq name x ≡ true
same_true x name h = (str_eq_iff name x).1 (sym ((str_eq_iff x name).0 h))

pub same_false : (x name : String) → str_eq x name ≡ false → str_eq name x ≡ false
same_false x name h = elim (Bool-cases (str_eq name x)) [
  | inl same ↦ cc (same_true name x same)
  | inr other ↦ other
]

pub elem-removed :
    (y name : String) (xs : List String) → elem y xs ≡ false → elem y (removed name xs) ≡ false
unfolding elem
elem-removed y name [] h = refl
elem-removed y name (x ∷ xs) h = elim (Bool-cases (str_eq x name)) [
  | inl gone ↦ ground (arith, elem-removed y name xs)
  | inr kept ↦ ground (arith, elem-removed y name xs)
]

pub removed-absent :
    (name : String) (xs : List String) → elem name xs ≡ false → removed name xs ≡ xs
unfolding elem
removed-absent name [] h = refl
removed-absent name (x ∷ xs) h = elim (Bool-cases (str_eq x name)) [
  | inl same ↦ let back = same_true x name same in ground (arith, back)
  | inr other ↦ let rest = removed-absent name xs (ground arith) in ground (arith, rest)
]

pub count-append : (xs : List String) (y : String) → count (xs ++ y ∷ []) ≡ suc (count xs)
count-append [] y = refl
count-append (x ∷ xs) y = ap suc (count-append xs y)

pub count-removed :
    (name : String) (xs : List String)
    → AreDistinct xs
    → elem name xs ≡ true
    → suc (count (removed name xs)) ≡ count xs
unfolding elem
count-removed name [] d h = cc
count-removed name (x ∷ xs) (apart, d) h = elim (Bool-cases (str_eq x name)) [
  | inl same ↦
      let e = (str_eq_iff x name).0 same in
      let absent : elem name xs ≡ false = subst (λ y. elem y xs ≡ false) e apart in
      let rest = removed-absent name xs absent in ground (arith, rest)
  | inr other ↦
      let back = same_false x name other in
      let there : elem name xs ≡ true = ground (arith, back) in
      let rest = count-removed name xs d there in ground (arith, rest)
]

pub recent-whole : (n : ℕ) (xs : List String) → count xs ≤ n → recent n xs ≡ xs
unfolding recent
recent-whole n [] h = refl
recent-whole n (x ∷ xs) h = ground arith

pub recent-recent :
    (n : ℕ) (xs : List String) (y : String)
    → recent n (recent n xs ++ y ∷ []) ≡ recent n (xs ++ y ∷ [])
unfolding recent
recent-recent n [] y = refl
recent-recent n (x ∷ xs) y = elim (Bool-cases (ltb n (count (x ∷ xs)))) [
  | inl over ↦
      let rest = recent-recent n xs y in let more = count-append xs y in ground (arith, rest, more)
  | inr within ↦ ground arith
]

pub elem-recent :
    (n : ℕ) (y : String) (xs : List String) → elem y (recent n xs) ≡ true → elem y xs ≡ true
unfolding elem recent
elem-recent n y [] h = cc
elem-recent n y (x ∷ xs) h = elim (Bool-cases (ltb n (count (x ∷ xs)))) [
  | inl over ↦ let rest = elem-recent n y xs (ground arith) in ground (arith, rest)
  | inr within ↦ ground arith
]

pub count-removed_le :
    (name : String) (xs : List String) → AreDistinct xs → count xs ≤ suc (count (removed name xs))
count-removed_le name xs d = elim (Bool-cases (elem name xs)) [
  | inl there ↦ let e = count-removed name xs d there in omega arith
  | inr absent ↦ let e = ap count (removed-absent name xs absent) in omega arith
]

-- A name that is not among the last ones comes last, whether it has been used before or not.
pub recent-miss :
    (n : ℕ) (name : String) (xs : List String)
    → AreDistinct xs
    → elem name (recent n xs) ≡ false
    → recent n (removed name xs ++ name ∷ []) ≡ recent n (xs ++ name ∷ [])
unfolding recent elem
recent-miss n name [] d h = refl
recent-miss n name (x ∷ xs) (apart, d) h = elim (Bool-cases (ltb n (count (x ∷ xs)))) [
  | inl over ↦
      let rest = recent-miss n name xs d (ground arith) in
      let more = count-append xs name in
      let fewer = count-removed_le name xs d in
      let last = count-append (removed name xs) name in
      elim (Bool-cases (str_eq x name)) [
        | inl same ↦ ground (arith, rest, more)
        | inr other ↦ ground (arith, rest, more, fewer, last)
      ]
  | inr within ↦
      let back = same_true x name in
      let other : str_eq x name ≡ false = ground (arith, back) in
      let gone = removed-absent name xs (ground arith) in ground (arith, other, gone)
]

-- A name among the last ones moves to their end.
pub recent-hit :
    (n : ℕ) (name : String) (xs : List String)
    → AreDistinct xs
    → elem name (recent n xs) ≡ true
    → recent n (removed name xs ++ name ∷ []) ≡ removed name (recent n xs) ++ name ∷ []
unfolding recent elem
recent-hit n name [] d h = cc
recent-hit n name (x ∷ xs) (apart, d) h = elim (Bool-cases (ltb n (count (x ∷ xs)))) [
  | inl over ↦
      let among : elem name (recent n xs) ≡ true = ground arith in
      let rest = recent-hit n name xs d among in
      let there = elem-recent n name xs among in
      let other : str_eq x name ≡ false = elim (Bool-cases (str_eq x name)) [
        | inl same ↦
            let e = (str_eq_iff x name).0 same in
            let absent : elem name xs ≡ false = subst (λ y. elem y xs ≡ false) e apart in cc
        | inr differs ↦ differs
      ] in
      let fewer = count-removed name xs d there in
      let last = count-append (removed name xs) name in ground (arith, rest, other, fewer, last)
  | inr within ↦
      let all = x ∷ xs in
      let fewer : suc (count (removed name all)) ≡ count all =
        count-removed name all (apart, d) (ground arith) in
      let last = count-append (removed name all) name in
      let short : count (removed name all ++ name ∷ []) ≤ n = ground (arith, fewer, last) in
      let same : recent n all ≡ all = ground arith in
      recent-whole n (removed name all ++ name ∷ []) short
      ∙ ap (λ ys. removed name ys ++ name ∷ []) (sym same)
]

pub removed-AreDistinct :
    (name : String) (xs : List String) → AreDistinct xs → AreDistinct (removed name xs)
removed-AreDistinct name [] d = tt
removed-AreDistinct name (x ∷ xs) (apart, d) = elim (Bool-cases (str_eq x name)) [
  | inl gone ↦ rw gone (removed-AreDistinct name xs d)
  | inr kept ↦ rw kept (elem-removed x name xs apart, removed-AreDistinct name xs d)
]

pub append-AreDistinct :
    (name : String) (xs : List String)
    → AreDistinct xs
    → elem name xs ≡ false
    → AreDistinct (xs ++ name ∷ [])
unfolding elem
append-AreDistinct name [] d h = (refl, tt)
append-AreDistinct name (x ∷ xs) (apart, d) h =
    let mid = elem-append x xs (name ∷ []) in
    let fore = same_false name x in
    (ground (arith, mid, fore, apart), append-AreDistinct name xs d (ground arith))

pub elem-removed_self : (name : String) (xs : List String) → elem name (removed name xs) ≡ false
unfolding elem
elem-removed_self name [] = refl
elem-removed_self name (x ∷ xs) = elim (Bool-cases (str_eq x name)) [
  | inl gone ↦ let rest = elem-removed_self name xs in ground (arith, rest)
  | inr kept ↦
      let rest = elem-removed_self name xs in
      let back = same_false x name kept in ground (arith, rest, back)
]
