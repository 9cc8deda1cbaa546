-- ===== src/Storage/ControlPlane/Tokens.antt =====
-- The token tables: what an insertion leaves, and what a lookup then finds.
use rheo_stream.Prelude.{
  String, Bool, true, List, [], ◌∷◌, ◌++◌, none, some, ok, >>=-eq-ok, ok_injective, ◌==◌, ==_iff,
  str_eq, str_eq_refl, ◌≡◌, refl, ◌∙◌, ap, sym, subst, arith, Bool-cases, inl, inr,
}
use rheo_stream.Contracts.{Uuid}
use rheo_stream.Storage.Tables.{ControlPlane, AccessTokenRow, first}
use rheo_stream.Storage.Tables.Laws.{none_of}
use rheo_stream.Storage.ControlPlane.{
  add_operations, insert_access_token, insert_access_token_operations, operations_in, has_operation,
  list_access_token_operations, with_tokens, get_access_token, get_access_token_by_hash,
}

operations_in-append :
    (t : Uuid) (xs ys : List (Uuid × String))
    → operations_in t (xs ++ ys) ≡ operations_in t xs ++ operations_in t ys
unfolding operations_in
operations_in-append t [] ys = refl
operations_in-append t ((u, name) ∷ xs) ys = elim (Bool-cases (u == t)) [
  | inl same ↦ rw same (ap (λ r. name ∷ r) (operations_in-append t xs ys))
  | inr differs ↦ rw differs (operations_in-append t xs ys)
]

append_assoc :
    (xs : List String) (y : String) (ys : List String) → (xs ++ y ∷ []) ++ ys ≡ xs ++ y ∷ ys
append_assoc [] y ys = refl
append_assoc (x ∷ xs) y ys = ap (λ r. x ∷ r) (append_assoc xs y ys)

append_nil : (xs : List String) → xs ++ [] ≡ xs
append_nil [] = refl
append_nil (x ∷ xs) = ap (λ r. x ∷ r) (append_nil xs)

one_in : (t : Uuid) (name : String) → operations_in t ((t, name) ∷ []) ≡ name ∷ []
unfolding operations_in
one_in t name = ground (arith, ==_iff t t)

add_operations-in :
    (t : Uuid) (names : List String) (rows after : List (Uuid × String))
    → add_operations t names rows ≡ ok after
    → operations_in t after ≡ operations_in t rows ++ names
unfolding add_operations
add_operations-in t [] rows after h =
    ap (operations_in t) (sym (ok_injective h)) ∙ sym (append_nil (operations_in t rows))
add_operations-in t (name ∷ names) rows after h = elim (Bool-cases (has_operation t name rows)) [
  | inl there ↦ ground arith
  | inr new ↦
      add_operations-in t names (rows ++ (t, name) ∷ []) after (rw new at h)
      ∙ ap (λ r. r ++ names)
          (operations_in-append t rows ((t, name) ∷ [])
            ∙ ap (λ r. operations_in t rows ++ r) (one_in t name))
      ∙ append_assoc (operations_in t rows) name names
]

abbrev pub without_tokens : ControlPlane → ControlPlane
without_tokens c = record c { access_tokens = []; access_token_operations = [] }

-- The two agree on every table but those of tokens.
pub record SameButTokens (c d : ControlPlane) : Type 0 where
  pub others : without_tokens d ≡ without_tokens c

-- The row is new, by its id and by its hash, and stands at the end of the table.
pub record IsInserted (c : ControlPlane) (row : AccessTokenRow) (d : ControlPlane) : Type 0 where
  pub grown : d ≡ with_tokens (c.access_tokens ++ row ∷ []) c
  pub new_id : get_access_token c row.id ≡ none
  pub new_hash : get_access_token_by_hash c row.token_hash ≡ none

pub insert_access_token-IsInserted :
    (c : ControlPlane) (row : AccessTokenRow) (d : ControlPlane)
    → insert_access_token c row ≡ ok d
    → IsInserted c row d
unfolding insert_access_token
insert_access_token-IsInserted c row d h = record {
  grown = ground arith;
  new_id = none_of _ (ground arith);
  new_hash = none_of _ (ground arith);
}

first-append :
    {A : Type 0} (p : A → Bool) (xs : List A) (x : A)
    → first p xs ≡ none
    → p x ≡ true
    → first p (xs ++ x ∷ []) ≡ some x
unfolding first
first-append p [] x h e = ground arith
first-append p (y ∷ xs) x h e = ground (arith, first-append p xs x)

-- After the insertion the row is found by its hash.
pub by_hash-IsInserted :
    (c : ControlPlane) (row : AccessTokenRow) (d : ControlPlane)
    → IsInserted c row d
    → get_access_token_by_hash d row.token_hash ≡ some row
by_hash-IsInserted c row d i =
    subst (λ x. get_access_token_by_hash x row.token_hash ≡ some row) (sym i.grown)
      (first-append (λ r. str_eq r.token_hash row.token_hash) c.access_tokens row i.new_hash
        (str_eq_refl row.token_hash))

pub by_id-IsInserted :
    (c : ControlPlane) (row : AccessTokenRow) (d : ControlPlane)
    → IsInserted c row d
    → get_access_token d row.id ≡ some row
by_id-IsInserted c row d i =
    subst (λ x. get_access_token x row.id ≡ some row) (sym i.grown)
      (first-append (λ r. r.id == row.id) c.access_tokens row i.new_id
        ((==_iff row.id row.id).1 refl))

pub record IsRecorded (c : ControlPlane) (t : Uuid) (names : List String) (d : ControlPlane)
    : Type 0 where
  pub tokens : d.access_tokens ≡ c.access_tokens
  pub rest : SameButTokens c d
  pub listed : list_access_token_operations d t ≡ list_access_token_operations c t ++ names

pub insert_access_token_operations-IsRecorded :
    (c : ControlPlane) (t : Uuid) (names : List String) (d : ControlPlane)
    → insert_access_token_operations c t names ≡ ok d
    → IsRecorded c t names d
unfolding insert_access_token_operations list_access_token_operations
insert_access_token_operations-IsRecorded c t [] d h =
    let e = sym (ok_injective h) in
    record {
      tokens = ap (λ x. x.access_tokens) e;
      rest = record { others = ap without_tokens e };
      listed =
          ap (λ x. operations_in t x.access_token_operations) e
          ∙ sym (append_nil (operations_in t c.access_token_operations));
    }
insert_access_token_operations-IsRecorded c t (name ∷ names) d h =
    let (rows, added, done) =
      >>=-eq-ok (add_operations t (name ∷ names) c.access_token_operations) _ h in
    let e : d ≡ record c { access_token_operations = rows } = ground arith in
    record {
      tokens = ap (λ x. x.access_tokens) e;
      rest = record { others = ap without_tokens e };
      listed =
          ap (λ x. operations_in t x.access_token_operations) e
          ∙ add_operations-in t (name ∷ names) c.access_token_operations rows added;
    }
