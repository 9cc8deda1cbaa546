-- ===== src/Settings/Resolver/Laws.antt =====
-- What resolution guarantees whatever rows the override source returns: every declared key keeps a
-- value of its type, no override relaxes a floored value, and a deployment key is out of reach.
use rheo_stream.Prelude.{
  String, true, List, [], ◌∷◌, Option, none, some, ok, ◌≡◌, refl, sym, ◌∙◌, ap, inl, inr, subst,
  >>=-eq-ok, ok_injective, is_some, Bool-cases, Option-cases, str_eq, str_eq_iff,
}
use mathlib.Core.List.{Memᴰ}
use mathlib.Core.Bool.{false≢true}
use rheo_stream.Prelude.Dict.{
  update, AllEntries, AllEntries-insert, AllEntries-update, AllEntries-lookup, is_some-update, Dict,
  lookup, insert, lookup-insert_self, lookup-insert_ne,
}
use rheo_stream.Settings.Value.{workspace, member, Floor, ValueType, Value, HasType, floor_type}
use rheo_stream.Settings.Spec.{KeySpec, floor_fits}
use rheo_stream.Settings.Registry.{Registry, specs}
use rheo_stream.Settings.Registry.Laws.{IsValid, AreListed, specs-AreListed, mem-specs}
use rheo_stream.Settings.Floor.Laws.{Within-refl}
use rheo_stream.Settings.Resolver.{OverrideSource, Uuid, defaults_of, base_values, resolve}
use rheo_stream.Settings.Deployment.{Deployment, deployment_layer}
use rheo_stream.Settings.Deployment.Laws.{Declares, deployment_layer-Declares}
use rheo_stream.Settings.Resolver.Rows.{same_type→eq, IsGood, FloorHolds, apply_rows-IsGood}

-- The default of a listed spec stands under its key.
defaults-lookup :
    (reg : Registry) (s : KeySpec) (ss : List KeySpec)
    → AreListed reg ss
    → lookup s.key reg.declared ≡ some s
    → Memᴰ s ss
    → lookup s.key (defaults_of ss) ≡ some s.default
unfolding defaults_of
defaults-lookup reg s [] listed found m = elim m [ ]
defaults-lookup reg s (t ∷ ss) listed found (Memᴰ.head e) =
    subst (λ u. lookup s.key (insert u.key u.default (defaults_of ss)) ≡ some s.default) e
      (lookup-insert_self s.key s.default (defaults_of ss))
defaults-lookup reg s (t ∷ ss) listed found (Memᴰ.tail m) = elim (Bool-cases (str_eq t.key s.key)) [
  | inl same ↦
      let p = (str_eq_iff t.key s.key).0 same in
      let q : s ≡ t = cc (p, listed.0, found) in
      subst (λ u. lookup s.key (insert u.key u.default (defaults_of ss)) ≡ some s.default) q
        (lookup-insert_self s.key s.default (defaults_of ss))
  | inr other ↦
      lookup-insert_ne t.key s.key t.default (defaults_of ss) other
      ∙ defaults-lookup reg s ss listed.1 found m
]

defaults-Declares :
    (reg : Registry) (ss : List KeySpec)
    → IsValid reg
    → AreListed reg ss
    → AllEntries (Declares reg) (defaults_of ss)
unfolding defaults_of
defaults-Declares reg [] valid listed = tt
defaults-Declares reg (s ∷ ss) valid listed =
    AllEntries-insert (Declares reg) s.key s.default (defaults_of ss)
      (s, listed.0, (valid.at_key s.key s listed.0).0.typed)
      (defaults-Declares reg ss valid listed.1)

default_present :
    (reg : Registry) (k : String) (s : KeySpec)
    → IsValid reg
    → lookup k reg.declared ≡ some s
    → is_some (lookup k (defaults_of (specs reg))) ≡ true
default_present reg k s valid found =
    let named = (valid.at_key k s found).1 in
    subst (λ x. is_some (lookup x (defaults_of (specs reg))) ≡ true) named
      (ap is_some (
        defaults-lookup reg s (specs reg) (specs-AreListed reg valid)
          (subst (λ x. lookup x reg.declared ≡ some s) (sym named) found)
          (mem-specs reg valid k s found)))

FloorHolds-refl :
    (fl : Option Floor) (t : ValueType) (v : Value)
    → floor_fits fl t ≡ true
    → HasType t v
    → FloorHolds fl v v
FloorHolds-refl none t v fits h = tt
FloorHolds-refl (some f) t v fits h = Within-refl f v (rw (same_type→eq (floor_type f) t fits) h)

IsGood-Declares :
    (reg : Registry) (values : Dict Value)
    → IsValid reg
    → AllEntries (Declares reg) values
    → ((k : String) (s : KeySpec)
        → lookup k reg.declared ≡ some s
        → is_some (lookup k values) ≡ true)
    → IsGood reg values values
IsGood-Declares reg values valid declares total = record {
  at_key = λ k s found. elim (Option-cases (lookup k values)) [
    | inl missing ↦ absurd (false≢true (sym (ap is_some missing) ∙ total k s found))
    | inr (v, at_k) ↦
        let (t, declared, typed_t) = AllEntries-lookup (Declares reg) k v values declares at_k in
        let same : t ≡ s = cc (declared, found) in
        let typed = subst (λ u. HasType u.type v) same typed_t in
        (
          v,
          v,
          at_k,
          at_k,
          record {
            base_typed = typed;
            typed = typed;
            floor_holds = FloorHolds-refl s.floor s.type v (valid.at_key k s found).0.floored typed;
            deployment_only = λ _. refl;
          },
        )
  ];
}

-- Before any override, every declared key has a value of its type.
base_values-IsGood :
    (reg : Registry) (dep : Deployment) (base : Dict Value)
    → IsValid reg
    → base_values reg dep ≡ ok base
    → IsGood reg base base
unfolding base_values
base_values-IsGood reg dep base valid e =
    let (layer, deployed, e') = >>=-eq-ok (deployment_layer reg dep) _ e in
    let defaults = defaults_of (specs reg) in
    subst (λ m. IsGood reg m m) (ok_injective e')
      (IsGood-Declares reg (update defaults layer) valid
        (AllEntries-update (Declares reg) defaults layer
          (defaults-Declares reg (specs reg) valid (specs-AreListed reg valid))
          (deployment_layer-Declares reg dep layer valid deployed))
        (λ k s found. is_some-update k defaults layer (default_present reg k s valid found)))

-- The source answers the reads for the given workspace and account with some rows.
abbrev pub Answers : Option OverrideSource → Option Uuid → Option Uuid → Type 0
Answers (some source) (some w) none =
    (rows : Dict String) × (source.workspace_overrides w ≡ ok rows)
Answers (some source) (some w) (some a) =
    ((rows : Dict String) × (source.workspace_overrides w ≡ ok rows))
    × ((rows : Dict String) × (source.member_overrides w a ≡ ok rows))
Answers _ _ _ = Unit

-- Over a valid table of settings whose defaults and deployment layer load, and with an override
-- source, if any, that answers for the given workspace and account, resolution returns, whatever
-- texts the override rows hold; and every declared key has a value of its type, no looser than its
-- base value under its floor, which is the base value itself for a key of the deployment.
pub resolve-IsGood :
    (reg : Registry) (dep : Deployment) (workspace_id account_id : Option Uuid)
    (source : Option OverrideSource) (base : Dict Value)
    → IsValid reg
    → base_values reg dep ≡ ok base
    → Answers source workspace_id account_id
    → (values : Dict Value) × (resolve reg dep workspace_id account_id source ≡ ok values)
      × IsGood reg base values
unfolding resolve
resolve-IsGood reg dep none a none base valid e answers =
    (base, rw e, base_values-IsGood reg dep base valid e)
resolve-IsGood reg dep (some w) a none base valid e answers =
    (base, rw e, base_values-IsGood reg dep base valid e)
resolve-IsGood reg dep none a (some source) base valid e answers =
    (base, rw e, base_values-IsGood reg dep base valid e)
resolve-IsGood reg dep (some w) none (some source) base valid e (rows, answered) =
    let (out, applied, good) =
      apply_rows-IsGood reg base workspace rows base valid (λ q. cc)
        (base_values-IsGood reg dep base valid e) in
    (out, rw (e, answered, applied), good)
resolve-IsGood reg dep (some w) (some a) (some source) base valid e
      ((rows, answered), (rows', answered')) =
    let (mid, applied, good) =
      apply_rows-IsGood reg base workspace rows base valid (λ q. cc)
        (base_values-IsGood reg dep base valid e) in
    let (out, applied', good') = apply_rows-IsGood reg base member rows' mid valid (λ q. cc) good in
    (out, rw (e, answered, applied, answered', applied'), good')
