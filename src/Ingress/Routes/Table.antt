-- ===== src/Ingress/Routes/Table.antt =====
-- The route table through its operations.
use mathlib.Core.Path.{ap₂}
use denia.Prelude.{
  ◌≡◌, refl, ap, ◌∙◌, inl, inr, ◌⊎◌, Bool, true, false, ◌||◌, List, [], ◌∷◌, map, arith,
  if◌then◌else◌, any, Option, none, some, Outcome, ok, err, Outcome-cases, Bool-cases, lookup,
  insert, lookup-insert, Distinct, insert-Distinct, All,
}
use denia.Ingress.Routes.{
  Text, is_blank, to_ascii_lowercase, IngressError, empty_service_name, missing_domain,
  invalid_domain, validate_domain, text_eq, text_eq_iff, text_key, RouteSpec, RouteTable,
  validate_each, insert_each, upserted, no_domains, try_upsert, remove, resolve,
}
use denia.Ingress.Routes.Domains.{validate_domain-Valid}

-- Whether a host is one of some names, up to case.
abbrev pub names : Text → List Text → Bool
names host = any (λ d. text_eq (to_ascii_lowercase d) (to_ascii_lowercase host))

abbrev IsValid : Text → Type 0
IsValid d = validate_domain d ≡ ok (to_ascii_lowercase d)

-- What a list of domains validates to.
Validated : List Text → Outcome (List Text) IngressError → Type 0
Validated ds (ok hosts) = All IsValid ds × (hosts ≡ map to_ascii_lowercase ds)
Validated ds (err e) = (d : Text) × (e ≡ invalid_domain d) × (validate_domain d ≡ err e)

validate_domain-error :
    (d : Text) (e : IngressError) → validate_domain d ≡ err e → e ≡ invalid_domain d
unfolding validate_domain
validate_domain-error d e h = ground arith

-- One domain before a list that was validated.
abbrev next_Outcome :
    Outcome Text IngressError → Outcome (List Text) IngressError → Outcome (List Text) IngressError
next_Outcome (err e) rest = err e
next_Outcome (ok host) (err e) = err e
next_Outcome (ok host) (ok hosts) = ok (host ∷ hosts)

next-Validated :
    (d : Text) (ds : List Text) (o : Outcome Text IngressError)
    (rest : Outcome (List Text) IngressError)
    → validate_domain d ≡ o
    → Validated ds rest
    → Validated (d ∷ ds) (next_Outcome o rest)
unfolding Validated
next-Validated d ds (err e) rest h v = (d, validate_domain-error d e h, h)
next-Validated d ds (ok host) (err e) h v = v
next-Validated d ds (ok host) (ok hosts) h (valid, same) =
    let low = (validate_domain-Valid d host h).lowered in ((h ∙ ap ok low, valid), ap₂ ◌∷◌ low same)

validate_each-next :
    (d : Text) (ds : List Text)
    → validate_each (d ∷ ds) ≡ next_Outcome (validate_domain d) (validate_each ds)
unfolding validate_each
validate_each-next d ds = elim (Outcome-cases (validate_domain d)) [
  | inr (e, h) ↦ rw (h, validate_each) refl
  | inl (host, h) ↦ elim (Outcome-cases (validate_each ds)) [
    | inr (e, h2) ↦ rw (h, h2, validate_each) refl
    | inl (hosts, h2) ↦ rw (h, h2, validate_each) refl
  ]
]

validate_each-Validated : (ds : List Text) → Validated ds (validate_each ds)
validate_each-Validated [] = unfold validate_each in unfold Validated in (tt, refl)
validate_each-Validated (d ∷ ds) =
    rw (validate_each-next d ds)
      (next-Validated d ds (validate_domain d) (validate_each ds) refl (validate_each-Validated ds))

resolve-insert_each :
    (spec : RouteSpec) (q : Text) (ds : List Text) (table : RouteTable)
    → resolve q (insert_each spec (map to_ascii_lowercase ds) table)
      ≡ (if names q ds then some spec else resolve q table)
unfolding resolve insert_each
resolve-insert_each spec q [] table = refl
resolve-insert_each spec q (d ∷ ds) table =
    resolve-insert_each spec q ds (insert (to_ascii_lowercase d) spec table)
    ∙ step (names q ds) (text_eq (to_ascii_lowercase d) (to_ascii_lowercase q))
        (lookup-insert (to_ascii_lowercase d) (to_ascii_lowercase q) spec table)
  where
    step :
        (rest first : Bool)
        → {x : Option RouteSpec}
        → x ≡ (if first then some spec else lookup (to_ascii_lowercase q) table)
        → (if rest then some spec else x)
          ≡ (if first || rest then some spec else lookup (to_ascii_lowercase q) table)
    step true true e = refl
    step true false e = refl
    step false true e = e
    step false false e = e

-- What an upsert leaves.
unfoldable pub Upserts :
    RouteSpec → RouteTable → Outcome (Unit {0}) IngressError × RouteTable → Type 0
Upserts spec table (ok _, table') =
    All IsValid spec.domains
    × ((q : Text)
        → resolve q table' ≡ (if names q spec.domains then some spec else resolve q table))
Upserts spec table (err e, table') =
    (table' ≡ table)
    × (((e ≡ empty_service_name) × (is_blank spec.service_name ≡ true))
        ⊎ (((e ≡ missing_domain) × (spec.domains ≡ []))
            ⊎ ((d : Text) × (e ≡ invalid_domain d) × (validate_domain d ≡ err e))))

upserted-Upserts :
    (spec : RouteSpec) (table : RouteTable) (o : Outcome (List Text) IngressError)
    → Validated spec.domains o
    → Upserts spec table (upserted spec o table)
unfolding Upserts Validated
upserted-Upserts spec table (err e) v = (refl, inr (inr v))
upserted-Upserts spec table (ok hosts) (valid, same) =
    (valid, λ q. rw same (resolve-insert_each spec q spec.domains table))

no_domains-empty : (ds : List Text) → no_domains ds ≡ true → ds ≡ []
no_domains-empty [] h = refl
no_domains-empty (d ∷ ds) h = cc

-- An upsert is all or nothing. Where it succeeds, every domain of the route is valid, and
-- afterwards a host resolves to the route exactly where it is one of its domains up to case, and
-- else as before. Where it fails, the table is as it was, and the error names its cause: a blank
-- service name, no domains, or a domain that does not validate.
pub try_upsert_resolves :
    (spec : RouteSpec) (table : RouteTable) → Upserts spec table (try_upsert spec table)
unfolding try_upsert
try_upsert_resolves spec table = elim (Bool-cases (is_blank spec.service_name)) [
  | inl blank ↦ rw blank (unfold Upserts in (refl, inl (refl, blank)))
  | inr named ↦ elim (Bool-cases (no_domains spec.domains)) [
    | inl none_given ↦
        rw (named, none_given)
          (unfold Upserts in (refl, inr (inl (refl, no_domains-empty spec.domains none_given))))
    | inr some_given ↦
        rw (named, some_given)
          (upserted-Upserts spec table (validate_each spec.domains)
            (validate_each-Validated spec.domains))
  ]
]

-- What is left of an answer when the routes of one key go.
abbrev pub unless_key : Text → Option RouteSpec → Option RouteSpec
unless_key key none = none
unless_key key (some spec) = if text_eq spec.route_key key then none else some spec

lookup-retain_none :
    (key q : Text) (table : RouteTable) → lookup q table ≡ none → lookup q (remove key table) ≡ none
unfolding lookup remove
lookup-retain_none key q [] h = refl
lookup-retain_none key q ((host, spec) ∷ table) h = ground (arith, lookup-retain_none key q table)

lookup-remove_key :
    (key q : Text) (table : RouteTable)
    → Distinct table
    → lookup q (remove key table) ≡ unless_key key (lookup q table)
unfolding lookup remove
lookup-remove_key key q [] d = refl
lookup-remove_key key q ((host, spec) ∷ table) d = elim (Bool-cases (text_eq host q)) [
  | inl same ↦ elim (Bool-cases (text_eq spec.route_key key)) [
    | inl gone ↦
        let e : host ≡ q = (text_eq_iff host q).0 same in
        let absent = lookup-retain_none key q table (rw (← e) (d.0)) in rw (same, gone) absent
    | inr stays ↦ rw (same, stays, lookup) (rw same refl)
  ]
  | inr apart ↦ elim (Bool-cases (text_eq spec.route_key key)) [
    | inl gone ↦ rw (apart, gone) (lookup-remove_key key q table d.1)
    | inr stays ↦ rw (apart, stays, lookup) (rw apart (lookup-remove_key key q table d.1))
  ]
]

-- A table keeps one route for each host through an upsert.
insert_each-Distinct :
    (spec : RouteSpec) (hosts : List Text) (table : RouteTable)
    → Distinct table
    → Distinct (insert_each spec hosts table)
unfolding insert_each
insert_each-Distinct spec [] table d = d
insert_each-Distinct spec (host ∷ hosts) table d =
    insert_each-Distinct spec hosts _ (insert-Distinct host spec table d)

pub try_upsert-Distinct :
    (spec : RouteSpec) (table : RouteTable) → Distinct table → Distinct (try_upsert spec table).1
unfolding try_upsert
try_upsert-Distinct spec table d = elim (Bool-cases (is_blank spec.service_name)) [
  | inl blank ↦ rw blank d
  | inr named ↦ elim (Bool-cases (no_domains spec.domains)) [
    | inl none_given ↦ rw (named, none_given) d
    | inr some_given ↦ rw (named, some_given) (go (validate_each spec.domains))
  ]
]
  where
    go : (o : Outcome (List Text) IngressError) → Distinct (upserted spec o table).1
    go (err e) = d
    go (ok hosts) = insert_each-Distinct spec hosts table d

remove-Distinct : (key : Text) (table : RouteTable) → Distinct table → Distinct (remove key table)
unfolding remove
remove-Distinct key [] d = tt
remove-Distinct key ((host, spec) ∷ table) d = elim (Bool-cases (text_eq spec.route_key key)) [
  | inl gone ↦ rw gone (remove-Distinct key table d.1)
  | inr stays ↦ rw stays (lookup-retain_none key host table d.0, remove-Distinct key table d.1)
]

-- In a table with one route for each host, a removal takes away exactly the routes of its key: a
-- host that resolved to one of them resolves to none, and every other host as before. The table
-- that is left has one route for each host.
pub remove_resolves :
    (key : Text) (table : RouteTable)
    → Distinct table
    → ((q : Text) → resolve q (remove key table) ≡ unless_key key (resolve q table))
      × Distinct (remove key table)
unfolding resolve
remove_resolves key table d =
    (λ q. lookup-remove_key key (to_ascii_lowercase q) table d, remove-Distinct key table d)
