-- ===== src/Deploy/Claims.antt =====
-- The route table that a snapshot gives, read through the hosts that it resolves.
use denia.Prelude.{
  ◌≡◌, refl, ◌∙◌, ◌⊎◌, inl, inr, true, false, List, [], ◌∷◌, if◌then◌else◌, Option, some, Outcome,
  ok, err, Bool-cases,
}
use denia.Ingress.Routes.{
  Text, is_blank, IngressError, empty_service_name, missing_domain, invalid_domain, validate_domain,
  text_key, RouteSpec, RouteTable, no_domains, try_upsert, resolve,
}
use denia.Ingress.Routes.Table.{names, Upserts, try_upsert_resolves}
use denia.Deploy.Routing.{
  Snapshot, upserted_table, and_then, add_spec, add_specs, route_table_from_snapshot,
}

-- The last route of the snapshot that names the host, up to case.
unfoldable pub claimed : Text → Snapshot → Option RouteSpec → Option RouteSpec
claimed host [] found = found
claimed host ((key, spec) ∷ rest) found =
    claimed host rest (if names host spec.domains then some spec else found)

-- An entry with domains that cannot be routed, and why.
abbrev pub IsFault : RouteSpec → IngressError → Type 0
IsFault spec e =
    (no_domains spec.domains ≡ false)
    × (((e ≡ empty_service_name) × (is_blank spec.service_name ≡ true))
        ⊎ ((d : Text) × (e ≡ invalid_domain d) × (validate_domain d ≡ err e)))

abbrev pub HasFault : Snapshot → IngressError → Type 0
HasFault [] e = ⊥
HasFault ((key, spec) ∷ rest) e = IsFault spec e ⊎ HasFault rest e

abbrev pub Adds : RouteSpec → RouteTable → Outcome RouteTable IngressError → Type 0
Adds spec table (ok table') =
    (q : Text) → resolve q table' ≡ (if names q spec.domains then some spec else resolve q table)
Adds spec table (err e) = IsFault spec e

missing-IsFault :
    (spec : RouteSpec) (e : IngressError)
    → no_domains spec.domains ≡ false
    → ((e ≡ empty_service_name) × (is_blank spec.service_name ≡ true))
      ⊎ (((e ≡ missing_domain) × (spec.domains ≡ []))
          ⊎ ((d : Text) × (e ≡ invalid_domain d) × (validate_domain d ≡ err e)))
    → IsFault spec e
missing-IsFault spec e some_given (inl blank) = (some_given, inl blank)
missing-IsFault spec e some_given (inr (inl (m, empty))) =
    let t : no_domains [] ≡ false = rw empty at some_given in absurd (cc)
missing-IsFault spec e some_given (inr (inr invalid)) = (some_given, inr invalid)

upserted_table-Adds :
    (spec : RouteSpec) (table : RouteTable) (o : Outcome (Unit {0}) IngressError × RouteTable)
    → no_domains spec.domains ≡ false
    → Upserts spec table o
    → Adds spec table (upserted_table o)
unfolding Upserts
upserted_table-Adds spec table (ok a, table') some_given u = u.1
upserted_table-Adds spec table (err e, table') some_given u = missing-IsFault spec e some_given u.1

names_none : (q : Text) (ds : List Text) → no_domains ds ≡ true → names q ds ≡ false
names_none q [] h = refl
names_none q (d ∷ ds) h = absurd (cc)

add_spec-Adds : (spec : RouteSpec) (table : RouteTable) → Adds spec table (add_spec spec table)
unfolding add_spec
add_spec-Adds spec table = elim (Bool-cases (no_domains spec.domains)) [
  | inl none_given ↦ rw none_given (λ q. rw (names_none q spec.domains none_given) refl)
  | inr some_given ↦ rw some_given (
      upserted_table-Adds spec table (try_upsert spec table) some_given
        (try_upsert_resolves spec table))
]

-- What a snapshot gives over a table.
abbrev pub Gives : Snapshot → RouteTable → Outcome RouteTable IngressError → Type 0
Gives snapshot table (ok table') =
    (q : Text) → resolve q table' ≡ claimed q snapshot (resolve q table)
Gives snapshot table (err e) = HasFault snapshot e

add_specs-Gives :
    (snapshot : Snapshot) (table : RouteTable) → Gives snapshot table (add_specs snapshot table)
unfolding add_specs claimed
add_specs-Gives [] table = λ q. refl
add_specs-Gives ((key, spec) ∷ rest) table =
    go (add_spec spec table) (add_spec-Adds spec table) (λ table'. add_specs-Gives rest table')
  where
    next :
        (table' : RouteTable) (o : Outcome RouteTable IngressError)
        → Adds spec table (ok table')
        → Gives rest table' o
        → Gives ((key, spec) ∷ rest) table o
    next table' (ok table'') steps gives = λ q. gives q ∙ (rw (steps q) refl)
    next table' (err e) steps gives = inr gives

    go :
        (o : Outcome RouteTable IngressError)
        → Adds spec table o
        → ((table' : RouteTable) → Gives rest table' (add_specs rest table'))
        → Gives ((key, spec) ∷ rest) table (and_then o (λ table'. add_specs rest table'))
    go (err e) fault ih = inl fault
    go (ok table') steps ih = next table' (add_specs rest table') steps (ih table')

-- The table that a snapshot gives resolves a host to the last route, in the order of the keys,
-- that names it up to case, and every other host to none. Where it gives an error, an entry with
-- domains is the fault: its service name is blank, or one of its domains does not validate.
pub route_table_from_snapshot-Gives :
    (snapshot : Snapshot) → Gives snapshot [] (route_table_from_snapshot snapshot)
unfolding route_table_from_snapshot
route_table_from_snapshot-Gives snapshot = add_specs-Gives snapshot []
