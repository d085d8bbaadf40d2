-- ===== src/Deploy/Routing.antt =====
-- src/deploy/routes.rs: the live route table, rebuilt whole from the snapshot. No task panics while
-- it holds the snapshot's lock, so the lock is not poisoned.
use denia.Prelude.{
  ℕ, List, [], ◌∷◌, ◌++◌, if◌then◌else◌, Option, none, some, Map, Outcome, ok, err, lookup, insert,
}
use denia.Ingress.Routes.{
  Text, text_key, IngressError, RouteSpec, RouteTable, no_domains, try_upsert,
}
use denia.Deploy.Step.{ingress, Store, Step, pure, ◌>>=◌, ◌>>◌, modify, call}
use denia.Deploy.Repo.{ServiceConfig, Env, promoted_deployment}

abbrev pub Snapshot : Type 0
Snapshot = Map Text RouteSpec

abbrev pub upserted_table :
    Outcome (Unit {0}) IngressError × RouteTable → Outcome RouteTable IngressError
upserted_table (ok _, table) = ok table
upserted_table (err e, table) = err e

-- One entry of the snapshot: it is skipped where it has no domains.
unfoldable pub add_spec : RouteSpec → RouteTable → Outcome RouteTable IngressError
add_spec spec table =
    if no_domains spec.domains then ok table else upserted_table (try_upsert spec table)

-- `?` between two steps.
abbrev pub and_then :
    Outcome RouteTable IngressError
    → (RouteTable → Outcome RouteTable IngressError)
    → Outcome RouteTable IngressError
and_then (err e) f = err e
and_then (ok table) f = f table

unfoldable pub add_specs : Snapshot → RouteTable → Outcome RouteTable IngressError
unfolding add_spec
add_specs [] table = ok table
add_specs ((key, spec) ∷ rest) table =
    and_then (add_spec spec table) (λ table'. add_specs rest table')

unfoldable pub route_table_from_snapshot : Snapshot → Outcome RouteTable IngressError
unfolding add_specs
route_table_from_snapshot snapshot = add_specs snapshot []

-- `route_table_from_snapshot(&routes)?` and the swap into the ingress.
abbrev pub swap_built : {W : Type 0} → Outcome RouteTable IngressError → Step W (Unit {0})
swap_built (ok table) s = (ok tt, record s { table = table })
swap_built (err e) s = (err (ingress e), s)

unfoldable pub swap_from_snapshot : {W : Type 0} → Step W (Unit {0})
unfolding route_table_from_snapshot
swap_from_snapshot s = swap_built (route_table_from_snapshot s.snapshot) s

abbrev pub put_entry : {W : Type 0} → Text → RouteSpec → Store W → Store W
put_entry key spec s = record s { snapshot = insert key spec s.snapshot }

-- The text `svc-`.
abbrev pub svc_prefix : Text
svc_prefix = 115 ∷ 118 ∷ 99 ∷ 45 ∷ []

module _ (env : Env) where
  -- The route of a service with these verified host names.
  abbrev pub service_spec : ServiceConfig → Text → List Text → RouteSpec
  service_spec service route_key hostnames = record {
    route_key = route_key;
    service_name = service.name;
    service_id = env.to_text service.id;
    domains = hostnames;
    tls = service.tls_enabled;
  }

  abbrev pub svc_key : ServiceConfig → Text
  svc_key service = svc_prefix ++ env.to_text service.id

  abbrev pub seeded_with : ServiceConfig → List Text → Step env.World (Unit {0})
  seeded_with service [] = pure tt
  seeded_with service (host ∷ hosts) =
      modify
        (put_entry (env.to_text service.id) (service_spec service (svc_key service) (host ∷ hosts)))

  abbrev pub seeded : ServiceConfig → Option ℕ → Step env.World (Unit {0})
  seeded service none = pure tt
  seeded service (some id) = call (env.list_verified_hostnames service.id) >>= seeded_with service

  -- The loop's body of `rebuild_routes_on_boot`.
  unfoldable pub seed_service : ServiceConfig → Step env.World (Unit {0})
  unfolding ◌>>=◌ promoted_deployment
  seed_service service = promoted_deployment env service.id >>= seeded service

  unfoldable pub seed_services : List ServiceConfig → Step env.World (Unit {0})
  unfolding ◌>>=◌ seed_service
  seed_services [] = pure tt
  seed_services (service ∷ services) = do seed_service service; seed_services services

  unfoldable pub rebuild_routes_on_boot : Step env.World (Unit {0})
  unfolding ◌>>=◌ seed_services swap_from_snapshot
  rebuild_routes_on_boot = do
    services ← call env.list_services
    seed_services services
    swap_from_snapshot

  abbrev pub refreshed_with :
      ServiceConfig → Option RouteSpec → List Text → Step env.World (Unit {0})
  refreshed_with service prev [] = pure tt
  refreshed_with service none (host ∷ hosts) = pure tt
  refreshed_with service (some prev) (host ∷ hosts) =
      modify
        (put_entry (env.to_text service.id) (service_spec service prev.route_key (host ∷ hosts)))

  -- The loop's body of `apply_routes`, with the snapshot as it was before.
  unfoldable pub refresh_service : Snapshot → ServiceConfig → Step env.World (Unit {0})
  unfolding ◌>>=◌
  refresh_service existing service = do
    hostnames ← call (env.list_verified_hostnames service.id)
    refreshed_with service (lookup (env.to_text service.id) existing) hostnames

  unfoldable pub refresh_services : Snapshot → List ServiceConfig → Step env.World (Unit {0})
  unfolding ◌>>=◌ refresh_service
  refresh_services existing [] = pure tt
  refresh_services existing (service ∷ services) = do
    refresh_service existing service
    refresh_services existing services

  abbrev pub cleared : Store env.World → Store env.World
  cleared s = record s { snapshot = [] }

  unfoldable pub apply_routes : Step env.World (Unit {0})
  unfolding ◌>>=◌ refresh_services swap_from_snapshot
  apply_routes = do
    services ← call env.list_services
    existing ← λ s. (ok s.snapshot, s)
    modify cleared
    refresh_services existing services
    swap_from_snapshot
