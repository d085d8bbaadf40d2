-- ===== src/Deploy/Rerouting.antt =====
-- The rebuilding of routes writes no table.
use denia.Prelude.{ℕ, List, [], ◌∷◌, Option, none, some, ok, lookup}
use denia.Ingress.Routes.{Text, RouteSpec, text_key}
use denia.Deploy.Tables.{Tables}
use denia.Deploy.Step.{modify, Keeps, Triple-bind, Triple-pure, call-Keeps}
use denia.Deploy.Repo.{ServiceConfig, Env}
use denia.Deploy.Routing.{
  Snapshot, seeded_with, seeded, seed_service, seed_services, rebuild_routes_on_boot,
  refreshed_with, refresh_service, refresh_services, apply_routes, cleared,
}
use denia.Deploy.Keeping.{swap_from_snapshot-Keeps}
use denia.Deploy.Runs.{promoted_deployment-Keeps}

module _ (env : Env) (P : Tables → Type 0) where
  seeded_with-Keeps :
      (service : ServiceConfig) (hosts : List Text) → Keeps P (seeded_with env service hosts)
  seeded_with-Keeps service [] = Triple-pure
  seeded_with-Keeps service (host ∷ hosts) = record { runs = λ s p. p }

  seeded-Keeps :
      (service : ServiceConfig) (promoted : Option ℕ) → Keeps P (seeded env service promoted)
  seeded-Keeps service none = Triple-pure
  seeded-Keeps service (some id) =
      Triple-bind (call-Keeps (env.list_verified_hostnames service.id)) (seeded_with-Keeps service)

  seed_service-Keeps : (service : ServiceConfig) → Keeps P (seed_service env service)
  unfolding seed_service
  seed_service-Keeps service =
      Triple-bind (promoted_deployment-Keeps env P service.id) (seeded-Keeps service)

  seed_services-Keeps : (services : List ServiceConfig) → Keeps P (seed_services env services)
  unfolding seed_services
  seed_services-Keeps [] = Triple-pure
  seed_services-Keeps (service ∷ services) =
      Triple-bind (seed_service-Keeps service) (λ _. seed_services-Keeps services)

  pub rebuild_routes_on_boot-Keeps : Keeps P (rebuild_routes_on_boot env)
  unfolding rebuild_routes_on_boot
  rebuild_routes_on_boot-Keeps =
      Triple-bind (call-Keeps env.list_services)
        (λ services. Triple-bind (seed_services-Keeps services) (λ _. swap_from_snapshot-Keeps env))

  refreshed_with-Keeps :
      (service : ServiceConfig) (prev : Option RouteSpec) (hosts : List Text)
      → Keeps P (refreshed_with env service prev hosts)
  refreshed_with-Keeps service prev [] = Triple-pure
  refreshed_with-Keeps service none (host ∷ hosts) = Triple-pure
  refreshed_with-Keeps service (some prev) (host ∷ hosts) = record { runs = λ s p. p }

  refresh_services-Keeps :
      (existing : Snapshot) (services : List ServiceConfig)
      → Keeps P (refresh_services env existing services)
  unfolding refresh_services refresh_service
  refresh_services-Keeps existing [] = Triple-pure
  refresh_services-Keeps existing (service ∷ services) =
      Triple-bind
        (Triple-bind (call-Keeps (env.list_verified_hostnames service.id))
          (refreshed_with-Keeps service (lookup (env.to_text service.id) existing)))
        (λ _. refresh_services-Keeps existing services)

  pub apply_routes-Keeps : Keeps P (apply_routes env)
  unfolding apply_routes
  apply_routes-Keeps = Triple-bind (call-Keeps env.list_services) (λ services.
      Triple-bind {R = λ existing. P} {m = λ s. (ok s.snapshot, s)} (record { runs = λ s p. p })
        (λ existing.
          Triple-bind {R = λ _. P} {m = modify (cleared env)} (record { runs = λ s p. p })
            (λ _.
              Triple-bind (refresh_services-Keeps existing services)
                (λ _. swap_from_snapshot-Keeps env))))
