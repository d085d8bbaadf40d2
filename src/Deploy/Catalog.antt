-- ===== src/Deploy/Catalog.antt =====
-- src/autoscale/catalog.rs: the services that the autoscaler manages, from the tables. A look-up
-- that fails counts as one that finds nothing.
use denia.Prelude.{
  ℕ, List, [], ◌∷◌, ◌==◌, find?, Option, none, some, Outcome, ok, err, Map, nat_key,
}
use denia.Autoscale.Policy.{ResourceLimits, AutoscalePolicy}
use denia.Autoscale.Lifecycle.{HealthCheck}
use denia.Ingress.Routes.{Text}
use denia.Deploy.Tables.{ArtifactRecord}
use denia.Deploy.Step.{DeployError, Store, call}
use denia.Deploy.Repo.{ServiceConfig, Project, Env, promoted_deployment, get_deployment_artifact}
use denia.Deploy.Coordinator.{effective_limits, effective_env}

pub record ManagedService : Type 0 where
  pub service_name : Text
  pub service_id : ℕ
  pub deployment_id : ℕ
  pub policy : AutoscalePolicy
  pub artifact : ArtifactRecord
  pub internal_port : ℕ
  pub limits : ResourceLimits
  pub environment : Map Text Text
  pub health_check : HealthCheck

-- `.ok().flatten()`.
abbrev pub flattened :
    {W A : Type 0} → Outcome (Option A) DeployError × Store W → Option A × Store W
flattened (ok found, s) = (found, s)
flattened (err e, s) = (none, s)

-- `let Some(…) = … else { return None }`.
abbrev pub else_none :
    {W A B : Type 0} → (A → Store W → Option B × Store W) → Option A × Store W → Option B × Store W
else_none f (none, s) = (none, s)
else_none f (some a, s) = f a s

abbrev pub managed : ServiceConfig → AutoscalePolicy → ℕ → ArtifactRecord → Project → ManagedService
managed service policy deployment_id artifact project = record {
  service_name = service.name;
  service_id = service.id;
  deployment_id = deployment_id;
  policy = policy;
  artifact = artifact;
  internal_port = service.internal_port;
  limits = effective_limits service project;
  environment = effective_env service project;
  health_check = service.health_check;
}

module _ (env : Env) where
  abbrev pub with_artifact :
      ServiceConfig
      → AutoscalePolicy
      → ℕ
      → ArtifactRecord
      → Store env.World
      → Option ManagedService × Store env.World
  with_artifact service policy id artifact s =
      else_none (λ project s'. (some (managed service policy id artifact project), s'))
        (flattened (call (env.get_project service.project_id) s))

  abbrev pub with_promoted :
      ServiceConfig
      → AutoscalePolicy
      → ℕ
      → Store env.World
      → Option ManagedService × Store env.World
  with_promoted service policy id s =
      else_none (with_artifact service policy id) (flattened (get_deployment_artifact env id s))

  abbrev pub build_with :
      ServiceConfig
      → Option AutoscalePolicy
      → Store env.World
      → Option ManagedService × Store env.World
  build_with service none s = (none, s)
  build_with service (some policy) s =
      else_none (with_promoted service policy) (flattened (promoted_deployment env service.id s))

  unfoldable pub build : ServiceConfig → Store env.World → Option ManagedService × Store env.World
  unfolding promoted_deployment get_deployment_artifact
  build service s = build_with service service.autoscale s

  abbrev pub push_some :
      Option ManagedService
      → List ManagedService × Store env.World
      → List ManagedService × Store env.World
  push_some none r = r
  push_some (some m) (ms, s) = (m ∷ ms, s)

  -- `filter_map`.
  unfoldable pub build_each :
      List ServiceConfig → Store env.World → List ManagedService × Store env.World
  unfolding build
  build_each [] s = ([], s)
  build_each (service ∷ services) s =
      let r = build service s in push_some r.0 (build_each services r.1)

  -- `unwrap_or_default()`.
  abbrev pub or_empty :
      Outcome (List ServiceConfig) DeployError × Store env.World
      → List ServiceConfig × Store env.World
  or_empty (ok services, s) = (services, s)
  or_empty (err e, s) = ([], s)

  unfoldable pub all : Store env.World → List ManagedService × Store env.World
  unfolding build_each
  all s = let r = or_empty (call env.list_services s) in build_each r.0 r.1

  abbrev pub build_found :
      Option ServiceConfig → Store env.World → Option ManagedService × Store env.World
  build_found none s = (none, s)
  build_found (some service) s = build service s

  -- `resolve`, with the id for the key.
  unfoldable pub resolve : ℕ → Store env.World → Option ManagedService × Store env.World
  unfolding build
  resolve service_id s =
      let r = or_empty (call env.list_services s) in
      build_found (find? (λ service. service.id == service_id) r.0) r.1
