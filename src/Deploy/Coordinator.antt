-- ===== src/Deploy/Coordinator.antt =====
-- src/deploy/coordinator.rs. Operations run one after another. Log lines, whose failure the code
-- ignores, are left out.
use denia.Prelude.{
  ℕ, true, List, [], ◌∷◌, if◌then◌else◌, Option, none, some, Map, Outcome, ok, err, insert,
}
use denia.Prelude.{remove as forget}
use denia.Autoscale.Policy.{ResourceLimits, AutoscalePolicy}
use denia.Ingress.Routes.{Text, text_key}
use denia.Ingress.Pool
use denia.Deploy.Tables.{DeploymentRequest, DeploymentStatus, ArtifactRecord}
use denia.Deploy.Step.{
  DeployError, repo, unknown_project, unsupported_service_source, unsupported_git_source,
  no_existing_artifact, Store, Step, pure, fail, ok_or, ◌>>=◌, ◌>>◌, modify, call,
}
use denia.Deploy.Repo.{
  RegistryAuth, ServiceSource, ServiceConfig, Project, ArtifactAcquireRequest, StartRequest,
  InstanceId, Env, create_deployment, update_deployment_status, promoted_deployment,
  promote_deployment, clear_promoted_deployment, put_artifact, set_deployment_artifact,
  get_deployment_artifact,
}
use denia.Deploy.Sources.{resolve_external_auth}
use denia.Deploy.Routing.{swap_from_snapshot, put_entry, service_spec, svc_key}

-- `ResourceLimits::default()`.
abbrev pub default_limits : ResourceLimits
default_limits = record { cpu_millis = 500; memory_bytes = 536870912 }

abbrev pub or_default : Option ResourceLimits → ResourceLimits
or_default none = default_limits
or_default (some limits) = limits

abbrev pub or_else : Option ResourceLimits → Option ResourceLimits → Option ResourceLimits
or_else none other = other
or_else (some limits) other = some limits

unfoldable pub effective_limits : ServiceConfig → Project → ResourceLimits
effective_limits service project =
    or_default (or_else service.resource_limits project.default_resource_limits)

-- `BTreeMap::extend`.
abbrev pub extend : List (Text × Text) → Map Text Text → Map Text Text
extend [] m = m
extend ((name, value) ∷ rest) m = extend rest (insert name value m)

unfoldable pub effective_env : ServiceConfig → Project → Map Text Text
effective_env service project = extend service.environment (extend project.shared_environment [])

-- The endpoint of a plain service.
abbrev pub deploy_replica_id : ℕ
deploy_replica_id = 0

abbrev pub instance_id : ServiceConfig → InstanceId
instance_id service = record {
  service_id = service.id;
  service_name = service.name;
  replica_index = 0;
}

module _ (env : Env) where
  abbrev pub when_routing : Step env.World (Unit {0}) → Step env.World (Unit {0})
  when_routing m = if env.routing then m else pure tt

  -- `create_pending`, whose service is not read.
  unfoldable pub create_pending : ServiceConfig → DeploymentRequest → Step env.World ℕ
  unfolding create_deployment
  create_pending service request = create_deployment env request

  unfoldable pub redeployed : ServiceConfig → Step env.World ArtifactRecord
  unfolding ◌>>=◌ promoted_deployment get_deployment_artifact
  redeployed service = do
    found ← promoted_deployment env service.id
    promoted ← ok_or no_existing_artifact found
    artifact ← get_deployment_artifact env promoted
    ok_or no_existing_artifact artifact

  -- The `match &request` of `run_inner_with_deps`, with the service's source.
  unfoldable pub acquire_artifact :
      ServiceConfig → DeploymentRequest → ServiceSource → Step env.World ArtifactRecord
  unfolding ◌>>=◌ redeployed resolve_external_auth
  acquire_artifact service (DeploymentRequest.external_image service_id image)
        (ServiceSource.external_image source) =
      do
        (full_ref, auth) ← resolve_external_auth env source
        call (env.acquire (ArtifactAcquireRequest.external_image full_ref) auth)
  acquire_artifact service (DeploymentRequest.external_image service_id image) source =
      fail unsupported_service_source
  acquire_artifact service (DeploymentRequest.git service_id repo_url git_ref)
        (ServiceSource.git source) =
      call (
        env.acquire
          (ArtifactAcquireRequest.git source.repo_url source.git_ref source.dockerfile_path
            source.context_path)
          RegistryAuth.anonymous)
  acquire_artifact service (DeploymentRequest.git service_id repo_url git_ref) source =
      fail unsupported_git_source
  acquire_artifact service (DeploymentRequest.upload service_id upload_id dockerfile context)
        source =
      call (
        env.acquire (ArtifactAcquireRequest.upload upload_id dockerfile context)
          RegistryAuth.anonymous)
  acquire_artifact service (DeploymentRequest.redeploy service_id) source = redeployed service

  -- The pools after a replica is registered and marked healthy.
  abbrev pub registered : ℕ → ℕ → Store env.World → Store env.World
  registered service_id socket_path s = record s {
    pools =
        Pool.set_replica_healthy
          (Pool.add_replica (env.instant s.world) s.pools service_id deploy_replica_id socket_path)
          service_id deploy_replica_id true;
  }

  unfoldable pub add_deploy_replica : ServiceConfig → ℕ → Step env.World (Unit {0})
  add_deploy_replica service socket_path = when_routing (modify (registered service.id socket_path))

  abbrev pub written : ServiceConfig → List Text → Step env.World (Unit {0})
  written service [] = pure tt
  written service (host ∷ hosts) =
      modify (
        put_entry (env.to_text service.id)
          (service_spec env service (svc_key env service) (host ∷ hosts)))
      >>= λ _. swap_from_snapshot

  unfoldable pub write_route_table : ServiceConfig → Step env.World (Unit {0})
  unfolding ◌>>=◌ swap_from_snapshot
  write_route_table service =
      when_routing (call (env.list_verified_hostnames service.id) >>= written service)

  abbrev pub unregistered : ℕ → Store env.World → Store env.World
  unregistered service_id s = record s {
    pools = Pool.remove_replica s.pools service_id deploy_replica_id;
  }

  -- A failure of the stop is ignored.
  unfoldable pub compensate_started_replica : ServiceConfig → Store env.World → Store env.World
  compensate_started_replica service s =
      let stopped = (call (env.stop (instance_id service)) s).1 in
      if env.routing then unregistered service.id stopped else stopped

  unfoldable pub finalize_started : ℕ → ServiceConfig → ℕ → Step env.World (Unit {0})
  unfolding ◌>>=◌ promote_deployment add_deploy_replica write_route_table
  finalize_started id service socket_path = do
    call (env.check socket_path service.health_check)
    promote_deployment env service.id id
    add_deploy_replica service socket_path
    write_route_table service

  abbrev pub compensated :
      ServiceConfig
      → Outcome (Unit {0}) DeployError × Store env.World
      → Outcome (Unit {0}) DeployError × Store env.World
  compensated service (ok _, s) = (ok tt, s)
  compensated service (err e, s) = (err e, compensate_started_replica service s)

  -- `finalize` after the start: the wiring, undone where it fails.
  unfoldable pub wire : ℕ → ServiceConfig → ℕ → Step env.World (Unit {0})
  unfolding finalize_started compensate_started_replica
  wire id service socket_path s = compensated service (finalize_started id service socket_path s)

  abbrev pub start_request : ℕ → ServiceConfig → ArtifactRecord → Project → StartRequest
  start_request id service artifact project = record {
    service_name = service.name;
    service_id = service.id;
    deployment_id = id;
    artifact = artifact;
    internal_port = service.internal_port;
    limits = effective_limits service project;
    environment = effective_env service project;
    replica_index = 0;
  }

  unfoldable pub finalize_plain : ℕ → ServiceConfig → ArtifactRecord → Step env.World (Unit {0})
  unfolding ◌>>=◌ wire
  finalize_plain id service artifact = do
    found ← call (env.get_project service.project_id)
    project ← ok_or (repo unknown_project) found
    socket_path ← call (env.start (start_request id service artifact project))
    wire id service socket_path

  unfoldable pub finalize_autoscaled : ℕ → ServiceConfig → Step env.World (Unit {0})
  unfolding ◌>>=◌ promote_deployment write_route_table
  finalize_autoscaled id service = do
    promote_deployment env service.id id
    write_route_table service

  abbrev pub finalize_with :
      Option AutoscalePolicy → ℕ → ServiceConfig → ArtifactRecord → Step env.World (Unit {0})
  finalize_with none id service artifact = finalize_plain id service artifact
  finalize_with (some policy) id service artifact = finalize_autoscaled id service

  unfoldable pub finalize : ℕ → ServiceConfig → ArtifactRecord → Step env.World (Unit {0})
  unfolding finalize_plain finalize_autoscaled
  finalize id service artifact = finalize_with service.autoscale id service artifact

  unfoldable pub run_inner_with_deps :
      ℕ → ServiceConfig → DeploymentRequest → Step env.World (Unit {0})
  unfolding ◌>>=◌ update_deployment_status acquire_artifact put_artifact set_deployment_artifact
      finalize
  run_inner_with_deps id service request = do
    update_deployment_status env id DeploymentStatus.building
    artifact ← acquire_artifact service request service.source
    put_artifact env artifact
    set_deployment_artifact env id artifact.digest
    update_deployment_status env id DeploymentStatus.starting
    finalize id service artifact
    update_deployment_status env id DeploymentStatus.healthy

  abbrev pub failed_run :
      ℕ
      → Outcome (Unit {0}) DeployError × Store env.World
      → Outcome (Unit {0}) DeployError × Store env.World
  failed_run id (ok _, s) = (ok tt, s)
  failed_run id (err e, s) = (err e, (update_deployment_status env id DeploymentStatus.failed s).1)

  -- A failure of the last statement is ignored.
  unfoldable pub run_with_deps : ℕ → ServiceConfig → DeploymentRequest → Step env.World (Unit {0})
  unfolding run_inner_with_deps update_deployment_status
  run_with_deps id service request s = failed_run id (run_inner_with_deps id service request s)

  abbrev pub restarted_from : ServiceConfig → ℕ → Option ArtifactRecord → Step env.World (Unit {0})
  restarted_from service id none = pure tt
  restarted_from service id (some artifact) = finalize id service artifact

  abbrev pub restarted : ServiceConfig → Option ℕ → Step env.World (Unit {0})
  restarted service none = pure tt
  restarted service (some id) = get_deployment_artifact env id >>= restarted_from service id

  unfoldable pub restart_promoted : ServiceConfig → Step env.World (Unit {0})
  unfolding ◌>>=◌ promoted_deployment get_deployment_artifact finalize
  restart_promoted service = promoted_deployment env service.id >>= restarted service

  abbrev pub forget_entry : ServiceConfig → Store env.World → Store env.World
  forget_entry service s = record s { snapshot = forget (env.to_text service.id) s.snapshot }

  unfoldable pub drop_routes : ServiceConfig → Step env.World (Unit {0})
  unfolding ◌>>=◌ swap_from_snapshot
  drop_routes service = do modify (forget_entry service); swap_from_snapshot

  abbrev pub stop_promoted : ServiceConfig → Option ℕ → Step env.World (Unit {0})
  stop_promoted service none = pure tt
  stop_promoted service (some id) =
      update_deployment_status env id DeploymentStatus.stopped >>= λ _.
      clear_promoted_deployment env service.id

  unfoldable pub stop_service : ServiceConfig → Step env.World (Unit {0})
  unfolding ◌>>=◌ promoted_deployment update_deployment_status clear_promoted_deployment drop_routes
  stop_service service = do
    promoted ← promoted_deployment env service.id
    call (env.stop (instance_id service))
    when_routing (modify (unregistered service.id))
    when_routing (drop_routes service)
    stop_promoted service promoted

  unfoldable pub stop_service_routes_only : ServiceConfig → Step env.World (Unit {0})
  unfolding ◌>>=◌ promoted_deployment update_deployment_status clear_promoted_deployment drop_routes
  stop_service_routes_only service = do
    promoted ← promoted_deployment env service.id
    when_routing (drop_routes service)
    stop_promoted service promoted
