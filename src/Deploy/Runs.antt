-- ===== src/Deploy/Runs.antt =====
-- A deploy from its pending row to its end, and the sequences of the coordinator's operations.
use denia.Prelude.{
  ℕ, ◌≡◌, refl, ◌∙◌, ==_iff, [], Option, none, some, Outcome, ok, err, lookup, nat_key, arith,
}
use denia.Deploy.Tables.{
  DeploymentRequest, DeploymentStatus, Deployment, ArtifactRecord, Tables, with_status, set_status,
  upsert_artifact, set_artifact_digest, joined_artifact,
}
use denia.Deploy.Step.{
  Triple-pure, Kept-db, RepoError, DeployError, no_existing_artifact, registry_not_found, Store,
  Ensures, Triple, Keeps, Triple-bind, Triple-fail, ok_or-Keeps, call-Keeps,
}
use denia.Deploy.Repo.{
  ExternalImageSource, ServiceSource, ServiceConfig, ArtifactAcquireRequest, Env, carried_out,
  statement, update_deployment_status, promoted_deployment, put_artifact, set_deployment_artifact,
  get_deployment_artifact,
}
use denia.Deploy.Sources.{
  DomainError, resolve_ref, resolve_registry_auth, lifted, unsupported, decrypted, from_registry_id,
  without_credential, resolve_external_auth,
}
use denia.Deploy.Coordinator.{
  redeployed, acquire_artifact, run_inner_with_deps, failed_run, run_with_deps,
}
use denia.Deploy.Live.{map_row, lookup-update_row, Live, owner, status_of}
use denia.Deploy.Promotion.{healthy-Live}
use denia.Deploy.Keeping.{
  Good, Promoted, execute-Triple, update_deployment_status-Keeps, set_artifact_digest-Good,
  owner-set_status,
}
use denia.Deploy.Finalizing.{finalize-Triple}

module _ (env : Env) where
  put_artifact-Keeps :
      (k : ℕ) (own : Option ℕ) (artifact : ArtifactRecord)
      → Keeps (Good env k own) (put_artifact env artifact)
  unfolding put_artifact upsert_artifact
  put_artifact-Keeps k own artifact = execute-Triple env _ (λ db p. p) (λ db p. p)

  set_deployment_artifact-Keeps :
      (k : ℕ) (own : Option ℕ) (id : ℕ) (artifact : ArtifactRecord)
      → Keeps (Good env k own) (set_deployment_artifact env id artifact.digest)
  unfolding set_deployment_artifact
  set_deployment_artifact-Keeps k own id artifact =
      execute-Triple env (set_artifact_digest id artifact.digest)
        (λ db. set_artifact_digest-Good env k own id artifact.digest db) (λ db p. p)

  pub select-Keeps :
      {A : Type 0} (P : Tables → Type 0) (f : Tables → A)
      → Keeps P (statement env (λ db. (ok (f db), db)))
  unfolding statement
  select-Keeps P f = record { runs = λ s p. go s p (env.db_error s.world) }
    where
      go :
          (s : Store env.World)
          → P s.db
          → (o : Option RepoError × env.World)
          → Ensures (λ a. P) P (carried_out (λ db. (ok (f db), db)) s o)
      go s p (none, w) = p
      go s p (some e, w) = p

  pub promoted_deployment-Keeps :
      (P : Tables → Type 0) (key : ℕ) → Keeps P (promoted_deployment env key)
  unfolding promoted_deployment
  promoted_deployment-Keeps P key = select-Keeps P (λ db. lookup key db.promoted)

  pub get_deployment_artifact-Keeps :
      (P : Tables → Type 0) (id : ℕ) → Keeps P (get_deployment_artifact env id)
  unfolding get_deployment_artifact
  get_deployment_artifact-Keeps P id = select-Keeps P (joined_artifact id)

  redeployed-Keeps :
      (P : Tables → Type 0) (service : ServiceConfig) → Keeps P (redeployed env service)
  unfolding redeployed
  redeployed-Keeps P service = Triple-bind (promoted_deployment-Keeps P service.id) (λ found.
      Triple-bind (ok_or-Keeps no_existing_artifact found) (λ promoted.
        Triple-bind (get_deployment_artifact-Keeps P promoted)
          (λ artifact. ok_or-Keeps no_existing_artifact artifact)))

  lifted-Keeps :
      {A : Type 0} (P : Tables → Type 0) (o : Outcome A DeployError)
      → Keeps P (lifted {W = env.World} o)
  lifted-Keeps P (ok a) = Triple-pure
  lifted-Keeps P (err e) = Triple-fail

  unsupported-Keeps :
      {A : Type 0} (P : Tables → Type 0) (o : Outcome A DomainError)
      → Keeps P (unsupported {W = env.World} o)
  unsupported-Keeps P (ok a) = Triple-pure
  unsupported-Keeps P (err e) = Triple-fail

  decrypted-Keeps :
      (P : Tables → Type 0) (project_id : ℕ) (secret : Option ℕ)
      → Keeps P (decrypted env project_id secret)
  decrypted-Keeps P project_id none = Triple-pure
  decrypted-Keeps P project_id (some secret_ref) =
      Triple-bind (call-Keeps (env.decrypt project_id secret_ref)) (λ value. Triple-pure)

  from_registry_id-Keeps :
      (P : Tables → Type 0) (source : ExternalImageSource) (registry_id : Option ℕ)
      → Keeps P (from_registry_id env source registry_id)
  from_registry_id-Keeps P source none =
      Triple-bind (unsupported-Keeps P (resolve_ref env.parse_ip source []))
        (λ (image, used). Triple-pure)
  from_registry_id-Keeps P source (some registry_id) =
      Triple-bind (call-Keeps (env.registry registry_id)) (λ found.
        Triple-bind (ok_or-Keeps registry_not_found found) (λ registry.
          Triple-bind (decrypted-Keeps P registry.project_id registry.credential_ref) (λ payload.
            Triple-bind (lifted-Keeps P (resolve_registry_auth registry.auth_kind payload)) (λ auth.
              Triple-bind (unsupported-Keeps P (resolve_ref env.parse_ip source registry.endpoint))
                (λ (image, used). Triple-pure)))))

  resolve_external_auth-Keeps :
      (P : Tables → Type 0) (source : ExternalImageSource)
      → Keeps P (resolve_external_auth env source)
  unfolding resolve_external_auth
  resolve_external_auth-Keeps P source = go source.credential
    where
      go : (credential : Option ℕ) → Keeps P (without_credential env source credential)
      go (some credential) = Triple-fail
      go none = from_registry_id-Keeps P source source.registry_id

  -- Acquiring an artifact writes no table.
  acquire_artifact-Keeps :
      (P : Tables → Type 0) (service : ServiceConfig) (request : DeploymentRequest)
      (source : ServiceSource)
      → Keeps P (acquire_artifact env service request source)
  unfolding acquire_artifact
  acquire_artifact-Keeps P service (DeploymentRequest.external_image i t)
        (ServiceSource.external_image x) =
      Triple-bind (resolve_external_auth-Keeps P x) (λ (full_ref, auth).
        call-Keeps (env.acquire (ArtifactAcquireRequest.external_image full_ref) auth))
  acquire_artifact-Keeps P service (DeploymentRequest.external_image i t) (ServiceSource.git g) =
      Triple-fail
  acquire_artifact-Keeps P service (DeploymentRequest.external_image i t) ServiceSource.upload =
      Triple-fail
  acquire_artifact-Keeps P service (DeploymentRequest.git i u r) (ServiceSource.git g) =
      call-Keeps _
  acquire_artifact-Keeps P service (DeploymentRequest.git i u r) (ServiceSource.external_image x) =
      Triple-fail
  acquire_artifact-Keeps P service (DeploymentRequest.git i u r) ServiceSource.upload = Triple-fail
  acquire_artifact-Keeps P service (DeploymentRequest.upload i u d c) source = call-Keeps _
  acquire_artifact-Keeps P service (DeploymentRequest.redeploy i) source =
      redeployed-Keeps P service

  pub status-set_status :
      (id service : ℕ) (status : DeploymentStatus) (db : Tables)
      → owner id db ≡ some service
      → status_of id (set_status id status db) ≡ some status
  unfolding set_status
  status-set_status id service status db own =
      rw (lookup-update_row id id (with_status status) db.deployments, (==_iff id id).1 refl)
        (go (lookup id db.deployments) own)
    where
      go :
          (o : Option Deployment)
          → map_row (λ row. row.service_id) o ≡ some service
          → map_row (λ row. row.status) (map_row (with_status status) o) ≡ some status
      go none h = absurd (ground arith)
      go (some row) h = refl

  promoted-set_status :
      (id key : ℕ) (status : DeploymentStatus) (db : Tables)
      → lookup key (set_status id status db).promoted ≡ lookup key db.promoted
  unfolding set_status
  promoted-set_status id key status db = refl

  -- The deployment is promoted, and its row is healthy.
  abbrev pub Deployed : ℕ → ℕ → Tables → Type 0
  Deployed id service db =
      (Live db × (owner id db ≡ some service))
      × (lookup service db.promoted ≡ some id)
      × (status_of id db ≡ some DeploymentStatus.healthy)

  healthy-Deployed :
      (id service : ℕ) (db : Tables)
      → Promoted env id (some service) service db
      → Deployed id service (set_status id DeploymentStatus.healthy db)
  healthy-Deployed id service db ((live, own), promoted) = (
    (
      healthy-Live service id db live own promoted,
      owner-set_status env id id DeploymentStatus.healthy db ∙ own,
    ),
    promoted-set_status id service DeploymentStatus.healthy db ∙ promoted,
    status-set_status id service DeploymentStatus.healthy db own,
  )

  become_healthy :
      (id service : ℕ)
      → Triple
          (Promoted env id (some service) service)
          (update_deployment_status env id DeploymentStatus.healthy)
          (λ a. Deployed id service)
          (Good env id (some service))
  unfolding update_deployment_status
  become_healthy id service =
      execute-Triple env (set_status id DeploymentStatus.healthy) (healthy-Deployed id service)
        (λ db p. p.0)

  pub run_inner_with_deps-Triple :
      (id : ℕ) (service : ServiceConfig) (request : DeploymentRequest)
      → Triple
          (Good env id (some service.id))
          (run_inner_with_deps env id service request)
          (λ a. Deployed id service.id)
          (Good env id (some service.id))
  unfolding run_inner_with_deps
  run_inner_with_deps-Triple id service request =
      let own = some service.id in
      Triple-bind (update_deployment_status-Keeps env id own id DeploymentStatus.building refl)
        (λ _.
          Triple-bind (acquire_artifact-Keeps (Good env id own) service request service.source)
            (λ artifact. Triple-bind (put_artifact-Keeps id own artifact) (λ _.
              Triple-bind (set_deployment_artifact-Keeps id own id artifact) (λ _.
                Triple-bind
                  (update_deployment_status-Keeps env id own id DeploymentStatus.starting refl)
                  (λ _.
                    Triple-bind (finalize-Triple env id own service artifact)
                      (λ _. become_healthy id service.id))))))

  failed_run-Ensures :
      (id : ℕ) (service : ServiceConfig) (o : Outcome (Unit {0}) DeployError × Store env.World)
      → Ensures (λ a. Deployed id service.id) (Good env id (some service.id)) o
      → Ensures (λ a. Deployed id service.id) (Good env id (some service.id)) (failed_run env id o)
  failed_run-Ensures id service (ok a, s) h = h
  failed_run-Ensures id service (err e, s) h =
      Kept-db (Good env id (some service.id))
        (update_deployment_status env id DeploymentStatus.failed s)
        ((update_deployment_status-Keeps env id (some service.id) id DeploymentStatus.failed
            refl).runs
          s h)

  -- A deploy of a row of the service, however it ends.
  pub run_with_deps-Triple :
      (id : ℕ) (service : ServiceConfig) (request : DeploymentRequest)
      → Triple
          (Good env id (some service.id))
          (run_with_deps env id service request)
          (λ a. Deployed id service.id)
          (Good env id (some service.id))
  unfolding run_with_deps
  run_with_deps-Triple id service request = record {
    runs = λ s p.
        failed_run-Ensures id service (run_inner_with_deps env id service request s)
          ((run_inner_with_deps-Triple id service request).runs s p);
  }
