-- ===== src/Deploy/Managed.antt =====
-- What the catalog hands to the autoscaler.
use denia.Prelude.{
  ℕ, ◌≡◌, refl, subst, List, [], ◌∷◌, Option, none, some, Outcome, ok, err, nat_key, lookup, All,
}
use denia.Autoscale.Policy.{AutoscalePolicy}
use denia.Deploy.Tables.{ArtifactRecord, Tables, joined_artifact}
use denia.Deploy.Step.{RepoError, DeployError, Store, answered}
use denia.Deploy.Repo.{
  ServiceConfig, Project, Env, carried_out, statement, promoted_deployment, get_deployment_artifact,
}
use denia.Deploy.Catalog.{
  ManagedService, flattened, else_none, managed, with_artifact, with_promoted, build_with, build,
  push_some, build_each, or_empty, all,
}

-- The service runs the promoted deployment of its id, from the artifact that is linked to it.
abbrev pub IsCurrent : Tables → ManagedService → Type 0
IsCurrent db m =
    (lookup m.service_id db.promoted ≡ some m.deployment_id)
    × (joined_artifact m.deployment_id db ≡ some m.artifact)

-- A managed service, or none, over tables that stay as they are.
abbrev Builds : {W : Type 0} → Tables → Option ManagedService × Store W → Type 0
Builds db (none, s) = s.db ≡ db
Builds db (some m, s) = IsCurrent db m × (s.db ≡ db)

-- What a look-up finds is in the tables.
abbrev Finds : {W A : Type 0} → (Tables → Option A) → Tables → Option A × Store W → Type 0
Finds f db (none, s) = s.db ≡ db
Finds f db (some a, s) = (f db ≡ some a) × (s.db ≡ db)

-- Services each of which is current, over tables that stay as they are.
abbrev pub Lists : {W : Type 0} → Tables → List ManagedService × Store W → Type 0
Lists db (ms, s) = All (IsCurrent db) ms × (s.db ≡ db)

module _ (env : Env) where
  select-Finds :
      {A : Type 0} (f : Tables → Option A) (s : Store env.World)
      → Finds f s.db (flattened (statement env (λ db. (ok (f db), db)) s))
  unfolding statement
  select-Finds {A} f s = go (env.db_error s.world)
    where
      found : (o : Option A) (w : env.World) → f s.db ≡ o → Finds f s.db (o, record s { world = w })
      found none w e = refl
      found (some a) w e = (e, refl)

      go :
          (o : Option RepoError × env.World)
          → Finds f s.db (flattened (carried_out (λ db. (ok (f db), db)) s o))
      go (none, w) = found (f s.db) w refl
      go (some e, w) = refl

  project_found :
      (service : ServiceConfig) (policy : AutoscalePolicy) (id : ℕ) (artifact : ArtifactRecord)
      (db : Tables) (s : Store env.World) (o : Outcome (Option Project) DeployError × env.World)
      → lookup service.id db.promoted ≡ some id
      → joined_artifact id db ≡ some artifact
      → s.db ≡ db
      → Builds db (
          else_none
            (λ project s'. (some (managed service policy id artifact project), s'))
            (flattened (answered s o)))
  project_found service policy id artifact db s (ok none, w) p a same = same
  project_found service policy id artifact db s (ok (some project), w) p a same = ((p, a), same)
  project_found service policy id artifact db s (err e, w) p a same = same

  artifact_found :
      (service : ServiceConfig) (policy : AutoscalePolicy) (id : ℕ) (db : Tables)
      (r : Option ArtifactRecord × Store env.World)
      → lookup service.id db.promoted ≡ some id
      → Finds (joined_artifact id) db r
      → Builds db (else_none (with_artifact env service policy id) r)
  artifact_found service policy id db (none, s) p f = f
  artifact_found service policy id db (some artifact, s) p (a, same) =
      project_found service policy id artifact db s (env.get_project service.project_id s.world) p a
        same

  promoted_found :
      (service : ServiceConfig) (policy : AutoscalePolicy) (db : Tables)
      (r : Option ℕ × Store env.World)
      → Finds (λ db. lookup service.id db.promoted) db r
      → Builds db (else_none (with_promoted env service policy) r)
  unfolding get_deployment_artifact
  promoted_found service policy db (none, s) f = f
  promoted_found service policy db (some id, s) (p, same) =
      artifact_found service policy id db
        (flattened (statement env (λ db. (ok (joined_artifact id db), db)) s)) p
        (subst
          (λ d.
            Finds (joined_artifact id) d
              (flattened (statement env (λ db. (ok (joined_artifact id db), db)) s)))
          same (select-Finds (joined_artifact id) s))

  build_with-Builds :
      (service : ServiceConfig) (autoscale : Option AutoscalePolicy) (s : Store env.World)
      → Builds s.db (build_with env service autoscale s)
  unfolding promoted_deployment
  build_with-Builds service none s = refl
  build_with-Builds service (some policy) s =
      promoted_found service policy s.db
        (flattened (statement env (λ db. (ok (lookup service.id db.promoted), db)) s))
        (select-Finds (λ db. lookup service.id db.promoted) s)

  build_each-Lists :
      (services : List ServiceConfig) (s : Store env.World) → Lists s.db (build_each env services s)
  unfolding build_each build
  build_each-Lists [] s = (tt, refl)
  build_each-Lists (service ∷ services) s =
      go (build_with env service service.autoscale s)
        (build_with-Builds service service.autoscale s) (build_each-Lists services)
    where
      go :
          (r : Option ManagedService × Store env.World)
          → Builds s.db r
          → ((s' : Store env.World) → Lists s'.db (build_each env services s'))
          → Lists s.db (push_some env r.0 (build_each env services r.1))
      go (none, s') same ih = subst (λ d. Lists d (build_each env services s')) same (ih s')
      go (some m, s') (current, same) ih =
          let (rest, same') = subst (λ d. Lists d (build_each env services s')) same (ih s') in
          ((current, rest), same')

  -- Every service that the catalog hands to the autoscaler runs the deployment that is promoted
  -- for its id in the tables, from the artifact that is linked to that deployment, and the catalog
  -- leaves the tables as they are, whichever look-ups fail.
  pub all-Lists : (s : Store env.World) → Lists s.db (all env s)
  unfolding all
  all-Lists s = go (env.list_services s.world)
    where
      go :
          (o : Outcome (List ServiceConfig) DeployError × env.World)
          → Lists s.db
              (build_each env (or_empty env (answered s o)).0 (or_empty env (answered s o)).1)
      go (ok services, w) = build_each-Lists services (record s { world = w })
      go (err e, w) = build_each-Lists [] (record s { world = w })
