-- ===== src/Deploy/Finalizing.antt =====
-- What `finalize` leaves in the tables: the deployment is promoted, or nothing is that was not sound.
use denia.Prelude.{
  ℕ, ◌≡◌, refl, sym, subst, inl, inr, Option, none, some, Outcome, ok, err, Bool-cases,
}
use denia.Autoscale.Policy.{AutoscalePolicy}
use denia.Deploy.Tables.{ArtifactRecord, Tables}
use denia.Deploy.Step.{
  DeployError, repo, unknown_project, Store, answered, Ensures, Triple, Triple-bind, Triple-weaken,
  ok_or-Keeps, call-Keeps,
}
use denia.Deploy.Repo.{ServiceConfig, Env}
use denia.Deploy.Coordinator.{
  instance_id, compensate_started_replica, compensated, finalize_started, wire, start_request,
  finalize_plain, finalize_autoscaled, finalize_with, finalize,
}
use denia.Deploy.Keeping.{
  Good, Promoted, promote_deployment-Triple, write_route_table-Keeps, add_deploy_replica-Keeps,
}

module _ (env : Env) where
  Promoted-Good :
      (id : ℕ) (own : Option ℕ) (key : ℕ) (db : Tables)
      → Promoted env id own key db
      → Good env id own db
  Promoted-Good id own key db p = p.0

  finalize_started-Triple :
      (id : ℕ) (own : Option ℕ) (service : ServiceConfig) (socket_path : ℕ)
      → Triple
          (Good env id own)
          (finalize_started env id service socket_path)
          (λ a. Promoted env id own service.id)
          (Good env id own)
  unfolding finalize_started
  finalize_started-Triple id own service socket_path =
      Triple-bind (call-Keeps (env.check socket_path service.health_check)) (λ _.
        Triple-bind (promote_deployment-Triple env id own service.id) (λ _.
          Triple-weaken (Promoted-Good id own service.id) (
            Triple-bind (add_deploy_replica-Keeps env service socket_path)
              (λ _. write_route_table-Keeps env service))))

  call-db :
      (s : Store env.World) (o : Outcome (Unit {0}) DeployError × env.World)
      → (answered s o).1.db ≡ s.db
  call-db s (ok a, w) = refl
  call-db s (err e, w) = refl

  pub compensate_started_replica-db :
      (service : ServiceConfig) (s : Store env.World)
      → (compensate_started_replica env service s).db ≡ s.db
  unfolding compensate_started_replica
  compensate_started_replica-db service s = elim (Bool-cases env.routing) [
    | inl e ↦ rw e (call-db s (env.stop (instance_id service) s.world))
    | inr e ↦ rw e (call-db s (env.stop (instance_id service) s.world))
  ]

  compensated-Ensures :
      (Q X : Tables → Type 0) (service : ServiceConfig)
      (o : Outcome (Unit {0}) DeployError × Store env.World)
      → Ensures (λ a. Q) X o
      → Ensures (λ a. Q) X (compensated env service o)
  compensated-Ensures Q X service (ok a, s) h = h
  compensated-Ensures Q X service (err e, s) h =
      subst X (sym (compensate_started_replica-db service s)) h

  wire-Triple :
      (id : ℕ) (own : Option ℕ) (service : ServiceConfig) (socket_path : ℕ)
      → Triple
          (Good env id own)
          (wire env id service socket_path)
          (λ a. Promoted env id own service.id)
          (Good env id own)
  unfolding wire
  wire-Triple id own service socket_path = record {
    runs = λ s p.
        compensated-Ensures (Promoted env id own service.id) (Good env id own) service
          (finalize_started env id service socket_path s)
          ((finalize_started-Triple id own service socket_path).runs s p);
  }

  finalize_plain-Triple :
      (id : ℕ) (own : Option ℕ) (service : ServiceConfig) (artifact : ArtifactRecord)
      → Triple
          (Good env id own)
          (finalize_plain env id service artifact)
          (λ a. Promoted env id own service.id)
          (Good env id own)
  unfolding finalize_plain
  finalize_plain-Triple id own service artifact =
      Triple-bind (call-Keeps (env.get_project service.project_id)) (λ found.
        Triple-bind (ok_or-Keeps (repo unknown_project) found) (λ project.
          Triple-bind (call-Keeps (env.start (start_request env id service artifact project)))
            (λ socket_path. wire-Triple id own service socket_path)))

  finalize_autoscaled-Triple :
      (id : ℕ) (own : Option ℕ) (service : ServiceConfig)
      → Triple
          (Good env id own)
          (finalize_autoscaled env id service)
          (λ a. Promoted env id own service.id)
          (Good env id own)
  unfolding finalize_autoscaled
  finalize_autoscaled-Triple id own service =
      Triple-bind (promote_deployment-Triple env id own service.id)
        (λ _. Triple-weaken (Promoted-Good id own service.id) (write_route_table-Keeps env service))

  finalize_with-Triple :
      (autoscale : Option AutoscalePolicy) (id : ℕ) (own : Option ℕ) (service : ServiceConfig)
      (artifact : ArtifactRecord)
      → Triple
          (Good env id own)
          (finalize_with env autoscale id service artifact)
          (λ a. Promoted env id own service.id)
          (Good env id own)
  finalize_with-Triple none id own service artifact = finalize_plain-Triple id own service artifact
  finalize_with-Triple (some policy) id own service artifact =
      finalize_autoscaled-Triple id own service

  pub finalize-Triple :
      (id : ℕ) (own : Option ℕ) (service : ServiceConfig) (artifact : ArtifactRecord)
      → Triple
          (Good env id own)
          (finalize env id service artifact)
          (λ a. Promoted env id own service.id)
          (Good env id own)
  unfolding finalize
  finalize-Triple id own service artifact =
      finalize_with-Triple service.autoscale id own service artifact
