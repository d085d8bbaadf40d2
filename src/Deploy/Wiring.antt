-- ===== src/Deploy/Wiring.antt =====
-- What the wiring of a started replica, and its undoing, do to the ingress pools.
use denia.Prelude.{
  ℕ, ◌≡◌, refl, ◌∙◌, inl, inr, List, [], ◌∷◌, ◌==◌, Option, none, some, Outcome, ok, err,
  Bool-cases, nat_key,
}
use denia.Ingress.Routes.{Text, IngressError, RouteTable}
use denia.Deploy.Tables.{Tables}
use denia.Deploy.Step.{RepoError, DeployError, Store, Step, after, ◌>>=◌, answered}
use denia.Deploy.Repo.{
  ServiceConfig, Env, carried_out, statement, update_deployment_status, promoted_deployment,
  demote_previous, promote_deployment,
}
use denia.Deploy.Routing.{route_table_from_snapshot, swap_built, swap_from_snapshot}
use denia.Deploy.Coordinator.{written, write_route_table}

-- A run that leaves the pools as they are.
pub record Still {W A : Type 0} (m : Step W A) : Type 0 where
  pub pools : (s : Store W) → (m s).1.pools ≡ s.pools

pub after-pools :
    {W A B : Type 0} (f : A → Step W B) (o : Outcome A DeployError × Store W)
    → ((a : A) → Still (f a))
    → (after f o).1.pools ≡ o.1.pools
after-pools f (ok a, s) still = (still a).pools s
after-pools f (err e, s) still = refl

Still-bind :
    {W A B : Type 0} {m : Step W A} {f : A → Step W B}
    → Still m
    → ((a : A) → Still (f a))
    → Still (m >>= f)
unfolding ◌>>=◌
Still-bind {m} {f} h k = record { pools = λ s. after-pools f (m s) k ∙ h.pools s }

module _ (env : Env) where
  pub answered-pools :
      {A : Type 0} (s : Store env.World) (o : Outcome A DeployError × env.World)
      → (answered s o).1.pools ≡ s.pools
  answered-pools s (ok a, w) = refl
  answered-pools s (err e, w) = refl

  statement-Still :
      {A : Type 0} (f : Tables → Outcome A DeployError × Tables) → Still (statement env f)
  unfolding statement
  statement-Still f = record { pools = λ s. go s (env.db_error s.world) }
    where
      go :
          (s : Store env.World) (o : Option RepoError × env.World)
          → (carried_out f s o).1.pools ≡ s.pools
      go s (none, w) = refl
      go s (some e, w) = refl

  demote_previous-Still : (id : ℕ) (prev : Option ℕ) → Still (demote_previous env id prev)
  unfolding update_deployment_status
  demote_previous-Still id none = record { pools = λ s. refl }
  demote_previous-Still id (some prev) = elim (Bool-cases (prev == id)) [
    | inl same ↦ rw same (record { pools = λ s. refl })
    | inr apart ↦ rw apart (statement-Still _)
  ]

  pub promote_deployment-Still : (key id : ℕ) → Still (promote_deployment env key id)
  unfolding promote_deployment promoted_deployment
  promote_deployment-Still key id =
      Still-bind (statement-Still _)
        (λ prev. Still-bind (demote_previous-Still id prev) (λ _. statement-Still _))

  swap_from_snapshot-Still : Still (swap_from_snapshot {W = env.World})
  unfolding swap_from_snapshot
  swap_from_snapshot-Still = record { pools = λ s. go s (route_table_from_snapshot s.snapshot) }
    where
      go :
          (s : Store env.World) (o : Outcome RouteTable IngressError)
          → (swap_built o s).1.pools ≡ s.pools
      go s (ok table) = refl
      go s (err e) = refl

  written-Still : (service : ServiceConfig) (hosts : List Text) → Still (written env service hosts)
  written-Still service [] = record { pools = λ s. refl }
  written-Still service (host ∷ hosts) =
      Still-bind (record { pools = λ s. refl }) (λ _. swap_from_snapshot-Still)

  pub write_route_table-Still : (service : ServiceConfig) → Still (write_route_table env service)
  unfolding write_route_table
  write_route_table-Still service = elim (Bool-cases env.routing) [
    | inl e ↦ rw e (
        Still-bind
          (record {
            pools = λ s. answered-pools s (env.list_verified_hostnames service.id s.world);
          })
          (written-Still service))
    | inr e ↦ rw e (record { pools = λ s. refl })
  ]
