-- ===== src/Autoscale/Controller/Tick/Rollout.antt =====
-- A rollout step replaces one outdated replica.
use denia.Prelude.{ℕ, ◌+◌, ◌≤◌, ◌≡◌, ◌∙◌, inl, inr, arith, leb, nat_key, Bool-cases, leb→le}
use denia.Autoscale.Policy.{ResourceLimits}
use denia.Autoscale.Registry.{Replica, replicas, replica_count}
use denia.Autoscale.Registry.Views.{occurs, length-drop_id}
use denia.Autoscale.Lifecycle.{Env, Fleet, launch_replica, drain_replica}
use denia.Autoscale.Lifecycle.Books.{Monotone, BooksAt}
use denia.Autoscale.Controller.{ManagedService, Host, launch_spec, instance_at, next_replica_index}
use denia.Autoscale.Controller.Scaling.Balance.{
  Elsewhere, drained_once, once_of, launched_books, launched_count, launched_member,
}
use denia.Autoscale.Controller.Tick.{surge, roll}

module _ (env : Env) (host : Host env) (laws : Monotone env) (lim : ℕ → ResourceLimits) (grace : ℕ)
    (ms : ManagedService) (own : ms.limits ≡ lim ms.service_id) where
  open env use {World}

  abbrev live_count : Fleet World → ℕ
  live_count s = replica_count s.registry ms.service_id

  -- What a rollout step leaves: no more replicas than before, at most one less, and never none.
  pub record Rolled (s s' : Fleet World) : Type 0 where
    pub books : BooksAt env laws lim s'
    pub elsewhere : Elsewhere env laws lim ms own s s'
    pub no_more : live_count s' ≤ live_count s
    pub one_less : live_count s ≤ live_count s' + 1
    pub never_none : 1 ≤ live_count s'

  drained_of : Replica → Fleet World → Fleet World
  drained_of old s =
      drain_replica env ms.service_id old.id (instance_at ms old.index) ms.limits grace s

  surge-Rolled :
      (old : Replica) (s : Fleet World) (index : ℕ)
      → live_count s ≡ 1
      → 1 ≤ occurs old.id (replicas s.registry ms.service_id)
      → BooksAt env laws lim s
      → Rolled s (surge env host grace ms old (launch_replica env (launch_spec ms index) s)).1
  unfolding surge
  surge-Rolled old s index one m b =
      let r = launch_replica env (launch_spec ms index) s in
      let b1 = launched_books env laws lim ms own index s b in
      elim (launched_count env laws lim ms own index s b) [
        | inr (x, failed, count, other) ↦
            rw (failed, surge)
              (record {
                books = b1;
                elsewhere = other;
                no_more = omega arith;
                one_less = omega arith;
                never_none = omega arith;
              })
        | inl (i, done, count, other) ↦
            let m1 = launched_member env laws lim ms own index old.id s b in
            let once = once_of env laws lim ms own r.1 old.id b1 (omega arith) in
            let (b2, less, other2, _) = drained_once env laws lim ms own grace old r.1 b1 once in
            rw (done, surge)
              (record {
                books = b2;
                elsewhere = λ t ne. other2 t ne ∙ other t ne;
                no_more = omega arith;
                one_less = omega arith;
                never_none = omega arith;
              })
      ]

  replaced-Rolled :
      (old : Replica) (s : Fleet World) (index : ℕ)
      → 2 ≤ live_count s
      → 1 ≤ occurs old.id (replicas s.registry ms.service_id)
      → BooksAt env laws lim s
      → Rolled s (launch_replica env (launch_spec ms index) (drained_of old s)).1
  unfolding drained_of
  replaced-Rolled old s index two m b =
      let once = once_of env laws lim ms own s old.id b m in
      let (b1, less, other, _) = drained_once env laws lim ms own grace old s b once in
      let s1 = drained_of old s in
      let b2 = launched_books env laws lim ms own index s1 b1 in
      elim (launched_count env laws lim ms own index s1 b1) [
        | inr (x, failed, count, other2) ↦ record {
          books = b2;
          elsewhere = λ t ne. other2 t ne ∙ other t ne;
          no_more = omega arith;
          one_less = omega arith;
          never_none = omega arith;
        }
        | inl (i, done, count, other2) ↦ record {
          books = b2;
          elsewhere = λ t ne. other2 t ne ∙ other t ne;
          no_more = omega arith;
          one_less = omega arith;
          never_none = omega arith;
        }
      ]

  count_pos :
      (s : Fleet World) (i : ℕ)
      → 1 ≤ occurs i (replicas s.registry ms.service_id)
      → 1 ≤ live_count s
  unfolding replica_count
  count_pos s i m = omega (arith, length-drop_id i (replicas s.registry ms.service_id))

  -- A rollout step of a replica that the service has, from books that balance and for a service
  -- whose replicas hold its present limits, whether its launch succeeds or fails: the books balance, no other service's replicas change, and the service keeps at least one replica,
  -- loses at most one and gains none.
  pub roll-Rolled :
      (old : Replica) (s : Fleet World)
      → 1 ≤ occurs old.id (replicas s.registry ms.service_id)
      → BooksAt env laws lim s
      → Rolled s (roll env host grace ms old s).1
  unfolding roll
  roll-Rolled old s m b =
      let index = next_replica_index s ms.service_id in
      elim (Bool-cases (leb (live_count s) 1)) [
        | inl single ↦ rw single (
            surge-Rolled old s index
              (omega (arith, leb→le (live_count s) 1 single, count_pos s old.id m)) m b)
        | inr several ↦
            rw several (unfold drained_of in replaced-Rolled old s index (ground arith) m b)
      ]
