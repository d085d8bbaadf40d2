-- ===== src/Autoscale/Controller/Scaling/Balance.antt =====
-- The loops that launch and drain: their books and their counts.
use denia.Prelude.{
  ℕ, zero, suc, ◌+◌, ◌-◌, ◌≤◌, ◌≡◌, ◌≢◌, refl, sym, ap, ◌∙◌, inl, inr, ◌⊎◌, none, some, List, [],
  ◌∷◌, arith, leb, if◌then◌else◌, length, length-append_one, Option-cases, nat_key,
}
use denia.Autoscale.Policy.{ResourceLimits}
use denia.Autoscale.Registry.{Replica, replicas, replica_count, drop_id}
use denia.Autoscale.Registry.Views.{
  occurs, length-drop_id, occurs-le-occurrences, drop_id_absent, occurs-append,
}
use denia.Autoscale.Lifecycle.{
  Outcome, ok, err, LifecycleError, Env, Fleet, launch_replica, drain_replica,
}
use denia.Autoscale.Lifecycle.Books.{Monotone, BooksAt, After, launch_replica-Balanced}
use denia.Autoscale.Lifecycle.Drain.{drain_replica_balanced, drained_replicas}
use denia.Autoscale.Controller.{
  ManagedService, launch_spec, instance_at, next_replica_index, last_max, highest,
}
use denia.Autoscale.Controller.Scaling.{
  Scaled, scale_up, scale_down, drain_each, drain_all_replicas,
}

last_max_member :
    (best : Replica) (rs : List Replica) → (occurs (last_max best rs).id (best ∷ rs) ≢ 0)
unfolding last_max
last_max_member best [] = ground arith
last_max_member best (r ∷ rs) =
    ground (arith, last_max_member (if leb best.index r.index then r else best) rs)

-- The replica of highest index is one of the list.
pub highest_member : (rs : List Replica) (r : Replica) → highest rs ≡ some r → 1 ≤ occurs r.id rs
unfolding highest
highest_member [] r h = cc
highest_member (x ∷ rs) r h = ground (arith, last_max_member x rs)

pub highest-none : (rs : List Replica) → highest rs ≡ none → rs ≡ []
unfolding highest
highest-none [] h = refl
highest-none (x ∷ rs) h = cc

module _ (env : Env) (laws : Monotone env) (lim : ℕ → ResourceLimits) (ms : ManagedService)
    (own : ms.limits ≡ lim ms.service_id) where
  abbrev pub count_of : Fleet env.World → ℕ
  count_of s = replica_count s.registry ms.service_id

  -- What a step on one service leaves alone.
  abbrev pub Elsewhere : Fleet env.World → Fleet env.World → Type 0
  Elsewhere s s' = (t : ℕ) → ms.service_id ≢ t → replicas s'.registry t ≡ replicas s.registry t

  launch_count :
      (index : ℕ) (s : Fleet env.World) (r : Outcome ℕ LifecycleError × Fleet env.World)
      → After (launch_spec ms index) s r
      → ((i : ℕ) × (r.0 ≡ ok i) × (count_of r.1 ≡ count_of s + 1) × Elsewhere s r.1)
        ⊎ ((e : LifecycleError) × (r.0 ≡ err e) × (count_of r.1 ≡ count_of s) × Elsewhere s r.1)
  unfolding launch_spec replica_count
  launch_count index s (ok i, s') h = inl (
    i,
    refl,
    ap length h.grown ∙ length-append_one (replicas s.registry ms.service_id) _,
    h.others,
  )
  launch_count index s (err e, s') h =
      inr (e, refl, ap length (h.same_replicas ms.service_id), λ t _. h.same_replicas t)

  After-member :
      (index j : ℕ) (s : Fleet env.World) (r : Outcome ℕ LifecycleError × Fleet env.World)
      → After (launch_spec ms index) s r
      → occurs j (replicas s.registry ms.service_id)
        ≤ occurs j (replicas (r.1).registry ms.service_id)
  unfolding launch_spec
  After-member index j s (ok i, s') h =
      rw h.grown (omega (arith, occurs-append j (replicas s.registry ms.service_id) _))
  After-member index j s (err e, s') h = rw (h.same_replicas ms.service_id) (omega arith)

  -- A launch takes no replica away.
  pub launched_member :
      (index j : ℕ) (s : Fleet env.World)
      → BooksAt env laws lim s
      → occurs j (replicas s.registry ms.service_id)
        ≤ occurs j (replicas (launch_replica env (launch_spec ms index) s).1.registry ms.service_id)
  launched_member index j s b =
      After-member index j s (launch_replica env (launch_spec ms index) s)
        (launch_replica-Balanced env laws lim (launch_spec ms index) s (unfold launch_spec in own)
          b).0

  -- What a loop leaves, from a fleet whose count it was given.
  pub record Steady (s : Fleet env.World) (r : Scaled env.World) : Type 0 where
    pub books : BooksAt env laws lim r.fleet
    pub counted : r.current ≡ count_of r.fleet
    pub elsewhere : Elsewhere s r.fleet

  Steady-after :
      (s s' : Fleet env.World) (r : Scaled env.World) → Elsewhere s s' → Steady s' r → Steady s r
  Steady-after s s' r e h = record {
    books = h.books;
    counted = h.counted;
    elsewhere = λ t ne. h.elsewhere t ne ∙ e t ne;
  }

  pub launched_books :
      (index : ℕ) (s : Fleet env.World)
      → BooksAt env laws lim s
      → BooksAt env laws lim (launch_replica env (launch_spec ms index) s).1
  unfolding launch_spec
  launched_books index s b = (launch_replica-Balanced env laws lim (launch_spec ms index) s own b).1

  pub launched_count :
      (index : ℕ) (s : Fleet env.World)
      → BooksAt env laws lim s
      → let r = launch_replica env (launch_spec ms index) s in
        ((i : ℕ) × (r.0 ≡ ok i) × (count_of r.1 ≡ count_of s + 1) × Elsewhere s r.1)
        ⊎ ((e : LifecycleError) × (r.0 ≡ err e) × (count_of r.1 ≡ count_of s) × Elsewhere s r.1)
  launched_count index s b =
      launch_count index s (launch_replica env (launch_spec ms index) s)
        (launch_replica-Balanced env laws lim (launch_spec ms index) s (unfold launch_spec in own)
          b).0

  -- From books that balance and the true count of a service whose replicas hold its present limits,
  -- the launch loop leaves books that balance, the true count, and every other service's replicas
  -- as they were; the count does not fall, and grows by no more than was asked for.
  pub scale_up-Steady :
      (left current : ℕ) (s : Fleet env.World)
      → current ≡ count_of s
      → BooksAt env laws lim s
      → Steady s (scale_up env ms left current s)
        × (current ≤ (scale_up env ms left current s).current)
        × ((scale_up env ms left current s).current ≤ current + left)
  unfolding scale_up
  scale_up-Steady zero current s e b =
      (record { books = b; counted = e; elsewhere = λ t ne. refl }, omega arith, omega arith)
  scale_up-Steady (suc left) current s e b =
      let index = next_replica_index s ms.service_id in
      let r = launch_replica env (launch_spec ms index) s in
      elim (launched_count index s b) [
        | inr (x, failed, count, other) ↦
            rw (failed, scale_up)
              (
                record {
                  books = launched_books index s b;
                  counted = e ∙ sym count;
                  elsewhere = other;
                },
                omega arith,
                omega arith,
              )
        | inl (i, done, count, other) ↦
            let (st, lo, hi) =
              scale_up-Steady left (current + 1) r.1 (omega arith) (launched_books index s b) in
            rw (done, scale_up) (Steady-after s r.1 _ other st, omega arith, omega arith)
      ]

  -- One drain of a replica that the service has.
  pub drained_once :
      (grace : ℕ) (r : Replica) (s : Fleet env.World)
      → BooksAt env laws lim s
      → occurs r.id (replicas s.registry ms.service_id) ≡ 1
      → let s' = drain_replica env ms.service_id r.id (instance_at ms r.index) ms.limits grace s in
        BooksAt env laws lim s'
        × (count_of s' + 1 ≡ count_of s)
        × Elsewhere s s'
        × (replicas s'.registry ms.service_id ≡ drop_id r.id (replicas s.registry ms.service_id))
  unfolding replica_count
  drained_once grace r s b once =
      let inst = instance_at ms r.index in
      let (mine, others) =
        drained_replicas env laws lim ms.service_id r.id grace inst ms.limits s b once in
      (
        drain_replica_balanced env laws lim ms.service_id r.id grace inst ms.limits s b once own,
        omega (arith, ap length mine, length-drop_id r.id (replicas s.registry ms.service_id)),
        others,
        mine,
      )

  pub once_of :
      (s : Fleet env.World) (i : ℕ)
      → BooksAt env laws lim s
      → 1 ≤ occurs i (replicas s.registry ms.service_id)
      → occurs i (replicas s.registry ms.service_id) ≡ 1
  unfolding replicas
  once_of s i b h =
      omega (arith, occurs-le-occurrences i ms.service_id s.registry.by_service, b.kept.unique i)

  -- From books that balance and the true count of a service whose replicas hold its present limits,
  -- the drain loop leaves books that balance, the true count, and every other service's replicas as
  -- they were; it takes away exactly as many replicas as were asked for, up to all of them.
  pub scale_down-Steady :
      (grace left current : ℕ) (s : Fleet env.World)
      → current ≡ count_of s
      → left ≤ current
      → BooksAt env laws lim s
      → Steady s (scale_down env ms grace left current s)
        × ((scale_down env ms grace left current s).current ≡ current - left)
  unfolding scale_down
  scale_down-Steady grace zero current s e le b =
      (record { books = b; counted = e; elsewhere = λ t ne. refl }, omega arith)
  scale_down-Steady grace (suc left) current s e le b =
      elim (Option-cases (highest (replicas s.registry ms.service_id))) [
        | inl gone ↦
            let z : count_of s ≡ 0 =
              unfold replica_count in
              ap length (highest-none (replicas s.registry ms.service_id) gone) in
            absurd (omega arith)
        | inr (r, found) ↦
            let once =
              once_of s r.id b (highest_member (replicas s.registry ms.service_id) r found) in
            let (books, count, other, _) = drained_once grace r s b once in
            let s' =
              drain_replica env ms.service_id r.id (instance_at ms r.index) ms.limits grace s in
            let (st, c) =
              scale_down-Steady grace left (current - 1) s' (omega arith) (omega arith) books in
            rw (found, scale_down) (Steady-after s s' _ other st, omega arith)
      ]

  -- Every id occurs once.
  abbrev Once : List Replica → Type 0
  Once [] = Unit
  Once (r ∷ rs) = (occurs r.id rs ≡ 0) × Once rs

  Once-of_unique : (rs : List Replica) → ((i : ℕ) → occurs i rs ≤ 1) → Once rs
  Once-of_unique [] h = tt
  Once-of_unique (r ∷ rs) h = (ground (arith, h r.id), Once-of_unique rs (λ i. ground (arith, h i)))

  -- Draining the rest of a list empties it.
  drain_each_steady :
      (grace : ℕ) (rs : List Replica) (s : Fleet env.World)
      → replicas s.registry ms.service_id ≡ rs
      → Once rs
      → BooksAt env laws lim s
      → let s' = drain_each env ms grace rs s in
        BooksAt env laws lim s' × (count_of s' ≡ 0) × Elsewhere s s'
  unfolding drain_each
  drain_each_steady grace [] s e u b = (b, unfold replica_count in ap length e, λ t ne. refl)
  drain_each_steady grace (r ∷ rs) s e u b =
      let (books, _, other, mine) = drained_once grace r s b (rw e (ground arith)) in
      let s1 = drain_replica env ms.service_id r.id (instance_at ms r.index) ms.limits grace s in
      let left : drop_id r.id (r ∷ rs) ≡ rs = ground (arith, drop_id_absent r.id rs u.0) in
      let (b', z, rest) =
        drain_each_steady grace rs s1 (mine ∙ ap (drop_id r.id) e ∙ left) u.1 books in
      (b', z, λ t ne. rest t ne ∙ other t ne)

  -- From books that balance, for a service whose replicas hold its present limits,
  -- `drain_all_replicas` leaves the service without a replica, every other service's replicas as
  -- they were, and books that balance.
  pub drain_all_steady :
      (grace : ℕ) (s : Fleet env.World)
      → BooksAt env laws lim s
      → let s' = drain_all_replicas env ms grace s in
        BooksAt env laws lim s' × (count_of s' ≡ 0) × Elsewhere s s'
  unfolding drain_all_replicas
  drain_all_steady grace s b =
      drain_each_steady grace (replicas s.registry ms.service_id) s refl
        (Once-of_unique (replicas s.registry ms.service_id) (λ i.
          unfold replicas in
          omega
            (arith, occurs-le-occurrences i ms.service_id s.registry.by_service, b.kept.unique i)))
        b
