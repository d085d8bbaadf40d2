-- ===== src/Autoscale/Controller/Tick/Balance.antt =====
-- A tick of the controller: panics, the books, and the count that is persisted.
use denia.Prelude.{
  ℕ, ◌≤◌, max, ◌≡◌, refl, inl, inr, Option, none, some, List, [], ◌∷◌, ◌++◌, arith, ◌==◌, leb,
  retain, nat_key, get_or, Bool-cases, All,
}
use denia.Autoscale.Policy.{ResourceLimits, validate, validate-Bounds}
use denia.Autoscale.Scaler.{CooldownState, idle_cooldown}
use denia.Autoscale.Registry.{Replica, replicas, replica_count}
use denia.Autoscale.Registry.Views.{occurs}
use denia.Autoscale.Lifecycle.{Env, Fleet}
use denia.Autoscale.Lifecycle.Books.{Monotone, BooksAt}
use denia.Autoscale.Usage.{ServiceUsage}
use denia.Autoscale.Controller.{AutoscaleEvent, ManagedService, Host, Controller}
use denia.Autoscale.Controller.Tick.{
  outdated, desired_from_usage, idle_secs, is_idle, persist, roll, move_to, moved, sampled,
  scale_service, tick_old, tick_service, tick_each, is_managed, tick,
}
use denia.Ingress.Pool
use denia.Autoscale.Controller.Tick.Settling.{
  Quiet, Decided, desired_from_usage_total, Settled, Books-later, persist-Settled, move_to-Settled,
  to_zero-Settled,
}
use denia.Autoscale.Controller.Tick.Rollout.{Rolled, roll-Rolled}

module _ (env : Env) (host : Host env) (laws : Monotone env) (quiet : Quiet env host laws)
    (lim : ℕ → ResourceLimits) (grace : ℕ) (ms : ManagedService)
    (own : ms.limits ≡ lim ms.service_id) where
  open env use {World}
  open host use {get_desired, set_desired}

  abbrev live_count : Fleet World → ℕ
  live_count s = replica_count s.registry ms.service_id

  abbrev Ends : ℕ → Fleet World → Fleet World → Type 0
  Ends = Settled env host laws quiet lim grace ms own

  Rolled-settled :
      (top : ℕ) (s s' : Fleet World)
      → live_count s ≤ top
      → Rolled env host laws lim grace ms own s s'
      → Ends top s (persist env host grace ms.service_id (live_count s') s')
  Rolled-settled top s s' le r =
      persist-Settled env host laws quiet lim grace ms own top (live_count s') s s' r.books
        r.elsewhere refl (omega (arith, r.no_more))

  -- The outdated replicas are replicas of the service.
  outdated_member :
      (d : ℕ) (rs : List Replica) (old : Replica) (more : List Replica)
      → outdated d rs ≡ old ∷ more
      → 1 ≤ occurs old.id rs
  unfolding outdated
  outdated_member d [] old more h = cc
  outdated_member d (r ∷ rs) old more h = elim (Bool-cases (r.deployment_id == d)) [
    | inl same ↦ omega (arith, outdated_member d rs old more (rw (← h, same)))
    | inr other ↦ ground arith
  ]

  -- A step that a policy that validates cannot make panic.
  abbrev pub Steps : Controller World → Option (List AutoscaleEvent × Controller World) → Type 0
  Steps c o =
      (r : List AutoscaleEvent × Controller World) × (o ≡ some r)
      × Ends (max (live_count c.fleet) ms.policy.max_replicas) c.fleet r.1.fleet

  Settled-weaken : (top top' : ℕ) (s s' : Fleet World) → top ≤ top' → Ends top s s' → Ends top' s s'
  Settled-weaken top top' s s' le h = record {
    books = h.books;
    elsewhere = h.elsewhere;
    persisted = h.persisted;
    bounded = omega (arith, h.bounded);
  }

  moved-Steps :
      (start d : ℕ) (cd : CooldownState) (o : Option ℕ) (c : Controller World)
      → o ≡ some d
      → start ≡ live_count c.fleet
      → Decided ms.policy start d
      → BooksAt env laws lim c.fleet
      → Steps c (moved env host grace ms start (cd, o) c)
  unfolding moved
  moved-Steps start d cd none c e s k b = cc
  moved-Steps start d cd (some d') c e s k b = (
    _,
    refl,
    Settled-weaken (max start d') _ c.fleet (move_to env host grace ms start d' c.fleet).1 (bound k)
        (move_to-Settled env host laws quiet lim grace ms own start d' c.fleet s b),
  )
    where
      bound :
          Decided ms.policy start d → max start d' ≤ max (live_count c.fleet) ms.policy.max_replicas
      bound k = ground arith

  sampled-Steps :
      (start now_s : ℕ) (u : ServiceUsage) (c : Controller World)
      → start ≡ live_count c.fleet
      → validate ms.policy ≡ none
      → BooksAt env laws lim c.fleet
      → Steps c (sampled env host grace ms start now_s u c)
  unfolding sampled
  sampled-Steps start now_s u c s v b =
      let cd = get_or idle_cooldown ms.service_id c.cooldowns in
      let secs =
        idle_secs (env.instant c.fleet.world) (Pool.last_activity c.fleet.pools ms.service_id) in
      let top = max (live_count c.fleet) ms.policy.max_replicas in
      let r = desired_from_usage ms.policy start u cd now_s in
      let (d, e, k) = desired_from_usage_total ms.policy start u cd now_s v in
      elim (Bool-cases (u.live_readings == 0)) [
        | inl dark ↦ rw dark (
          _,
          refl,
          persist-Settled env host laws quiet lim grace ms own top start c.fleet c.fleet b
              (λ t ne. refl) s (omega arith),
        )
        | inr lit ↦ elim (Bool-cases (is_idle ms.policy secs u)) [
          | inl idle ↦
              rw (lit, idle)
                (_, refl, to_zero-Settled env host laws quiet lim grace ms own top c.fleet b)
          | inr busy ↦ rw (lit, busy) (moved-Steps start d r.0 r.1 c e s k b)
        ]
      ]

  Elsewhere-world :
      (s s' : Fleet World) (w : World)
      → Ends (max (live_count s) ms.policy.max_replicas) (record s { world = w }) s'
      → Ends (max (live_count s) ms.policy.max_replicas) s s'
  Elsewhere-world s s' w h = record {
    books = h.books;
    elsewhere = h.elsewhere;
    persisted = h.persisted;
    bounded = h.bounded;
  }

  scale_service-Steps :
      (now_s : ℕ) (c : Controller World)
      → validate ms.policy ≡ none
      → BooksAt env laws lim c.fleet
      → Steps c (scale_service env host grace ms now_s c)
  unfolding scale_service
  scale_service-Steps now_s c v b =
      let start = live_count c.fleet in
      let top = max start ms.policy.max_replicas in
      let (u, w) =
        host.usage ms.service_name (replicas c.fleet.registry ms.service_id) ms.limits
          c.fleet.world in
      let bounds = validate-Bounds ms.policy v in
      let s = record (c.fleet) { world = w } in
      elim (Bool-cases (start == 0)) [
        | inl none_live ↦ elim (Bool-cases (leb 1 ms.policy.min_replicas)) [
          | inl floor ↦
              rw (none_live, floor)
                (
                  _,
                  refl,
                  Settled-weaken (max start ms.policy.min_replicas) top c.fleet _
                      (omega (arith, bounds.ordered))
                      (move_to-Settled env host laws quiet lim grace ms own start
                        ms.policy.min_replicas c.fleet refl b),
                )
          | inr asleep ↦
              rw (none_live, asleep)
                (
                  _,
                  refl,
                  persist-Settled env host laws quiet lim grace ms own top 0 c.fleet c.fleet b
                      (λ t ne. refl) (ground arith) (omega arith),
                )
        ]
        | inr live ↦
            let (r, e, h) =
              sampled-Steps start now_s u (record c { fleet = s }) refl v
                (Books-later env host laws quiet lim grace ms own c.fleet w
                  (quiet.usage_keeps _ _ _ _) b) in
            rw live (r, e, Elsewhere-world c.fleet r.1.fleet w h)
      ]

  tick_old-Steps :
      (now_s : ℕ) (olds : List Replica) (c : Controller World)
      → outdated ms.deployment_id (replicas c.fleet.registry ms.service_id) ≡ olds
      → validate ms.policy ≡ none
      → BooksAt env laws lim c.fleet
      → Steps c (tick_old env host grace ms now_s olds c)
  unfolding tick_old
  tick_old-Steps now_s [] c e v b = scale_service-Steps now_s c v b
  tick_old-Steps now_s (old ∷ more) c e v b =
      let top = max (live_count c.fleet) ms.policy.max_replicas in
      let m = outdated_member ms.deployment_id _ old more e in
      (
        _,
        refl,
        Rolled-settled top c.fleet (roll env host grace ms old c.fleet).1 (omega arith)
            (roll-Rolled env host laws lim grace ms own old c.fleet m b),
      )

  -- One round of the loop, for a service whose policy validates and whose replicas were reserved
  -- with its present limits, from books that balance: it does not panic; the books balance after
  -- it; no other service's replicas change; the desired count that is persisted is the number of
  -- replicas that the registry then has; and that number is at most the larger of the number
  -- before and the policy's maximum.
  pub tick_service-Steps :
      (now_s : ℕ) (c : Controller World)
      → validate ms.policy ≡ none
      → BooksAt env laws lim c.fleet
      → Steps c (tick_service env host grace ms now_s c)
  unfolding tick_service
  tick_service-Steps now_s c v b =
      tick_old-Steps now_s (outdated ms.deployment_id (replicas c.fleet.registry ms.service_id)) c
        refl v b

module _ (env : Env) (host : Host env) (laws : Monotone env) (quiet : Quiet env host laws)
    (lim : ℕ → ResourceLimits) (grace : ℕ) where
  -- A service whose policy validates, with the limits that its replicas were reserved with.
  abbrev pub IsSound : ManagedService → Type 0
  IsSound ms = (validate ms.policy ≡ none) × (ms.limits ≡ lim ms.service_id)

  tick_each_books :
      (services : List ManagedService) (now_s : ℕ) (c : Controller env.World)
      → All IsSound services
      → BooksAt env laws lim c.fleet
      → (r : List AutoscaleEvent × Controller env.World) × (tick_each env host grace services now_s
            c
          ≡ some r)
        × BooksAt env laws lim r.1.fleet
  unfolding tick_each
  tick_each_books [] now_s c h b = (_, refl, b)
  tick_each_books (ms ∷ rest) now_s c h b =
      let (r, e, st) = tick_service-Steps env host laws quiet lim grace ms h.0.1 now_s c h.0.0 b in
      let (r2, e2, b2) = tick_each_books rest now_s r.1 h.1 st.books in
      ((r.0 ++ r2.0, r2.1), rw (e, tick_each) (rw (e2) refl), b2)

  -- A tick over services whose policies validate and whose replicas were reserved with their
  -- present limits does not panic, and from books that balance it leaves books that balance: the
  -- ledger commits exactly the sum of the limits of the replicas in the registry, ids are unique,
  -- and each ingress pool lists exactly its service's replicas, with their sockets and healths.
  pub tick_books :
      (services : List ManagedService) (now_s : ℕ) (c : Controller env.World)
      → All IsSound services
      → BooksAt env laws lim c.fleet
      → (r : List AutoscaleEvent × Controller env.World) × (tick env host grace services now_s c
          ≡ some r)
        × BooksAt env laws lim r.1.fleet
  unfolding tick
  tick_books services now_s c h b =
      let (r, e, b') = tick_each_books services now_s c h b in
      (
        (
          r.0,
          record (r.1) { cooldowns = retain (is_managed env host grace services) r.1.cooldowns },
        ),
        rw (e, tick) refl,
        b',
      )
