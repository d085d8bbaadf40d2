-- ===== src/Autoscale/Controller/Boot/Balance.antt =====
-- The operations of the controller beside the tick, and the books.
use denia.Prelude.{
  ℕ, ◌-◌, ◌≡◌, refl, inl, inr, Option, none, some, List, [], ◌∷◌, ◌++◌, arith, ◌==◌, ltb, leb,
  Bool-cases, All, All-find, ◌&&◌,
}
use denia.Autoscale.Policy.{ResourceLimits, validate-Bounds}
use denia.Autoscale.Scaler.Bounds.{clamp_total}
use denia.Autoscale.Ledger
use denia.Autoscale.Ledger.{ResourceLedger}
use denia.Autoscale.Registry.{replica_count}
use denia.Autoscale.Lifecycle.{
  LaunchSpec, RuntimeStatus, Outcome, ok, err, LifecycleError, Env, Fleet, register, promote,
}
use denia.Autoscale.Lifecycle.Books.{Monotone, BooksAt, gate_passed}
use denia.Autoscale.Lifecycle.Kept.{Kept-later}
use denia.Autoscale.Controller.{LogLine, AutoscaleEvent, ManagedService, Host, launch_spec}
use denia.Autoscale.Controller.Scaling.{Scaled, scale_up}
use denia.Autoscale.Controller.Scaling.Balance.{launched_books, scale_up-Steady, drain_all_steady}
use denia.Autoscale.Controller.Tick.Settling.{Quiet}
use denia.Autoscale.Controller.Tick.Balance.{IsSound}
use denia.Autoscale.Controller.Boot.{
  or_min, log_line, activated, activate_one, topped, top_up_to_desired, reconcile_service,
  drain_all, adopt, remove_orphan, adopt_if, review, manager_of, review_each, note_idle,
  top_up_each, reconcile_boot,
}

module _ (env : Env) (host : Host env) (laws : Monotone env) (quiet : Quiet env host laws)
    (lim : ℕ → ResourceLimits) (grace : ℕ) where
  open env use {World}

  abbrev Good : Fleet World → Type 0
  Good = BooksAt env laws lim

  abbrev adopted_spec : ManagedService → RuntimeStatus → LaunchSpec
  adopted_spec ms status = record (launch_spec ms status.replica_index) {
    deployment_id = status.deployment_id;
  }

  adopt_books :
      (ms : ManagedService) (status : RuntimeStatus) (l : ResourceLedger) (s : Fleet World)
      → ms.limits ≡ lim ms.service_id
      → Ledger.try_reserve s.ledger ms.limits ≡ some l
      → Good s
      → Good (adopt env host grace ms status l s)
  unfolding adopt launch_spec register promote
  adopt_books ms status l s own e b =
      (gate_passed env laws lim (adopted_spec ms status) status s.ledger (record s { ledger = l })
        (record { kept = b.kept; cpu = b.cpu; mem = b.mem; room = b.room; taken = e; own = own })
        (env.now_v7 s.world).1 (omega (arith, laws.now_v7_last s.world))).1

  remove_orphan_books :
      (status : RuntimeStatus) (s : Fleet World)
      → Good s
      → Good (remove_orphan env host grace status s).1
  unfolding remove_orphan
  remove_orphan_books status s b = record {
    kept = Kept-later _ _ _ _ (laws.stop_keeps _ _) b.kept;
    cpu = b.cpu;
    mem = b.mem;
    room = b.room;
  }

  -- A service's limits are those that its replicas hold.
  abbrev pub IsOwn : ManagedService → Type 0
  IsOwn ms = ms.limits ≡ lim ms.service_id

  adopt_if_books :
      (ms : ManagedService) (status : RuntimeStatus) (o : Option ResourceLedger) (s : Fleet World)
      → IsOwn ms
      → Ledger.try_reserve s.ledger ms.limits ≡ o
      → Good s
      → Good (adopt_if env host grace ms status o s).1
  unfolding adopt_if
  adopt_if_books ms status none s own e b = remove_orphan_books status s b
  adopt_if_books ms status (some l) s own e b = adopt_books ms status l s own e b

  review_books :
      (o : Option ManagedService) (status : RuntimeStatus) (s : Fleet World)
      → ((ms : ManagedService) → o ≡ some ms → IsOwn ms)
      → Good s
      → Good (review env host grace o status s).1
  unfolding review
  review_books none status s own b = remove_orphan_books status s b
  review_books (some ms) status s own b =
      elim (Bool-cases (status.deployment_id == ms.deployment_id)) [
        | inl same ↦ rw same (adopt_if_books ms status _ s (own ms refl) refl b)
        | inr other ↦ rw other (remove_orphan_books status s b)
      ]

  review_each_books :
      (services : List ManagedService) (running : List RuntimeStatus) (s : Fleet World)
      → All IsOwn services
      → Good s
      → Good (review_each env host grace services running s).1
  unfolding review_each
  review_each_books services [] s own b = b
  review_each_books services (status ∷ more) s own b = review_each_books services more _ own (
      review_books (manager_of env host grace services status) status s
        (λ ms e. All-find IsOwn (λ ms. ms.service_id == status.service_id) services ms own e) b)

  log_books :
      (k : ℕ) (text : LogLine) (s : Fleet World) → Good s → Good (log_line env host grace k text s)
  log_books k text s b = record {
    kept = Kept-later _ _ _ _ (quiet.append_log_keeps _ _ _) b.kept;
    cpu = b.cpu;
    mem = b.mem;
    room = b.room;
  }

  note_idle_books :
      (ms : ManagedService) (s : Fleet World) → Good s → Good (note_idle env host grace ms s)
  unfolding note_idle
  note_idle_books ms s b =
      elim (Bool-cases
        (ms.policy.min_replicas == 0 && replica_count s.registry ms.service_id == 0)) [
          | inl t ↦ rw t (log_books ms.service_id _ s b)
          | inr f ↦ rw f b
        ]

  topped_books :
      (ms : ManagedService) (start : ℕ) (r : Scaled World)
      → Good r.fleet
      → Good (topped env host grace ms start r).1
  unfolding topped
  topped_books ms start r b =
      let b' : Good
          (record (r.fleet) { world = host.set_desired ms.service_id r.current r.fleet.world }) =
        record {
          kept = Kept-later _ _ _ _ (quiet.set_desired_keeps _ _ _) b.kept;
          cpu = b.cpu;
          mem = b.mem;
          room = b.room;
        } in
      elim (Bool-cases (ltb start r.current)) [ inl t ↦ rw t b' | inr f ↦ rw f b' ]

  -- What a top-up gives.
  abbrev pub Tops : Option (List AutoscaleEvent × Fleet World) → Type 0
  Tops o = (r : List AutoscaleEvent × Fleet World) × (o ≡ some r) × Good r.1

  -- A top-up of a service whose policy validates and whose replicas hold its present limits does
  -- not panic, and keeps the books.
  top_up_books :
      (ms : ManagedService) (s : Fleet World)
      → IsSound env host laws quiet lim grace ms
      → Good s
      → Tops (top_up_to_desired env host grace ms s)
  unfolding top_up_to_desired
  top_up_books ms s sound b =
      let desired = or_min env host grace (host.get_desired ms.service_id s.world) ms in
      let start = replica_count s.registry ms.service_id in
      let (t, e, lo, hi) =
        clamp_total desired ms.policy.min_replicas ms.policy.max_replicas
          (validate-Bounds ms.policy sound.0).ordered in
      let up = scale_up-Steady env laws lim ms sound.1 (t - start) start s refl b in
      let r = topped env host grace ms start (scale_up env ms (t - start) start s) in
      (r, rw (e, top_up_to_desired) refl, topped_books ms start _ up.0.books)

  -- A service that an operation is about, where the catalog knows it.
  abbrev pub SoundIf : Option ManagedService → Type 0
  SoundIf none = Unit {0}
  SoundIf (some ms) = IsSound env host laws quiet lim grace ms

  pub reconcile_service_books :
      (o : Option ManagedService) (s : Fleet World)
      → SoundIf o
      → Good s
      → Tops (reconcile_service env host grace o s)
  unfolding reconcile_service
  reconcile_service_books none s sound b = (([], s), refl, b)
  reconcile_service_books (some ms) s sound b = top_up_books ms s sound b

  top_up_each_books :
      (services : List ManagedService) (s : Fleet World)
      → All (IsSound env host laws quiet lim grace) services
      → Good s
      → Tops (top_up_each env host grace services s)
  unfolding top_up_each
  top_up_each_books [] s sound b = (([], s), refl, b)
  top_up_each_books (ms ∷ rest) s sound b =
      let (r, e, b') = top_up_books ms s sound.0 b in
      let (r2, e2, b2) = top_up_each_books rest _ sound.1 (note_idle_books ms r.1 b') in
      ((r.0 ++ r2.0, r2.1), rw (e, top_up_each) (rw (e2) refl), b2)

  IsOwn-of_sound :
      (services : List ManagedService)
      → All (IsSound env host laws quiet lim grace) services
      → All IsOwn services
  IsOwn-of_sound [] h = tt
  IsOwn-of_sound (ms ∷ rest) h = (h.0.1, IsOwn-of_sound rest h.1)

  -- Boot: every running workload is adopted or stopped, then every service is topped up.
  pub reconcile_boot_books :
      (services : List ManagedService) (s : Fleet World)
      → All (IsSound env host laws quiet lim grace) services
      → Good s
      → Tops (reconcile_boot env host grace services s)
  unfolding reconcile_boot
  reconcile_boot_books services s sound b =
      let (running, w) = host.list_running s.world in
      let s1 : Fleet World = record s { world = w } in
      let b1 : Good s1 = record {
        kept = Kept-later _ _ _ _ (quiet.list_running_keeps _) b.kept;
        cpu = b.cpu;
        mem = b.mem;
        room = b.room;
      } in
      let reviewed = review_each env host grace services running s1 in
      let (r, e, b2) =
        top_up_each_books services reviewed.1 sound
          (review_each_books services running s1 (IsOwn-of_sound services sound) b1) in
      ((reviewed.0 ++ r.0, r.1), rw (e, reconcile_boot) refl, b2)

  activated_books :
      (ms : ManagedService) (r : Outcome ℕ LifecycleError × Fleet World)
      → Good r.1
      → Good (activated env host grace ms r).1
  unfolding activated
  activated_books ms (ok i, s) b = log_books ms.service_id _ s b
  activated_books ms (err e, s) b = log_books ms.service_id _ s b

  pub activate_one_books :
      (o : Option ManagedService) (s : Fleet World)
      → SoundIf o
      → Good s
      → Good (activate_one env host grace o s).1
  unfolding activate_one
  activate_one_books none s sound b = b
  activate_one_books (some ms) s sound b =
      elim (Bool-cases (leb 1 (replica_count s.registry ms.service_id))) [
        | inl up ↦ rw up b
        | inr down ↦ elim (Bool-cases (ms.policy.max_replicas == 0)) [
          | inl off ↦ rw (down, off) b
          | inr on ↦
              rw (down, on) (activated_books ms _ (launched_books env laws lim ms sound.1 0 s b))
        ]
      ]

  pub drain_all_books :
      (o : Option ManagedService) (s : Fleet World)
      → SoundIf o
      → Good s
      → Good (drain_all env host grace o s).1
  unfolding drain_all
  drain_all_books none s sound b = b
  drain_all_books (some ms) s sound b =
      let d = drain_all_steady env laws lim ms sound.1 grace s b in
      record {
        kept = Kept-later _ _ _ _ (quiet.set_desired_keeps _ _ _) d.0.kept;
        cpu = d.0.cpu;
        mem = d.0.mem;
        room = d.0.room;
      }
