-- ===== src/Autoscale/Controller/History.antt =====
-- The life of a controller: any sequence of its operations, from the state that it starts in.
use denia.Prelude.{
  get_or, lookup, ℕ, ◌<◌, u32_max, u64_max, ◌≡◌, refl, Option, none, some, List, [], ◌∷◌, arith,
  nat_key, All,
}
use denia.Autoscale.Policy.{ResourceLimits}
use denia.Autoscale.Ledger
use denia.Autoscale.Ledger.{HostCapacity, Headroom}
use denia.Autoscale.Registry
use denia.Ingress.Pool.Views.{endpoints}
use denia.Autoscale.Lifecycle.{Env, Fleet}
use denia.Autoscale.Lifecycle.Books.{Monotone, BooksAt}
use denia.Autoscale.Controller.{AutoscaleEvent, ManagedService, Host, Controller}
use denia.Autoscale.Controller.Tick.{tick}
use denia.Autoscale.Controller.Tick.Settling.{Quiet}
use denia.Autoscale.Controller.Tick.Balance.{IsSound, tick_books}
use denia.Autoscale.Controller.Boot.{reconcile_boot, reconcile_service, activate_one, drain_all}
use denia.Autoscale.Controller.Boot.Balance.{
  SoundIf, reconcile_boot_books, reconcile_service_books, activate_one_books, drain_all_books,
}

-- One call on the controller, with what the catalog gave it.
pub data Operation : Type 0 where
  boot : List ManagedService → Operation
  one_tick : List ManagedService → ℕ → Operation
  activate reconcile drain : Option ManagedService → Operation

-- `AutoscaleController::new`, at the state `w` of its surroundings.
abbrev pub start_controller : {W : Type 0} → HostCapacity → Headroom → W → Controller W
start_controller capacity headroom w = record {
  fleet = record {
    registry = Registry.empty;
    ledger = Ledger.new capacity headroom;
    pools = [];
    world = w;
  };
  cooldowns = [];
}

module _ (env : Env) (host : Host env) (grace : ℕ) where
  abbrev pub on_fleet :
      Controller env.World
      → Option (List AutoscaleEvent × Fleet env.World)
      → Option (Controller env.World)
  on_fleet c none = none
  on_fleet c (some (events, s)) = some (record c { fleet = s })

  abbrev pub in_order :
      Option (List AutoscaleEvent × Controller env.World) → Option (Controller env.World)
  in_order none = none
  in_order (some (events, c)) = some c

  -- `none` is a panic.
  unfoldable pub operate : Operation → Controller env.World → Option (Controller env.World)
  operate (boot services) c = on_fleet c (reconcile_boot env host grace services c.fleet)
  operate (one_tick services now_s) c = in_order (tick env host grace services now_s c)
  operate (activate o) c = some (record c { fleet = (activate_one env host grace o c.fleet).1 })
  operate (reconcile o) c = on_fleet c (reconcile_service env host grace o c.fleet)
  operate (drain o) c = some (record c { fleet = (drain_all env host grace o c.fleet).1 })

  unfoldable pub operate_all : List Operation → Controller env.World → Option (Controller env.World)
  unfolding operate
  operate_all [] c = some c
  operate_all (op ∷ ops) c = elim (operate op c) [ none ↦ none | some c' ↦ operate_all ops c' ]

module _ (env : Env) (host : Host env) (laws : Monotone env) (quiet : Quiet env host laws)
    (lim : ℕ → ResourceLimits) (grace : ℕ) where
  -- Every service that the operation is about has a policy that validates, and the limits that
  -- its replicas hold.
  abbrev pub SoundOperation : Operation → Type 0
  SoundOperation (boot services) = All (IsSound env host laws quiet lim grace) services
  SoundOperation (one_tick services now_s) = All (IsSound env host laws quiet lim grace) services
  SoundOperation (activate o) = SoundIf env host laws quiet lim grace o
  SoundOperation (reconcile o) = SoundIf env host laws quiet lim grace o
  SoundOperation (drain o) = SoundIf env host laws quiet lim grace o

  abbrev Keeps : Option (Controller env.World) → Type 0
  Keeps o = (c : Controller env.World) × (o ≡ some c) × BooksAt env laws lim c.fleet

  operate_books :
      (op : Operation) (c : Controller env.World)
      → SoundOperation op
      → BooksAt env laws lim c.fleet
      → Keeps (operate env host grace op c)
  unfolding operate
  operate_books (boot services) c sound b =
      let (r, e, b') =
        reconcile_boot_books env host laws quiet lim grace services c.fleet sound b in
      (record c { fleet = r.1 }, rw e refl, b')
  operate_books (one_tick services now_s) c sound b =
      let (r, e, b') = tick_books env host laws quiet lim grace services now_s c sound b in
      (r.1, rw e refl, b')
  operate_books (activate o) c sound b =
      (_, refl, activate_one_books env host laws quiet lim grace o c.fleet sound b)
  operate_books (reconcile o) c sound b =
      let (r, e, b') = reconcile_service_books env host laws quiet lim grace o c.fleet sound b in
      (record c { fleet = r.1 }, rw e refl, b')
  operate_books (drain o) c sound b =
      (_, refl, drain_all_books env host laws quiet lim grace o c.fleet sound b)

  operate_all_from :
      (ops : List Operation) (c : Controller env.World)
      → All SoundOperation ops
      → BooksAt env laws lim c.fleet
      → Keeps (operate_all env host grace ops c)
  unfolding operate_all
  operate_all_from [] c sound b = (c, refl, b)
  operate_all_from (op ∷ ops) c sound b =
      let (c1, e1, b1) = operate_books op c sound.0 b in
      let (c2, e2, b2) = operate_all_from ops c1 sound.1 b1 in (c2, rw (e1, operate_all) e2, b2)

  start_books :
      (capacity : HostCapacity) (headroom : Headroom) (w : env.World)
      → capacity.cpu_millis < u32_max
      → capacity.mem_bytes < u64_max
      → BooksAt env laws lim (start_controller capacity headroom w).fleet
  unfolding Ledger.new get_or lookup
  start_books capacity headroom w cpu_fits mem_fits = record {
    kept = record {
      distinct = tt;
      unique = λ i. omega arith;
      fresh = λ i lt. refl;
      mirror = λ t. unfold Registry.replicas endpoints in refl;
    };
    cpu = refl;
    mem = refl;
    room = record { cpu_room = omega arith; mem_room = omega arith };
  }

  -- In surroundings whose ids grow and whose database gives back what was written, and from the
  -- state that a controller starts in, on a host whose capacity is below the largest
  -- 32-bit (CPU) and 64-bit (memory) numbers, any sequence of boots, ticks, activations,
  -- reconciliations and drains of services whose policies validate and whose limits never change
  -- runs without a panic and leaves books that balance.
  pub history_balanced :
      (capacity : HostCapacity) (headroom : Headroom) (w : env.World) (ops : List Operation)
      → capacity.cpu_millis < u32_max
      → capacity.mem_bytes < u64_max
      → All SoundOperation ops
      → (c : Controller env.World) × (operate_all env host grace ops
            (start_controller capacity headroom w)
          ≡ some c)
        × BooksAt env laws lim c.fleet
  history_balanced capacity headroom w ops cpu_fits mem_fits sound =
      operate_all_from ops (start_controller capacity headroom w) sound
        (start_books capacity headroom w cpu_fits mem_fits)
