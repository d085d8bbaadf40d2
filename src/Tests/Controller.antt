-- ===== src/Tests/Controller.antt =====
-- Tests of the controller and the lifecycle, on the concrete surroundings.
use denia.Prelude.{
  ◌+◌, ◌-◌, ◌≤◌, ◌≡◌, refl, sym, subst, ◌∙◌, get_or, insert, insert_new, replace, lookup, true,
  none, some, List, [], ◌∷◌, arith,
}
use denia.Autoscale.Policy.{ResourceLimits, validate}
use denia.Autoscale.Ledger.{HostCapacity, Headroom, try_reserve, new}
use denia.Autoscale.Registry.{
  Replica, ReplicaState, set_state, set_state_in, add, replicas, replica_count,
}
use denia.Autoscale.Registry.Views.{occurs}
use denia.Autoscale.Registry.Sums.{weight}
use denia.Autoscale.Lifecycle.{launch_replica}
use denia.Autoscale.Lifecycle.Books.{BooksAt, Balanced, launch_replica-Balanced}
use denia.Autoscale.Lifecycle.Drain.{drained, drain_drift}
use denia.Autoscale.Controller.{Controller, launch_spec, instance_at}
use denia.Autoscale.Controller.Scaling.{scale_up, scale_down, drain_all_replicas}
use denia.Autoscale.Controller.Scaling.Balance.{
  Steady, Elsewhere, count_of, scale_up-Steady, scale_down-Steady, drain_all_steady,
}
use denia.Autoscale.Controller.Tick.{roll, tick_service}
use denia.Autoscale.Controller.Tick.Rollout.{Rolled, roll-Rolled}
use denia.Autoscale.Controller.Tick.Balance.{IsSound, Steps, tick_service-Steps}
use denia.Autoscale.Controller.Boot.{reconcile_boot}
use denia.Ingress.Pool.{mark, set_replica_healthy, add_replica}
use denia.Autoscale.Controller.History.{
  Operation, boot, one_tick, activate, drain, start_controller, operate_all, history_balanced,
}
use denia.Tests.Surroundings.{Machine, machine, env, policy, service, host, laws, quiet, lim}

abbrev capacity : HostCapacity
capacity = record { cpu_millis = 1600; mem_bytes = 100000 }

abbrev headroom : Headroom
headroom = record { cpu_millis = 100; mem_bytes = 500 }

policy-valid : validate policy ≡ none
unfolding validate
policy-valid = refl

service-IsSound : IsSound env host laws quiet lim 10 service
service-IsSound = (policy-valid, refl)

-- Boot, two ticks under load, a stop, and a request.
abbrev day : List Operation
day =
    boot (service ∷ [])
    ∷ one_tick (service ∷ []) 10
    ∷ one_tick (service ∷ []) 20
    ∷ drain (some service)
    ∷ activate (some service)
    ∷ []

history_balanced_example :
    (c : Controller Machine) × (operate_all env host 10 day
        (start_controller capacity headroom machine)
      ≡ some c)
    × BooksAt env laws lim c.fleet
history_balanced_example =
    history_balanced env host laws quiet lim 10 capacity headroom machine day (omega arith)
      (omega arith)
      (
        (service-IsSound, tt),
        ((service-IsSound, tt), ((service-IsSound, tt), (service-IsSound, (service-IsSound, tt)))),
      )

-- The controller after a boot that adopts one replica.
abbrev up : Controller Machine
up = record {
  fleet = record {
    registry = record {
      by_service =
          (
            7,
            record {
              id = 1;
              service_id = 7;
              deployment_id = 2;
              index = 0;
              socket_path = 55;
              state = ReplicaState.healthy;
            }
                ∷ [],
          )
          ∷ [];
      cursor = [];
    };
    ledger = record {
      committed_cpu = 500;
      committed_mem = 1000;
      allocatable_cpu = 1500;
      allocatable_mem = 99500;
    };
    pools =
        (
          7,
          record {
            endpoints = record { replica_id = 1; socket_path = 55; healthy = true } ∷ [];
            cursor = 0;
            last_activity = 1;
          },
        )
        ∷ [];
    world = record { last = 1; desired = (7, 1) ∷ [] };
  };
  cooldowns = [];
}

booted :
    operate_all env host 10 (boot (service ∷ []) ∷ []) (start_controller capacity headroom machine)
    ≡ some up
unfolding operate_all reconcile_boot replica_count replicas get_or try_reserve new set_state
    set_state_in add insert insert_new scale_up set_replica_healthy add_replica replace mark
booted = refl

up-books : BooksAt env laws lim up.fleet
up-books =
    let (c, e, b) =
      history_balanced env host laws quiet lim 10 capacity headroom machine
        (boot (service ∷ []) ∷ []) (omega arith) (omega arith) ((service-IsSound, tt), tt) in
    subst (λ (c : Controller Machine). BooksAt env laws lim c.fleet) (sym (same c (sym booted ∙ e)))
      b
  where
    same : (c : Controller Machine) → some up ≡ some c → up ≡ c
    same c h = cc

tick_service-Steps_example :
    Steps env host laws quiet lim 10 service refl up (tick_service env host 10 service 10 up)
tick_service-Steps_example =
    tick_service-Steps env host laws quiet lim 10 service refl 10 up policy-valid up-books

launch_replica-Balanced_example :
    Balanced env laws lim
      (launch_spec service 1)
      up.fleet
      (launch_replica env (launch_spec service 1) up.fleet)
launch_replica-Balanced_example =
    launch_replica-Balanced env laws lim (launch_spec service 1) up.fleet
      (unfold launch_spec in refl) up-books

scale_up-Steady_example :
    Steady env laws lim service refl up.fleet
      (scale_up env service 2 (count_of env laws lim service refl up.fleet) up.fleet)
    × (count_of env laws lim service refl up.fleet
        ≤ (scale_up env service 2 (count_of env laws lim service refl up.fleet) up.fleet).current)
    × ((scale_up env service 2 (count_of env laws lim service refl up.fleet) up.fleet).current
        ≤ count_of env laws lim service refl up.fleet + 2)
scale_up-Steady_example =
    scale_up-Steady env laws lim service refl 2 (count_of env laws lim service refl up.fleet)
      up.fleet refl up-books

drain_all_steady_example :
    BooksAt env laws lim (drain_all_replicas env service 10 up.fleet)
    × (count_of env laws lim service refl (drain_all_replicas env service 10 up.fleet) ≡ 0)
    × Elsewhere env laws lim service refl up.fleet (drain_all_replicas env service 10 up.fleet)
drain_all_steady_example = drain_all_steady env laws lim service refl 10 up.fleet up-books

scale_down-Steady_example :
    Steady env laws lim service refl up.fleet (scale_down env service 10 1 1 up.fleet)
    × ((scale_down env service 10 1 1 up.fleet).current ≡ 1 - 1)
unfolding replica_count replicas get_or lookup
scale_down-Steady_example =
    scale_down-Steady env laws lim service refl 10 1 1 up.fleet refl (omega arith) up-books

-- The replica that the boot adopted.
abbrev adopted : Replica
adopted = record {
  id = 1;
  service_id = 7;
  deployment_id = 2;
  index = 0;
  socket_path = 55;
  state = ReplicaState.healthy;
}

up-has : occurs 1 (replicas up.fleet.registry 7) ≡ 1
unfolding replicas get_or lookup
up-has = refl

-- The limits of the service, edited after the launch of its replica.
abbrev edited : ResourceLimits
edited = record { cpu_millis = 200; memory_bytes = 1000 }

drain_drift_example :
    let s' = drained env laws lim 7 1 10 (instance_at service 0) edited up.fleet up-books up-has in
    (s'.ledger.committed_cpu ≡ weight (λ k. 500) s'.registry + 500 - 200)
    × (s'.ledger.committed_mem ≡ weight (λ k. 1000) s'.registry + 1000 - 1000)
drain_drift_example =
    drain_drift env laws lim 7 1 10 (instance_at service 0) edited up.fleet up-books up-has

roll-Rolled_example :
    Rolled env host laws lim 10 service refl up.fleet (roll env host 10 service adopted up.fleet).1
roll-Rolled_example =
    roll-Rolled env host laws lim 10 service refl adopted up.fleet (omega (arith, up-has)) up-books
