-- ===== src/Tests/Surroundings.antt =====
-- Concrete surroundings of the autoscaler: ids from a counter, a database of desired counts, a
-- runtime that starts every replica, a check that every third replica fails, and busy replicas.
use native.Mathlib.Nat.{le_refl}
use denia.Prelude.{
  ℕ, ◌+◌, ◌%◌, refl, not, none, [], ◌∷◌, arith, ◌==◌, Map, nat_key, lookup, insert, lookup-insert,
  beq_refl, ok,
}
use denia.Autoscale.Policy.{ResourceLimits, AutoscalePolicy}
use denia.Autoscale.Lifecycle.{Env}
use denia.Autoscale.Lifecycle.Books.{Monotone}
use denia.Autoscale.Usage.{ServiceUsage}
use denia.Autoscale.Controller.{ManagedService, Host}
use denia.Autoscale.Controller.Tick.Settling.{Quiet}

pub record Machine : Type 0 where
  pub last : ℕ
  pub desired : Map ℕ ℕ

abbrev pub machine : Machine
machine = record { last = 0; desired = [] }

abbrev pub env : Env
env = record {
  World = Machine;
  now_v7 = λ w. (w.last + 1, record w { last = w.last + 1 });
  instant = λ w. w.last;
  start = λ r w. (
    ok (record {
      service_id = r.service_id;
      service_name = r.service_name;
      deployment_id = r.deployment_id;
      socket_path = 100 + w.last;
      replica_index = r.replica_index;
    }),
    w,
  );
  stop = λ i w. w;
  check = λ path check w. (not (w.last % 3 == 0), w);
  sleep = λ n w. w;
}

abbrev pub limits : ResourceLimits
limits = record { cpu_millis = 500; memory_bytes = 1000 }

abbrev pub policy : AutoscalePolicy
policy = record {
  min_replicas = 1;
  max_replicas = 4;
  target_cpu_pct = 50;
  target_mem_pct = none;
  scale_down_cooldown_s = 60;
  idle_timeout_s = 300;
}

abbrev pub service : ManagedService
service = record {
  service_name = "web";
  service_id = 7;
  deployment_id = 2;
  policy = policy;
  payload = 0;
  internal_port = 8080;
  limits = limits;
  health_check = record { path = "/health"; timeout_seconds = 5 };
}

abbrev pub busy : ServiceUsage
busy = record {
  avg_cpu_pct = 90;
  avg_mem_pct = 10;
  max_mem_pct = 20;
  replica_count = 1;
  live_readings = 1;
}

abbrev pub host : Host env
host = record {
  usage = λ name replicas limits w. (busy, w);
  list_running = λ w. (
    record {
      service_id = 7;
      service_name = "web";
      deployment_id = 2;
      socket_path = 55;
      replica_index = 0;
    }
        ∷ record {
          service_id = 9;
          service_name = "old";
          deployment_id = 1;
          socket_path = 56;
          replica_index = 0;
        }
        ∷ [],
    w,
  );
  get_desired = λ k w. lookup k w.desired;
  set_desired = λ k n w. record w { desired = insert k n w.desired };
  append_log = λ k text w. w;
}

abbrev pub laws : Monotone env
laws = record {
  last_id = λ w. w.last;
  now_v7_grows = λ w. omega arith;
  now_v7_last = λ w. refl;
  start_keeps = λ r w. le_refl _;
  stop_keeps = λ i w. le_refl _;
  check_keeps = λ p h w. le_refl _;
  sleep_keeps = λ n w. le_refl _;
}

pub quiet : Quiet env host laws
quiet = record {
  usage_keeps = λ n rs l w. le_refl _;
  set_desired_keeps = λ k n w. le_refl _;
  append_log_keeps = λ k text w. le_refl _;
  list_running_keeps = λ w. le_refl _;
  read_back = λ k n w. rw (lookup-insert k k n w.desired, beq_refl k) refl;
  log_apart = λ k j text w. refl;
}

-- The limits of every service.
abbrev pub lim : ℕ → ResourceLimits
lim k = limits
