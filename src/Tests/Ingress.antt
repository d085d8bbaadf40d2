-- ===== src/Tests/Ingress.antt =====
-- Tests of the pools, the ports, the routes and activation.
use denia.Prelude.{
  ℕ, ◌+◌, ◌%◌, ◌<◌, ◌≡◌, ◌↔◌, refl, true, false, none, some, [], ◌∷◌, get_elem?, ok, Distinct,
  lookup, insert, insert_new, err, Outcome, arith,
}
use denia.Ingress.Pool.{next_socket}
use denia.Ingress.Pool.{scan, ServicePool, pool_healthy_count, healthy_path, pool_next_socket}
use denia.Ingress.Pool.Scan.{next_socket_none, next_socket_sound}
use denia.Ingress.Pool.Rotation.{Picked, next_socket_fair}
use denia.Ingress.Activation.{ActivationError, failed, Waking, WakeEnv, resolve_or_activate}
use denia.Ingress.Activation.Backoff.{Refused, failure_backs_off}
use denia.Ingress.Ports.{PortAllocator, allocate}
use denia.Ingress.Ports.Allocation.{Allocates, allocate_lowest, Restores, release-allocate}
use denia.Ingress.Routes.{
  Text, RouteSpec, RouteTable, validate_domain, to_ascii_lowercase, try_upsert, resolve, remove,
  text_key,
}
use denia.Ingress.Routes.Domains.{validate_domain_stable}
use denia.Ingress.Routes.Table.{Upserts, try_upsert_resolves, unless_key, remove_resolves}

abbrev pool : ServicePool
pool = record {
  endpoints =
      record { replica_id = 1; socket_path = 11; healthy = true }
      ∷ record { replica_id = 2; socket_path = 12; healthy = false }
      ∷ record { replica_id = 3; socket_path = 13; healthy = true }
      ∷ [];
  cursor = 1;
  last_activity = 0;
}

next_socket_none_example : ((pool_next_socket pool).1 ≡ none) ↔ (pool_healthy_count pool ≡ 0)
next_socket_none_example = next_socket_none pool

next_socket_sound_example :
    (i : ℕ) × (healthy_path (get_elem? pool.endpoints i) ≡ some 13)
    × ((pool_next_socket pool).0 ≡ record pool { cursor = (i + 1) % 3 })
unfolding pool_next_socket scan
next_socket_sound_example = next_socket_sound pool 13 refl

next_socket_fair_example : (n : ℕ) × (n < 3) × Picked pool n 0 11
next_socket_fair_example =
    next_socket_fair pool 0 (record { replica_id = 1; socket_path = 11; healthy = true }) refl refl

abbrev ports : PortAllocator
ports = record { range = record { start = 20000; end = 20002 }; occupied = 20000 ∷ [] }

allocate_lowest_example : Allocates ports (allocate ports)
allocate_lowest_example = allocate_lowest ports

release-allocate_example : Restores ports (allocate ports)
release-allocate_example = release-allocate ports

-- "A.b".
abbrev domain : Text
domain = 65 ∷ 46 ∷ 98 ∷ []

abbrev lowered : Text
lowered = 97 ∷ 46 ∷ 98 ∷ []

validate_domain_stable_example :
    (validate_domain lowered ≡ ok lowered) × (to_ascii_lowercase lowered ≡ lowered)
unfolding validate_domain
validate_domain_stable_example = validate_domain_stable domain lowered refl

abbrev route : RouteSpec
route = record {
  route_key = 49 ∷ [];
  service_name = 119 ∷ [];
  service_id = 49 ∷ [];
  domains = domain ∷ [];
  tls = true;
}

try_upsert_resolves_example : Upserts route [] (try_upsert route [])
try_upsert_resolves_example = try_upsert_resolves route []

abbrev routes : RouteTable
routes = (lowered, route) ∷ []

remove_resolves_example :
    ((q : Text) → resolve q (remove (49 ∷ []) routes) ≡ unless_key (49 ∷ []) (resolve q routes))
    × Distinct (remove (49 ∷ []) routes)
unfolding lookup
remove_resolves_example = remove_resolves (49 ∷ []) routes (refl, tt)

-- Surroundings whose hook fails; the clock is the state.
abbrev broken : ℕ → Waking ℕ → Outcome (Unit {0}) ActivationError × Waking ℕ
broken service s = (err (failed "insufficient_capacity"), s)

abbrev wake_env : WakeEnv
wake_env = record {
  World = ℕ;
  tokio_now = λ w. w;
  std_now = λ w. w;
  activator = some broken;
  wait_gate = λ service s. s;
  pause = λ n s. record s { world = s.world + n };
  cut_short = λ service s. none;
}

abbrev asleep : Waking ℕ
asleep = record { pools = []; backoffs = []; world = 1000 }

abbrev noted : Waking ℕ
noted = record { pools = []; backoffs = (7, 31000) ∷ []; world = 1000 }

failure_backs_off_example :
    Refused wake_env
      (record noted { world = 20000 })
      (resolve_or_activate wake_env 7 (record noted { world = 20000 }))
unfolding resolve_or_activate next_socket lookup insert insert_new
failure_backs_off_example =
    failure_backs_off wake_env 7 asleep noted (record noted { world = 20000 })
      (failed "insufficient_capacity") broken refl (λ e. cc) refl refl (omega arith) refl
