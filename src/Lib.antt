-- ===== src/Lib.antt =====
-- Verification library of Denia, a single-host platform that deploys, scales and routes services.
--
-- The parts and how they interact. The autoscaler (src/autoscale) keeps a registry of replicas
-- and a ledger of reserved CPU and memory; its controller launches and drains replicas through
-- the runtime and mirrors them in the ingress. The ingress (src/ingress) resolves a host to a
-- route and a route's service to the socket of a healthy replica, and hands out layer-4 ports.
-- The scheduler (src/scheduler.rs) makes runs of jobs and the executor ends them. The deploy
-- coordinator (src/deploy) drives a deployment from its pending row to a healthy, promoted one:
-- it writes the rows, starts the replica through the runtime, registers it in the ingress and
-- rebuilds the route table from a snapshot. Image layers come from a cache (src/oci/cache) whose
-- collector spares what a pull has reserved; the hosted registry (src/registry) has a collector
-- of its own. The rate limiter (src/rate_limit.rs) guards the login and the administration.
--
-- The files.
-- Prelude and its children have native numbers with their Boolean tests, lists, results, BTreeMap
--   as a sorted association list, sums over a map.
-- Autoscale.Policy has AutoscalePolicy and ResourceLimits of src/domain/service.rs.
-- Autoscale.Scaler has the formulas and the cooldown of src/autoscale/scaler.rs. Bounds and
--   Cooldown are about them.
-- Autoscale.Ledger has ResourceLedger of src/autoscale/ledger.rs. Capacity is about the budget.
-- Autoscale.Registry has ReplicaRegistry of src/autoscale/registry.rs. Views gives its lists
--   after each operation, Sums the weights of its replicas.
-- Autoscale.Lifecycle has launch_replica and drain_replica of src/autoscale/lifecycle.rs. Mirror,
--   Kept and Fresh relate the registry to the pools, Books adds the ledger, Drain is about
--   drains.
-- Autoscale.Usage has cpu_pct and aggregate of src/autoscale/usage.rs.
-- Autoscale.Controller has AutoscaleController of src/autoscale/controller.rs: Scaling has its
--   two loops and drain_all_replicas, Tick the control loop, Boot the other operations, History
--   their sequences.
-- Ingress.Pool has ServicePool and the pool methods of IngressState in
--   src/ingress/pingora/state.rs.
-- Ingress.Routes has validate_domain, RouteTable and CertStore of the same file.
-- Ingress.Activation has resolve_or_activate and the record of failures of the same file.
-- Ingress.Ports has PortAllocator of src/ingress/l4.rs.
-- RateLimit has BucketLimiter of src/rate_limit.rs.
-- Jobs has the rows of src/repo/sqlite/jobs.rs, Scheduler::tick and JobExecutor of
--   src/scheduler.rs. Counts and Forbid are about the tick, Retries about the executor.
-- Auth has Role, Principal and the guards of src/auth/guards.rs.
-- Deploy.Tables has the rows of src/domain/deployment.rs and what the statements of
--   src/repo/sqlite/deployments.rs do to the tables; Repo has the methods, each of whose
--   statements the database may refuse, and the record of what a deploy calls. Step has the runs
--   that may fail, with their bind. Sources has src/oci/credentials.rs, src/domain/registry.rs
--   and the sources of images, Credentials is about them. Routing has src/deploy/routes.rs and
--   Coordinator src/deploy/coordinator.rs. Live and Promotion are about the statements, Keeping,
--   Finalizing, Rerouting and Runs about the operations on the tables, History about sequences of
--   them, Ends about the end of a deploy, Wiring and Endpoints about the pools, Claims and
--   Stopping about the route table. Catalog has src/autoscale/catalog.rs, Managed is about it.
-- Oci has src/oci/cache/store.rs and src/oci/cache/gc.rs. Sweep, Reservation and Totals are about
--   the sweep.
-- Hosted has the collector of src/registry/gc.rs. Marking compares its mark phase with a single
--   pass, Steps and Sweeping are about the files that it deletes.
-- Verification has validate_hostname of src/verification/validation.rs. Routable compares it with
--   the ingress.
-- Tests has the theorems at concrete inputs.
--
-- How the code is read. Ids, sockets and times are numbers; a machine integer is a number with
-- its wrap or its saturation written out. A `&mut` parameter is passed and returned. The outside
-- (runtime, health check, clock, ids, database, log) is a record of functions over a state of its
-- own, Env and Host of the controller, WakeEnv of the activation, JobEnv of the jobs and Env of
-- the deploy code; the laws that proofs use of it are Monotone (a version 7 UUID is greater than
-- those before it, and nothing else makes ids) and Quiet (a desired count that was written can be
-- read back). A panic is `none`, and an error is `none` or an error value. Loops that count up or
-- down are recursion on the number of rounds left, which the source's condition gives, so no fuel
-- is chosen, but for the mark phase of the hosted registry, whose fuel (rounds) one of its
-- theorems shows to be enough.
--
-- "The books balance" (Books of Autoscale.Lifecycle.Books): the ledger commits exactly the sum of
-- the limits of the replicas in the registry; the ids of replicas are unique and at most the last
-- id that was made; and each pool of the ingress lists exactly the replicas of its service, with
-- their sockets, each healthy where the registry has it so. It is a statement for limits that do
-- not change.
--
-- The deploy code runs one operation after another. A run that fails keeps what it had written
-- before the failure, as the code does, which has no transaction around its statements. A failure
-- of a log line is ignored there and left out. File operations of the cache succeed, but for
-- those of its collector, and the sizes of its files add up to less than 2^64.
--
-- Not modelled: the validation of a registry when it is created, passwords and tokens, the pull
-- and the unpacking of images, the uploads and manifests of the hosted registry, certificate
-- issuance, the proxy and the HTTP API, the runtime and its system calls, the concurrency of
-- requests, and the failures of the database outside the deploy code, the jobs and the collector
-- of the hosted registry.
pub mod Prelude
pub mod Autoscale
pub mod Ingress
pub mod RateLimit
pub mod Jobs
pub mod Auth
pub mod Deploy
pub mod Oci
pub mod Hosted
pub mod Verification
pub mod Tests
