-- ===== src/Autoscale/Ledger/Capacity.antt =====
-- The ledger against its budget, and a release after a reservation.
use denia.Prelude.{
  ◌+◌, ◌≤◌, ◌<◌, ◌≡◌, ◌⊎◌, inl, inr, ap, Option-cases, Option, none, some, arith, u32_max, u64_max,
  List, [], ◌∷◌,
}
use denia.Autoscale.Policy.{ResourceLimits}
use denia.Autoscale.Ledger.{ResourceLedger, HostCapacity, Headroom, new, try_reserve, release}

-- What is committed fits what may be allocated.
pub record WithinBudget (l : ResourceLedger) : Type 0 where
  pub cpu_fits : l.committed_cpu ≤ l.allocatable_cpu
  pub mem_fits : l.committed_mem ≤ l.allocatable_mem

pub new-WithinBudget : (host : HostCapacity) (head : Headroom) → WithinBudget (new host head)
unfolding new
new-WithinBudget host head = ground arith

-- The machine's ranges leave room above the budget, so that no sum saturates.
pub record HasRoom (l : ResourceLedger) : Type 0 where
  pub cpu_room : l.allocatable_cpu < u32_max
  pub mem_room : l.allocatable_mem < u64_max

-- A reservation that is granted has the room, adds the limits to what is committed, and changes
-- nothing else.
pub try_reserve_exact :
    (l m : ResourceLedger) (limits : ResourceLimits)
    → HasRoom l
    → try_reserve l limits ≡ some m
    → (l.committed_cpu + limits.cpu_millis ≤ l.allocatable_cpu)
      × (l.committed_mem + limits.memory_bytes ≤ l.allocatable_mem)
      × (m ≡ record l {
        committed_cpu = l.committed_cpu + limits.cpu_millis;
        committed_mem = l.committed_mem + limits.memory_bytes;
      })
unfolding try_reserve
try_reserve_exact l m limits r h = (ground arith, ground arith, ground arith)

-- A reservation that is denied lacks the room.
try_reserve_denied :
    (l : ResourceLedger) (limits : ResourceLimits)
    → HasRoom l
    → try_reserve l limits ≡ none
    → (l.allocatable_cpu < l.committed_cpu + limits.cpu_millis)
      ⊎ (l.allocatable_mem < l.committed_mem + limits.memory_bytes)
unfolding try_reserve
try_reserve_denied l limits r h = ground arith

-- A release undoes the reservation before it.
pub release-try_reserve :
    (l m : ResourceLedger) (limits : ResourceLimits)
    → HasRoom l
    → try_reserve l limits ≡ some m
    → release m limits ≡ l
unfolding try_reserve release
release-try_reserve l m limits r h = ground arith

-- What a reservation answers: granted, with the ledger that a release takes back; or denied.
pub Answers : ResourceLedger → ResourceLimits → Option ResourceLedger → Type 0
Answers l limits (some m) =
    (l.committed_cpu + limits.cpu_millis ≤ l.allocatable_cpu)
    × (l.committed_mem + limits.memory_bytes ≤ l.allocatable_mem)
    × (m.committed_cpu ≡ l.committed_cpu + limits.cpu_millis)
    × (m.committed_mem ≡ l.committed_mem + limits.memory_bytes)
    × (release m limits ≡ l)
Answers l limits none =
    (l.allocatable_cpu < l.committed_cpu + limits.cpu_millis)
    ⊎ (l.allocatable_mem < l.committed_mem + limits.memory_bytes)

-- On a ledger whose budgets are below the largest 32-bit and 64-bit numbers, a reservation is
-- granted exactly when both budgets have the room for the limits; it then adds them to what is
-- committed, and releasing them gives back the ledger as it was.
pub try_reserve-Answers :
    (l : ResourceLedger) (limits : ResourceLimits)
    → HasRoom l
    → Answers l limits (try_reserve l limits)
unfolding Answers
try_reserve-Answers l limits r = elim (Option-cases (try_reserve l limits)) [
  | inl e ↦ rw e (try_reserve_denied l limits r e)
  | inr (m, e) ↦
      let (cpu, mem, x) = try_reserve_exact l m limits r e in
      rw e (
        cpu,
        mem,
        ap (λ (u : ResourceLedger). u.committed_cpu) x,
        ap (λ (u : ResourceLedger). u.committed_mem) x,
        release-try_reserve l m limits r e,
      )
]

-- A call on the ledger.
pub data Call : Type 0 where
  reserve free : ResourceLimits → Call

pub perform : ResourceLedger → Call → ResourceLedger
perform l (reserve limits) = elim (try_reserve l limits) [ none ↦ l | some m ↦ m ]
perform l (free limits) = release l limits

perform-WithinBudget : (l : ResourceLedger) (c : Call) → WithinBudget l → WithinBudget (perform l c)
unfolding perform try_reserve release
perform-WithinBudget l (reserve limits) h = ground arith
perform-WithinBudget l (free limits) h = ground arith

pub perform_all : ResourceLedger → List Call → ResourceLedger
perform_all l [] = l
perform_all l (c ∷ cs) = perform_all (perform l c) cs

perform_all-keeps :
    (l : ResourceLedger) (cs : List Call) → WithinBudget l → WithinBudget (perform_all l cs)
unfolding perform_all
perform_all-keeps l [] h = h
perform_all-keeps l (c ∷ cs) h = perform_all-keeps (perform l c) cs (perform-WithinBudget l c h)

-- However the host's capacity, the headroom and the sequence of reservations and releases are
-- chosen, the ledger never commits more CPU or memory than it may allocate.
pub perform_all-WithinBudget :
    (host : HostCapacity) (head : Headroom) (cs : List Call)
    → WithinBudget (perform_all (new host head) cs)
perform_all-WithinBudget host head cs =
    perform_all-keeps (new host head) cs (new-WithinBudget host head)
