-- ===== src/Ingress/Ports.antt =====
-- src/ingress/l4.rs: the allocator of layer-4 host ports.
pub mod Allocation
use denia.Prelude.{
  ℕ, zero, suc, ◌+◌, ◌-◌, Bool, true, false, ◌||◌, ◌&&◌, List, [], ◌∷◌, leb, ltb, ◌==◌,
  if◌then◌else◌, any, retain, not, Option, none, some, Outcome, ok, err,
}

pub record PortRange : Type 0 where
  pub start : ℕ
  pub end : ℕ

-- `Invalid` with its text, the range.
pub data PortRangeError : Type 0 where
  invalid exhausted : ℕ → ℕ → PortRangeError

unfoldable pub validate : PortRange → Option PortRangeError
validate r =
    if r.start == 0 || (r.end == 0 || ltb r.end r.start) then some (invalid r.start r.end) else none

unfoldable pub contains : PortRange → ℕ → Bool
contains r port = leb r.start port && leb port r.end

-- The set of occupied ports is a list without repetition: its order is never read.
pub record PortAllocator : Type 0 where
  pub range : PortRange
  pub occupied : List ℕ

abbrev pub is_in : ℕ → List ℕ → Bool
is_in port = any (λ q. q == port)

-- `BTreeSet::insert`, without its answer.
unfoldable pub set_insert : ℕ → List ℕ → List ℕ
set_insert port occupied = if is_in port occupied then occupied else port ∷ occupied

-- `collect` into the set.
unfoldable pub collect : List ℕ → List ℕ
unfolding set_insert
collect [] = []
collect (port ∷ ports) = set_insert port (collect ports)

unfoldable pub new : PortRange → List ℕ → PortAllocator
unfolding collect
new range occupied = record { range = range; occupied = collect occupied }

-- The `for` over `start..=end`, with `left` ports from `port` on.
unfoldable pub first_free : ℕ → ℕ → List ℕ → Option ℕ
first_free zero port occupied = none
first_free (suc left) port occupied =
    let rest = first_free left (port + 1) occupied in
    if is_in port occupied then rest else some port

-- What the `insert` that ends the loop leaves.
abbrev pub taken : PortAllocator → Option ℕ → Outcome ℕ PortRangeError × PortAllocator
taken a none = (err (exhausted a.range.start a.range.end), a)
taken a (some port) = (ok port, record a { occupied = port ∷ a.occupied })

unfoldable pub allocate : PortAllocator → Outcome ℕ PortRangeError × PortAllocator
unfolding first_free
allocate a = taken a (first_free (a.range.end + 1 - a.range.start) a.range.start a.occupied)

unfoldable pub release : ℕ → PortAllocator → PortAllocator
unfolding contains
release port a =
    if contains a.range port
    then record a { occupied = retain (λ q. not (q == port)) a.occupied }
    else a
