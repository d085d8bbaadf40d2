-- ===== src/Ingress/Ports/Allocation.antt =====
-- Which port an allocation gives, and when there is none.
use denia.Prelude.{
  ℕ, zero, suc, inl, inr, ◌+◌, ◌-◌, ◌≤◌, ◌<◌, ◌≡◌, refl, ap, true, false, not, none, some, List, [],
  ◌∷◌, arith, ◌==◌, ==_iff, if◌then◌else◌, retain, Outcome, ok, err, Bool-cases, Option-cases,
}
use denia.Ingress.Ports.{
  PortRange, PortRangeError, exhausted, PortAllocator, contains, is_in, first_free, allocate,
  release,
}

-- The first port from `port` on that is free.
pub record FirstFree (port top : ℕ) (occupied : List ℕ) (p : ℕ) : Type 0 where
  pub from : port ≤ p
  pub to : p < top
  pub free : is_in p occupied ≡ false
  pub least : (q : ℕ) → port ≤ q → q < p → is_in q occupied ≡ true

first_free-some :
    (left port : ℕ) (occupied : List ℕ) (p : ℕ)
    → first_free left port occupied ≡ some p
    → FirstFree port (port + left) occupied p
unfolding first_free
first_free-some zero port occupied p h = cc
first_free-some (suc left) port occupied p h = elim (Bool-cases (is_in port occupied)) [
  | inl busy ↦
      let r = first_free-some left (port + 1) occupied p (ground arith) in
      record {
        from = omega (arith, r.from);
        to = omega (arith, r.to);
        free = r.free;
        least = λ q from below. elim (Bool-cases (q == port)) [
          | inl same ↦ rw ((==_iff q port).0 same) busy
          | inr apart ↦ r.least q (ground arith) below
        ];
      }
  | inr idle ↦
      let e : p ≡ port = ground arith in
      record {
        from = omega arith;
        to = omega arith;
        free = rw e idle;
        least = λ q from below. absurd (omega arith);
      }
]

first_free-none :
    (left port : ℕ) (occupied : List ℕ) (q : ℕ)
    → first_free left port occupied ≡ none
    → port ≤ q
    → q < port + left
    → is_in q occupied ≡ true
unfolding first_free
first_free-none zero port occupied q h from below = absurd (omega arith)
first_free-none (suc left) port occupied q h from below = elim (Bool-cases (is_in port occupied)) [
  | inl busy ↦ elim (Bool-cases (q == port)) [
    | inl same ↦ rw ((==_iff q port).0 same) busy
    | inr apart ↦
        first_free-none left (port + 1) occupied q (ground arith) (ground arith) (omega arith)
  ]
  | inr idle ↦ absurd (ground arith)
]

-- What `allocate` answers, over the ports of the range that were occupied before.
pub Allocates : PortAllocator → Outcome ℕ PortRangeError × PortAllocator → Type 0
Allocates a (ok p, b) =
    FirstFree a.range.start (a.range.end + 1) a.occupied p
    × ((q : ℕ) → is_in q b.occupied ≡ (if q == p then true else is_in q a.occupied))
    × (b.range ≡ a.range)
Allocates a (err e, b) =
    (e ≡ exhausted a.range.start a.range.end)
    × ((q : ℕ) → a.range.start ≤ q → q ≤ a.range.end → is_in q a.occupied ≡ true)
    × (b ≡ a)

-- An allocation gives the lowest port of the range that is not occupied, and occupies it and no
-- other; it fails only when every port of the range is occupied, and then changes nothing.
pub allocate_lowest : (a : PortAllocator) → Allocates a (allocate a)
unfolding allocate Allocates
allocate_lowest a =
    elim (Option-cases (first_free (a.range.end + 1 - a.range.start) a.range.start a.occupied)) [
      | inl e ↦ rw e (
        refl,
        λ q from to.
            first_free-none (a.range.end + 1 - a.range.start) a.range.start a.occupied q e from
              (omega arith),
        refl,
      )
      | inr (p, e) ↦
          let f = first_free-some (a.range.end + 1 - a.range.start) a.range.start a.occupied p e in
          rw e (
            record {
              from = f.from;
              to = omega (arith, f.to, f.from);
              free = f.free;
              least = f.least;
            },
            λ q. ground arith,
            refl,
          )
    ]

is_in-retain :
    (port q : ℕ) (ports : List ℕ)
    → is_in q (retain (λ r. not (r == port)) ports) ≡ (if q == port then false else is_in q ports)
is_in-retain port q [] = ground arith
is_in-retain port q (r ∷ ports) = ground (arith, is_in-retain port q ports)

-- A release frees the port where it is in the range, and else nothing.
release_frees :
    (port q : ℕ) (a : PortAllocator)
    → is_in q (release port a).occupied ≡ (
        if contains a.range port
        then (if q == port then false else is_in q a.occupied)
        else is_in q a.occupied)
unfolding release
release_frees port q a = elim (Bool-cases (contains a.range port)) [
  | inl within ↦ rw within (is_in-retain port q a.occupied)
  | inr outside ↦ rw outside refl
]

-- What a release after an allocation leaves: the ports that were occupied before.
pub Restores : PortAllocator → Outcome ℕ PortRangeError × PortAllocator → Type 0
Restores a (ok p, b) = (q : ℕ) → is_in q (release p b).occupied ≡ is_in q a.occupied
Restores a (err e, b) = b ≡ a

Allocates-Restores :
    (a : PortAllocator) (r : Outcome ℕ PortRangeError × PortAllocator)
    → Allocates a r
    → Restores a r
unfolding Allocates Restores contains
Allocates-Restores a (ok p, b) (f, marks, same) = λ q.
    let e = ap (λ (r : PortRange). r.start) same in
    let e' = ap (λ (r : PortRange). r.end) same in
    ground (arith, release_frees p q b, marks q, f.from, f.to, f.free, ==_iff q p)
Allocates-Restores a (err e, b) (x, full, same) = same

-- Releasing the port that an allocation gave occupies exactly the ports that were occupied before.
pub release-allocate : (a : PortAllocator) → Restores a (allocate a)
release-allocate a = Allocates-Restores a (allocate a) (allocate_lowest a)
