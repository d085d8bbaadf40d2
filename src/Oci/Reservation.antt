-- ===== src/Oci/Reservation.antt =====
-- A reserved blob outlives every sweep.
use denia.Prelude.{
  ℕ, zero, suc, ◌+◌, ◌-◌, ◌≤◌, ◌<◌, ◌≡◌, refl, ◌∙◌, inl, inr, Bool, true, false, not, ◌&&◌, List,
  [], ◌∷◌, ◌==◌, if◌then◌else◌, Option, none, some, Map, lookup, get_or, Distinct, Bool-cases,
  Option-cases, arith, get_or-insert, get_or-remove,
}
use denia.Ingress.Routes.{Text, text_eq, text_eq_iff, text_key}
use denia.Oci.{
  Faults, entry_of, contains, is_old, Blob, LayerCache, digest_of, reservation_count, reserve,
  release, counted_down, sweep_once,
}
use denia.Oci.Sweep.{is_removed, left_of, sweep_once-Sweeps, sweep_once-Distinct}

-- What pulls and the collector do: guards are taken and dropped, and sweeps run.
pub data Event : Type 0 where
  taken dropped : Text → Event
  swept : Faults → List Text → ℕ → ℕ → Event

unfoldable pub happen : Event → LayerCache → LayerCache
unfolding reserve release sweep_once
happen (taken digest) cache = reserve digest cache
happen (dropped digest) cache = release digest cache
happen (swept faults deployed retention now) cache =
    (sweep_once faults deployed retention now cache).0

unfoldable pub happen_all : List Event → LayerCache → LayerCache
unfolding happen
happen_all [] cache = cache
happen_all (event ∷ events) cache = happen_all events (happen event cache)

-- How often the guards of a digest are dropped.
unfoldable pub drops : Text → List Event → ℕ
drops digest [] = 0
drops digest (dropped d ∷ events) =
    let rest = drops digest events in if text_eq d digest then rest + 1 else rest
drops digest (taken d ∷ events) = drops digest events
drops digest (swept faults deployed retention now ∷ events) = drops digest events

count-reserve :
    (d digest : Text) (cache : LayerCache)
    → reservation_count digest (reserve d cache)
      ≡ (if text_eq d digest then reservation_count d cache + 1 else reservation_count digest cache)
unfolding reservation_count reserve
count-reserve d digest cache =
    get_or-insert 0 d digest (get_or 0 d cache.reservations + 1) cache.reservations

count-counted_down :
    (d digest : Text) (count : ℕ) (reservations : Map Text ℕ)
    → get_or 0 digest (counted_down d count reservations)
      ≡ (if text_eq d digest then count - 1 else get_or 0 digest reservations)
count-counted_down d digest count reservations = elim (Bool-cases (count - 1 == 0)) [
  | inl e ↦ rw e (get_or-remove 0 d digest reservations ∙ (ground arith))
  | inr e ↦ rw e (get_or-insert 0 d digest (count - 1) reservations)
]

get_or-some : (k : Text) (v : ℕ) (m : Map Text ℕ) → lookup k m ≡ some v → get_or 0 k m ≡ v
unfolding get_or
get_or-some k v m e = rw (e, get_or) refl

-- A drop lowers the count of its digest by one at most, and no other.
count-release :
    (d digest : Text) (cache : LayerCache)
    → reservation_count digest cache
      ≤ reservation_count digest (release d cache) + (if text_eq d digest then 1 else 0)
unfolding reservation_count release
count-release d digest cache = elim (Option-cases (lookup d cache.reservations)) [
  | inl e ↦ rw (e, release) (ground arith)
  | inr (count, e) ↦
      rw (e, release)
        (rw (count-counted_down d digest count cache.reservations)
          (ground (arith, get_or-some d count cache.reservations e, text_eq_iff d digest)))
]

happen-Kept :
    (event : Event) (cache : LayerCache) (n : Text)
    → Distinct cache.blobs
    → 0 < reservation_count (digest_of n) cache
    → (lookup n (happen event cache).blobs ≡ lookup n cache.blobs)
      × Distinct (happen event cache).blobs
unfolding happen
happen-Kept (taken d) cache n distinct held = unfold reserve in (refl, distinct)
happen-Kept (dropped d) cache n distinct held = released (lookup d cache.reservations) refl
  where
    released :
        (o : Option ℕ)
        → lookup d cache.reservations ≡ o
        → (lookup n (release d cache).blobs ≡ lookup n cache.blobs)
          × Distinct (release d cache).blobs
    released none e = rw (e, release) (refl, distinct)
    released (some count) e = rw (e, release) (refl, distinct)
happen-Kept (swept faults deployed retention now) cache n distinct held = (
  sweep_once-Sweeps faults deployed retention now cache distinct n ∙ spared (lookup n cache.blobs),
  (sweep_once-Distinct faults deployed retention now cache distinct).0,
)
  where
    uncondemned :
        (used : Bool) (count : ℕ) (old can : Bool)
        → 0 < count
        → ((not used && ((count == 0) && old)) && can) ≡ false
    uncondemned used zero old can h = absurd (omega arith)
    uncondemned true (suc count) old can h = refl
    uncondemned false (suc count) old can h = ground arith

    spared :
        (o : Option Blob)
        → left_of
            (λ blob.
              is_removed faults deployed
                (now - retention)
                cache.reservations
                (entry_of cache n blob))
            o
          ≡ o
    spared none = refl
    spared (some blob) =
        rw
          (uncondemned (contains deployed (digest_of n)) (reservation_count (digest_of n) cache)
            (is_old faults (now - retention) (entry_of cache n blob))
            (not (faults.unreadable n) && not (faults.stays n)) held)
          refl

happen-count :
    (event : Event) (cache : LayerCache) (digest : Text)
    → Distinct cache.blobs
    → reservation_count digest cache
      ≤ reservation_count digest (happen event cache) + drops digest (event ∷ [])
unfolding happen drops
happen-count (taken d) cache digest distinct =
    ground (arith, count-reserve d digest cache, text_eq_iff d digest)
happen-count (dropped d) cache digest distinct = ground (arith, count-release d digest cache)
happen-count (swept faults deployed retention now) cache digest distinct =
    unfold reservation_count in
    (rw (sweep_once-Distinct faults deployed retention now cache distinct).1 (omega arith))

drops-cons :
    (digest : Text) (event : Event) (events : List Event)
    → drops digest (event ∷ events) ≡ drops digest (event ∷ []) + drops digest events
unfolding drops
drops-cons digest (taken d) events = omega arith
drops-cons digest (dropped d) events = ground arith
drops-cons digest (swept faults deployed retention now) events = omega arith

-- While fewer guards of a blob's digest are dropped than are held at the start, no sequence of
-- guards taken and dropped, and of sweeps, each with any deployed digests, retention, time and failing
-- file operations,
-- deletes the blob or changes it. File names are distinct.
pub happen_all-Kept :
    (events : List Event) (cache : LayerCache) (n : Text)
    → Distinct cache.blobs
    → drops (digest_of n) events < reservation_count (digest_of n) cache
    → lookup n (happen_all events cache).blobs ≡ lookup n cache.blobs
unfolding happen_all
happen_all-Kept [] cache n distinct held = refl
happen_all-Kept (event ∷ events) cache n distinct held =
    let (same, distinct') = happen-Kept event cache n distinct (omega arith) in
    happen_all-Kept events (happen event cache) n distinct' (
      omega (
        arith,
        happen-count event cache (digest_of n) distinct,
        drops-cons (digest_of n) event events,
      ))
    ∙ same
