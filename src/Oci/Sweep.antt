-- ===== src/Oci/Sweep.antt =====
-- Which blobs a sweep deletes.
use denia.Prelude.{
  ℕ, zero, suc, ◌-◌, ◌≡◌, refl, ◌∙◌, inl, inr, Bool, true, false, not, ◌&&◌, ◌||◌, List, [], ◌∷◌,
  map, ltb, ◌==◌, if◌then◌else◌, any, Option, none, some, Map, lookup, remove, get_or,
  lookup-remove, Distinct, remove-Distinct, Bool-cases, arith,
}
use denia.Ingress.Routes.{Text, text_eq, text_eq_iff, text_key}
use denia.Oci.{
  Faults, Blob, LayerCache, reservation_count, blob_name, without_sidecar, BlobListEntry, entry_of,
  list_blobs, GcReport, empty_report, contains, is_old, sweep_blob, sweep_blobs, sweep_once,
}

-- A blob that no deployment uses and no pull holds, and that was last referenced before the cutoff.
abbrev pub is_condemned : Faults → List Text → ℕ → Map Text ℕ → BlobListEntry → Bool
is_condemned faults deployed cutoff reservations entry =
    not (contains deployed entry.digest)
    && ((get_or 0 entry.digest reservations == 0) && is_old faults cutoff entry)

-- One that can also be removed.
abbrev pub is_removed : Faults → List Text → ℕ → Map Text ℕ → BlobListEntry → Bool
is_removed faults deployed cutoff reservations entry =
    is_condemned faults deployed cutoff reservations entry
    && (not (faults.unreadable entry.name) && not (faults.stays entry.name))

-- What a step of the sweep leaves of the files.
abbrev pub swept_blobs : Faults → List Text → ℕ → BlobListEntry → LayerCache → Map Text Blob
swept_blobs faults deployed cutoff entry cache =
    if is_removed faults deployed cutoff cache.reservations entry
    then remove entry.name cache.blobs
    else cache.blobs

-- A cache with these files and the reservations of another.
abbrev pub Leaves : LayerCache → Map Text Blob → LayerCache → Type 0
Leaves cache blobs cache' = (cache'.blobs ≡ blobs) × (cache'.reservations ≡ cache.reservations)

abbrev cache_of : LayerCache × GcReport → LayerCache
cache_of r = r.0

pub sweep_blob-Leaves :
    (faults : Faults) (deployed : List Text) (cutoff : ℕ) (entry : BlobListEntry)
    (cache : LayerCache) (report : GcReport)
    → Leaves cache
        (swept_blobs faults deployed cutoff entry cache)
        (sweep_blob faults deployed cutoff entry (cache, report)).0
unfolding sweep_blob reservation_count
sweep_blob-Leaves faults deployed cutoff entry cache report =
    go (contains deployed entry.digest) (get_or 0 entry.digest cache.reservations)
      (is_old faults cutoff entry) (faults.unreadable entry.name) (faults.stays entry.name)
      (faults.sidecar_stays entry.name) _ _ _ _ _
  where
    deleting : Bool → Bool → LayerCache
    deleting stays sidecar_stays = record cache {
      blobs = if stays then cache.blobs else remove entry.name cache.blobs;
      lastrefs =
          if sidecar_stays
          then cache.lastrefs
          else without_sidecar (blob_name entry.digest) cache.lastrefs;
    }

    go :
        (used : Bool) (count : ℕ) (old unreadable stays sidecar_stays : Bool) (a b c d e : GcReport)
        → Leaves cache
            (if (not used && ((count == 0) && old)) && (not unreadable && not stays)
              then remove entry.name cache.blobs
              else cache.blobs)
            (cache_of (
              if used
              then (cache, a)
              else if ltb 0 count
              then (cache, b)
              else if not old
              then (cache, c)
              else if unreadable
              then (cache, d)
              else (deleting stays sidecar_stays, e)))
    go true count old unreadable stays sidecar_stays a b c d e = (refl, refl)
    go false zero true true stays sidecar_stays a b c d e = (refl, refl)
    go false zero true false true sidecar_stays a b c d e = (refl, refl)
    go false zero true false false sidecar_stays a b c d e = (refl, refl)
    go false zero false unreadable stays sidecar_stays a b c d e = (refl, refl)
    go false (suc count) old unreadable stays sidecar_stays a b c d e = ground arith

lookup-swept :
    (faults : Faults) (deployed : List Text) (cutoff : ℕ) (entry : BlobListEntry)
    (cache : LayerCache) (n : Text)
    → lookup n (swept_blobs faults deployed cutoff entry cache) ≡ (
        if is_removed faults deployed cutoff cache.reservations entry && text_eq entry.name n
        then none
        else lookup n cache.blobs)
lookup-swept faults deployed cutoff entry cache n =
    go (is_removed faults deployed cutoff cache.reservations entry) (text_eq entry.name n)
      (lookup-remove entry.name n cache.blobs)
  where
    go :
        (b same : Bool)
        → lookup n (remove entry.name cache.blobs) ≡ (if same then none else lookup n cache.blobs)
        → lookup n (if b then remove entry.name cache.blobs else cache.blobs)
          ≡ (if b && same then none else lookup n cache.blobs)
    go true true e = e
    go true false e = e
    go false same e = refl

-- Whether the name is that of an entry that goes.
abbrev hits : Faults → List Text → ℕ → Map Text ℕ → Text → List BlobListEntry → Bool
hits faults deployed cutoff reservations n =
    any (λ e. is_removed faults deployed cutoff reservations e && text_eq e.name n)

if_or :
    {A : Type 0} (a b : Bool) (x y : A)
    → (if b then x else if a then x else y) ≡ (if a || b then x else y)
if_or true true x y = refl
if_or true false x y = refl
if_or false true x y = refl
if_or false false x y = refl

lookup-sweep_blobs :
    (faults : Faults) (deployed : List Text) (cutoff : ℕ) (entries : List BlobListEntry)
    (cache : LayerCache) (report : GcReport) (n : Text)
    → lookup n (sweep_blobs faults deployed cutoff entries (cache, report)).0.blobs ≡ (
        if hits faults deployed cutoff cache.reservations n entries
        then none
        else lookup n cache.blobs)
unfolding sweep_blobs
lookup-sweep_blobs faults deployed cutoff [] cache report n = refl
lookup-sweep_blobs faults deployed cutoff (entry ∷ entries) cache report n =
    go (sweep_blob faults deployed cutoff entry (cache, report))
      (sweep_blob-Leaves faults deployed cutoff entry cache report)
      (λ c r. lookup-sweep_blobs faults deployed cutoff entries c r n)
  where
    go :
        (r : LayerCache × GcReport)
        → Leaves cache (swept_blobs faults deployed cutoff entry cache) r.0
        → ((c : LayerCache) (q : GcReport)
            → lookup n (sweep_blobs faults deployed cutoff entries (c, q)).0.blobs ≡ (
                if hits faults deployed cutoff c.reservations n entries
                then none
                else lookup n c.blobs))
        → lookup n (sweep_blobs faults deployed cutoff entries r).0.blobs ≡ (
            if hits faults deployed cutoff cache.reservations n (entry ∷ entries)
            then none
            else lookup n cache.blobs)
    go (c, q) (same, kept) ih =
        ih c q
        ∙ (rw (same, kept)
            (rw (lookup-swept faults deployed cutoff entry cache n) (
              if_or
                (is_removed faults deployed cutoff cache.reservations entry && text_eq entry.name n)
                (hits faults deployed cutoff cache.reservations n entries) none
                (lookup n cache.blobs))))

-- What a sweep leaves of a name.
abbrev pub left_of : (Blob → Bool) → Option Blob → Option Blob
left_of condemned none = none
left_of condemned (some blob) = if condemned blob then none else some blob

and_true : (b : Bool) → ((b && true) || false) ≡ b
and_true true = refl
and_true false = refl

hits-absent :
    (cache : LayerCache) (p : BlobListEntry → Bool) (n : Text) (m : Map Text Blob)
    → lookup n m ≡ none
    → any (λ e. p e && text_eq e.name n) (map (λ (name, blob). entry_of cache name blob) m) ≡ false
unfolding lookup
hits-absent cache p n [] h = refl
hits-absent cache p n ((name, blob) ∷ m) h = elim (Bool-cases (text_eq name n)) [
  | inl e ↦ let c : some blob ≡ none = rw e at h in absurd (ground arith)
  | inr e ↦
      let h' : lookup n m ≡ none = rw e at h in
      rw e (rw (hits-absent cache p n m h') (ground arith))
]

hits-present :
    (cache : LayerCache) (p : BlobListEntry → Bool) (n : Text) (m : Map Text Blob) (found : Blob)
    → Distinct m
    → lookup n m ≡ some found
    → any (λ e. p e && text_eq e.name n) (map (λ (name, blob). entry_of cache name blob) m)
      ≡ p (entry_of cache n found)
unfolding lookup
hits-present cache p n [] found d h = absurd (ground arith)
hits-present cache p n ((name, blob) ∷ m) found (new, d) h = elim (Bool-cases (text_eq name n)) [
  | inl e ↦
      let same : name ≡ n = (text_eq_iff name n).0 e in
      let b : some blob ≡ some found = rw e at h in
      let b' : blob ≡ found = cc in
      rw e (
        rw (hits-absent cache p n m (rw (← same) new))
          (rw (same, b') (and_true (p (entry_of cache n found)))))
  | inr e ↦
      let h' : lookup n m ≡ some found = rw e at h in
      rw e (rw (hits-present cache p n m found d h') (ground arith))
]

swept-Distinct :
    (faults : Faults) (deployed : List Text) (cutoff : ℕ) (entry : BlobListEntry)
    (cache : LayerCache)
    → Distinct cache.blobs
    → Distinct (swept_blobs faults deployed cutoff entry cache)
swept-Distinct faults deployed cutoff entry cache d =
    go (is_removed faults deployed cutoff cache.reservations entry)
  where
    go : (b : Bool) → Distinct (if b then remove entry.name cache.blobs else cache.blobs)
    go true = remove-Distinct entry.name cache.blobs d
    go false = d

-- A sweep keeps the names distinct and every reservation.
sweep_blobs-Distinct :
    (faults : Faults) (deployed : List Text) (cutoff : ℕ) (entries : List BlobListEntry)
    (cache : LayerCache) (report : GcReport)
    → Distinct cache.blobs
    → Distinct (sweep_blobs faults deployed cutoff entries (cache, report)).0.blobs
      × ((sweep_blobs faults deployed cutoff entries (cache, report)).0.reservations
          ≡ cache.reservations)
unfolding sweep_blobs
sweep_blobs-Distinct faults deployed cutoff [] cache report d = (d, refl)
sweep_blobs-Distinct faults deployed cutoff (entry ∷ entries) cache report d =
    go (sweep_blob faults deployed cutoff entry (cache, report))
      (sweep_blob-Leaves faults deployed cutoff entry cache report)
      (sweep_blobs-Distinct faults deployed cutoff entries)
  where
    go :
        (r : LayerCache × GcReport)
        → Leaves cache (swept_blobs faults deployed cutoff entry cache) r.0
        → ((c : LayerCache) (q : GcReport)
            → Distinct c.blobs
            → Distinct (sweep_blobs faults deployed cutoff entries (c, q)).0.blobs
              × ((sweep_blobs faults deployed cutoff entries (c, q)).0.reservations
                  ≡ c.reservations))
        → Distinct (sweep_blobs faults deployed cutoff entries r).0.blobs
          × ((sweep_blobs faults deployed cutoff entries r).0.reservations ≡ cache.reservations)
    go (c, q) (same, kept) ih =
        let (left, still) =
          ih c q (rw same (swept-Distinct faults deployed cutoff entry cache d)) in
        (left, still ∙ kept)

pub sweep_once-Distinct :
    (faults : Faults) (deployed : List Text) (retention now : ℕ) (cache : LayerCache)
    → Distinct cache.blobs
    → Distinct (sweep_once faults deployed retention now cache).0.blobs
      × ((sweep_once faults deployed retention now cache).0.reservations ≡ cache.reservations)
unfolding sweep_once
sweep_once-Distinct faults deployed retention now cache =
    sweep_blobs-Distinct faults deployed (now - retention) (list_blobs cache) cache empty_report

-- A sweep deletes a blob exactly if its digest is not deployed and not reserved, its sidecar's time,
-- or without a sidecar its own, is before the retention's start, or it has neither, and the file can
-- be read and removed. Every other blob stays as it is. File names are distinct.
pub sweep_once-Sweeps :
    (faults : Faults) (deployed : List Text) (retention now : ℕ) (cache : LayerCache)
    → Distinct cache.blobs
    → (n : Text)
    → lookup n (sweep_once faults deployed retention now cache).0.blobs
      ≡ left_of
          (λ blob.
            is_removed faults deployed (now - retention) cache.reservations (entry_of cache n blob))
          (lookup n cache.blobs)
unfolding sweep_once list_blobs
sweep_once-Sweeps faults deployed retention now cache d n =
    lookup-sweep_blobs faults deployed (now - retention) (list_blobs cache) cache empty_report n
    ∙ go (lookup n cache.blobs) refl
  where
    go :
        (o : Option Blob)
        → lookup n cache.blobs ≡ o
        → (if hits faults deployed (now - retention) cache.reservations n (list_blobs cache)
            then none
            else lookup n cache.blobs)
          ≡ left_of
              (λ blob.
                is_removed faults deployed
                  (now - retention)
                  cache.reservations
                  (entry_of cache n blob))
              o
    go none e =
        rw e (both (hits faults deployed (now - retention) cache.reservations n (list_blobs cache)))
      where
        both : (b : Bool) → ◌≡◌ {A = Option Blob} (if b then none else none) none
        both true = refl
        both false = refl
    go (some blob) e = rw e (
        rw
          (hits-present cache (is_removed faults deployed (now - retention) cache.reservations) n
            cache.blobs blob d e)
          refl)
