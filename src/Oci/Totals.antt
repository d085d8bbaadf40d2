-- ===== src/Oci/Totals.antt =====
-- What the report of a sweep adds up to.
use denia.Prelude.{
  ℕ, zero, suc, ◌≡◌, refl, ◌==◌, ◌&&◌, get_or, ◌+◌, ◌-◌, inl, inr, Bool, true, false, not, List, [],
  ◌∷◌, map, ltb, if◌then◌else◌, none, some, Map, lookup, remove, lookup-remove, Distinct,
  remove-Distinct, tally, tally-remove, length, All, Bool-cases, arith,
}
use denia.Ingress.Routes.{Text, text_eq, text_eq_iff, text_key}
use denia.Oci.{
  Faults, blob_name, lastref_mtime, without_sidecar, Blob, LayerCache, digest_of, reservation_count,
  entry_of, list_blobs, GcReport, empty_report, contains, is_old, sweep_blob, sweep_blobs,
  sweep_once,
}
use denia.Oci.Sweep.{is_condemned}

abbrev pub total_bytes : Map Text Blob → ℕ
total_bytes = tally (λ name blob. blob.len)

abbrev pub entries : Map Text Blob → ℕ
entries = tally (λ name blob. 1)

-- The files that a sweep means to delete and cannot read, and those that it counts as deleted but
-- cannot remove.
abbrev pub is_skipped : Faults → List Text → ℕ → LayerCache → Text → Blob → Bool
is_skipped faults deployed cutoff origin name blob =
    is_condemned faults deployed cutoff origin.reservations (entry_of origin name blob)
    && faults.unreadable name

abbrev pub is_stuck : Faults → List Text → ℕ → LayerCache → Text → Blob → Bool
is_stuck faults deployed cutoff origin name blob =
    is_condemned faults deployed cutoff origin.reservations (entry_of origin name blob)
    && (not (faults.unreadable name) && faults.stays name)

-- What a sweep, or a step of it, adds up to: the number of files that it scans, skips and cannot
-- remove, and the bytes of the last.
pub record Adds (seen skipped stuck stuck_bytes : ℕ) (before after : LayerCache × GcReport)
    : Type 0 where
  pub scanned : after.1.scanned_entries ≡ before.1.scanned_entries + seen
  pub sorted :
      after.1.deleted_entries + after.1.kept_in_use_entries + after.1.kept_recent_entries + skipped
        + before.1.scanned_entries
      ≡ before.1.deleted_entries + before.1.kept_in_use_entries + before.1.kept_recent_entries
        + after.1.scanned_entries
  pub bytes :
      total_bytes after.0.blobs + after.1.deleted_bytes
      ≡ total_bytes before.0.blobs + before.1.deleted_bytes + stuck_bytes
  pub gone :
      entries after.0.blobs + after.1.deleted_entries
      ≡ entries before.0.blobs + before.1.deleted_entries + stuck

-- The sums over the files of a sweep that began with `origin`.
abbrev pub AddsUp :
    Faults
    → List Text
    → ℕ
    → LayerCache
    → Map Text Blob
    → LayerCache × GcReport
    → LayerCache × GcReport
    → Type 0
AddsUp faults deployed cutoff origin m =
    Adds (length m)
      (tally (λ name blob. if is_skipped faults deployed cutoff origin name blob then 1 else 0) m)
      (tally (λ name blob. if is_stuck faults deployed cutoff origin name blob then 1 else 0) m)
      (tally (λ name blob. if is_stuck faults deployed cutoff origin name blob then blob.len else 0)
        m)

-- The files are there as listed.
abbrev Listed : Map Text Blob → LayerCache → Type 0
Listed m cache = All (λ (name, blob). lookup name cache.blobs ≡ some blob) m

Listed-remove :
    (name : Text) (m : Map Text Blob) (blobs : Map Text Blob)
    → lookup name m ≡ none
    → All (λ (n, blob). lookup n blobs ≡ some blob) m
    → All (λ (n, blob). lookup n (remove name blobs) ≡ some blob) m
unfolding lookup
Listed-remove name [] blobs absent h = tt
Listed-remove name ((n, blob) ∷ m) blobs absent (here, h) = elim (Bool-cases (text_eq n name)) [
  | inl e ↦ let c : some blob ≡ none = rw e at absent in absurd (ground arith)
  | inr e ↦
      let absent' : lookup name m ≡ none = rw e at absent in
      (
        ground (arith, lookup-remove name n blobs, text_eq_iff n name, text_eq_iff name n),
        Listed-remove name m blobs absent' h,
      )
]

-- What is asked of a step: it adds up, and keeps the rest listed, the names distinct and the
-- reservations.
abbrev Steps :
    LayerCache → ℕ → ℕ → ℕ → Map Text Blob → LayerCache × GcReport → LayerCache × GcReport → Type 0
Steps origin skipped stuck stuck_bytes m before after =
    Adds 1 skipped stuck stuck_bytes before after
    × Distinct after.0.blobs
    × Listed m after.0
    × (after.0.reservations ≡ origin.reservations)

sweep_blob-Steps :
    (faults : Faults) (deployed : List Text) (cutoff : ℕ) (origin cache : LayerCache)
    (report : GcReport) (name : Text) (blob : Blob) (m : Map Text Blob)
    → lookup name m ≡ none
    → Distinct cache.blobs
    → lookup name cache.blobs ≡ some blob
    → Listed m cache
    → cache.reservations ≡ origin.reservations
    → Steps origin
        (if is_skipped faults deployed cutoff origin name blob then 1 else 0)
        (if is_stuck faults deployed cutoff origin name blob then 1 else 0)
        (if is_stuck faults deployed cutoff origin name blob then blob.len else 0)
        m
        (cache, report)
        (sweep_blob faults deployed cutoff (entry_of origin name blob) (cache, report))
unfolding sweep_blob reservation_count lastref_mtime
sweep_blob-Steps faults deployed cutoff origin cache report name blob m absent distinct here listed
      kept =
    rw (← kept) (
      go (contains deployed (digest_of name)) (get_or 0 (digest_of name) cache.reservations)
        (is_old faults cutoff (entry_of origin name blob)) (faults.unreadable name)
        (faults.stays name) (faults.sidecar_stays name))
  where
    bytes_less : total_bytes (remove name cache.blobs) + blob.len ≡ total_bytes cache.blobs
    bytes_less = rw here at (tally-remove (λ n b. b.len) name cache.blobs distinct)

    one_less : entries (remove name cache.blobs) + 1 ≡ entries cache.blobs
    one_less = rw here at (tally-remove (λ n b. 1) name cache.blobs distinct)

    deleting : Bool → Bool → LayerCache
    deleting stays sidecar_stays = record cache {
      blobs = if stays then cache.blobs else remove name cache.blobs;
      lastrefs =
          if sidecar_stays
          then cache.lastrefs
          else without_sidecar (blob_name (digest_of name)) cache.lastrefs;
    }

    go :
        (used : Bool) (count : ℕ) (old unreadable stays sidecar_stays : Bool)
        → Steps cache
            (if (not used && ((count == 0) && old)) && unreadable then 1 else 0)
            (if (not used && ((count == 0) && old)) && (not unreadable && stays) then 1 else 0)
            (if (not used && ((count == 0) && old)) && (not unreadable && stays)
              then blob.len
              else 0)
            m
            (cache, report)
            (if used
              then (
                cache,
                record report {
                  scanned_entries = report.scanned_entries + 1;
                  kept_in_use_entries = report.kept_in_use_entries + 1;
                },
              )
              else if ltb 0 count
              then (
                cache,
                record report {
                  scanned_entries = report.scanned_entries + 1;
                  kept_in_use_entries = report.kept_in_use_entries + 1;
                },
              )
              else if not old
              then (
                cache,
                record report {
                  scanned_entries = report.scanned_entries + 1;
                  kept_recent_entries = report.kept_recent_entries + 1;
                },
              )
              else if unreadable
              then (cache, record report { scanned_entries = report.scanned_entries + 1 })
              else (
                deleting stays sidecar_stays,
                record report {
                  scanned_entries = report.scanned_entries + 1;
                  deleted_entries = report.deleted_entries + 1;
                  deleted_bytes = report.deleted_bytes + blob.len;
                },
              ))
    go true count old unreadable stays sidecar_stays = (omega arith, distinct, listed, refl)
    go false (suc count) old unreadable stays sidecar_stays =
        let e : ◌≡◌ {A = Bool} (suc count == 0) false = ground arith in
        let f : ltb 0 (suc count) ≡ true = ground arith in
        rw (e, f) (omega arith, distinct, listed, refl)
    go false zero false unreadable stays sidecar_stays = (omega arith, distinct, listed, refl)
    go false zero true true stays sidecar_stays = (omega arith, distinct, listed, refl)
    go false zero true false true sidecar_stays = (omega arith, distinct, listed, refl)
    go false zero true false false sidecar_stays = (
      omega (arith, bytes_less, one_less),
      remove-Distinct name cache.blobs distinct,
      Listed-remove name m cache.blobs absent listed,
      refl,
    )

Adds-then :
    (n i j k i' j' k' : ℕ) (a b c : LayerCache × GcReport)
    → Adds 1 i j k a b
    → Adds n i' j' k' b c
    → Adds (suc n) (i + i') (j + j') (k + k') a c
Adds-then n i j k i' j' k' a b c first rest = omega arith

sweep_blobs-Adds :
    (faults : Faults) (deployed : List Text) (cutoff : ℕ) (origin : LayerCache) (m : Map Text Blob)
    (r : LayerCache × GcReport)
    → Distinct m
    → Distinct r.0.blobs
    → Listed m r.0
    → r.0.reservations ≡ origin.reservations
    → AddsUp faults deployed cutoff origin m r
        (sweep_blobs faults deployed cutoff (map (λ (name, blob). entry_of origin name blob) m) r)
unfolding sweep_blobs
sweep_blobs-Adds faults deployed cutoff origin [] r d distinct listed kept = omega arith
sweep_blobs-Adds faults deployed cutoff origin ((name, blob) ∷ m) (cache, report) (absent, d)
      distinct (here, listed) kept =
    let (step, distinct', listed', kept') =
      sweep_blob-Steps faults deployed cutoff origin cache report name blob m absent distinct here
        listed kept in
    Adds-then (length m) _ _ _ _ _ _ (cache, report) _ _ step
      (sweep_blobs-Adds faults deployed cutoff origin m _ d distinct' listed' kept')

Listed-self : (m : Map Text Blob) → Distinct m → All (λ (name, blob). lookup name m ≡ some blob) m
unfolding lookup
Listed-self [] d = tt
Listed-self ((name, blob) ∷ m) (absent, d) =
    (ground (arith, text_eq_iff name name), later m name blob m absent (Listed-self m d))
  where
    later :
        (n : Map Text Blob) (key : Text) (v : Blob) (whole : Map Text Blob)
        → lookup key n ≡ none
        → All (λ (j, b). lookup j whole ≡ some b) n
        → All (λ (j, b). (if text_eq key j then some v else lookup j whole) ≡ some b) n
    later [] key v whole absent h = tt
    later ((j, b) ∷ n) key v whole absent (here, h) = elim (Bool-cases (text_eq j key)) [
      | inl e ↦ let c : some b ≡ none = rw e at absent in absurd (ground arith)
      | inr e ↦
          let absent' : lookup key n ≡ none = rw e at absent in
          (ground (arith, text_eq_iff j key, text_eq_iff key j), later n key v whole absent' h)
    ]

-- What the report of a sweep adds up to. Every blob is scanned once; each is counted as deleted,
-- kept in use or kept as recent, but for those to be deleted whose metadata cannot be read, which
-- are counted nowhere. The bytes and the blobs that are left are those that were there less those
-- that the report counts as deleted, and those among the latter that could not be removed. File
-- names are distinct.
pub sweep_once-Adds :
    (faults : Faults) (deployed : List Text) (retention now : ℕ) (cache : LayerCache)
    → Distinct cache.blobs
    → AddsUp faults deployed
        (now - retention)
        cache
        cache.blobs
        (cache, empty_report)
        (sweep_once faults deployed retention now cache)
unfolding sweep_once list_blobs
sweep_once-Adds faults deployed retention now cache d =
    sweep_blobs-Adds faults deployed (now - retention) cache cache.blobs (cache, empty_report) d d
      (Listed-self cache.blobs d) refl
