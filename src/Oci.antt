-- ===== src/Oci.antt =====
-- src/oci/cache: the cache of image layers and its garbage collector. The file operations of a hit
-- and of an installation succeed, and operations run one after another. Times are counted from the epoch.
pub mod Sweep
pub mod Reservation
pub mod Totals
use denia.Prelude.{
  ℕ, ◌+◌, ◌-◌, ◌≡◌, Bool, true, false, not, ◌&&◌, ◌||◌, List, [], ◌∷◌, ◌++◌, map, leb, ltb, ◌==◌,
  if◌then◌else◌, any, all, length, Option, none, some, Outcome, ok, err, Map, lookup, insert,
  remove, get_or,
}
use denia.Ingress.Routes.{Text, text_eq, text_key, between}

pub data OciCacheVerifyMode : Type 0 where
  verify_none verify_size verify_full : OciCacheVerifyMode

pub data CacheError : Type 0 where
  unsupported_digest : Text → CacheError
  size_mismatch : Text → ℕ → ℕ → CacheError
  digest_mismatch : Text → Text → CacheError

-- A file under `blobs/sha256`: its length, the SHA-256 of its bytes in hex, and its mtime.
pub record Blob : Type 0 where
  pub len : ℕ
  pub sha256 : Text
  pub modified : ℕ

-- The blobs and the mtimes of the sidecars by the blob's file name, the reservations by digest.
pub record LayerCache : Type 0 where
  pub verify_on_hit : OciCacheVerifyMode
  pub blobs : Map Text Blob
  pub lastrefs : Map Text ℕ
  pub reservations : Map Text ℕ

-- The text `sha256:`.
abbrev pub sha256_prefix : Text
sha256_prefix = 115 ∷ 104 ∷ 97 ∷ 50 ∷ 53 ∷ 54 ∷ 58 ∷ []

abbrev pub digest_of : Text → Text
digest_of name = sha256_prefix ++ name

unfoldable pub strip_prefix : Text → Text → Option Text
strip_prefix [] text = some text
strip_prefix (c ∷ cs) [] = none
strip_prefix (c ∷ cs) (d ∷ ds) = let rest = strip_prefix cs ds in if c == d then rest else none

abbrev pub is_ascii_hexdigit : ℕ → Bool
is_ascii_hexdigit c = between 48 57 c || (between 65 70 c || between 97 102 c)

-- `sanitize_hex`. A text of hex digits has as many bytes as characters.
abbrev pub is_sane_hex : Text → Bool
is_sane_hex [] = false
is_sane_hex (c ∷ cs) = leb (length (c ∷ cs)) 128 && all is_ascii_hexdigit (c ∷ cs)

abbrev pub checked_name : Text → Option Text → Outcome Text CacheError
checked_name digest none = err (unsupported_digest digest)
checked_name digest (some hex) =
    if is_sane_hex hex then ok hex else err (unsupported_digest (digest_of hex))

-- The file name of `blob_path`, and with the suffix that of `lastref_path`.
unfoldable pub blob_name : Text → Outcome Text CacheError
unfolding strip_prefix
blob_name digest = checked_name digest (strip_prefix sha256_prefix digest)

unfoldable pub reservation_count : Text → LayerCache → ℕ
reservation_count digest cache = get_or 0 digest cache.reservations

unfoldable pub reserve : Text → LayerCache → LayerCache
unfolding reservation_count
reserve digest cache = record cache {
  reservations = insert digest (reservation_count digest cache + 1) cache.reservations;
}

abbrev pub counted_down : Text → ℕ → Map Text ℕ → Map Text ℕ
counted_down digest count reservations =
    if count - 1 == 0 then remove digest reservations else insert digest (count - 1) reservations

-- `release_now` of a guard that has not been released.
unfoldable pub release : Text → LayerCache → LayerCache
release digest cache = elim (lookup digest cache.reservations) [
  | none ↦ cache
  | some count ↦ record cache { reservations = counted_down digest count cache.reservations }
]

abbrev pub touched : Text → ℕ → LayerCache → LayerCache
touched name now cache = record cache { lastrefs = insert name now cache.lastrefs }

-- A file and its sidecar are removed.
abbrev pub deleted : Text → LayerCache → LayerCache
deleted name cache = record cache {
  blobs = remove name cache.blobs;
  lastrefs = remove name cache.lastrefs;
}

abbrev pub without_sidecar : Outcome Text CacheError → Map Text ℕ → Map Text ℕ
without_sidecar (err e) lastrefs = lastrefs
without_sidecar (ok name) lastrefs = remove name lastrefs

abbrev pub verified_size : Text → Option ℕ → Blob → Option CacheError
verified_size digest none blob = none
verified_size digest (some expected) blob =
    if blob.len == expected then none else some (size_mismatch digest expected blob.len)

-- What the check of a hit finds wrong.
abbrev pub verified : OciCacheVerifyMode → Text → Text → Option ℕ → Blob → Option CacheError
verified verify_none digest name expected blob = none
verified verify_size digest name expected blob = verified_size digest expected blob
verified verify_full digest name expected blob =
    if text_eq blob.sha256 name then none else some (digest_mismatch digest (digest_of blob.sha256))

abbrev pub hit :
    Text → ℕ → Option CacheError → LayerCache → Outcome (Option Text) CacheError × LayerCache
hit name now none cache = (ok (some name), touched name now cache)
hit name now (some e) cache = (err e, deleted name cache)

abbrev pub got :
    Text
    → Option ℕ
    → ℕ
    → Text
    → LayerCache
    → Option Blob
    → Outcome (Option Text) CacheError × LayerCache
got digest expected now name cache none = (ok none, cache)
got digest expected now name cache (some blob) =
    hit name now (verified cache.verify_on_hit digest name expected blob) cache

-- `get` at the time `now`, with the name for the path.
unfoldable pub get :
    Text → Option ℕ → ℕ → LayerCache → Outcome (Option Text) CacheError × LayerCache
unfolding blob_name
get digest expected now cache = elim (blob_name digest) [
  | err e ↦ (err e, cache)
  | ok name ↦ got digest expected now name cache (lookup name cache.blobs)
]

-- `finalize_temp` of a temporary file that is `blob`: the sidecar first, then the rename.
unfoldable pub finalize_temp : Text → Blob → ℕ → LayerCache → Outcome Text CacheError × LayerCache
unfolding blob_name
finalize_temp digest blob now cache = elim (blob_name digest) [
  | err e ↦ (err e, cache)
  | ok name ↦
      let sidecar = touched name now cache in
      (ok name, record sidecar { blobs = insert name blob sidecar.blobs })
]

unfoldable pub lastref_mtime : Text → LayerCache → Option ℕ
unfolding blob_name
lastref_mtime digest cache = elim (blob_name digest) [
  | err e ↦ none
  | ok name ↦ lookup name cache.lastrefs
]

-- `BlobListEntry`: the digest, the file's name, the sidecar's mtime, the file.
pub record BlobListEntry : Type 0 where
  pub digest : Text
  pub name : Text
  pub lastref : Option ℕ
  pub blob : Blob

abbrev pub entry_of : LayerCache → Text → Blob → BlobListEntry
entry_of cache name blob = record {
  digest = digest_of name;
  name = name;
  lastref = lastref_mtime (digest_of name) cache;
  blob = blob;
}

unfoldable pub list_blobs : LayerCache → List BlobListEntry
unfolding lastref_mtime
list_blobs cache = map (λ (name, blob). entry_of cache name blob) cache.blobs

pub record GcReport : Type 0 where
  pub deleted_entries : ℕ
  pub deleted_bytes : ℕ
  pub scanned_entries : ℕ
  pub kept_in_use_entries : ℕ
  pub kept_recent_entries : ℕ

abbrev pub empty_report : GcReport
empty_report = record {
  deleted_entries = 0;
  deleted_bytes = 0;
  scanned_entries = 0;
  kept_in_use_entries = 0;
  kept_recent_entries = 0;
}

abbrev pub contains : List Text → Text → Bool
contains digests digest = any (λ d. text_eq d digest) digests

-- Which file operations of a sweep fail, by the blob's file name: its metadata, the removal of the
-- file, and that of its sidecar.
pub record Faults : Type 0 where
  pub unreadable : Text → Bool
  pub stays : Text → Bool
  pub sidecar_stays : Text → Bool

-- The sidecar's mtime, or without one the file's own, before the cutoff; a file without either is
-- old.
abbrev pub is_old : Faults → ℕ → BlobListEntry → Bool
is_old faults cutoff entry = elim (entry.lastref) [
  | some t ↦ ltb t cutoff
  | none ↦ if faults.unreadable entry.name then true else ltb entry.blob.modified cutoff
]

abbrev pub removed_blob : Faults → Text → Map Text Blob → Map Text Blob
removed_blob faults name blobs = if faults.stays name then blobs else remove name blobs

-- The file goes, and the sidecar where its digest is one that `lastref_path` takes, unless they
-- cannot be removed, which the sweep ignores.
abbrev pub deleted_entry : Faults → BlobListEntry → LayerCache → LayerCache
deleted_entry faults entry cache = record cache {
  blobs = removed_blob faults entry.name cache.blobs;
  lastrefs =
      if faults.sidecar_stays entry.name
      then cache.lastrefs
      else without_sidecar (blob_name entry.digest) cache.lastrefs;
}

-- The loop's body of `sweep_once`. A file whose metadata cannot be read before its removal is
-- scanned and counted nowhere else.
unfoldable pub sweep_blob :
    Faults → List Text → ℕ → BlobListEntry → LayerCache × GcReport → LayerCache × GcReport
unfolding reservation_count
sweep_blob faults deployed cutoff entry (cache, report) =
    if contains deployed entry.digest
    then (
      cache,
      record report {
        scanned_entries = report.scanned_entries + 1;
        kept_in_use_entries = report.kept_in_use_entries + 1;
      },
    )
    else if ltb 0 (reservation_count entry.digest cache)
    then (
      cache,
      record report {
        scanned_entries = report.scanned_entries + 1;
        kept_in_use_entries = report.kept_in_use_entries + 1;
      },
    )
    else if not (is_old faults cutoff entry)
    then (
      cache,
      record report {
        scanned_entries = report.scanned_entries + 1;
        kept_recent_entries = report.kept_recent_entries + 1;
      },
    )
    else if faults.unreadable entry.name
    then (cache, record report { scanned_entries = report.scanned_entries + 1 })
    else (
      deleted_entry faults entry cache,
      record report {
        scanned_entries = report.scanned_entries + 1;
        deleted_entries = report.deleted_entries + 1;
        deleted_bytes = report.deleted_bytes + entry.blob.len;
      },
    )

unfoldable pub sweep_blobs :
    Faults → List Text → ℕ → List BlobListEntry → LayerCache × GcReport → LayerCache × GcReport
unfolding sweep_blob
sweep_blobs faults deployed cutoff [] r = r
sweep_blobs faults deployed cutoff (entry ∷ entries) r =
    sweep_blobs faults deployed cutoff entries (sweep_blob faults deployed cutoff entry r)

-- `sweep_once` at the time `now`, with the deployed digests, in a root that may be swept and
-- whose files can be listed.
unfoldable pub sweep_once : Faults → List Text → ℕ → ℕ → LayerCache → LayerCache × GcReport
unfolding sweep_blobs list_blobs
sweep_once faults deployed retention now cache =
    sweep_blobs faults deployed (now - retention) (list_blobs cache) (cache, empty_report)
