-- ===== src/Tests/Manifests.antt =====
-- Tests of the collector of the hosted registry: an index, the manifest that it lists, and the one
-- layer of that, all older than the grace period.
use denia.Prelude.{
  ◌+◌, ◌≡◌, refl, List, [], ◌∷◌, Option, none, some, Outcome, ok, err, lookup, remove, Distinct,
  if◌then◌else◌,
}
use denia.Ingress.Routes.{Text, text_eq, text_key}
use denia.Hosted.{
  Manifest, RegistryGcError, storage_error, json_error, Answers, mark, rounds, Storage,
  RegistryGcReport, sweep_once,
}
use denia.Hosted.Marking.{single_pass, mark-single_pass}
use denia.Hosted.Sweeping.{pass_of, Sweeps, sweep_once-Sweeps_files}

abbrev index : Text
index = 105 ∷ []

abbrev listed : Text
listed = 109 ∷ []

abbrev layer : Text
layer = 108 ∷ []

abbrev read : Text → Outcome Manifest RegistryGcError
read d =
    if text_eq d index
    then ok (record { config = none; layers = []; manifests = listed ∷ [] })
    else if text_eq d listed
    then ok (record { config = none; layers = layer ∷ []; manifests = [] })
    else err (json_error "no manifest")

-- The index comes last in the metadata, and so first from the queue.
abbrev digests : List Text
digests = listed ∷ index ∷ []

abbrev storage : Storage
storage = record {
  blobs =
      (index, record { modified = 1; size = 10 })
      ∷ (layer, record { modified = 1; size = 500 })
      ∷ (listed, record { modified = 1; size = 20 })
      ∷ [];
  rows = [];
}

storage-Distinct : Distinct storage.blobs
unfolding lookup text_eq
storage-Distinct = (refl, (refl, (refl, tt)))

mark-single_pass_example :
    mark read (rounds read (index ∷ listed ∷ []) + 0) (index ∷ listed ∷ []) []
    ≡ some (single_pass read (index ∷ listed ∷ []) [])
mark-single_pass_example = mark-single_pass read (index ∷ listed ∷ []) [] 0

-- The layer is not among what is referenced.
layer_unreferenced : single_pass read (index ∷ listed ∷ []) [] ≡ ok (listed ∷ index ∷ [])
unfolding single_pass text_eq
layer_unreferenced = refl

-- Nothing fails, or the first file cannot be deleted.
abbrev answers : Answers
answers = record {
  all_manifest_digests = ok digests;
  count_active_uploads = ok 1;
  list_blobs = none;
  delete_blob = λ d. none;
  delete_blob_rows = λ d. none;
  record_gc_run = none;
}

abbrev read_only : Answers
read_only = record answers { delete_blob = λ d. some (storage_error "read-only file system") }

sweep_once-Sweeps_files_example :
    (r : Outcome RegistryGcReport RegistryGcError × Storage) × (sweep_once read answers 10 100
        storage
      ≡ some r)
    × Sweeps answers 10 100 storage (pass_of read (ok digests)) r
sweep_once-Sweeps_files_example =
    sweep_once-Sweeps_files read answers 10 100 storage storage-Distinct

abbrev left : Option (Outcome RegistryGcReport RegistryGcError × Storage) → Storage
left none = storage
left (some r) = r.1

layer_deleted : lookup layer (left (sweep_once read answers 10 100 storage)).blobs ≡ none
unfolding sweep_once lookup text_eq remove
layer_deleted = refl

deletion_refused :
    sweep_once read read_only 10 100 storage
    ≡ some (err (storage_error "read-only file system"), storage)
unfolding sweep_once lookup text_eq remove
deletion_refused = refl
