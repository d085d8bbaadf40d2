-- ===== src/Hosted.antt =====
-- src/registry/gc.rs: the garbage collector of the hosted registry. The files of the storage have
-- digests as names. Times are counted from the epoch. The status for the API is left out.
pub mod Marking
pub mod Steps
pub mod Sweeping
use Prim.Native.String.{String}
use denia.Prelude.{
  ℕ, zero, suc, ◌+◌, ◌-◌, Bool, true, false, not, List, [], ◌∷◌, ltb, if◌then◌else◌, any, retain,
  length, Option, none, some, Outcome, ok, err, Map, lookup, insert, remove,
}
use denia.Ingress.Routes.{Text, text_eq, text_key}

-- The digests in the JSON of a manifest: its config, its layers, and the manifests of an index.
pub record Manifest : Type 0 where
  pub config : Option Text
  pub layers : List Text
  pub manifests : List Text

-- An error of the storage or of the database, or a manifest whose JSON cannot be parsed.
pub data RegistryGcError : Type 0 where
  storage_error repo_error json_error : String → RegistryGcError

-- What the database and the disk answer to one sweep: the digests that the metadata lists, the
-- number of uploads, and the errors of the other calls, none where they are carried out.
pub record Answers : Type 0 where
  pub all_manifest_digests : Outcome (List Text) RegistryGcError
  pub count_active_uploads : Outcome ℕ RegistryGcError
  pub list_blobs : Option RegistryGcError
  pub delete_blob : Text → Option RegistryGcError
  pub delete_blob_rows : Text → Option RegistryGcError
  pub record_gc_run : Option RegistryGcError

-- `HashSet::contains`.
abbrev pub contains : List Text → Text → Bool
contains set digest = any (λ d. text_eq d digest) set

-- `HashSet::insert`.
unfoldable pub add : Text → List Text → List Text
add digest set = if contains set digest then set else digest ∷ set

unfoldable pub add_all : List Text → List Text → List Text
unfolding add
add_all [] set = set
add_all (d ∷ ds) set = add_all ds (add d set)

abbrev pub add_config : Option Text → List Text → List Text
add_config none set = set
add_config (some d) set = add d set

-- What the loop's body adds for the body of a manifest.
unfoldable pub referenced_by : Manifest → List Text → List Text
unfolding add add_all
referenced_by m set = add_all m.manifests (add_all m.layers (add_config m.config set))

-- `queue.push` of each: the queue's end, which is popped, is the list's head.
unfoldable pub push_all : List Text → List Text → List Text
push_all [] queue = queue
push_all (d ∷ ds) queue = push_all ds (d ∷ queue)

-- The `while let` loop, with `read` the manifest that a digest has; `none` where the fuel is used up.
unfoldable pub mark :
    (Text → Outcome Manifest RegistryGcError)
    → ℕ
    → List Text
    → List Text
    → Option (Outcome (List Text) RegistryGcError)
unfolding referenced_by push_all
mark read fuel [] referenced = some (ok referenced)
mark read zero (d ∷ queue) referenced = none
mark read (suc fuel) (d ∷ queue) referenced = elim (contains referenced d) [
  | true ↦ mark read fuel queue referenced
  | false ↦ elim (read d) [
    | err e ↦ some (err e)
    | ok m ↦ mark read fuel (push_all m.manifests queue) (referenced_by m (d ∷ referenced))
  ]
]

abbrev pub listed_by : Outcome Manifest RegistryGcError → ℕ
listed_by (err e) = 0
listed_by (ok m) = length m.manifests

-- One round for each listed manifest, and one for each that these list.
unfoldable pub rounds : (Text → Outcome Manifest RegistryGcError) → List Text → ℕ
rounds read [] = 0
rounds read (d ∷ queue) = suc (listed_by (read d) + rounds read queue)

-- A file of the storage.
pub record Stored : Type 0 where
  pub modified : ℕ
  pub size : ℕ

-- The files by digest, and the rows of `hosted_blobs` as repositories with digests.
pub record Storage : Type 0 where
  pub blobs : Map Text Stored
  pub rows : List (ℕ × Text)

pub record RegistryGcReport : Type 0 where
  pub scanned_blobs : ℕ
  pub deleted_blobs : ℕ
  pub deleted_bytes : ℕ
  pub kept_referenced : ℕ
  pub kept_recent : ℕ
  pub kept_uploads : ℕ
  pub ran_at : Option ℕ

abbrev pub blank_report : ℕ → ℕ → RegistryGcReport
blank_report started uploads = record {
  scanned_blobs = 0;
  deleted_blobs = 0;
  deleted_bytes = 0;
  kept_referenced = 0;
  kept_recent = 0;
  kept_uploads = uploads;
  ran_at = some started;
}

-- `delete_blob`, `delete_blob_rows`, and the counting after them.
abbrev pub rows_deleted :
    Text
    → Storage
    → RegistryGcReport
    → Option RegistryGcError
    → Outcome RegistryGcReport RegistryGcError × Storage
rows_deleted digest storage report (some e) = (err e, storage)
rows_deleted digest storage report none = (
  ok report,
  record storage { rows = retain (λ (repository, d). not (text_eq d digest)) storage.rows },
)

abbrev pub blob_deleted :
    Answers
    → Text
    → Storage
    → RegistryGcReport
    → Option RegistryGcError
    → Outcome RegistryGcReport RegistryGcError × Storage
blob_deleted answers digest storage report (some e) = (err e, storage)
blob_deleted answers digest storage report none =
    rows_deleted digest (record storage { blobs = remove digest storage.blobs }) report
      (answers.delete_blob_rows digest)

-- The loop's body over the listed files.
unfoldable pub sweep_file :
    Answers
    → List Text
    → ℕ
    → Text
    → Stored
    → Storage
    → RegistryGcReport
    → Outcome RegistryGcReport RegistryGcError × Storage
sweep_file answers referenced cutoff digest file storage report =
    let scanned : RegistryGcReport = record report { scanned_blobs = report.scanned_blobs + 1 } in
    if contains referenced digest
    then (ok (record scanned { kept_referenced = report.kept_referenced + 1 }), storage)
    else if ltb cutoff file.modified
    then (ok (record scanned { kept_recent = report.kept_recent + 1 }), storage)
    else blob_deleted answers digest storage
        (record scanned {
          deleted_blobs = report.deleted_blobs + 1;
          deleted_bytes = report.deleted_bytes + file.size;
        })
        (answers.delete_blob digest)

-- What `?` does with a step's answer.
abbrev pub continued :
    {A B : Type 0}
    → (A → Storage → Outcome B RegistryGcError × Storage)
    → Outcome A RegistryGcError × Storage
    → Outcome B RegistryGcError × Storage
continued k (err e, storage) = (err e, storage)
continued k (ok a, storage) = k a storage

unfoldable pub sweep_files :
    Answers
    → List Text
    → ℕ
    → Map Text Stored
    → Storage
    → RegistryGcReport
    → Outcome RegistryGcReport RegistryGcError × Storage
unfolding sweep_file
sweep_files answers referenced cutoff [] storage report = (ok report, storage)
sweep_files answers referenced cutoff ((digest, file) ∷ files) storage report =
    continued (λ report' storage'. sweep_files answers referenced cutoff files storage' report')
      (sweep_file answers referenced cutoff digest file storage report)

abbrev pub recorded :
    Option RegistryGcError
    → RegistryGcReport
    → Storage
    → Outcome RegistryGcReport RegistryGcError × Storage
recorded (some e) report storage = (err e, storage)
recorded none report storage = (ok report, storage)

abbrev pub listed_sweep :
    Answers
    → List Text
    → ℕ
    → RegistryGcReport
    → Storage
    → Option RegistryGcError
    → Outcome RegistryGcReport RegistryGcError × Storage
listed_sweep answers referenced cutoff report storage (some e) = (err e, storage)
listed_sweep answers referenced cutoff report storage none =
    continued (recorded answers.record_gc_run)
      (sweep_files answers referenced cutoff storage.blobs storage report)

-- After the mark phase, at the time `now`.
abbrev pub counted_sweep :
    Answers
    → List Text
    → ℕ
    → ℕ
    → Storage
    → Outcome ℕ RegistryGcError
    → Outcome RegistryGcReport RegistryGcError × Storage
counted_sweep answers referenced grace now storage (err e) = (err e, storage)
counted_sweep answers referenced grace now storage (ok uploads) =
    listed_sweep answers referenced (now - grace) (blank_report now uploads) storage
      answers.list_blobs

abbrev pub swept_after :
    Answers
    → ℕ
    → ℕ
    → Storage
    → Outcome (List Text) RegistryGcError
    → Outcome RegistryGcReport RegistryGcError × Storage
swept_after answers grace now storage (err e) = (err e, storage)
swept_after answers grace now storage (ok referenced) =
    counted_sweep answers referenced grace now storage answers.count_active_uploads

abbrev pub swept_with :
    Answers
    → ℕ
    → ℕ
    → Storage
    → Option (Outcome (List Text) RegistryGcError)
    → Option (Outcome RegistryGcReport RegistryGcError × Storage)
swept_with answers grace now storage none = none
swept_with answers grace now storage (some o) = some (swept_after answers grace now storage o)

-- The mark phase over what the metadata lists, in its order.
abbrev pub marked :
    (Text → Outcome Manifest RegistryGcError)
    → Outcome (List Text) RegistryGcError
    → Option (Outcome (List Text) RegistryGcError)
marked read (err e) = some (err e)
marked read (ok digests) = let queue = push_all digests [] in mark read (rounds read queue) queue []

-- `sweep_once`, which runs from `now` on; the two readings of the clock are one.
unfoldable pub sweep_once :
    (Text → Outcome Manifest RegistryGcError)
    → Answers
    → ℕ
    → ℕ
    → Storage
    → Option (Outcome RegistryGcReport RegistryGcError × Storage)
unfolding mark rounds push_all sweep_files
sweep_once read answers grace now storage =
    swept_with answers grace now storage (marked read answers.all_manifest_digests)
