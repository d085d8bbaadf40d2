-- ===== src/Hosted/Steps.antt =====
-- What a step of the sweep of the hosted registry deletes, counts and answers.
use denia.Prelude.{
  ℕ, ◌+◌, ◌≡◌, refl, inl, inr, ◌⊎◌, Bool, true, false, List, [], ◌∷◌, ltb, if◌then◌else◌, length,
  Option, none, some, Outcome, ok, err, Map, lookup, lookup-remove, Bool-cases, arith, remove,
}
use denia.Ingress.Routes.{Text, text_eq, text_key}
use denia.Hosted.{
  RegistryGcError, Answers, contains, Stored, Storage, RegistryGcReport, rows_deleted, blob_deleted,
  sweep_file,
}

-- What is left of a file: all of it where it is referenced or young, else nothing.
abbrev pub spared : List Text → ℕ → Text → Stored → Bool
spared referenced cutoff digest file =
    if contains referenced digest then true else ltb cutoff file.modified

abbrev pub left_of : List Text → ℕ → Text → Option Stored → Option Stored → Option Stored
left_of referenced cutoff digest none now = now
left_of referenced cutoff digest (some file) now =
    if spared referenced cutoff digest file then now else none

-- A number for each file, added up.
abbrev pub tally : (Text → Stored → ℕ) → Map Text Stored → ℕ
tally f [] = 0
tally f ((digest, file) ∷ files) = f digest file + tally f files

-- What a report counts beyond another one, for some files.
pub record Counts (referenced : List Text) (cutoff : ℕ) (files : Map Text Stored)
    (before after : RegistryGcReport) : Type 0 where
  pub scanned : after.scanned_blobs ≡ before.scanned_blobs + length files
  pub referenced_kept :
      after.kept_referenced
      ≡ before.kept_referenced + tally (λ d f. if contains referenced d then 1 else 0) files
  pub recent_kept :
      after.kept_recent
      ≡ before.kept_recent
        + tally
            (λ d f. if contains referenced d then 0 else if ltb cutoff f.modified then 1 else 0)
            files
  pub deleted :
      after.deleted_blobs
      ≡ before.deleted_blobs + tally (λ d f. if spared referenced cutoff d f then 0 else 1) files
  pub bytes :
      after.deleted_bytes
      ≡ before.deleted_bytes
        + tally (λ d f. if spared referenced cutoff d f then 0 else f.size) files
  pub uploads : after.kept_uploads ≡ before.kept_uploads
  pub ran : after.ran_at ≡ before.ran_at

-- An error that a call gave after the mark phase.
abbrev pub Given : Answers → RegistryGcError → Type 0
Given answers e =
    (answers.count_active_uploads ≡ err e)
    ⊎ ((answers.list_blobs ≡ some e)
        ⊎ (((d : Text) × ((answers.delete_blob d ≡ some e) ⊎ (answers.delete_blob_rows d ≡ some e)))
            ⊎ (answers.record_gc_run ≡ some e)))

-- The file of a digest after a step of the loop over the file of `digest`.
abbrev pub after_file : List Text → ℕ → Text → Stored → Text → Option Stored → Option Stored
after_file referenced cutoff digest file n now =
    if spared referenced cutoff digest file then now else if text_eq digest n then none else now

abbrev pub FileSwept :
    Answers
    → List Text
    → ℕ
    → Text
    → Stored
    → Storage
    → RegistryGcReport
    → Outcome RegistryGcReport RegistryGcError × Storage
    → Type 0
FileSwept answers referenced cutoff digest file storage report (ok report', storage') =
    Counts referenced cutoff ((digest, file) ∷ []) report report'
    × ((n : Text)
        → lookup n storage'.blobs
          ≡ after_file referenced cutoff digest file n (lookup n storage.blobs))
FileSwept answers referenced cutoff digest file storage report (err e, storage') =
    Given answers e
    × ((n : Text)
        → (lookup n storage'.blobs ≡ lookup n storage.blobs)
          ⊎ (lookup n storage'.blobs
              ≡ after_file referenced cutoff digest file n (lookup n storage.blobs)))

pub sweep_file-FileSwept :
    (answers : Answers) (referenced : List Text) (cutoff : ℕ) (digest : Text) (file : Stored)
    (storage : Storage) (report : RegistryGcReport)
    → FileSwept answers referenced cutoff digest file storage report
        (sweep_file answers referenced cutoff digest file storage report)
unfolding sweep_file
sweep_file-FileSwept answers referenced cutoff digest file storage report =
    elim (Bool-cases (contains referenced digest)) [
      | inl e ↦ rw e (
        record {
          scanned = refl;
          referenced_kept = rw e (omega arith);
          recent_kept = rw e (omega arith);
          deleted = rw e (omega arith);
          bytes = rw e (omega arith);
          uploads = refl;
          ran = refl;
        },
        λ n. rw e refl,
      )
      | inr e ↦ elim (Bool-cases (ltb cutoff file.modified)) [
        | inl young ↦
            rw (e, young)
              (
                record {
                  scanned = refl;
                  referenced_kept = rw e (omega arith);
                  recent_kept = rw (e, young) (omega arith);
                  deleted = rw (e, young) (omega arith);
                  bytes = rw (e, young) (omega arith);
                  uploads = refl;
                  ran = refl;
                },
                λ n. rw (e, young) refl,
              )
        | inr old ↦ rw (e, old) (deleting e old (answers.delete_blob digest) refl)
      ]
    ]
  where
    report1 : RegistryGcReport
    report1 = record report {
      scanned_blobs = report.scanned_blobs + 1;
      deleted_blobs = report.deleted_blobs + 1;
      deleted_bytes = report.deleted_bytes + file.size;
    }

    deleting_rows :
        contains referenced digest ≡ false
        → ltb cutoff file.modified ≡ false
        → (o : Option RegistryGcError) → answers.delete_blob_rows digest ≡ o
        → FileSwept answers referenced cutoff digest file storage report
            (rows_deleted digest (record storage { blobs = remove digest storage.blobs }) report1 o)
    deleting_rows e old (some x) q = (
      inr (inr (inl (digest, inr q))),
      λ n. inr (rw (e, old) (lookup-remove digest n storage.blobs)),
    )
    deleting_rows e old none q = (
      record {
        scanned = refl;
        referenced_kept = rw e (omega arith);
        recent_kept = rw (e, old) (omega arith);
        deleted = rw (e, old) (omega arith);
        bytes = rw (e, old) (omega arith);
        uploads = refl;
        ran = refl;
      },
      λ n. rw (e, old) (lookup-remove digest n storage.blobs),
    )

    deleting :
        contains referenced digest ≡ false
        → ltb cutoff file.modified ≡ false
        → (o : Option RegistryGcError) → answers.delete_blob digest ≡ o
        → FileSwept answers referenced cutoff digest file storage report
            (blob_deleted answers digest storage report1 o)
    deleting e old (some x) q = (inr (inr (inl (digest, inl q))), λ n. inl refl)
    deleting e old none q = deleting_rows e old (answers.delete_blob_rows digest) refl
