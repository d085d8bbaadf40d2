-- ===== src/Hosted/Sweeping.antt =====
-- What a sweep of the hosted registry deletes, counts and answers.
use denia.Prelude.{
  ℕ, ◌+◌, ◌-◌, ◌≡◌, refl, ap, ◌∙◌, inl, inr, ◌⊎◌, Bool, true, false, List, [], ◌∷◌, if◌then◌else◌,
  Option, none, some, Outcome, ok, err, Map, lookup, Distinct, Bool-cases, arith,
}
use denia.Ingress.Routes.{Text, text_eq, text_eq_iff, text_key}
use denia.Hosted.{
  Manifest, RegistryGcError, Answers, push_all, mark, rounds, Stored, Storage, RegistryGcReport,
  blank_report, sweep_file, continued, sweep_files, recorded, listed_sweep, counted_sweep,
  swept_after, swept_with, marked, sweep_once,
}
use denia.Hosted.Marking.{single_pass, mark-single_pass}
use denia.Hosted.Steps.{spared, left_of, Counts, Given, after_file, FileSwept, sweep_file-FileSwept}

-- What a sweep of the files leaves and answers. Where it ends early, a file is as it was or as the
-- whole sweep leaves it.
abbrev pub FilesSwept :
    Answers
    → List Text
    → ℕ
    → Map Text Stored
    → Storage
    → RegistryGcReport
    → Outcome RegistryGcReport RegistryGcError × Storage
    → Type 0
FilesSwept answers referenced cutoff files storage report (ok report', storage') =
    Counts referenced cutoff files report report'
    × ((n : Text)
        → lookup n storage'.blobs
          ≡ left_of referenced cutoff n (lookup n files) (lookup n storage.blobs))
FilesSwept answers referenced cutoff files storage report (err e, storage') =
    Given answers e
    × ((n : Text)
        → (lookup n storage'.blobs ≡ lookup n storage.blobs)
          ⊎ (lookup n storage'.blobs
              ≡ left_of referenced cutoff n (lookup n files) (lookup n storage.blobs)))

-- The step of the loop, seen from the whole list.
after_file-left_of :
    (referenced : List Text) (cutoff : ℕ) (digest : Text) (file : Stored) (files : Map Text Stored)
    (n : Text) (now : Option Stored)
    → lookup digest files ≡ none
    → left_of referenced cutoff n (lookup n files) (after_file referenced cutoff digest file n now)
      ≡ left_of referenced cutoff n (lookup n ((digest, file) ∷ files)) now
unfolding lookup
after_file-left_of referenced cutoff digest file files n now absent =
    elim (Bool-cases (text_eq digest n)) [
      | inl e ↦
          let same : digest ≡ n = (text_eq_iff digest n).0 e in
          let gone : lookup n files ≡ none = rw (← same) absent in
          rw (gone, e) (rw same (once (spared referenced cutoff n file)))
      | inr e ↦ rw e (
          ap (left_of referenced cutoff n (lookup n files))
            (twice (spared referenced cutoff digest file)))
    ]
  where
    once : (b : Bool) → (if b then now else if true then none else now) ≡ (if b then now else none)
    once true = refl
    once false = refl

    twice : (b : Bool) → (if b then now else if false then none else now) ≡ now
    twice true = refl
    twice false = refl

-- A step that ends the sweep leaves each file as it was or as the whole sweep does.
after_file-either :
    (referenced : List Text) (cutoff : ℕ) (digest : Text) (file : Stored) (files : Map Text Stored)
    (n : Text) (now : Option Stored)
    → (after_file referenced cutoff digest file n now ≡ now)
      ⊎ (after_file referenced cutoff digest file n now
          ≡ left_of referenced cutoff n (lookup n ((digest, file) ∷ files)) now)
unfolding lookup
after_file-either referenced cutoff digest file files n now = elim (Bool-cases (text_eq digest n)) [
  | inl e ↦
      let same : digest ≡ n = (text_eq_iff digest n).0 e in
      inr (rw (e) (rw same (once (spared referenced cutoff n file))))
  | inr e ↦ inl (rw e (twice (spared referenced cutoff digest file)))
]
  where
    once : (b : Bool) → (if b then now else if true then none else now) ≡ (if b then now else none)
    once true = refl
    once false = refl

    twice : (b : Bool) → (if b then now else if false then none else now) ≡ now
    twice true = refl
    twice false = refl

Counts-trans :
    (referenced : List Text) (cutoff : ℕ) (digest : Text) (file : Stored) (files : Map Text Stored)
    (a b c : RegistryGcReport)
    → Counts referenced cutoff ((digest, file) ∷ []) a b
    → Counts referenced cutoff files b c
    → Counts referenced cutoff ((digest, file) ∷ files) a c
Counts-trans referenced cutoff digest file files a b c one rest = record {
  scanned = omega (arith, one.scanned, rest.scanned);
  referenced_kept = omega (arith, one.referenced_kept, rest.referenced_kept);
  recent_kept = omega (arith, one.recent_kept, rest.recent_kept);
  deleted = omega (arith, one.deleted, rest.deleted);
  bytes = omega (arith, one.bytes, rest.bytes);
  uploads = rest.uploads ∙ one.uploads;
  ran = rest.ran ∙ one.ran;
}

sweep_files-FilesSwept :
    (answers : Answers) (referenced : List Text) (cutoff : ℕ) (files : Map Text Stored)
    (storage : Storage) (report : RegistryGcReport)
    → Distinct files
    → FilesSwept answers referenced cutoff files storage report
        (sweep_files answers referenced cutoff files storage report)
unfolding sweep_files lookup
sweep_files-FilesSwept answers referenced cutoff [] storage report d = (
  record {
    scanned = omega arith;
    referenced_kept = omega arith;
    recent_kept = omega arith;
    deleted = omega arith;
    bytes = omega arith;
    uploads = refl;
    ran = refl;
  },
  λ n. refl,
)
sweep_files-FilesSwept answers referenced cutoff ((digest, file) ∷ files) storage report
      (absent, d) =
    first (sweep_file answers referenced cutoff digest file storage report)
      (sweep_file-FileSwept answers referenced cutoff digest file storage report)
      (λ report' storage'.
        sweep_files-FilesSwept answers referenced cutoff files storage' report' d)
  where
    whole : Text → Option Stored
    whole n =
        left_of referenced cutoff n (lookup n ((digest, file) ∷ files)) (lookup n storage.blobs)

    moved :
        (n : Text) (x : Option Stored)
        → x ≡ after_file referenced cutoff digest file n (lookup n storage.blobs)
        → left_of referenced cutoff n (lookup n files) x ≡ whole n
    moved n x e =
        ap (left_of referenced cutoff n (lookup n files)) e
        ∙ after_file-left_of referenced cutoff digest file files n (lookup n storage.blobs) absent

    either :
        (n : Text) (x : Option Stored)
        → x ≡ after_file referenced cutoff digest file n (lookup n storage.blobs)
        → (x ≡ lookup n storage.blobs) ⊎ (x ≡ whole n)
    either n x e =
        elim (after_file-either referenced cutoff digest file files n (lookup n storage.blobs)) [
          | inl same ↦ inl (e ∙ same)
          | inr done ↦ inr (e ∙ done)
        ]

    second :
        (report1 : RegistryGcReport) (storage1 : Storage)
        (o : Outcome RegistryGcReport RegistryGcError × Storage)
        → FileSwept answers referenced cutoff digest file storage report (ok report1, storage1)
        → FilesSwept answers referenced cutoff files storage1 report1 o
        → FilesSwept answers referenced cutoff ((digest, file) ∷ files) storage report o
    second report1 storage1 (ok report2, storage2) (one, at) (rest, left) = (
      Counts-trans referenced cutoff digest file files report report1 report2 one rest,
      λ n. left n ∙ moved n (lookup n storage1.blobs) (at n),
    )
    second report1 storage1 (err e, storage2) (one, at) (given, left) = (
      given,
      λ n. elim (left n) [
        | inl same ↦ either n (lookup n storage2.blobs) (same ∙ at n)
        | inr done ↦ inr (done ∙ moved n (lookup n storage1.blobs) (at n))
      ],
    )

    first :
        (o : Outcome RegistryGcReport RegistryGcError × Storage)
        → FileSwept answers referenced cutoff digest file storage report o
        → ((report1 : RegistryGcReport) (storage1 : Storage)
            → FilesSwept answers referenced cutoff files storage1 report1
                (sweep_files answers referenced cutoff files storage1 report1))
        → FilesSwept answers referenced cutoff ((digest, file) ∷ files) storage report (
            continued
              (λ report' storage'. sweep_files answers referenced cutoff files storage' report')
              o)
    first (ok report1, storage1) step rest =
        second report1 storage1 (sweep_files answers referenced cutoff files storage1 report1) step
          (rest report1 storage1)
    first (err e, storage1) (given, at) rest = (
      given,
      λ n. elim (at n) [ inl same ↦ inl same | inr done ↦ either n (lookup n storage1.blobs) done ],
    )

-- What the mark phase gives, over what the metadata lists.
abbrev pub pass_of :
    (Text → Outcome Manifest RegistryGcError)
    → Outcome (List Text) RegistryGcError
    → Outcome (List Text) RegistryGcError
pass_of read (err e) = err e
pass_of read (ok digests) = single_pass read (push_all digests []) []

-- What a sweep answers and leaves, by what its mark phase gives.
abbrev pub Sweeps :
    Answers
    → ℕ
    → ℕ
    → Storage
    → Outcome (List Text) RegistryGcError
    → Outcome RegistryGcReport RegistryGcError × Storage
    → Type 0
Sweeps answers grace now storage (err e) (answer, storage') =
    (answer ≡ err e) × (storage' ≡ storage)
Sweeps answers grace now storage (ok referenced) (err e, storage') =
    FilesSwept answers referenced (now - grace) storage.blobs storage (blank_report now 0)
      (err e, storage')
Sweeps answers grace now storage (ok referenced) (ok report, storage') =
    (uploads : ℕ) × (answers.count_active_uploads ≡ ok uploads)
    × FilesSwept answers referenced (now - grace) storage.blobs storage (blank_report now uploads)
        (ok report, storage')

module _ (answers : Answers) (referenced : List Text) (grace now : ℕ) (storage : Storage) where
  abbrev IsSwept : Outcome RegistryGcReport RegistryGcError × Storage → Type 0
  IsSwept = Sweeps answers grace now storage (ok referenced)

  recorded-IsSwept :
      (uploads : ℕ)
      → answers.count_active_uploads ≡ ok uploads
      → (o : Outcome RegistryGcReport RegistryGcError × Storage)
      → FilesSwept answers referenced
          (now - grace)
          storage.blobs
          storage
          (blank_report now uploads)
          o
      → IsSwept (continued (recorded answers.record_gc_run) o)
  recorded-IsSwept uploads u (err e, storage') h = h
  recorded-IsSwept uploads u (ok report, storage') (counts, left) = go answers.record_gc_run refl
    where
      go :
          (x : Option RegistryGcError)
          → answers.record_gc_run ≡ x
          → IsSwept (recorded x report storage')
      go none q = (uploads, u, (counts, left))
      go (some e) q = (inr (inr (inr q)), λ n. inr (left n))

  swept_after-IsSwept :
      Distinct storage.blobs → IsSwept (swept_after answers grace now storage (ok referenced))
  swept_after-IsSwept d = counting answers.count_active_uploads refl
    where
      listing :
          (uploads : ℕ)
          → answers.count_active_uploads ≡ ok uploads
          → (x : Option RegistryGcError) → answers.list_blobs ≡ x
          → IsSwept
              (listed_sweep answers referenced (now - grace) (blank_report now uploads) storage x)
      listing uploads u (some e) q = (inr (inl q), λ n. inl refl)
      listing uploads u none q =
          recorded-IsSwept uploads u
            (sweep_files answers referenced (now - grace) storage.blobs storage
              (blank_report now uploads))
            (sweep_files-FilesSwept answers referenced (now - grace) storage.blobs storage
              (blank_report now uploads) d)

      counting :
          (x : Outcome ℕ RegistryGcError)
          → answers.count_active_uploads ≡ x
          → IsSwept (counted_sweep answers referenced grace now storage x)
      counting (err e) q = (inl q, λ n. inl refl)
      counting (ok uploads) q = listing uploads q answers.list_blobs refl

-- A sweep of the hosted registry ends. Where the metadata cannot be listed, or a manifest that the
-- single pass over its digests, from the last to the first, reads cannot be read, it answers that
-- error and deletes nothing. Else, where it answers Ok, it has deleted exactly the files that the
-- pass did not reference and that were not changed within the grace period, and the report counts
-- them and the others; where it answers an error, a call gave that error, and each file is as it
-- was or as a whole sweep leaves it. File names are distinct.
pub sweep_once-Sweeps_files :
    (read : Text → Outcome Manifest RegistryGcError) (answers : Answers) (grace now : ℕ)
    (storage : Storage)
    → Distinct storage.blobs
    → (r : Outcome RegistryGcReport RegistryGcError × Storage) × (sweep_once read answers grace now
          storage
        ≡ some r)
      × Sweeps answers grace now storage (pass_of read answers.all_manifest_digests) r
unfolding sweep_once
sweep_once-Sweeps_files read answers grace now storage d = (
  swept_after answers grace now storage (pass_of read answers.all_manifest_digests),
  ap (swept_with answers grace now storage) (marks answers.all_manifest_digests),
  sweeps (pass_of read answers.all_manifest_digests),
)
  where
    marks : (o : Outcome (List Text) RegistryGcError) → marked read o ≡ some (pass_of read o)
    marks (err e) = refl
    marks (ok digests) =
        let queue = push_all digests [] in
        let e : rounds read queue ≡ rounds read queue + 0 = omega arith in
        ap (λ k. mark read k queue []) e ∙ mark-single_pass read queue [] 0

    sweeps :
        (o : Outcome (List Text) RegistryGcError)
        → Sweeps answers grace now storage o (swept_after answers grace now storage o)
    sweeps (err e) = (refl, refl)
    sweeps (ok referenced) = swept_after-IsSwept answers referenced grace now storage d
