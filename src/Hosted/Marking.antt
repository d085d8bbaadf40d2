-- ===== src/Hosted/Marking.antt =====
-- The mark phase against a single pass over the manifests that the metadata lists.
use denia.Prelude.{
  ℕ, suc, ◌+◌, ◌≡◌, refl, ◌∙◌, inl, inr, true, false, List, [], ◌∷◌, length, some, Outcome, ok, err,
  Outcome-cases, Bool-cases, arith,
}
use denia.Ingress.Routes.{Text, text_eq_iff}
use denia.Hosted.{
  Manifest, RegistryGcError, contains, add, add_all, add_config, referenced_by, push_all, mark,
  listed_by, rounds,
}

-- Each manifest that is not referenced yet is read once, and what it names is referenced; the
-- manifests of an index are not followed.
unfoldable pub single_pass :
    (Text → Outcome Manifest RegistryGcError)
    → List Text
    → List Text
    → Outcome (List Text) RegistryGcError
unfolding referenced_by
single_pass read [] referenced = ok referenced
single_pass read (d ∷ queue) referenced = elim (contains referenced d) [
  | true ↦ single_pass read queue referenced
  | false ↦ elim (read d) [
    | err e ↦ err e
    | ok m ↦ single_pass read queue (referenced_by m (d ∷ referenced))
  ]
]

abbrev AllIn : List Text → List Text → Type 0
AllIn [] set = Unit {0}
AllIn (d ∷ ds) set = (contains set d ≡ true) × AllIn ds set

contains-add :
    (d e : Text) (set : List Text) → contains set d ≡ true → contains (add e set) d ≡ true
unfolding add
contains-add d e set h = ground arith

contains-add_self : (d : Text) (set : List Text) → contains (add d set) d ≡ true
unfolding add
contains-add_self d set = ground (arith, text_eq_iff d d)

contains-add_all :
    (d : Text) (ds set : List Text) → contains set d ≡ true → contains (add_all ds set) d ≡ true
unfolding add_all
contains-add_all d [] set h = h
contains-add_all d (e ∷ ds) set h = contains-add_all d ds (add e set) (contains-add d e set h)

AllIn-add_all : (ds set : List Text) → AllIn ds (add_all ds set)
unfolding add_all
AllIn-add_all [] set = tt
AllIn-add_all (d ∷ ds) set =
    (contains-add_all d ds (add d set) (contains-add_self d set), AllIn-add_all ds (add d set))

-- What is referenced already is popped and passed over.
mark_next :
    (read : Text → Outcome Manifest RegistryGcError) (fuel : ℕ) (d : Text)
    (queue referenced : List Text)
    → contains referenced d ≡ true
    → mark read (suc fuel) (d ∷ queue) referenced ≡ mark read fuel queue referenced
unfolding mark
mark_next read fuel d queue referenced h = rw (h, mark) refl

mark_reads :
    (read : Text → Outcome Manifest RegistryGcError) (fuel : ℕ) (d : Text)
    (queue referenced : List Text) (m : Manifest)
    → contains referenced d ≡ false
    → read d ≡ ok m
    → mark read (suc fuel) (d ∷ queue) referenced
      ≡ mark read fuel (push_all m.manifests queue) (referenced_by m (d ∷ referenced))
unfolding mark
mark_reads read fuel d queue referenced m new found = rw (new, found, mark) refl

mark_fails :
    (read : Text → Outcome Manifest RegistryGcError) (fuel : ℕ) (d : Text)
    (queue referenced : List Text) (e : RegistryGcError)
    → contains referenced d ≡ false
    → read d ≡ err e
    → mark read (suc fuel) (d ∷ queue) referenced ≡ some (err e)
unfolding mark
mark_fails read fuel d queue referenced e new failed = rw (new, failed, mark) refl

mark_skips :
    (read : Text → Outcome Manifest RegistryGcError) (fuel : ℕ) (ds queue referenced : List Text)
    → AllIn ds referenced
    → mark read (length ds + fuel) (push_all ds queue) referenced ≡ mark read fuel queue referenced
unfolding push_all
mark_skips read fuel [] queue referenced h = let e : 0 + fuel ≡ fuel = omega arith in rw e refl
mark_skips read fuel (d ∷ ds) queue referenced (here, h) =
    let e : length (d ∷ ds) + fuel ≡ length ds + suc fuel = omega arith in
    rw e (
      mark_skips read (suc fuel) ds (d ∷ queue) referenced h
      ∙ mark_next read fuel d queue referenced here)

listed_AllIn : (m : Manifest) (set : List Text) → AllIn m.manifests (referenced_by m set)
unfolding referenced_by
listed_AllIn m set = AllIn-add_all m.manifests (add_all m.layers (add_config m.config set))

-- The mark phase ends, with one round for each listed manifest and each manifest that these list
-- as fuel, or any more; and what it answers is what a single pass over the listed manifests does:
-- it never reads a manifest that only an index lists, nor one that was referenced before its turn.
pub mark-single_pass :
    (read : Text → Outcome Manifest RegistryGcError) (queue referenced : List Text) (extra : ℕ)
    → mark read (rounds read queue + extra) queue referenced
      ≡ some (single_pass read queue referenced)
unfolding rounds single_pass
mark-single_pass read [] referenced extra = unfold mark in refl
mark-single_pass read (d ∷ queue) referenced extra = elim (Bool-cases (contains referenced d)) [
  | inl seen ↦
      let e : suc (listed_by (read d) + rounds read queue) + extra
          ≡ suc (rounds read queue + (listed_by (read d) + extra)) =
        omega arith in
      rw e (
        mark_next read (rounds read queue + (listed_by (read d) + extra)) d queue referenced seen
        ∙ mark-single_pass read queue referenced (listed_by (read d) + extra)
        ∙ (rw (seen, single_pass) refl))
  | inr new ↦
      let e0 : suc (listed_by (read d) + rounds read queue) + extra
          ≡ suc (listed_by (read d) + rounds read queue + extra) =
        omega arith in
      rw e0 (elim (Outcome-cases (read d)) [
        | inr (e, failed) ↦
            mark_fails read (listed_by (read d) + rounds read queue + extra) d queue referenced e
              new failed
            ∙ (rw (new, failed, single_pass) refl)
        | inl (m, found) ↦
            let set = referenced_by m (d ∷ referenced) in
            let e : listed_by (read d) + rounds read queue + extra
                ≡ length m.manifests + (rounds read queue + extra) =
              rw found (omega arith) in
            mark_reads read (listed_by (read d) + rounds read queue + extra) d queue referenced m
              new found
            ∙ (rw e (
                mark_skips read (rounds read queue + extra) m.manifests queue set
                  (listed_AllIn m (d ∷ referenced))
                ∙ mark-single_pass read queue set extra
                ∙ (rw (new, found, single_pass) refl)))
      ])
]
