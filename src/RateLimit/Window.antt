-- ===== src/RateLimit/Window.antt =====
-- The limiter against its specification: a log of the admissions, never trimmed and never swept.
use denia.Prelude.{
  ℕ, ◌+◌, ◌≤◌, ◌≡◌, refl, sym, ap, ◌∙◌, inl, inr, Bool, true, false, none, List, [], ◌∷◌, ◌++◌,
  arith, Map, Key, lookup, insert, get_or, lookup-insert, Distinct, insert-Distinct, leb,
  if◌then◌else◌, any, retain, length, Bool-cases,
}
use mathlib.Core.Path.{ap₂}
use denia.RateLimit.{
  BucketState, sweep_interval, empty_state, recent, drop_lapsed, swept, bucket, decide, check,
}

module _ {ℓ} {A : Type ℓ} where
  retain-append : (p : A → Bool) (xs ys : List A) → retain p (xs ++ ys) ≡ retain p xs ++ retain p ys
  retain-append p [] ys = refl
  retain-append p (x ∷ xs) ys = ground (arith, retain-append p xs ys)

module _ (window : ℕ) where
  abbrev is_recent : ℕ → ℕ → Bool
  is_recent = recent window

  retain-retain :
      (now t : ℕ) (ts : List ℕ)
      → now ≤ t
      → retain (is_recent t) (retain (is_recent now) ts) ≡ retain (is_recent t) ts
  retain-retain now t [] le = refl
  retain-retain now t (u ∷ ts) le = ground (arith, retain-retain now t ts le)

  lapsed :
      (now t : ℕ) (ts : List ℕ)
      → now ≤ t
      → any (is_recent now) ts ≡ false
      → retain (is_recent t) ts ≡ []
  lapsed now t [] le h = refl
  lapsed now t (u ∷ ts) le h = ground (arith, lapsed now t ts le)

module _ {K : Type 0} ⦃o : Key K⦄ (window : ℕ) where
  -- The times at which a key was admitted, in a log of admissions.
  abbrev times : K → List (K × ℕ) → List ℕ
  times key [] = []
  times key ((k, t) ∷ log) = if o.beq k key then t ∷ times key log else times key log

  -- The specification: a key is admitted while fewer than `max_attempts` of its admissions are
  -- less than `window` ago.
  unfoldable pub admit : ℕ → ℕ → K → List (K × ℕ) → Bool × List (K × ℕ)
  admit max_attempts now key log =
      if leb max_attempts (length (retain (recent window now) (times key log)))
      then (false, log)
      else (true, log ++ (key, now) ∷ [])

  times-append :
      (key k : K) (t : ℕ) (log : List (K × ℕ))
      → times key (log ++ (k, t) ∷ [])
        ≡ (if o.beq k key then times key log ++ t ∷ [] else times key log)
  times-append key k t [] = ground arith
  times-append key k t ((j, u) ∷ log) = ground (arith, times-append key k t log)

  drop_lapsed-none :
      (now : ℕ) (k : K) (m : Map K (List ℕ))
      → lookup k m ≡ none
      → lookup k (drop_lapsed window now m) ≡ none
  unfolding drop_lapsed lookup
  drop_lapsed-none now k [] h = refl
  drop_lapsed-none now k ((j, ts) ∷ m) h = ground (arith, drop_lapsed-none now k m)

  drop_lapsed-Distinct :
      (now : ℕ) (m : Map K (List ℕ)) → Distinct m → Distinct (drop_lapsed window now m)
  unfolding drop_lapsed
  drop_lapsed-Distinct now [] d = tt
  drop_lapsed-Distinct now ((j, ts) ∷ m) d = elim (Bool-cases (any (recent window now) ts)) [
    | inl keep ↦ rw keep (drop_lapsed-none now j m d.0, drop_lapsed-Distinct now m d.1)
    | inr drop ↦ rw drop (drop_lapsed-Distinct now m d.1)
  ]

  -- What is dropped holds no time that a later check would count.
  drop_lapsed-bucket :
      (now t : ℕ) (k : K) (m : Map K (List ℕ))
      → now ≤ t
      → Distinct m
      → retain (recent window t) (get_or [] k (drop_lapsed window now m))
        ≡ retain (recent window t) (get_or [] k m)
  unfolding drop_lapsed get_or lookup
  drop_lapsed-bucket now t k [] le d = refl
  drop_lapsed-bucket now t k ((j, ts) ∷ m) le d = elim (Bool-cases (any (recent window now) ts)) [
    | inl keep ↦ elim (Bool-cases (o.beq j k)) [
      | inl same ↦ rw (keep, same, get_or) refl
      | inr apart ↦ rw (keep, apart, get_or) (drop_lapsed-bucket now t k m le d.1)
    ]
    | inr drop ↦ elim (Bool-cases (o.beq j k)) [
      | inl same ↦
          let e : j ≡ k = (o.beq_iff j k).0 same in
          let gone = drop_lapsed-none now k m (rw (← e) (d.0)) in
          rw (drop, same, get_or) (rw (gone) (sym (lapsed window now t ts le drop)))
      | inr apart ↦ rw (drop, apart, get_or) (drop_lapsed-bucket now t k m le d.1)
    ]
  ]

  -- The limiter's buckets and the log tell the same about every time from `now` on.
  pub record Agrees (now : ℕ) (s : BucketState K) (log : List (K × ℕ)) : Type 0 where
    pub distinct : Distinct s.buckets
    pub same :
        (k : K) (t : ℕ)
        → now ≤ t
        → retain (recent window t) (bucket k s) ≡ retain (recent window t) (times k log)

  swept-Agrees :
      (now : ℕ) (s : BucketState K) (log : List (K × ℕ))
      → Agrees now s log
      → Agrees now (swept window now s) log
  unfolding swept
  swept-Agrees now s log a = elim (Bool-cases (leb sweep_interval (s.ops_since_sweep + 1))) [
    | inl sweep ↦ rw sweep (record {
      distinct = drop_lapsed-Distinct now s.buckets a.distinct;
      same = λ k t le. drop_lapsed-bucket now t k s.buckets le a.distinct ∙ a.same k t le;
    })
    | inr skip ↦ rw skip (record { distinct = a.distinct; same = a.same })
  ]

  bucket-insert :
      (key k : K) (ts : List ℕ) (m : Map K (List ℕ))
      → get_or [] k (insert key ts m) ≡ (if o.beq key k then ts else get_or [] k m)
  unfolding get_or
  bucket-insert key k ts m = elim (Bool-cases (o.beq key k)) [
    | inl same ↦ rw (lookup-insert key k ts m, same, get_or) refl
    | inr apart ↦ rw (lookup-insert key k ts m, apart, get_or) refl
  ]

  -- One decision, made alike, and the states still agree.
  decide-admit :
      (max_attempts now : ℕ) (key : K) (s : BucketState K) (log : List (K × ℕ))
      → Agrees now s log
      → ((decide window max_attempts now key s).0 ≡ (admit max_attempts now key log).0)
        × Agrees now (decide window max_attempts now key s).1 (admit max_attempts now key log).1
  unfolding decide admit
  decide-admit max_attempts now key s log a =
      let entry = retain (recent window now) (bucket key s) in
      let alike : entry ≡ retain (recent window now) (times key log) =
        a.same key now (omega arith) in
      elim (Bool-cases (leb max_attempts (length entry))) [
        | inl full ↦
            let full' : leb max_attempts (length (retain (recent window now) (times key log)))
                ≡ true =
              rw (← alike) full in
            rw (full, full')
              (
                refl,
                record {
                  distinct = insert-Distinct key entry s.buckets a.distinct;
                  same = λ k t le. elim (Bool-cases (o.beq key k)) [
                    | inl same ↦
                        let e : key ≡ k = (o.beq_iff key k).0 same in
                        rw
                          (
                            bucket-insert key k entry s.buckets,
                            same,
                            retain-retain window now t (bucket key s) le,
                          )
                          (rw e (a.same k t le))
                    | inr apart ↦ rw (bucket-insert key k entry s.buckets, apart) (a.same k t le)
                  ];
                },
              )
        | inr free ↦
            let free' : leb max_attempts (length (retain (recent window now) (times key log)))
                ≡ false =
              rw (← alike) free in
            rw (free, free')
              (
                refl,
                record {
                  distinct = insert-Distinct key (entry ++ now ∷ []) s.buckets a.distinct;
                  same = λ k t le. elim (Bool-cases (o.beq key k)) [
                    | inl same ↦
                        let e : key ≡ k = (o.beq_iff key k).0 same in
                        rw
                          (
                            bucket-insert key k (entry ++ now ∷ []) s.buckets,
                            times-append k key now log,
                            same,
                          )
                          (retain-append (recent window t) entry (now ∷ [])
                            ∙ ap (λ u. u ++ retain (recent window t) (now ∷ []))
                                (retain-retain window now t (bucket key s) le
                                  ∙ rw e (a.same k t le))
                            ∙ sym (retain-append (recent window t) (times k log) (now ∷ [])))
                    | inr apart ↦
                        rw
                          (
                            bucket-insert key k (entry ++ now ∷ []) s.buckets,
                            times-append k key now log,
                            apart,
                          )
                          (a.same k t le)
                  ];
                },
              )
      ]

  -- A sequence of checks, with the time of each, and its answers.
  unfoldable pub check_all : ℕ → List (ℕ × K) → BucketState K → List Bool
  unfolding check
  check_all max_attempts [] s = []
  check_all max_attempts ((now, key) ∷ more) s =
      let (answer, s') = check window max_attempts now key s in
      answer ∷ check_all max_attempts more s'

  unfoldable pub admit_all : ℕ → List (ℕ × K) → List (K × ℕ) → List Bool
  unfolding admit
  admit_all max_attempts [] log = []
  admit_all max_attempts ((now, key) ∷ more) log =
      let (answer, log') = admit max_attempts now key log in
      answer ∷ admit_all max_attempts more log'

  -- The times of the calls never go back, from `now` on.
  abbrev pub Forward : ℕ → List (ℕ × K) → Type 0
  Forward now [] = Unit {0}
  Forward now ((t, key) ∷ more) = (now ≤ t) × Forward t more

  Agrees-later :
      (now t : ℕ) (s : BucketState K) (log : List (K × ℕ))
      → now ≤ t
      → Agrees now s log
      → Agrees t s log
  Agrees-later now t s log le a = record {
    distinct = a.distinct;
    same = λ k u le'. a.same k u (omega arith);
  }

  checks_admit :
      (max_attempts now : ℕ) (calls : List (ℕ × K)) (s : BucketState K) (log : List (K × ℕ))
      → Forward now calls
      → Agrees now s log
      → check_all max_attempts calls s ≡ admit_all max_attempts calls log
  unfolding check_all admit_all check
  checks_admit max_attempts now [] s log f a = refl
  checks_admit max_attempts now ((t, key) ∷ more) s log f a =
      let (e, a') =
        decide-admit max_attempts t key (swept window t s) log
          (swept-Agrees t s log (Agrees-later now t s log f.0 a)) in
      ap₂ ◌∷◌ e (checks_admit max_attempts t more _ _ f.1 a')

  -- Whatever the keys, the sweeps and the trims of its buckets never change an answer of the
  -- limiter: on a clock that does not go back, a new limiter answers every sequence of checks as
  -- the log does that counts the admissions of the key less than `window` ago.
  pub limiter_admits_window :
      (max_attempts : ℕ) (calls : List (ℕ × K))
      → Forward 0 calls
      → check_all max_attempts calls empty_state ≡ admit_all max_attempts calls []
  unfolding get_or lookup
  limiter_admits_window max_attempts calls f =
      checks_admit max_attempts 0 calls empty_state [] f
        (record { distinct = tt; same = λ k t le. refl })
