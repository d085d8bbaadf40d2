-- ===== src/RateLimit.antt =====
-- src/rate_limit.rs: the limiter of attempts per key, over a sliding window.
pub mod Window
use denia.Prelude.{
  ℕ, ◌+◌, ◌-◌, Bool, true, false, List, [], ◌∷◌, ◌++◌, Map, Key, lookup, insert, get_or, leb, ltb,
  if◌then◌else◌, any, retain, length,
}

-- `Vec<Instant>` for each key. The map's order is never read.
pub record BucketState (K : Type 0) : Type 0 where
  pub buckets : Map K (List ℕ)
  pub ops_since_sweep : ℕ

abbrev pub sweep_interval : ℕ
sweep_interval = 1024

abbrev pub empty_state : {K : Type 0} → BucketState K
empty_state = record { buckets = []; ops_since_sweep = 0 }

-- `now.duration_since(t) < window`: `duration_since` stops at zero.
abbrev pub recent : ℕ → ℕ → ℕ → Bool
recent window now t = ltb (now - t) window

abbrev pub bucket : {K : Type 0} ⦃o : Key K⦄ → K → BucketState K → List ℕ
bucket k s = get_or [] k s.buckets

module _ {K : Type 0} ⦃o : Key K⦄ (window : ℕ) where
  -- `HashMap::retain` over the buckets that have a recent time.
  unfoldable pub drop_lapsed : ℕ → Map K (List ℕ) → Map K (List ℕ)
  drop_lapsed now [] = []
  drop_lapsed now ((k, ts) ∷ m) =
      let rest = drop_lapsed now m in if any (recent window now) ts then (k, ts) ∷ rest else rest

  unfoldable pub swept : ℕ → BucketState K → BucketState K
  unfolding drop_lapsed
  swept now s =
      if leb sweep_interval (s.ops_since_sweep + 1)
      then record { buckets = drop_lapsed now s.buckets; ops_since_sweep = 0 }
      else record s { ops_since_sweep = s.ops_since_sweep + 1 }

  -- The bucket is trimmed in place, whatever the answer.
  unfoldable pub decide : ℕ → ℕ → K → BucketState K → Bool × BucketState K
  decide max_attempts now key s =
      let entry = retain (recent window now) (bucket key s) in
      if leb max_attempts (length entry)
      then (false, record s { buckets = insert key entry s.buckets })
      else (true, record s { buckets = insert key (entry ++ now ∷ []) s.buckets })

  unfoldable pub check : ℕ → ℕ → K → BucketState K → Bool × BucketState K
  unfolding swept decide
  check max_attempts now key s = decide max_attempts now key (swept now s)
