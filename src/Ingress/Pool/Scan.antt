-- ===== src/Ingress/Pool/Scan.antt =====
-- One scan of a pool for a healthy endpoint.
use native.Mathlib.Nat.{mod-add-mod, mod-lt, mod-eq_of_lt, add-mod_right}
use denia.Prelude.{
  ℕ, zero, suc, ◌+◌, ◌-◌, ◌%◌, ◌≤◌, ◌<◌, ◌≡◌, ◌≢◌, ◌↔◌, ◌⊎◌, refl, sym, ap, ◌∙◌, inl, inr, Option,
  none, some, List, [], ◌∷◌, arith, leb, if◌then◌else◌, length, get_elem?, retain, Option-cases,
  Bool-cases, ℕ_discrete, dec_lt,
}
use denia.Ingress.Pool.{
  ReplicaEndpoint, ServicePool, healthy_path, scan, pool_next_socket, pool_healthy_count,
}

-- What a scan that stops tells: the offset it stopped at, and that it passed over no healthy one.
pub record Stops (es : List ReplicaEndpoint) (cursor offset left idx path : ℕ) : Type 0 where
  pub at : ℕ
  pub from : offset ≤ at
  pub before : at < offset + left
  pub index : idx ≡ (cursor + at) % length es
  pub found : healthy_path (get_elem? es idx) ≡ some path
  pub skipped :
      (k : ℕ) → offset ≤ k → k < at → healthy_path (get_elem? es ((cursor + k) % length es)) ≡ none

pub scan_miss :
    (es : List ReplicaEndpoint) (c off left : ℕ)
    → healthy_path (get_elem? es ((c + off) % length es)) ≡ none
    → scan es c off (suc left) ≡ scan es c (suc off) left
unfolding scan
scan_miss es c off left h = rw (h, scan)

pub scan_hit :
    (es : List ReplicaEndpoint) (c off left path : ℕ)
    → healthy_path (get_elem? es ((c + off) % length es)) ≡ some path
    → scan es c off (suc left) ≡ some ((c + off) % length es, path)
unfolding scan
scan_hit es c off left path h = rw (h, scan)

-- A missed offset in front of a scan that stops.
passed :
    (es : List ReplicaEndpoint) (c off left idx path : ℕ)
    → healthy_path (get_elem? es ((c + off) % length es)) ≡ none
    → Stops es c (suc off) left idx path
    → Stops es c off (suc left) idx path
passed es c off left idx path e r = record {
  at = r.at;
  from = omega (arith, r.from);
  before = omega (arith, r.before);
  index = r.index;
  found = r.found;
  skipped =
      λ k lo hi. elim (ℕ_discrete k off) [ yes q ↦ rw q e | no q ↦ r.skipped k (omega arith) hi ];
}

pub scan-Stops :
    (es : List ReplicaEndpoint) (c off left idx path : ℕ)
    → scan es c off left ≡ some (idx, path)
    → Stops es c off left idx path
scan-Stops es c off zero idx path h = unfold scan in cc
scan-Stops es c off (suc left) idx path h =
    elim (Option-cases (healthy_path (get_elem? es ((c + off) % length es)))) [
      | inl e ↦
          passed es c off left idx path e
            (scan-Stops es c (suc off) left idx path (sym (scan_miss es c off left e) ∙ h))
      | inr (p, e) ↦
          let q = sym (scan_hit es c off left p e) ∙ h in
          let i : idx ≡ (c + off) % length es = cc in
          record {
            at = off;
            from = omega arith;
            before = omega arith;
            index = i;
            found = rw i (cc);
            skipped = λ k lo hi. absurd (omega arith);
          }
    ]

-- A healthy endpoint within the offsets of a scan makes it stop.
pub scan_finds :
    (es : List ReplicaEndpoint) (c off left d path : ℕ)
    → off ≤ d
    → d < off + left
    → healthy_path (get_elem? es ((c + d) % length es)) ≡ some path
    → scan es c off left ≢ none
scan_finds es c off zero d path lo hi h = absurd (omega arith)
scan_finds es c off (suc left) d path lo hi h =
    elim (Option-cases (healthy_path (get_elem? es ((c + off) % length es)))) [
      | inl e ↦
          rw (scan_miss es c off left e)
            (scan_finds es c (suc off) left d path (after e) (omega arith) h)
      | inr (p, e) ↦ rw (scan_hit es c off left p e) (λ q. cc)
    ]
  where
    after : healthy_path (get_elem? es ((c + off) % length es)) ≡ none → suc off ≤ d
    after e = elim (ℕ_discrete d off) [ yes q ↦ absurd (clash (rw q at h) e) | no q ↦ omega arith ]
      where
        clash : {A : Type 0} {a : A} {x : Option A} → x ≡ some a → ¬ (x ≡ none)
        clash p q = cc

pub next_some :
    (p : ServicePool) (idx path : ℕ)
    → scan p.endpoints p.cursor 0 (length p.endpoints) ≡ some (idx, path)
    → pool_next_socket p ≡ (record p { cursor = (idx + 1) % length p.endpoints }, some path)
unfolding pool_next_socket
next_some p idx path h = rw (h, pool_next_socket)

pub next_none :
    (p : ServicePool)
    → scan p.endpoints p.cursor 0 (length p.endpoints) ≡ none
    → pool_next_socket p ≡ (p, none)
unfolding pool_next_socket
next_none p h = rw (h, pool_next_socket)

pub some-ne-none {ℓ} : {A : Type ℓ} {a : A} {x : Option A} → x ≡ some a → ¬ (x ≡ none)
some-ne-none p q = cc

-- A scan does not pass over a healthy endpoint.
pub Stops-le :
    (es : List ReplicaEndpoint) (c left idx q d path : ℕ)
    → Stops es c 0 left idx q
    → healthy_path (get_elem? es ((c + d) % length es)) ≡ some path
    → (r : ℕ) × (r ≤ d) × (idx ≡ (c + r) % length es)
Stops-le es c left idx q d path r h = elim (dec_lt d r.at) [
  | yes lt ↦ absurd (some-ne-none h (r.skipped d (omega arith) lt))
  | no ge ↦ (r.at, omega arith, r.index)
]

-- How far an index lies from the cursor.
pub offset_of : ℕ → ℕ → ℕ → ℕ
offset_of c0 i n = if leb c0 i then i - c0 else i + n - c0

pub offset_lt : (c0 i n : ℕ) → c0 < n → i < n → offset_of c0 i n < n
unfolding offset_of
offset_lt c0 i n h k = ground arith

reaches :
    (c0 i n : ℕ) → c0 < n → i < n → (c0 + offset_of c0 i n ≡ i) ⊎ (c0 + offset_of c0 i n ≡ i + n)
unfolding offset_of
reaches c0 i n h k = ground arith

pub offset_mod : (c i n : ℕ) → i < n → (c + offset_of (c % n) i n) % n ≡ i
offset_mod c i n h =
    sym (mod-add-mod c n (offset_of (c % n) i n))
    ∙ elim (reaches (c % n) i n (mod-lt c (omega arith)) h) [
      | inl e ↦ ap (λ u. u % n) e ∙ mod-eq_of_lt h
      | inr e ↦ ap (λ u. u % n) e ∙ add-mod_right i n ∙ mod-eq_of_lt h
    ]

pub get_elem?-lt {ℓ} :
    {A : Type ℓ} (xs : List A) (i : ℕ) {a : A} → get_elem? xs i ≡ some a → i < length xs
get_elem?-lt [] i h = cc
get_elem?-lt (x ∷ xs) zero h = omega arith
get_elem?-lt (x ∷ xs) (suc i) h = omega (arith, get_elem?-lt xs i h)

-- Where the pool has a healthy endpoint, and only there.
healthy_at :
    (es : List ReplicaEndpoint)
    → 1 ≤ length (retain (λ e. e.healthy) es)
    → (i : ℕ) × (path : ℕ) × (healthy_path (get_elem? es i) ≡ some path)
healthy_at [] h = absurd (omega arith)
healthy_at (e ∷ es) h = elim (Bool-cases e.healthy) [
  | inl up ↦ (0, e.socket_path, rw up)
  | inr down ↦ let (i, path, q) = healthy_at es (ground arith) in (suc i, path, q)
]

none_healthy :
    (es : List ReplicaEndpoint)
    → length (retain (λ e. e.healthy) es) ≡ 0
    → (i : ℕ) → healthy_path (get_elem? es i) ≡ none
none_healthy [] h i = refl
none_healthy (e ∷ es) h zero = ground arith
none_healthy (e ∷ es) h (suc i) = none_healthy es (ground arith) i

-- A healthy endpoint at index `i` is met by the scan of the whole pool.
scan_meets :
    (p : ServicePool) (i path : ℕ)
    → healthy_path (get_elem? p.endpoints i) ≡ some path
    → i < length p.endpoints
    → scan p.endpoints p.cursor 0 (length p.endpoints) ≢ none
scan_meets p i path h lt =
    let n = length p.endpoints in
    scan_finds p.endpoints p.cursor 0 n (offset_of (p.cursor % n) i n) path (omega arith)
      (omega (arith, offset_lt (p.cursor % n) i n (mod-lt p.cursor (omega arith)) lt))
      (rw (offset_mod p.cursor i n lt) h)

healthy_path-lt :
    (es : List ReplicaEndpoint) (i : ℕ) {path : ℕ}
    → healthy_path (get_elem? es i) ≡ some path
    → i < length es
healthy_path-lt [] i h = cc
healthy_path-lt (e ∷ es) zero h = omega arith
healthy_path-lt (e ∷ es) (suc i) h = omega (arith, healthy_path-lt es i h)

scan-none :
    (p : ServicePool)
    → length (retain (λ e. e.healthy) p.endpoints) ≡ 0
    → scan p.endpoints p.cursor 0 (length p.endpoints) ≡ none
scan-none p h = elim (Option-cases (scan p.endpoints p.cursor 0 (length p.endpoints))) [
  | inl e ↦ e
  | inr ((idx, q), e) ↦ absurd (
      some-ne-none (scan-Stops p.endpoints p.cursor 0 (length p.endpoints) idx q e).found
        (none_healthy p.endpoints h idx))
]

-- A call on the pool gives no socket exactly when no endpoint of the pool is healthy.
pub next_socket_none :
    (p : ServicePool) → ((pool_next_socket p).1 ≡ none) ↔ (pool_healthy_count p ≡ 0)
unfolding pool_healthy_count
next_socket_none p =
    (to, λ h. ap (λ (u : ServicePool × Option ℕ). u.1) (next_none p (scan-none p h)))
  where
    to : (pool_next_socket p).1 ≡ none → pool_healthy_count p ≡ 0
    to h = elim (Option-cases (scan p.endpoints p.cursor 0 (length p.endpoints))) [
      | inl e ↦ elim (ℕ_discrete (length (retain (λ e. e.healthy) p.endpoints)) 0) [
        | yes z ↦ z
        | no z ↦
            let (i, path, q) = healthy_at p.endpoints (omega arith) in
            absurd (scan_meets p i path q (healthy_path-lt p.endpoints i q) e)
      ]
      | inr ((idx, q), e) ↦
          absurd (some-ne-none (ap (λ (u : ServicePool × Option ℕ). u.1) (next_some p idx q e)) h)
    ]

-- A socket that a call gives is that of an endpoint that is healthy, at the index just before the
-- new cursor; the endpoints and the time of the last request stay as they were.
pub next_socket_sound :
    (p : ServicePool) (path : ℕ)
    → (pool_next_socket p).1 ≡ some path
    → (i : ℕ) × (healthy_path (get_elem? p.endpoints i) ≡ some path)
      × ((pool_next_socket p).0 ≡ record p { cursor = (i + 1) % length p.endpoints })
next_socket_sound p path h =
    elim (Option-cases (scan p.endpoints p.cursor 0 (length p.endpoints))) [
      | inl e ↦ absurd (some-ne-none h (ap (λ (u : ServicePool × Option ℕ). u.1) (next_none p e)))
      | inr ((idx, q), e) ↦
          let step = next_some p idx q e in
          let same : q ≡ path = cc (ap (λ (u : ServicePool × Option ℕ). u.1) step) in
          (
            idx,
            rw (← same) (scan-Stops p.endpoints p.cursor 0 (length p.endpoints) idx q e).found,
            ap (λ (u : ServicePool × Option ℕ). u.0) step,
          )
    ]
