-- ===== src/Ingress/Pool/Rotation.antt =====
-- The round robin over the healthy endpoints of a pool.
use native.Mathlib.Nat.{mod-add-mod, mod-lt, add_assoc}
use denia.Prelude.{
  ℕ, zero, suc, ◌+◌, ◌-◌, ◌%◌, ◌≤◌, ◌<◌, ◌≡◌, refl, ap, ◌∙◌, inl, inr, true, Option, some, arith,
  length, get_elem?, Option-cases, ℕ_discrete,
}
use denia.Ingress.Pool.Scan.{
  scan-Stops, scan_finds, next_some, Stops-le, offset_of, offset_lt, offset_mod, get_elem?-lt,
}
use denia.Ingress.Pool.{ReplicaEndpoint, ServicePool, healthy_path, scan, pool_next_socket}

-- The pool after some calls.
pub calls : ℕ → ServicePool → ServicePool
calls zero p = p
calls (suc n) p = calls n (pool_next_socket p).0

-- An index seen from the cursor after a pick `k` places on.
shift_mod : (c k d n : ℕ) → k < d → (((c + k) % n + 1) % n + (d - suc k)) % n ≡ (c + d) % n
shift_mod c k d n h =
    mod-add-mod ((c + k) % n + 1) n (d - suc k)
    ∙ ap (λ x. x % n) (add_assoc ((c + k) % n) 1 (d - suc k))
    ∙ mod-add-mod (c + k) n (1 + (d - suc k))
    ∙ ap (λ x. x % n) (omega arith)

-- The pick that a healthy endpoint at index `i` waits for.
abbrev pub Picked : ServicePool → ℕ → ℕ → ℕ → Type 0
Picked p n i path =
    pool_next_socket (calls n p) ≡ (record p { cursor = (i + 1) % length p.endpoints }, some path)

-- A healthy endpoint `d` places on from the cursor is picked after at most `d` other picks.
abbrev Fair : ServicePool → ℕ → ℕ → ℕ → Type 0
Fair p d i path =
    d < length p.endpoints
    → (p.cursor + d) % length p.endpoints ≡ i
    → healthy_path (get_elem? p.endpoints i) ≡ some path
    → (n : ℕ) × (n ≤ d) × Picked p n i path

one_more :
    (p p' : ServicePool) (d d' i path : ℕ)
    → p'.endpoints ≡ p.endpoints
    → (pool_next_socket p).0 ≡ p'
    → p' ≡ record p { cursor = p'.cursor }
    → d' < d
    → (n : ℕ) × (n ≤ d') × Picked p' n i path
    → (n : ℕ) × (n ≤ d) × Picked p n i path
unfolding calls
one_more p p' d d' i path es step same lt (n, le, r) =
    (suc n, omega arith, rw step (r ∙ ap (λ u. (u, some path)) (cursor_only same)))
  where
    cursor_only :
        p' ≡ record p { cursor = p'.cursor }
        → record p' { cursor = (i + 1) % length p'.endpoints }
          ≡ record p { cursor = (i + 1) % length p.endpoints }
    cursor_only e = ground (arith, ap (λ (u : ServicePool). u.last_activity) e)

Fair-at : (b : ℕ) (p : ServicePool) (d i path : ℕ) → d < b → Fair p d i path
Fair-at zero p d i path lt dl e h = absurd (omega arith)
Fair-at (suc b) p d i path lt dl e h =
    elim (Option-cases (scan p.endpoints p.cursor 0 (length p.endpoints))) [
      | inl none_found ↦ absurd (
          scan_finds p.endpoints p.cursor 0 (length p.endpoints) d path (omega arith) (omega arith)
            (rw e h) none_found)
      | inr ((idx, q), found) ↦
          picked idx q found
            (Stops-le p.endpoints p.cursor (length p.endpoints) idx q d path
              (scan-Stops p.endpoints p.cursor 0 (length p.endpoints) idx q found) (rw e h))
            (scan-Stops p.endpoints p.cursor 0 (length p.endpoints) idx q found).found
            (λ p' d' lt'. Fair-at b p' d' i path lt')
    ]
  where
    picked :
        (idx q : ℕ)
        → scan p.endpoints p.cursor 0 (length p.endpoints) ≡ some (idx, q)
        → (r : ℕ) × (r ≤ d) × (idx ≡ (p.cursor + r) % length p.endpoints)
        → healthy_path (get_elem? p.endpoints idx) ≡ some q
        → ((p' : ServicePool) (d' : ℕ) → d' < b → Fair p' d' i path)
        → (n : ℕ) × (n ≤ d) × Picked p n i path
    picked idx q found (r, le, at) hq rec = elim (ℕ_discrete r d) [
      | yes same ↦
          let here : idx ≡ i = at ∙ ap (λ u. (p.cursor + u) % length p.endpoints) same ∙ e in
          let eq : q ≡ path = cc in
          (0, omega arith, unfold calls in rw (next_some p idx q found, here, eq))
      | no less ↦
          let p' : ServicePool = record p { cursor = (idx + 1) % length p.endpoints } in
          one_more p p' d (d - suc r) i path refl
            (ap (λ (u : ServicePool × Option ℕ). u.0) (next_some p idx q found)) refl (omega arith)
            (rec p' (d - suc r) (omega arith) (omega arith)
              (rw at (shift_mod p.cursor r d (length p.endpoints) (omega arith) ∙ e)) h)
    ]

-- No healthy endpoint starves: whatever the cursor, the endpoint at any index that is healthy is
-- the one picked by one of the next `length endpoints` calls, which returns its socket and leaves
-- the cursor just behind it.
pub next_socket_fair :
    (p : ServicePool) (i : ℕ) (e : ReplicaEndpoint)
    → get_elem? p.endpoints i ≡ some e
    → e.healthy ≡ true
    → (n : ℕ) × (n < length p.endpoints) × Picked p n i e.socket_path
next_socket_fair p i e at h =
    let lt = get_elem?-lt p.endpoints i at in
    let d = offset_of (p.cursor % length p.endpoints) i (length p.endpoints) in
    let dl =
      offset_lt (p.cursor % length p.endpoints) i (length p.endpoints)
        (mod-lt p.cursor (omega arith)) lt in
    let r =
      Fair-at (suc d) p d i e.socket_path (omega arith) dl
        (offset_mod p.cursor i (length p.endpoints) lt) (rw at (rw h)) in
    (r.0, omega (arith, r.1), r.2)
