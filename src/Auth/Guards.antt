-- ===== src/Auth/Guards.antt =====
-- What the guards let through, and what they hide.
use Prim.Native.String.{String}
use denia.Prelude.{
  ℕ, ◌≤◌, ◌<◌, ◌≡◌, ◌↔◌, refl, inl, inr, ◌⊎◌, Bool, true, false, Option, none, some, arith, leb,
  leb→le, if◌then◌else◌, Outcome, ok, err, Bool-cases,
}
use denia.Auth.{
  Role, rank, Principal, ApiError, state, forbidden, not_found, from_auth, require_project_role,
  checked, as_user, ensure_role, mask, ensure_role_or_not_found,
}

abbrev denied : Outcome (Unit {0}) ApiError
denied = err (forbidden "forbidden")

module _ (role_for : ℕ → ℕ → Outcome (Option Role) String) where
  -- Who may act: a super administrator, or a user whose role in the project is high enough.
  abbrev pub Permitted : Principal → ℕ → Role → Type 0
  Permitted p project min =
      (p.is_super_admin ≡ true)
      ⊎ ((u : ℕ) × (r : Role) × (p.user_id ≡ some u)
          × (role_for u project ≡ ok (some r))
          × (rank min ≤ rank r))

  as_user-Permitted :
      (p : Principal) (project : ℕ) (min : Role) (o : Option ℕ)
      → p.is_super_admin ≡ false
      → p.user_id ≡ o
      → as_user role_for p project min o ≡ ok tt
      → Permitted p project min
  unfolding require_project_role from_auth
  as_user-Permitted p project min none f e h = cc
  as_user-Permitted p project min (some u) f e h = go (role_for u project) refl h
    where
      go :
          (x : Outcome (Option Role) String)
          → role_for u project ≡ x
          → checked role_for p min x ≡ ok tt
          → Permitted p project min
      go (err s) q h = cc
      go (ok none) q h = let bad : denied ≡ ok tt = rw f at h in cc
      go (ok (some r)) q h = elim (Bool-cases (leb (rank min) (rank r))) [
        | inl high ↦ inr (u, r, e, q, leb→le (rank min) (rank r) high)
        | inr low ↦ let bad : denied ≡ ok tt = rw (f, low) at h in cc
      ]

  Permitted-ensure_role :
      (p : Principal) (project : ℕ) (min : Role)
      → Permitted p project min
      → ensure_role role_for p project min ≡ ok tt
  unfolding ensure_role require_project_role
  Permitted-ensure_role p project min (inl super) = rw super refl
  Permitted-ensure_role p project min (inr (u, r, e, q, le)) = elim (Bool-cases p.is_super_admin) [
    | inl super ↦ rw super refl
    | inr plain ↦
        let high : leb (rank min) (rank r) ≡ true = ground arith in
        rw (plain, e) (rw (q, high) refl)
  ]

  -- `ensure_role` lets exactly those through who may act: super administrators, and users whose
  -- role in the project, as it is stored, is at least the one required. An error of the repository
  -- lets nobody else through.
  pub ensure_role_iff :
      (p : Principal) (project : ℕ) (min : Role)
      → (ensure_role role_for p project min ≡ ok tt) ↔ Permitted p project min
  unfolding ensure_role
  ensure_role_iff p project min = (go p.is_super_admin refl, Permitted-ensure_role p project min)
    where
      go :
          (b : Bool)
          → p.is_super_admin ≡ b
          → (if b then ok tt else as_user role_for p project min p.user_id) ≡ ok tt
          → Permitted p project min
      go true e h = inl e
      go false e h = as_user-Permitted p project min p.user_id e refl h

  -- Who is not to learn that the project has what was asked for: someone who is no super
  -- administrator and no user, or a user without a role in the project or with a lower one.
  abbrev pub Hidden : Principal → ℕ → Role → Type 0
  Hidden p project min =
      (p.is_super_admin ≡ false)
      × ((p.user_id ≡ none)
          ⊎ ((u : ℕ) × (p.user_id ≡ some u)
              × ((role_for u project ≡ ok none)
                  ⊎ ((r : Role) × (role_for u project ≡ ok (some r)) × (rank r < rank min)))))

  -- A user whose role cannot be read.
  abbrev pub Unread : Principal → ℕ → String → Type 0
  Unread p project e =
      (p.is_super_admin ≡ false) × (u : ℕ) × (p.user_id ≡ some u) × (role_for u project ≡ err e)

  -- What the masked guard answers, and to whom.
  abbrev pub Masked : Principal → ℕ → Role → String → Outcome (Unit {0}) ApiError → Type 0
  Masked p project min msg o =
      ((o ≡ ok tt) × Permitted p project min)
      ⊎ (((o ≡ err (not_found msg)) × Hidden p project min)
          ⊎ ((e : String) × (o ≡ err (state e)) × Unread p project e))

  checked-Masked :
      (p : Principal) (project : ℕ) (min : Role) (msg : String) (u : ℕ)
      (x : Outcome (Option Role) String)
      → p.is_super_admin ≡ false
      → p.user_id ≡ some u
      → role_for u project ≡ x
      → Masked p project min msg (mask role_for msg (checked role_for p min x))
  unfolding require_project_role from_auth
  checked-Masked p project min msg u (err e) f q h = inr (inr (e, refl, (f, u, q, h)))
  checked-Masked p project min msg u (ok none) f q h = inr (inl (rw f refl, (f, inr (u, q, inl h))))
  checked-Masked p project min msg u (ok (some r)) f q h =
      elim (Bool-cases (leb (rank min) (rank r))) [
        | inl high ↦ inl (rw (f, high) refl, inr (u, r, q, h, leb→le (rank min) (rank r) high))
        | inr low ↦ inr (inl (rw (f, low) refl, (f, inr (u, q, inr (r, h, ground (arith, low))))))
      ]

  -- The masked guard answers Ok to exactly those who may act, NotFound with the given message to
  -- exactly those without a high enough role, and the error of the repository to exactly the users
  -- whose role cannot be read.
  pub ensure_role_or_not_found_masks :
      (p : Principal) (project : ℕ) (min : Role) (msg : String)
      → Masked p project min msg (ensure_role_or_not_found role_for p project min msg)
  unfolding ensure_role_or_not_found ensure_role
  ensure_role_or_not_found_masks p project min msg = go p.is_super_admin refl
    where
      as_user-Masked :
          (o : Option ℕ)
          → p.is_super_admin ≡ false
          → p.user_id ≡ o
          → Masked p project min msg (mask role_for msg (as_user role_for p project min o))
      as_user-Masked none plain q = inr (inl (refl, (plain, inl q)))
      as_user-Masked (some u) plain q =
          checked-Masked p project min msg u (role_for u project) plain q refl

      go :
          (b : Bool)
          → p.is_super_admin ≡ b
          → Masked p project min msg
              (mask role_for msg (if b then ok tt else as_user role_for p project min p.user_id))
      go true super = inl (refl, inl super)
      go false plain = as_user-Masked p.user_id plain refl
