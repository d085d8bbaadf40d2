-- ===== src/Prelude/Maps.antt =====
-- `BTreeMap` as an association list in key order, over keys with a test of equality.
use Prim.Native.Nat.{ℕ}
use mathlib.Core.Path.{◌≡◌, refl}
use mathlib.Core.Logic.{◌↔◌, ◌≢◌, inl, inr}
use mathlib.Core.Bool.{Bool, true}
use mathlib.Core.List.{List, [], ◌∷◌}
use mathlib.Core.Option.{Option, none, some}
use native.Mathlib.Omega.{arith}
use denia.Prelude.Tests.{if◌then◌else◌, ltb, ◌==◌, ==_iff, Option-cases, Bool-cases}

pub record Key (K : Type 0) : Type 0 where
  pub beq : K → K → Bool
  pub precedes : K → K → Bool
  pub beq_iff : (a b : K) → (beq a b ≡ true) ↔ (a ≡ b)

instance abbrev pub nat_key : Key ℕ
nat_key = record { beq = ◌==◌; precedes = ltb; beq_iff = ==_iff }

abbrev pub Map : Type 0 → Type 0 → Type 0
Map K V = List (K × V)

pub beq_refl : {K : Type 0} ⦃o : Key K⦄ (k : K) → o.beq k k ≡ true
beq_refl ⦃o⦄ k = (o.beq_iff k k).1 refl

module _ {K V : Type 0} ⦃o : Key K⦄ where
  -- `get`.
  unfoldable pub lookup : K → Map K V → Option V
  lookup k [] = none
  lookup k ((j, v) ∷ m) = if o.beq j k then some v else lookup k m

  -- A new key goes before the first greater one.
  unfoldable pub insert_new : K → V → Map K V → Map K V
  insert_new k v [] = (k, v) ∷ []
  insert_new k v ((j, w) ∷ m) =
      if o.precedes k j then (k, v) ∷ (j, w) ∷ m else (j, w) ∷ insert_new k v m

  unfoldable pub replace : K → V → Map K V → Map K V
  replace k v [] = []
  replace k v ((j, w) ∷ m) = if o.beq j k then (k, v) ∷ m else (j, w) ∷ replace k v m

  unfoldable pub insert : K → V → Map K V → Map K V
  unfolding lookup
  insert k v m = elim (lookup k m) [ none ↦ insert_new k v m | some _ ↦ replace k v m ]

  unfoldable pub remove : K → Map K V → Map K V
  remove k [] = []
  remove k ((j, v) ∷ m) = if o.beq j k then remove k m else (j, v) ∷ remove k m

  unfoldable pub get_or : V → K → Map K V → V
  unfolding lookup
  get_or d k m = elim (lookup k m) [ none ↦ d | some v ↦ v ]

  pub lookup-insert_new :
      (k j : K) (v : V) (m : Map K V)
      → lookup k m ≡ none
      → lookup j (insert_new k v m) ≡ (if o.beq k j then some v else lookup j m)
  unfolding lookup insert_new
  lookup-insert_new k j v [] h = refl
  lookup-insert_new k j v ((i, w) ∷ m) h =
      ground (arith, o.beq_iff k j, o.beq_iff i k, o.beq_iff i j, lookup-insert_new k j v m)

  pub lookup-replace :
      (k j : K) (v : V) (m : Map K V)
      → lookup k m ≢ none
      → lookup j (replace k v m) ≡ (if o.beq k j then some v else lookup j m)
  unfolding lookup replace
  lookup-replace k j v [] h = absurd (h refl)
  lookup-replace k j v ((i, w) ∷ m) h =
      ground (arith, o.beq_iff k j, o.beq_iff i k, o.beq_iff i j, lookup-replace k j v m)

  pub lookup-insert :
      (k j : K) (v : V) (m : Map K V)
      → lookup j (insert k v m) ≡ (if o.beq k j then some v else lookup j m)
  unfolding insert
  lookup-insert k j v m = elim (Option-cases (lookup k m)) [
    | inl e ↦ rw (e, insert) (lookup-insert_new k j v m e)
    | inr (w, e) ↦ rw (e, insert) (lookup-replace k j v m (rw e (λ c. cc)))
  ]

  pub lookup-remove :
      (k j : K) (m : Map K V) → lookup j (remove k m) ≡ (if o.beq k j then none else lookup j m)
  unfolding lookup remove
  lookup-remove k j [] = ground arith
  lookup-remove k j ((i, w) ∷ m) =
      ground (arith, o.beq_iff k j, o.beq_iff i k, o.beq_iff i j, lookup-remove k j m)

  pub get_or-insert :
      (d : V) (k j : K) (v : V) (m : Map K V)
      → get_or d j (insert k v m) ≡ (if o.beq k j then v else get_or d j m)
  unfolding get_or
  get_or-insert d k j v m = elim (Bool-cases (o.beq k j)) [
    | inl e ↦ rw (lookup-insert k j v m, get_or) (rw e refl)
    | inr e ↦ rw (lookup-insert k j v m, get_or) (rw e refl)
  ]

  pub get_or-remove :
      (d : V) (k j : K) (m : Map K V)
      → get_or d j (remove k m) ≡ (if o.beq k j then d else get_or d j m)
  unfolding get_or
  get_or-remove d k j m = elim (Bool-cases (o.beq k j)) [
    | inl e ↦ rw (lookup-remove k j m, get_or) (rw e refl)
    | inr e ↦ rw (lookup-remove k j m, get_or) (rw e refl)
  ]
