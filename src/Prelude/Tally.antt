-- ===== src/Prelude/Tally.antt =====
-- Maps with no key twice, and sums over their entries.
use denia.Prelude.Tests.{Option-cases}
use mathlib.Core.Bool.{false}
use mathlib.Core.Logic.{◌≢◌, inl, inr}
use denia.Prelude.Maps.{
  Key, Map, lookup, insert, insert_new, replace, remove, lookup-insert, lookup-insert_new,
  lookup-replace, lookup-remove,
}
use Prim.Native.Nat.{ℕ, ◌+◌}
use mathlib.Core.Path.{◌≡◌, refl}
use mathlib.Core.List.{[], ◌∷◌}
use mathlib.Core.Option.{Option, none, some}
use native.Mathlib.Omega.{arith}

module _ {K V : Type 0} ⦃o : Key K⦄ where
  -- Every key has one entry.
  abbrev pub Distinct : Map K V → Type 0
  Distinct [] = Unit {0}
  Distinct ((k, v) ∷ m) = (lookup k m ≡ none) × Distinct m

  abbrev pub tally : (K → V → ℕ) → Map K V → ℕ
  tally f [] = 0
  tally f ((k, v) ∷ m) = f k v + tally f m

  abbrev pub at_key : (K → V → ℕ) → K → Option V → ℕ
  at_key f k none = 0
  at_key f k (some v) = f k v

  lookup_absent :
      (k j : K) (v : V) (m : Map K V)
      → lookup k m ≡ none
      → lookup j m ≡ none
      → o.beq k j ≡ false
      → lookup j (insert k v m) ≡ none
  lookup_absent k j v m hk hj d = rw (lookup-insert k j v m, d) hj

  insert_new-Distinct :
      (k : K) (v : V) (m : Map K V) → lookup k m ≡ none → Distinct m → Distinct (insert_new k v m)
  unfolding insert_new lookup
  insert_new-Distinct k v [] e h = (refl, tt)
  insert_new-Distinct k v ((j, w) ∷ m) e h =
      ground
        (arith, o.beq_iff j k, o.beq_iff k j, insert_new-Distinct k v m, lookup-insert_new k j v m)

  replace-Distinct :
      (k : K) (v : V) (m : Map K V) → lookup k m ≢ none → Distinct m → Distinct (replace k v m)
  unfolding replace lookup
  replace-Distinct k v [] e h = h
  replace-Distinct k v ((j, w) ∷ m) e h =
      ground (arith, o.beq_iff j k, o.beq_iff k j, replace-Distinct k v m, lookup-replace k j v m)

  pub insert-Distinct : (k : K) (v : V) (m : Map K V) → Distinct m → Distinct (insert k v m)
  unfolding insert
  insert-Distinct k v m h = elim (Option-cases (lookup k m)) [
    | inl e ↦ rw (e, insert) (insert_new-Distinct k v m e h)
    | inr (w, e) ↦ rw (e, insert) (replace-Distinct k v m (rw e (λ c. cc)) h)
  ]

  tally-insert_new :
      (f : K → V → ℕ) (k : K) (v : V) (m : Map K V) → tally f (insert_new k v m) ≡ tally f m + f k v
  unfolding insert_new
  tally-insert_new f k v [] = omega arith
  tally-insert_new f k v ((j, w) ∷ m) = ground (arith, tally-insert_new f k v m)

  tally-replace :
      (f : K → V → ℕ) (k : K) (v w : V) (m : Map K V)
      → lookup k m ≡ some w
      → tally f (replace k v m) + f k w ≡ tally f m + f k v
  unfolding replace lookup
  tally-replace f k v w [] e = cc
  tally-replace f k v w ((j, u) ∷ m) e = ground (arith, o.beq_iff j k, tally-replace f k v w m)

  pub tally-insert :
      (f : K → V → ℕ) (k : K) (v : V) (m : Map K V)
      → tally f (insert k v m) + at_key f k (lookup k m) ≡ tally f m + f k v
  unfolding insert
  tally-insert f k v m = elim (Option-cases (lookup k m)) [
    | inl e ↦ rw (e, insert) (omega (arith, tally-insert_new f k v m))
    | inr (w, e) ↦ rw (e, insert) (tally-replace f k v w m e)
  ]

  lookup-none-remove : (k j : K) (m : Map K V) → lookup j m ≡ none → lookup j (remove k m) ≡ none
  lookup-none-remove k j m h = ground (arith, lookup-remove k j m)

  pub remove-Distinct : (k : K) (m : Map K V) → Distinct m → Distinct (remove k m)
  unfolding remove
  remove-Distinct k [] h = h
  remove-Distinct k ((j, w) ∷ m) h =
      ground (arith, remove-Distinct k m h.1, lookup-none-remove k j m h.0)

  remove_absent : (k : K) (m : Map K V) → lookup k m ≡ none → remove k m ≡ m
  unfolding remove lookup
  remove_absent k [] h = refl
  remove_absent k ((j, w) ∷ m) h = ground (arith, remove_absent k m)

  pub tally-remove :
      (f : K → V → ℕ) (k : K) (m : Map K V)
      → Distinct m
      → tally f (remove k m) + at_key f k (lookup k m) ≡ tally f m
  unfolding remove lookup
  tally-remove f k [] h = omega arith
  tally-remove f k ((j, w) ∷ m) h =
      ground (arith, o.beq_iff j k, tally-remove f k m h.1, remove_absent k m)
