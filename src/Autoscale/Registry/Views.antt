-- ===== src/Autoscale/Registry/Views.antt =====
-- What each operation of the registry does to the replica lists, seen service by service.
use denia.Prelude.{
  ℕ, ◌+◌, ◌≤◌, ◌≡◌, ◌≢◌, refl, ap, ◌∙◌, inl, inr, true, false, not, Option, none, some, List, [],
  ◌∷◌, ◌++◌, arith, ◌==◌, ==_iff, if◌then◌else◌, length, any, Map, nat_key, lookup, get_or, ◌&&◌,
  lookup-insert, lookup-remove, Distinct, tally, at_key, tally-remove, remove-Distinct, ◌⊎◌,
}
use denia.Autoscale.Registry.{
  ReplicaState, pending, Replica, ReplicaRegistry, add, has_id, set_first, set_state_in, set_state,
  drop_id, drop_each, emptied_by, forget, remove_replica, replicas,
}

-- How often an id occurs in a list.
abbrev pub occurs : ℕ → List Replica → ℕ
occurs replica_id [] = 0
occurs replica_id (r ∷ rs) = (if has_id replica_id r then 1 else 0) + occurs replica_id rs

pub length-drop_id : (i : ℕ) (rs : List Replica) → length (drop_id i rs) + occurs i rs ≡ length rs
length-drop_id i [] = omega arith
length-drop_id i (r ∷ rs) = ground (arith, length-drop_id i rs)

pub drop_id_absent : (i : ℕ) (rs : List Replica) → occurs i rs ≡ 0 → drop_id i rs ≡ rs
drop_id_absent i [] h = refl
drop_id_absent i (r ∷ rs) h = ground (arith, drop_id_absent i rs)

pub occurs-append : (i : ℕ) (xs ys : List Replica) → occurs i (xs ++ ys) ≡ occurs i xs + occurs i ys
occurs-append i [] ys = omega arith
occurs-append i (x ∷ xs) ys = omega (arith, occurs-append i xs ys)

pub occurs-drop_id_self : (i : ℕ) (rs : List Replica) → occurs i (drop_id i rs) ≡ 0
occurs-drop_id_self i [] = refl
occurs-drop_id_self i (r ∷ rs) = ground (arith, occurs-drop_id_self i rs)

pub occurs-drop_id-le : (i j : ℕ) (rs : List Replica) → occurs j (drop_id i rs) ≤ occurs j rs
occurs-drop_id-le i j [] = omega arith
occurs-drop_id-le i j (r ∷ rs) = ground (arith, occurs-drop_id-le i j rs)

-- The new replica goes to the end of its service's list, and no other list changes.
pub replicas-add :
    (g : ReplicaRegistry) (i s d x p t : ℕ)
    → replicas (add g i s d x p) t ≡ (
        if s == t
        then replicas g s
          ++ record {
            id = i;
            service_id = s;
            deployment_id = d;
            index = x;
            socket_path = p;
            state = pending;
          }
            ∷ []
        else replicas g t)
unfolding replicas add get_or
replicas-add g i s d x p t =
    rw (lookup-insert s t _ g.by_service, get_or) (ground (arith, ==_iff s t))

length_zero : (rs : List Replica) → length rs ≡ 0 → rs ≡ []
length_zero [] h = refl
length_zero (r ∷ rs) h = absurd (omega arith)

lookup-drop_each :
    (i t : ℕ) (m : Map ℕ (List Replica)) → get_or [] t (drop_each i m) ≡ drop_id i (get_or [] t m)
unfolding drop_each get_or lookup
lookup-drop_each i t [] = refl
lookup-drop_each i t ((k, rs) ∷ m) = ground (arith, lookup-drop_each i t m)

lookup-drop_each-none :
    (i t : ℕ) (m : Map ℕ (List Replica)) → lookup t m ≡ none → lookup t (drop_each i m) ≡ none
unfolding drop_each lookup
lookup-drop_each-none i t [] h = refl
lookup-drop_each-none i t ((k, rs) ∷ m) h = ground (arith, lookup-drop_each-none i t m)

drop_each-Distinct : (i : ℕ) (m : Map ℕ (List Replica)) → Distinct m → Distinct (drop_each i m)
unfolding drop_each
drop_each-Distinct i [] h = h
drop_each-Distinct i ((k, rs) ∷ m) h = (lookup-drop_each-none i k m h.0, drop_each-Distinct i m h.1)

emptied_by-drops :
    (i s : ℕ) (m : Map ℕ (List Replica)) (e : Option ℕ)
    → Distinct m
    → emptied_by i m e ≡ some s
    → (e ≡ some s) ⊎ (lookup s (drop_each i m) ≡ some [])
unfolding emptied_by drop_each lookup
emptied_by-drops i s [] e h q = inl q
emptied_by-drops i s ((k, rs) ∷ m) e h q = ground (
  arith,
  emptied_by-drops i s m
      (if not (length (drop_id i rs) == length rs) && length (drop_id i rs) == 0 then some k else e)
      h.1 q,
  lookup-drop_each-none i k m h.0,
  length_zero (drop_id i rs),
)

forget-lookup :
    (i t : ℕ) (g : ReplicaRegistry) (e : Option ℕ)
    → Distinct g.by_service
    → emptied_by i g.by_service none ≡ e
    → get_or [] t (forget e (record g { by_service = drop_each i g.by_service })).by_service
      ≡ get_or [] t (drop_each i g.by_service)
unfolding forget
forget-lookup i t g none h q = refl
forget-lookup i t g (some s) h q = elim (emptied_by-drops i s g.by_service none h q) [
  | inl c ↦ cc
  | inr l ↦
      unfold get_or in ground (arith, ==_iff s t, lookup-remove s t (drop_each i g.by_service))
]

-- A removal takes the replica out of every list, and changes nothing else there.
pub replicas-remove_replica :
    (g : ReplicaRegistry) (i t : ℕ)
    → Distinct g.by_service
    → replicas (remove_replica g i) t ≡ drop_id i (replicas g t)
unfolding replicas remove_replica
replicas-remove_replica g i t h =
    forget-lookup i t g (emptied_by i g.by_service none) h refl ∙ lookup-drop_each i t g.by_service

forget-Distinct :
    (g : ReplicaRegistry) (e : Option ℕ) → Distinct g.by_service → Distinct (forget e g).by_service
unfolding forget
forget-Distinct g none h = h
forget-Distinct g (some s) h = remove-Distinct s g.by_service h

pub remove_replica-Distinct :
    (g : ReplicaRegistry) (i : ℕ) → Distinct g.by_service → Distinct (remove_replica g i).by_service
unfolding remove_replica
remove_replica-Distinct g i h =
    forget-Distinct (record g { by_service = drop_each i g.by_service })
      (emptied_by i g.by_service none) (drop_each-Distinct i g.by_service h)

-- A sum over the services after a removal is the sum over the shortened lists.
tally-drop_each :
    (f : ℕ → List Replica → ℕ) (i : ℕ) (m : Map ℕ (List Replica))
    → tally f (drop_each i m) ≡ tally (λ k rs. f k (drop_id i rs)) m
unfolding drop_each
tally-drop_each f i [] = refl
tally-drop_each f i ((k, rs) ∷ m) = omega (arith, tally-drop_each f i m)

forget-tally :
    (f : ℕ → List Replica → ℕ) (i : ℕ) (g : ReplicaRegistry) (e : Option ℕ)
    → ((k : ℕ) → f k [] ≡ 0)
    → Distinct g.by_service
    → emptied_by i g.by_service none ≡ e
    → tally f (forget e (record g { by_service = drop_each i g.by_service })).by_service
      ≡ tally f (drop_each i g.by_service)
unfolding forget
forget-tally f i g none z h q = refl
forget-tally f i g (some s) z h q = elim (emptied_by-drops i s g.by_service none h q) [
  | inl c ↦ cc
  | inr l ↦ omega (
    arith,
    tally-remove f s (drop_each i g.by_service) (drop_each-Distinct i g.by_service h),
    ap (at_key f s) l,
    z s,
  )
]

pub tally-remove_replica :
    (f : ℕ → List Replica → ℕ) (g : ReplicaRegistry) (i : ℕ)
    → ((k : ℕ) → f k [] ≡ 0)
    → Distinct g.by_service
    → tally f (remove_replica g i).by_service ≡ tally (λ k rs. f k (drop_id i rs)) g.by_service
unfolding remove_replica
tally-remove_replica f g i z h =
    forget-tally f i g (emptied_by i g.by_service none) z h refl ∙ tally-drop_each f i g.by_service

-- Set a state: every list keeps its length and its ids.
pub set_first-keeps :
    (i j : ℕ) (st : ReplicaState) (rs : List Replica)
    → (length (set_first i st rs) ≡ length rs) × (occurs j (set_first i st rs) ≡ occurs j rs)
unfolding set_first
set_first-keeps i j st [] = (refl, refl)
set_first-keeps i j st (r ∷ rs) =
    (ground (arith, set_first-keeps i j st rs), ground (arith, set_first-keeps i j st rs))

set_state_in-none :
    (i t : ℕ) (st : ReplicaState) (m : Map ℕ (List Replica))
    → lookup t m ≡ none
    → lookup t (set_state_in i st m) ≡ none
unfolding set_state_in lookup
set_state_in-none i t st [] h = h
set_state_in-none i t st ((k, rs) ∷ m) h = ground (arith, set_state_in-none i t st m)

set_state_in-Distinct :
    (i : ℕ) (st : ReplicaState) (m : Map ℕ (List Replica))
    → Distinct m
    → Distinct (set_state_in i st m)
unfolding set_state_in
set_state_in-Distinct i st [] h = h
set_state_in-Distinct i st ((k, rs) ∷ m) h =
    ground (arith, set_state_in-Distinct i st m, set_state_in-none i k st m)

pub set_state-Distinct :
    (g : ReplicaRegistry) (i : ℕ) (st : ReplicaState)
    → Distinct g.by_service
    → Distinct (set_state g i st).by_service
unfolding set_state
set_state-Distinct g i st h = set_state_in-Distinct i st g.by_service h

-- How often an id occurs in the whole registry.
abbrev pub occurrences : ℕ → Map ℕ (List Replica) → ℕ
occurrences i = tally (λ k rs. occurs i rs)

pub occurs-le-occurrences :
    (i t : ℕ) (m : Map ℕ (List Replica)) → occurs i (get_or [] t m) ≤ occurrences i m
unfolding get_or lookup
occurs-le-occurrences i t [] = omega arith
occurs-le-occurrences i t ((k, rs) ∷ m) = ground (arith, occurs-le-occurrences i t m)

pub set_first_absent :
    (i : ℕ) (st : ReplicaState) (rs : List Replica) → occurs i rs ≡ 0 → set_first i st rs ≡ rs
unfolding set_first
set_first_absent i st [] h = refl
set_first_absent i st (r ∷ rs) h = ground (arith, set_first_absent i st rs)

occurs-any : (i : ℕ) (rs : List Replica) → any (has_id i) rs ≡ true → 1 ≤ occurs i rs
occurs-any i [] h = cc
occurs-any i (r ∷ rs) h = ground (arith, occurs-any i rs)

any_absent : (i : ℕ) (rs : List Replica) → any (has_id i) rs ≡ false → occurs i rs ≡ 0
any_absent i [] h = refl
any_absent i (r ∷ rs) h = ground (arith, any_absent i rs)

lookup-set_state_in :
    (i t : ℕ) (st : ReplicaState) (m : Map ℕ (List Replica))
    → occurrences i m ≤ 1
    → get_or [] t (set_state_in i st m) ≡ set_first i st (get_or [] t m)
unfolding set_state_in get_or lookup set_first
lookup-set_state_in i t st [] h = refl
lookup-set_state_in i t st ((k, rs) ∷ m) h = ground (
  arith,
  lookup-set_state_in i t st m,
  occurs-any i rs,
  any_absent i rs,
  set_first_absent i st rs,
  set_first_absent i st (get_or [] t m),
  occurs-le-occurrences i t m,
)

-- Where the id is unique, `set_state` reaches it in whichever service has it.
pub replicas-set_state :
    (g : ReplicaRegistry) (i t : ℕ) (st : ReplicaState)
    → occurrences i g.by_service ≤ 1
    → replicas (set_state g i st) t ≡ set_first i st (replicas g t)
unfolding replicas set_state
replicas-set_state g i t st h = lookup-set_state_in i t st g.by_service h

tally-set_state_in :
    (f : ℕ → List Replica → ℕ) (i : ℕ) (st : ReplicaState) (m : Map ℕ (List Replica))
    → ((k : ℕ) (rs : List Replica) → f k (set_first i st rs) ≡ f k rs)
    → tally f (set_state_in i st m) ≡ tally f m
unfolding set_state_in
tally-set_state_in f i st [] keep = refl
tally-set_state_in f i st ((k, rs) ∷ m) keep =
    ground (arith, keep k rs, tally-set_state_in f i st m keep)

-- Sums that do not read the states are kept.
pub tally-set_state :
    (f : ℕ → List Replica → ℕ) (g : ReplicaRegistry) (i : ℕ) (st : ReplicaState)
    → ((k : ℕ) (rs : List Replica) → f k (set_first i st rs) ≡ f k rs)
    → tally f (set_state g i st).by_service ≡ tally f g.by_service
unfolding set_state
tally-set_state f g i st keep = tally-set_state_in f i st g.by_service keep

-- Two services share the occurrences of an id.
pub occurs_apart :
    (i s t : ℕ) (m : Map ℕ (List Replica))
    → s ≢ t
    → occurs i (get_or [] s m) + occurs i (get_or [] t m) ≤ occurrences i m
unfolding get_or lookup
occurs_apart i s t [] ne = omega arith
occurs_apart i s t ((k, rs) ∷ m) ne =
    ground
      (arith, occurs_apart i s t m ne, occurs-le-occurrences i s m, occurs-le-occurrences i t m)
