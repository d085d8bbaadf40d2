-- ===== src/Autoscale/Registry/Sums.antt =====
-- How the operations of the registry change sums over its replicas.
use denia.Prelude.{
  ℕ, ◌+◌, ◌*◌, ◌≤◌, ◌≡◌, refl, sym, ap, inl, inr, List, [], ◌∷◌, ◌++◌, arith, ◌==◌, if◌then◌else◌,
  length, Map, nat_key, lookup, get_or, Distinct, tally, at_key, tally-insert, insert-Distinct,
  length-append, Option-cases, ℕ_discrete,
}
use denia.Autoscale.Registry.{
  pending, Replica, ReplicaRegistry, add, drop_id, remove_replica, replicas,
}
use denia.Autoscale.Registry.Views.{
  occurs, occurrences, length-drop_id, occurs-append, occurs-drop_id_self, occurs-drop_id-le,
  tally-remove_replica, occurs-le-occurrences,
}

abbrev pub new_replica : ℕ → ℕ → ℕ → ℕ → ℕ → Replica
new_replica i s d x p = record {
  id = i;
  service_id = s;
  deployment_id = d;
  index = x;
  socket_path = p;
  state = pending;
}

pub add-Distinct :
    (g : ReplicaRegistry) (i s d x p : ℕ)
    → Distinct g.by_service
    → Distinct (add g i s d x p).by_service
unfolding add
add-Distinct g i s d x p h = insert-Distinct s _ g.by_service h

at_key-get_or :
    (f : ℕ → List Replica → ℕ) (s : ℕ) (m : Map ℕ (List Replica))
    → f s [] ≡ 0
    → at_key f s (lookup s m) ≡ f s (get_or [] s m)
unfolding get_or
at_key-get_or f s m z = elim (Option-cases (lookup s m)) [
  | inl e ↦ rw (e, get_or) (sym z)
  | inr (v, e) ↦ rw (e, get_or)
]

pub tally-add :
    (f : ℕ → List Replica → ℕ) (g : ReplicaRegistry) (i s d x p : ℕ)
    → f s [] ≡ 0
    → tally f (add g i s d x p).by_service + f s (replicas g s)
      ≡ tally f g.by_service + f s (replicas g s ++ new_replica i s d x p ∷ [])
unfolding add replicas
tally-add f g i s d x p z =
    rw (← at_key-get_or f s g.by_service z)
      (tally-insert f s (get_or [] s g.by_service ++ new_replica i s d x p ∷ []) g.by_service)

pub occurrences-add :
    (g : ReplicaRegistry) (i s d x p j : ℕ)
    → occurrences j (add g i s d x p).by_service
      ≡ occurrences j g.by_service + (if i == j then 1 else 0)
occurrences-add g i s d x p j = ground (
  arith,
  tally-add (λ k rs. occurs j rs) g i s d x p refl,
  occurs-append j (replicas g s) (new_replica i s d x p ∷ []),
)

-- A weight for each replica, by its service.
abbrev pub weigh : (ℕ → ℕ) → ℕ → List Replica → ℕ
weigh w k rs = length rs * w k

abbrev pub weight : (ℕ → ℕ) → ReplicaRegistry → ℕ
weight w g = tally (weigh w) g.by_service

pub weight-add :
    (w : ℕ → ℕ) (g : ReplicaRegistry) (i s d x p : ℕ)
    → weight w (add g i s d x p) ≡ weight w g + w s
weight-add w g i s d x p = omega (
  arith,
  tally-add (weigh w) g i s d x p (omega arith),
  ap (λ u. u * w s) (length-append (replicas g s) (new_replica i s d x p ∷ [])),
)

-- The weight that the replicas with one id have.
split_weight :
    (w : ℕ → ℕ) (i : ℕ) (m : Map ℕ (List Replica))
    → tally (λ k rs. length (drop_id i rs) * w k) m + tally (λ k rs. occurs i rs * w k) m
      ≡ tally (weigh w) m
split_weight w i [] = omega arith
split_weight w i ((k, rs) ∷ m) =
    omega (arith, ap (λ u. u * w k) (length-drop_id i rs), split_weight w i m)

weight_absent :
    (w : ℕ → ℕ) (i : ℕ) (m : Map ℕ (List Replica))
    → occurrences i m ≡ 0
    → tally (λ k rs. occurs i rs * w k) m ≡ 0
weight_absent w i [] h = refl
weight_absent w i ((k, rs) ∷ m) h =
    let z : occurs i rs ≡ 0 = omega arith in
    omega (arith, weight_absent w i m (omega arith), ap (λ u. u * w k) z)

weight_once :
    (w : ℕ → ℕ) (i s : ℕ) (m : Map ℕ (List Replica))
    → occurrences i m ≤ 1
    → occurs i (get_or [] s m) ≡ 1
    → tally (λ k rs. occurs i rs * w k) m ≡ w s
weight_once w i s [] le h = unfold get_or lookup in omega arith
weight_once w i s ((k, rs) ∷ m) le h = elim (ℕ_discrete k s) [
  | yes e ↦
      let here : occurs i rs ≡ 1 = unfold get_or lookup in ground arith in
      omega (arith, weight_absent w i m (omega arith), ap (λ u. u * w k) here, ap w e)
  | no ne ↦
      let there : occurs i (get_or [] s m) ≡ 1 = unfold get_or lookup in ground arith in
      let le' = occurs-le-occurrences i s m in
      let zero_here : occurs i rs ≡ 0 = omega arith in
      omega (arith, weight_once w i s m (omega arith) there, ap (λ u. u * w k) zero_here)
]

-- A replica that occurs once, in the service `s`, takes its weight with it.
pub weight-remove_replica :
    (w : ℕ → ℕ) (g : ReplicaRegistry) (i s : ℕ)
    → Distinct g.by_service
    → occurrences i g.by_service ≤ 1
    → occurs i (replicas g s) ≡ 1
    → weight w (remove_replica g i) + w s ≡ weight w g
weight-remove_replica w g i s d le h = omega (
  arith,
  tally-remove_replica (weigh w) g i (λ k. omega arith) d,
  split_weight w i g.by_service,
  weight_once w i s g.by_service le (unfold replicas in h),
)

occurrences_dropped :
    (i j : ℕ) (m : Map ℕ (List Replica))
    → (tally (λ k rs. occurs j (drop_id i rs)) m ≤ occurrences j m)
      × (tally (λ k rs. occurs i (drop_id i rs)) m ≡ 0)
occurrences_dropped i j [] = (omega arith, refl)
occurrences_dropped i j ((k, rs) ∷ m) =
    let r = occurrences_dropped i j m in
    (omega (arith, r.0, occurs-drop_id-le i j rs), omega (arith, r.1, occurs-drop_id_self i rs))

pub occurrences-remove_replica :
    (g : ReplicaRegistry) (i j : ℕ)
    → Distinct g.by_service
    → (occurrences j (remove_replica g i).by_service ≤ occurrences j g.by_service)
      × (occurrences i (remove_replica g i).by_service ≡ 0)
occurrences-remove_replica g i j d =
    let r = occurrences_dropped i j g.by_service in
    (
      omega (arith, r.0, tally-remove_replica (λ k rs. occurs j rs) g i (λ k. refl) d),
      omega (arith, r.1, tally-remove_replica (λ k rs. occurs i rs) g i (λ k. refl) d),
    )
