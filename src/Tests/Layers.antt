-- ===== src/Tests/Layers.antt =====
-- Tests of the layer cache.
use denia.Prelude.{ℕ, false, ◌≡◌, refl, [], ◌∷◌, none, lookup, arith, get_or, remove, Distinct}
use denia.Ingress.Routes.{text_key, text_eq}
use denia.Oci.{
  Faults, Blob, LayerCache, verify_size, digest_of, empty_report, entry_of, reservation_count,
  sweep_once,
}
use denia.Oci.Sweep.{is_removed, left_of, sweep_once-Sweeps}
use denia.Oci.Reservation.{Event, drops, happen_all, happen_all-Kept}
use denia.Oci.Totals.{AddsUp, sweep_once-Adds}

abbrev layer : ℕ → Blob
layer t = record { len = 40; sha256 = 97 ∷ []; modified = t }

-- Two old layers, of which the second is reserved twice, and a recent one.
abbrev cache : LayerCache
cache = record {
  verify_on_hit = verify_size;
  blobs = (97 ∷ [], layer 50) ∷ (98 ∷ [], layer 50) ∷ (99 ∷ [], layer 95) ∷ [];
  lastrefs = (97 ∷ [], 60) ∷ [];
  reservations = (digest_of (98 ∷ []), 2) ∷ [];
}

-- The file of the second layer cannot be removed.
abbrev faults : Faults
faults = record {
  unreadable = λ name. false;
  stays = λ name. text_eq name (98 ∷ []);
  sidecar_stays = λ name. false;
}

cache-Distinct : Distinct cache.blobs
unfolding lookup text_eq
cache-Distinct = (refl, (refl, (refl, tt)))

sweep_once-Sweeps_example :
    lookup (97 ∷ []) (sweep_once faults [] 10 100 cache).0.blobs
    ≡ left_of
        (λ blob. is_removed faults [] 90 cache.reservations (entry_of cache (97 ∷ []) blob))
        (lookup (97 ∷ []) cache.blobs)
sweep_once-Sweeps_example = sweep_once-Sweeps faults [] 10 100 cache cache-Distinct (97 ∷ [])

old_deleted : lookup (97 ∷ []) (sweep_once faults [] 10 100 cache).0.blobs ≡ none
unfolding sweep_once lookup get_or text_eq remove
old_deleted = refl

happen_all-Kept_example :
    lookup
      (98 ∷ [])
      (happen_all
        (Event.dropped (digest_of (98 ∷ [])) ∷ Event.swept faults [] 10 100 ∷ [])
        cache).blobs
    ≡ lookup (98 ∷ []) cache.blobs
unfolding drops reservation_count get_or lookup text_eq
happen_all-Kept_example =
    happen_all-Kept (Event.dropped (digest_of (98 ∷ [])) ∷ Event.swept faults [] 10 100 ∷ []) cache
      (98 ∷ []) cache-Distinct (omega arith)

sweep_once-Adds_example :
    AddsUp faults [] 90 cache cache.blobs (cache, empty_report) (sweep_once faults [] 10 100 cache)
sweep_once-Adds_example = sweep_once-Adds faults [] 10 100 cache cache-Distinct
