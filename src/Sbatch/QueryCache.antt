-- ===== src/Sbatch/QueryCache.antt =====
-- src/sbatch/query_cache.rs: the dispatcher that answers queries from a shared batched cache. The
-- slot's lock is held for a whole `capture`, so each capture is one step on the slot.
pub mod Laws
pub mod Squeue
pub mod Sacct
pub mod Layers
use slurm_async_runner.Prelude.{
  ℕ, ◌-◌, ◌*◌, List, [], ◌∷◌, ◌++◌, map, Option, none, some, Bool, true, false, not, ◌&&◌, ◌||◌,
  if◌then◌else◌, Result, ok, err, ltb, keep,
}
use slurm_async_runner.Prelude.Text.{Text}
use slurm_async_runner.Dispatcher.{CaptureOutput, Capture, M}

-- `QueryShape`, with the `Eq` and `Ord` of its keys.
pub record Shape (K : Type 0) : Type 0 where
  pub same : K → K → Bool
  pub before : K → K → Bool
  pub parse : List Text → Option (List K)
  pub build : List K → List Text
  pub marker : Text

pub record CachedEntry (K : Type 0) : Type 0 where
  pub at : ℕ
  pub keys : List K
  pub result : Result Text CaptureOutput

pub record Slot (K : Type 0) : Type 0 where
  pub entry : Option (CachedEntry K)
  pub recent : List (K × ℕ)

-- The slot with the world around it.
pub record Cached (K W : Type 0) : Type 0 where
  pub slot : Slot K
  pub world : W

abbrev pub replay : Result Text CaptureOutput → Text → Result Text CaptureOutput
replay (ok out) marker = ok out
replay (err message) marker = err (message ++ b' ' ∷ marker)

module _ {K : Type 0} (shape : Shape K) where
  abbrev pub has : K → List K → Bool
  has k [] = false
  has k (x ∷ xs) = shape.same k x || has k xs

  abbrev pub covers : List K → List K → Bool
  covers keys [] = true
  covers keys (k ∷ ks) = has k keys && covers keys ks

  -- `recent.insert(key, now)` on a `HashMap`, for each requested key.
  stamp : ℕ → List K → List (K × ℕ) → List (K × ℕ)
  stamp now [] recent = recent
  stamp now (k ∷ ks) recent = stamp now ks ((k, now) ∷ keep (λ e. not (shape.same e.0 k)) recent)

  -- `retain(|_, at| at.elapsed() < window)`; `elapsed` saturates at zero.
  retain : ℕ → ℕ → List (K × ℕ) → List (K × ℕ)
  retain now window = keep (λ e. ltb (now - e.1) window)

  -- `sort_unstable` and `dedup`.
  insert_key : K → List K → List K
  insert_key k [] = k ∷ []
  insert_key k (x ∷ xs) =
      let rest = insert_key k xs in
      if shape.same k x then x ∷ xs else if shape.before k x then k ∷ x ∷ xs else x ∷ rest

  unfoldable pub sort_dedup : List K → List K
  unfolding insert_key
  sort_dedup [] = []
  sort_dedup (k ∷ ks) = insert_key k (sort_dedup ks)

  abbrev pub usable : ℕ → ℕ → List K → Option (CachedEntry K) → Bool
  usable now ttl requested none = false
  usable now ttl requested (some e) = ltb (now - e.at) ttl && covers e.keys requested

  abbrev replayed : Option (CachedEntry K) → Result Text CaptureOutput
  replayed none = err []
  replayed (some e) = replay e.result shape.marker

  -- The keys of a live query: the recent ones and the requested ones.
  unfoldable pub batch_of : ℕ → ℕ → List K → List (K × ℕ) → List K
  unfolding stamp retain sort_dedup
  batch_of now ttl requested recent =
      sort_dedup (map (λ e. e.0) (retain now (2 * ttl) (stamp now requested recent)) ++ requested)

  module _ {W : Type 0} (now : W → ℕ) (ttl : ℕ) (inner : Capture W) where
    live : List K → M (Cached K W) CaptureOutput
    unfolding batch_of
    live requested s =
        let batch = batch_of (now s.world) ttl requested s.slot.recent in
        let q = inner (shape.build batch) s.world in
        (
          q.0,
          record {
            slot = record {
              entry = some (record { at = now q.1; keys = batch; result = q.0 });
              recent = retain (now s.world) (2 * ttl) (stamp (now s.world) requested s.slot.recent);
            };
            world = q.1;
          },
        )

    serve : List K → M (Cached K W) CaptureOutput
    unfolding live
    serve requested s =
        if usable (now s.world) ttl requested s.slot.entry
        then (
          replayed s.slot.entry,
          record s {
            slot = record s.slot { recent = stamp (now s.world) requested s.slot.recent };
          },
        )
        else live requested s

    pass : List Text → M (Cached K W) CaptureOutput
    pass argv s = ((inner argv s.world).0, record s { world = (inner argv s.world).1 })

    unfoldable pub capture : List Text → M (Cached K W) CaptureOutput
    unfolding serve pass
    capture argv = elim (shape.parse argv) [ none ↦ pass argv | some requested ↦ serve requested ]
