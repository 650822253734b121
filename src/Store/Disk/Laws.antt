-- ===== src/Store/Disk/Laws.antt =====
-- A store on disk reads what it wrote, one file for each uuid, and lists its own snapshots only.
use mathlib.Core.List.{append_cancel_right}
use slurm_async_runner.Prelude.{
  ◌∷◌, [], All-append, ◌++◌, ℕ, [], ◌∷◌, some, if◌then◌else◌, ◌==◌, Result, ok, err, ◌≡◌, ◌≢◌, refl,
  arith, Bool-cases, inl, inr, ==_iff,
}
use slurm_async_runner.Prelude.Text.{Text, codes, Lacks}
use slurm_async_runner.Dispatcher.{◌>>=◌, lift}
use slurm_async_runner.Store.{JobSnapshot}
use slurm_async_runner.Store.Envelope.{Json, Serde, encode}
use slurm_async_runner.Store.Envelope.Laws.{JsonIsLawful, SerdeIsLawful, decode-encode}
use slurm_async_runner.Store.Disk.{FileSystem, join_path, path_for, save, load, loaded}

-- What the store relies on: a file that was written by an atomic rename holds its bytes, and the entries
-- of the same directory with other names stay as they are. That two paths with different directories
-- name different files is not relied on.
pub record FileSystemIsLawful {W : Type 0} (fs : FileSystem W) : Type 0 where
  pub read-persist :
      (path bytes : Text) (w w' : W)
      → fs.persist path bytes w ≡ (ok tt, w')
      → (fs.read path w').0 ≡ ok bytes
  pub read-persist_other :
      (root name other bytes : Text) (w w' : W)
      → Lacks b'/' name
      → Lacks b'/' other
      → other ≢ name
      → fs.persist (join_path root name) bytes w ≡ (ok tt, w')
      → (fs.read (join_path root other) w').0 ≡ (fs.read (join_path root other) w).0

-- Different uuids are printed differently, and without a slash.
pub record NamesAreLawful (show_uuid : ℕ → Text) : Type 0 where
  pub show-injective : (u v : ℕ) → show_uuid u ≡ show_uuid v → u ≡ v
  pub show-Lacks : (u : ℕ) → Lacks b'/' (show_uuid u)

-- Different names in a directory have different paths.
pub join_path-injective : (root s t : Text) → join_path root s ≡ join_path root t → s ≡ t
unfolding join_path
join_path-injective [] s t h = h
join_path-injective (c ∷ []) s t h = elim (Bool-cases (c == b'/')) [
  | inl e ↦ ground arith
  | inr e ↦ ground arith
]
join_path-injective (c ∷ d ∷ root) s t h = join_path-injective (d ∷ root) s t (cc)

file_name-Lacks : (s : Text) → Lacks b'/' s → Lacks b'/' (s ++ codes ".json")
file_name-Lacks s h = All-append (λ c. c ≢ b'/') s (codes ".json") h (omega arith)

module _ {Value S W : Type 0} (json : Json Value) (law : JsonIsLawful json) (serde : Serde Value S)
    (read : S → S) (serde_law : SerdeIsLawful json serde read) (shape : JobSnapshot S)
    (fs : FileSystem W) (fs_law : FileSystemIsLawful fs) (show_uuid : ℕ → Text) (root : Text) where
  save-inv :
      (s : S) (w w' : W)
      → save json serde shape fs show_uuid root s w ≡ (ok tt, w')
      → (bytes : Text) × (encode json serde shape s ≡ ok bytes)
        × (fs.persist (path_for json serde shape fs show_uuid root (shape.uuid s)) bytes w
            ≡ (ok tt, w'))
  unfolding save
  save-inv s w w' h = by_bytes (encode json serde shape s) refl h
    where
      by_bytes :
          (r : Result Text Text)
          → encode json serde shape s ≡ r
          → (lift r >>= λ bytes.
                fs.persist (path_for json serde shape fs show_uuid root (shape.uuid s)) bytes)
              w
            ≡ (ok tt, w')
          → (bytes : Text) × (encode json serde shape s ≡ ok bytes)
            × (fs.persist (path_for json serde shape fs show_uuid root (shape.uuid s)) bytes w
                ≡ (ok tt, w'))
      by_bytes (ok bytes) e q = (bytes, e, q)
      by_bytes (err x) e q = absurd (cc)

  -- A snapshot that was saved without an error is what a load of its uuid returns, as its serde impls
  -- read it; every other uuid loads what it loaded before. Different uuids are printed differently and
  -- without a slash.
  pub load-save :
      (s : S) (v : ℕ) (w w' : W)
      → NamesAreLawful show_uuid
      → save json serde shape fs show_uuid root s w ≡ (ok tt, w')
      → (load json serde shape fs show_uuid root v w').0 ≡ (
          if v == shape.uuid s
          then ok (some (read s))
          else (load json serde shape fs show_uuid root v w).0)
  unfolding load loaded path_for
  load-save s v w w' names h =
      let (bytes, p, q) = save-inv s w w' h in
      elim (Bool-cases (v == shape.uuid s)) [
        | inl e ↦
            let same : v ≡ shape.uuid s = (==_iff v (shape.uuid s)).0 e in
            rw (e, same, fs_law.read-persist _ bytes w w' q)
              (decode-encode json law serde read serde_law shape s bytes p)
        | inr e ↦
            let differs : v ≢ shape.uuid s = λ same. ground arith in
            rw
              (
                e,
                fs_law.read-persist_other root (show_uuid (shape.uuid s) ++ codes ".json")
                    (show_uuid v ++ codes ".json") bytes w w'
                    (file_name-Lacks (show_uuid (shape.uuid s)) (names.show-Lacks (shape.uuid s)))
                    (file_name-Lacks (show_uuid v) (names.show-Lacks v))
                    (λ same. differs (
                      names.show-injective v (shape.uuid s) (
                        append_cancel_right (show_uuid v) (show_uuid (shape.uuid s)) (codes ".json")
                          same)))
                    q,
              )
              refl
      ]
