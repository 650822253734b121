-- ===== src/Store/Disk/Listing.antt =====
-- A directory that two kinds of snapshots share: each store lists its own.
use slurm_async_runner.Prelude.{
  List, [], ◌∷◌, map, true, false, Result, ok, err, All, ◌≡◌, refl, ◌∙◌, ℕ,
}
use slurm_async_runner.Prelude.Text.{Text, text_eq}
use slurm_async_runner.Dispatcher.{>>=-of_ok, pure}
use slurm_async_runner.Store.{JobSnapshot}
use slurm_async_runner.Store.Envelope.{Json, Serde, encode}
use slurm_async_runner.Store.Envelope.Laws.{
  JsonIsLawful, SerdeIsLawful, decode-encode, decode-other_kind,
}
use slurm_async_runner.Store.Disk.{FileSystem, other, add, list_entries, list_dir, list, is_json}

-- A file in the directory: one with a snapshot, one with a snapshot of another kind, one that cannot be
-- read, or one that is no JSON file.
pub data Stored (S T : Type 0) : Type 0 where
  mine : S → Stored S T
  foreign : T → Stored S T
  unreadable : Text → Stored S T
  no_json : Stored S T

abbrev pub own : {S T : Type 0} → List (Text × Stored S T) → List S
own [] = []
own ((p, mine s) ∷ files) = s ∷ own files
own ((p, _) ∷ files) = own files

module _ {Value S T W : Type 0} (json : Json Value) (law : JsonIsLawful json)
    (serde : Serde Value S) (read : S → S) (serde_law : SerdeIsLawful json serde read)
    (serde' : Serde Value T) (shape : JobSnapshot S) (shape' : JobSnapshot T) (fs : FileSystem W)
    (show_uuid : ℕ → Text) (root : Text) where
  -- What a read of the file gives, in the world of the listing.
  abbrev pub Holds : W → Text × Stored S T → Type 0
  Holds w (p, mine s) =
      (is_json p ≡ true)
      × ((bytes : Text) × (encode json serde shape s ≡ ok bytes) × (fs.read p w ≡ (ok bytes, w)))
  Holds w (p, foreign t) =
      (is_json p ≡ true)
      × ((bytes : Text) × (encode json serde' shape' t ≡ ok bytes) × (fs.read p w ≡ (ok bytes, w)))
  Holds w (p, unreadable e) = (is_json p ≡ true) × (fs.read p w ≡ (err (other e), w))
  Holds w (p, no_json) = is_json p ≡ false

  abbrev entry : Text × Stored S T → Result Text Text
  entry file = ok file.0

  list_entries-own :
      (w : W) (files : List (Text × Stored S T))
      → text_eq shape'.kind shape.kind ≡ false
      → All (Holds w) files
      → list_entries json serde shape fs show_uuid root (map entry files) w
        ≡ (ok (map read (own files)), w)
  unfolding list_entries add
  list_entries-own w [] n h = refl
  list_entries-own w ((p, mine s) ∷ files) n ((j, (bytes, e, r)), hs) =
      rw (j, r)
        (>>=-of_ok (list_entries json serde shape fs show_uuid root (map entry files))
            (λ snaps. pure (add json serde shape fs show_uuid root (ok bytes) snaps)) w w
            (map read (own files)) (list_entries-own w files n hs)
          ∙ rw (add, decode-encode json law serde read serde_law shape s bytes e) refl)
  list_entries-own w ((p, foreign t) ∷ files) n ((j, (bytes, e, r)), hs) =
      rw (j, r)
        (>>=-of_ok (list_entries json serde shape fs show_uuid root (map entry files))
            (λ snaps. pure (add json serde shape fs show_uuid root (ok bytes) snaps)) w w
            (map read (own files)) (list_entries-own w files n hs)
          ∙ rw (add, decode-other_kind json law serde' serde shape' shape t bytes e n) refl)
  list_entries-own w ((p, unreadable e) ∷ files) n ((j, r), hs) =
      rw (j, r)
        (>>=-of_ok (list_entries json serde shape fs show_uuid root (map entry files))
          (λ snaps. pure (add json serde shape fs show_uuid root (err (other e)) snaps)) w w
          (map read (own files)) (list_entries-own w files n hs))
  list_entries-own w ((p, no_json) ∷ files) n (j, hs) = rw (j, list_entries-own w files n hs) refl

  -- In a directory with snapshots of two kinds, with files that cannot be read, and with files that are
  -- no JSON files, a store lists the snapshots of its own kind, as their serde impls read them, in the
  -- order of the directory, and does not fail.
  pub list-own :
      (w : W) (files : List (Text × Stored S T))
      → text_eq shape'.kind shape.kind ≡ false
      → All (Holds w) files
      → fs.read_dir root w ≡ (ok (map entry files), w)
      → list json serde shape fs show_uuid root w ≡ (ok (map read (own files)), w)
  unfolding list list_dir
  list-own w files n h d = rw d (list_entries-own w files n h)
