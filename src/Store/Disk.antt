-- ===== src/Store/Disk.antt =====
-- src/store.rs: `FileSystemStateStore`. The file system, and how a uuid is written, are parameters.
pub mod Laws
pub mod Listing
use slurm_async_runner.Prelude.{
  ℕ, List, [], ◌∷◌, ◌++◌, Option, none, some, Bool, true, false, not, ◌&&◌, if◌then◌else◌, is_empty,
  ◌==◌, Result, ok, err,
}
use slurm_async_runner.Prelude.Text.{Text, codes, text_eq, split}
use slurm_async_runner.Dispatcher.{Effect, M, ◌>>=◌, ◌>>◌, pure, lift}
use slurm_async_runner.Store.{JobSnapshot, JobStateStore}
use slurm_async_runner.Store.Envelope.{Json, Serde, encode, decode_with_kind_check}

-- `std::io::Error`, of which the code asks for one kind only.
pub data IoError : Type 0 where
  not_found : IoError
  other : (message : Text) → IoError

-- Reading, writing by an atomic rename, listing and removing files. Listing gives each entry, or why it
-- could not be read.
pub record FileSystem (W : Type 0) : Type 0 where
  pub read : Text → Effect IoError W Text
  pub persist : Text → Text → M W (Unit {0})
  pub read_dir : Text → Effect IoError W (List (Result Text Text))
  pub remove_file : Text → Effect IoError W (Unit {0})

last_or : Text → List Text → Text
last_or t [] = t
last_or t (s ∷ ss) = last_or s ss

-- `s.rsplit_once(c)`.
rsplit_once : ℕ → Text → Option (Text × Text)
rsplit_once d [] = none
rsplit_once d (c ∷ s) = elim (rsplit_once d s) [
  | none ↦ if c == d then some ([], s) else none
  | some (p, r) ↦ some (c ∷ p, r)
]

-- `path.extension() == Some("json")`: what follows the last dot of the file's name, unless the name
-- begins with that dot.
unfoldable pub is_json : Text → Bool
unfolding last_or rsplit_once
is_json path = elim (rsplit_once b'.' (last_or [] (split b'/' path))) [
  | none ↦ false
  | some (stem, extension) ↦ not (is_empty stem) && text_eq extension (codes "json")
]

-- `root.join(name)` for a relative name.
pub join_path : Text → Text → Text
join_path [] name = name
join_path (c ∷ []) name = if c == b'/' then c ∷ name else c ∷ b'/' ∷ name
join_path (c ∷ d ∷ root) name = c ∷ join_path (d ∷ root) name

-- A step whose error the caller looks at.
abbrev attempt : {E F W A : Type 0} → Effect E W A → Effect F W (Result E A)
attempt m w = (ok (m w).0, (m w).1)

module _ {Value S W : Type 0} (json : Json Value) (serde : Serde Value S) (shape : JobSnapshot S)
    (fs : FileSystem W) (show_uuid : ℕ → Text) (root : Text) where
  unfoldable pub path_for : ℕ → Text
  unfolding join_path
  path_for uuid = join_path root (show_uuid uuid ++ codes ".json")

  unfoldable pub save : S → M W (Unit {0})
  save snap = do
    bytes ← lift (encode json serde shape snap)
    fs.persist (path_for (shape.uuid snap)) bytes

  -- What a load makes of the bytes, or of why there are none.
  loaded : Result IoError Text → Result Text (Option S)
  loaded (ok bytes) = decode_with_kind_check json serde shape bytes
  loaded (err not_found) = ok none
  loaded (err (other message)) = err message

  unfoldable pub load : ℕ → M W (Option S)
  unfolding loaded
  load uuid w = (loaded (fs.read (path_for uuid) w).0, (fs.read (path_for uuid) w).1)

  -- One file of the listing: other extensions, other kinds, and files that cannot be read or decoded
  -- are skipped.
  add : Result IoError Text → List S → List S
  add (err e) rest = rest
  add (ok bytes) rest = elim (decode_with_kind_check json serde shape bytes) [
    | err e ↦ rest
    | ok none ↦ rest
    | ok (some snap) ↦ snap ∷ rest
  ]

  -- The loop over the entries, which ends with the first entry that cannot be read.
  list_entries : List (Result Text Text) → M W (List S)
  unfolding add
  list_entries [] = pure []
  list_entries (err e ∷ entries) = lift (err e)
  list_entries (ok path ∷ entries) =
      let rest = list_entries entries in
      if is_json path
      then (do found ← attempt (fs.read path); snaps ← rest; pure (add found snaps))
      else rest

  list_dir : Result IoError (List (Result Text Text)) → M W (List S)
  unfolding list_entries
  list_dir (ok entries) = list_entries entries
  list_dir (err not_found) = pure []
  list_dir (err (other message)) = lift (err message)

  unfoldable pub list : M W (List S)
  unfolding list_dir
  list w = list_dir (fs.read_dir root w).0 (fs.read_dir root w).1

  deleted : Result IoError (Unit {0}) → Result Text (Unit {0})
  deleted (ok u) = ok u
  deleted (err not_found) = ok tt
  deleted (err (other message)) = err message

  unfoldable pub delete : ℕ → M W (Unit {0})
  unfolding deleted
  delete uuid w =
      (deleted (fs.remove_file (path_for uuid) w).0, (fs.remove_file (path_for uuid) w).1)

  abbrev pub on_disk : JobStateStore S W
  on_disk = record { save = save; load = load; list = list; delete = delete }
