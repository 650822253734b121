-- ===== src/Tests/Stores.antt =====
-- The theorems on the stores, applied to a small snapshot and to a directory that is a list of files.
use slurm_async_runner.Prelude.{
  ◌+◌, arith, ℕ, List, [], ◌∷◌, map, none, some, if◌then◌else◌, Result, ok, err, ◌≡◌, ◌≢◌, refl,
  sym, ap, Bool-cases, inl, inr,
}
use slurm_async_runner.Prelude.Text.{
  Text, codes, text_eq, text_eq_refl, text_eq_sound, split, Lacks-of_digits,
}
use slurm_async_runner.Prelude.Words.{trim}
use slurm_async_runner.Prelude.Number.{show, show-digits, parse_uint, parse_uint-show}
use slurm_async_runner.Status.Reason.{JobReason, parse, as_str, priority}
use slurm_async_runner.Store.Memory.{saved, deleted, after, in_memory}
use slurm_async_runner.Store.Memory.Refines.{IsValid, replay, in_memory_refines}
use slurm_async_runner.Store.Envelope.{encode, decode_with_kind_check}
use slurm_async_runner.Store.Envelope.Laws.{decode-other_kind}
use slurm_async_runner.Store.Disk.{
  IoError, not_found, FileSystem, save, load, list, is_json, join_path,
}
use slurm_async_runner.Store.Disk.Laws.{
  FileSystemIsLawful, NamesAreLawful, join_path-injective, load-save,
}
use slurm_async_runner.Store.Disk.Listing.{mine, foreign, list-own}
use slurm_async_runner.Tests.Json.{
  documents, documents-JsonIsLawful, Small, read_small, small, small_serde,
  small_serde-SerdeIsLawful, marked_object,
}

abbrev Files : Type 0
Files = List (Text × Text)

unfoldable read_file : Text → Files → Result IoError Text
read_file path [] = err not_found
read_file path ((p, bytes) ∷ files) =
    let rest = read_file path files in if text_eq path p then ok bytes else rest

abbrev directory : FileSystem Files
directory = record {
  read = λ path files. (read_file path files, files);
  persist = λ path bytes files. (ok tt, (path, bytes) ∷ files);
  read_dir = λ root files. (ok (map (λ f. ok f.0) files), files);
  remove_file = λ path files. (ok tt, files);
}

read_written :
    (path bytes : Text) (files : Files) → read_file path ((path, bytes) ∷ files) ≡ ok bytes
unfolding read_file
read_written path bytes files = rw (text_eq_refl path) refl

read_others :
    (path other bytes : Text) (files : Files)
    → other ≢ path
    → read_file other ((path, bytes) ∷ files) ≡ read_file other files
unfolding read_file
read_others path other bytes files n = elim (Bool-cases (text_eq other path)) [
  | inl e ↦ absurd (n (text_eq_sound other path e))
  | inr e ↦ rw e refl
]

directory-FileSystemIsLawful : FileSystemIsLawful directory
directory-FileSystemIsLawful = record {
  read-persist = λ path bytes w w' h. rw (sym (ap (λ q. q.1) h)) (read_written path bytes w);
  read-persist_other = λ root name other bytes w w' p p' n h. rw (sym (ap (λ q. q.1) h)) (
      read_others (join_path root name) (join_path root other) bytes w
        (λ same. n (join_path-injective root other name same)));
}

abbrev job_5 : Small
job_5 = record { uuid = 5; jobid = 70; reason = JobReason.other (codes "Priority") }

-- A reason that is written as a known one comes back as that.
read_small-job_5 : read_small job_5 ≡ record job_5 { reason = priority }
unfolding parse as_str text_eq trim
read_small-job_5 = refl

abbrev job_6 : Small
job_6 = record { uuid = 6; jobid = 71; reason = priority }

in_memory_refines_example :
    IsValid
      (small (codes "a"))
      (after (small (codes "a")) (saved job_5 ∷ saved job_6 ∷ deleted 5 ∷ []) [])
    × (((in_memory (small (codes "a"))).load 6
          (after (small (codes "a")) (saved job_5 ∷ saved job_6 ∷ deleted 5 ∷ []) [])).0
        ≡ ok
            (replay (small (codes "a")) (saved job_5 ∷ saved job_6 ∷ deleted 5 ∷ []) (λ v. none) 6))
in_memory_refines_example =
    in_memory_refines (small (codes "a")) (saved job_5 ∷ saved job_6 ∷ deleted 5 ∷ []) 6

read_show : (u v : ℕ) → show u ≡ show v → u ≡ v
read_show u v h =
    let p : parse_uint (u + v) (show u) ≡ some u = parse_uint-show (u + v) u (omega arith) in
    let q : parse_uint (u + v) (show v) ≡ some v = parse_uint-show (u + v) v (omega arith) in cc

show-NamesAreLawful : NamesAreLawful show
show-NamesAreLawful = record {
  show-injective = read_show;
  show-Lacks = λ u. Lacks-of_digits b'/' (show u) refl (show-digits u);
}

saves :
    (files : Files) × (save documents small_serde
        (small (codes "a"))
        directory
        show
        (codes "/jobs")
        job_5
        []
      ≡ (ok tt, files))
unfolding save encode marked_object
saves = (_, refl)

load-save_example :
    (load documents small_serde (small (codes "a")) directory show (codes "/jobs") 5 saves.0).0
    ≡ ok (some (read_small job_5))
load-save_example =
    load-save documents documents-JsonIsLawful small_serde read_small small_serde-SerdeIsLawful
      (small (codes "a")) directory directory-FileSystemIsLawful show (codes "/jobs") job_5 5 []
      saves.0 show-NamesAreLawful saves.1

encodes :
    (kind : Text) → (bytes : Text) × (encode documents small_serde (small kind) job_5 ≡ ok bytes)
unfolding encode marked_object
encodes kind = (_, refl)

decode-other_kind_example :
    decode_with_kind_check documents small_serde (small (codes "b")) (encodes (codes "a")).0
    ≡ ok none
unfolding text_eq
decode-other_kind_example =
    decode-other_kind documents documents-JsonIsLawful small_serde small_serde (small (codes "a"))
      (small (codes "b")) job_5 (encodes (codes "a")).0 (encodes (codes "a")).1 refl

abbrev shared : Files
shared =
    (codes "/jobs/1.json", (encodes (codes "a")).0)
    ∷ (codes "/jobs/2.json", (encodes (codes "b")).0)
    ∷ []

list-own_example :
    list documents small_serde (small (codes "a")) directory (λ u. u ∷ []) (codes "/jobs") shared
    ≡ (ok (read_small job_5 ∷ []), shared)
unfolding text_eq is_json split read_file
list-own_example =
    list-own documents documents-JsonIsLawful small_serde read_small small_serde-SerdeIsLawful
      small_serde (small (codes "a")) (small (codes "b")) directory (λ u. u ∷ []) (codes "/jobs")
      shared ((codes "/jobs/1.json", mine job_5) ∷ (codes "/jobs/2.json", foreign job_5) ∷ []) refl
      (
        (refl, ((encodes (codes "a")).0, (encodes (codes "a")).1, refl)),
        ((refl, ((encodes (codes "b")).0, (encodes (codes "b")).1, refl)), tt),
      )
      refl
