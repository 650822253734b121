-- ===== src/Tssrun/LiveEnv.antt =====
-- src/tssrun/handle.rs (`parse_environ`, `read_live_env_for_pid`): the environment of a live process.
use slurm_async_runner.Prelude.{
  ℕ, List, [], ◌∷◌, ◌++◌, Option, none, some, Bool, if◌then◌else◌, is_empty, All, Result, ok, err,
  ◌≡◌, ◌≢◌, refl, ap, ◌∙◌, arith, All-append,
}
use slurm_async_runner.Prelude.Text.{
  Text, codes, text_eq, split, split-append, split_once, split_once-append, Lacks, is_empty-append,
}
use slurm_async_runner.Prelude.Number.{show}

-- A `HashMap` as its entries, each key once.
unfoldable pub without : Text → List (Text × Text) → List (Text × Text)
without k [] = []
without k ((j, v) ∷ es) = let rest = without k es in if text_eq k j then rest else (j, v) ∷ rest

abbrev pub set : Text × Text → List (Text × Text) → List (Text × Text)
set e es = e ∷ without e.0 es

-- `from_utf8` is `std::str::from_utf8`: an entry that is no text, or has no `=`, is dropped.
module _ (from_utf8 : Text → Option Text) where
  abbrev pub entry_of : Text → Option (Text × Text)
  entry_of raw = elim (from_utf8 raw) [ none ↦ none | some s ↦ split_once b'=' s ]

  unfoldable pub add_entry : Text → List (Text × Text) → List (Text × Text)
  add_entry raw out =
      if is_empty raw then out else elim (entry_of raw) [ none ↦ out | some e ↦ set e out ]

  unfoldable pub add_entries : List Text → List (Text × Text) → List (Text × Text)
  unfolding add_entry
  add_entries [] out = out
  add_entries (raw ∷ rest) out = add_entries rest (add_entry raw out)

  unfoldable pub parse_environ : Text → List (Text × Text)
  unfolding add_entries
  parse_environ bytes = add_entries (split 0 bytes) []

-- `std::io::Error`, of which the code asks for two kinds.
pub data ReadError : Type 0 where
  missing : ReadError
  denied : ReadError
  other : (message : Text) → ReadError

unfoldable pub read_live_env_for_pid :
    (Text → Option Text)
    → Bool
    → (Text → Result ReadError Text)
    → ℕ
    → Result Text (Option (List (Text × Text)))
read_live_env_for_pid from_utf8 linux read pid =
    if linux
    then elim (read (codes "/proc/" ++ (show pid ++ codes "/environ"))) [
      | ok bytes ↦ ok (some (parse_environ from_utf8 bytes))
      | err missing ↦ ok none
      | err denied ↦ ok none
      | err (other message) ↦ err message
    ]
    else ok none

-- What the kernel shows for an environment: each entry with a zero byte behind it.
abbrev pub environ : List (Text × Text) → Text
environ [] = []
environ ((k, v) ∷ es) = (k ++ b'=' ∷ v) ++ 0 ∷ environ es

-- No zero byte, no `=` in a key, and text.
abbrev pub EntryIsValid : (Text → Option Text) → Text × Text → Type 0
EntryIsValid from_utf8 (k, v) =
    Lacks b'=' k × Lacks 0 k × Lacks 0 v × (from_utf8 (k ++ b'=' ∷ v) ≡ some (k ++ b'=' ∷ v))

-- The entries, each set behind those in front of it.
unfoldable pub set_all : List (Text × Text) → List (Text × Text) → List (Text × Text)
set_all [] out = out
set_all (e ∷ es) out = set_all es (set e out)

module _ (from_utf8 : Text → Option Text) where
  add_entry-valid :
      (k v : Text) (out : List (Text × Text))
      → Lacks b'=' k
      → from_utf8 (k ++ b'=' ∷ v) ≡ some (k ++ b'=' ∷ v)
      → add_entry from_utf8 (k ++ b'=' ∷ v) out ≡ set (k, v) out
  unfolding add_entry
  add_entry-valid k v out h text =
      rw (is_empty-append k b'=' v, text, split_once-append b'=' k v h) refl

  add_entries-environ :
      (es out : List (Text × Text))
      → All (EntryIsValid from_utf8) es
      → add_entries from_utf8 (split 0 (environ es)) out ≡ set_all es out
  unfolding add_entries add_entry set_all split
  add_entries-environ [] out h = refl
  add_entries-environ ((k, v) ∷ es) out ((lacks, zero_k, zero_v, text), hs) =
      let piece : Lacks 0 (k ++ b'=' ∷ v) =
        All-append (λ c. c ≢ 0) k (b'=' ∷ v) zero_k ((omega arith), zero_v) in
      ap (λ ps. add_entries from_utf8 ps out) (split-append 0 (k ++ b'=' ∷ v) (environ es) piece)
      ∙ ap (add_entries from_utf8 (split 0 (environ es))) (add_entry-valid k v out lacks text)
      ∙ add_entries-environ es (set (k, v) out) hs

  -- The environment of a process, as the kernel shows it, is read back: each entry is set, in
  -- their order, if it is text and has no zero byte, and no `=` in its key.
  pub parse_environ-environ :
      (es : List (Text × Text))
      → All (EntryIsValid from_utf8) es
      → parse_environ from_utf8 (environ es) ≡ set_all es []
  unfolding parse_environ
  parse_environ-environ es h = add_entries-environ es [] h
