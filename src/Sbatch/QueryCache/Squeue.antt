-- ===== src/Sbatch/QueryCache/Squeue.antt =====
-- src/sbatch/query_cache.rs (`JobKey`) and src/sbatch/squeue_cache.rs: the shape of the batched
-- squeue query.
use slurm_async_runner.Prelude.{
  ℕ, ◌≤◌, List, [], ◌∷◌, ◌++◌, map, Option, none, some, Bool, true, false, ◌&&◌, ◌||◌,
  if◌then◌else◌, ◌≡◌, ◌≢◌, refl, sym, ap, ◌∙◌, ◌==◌, ltb, arith, All, is_empty, All-of_map,
  All-append,
}
use slurm_async_runner.Prelude.Text.{
  Text, codes, text_eq, split, split_once, split_once-append, split_once_of_Lacks, join, Lacks,
  split-join_of_filled,
}
use slurm_async_runner.Prelude.Number.{
  show, parse_uint, parse_uint-show, show-Lacks, max_u64, max_u32,
}
use slurm_async_runner.Sbatch.QueryCache.{Shape}
use slurm_async_runner.Sbatch.QueryCache.Laws.{SameIsEquality}
use slurm_async_runner.Runner.{csv_join}
use slurm_async_runner.Runner.Query.{squeue_argv, task_key}

pub data JobKey : Type 0 where
  plain : (id : ℕ) → JobKey
  array_task : (master index : ℕ) → JobKey

abbrev task_of : Option ℕ → Option ℕ → Option JobKey
task_of (some master) (some index) = some (array_task master index)
task_of _ _ = none

abbrev plain_of : Option ℕ → Option JobKey
plain_of none = none
plain_of (some id) = some (plain id)

-- `JobKey::parse`.
unfoldable pub parse_key : Text → Option JobKey
parse_key token = elim (split_once b'_' token) [
  | none ↦ plain_of (parse_uint max_u64 token)
  | some (master, index) ↦ task_of (parse_uint max_u64 master) (parse_uint max_u32 index)
]

unfoldable pub show_key : JobKey → Text
show_key (plain id) = show id
show_key (array_task master index) = show master ++ b'_' ∷ show index

-- `collect::<Option<Vec<_>>>()`.
parse_keys : List Text → Option (List JobKey)
parse_keys [] = some []
parse_keys (t ∷ ts) = elim (parse_key t) [
  | none ↦ none
  | some k ↦ elim (parse_keys ts) [ none ↦ none | some ks ↦ some (k ∷ ks) ]
]

unfoldable pub parse_csv : Text → Option (List JobKey)
unfolding parse_keys
parse_csv csv = parse_keys (split b',' csv)

unfoldable pub build_csv : List JobKey → Text
build_csv batch = join b',' (map show_key batch)

-- `SqueueSummaryShape::parse`.
unfoldable pub parse_argv : List Text → Option (List JobKey)
parse_argv (program ∷ h ∷ r ∷ j ∷ keys ∷ o ∷ format ∷ []) =
    if text_eq program (codes "squeue")
      && text_eq h (codes "-h")
      && text_eq r (codes "-r")
      && text_eq j (codes "-j")
      && text_eq o (codes "-o")
      && text_eq format (codes "%i %T %r")
    then parse_csv keys
    else none
parse_argv _ = none

unfoldable pub build_argv : List JobKey → List Text
build_argv batch =
    codes "squeue"
    ∷ codes "-h"
    ∷ codes "-r"
    ∷ codes "-j"
    ∷ build_csv batch
    ∷ codes "-o"
    ∷ codes "%i %T %r"
    ∷ []

abbrev pub same_key : JobKey → JobKey → Bool
same_key (plain a) (plain b) = a == b
same_key (plain a) (array_task m i) = false
same_key (array_task m i) (plain b) = false
same_key (array_task m i) (array_task n j) = m == n && i == j

-- The derived `Ord`: plain keys first, and tasks by master, then index.
abbrev pub before_key : JobKey → JobKey → Bool
before_key (plain a) (plain b) = ltb a b
before_key (plain a) (array_task m i) = true
before_key (array_task m i) (plain b) = false
before_key (array_task m i) (array_task n j) = ltb m n || (m == n && ltb i j)

abbrev pub squeue_shape : Shape JobKey
squeue_shape = record {
  same = same_key;
  before = before_key;
  parse = parse_argv;
  build = build_argv;
  marker = codes "(replayed from squeue batch cache)";
}

-- The ranges of the key's numbers.
abbrev pub KeyIsValid : JobKey → Type 0
KeyIsValid (plain id) = id ≤ max_u64
KeyIsValid (array_task master index) = (master ≤ max_u64) × (index ≤ max_u32)

parse-show_key : (k : JobKey) → KeyIsValid k → parse_key (show_key k) ≡ some k
unfolding parse_key show_key
parse-show_key (plain id) v =
    rw
      (
        parse_key,
        split_once_of_Lacks b'_' (show id) (show-Lacks b'_' id refl),
        parse_uint-show max_u64 id v,
      )
      refl
parse-show_key (array_task master index) v =
    rw
      (
        parse_key,
        split_once-append b'_' (show master) (show index) (show-Lacks b'_' master refl),
        parse_uint-show max_u64 master v.0,
        parse_uint-show max_u32 index v.1,
      )
      refl

parse_keys-show :
    (batch : List JobKey) → All KeyIsValid batch → parse_keys (map show_key batch) ≡ some batch
unfolding parse_keys
parse_keys-show [] v = refl
parse_keys-show (k ∷ ks) v = rw (parse_keys, parse-show_key k v.0, parse_keys-show ks v.1) refl

show_key-Lacks : (k : JobKey) → Lacks b',' (show_key k)
unfolding show_key
show_key-Lacks (plain id) = show-Lacks b',' id refl
show_key-Lacks (array_task m i) =
    All-append (λ c. c ≢ b',') (show m) (b'_' ∷ show i) (show-Lacks b',' m refl)
      (omega arith, show-Lacks b',' i refl)

is_empty-map_key :
    (batch : List JobKey) → is_empty batch ≡ false → is_empty (map show_key batch) ≡ false
is_empty-map_key [] e = e
is_empty-map_key (k ∷ ks) e = refl

pub parse-build_csv :
    (batch : List JobKey)
    → is_empty batch ≡ false
    → All KeyIsValid batch
    → parse_csv (build_csv batch) ≡ some batch
unfolding parse_csv build_csv
parse-build_csv batch e v =
    rw
      (split-join_of_filled b',' (map show_key batch) (is_empty-map_key batch e)
        (All-of_map (Lacks b',') show_key batch show_key-Lacks))
      (parse_keys-show batch v)

-- The command that the cache builds for a batch is one that it recognises, and it asks for that batch:
-- every key keeps its kind and its numbers.
pub parse_argv-build_argv :
    (batch : List JobKey)
    → is_empty batch ≡ false
    → All KeyIsValid batch
    → parse_argv (build_argv batch) ≡ some batch
unfolding parse_argv build_argv text_eq
parse_argv-build_argv batch e v = parse-build_csv batch e v

plain-show : (ids : List ℕ) → map show_key (map plain ids) ≡ map show ids
unfolding show_key
plain-show [] = refl
plain-show (id ∷ ids) = rw (plain-show ids) refl

valid_plain : (ids : List ℕ) → All (λ id. id ≤ max_u64) ids → All KeyIsValid (map plain ids)
valid_plain [] v = tt
valid_plain (id ∷ ids) v = (v.0, valid_plain ids v.1)

is_empty-plain : (ids : List ℕ) → is_empty ids ≡ false → is_empty (map plain ids) ≡ false
is_empty-plain [] e = e
is_empty-plain (id ∷ ids) e = refl

pub parse-csv_join :
    (ids : List ℕ)
    → is_empty ids ≡ false
    → All (λ id. id ≤ max_u64) ids
    → parse_csv (csv_join ids) ≡ some (map plain ids)
unfolding csv_join build_csv
parse-csv_join ids e v =
    let same : build_csv (map plain ids) ≡ csv_join ids = ap (join b',') (plain-show ids) in
    ap parse_csv (sym same)
    ∙ parse-build_csv (map plain ids) (is_empty-plain ids e) (valid_plain ids v)

parse-task_key :
    (master index : ℕ)
    → master ≤ max_u64
    → index ≤ max_u32
    → parse_csv (task_key master index) ≡ some (array_task master index ∷ [])
unfolding task_key build_csv show_key join
parse-task_key master index m i = parse-build_csv (array_task master index ∷ []) refl ((m, i), tt)

-- The command of the batch queries and that of the query for one array task are recognised by the
-- squeue cache, with the keys that were asked for.
pub parse_argv-squeue_argv :
    (ids : List ℕ) (master index : ℕ)
    → is_empty ids ≡ false
    → All (λ id. id ≤ max_u64) ids
    → master ≤ max_u64
    → index ≤ max_u32
    → (parse_argv (squeue_argv (csv_join ids)) ≡ some (map plain ids))
      × (parse_argv (squeue_argv (task_key master index)) ≡ some (array_task master index ∷ []))
unfolding parse_argv squeue_argv text_eq
parse_argv-squeue_argv ids master index e v m i =
    (parse-csv_join ids e v, parse-task_key master index m i)

-- The equality test of the squeue keys is their equality.
pub squeue_shape-SameIsEquality : SameIsEquality squeue_shape
squeue_shape-SameIsEquality = record { same_refl = reflexive; same_sound = sound }
  where
    reflexive : (a : JobKey) → same_key a a ≡ true
    reflexive (plain a) = ground arith
    reflexive (array_task m i) = ground arith

    sound : (a b : JobKey) → same_key a b ≡ true → a ≡ b
    sound (plain a) (plain b) h = ap plain (ground arith)
    sound (plain a) (array_task m i) h = absurd (cc)
    sound (array_task m i) (plain b) h = absurd (cc)
    sound (array_task m i) (array_task n j) h =
        let p : m ≡ n = ground arith in let q : i ≡ j = ground arith in rw (p, q) refl
