-- ===== src/Options/Dependency.antt =====
-- src/entities/slurm/sbatch_options/dependency.rs: the `--dependency` option, printed and parsed.
pub mod RoundTrip
pub mod Sound
use slurm_async_runner.Prelude.{
  ℕ, ◌≤◌, List, [], ◌∷◌, ◌++◌, map, Option, none, some, All, is_empty, ok, err, ok_or, refuse_if,
  collect, ◌>>=◌, ◌>>◌, Bool, true, false, not, ◌&&◌, if◌then◌else◌, ◌≡◌,
}
use slurm_async_runner.Prelude.Text.{Text, codes, text_eq, contains, split_once, split, join}
use slurm_async_runner.Prelude.Number.{max_u32, parse_uint, show}
use slurm_async_runner.Schema.{Parsed, parse_error, SchemaParseError}

pub data DependencyType : Type 0 where
  after after_any after_burst_buffer after_corr after_not_ok after_ok singleton : DependencyType

unfoldable pub as_keyword : DependencyType → Text
as_keyword after = codes "after"
as_keyword after_any = codes "afterany"
as_keyword after_burst_buffer = codes "afterburstbuffer"
as_keyword after_corr = codes "aftercorr"
as_keyword after_not_ok = codes "afternotok"
as_keyword after_ok = codes "afterok"
as_keyword singleton = codes "singleton"

abbrev pub takes_jobs : DependencyType → Bool
takes_jobs singleton = false
takes_jobs _ = true

-- `matches!(dep_type, DependencyType::After)`.
abbrev pub allows_delay : DependencyType → Bool
allows_delay after = true
allows_delay _ = false

unfoldable pub parse_type : Text → Parsed DependencyType
unfolding text_eq
parse_type s =
    if text_eq s (codes "after")
    then ok after
    else if text_eq s (codes "afterany")
    then ok after_any
    else if text_eq s (codes "afterburstbuffer")
    then ok after_burst_buffer
    else if text_eq s (codes "aftercorr")
    then ok after_corr
    else if text_eq s (codes "afternotok")
    then ok after_not_ok
    else if text_eq s (codes "afterok")
    then ok after_ok
    else if text_eq s (codes "singleton")
    then ok singleton
    else err (parse_error (codes "dependency/type") s)

pub record DependencyJobRef : Type 0 where
  pub job_id : ℕ
  pub delay_minutes : Option ℕ

pub record DependencyClause : Type 0 where
  pub dep_type : DependencyType
  pub job_refs : List DependencyJobRef

pub data DependencyJoin : Type 0 where
  and_join or_join : DependencyJoin

pub record SlurmDependency : Type 0 where
  pub clauses : List DependencyClause
  pub combine : DependencyJoin

abbrev pub as_char : DependencyJoin → ℕ
as_char and_join = b','
as_char or_join = b'?'

show_delay : Option ℕ → Text
show_delay none = []
show_delay (some m) = b'+' ∷ show m

unfoldable pub show_ref : DependencyJobRef → Text
unfolding show_delay
show_ref r = show r.job_id ++ show_delay r.delay_minutes

-- The loop that writes `:<ref>` for each job.
show_refs : List DependencyJobRef → Text
show_refs [] = []
show_refs (r ∷ rs) = b':' ∷ (show_ref r ++ show_refs rs)

unfoldable pub show_clause : DependencyClause → Text
unfolding show_refs
show_clause c = as_keyword c.dep_type ++ show_refs c.job_refs

unfoldable pub show_dependency : SlurmDependency → Text
show_dependency d = join (as_char d.combine) (map show_clause d.clauses)

abbrev job_error : Text → SchemaParseError
job_error s = parse_error (codes "dependency/job_id") s

unfoldable pub parse_job_ref : Bool → Text → Parsed DependencyJobRef
parse_job_ref allow_delay s = do
  refuse_if (is_empty s) (job_error s)
  elim (split_once b'+' s) [
    | some (id, delay) ↦ do
      refuse_if (not allow_delay) (job_error s)
      job_id ← ok_or (parse_uint max_u32 id) (job_error s)
      minutes ← ok_or (parse_uint max_u32 delay) (job_error s)
      ok (record { job_id = job_id; delay_minutes = some minutes })
    | none ↦ do
      job_id ← ok_or (parse_uint max_u32 s) (job_error s)
      ok (record { job_id = job_id; delay_minutes = none })
  ]

abbrev clause_error : Text → SchemaParseError
clause_error s = parse_error (codes "dependency/clause") s

parse_jobs : Text → DependencyType → List Text → Parsed DependencyClause
parse_jobs s t raw_jobs =
    if takes_jobs t
    then (do
      refuse_if (is_empty raw_jobs) (clause_error s)
      refs ← collect (parse_job_ref (allows_delay t)) raw_jobs
      ok (record { dep_type = t; job_refs = refs }))
    else (do
      refuse_if (not (is_empty raw_jobs)) (clause_error s)
      ok (record { dep_type = t; job_refs = [] }))

parse_parts : Text → List Text → Parsed DependencyClause
unfolding parse_jobs
parse_parts s [] = err (clause_error s)
parse_parts s (head ∷ raw_jobs) = do t ← parse_type head; parse_jobs s t raw_jobs

unfoldable pub parse_clause : Text → Parsed DependencyClause
unfolding parse_parts
parse_clause s = do refuse_if (is_empty s) (clause_error s); parse_parts s (split b':' s)

abbrev dependency_error : Text → SchemaParseError
dependency_error s = parse_error (codes "dependency") s

unfoldable pub parse_dependency : Text → Parsed SlurmDependency
parse_dependency s = do
  refuse_if (is_empty s) (dependency_error s)
  let has_and = contains b',' s
  let has_or = contains b'?' s
  refuse_if (has_and && has_or) (dependency_error s)
  let combine = if has_or then or_join else and_join
  clauses ← collect parse_clause (split (as_char combine) s)
  refuse_if (is_empty clauses) (dependency_error s)
  ok (record { clauses = clauses; combine = combine })

-- The constraints that the parser enforces.
abbrev pub DelayIsValid : DependencyType → Option ℕ → Type 0
DelayIsValid t none = Unit
DelayIsValid t (some m) = (allows_delay t ≡ true) × (m ≤ max_u32)

pub record RefIsValid (t : DependencyType) (r : DependencyJobRef) : Type 0 where
  pub id_fits : r.job_id ≤ max_u32
  pub delay : DelayIsValid t r.delay_minutes

-- `singleton` stands alone; every other type names at least one job.
pub record ClauseIsValid (c : DependencyClause) : Type 0 where
  pub listed : is_empty c.job_refs ≡ not (takes_jobs c.dep_type)
  pub refs : All (RefIsValid c.dep_type) c.job_refs

pub record DependencyIsValid (d : SlurmDependency) : Type 0 where
  pub filled : is_empty d.clauses ≡ false
  pub valid : All ClauseIsValid d.clauses
