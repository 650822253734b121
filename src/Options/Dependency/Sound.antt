-- ===== src/Options/Dependency/Sound.antt =====
-- What the `--dependency` parser accepts.
use slurm_async_runner.Prelude.{
  ℕ, ◌≤◌, List, [], ◌∷◌, Option, none, some, All, is_empty, ok, refuse_if, collect, true, false,
  not, ◌&&◌, ◌≡◌, arith, collect-All, is_empty-collect, Bool-cases, inl, inr, >>=-eq-ok,
}
use mathlib.Core.Path.{subst}
use slurm_async_runner.Prelude.Text.{Text, contains, split}
use slurm_async_runner.Prelude.Number.{max_u32, parse_uint-le}
use slurm_async_runner.Options.Dependency.{
  DependencyType, takes_jobs, allows_delay, parse_type, DependencyJobRef, DependencyClause,
  SlurmDependency, as_char, parse_job_ref, parse_jobs, parse_parts, parse_clause, parse_dependency,
  DelayIsValid, RefIsValid, ClauseIsValid, DependencyIsValid,
}

parse_job_ref-parts :
    (t : DependencyType) (s : Text) (id : ℕ) (m : Option ℕ)
    → parse_job_ref (allows_delay t) s ≡ ok (record { job_id = id; delay_minutes = m })
    → (id ≤ max_u32) × DelayIsValid t m
unfolding parse_job_ref
parse_job_ref-parts t s id none h = grind (arith, parse_uint-le max_u32)
parse_job_ref-parts t s id (some m) h = grind (arith, parse_uint-le max_u32)

parse_job_ref-RefIsValid :
    (t : DependencyType) (s : Text) (r : DependencyJobRef)
    → parse_job_ref (allows_delay t) s ≡ ok r
    → RefIsValid t r
parse_job_ref-RefIsValid t s r h =
    let (p, q) = parse_job_ref-parts t s r.job_id r.delay_minutes h in
    record { id_fits = p; delay = q }

parse_jobs_taking :
    (s : Text) (t : DependencyType) (raw : List Text) (c : DependencyClause)
    → takes_jobs t ≡ true
    → parse_jobs s t raw ≡ ok c
    → (is_empty raw ≡ false)
      × (collect (parse_job_ref (allows_delay t)) raw ≡ ok c.job_refs)
      × (t ≡ c.dep_type)
unfolding parse_jobs
parse_jobs_taking s t raw c e h = grind arith

parse_jobs_alone :
    (s : Text) (t : DependencyType) (raw : List Text) (c : DependencyClause)
    → takes_jobs t ≡ false
    → parse_jobs s t raw ≡ ok c
    → ([] ≡ c.job_refs) × (t ≡ c.dep_type)
unfolding parse_jobs
parse_jobs_alone s t raw c e h = grind arith

valid_of_parts :
    (t : DependencyType) (c : DependencyClause)
    → t ≡ c.dep_type
    → is_empty c.job_refs ≡ not (takes_jobs t)
    → All (RefIsValid t) c.job_refs
    → ClauseIsValid c
valid_of_parts t c e l v = record {
  listed = subst (λ x. is_empty c.job_refs ≡ not (takes_jobs x)) e l;
  refs = subst (λ x. All (RefIsValid x) c.job_refs) e v;
}

parse_jobs-ClauseIsValid :
    (s : Text) (t : DependencyType) (raw : List Text) (c : DependencyClause)
    → parse_jobs s t raw ≡ ok c
    → ClauseIsValid c
parse_jobs-ClauseIsValid s t raw c h = elim (Bool-cases (takes_jobs t)) [
  | inl e ↦
      let (f, q, d) = parse_jobs_taking s t raw c e h in
      valid_of_parts t c d
        (rw (e, is_empty-collect (parse_job_ref (allows_delay t)) raw c.job_refs f q))
        (collect-All (RefIsValid t) (parse_job_ref (allows_delay t)) raw c.job_refs
          (parse_job_ref-RefIsValid t) q)
  | inr e ↦
      let (n, d) = parse_jobs_alone s t raw c e h in
      valid_of_parts t c d (rw (e, ← n)) (subst (All (RefIsValid t)) n tt)
]

parse_parts-ClauseIsValid :
    (s : Text) (parts : List Text) (c : DependencyClause)
    → parse_parts s parts ≡ ok c
    → ClauseIsValid c
unfolding parse_parts
parse_parts-ClauseIsValid s [] c h = absurd (cc)
parse_parts-ClauseIsValid s (head ∷ raw) c h =
    let (t, p, q) = >>=-eq-ok (parse_type head) (λ t. parse_jobs s t raw) h in
    parse_jobs-ClauseIsValid s t raw c q

parse_clause-ClauseIsValid :
    (s : Text) (c : DependencyClause) → parse_clause s ≡ ok c → ClauseIsValid c
unfolding parse_clause
parse_clause-ClauseIsValid s c h =
    let (u, p, q) = >>=-eq-ok (refuse_if (is_empty s) _) (λ _. parse_parts s (split b':' s)) h in
    parse_parts-ClauseIsValid s (split b':' s) c q

-- The steps of a successful parse.
parse_dependency_inv :
    (s : Text) (d : SlurmDependency)
    → parse_dependency s ≡ ok d
    → (collect parse_clause (split (as_char d.combine) s) ≡ ok d.clauses)
      × (is_empty d.clauses ≡ false)
      × (contains b',' s && contains b'?' s ≡ false)
unfolding parse_dependency
parse_dependency_inv s d h = grind arith

-- The parser of `--dependency` accepts only valid options, from a text that does not mix `,` with
-- `?`: there is a clause, `singleton` has no job and every other type at least one, all numbers fit
-- `u32`, and only `after` has delays.
pub parse_dependency-IsValid :
    (s : Text) (d : SlurmDependency)
    → parse_dependency s ≡ ok d
    → DependencyIsValid d × ((contains b',' s && contains b'?' s) ≡ false)
parse_dependency-IsValid s d h =
    let (p, q, r) = parse_dependency_inv s d h in
    (
      record {
        filled = q;
        valid =
            collect-All ClauseIsValid parse_clause (split (as_char d.combine) s) d.clauses
              parse_clause-ClauseIsValid p;
      },
      r,
    )
