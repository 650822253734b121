-- ===== src/Options/Dependency/RoundTrip.antt =====
-- The `--dependency` text: printing and then parsing.
use slurm_async_runner.Prelude.{
  ℕ, ◌≤◌, List, [], ◌∷◌, ◌++◌, map, Option, none, some, All, is_empty, ok, true, false, not, ◌≡◌,
  refl, arith, append-nil, All-append, collect-map, All-of_map, ap, ◌≢◌,
}
use slurm_async_runner.Prelude.Text.{
  Text, contains, join, Lacks, is_digit, split_once-append, split_once_of_Lacks, split-join,
  Lacks-join, is_empty-join, is_empty-append, contains_of_Lacks, contains-append,
  is_empty-append_left,
}
use slurm_async_runner.Prelude.Number.{max_u32, show, show-Lacks, is_empty-show, parse_uint-show}
use slurm_async_runner.Options.Dependency.{
  DependencyType, after, as_keyword, takes_jobs, allows_delay, parse_type, DependencyJobRef,
  DependencyClause, DependencyJoin, and_join, or_join, SlurmDependency, as_char, show_delay,
  show_ref, show_refs, show_clause, show_dependency, parse_job_ref, parse_jobs, parse_clause,
  parse_dependency, DelayIsValid, RefIsValid, ClauseIsValid, DependencyIsValid,
}

pub parse_type-as_keyword : (t : DependencyType) → parse_type (as_keyword t) ≡ ok t
unfolding parse_type as_keyword
parse_type-as_keyword after = refl
parse_type-as_keyword _ = refl

-- A keyword holds none of the separators.
keyword-Lacks :
    (t : DependencyType)
    → Lacks b':' (as_keyword t) × Lacks b',' (as_keyword t) × Lacks b'?' (as_keyword t)
unfolding as_keyword
keyword-Lacks after = omega arith
keyword-Lacks _ = omega arith

show_ref-Lacks :
    (d : ℕ) (r : DependencyJobRef) → is_digit d ≡ false → b'+' ≢ d → Lacks d (show_ref r)
unfolding show_ref
show_ref-Lacks d r h n = go r.delay_minutes
  where
    go : (m : Option ℕ) → Lacks d (show r.job_id ++ show_delay m)
    go none = rw append-nil (show-Lacks d r.job_id h)
    go (some m) =
        All-append _ (show r.job_id) (b'+' ∷ show m) (show-Lacks d r.job_id h) (n, show-Lacks d m h)

parse-show_delay :
    (t : DependencyType) (id : ℕ) (m : Option ℕ)
    → id ≤ max_u32
    → DelayIsValid t m
    → parse_job_ref (allows_delay t) (show id ++ show_delay m)
      ≡ ok (record { job_id = id; delay_minutes = m })
unfolding parse_job_ref show_delay
parse-show_delay t id none h v = ground (
  arith,
  append-nil (show id),
  is_empty-show id,
  split_once_of_Lacks b'+' (show id) (show-Lacks b'+' id refl),
  parse_uint-show max_u32 id h,
)
parse-show_delay t id (some m) h v = ground (
  arith,
  is_empty-append (show id) b'+' (show m),
  split_once-append b'+' (show id) (show m) (show-Lacks b'+' id refl),
  parse_uint-show max_u32 id h,
  parse_uint-show max_u32 m v.1,
)

parse-show_ref :
    (t : DependencyType) (r : DependencyJobRef)
    → RefIsValid t r
    → parse_job_ref (allows_delay t) (show_ref r) ≡ ok r
unfolding show_ref
parse-show_ref t r v = parse-show_delay t r.job_id r.delay_minutes v.id_fits v.delay

-- The clause is its keyword and its jobs, joined by colons.
show_refs-join :
    (k : Text) (rs : List DependencyJobRef) → k ++ show_refs rs ≡ join b':' (k ∷ map show_ref rs)
unfolding show_refs join
show_refs-join k [] = append-nil k
show_refs-join k (r ∷ rs) = ap (λ t. k ++ b':' ∷ t) (show_refs-join (show_ref r) rs)

parts-Lacks :
    (d : ℕ) (t : DependencyType) (rs : List DependencyJobRef)
    → is_digit d ≡ false
    → b'+' ≢ d
    → Lacks d (as_keyword t)
    → All (Lacks d) (as_keyword t ∷ map show_ref rs)
parts-Lacks d t rs h n k = (k, All-of_map (Lacks d) show_ref rs (λ r. show_ref-Lacks d r h n))

parse_jobs-show :
    (s : Text) (t : DependencyType) (rs : List DependencyJobRef)
    → is_empty rs ≡ not (takes_jobs t)
    → All (RefIsValid t) rs
    → parse_jobs s t (map show_ref rs) ≡ ok (record { dep_type = t; job_refs = rs })
unfolding parse_jobs
parse_jobs-show s t [] l v = ground arith
parse_jobs-show s t (r ∷ rs) l v = ground (
  arith,
  collect-map show_ref (RefIsValid t) (parse_job_ref (allows_delay t)) (r ∷ rs) (parse-show_ref t)
      v,
)

is_empty-keyword : (t : DependencyType) → is_empty (as_keyword t) ≡ false
unfolding as_keyword
is_empty-keyword after = refl
is_empty-keyword _ = refl

pub parse-show_clause :
    (c : DependencyClause) → ClauseIsValid c → parse_clause (show_clause c) ≡ ok c
unfolding parse_clause show_clause
parse-show_clause c v =
    let k = as_keyword c.dep_type in
    let parts =
      parts-Lacks b':' c.dep_type c.job_refs refl (omega arith) (keyword-Lacks c.dep_type).0 in
    rw
      (
        is_empty-append_left k (show_refs c.job_refs) (is_empty-keyword c.dep_type),
        show_refs-join k c.job_refs,
        split-join b':' k (map show_ref c.job_refs) parts,
        parse_type-as_keyword c.dep_type,
      )
      (parse_jobs-show _ c.dep_type c.job_refs v.listed v.refs)

show_clause-Lacks :
    (d : ℕ) (c : DependencyClause)
    → is_digit d ≡ false
    → b'+' ≢ d
    → b':' ≢ d
    → Lacks d (as_keyword c.dep_type)
    → Lacks d (show_clause c)
unfolding show_clause
show_clause-Lacks d c h n m k = rw (show_refs-join (as_keyword c.dep_type) c.job_refs) (
    Lacks-join b':' d (as_keyword c.dep_type ∷ map show_ref c.job_refs) m
      (parts-Lacks d c.dep_type c.job_refs h n k))

clause-Lacks_comma : (c : DependencyClause) → Lacks b',' (show_clause c)
clause-Lacks_comma c =
    show_clause-Lacks b',' c refl (omega arith) (omega arith) (keyword-Lacks c.dep_type).1

clause-Lacks_question : (c : DependencyClause) → Lacks b'?' (show_clause c)
clause-Lacks_question c =
    show_clause-Lacks b'?' c refl (omega arith) (omega arith) (keyword-Lacks c.dep_type).2

is_empty-show_clause : (c : DependencyClause) → is_empty (show_clause c) ≡ false
unfolding show_clause
is_empty-show_clause c =
    is_empty-append_left (as_keyword c.dep_type) (show_refs c.job_refs)
      (is_empty-keyword c.dep_type)

-- The separator that is read back: a lone clause has none, and reads as `And`.
abbrev pub settle : List DependencyClause → DependencyJoin → DependencyJoin
settle [] j = j
settle (c ∷ []) j = and_join
settle (c ∷ c' ∷ cs) j = j

texts-Lacks :
    (d : ℕ) (cs : List DependencyClause)
    → ((c : DependencyClause) → Lacks d (show_clause c))
    → All (Lacks d) (map show_clause cs)
texts-Lacks d cs h = All-of_map (Lacks d) show_clause cs h

-- A text without `?` is split at its commas.
parse-and :
    (c : DependencyClause) (cs : List DependencyClause)
    → All ClauseIsValid (c ∷ cs)
    → parse_dependency (join b',' (map show_clause (c ∷ cs)))
      ≡ ok (record { clauses = c ∷ cs; combine = and_join })
unfolding parse_dependency
parse-and c cs v =
    let t = join b',' (map show_clause (c ∷ cs)) in
    ground (
      arith,
      is_empty-join b',' (show_clause c) (map show_clause cs) (is_empty-show_clause c),
      contains_of_Lacks b'?' t (
          Lacks-join b',' b'?' (map show_clause (c ∷ cs)) (omega arith)
            (texts-Lacks b'?' (c ∷ cs) clause-Lacks_question)),
      split-join b',' (show_clause c) (map show_clause cs)
          (texts-Lacks b',' (c ∷ cs) clause-Lacks_comma),
      collect-map show_clause ClauseIsValid parse_clause (c ∷ cs) parse-show_clause v,
    )

contains_of_join :
    (c c' : DependencyClause) (cs : List DependencyClause)
    → contains b'?' (join b'?' (map show_clause (c ∷ c' ∷ cs))) ≡ true
unfolding join
contains_of_join c c' cs =
    contains-append b'?' (show_clause c) (join b'?' (map show_clause (c' ∷ cs)))

parse-or :
    (c c' : DependencyClause) (cs : List DependencyClause)
    → All ClauseIsValid (c ∷ c' ∷ cs)
    → parse_dependency (join b'?' (map show_clause (c ∷ c' ∷ cs)))
      ≡ ok (record { clauses = c ∷ c' ∷ cs; combine = or_join })
unfolding parse_dependency
parse-or c c' cs v =
    let t = join b'?' (map show_clause (c ∷ c' ∷ cs)) in
    ground (
      arith,
      is_empty-join b'?' (show_clause c) (map show_clause (c' ∷ cs)) (is_empty-show_clause c),
      contains_of_join c c' cs,
      contains_of_Lacks b',' t (
          Lacks-join b'?' b',' (map show_clause (c ∷ c' ∷ cs)) (omega arith)
            (texts-Lacks b',' (c ∷ c' ∷ cs) clause-Lacks_comma)),
      split-join b'?' (show_clause c) (map show_clause (c' ∷ cs))
          (texts-Lacks b'?' (c ∷ c' ∷ cs) clause-Lacks_question),
      collect-map show_clause ClauseIsValid parse_clause (c ∷ c' ∷ cs) parse-show_clause v,
    )

-- One clause is printed the same whichever way it is combined.
join_one :
    (c : DependencyClause)
    → join b'?' (map show_clause (c ∷ [])) ≡ join b',' (map show_clause (c ∷ []))
unfolding join
join_one c = refl

parse-show_parts :
    (cs : List DependencyClause) (j : DependencyJoin)
    → is_empty cs ≡ false
    → All ClauseIsValid cs
    → parse_dependency (join (as_char j) (map show_clause cs))
      ≡ ok (record { clauses = cs; combine = settle cs j })
parse-show_parts [] j e v = cc
parse-show_parts (c ∷ []) and_join e v = parse-and c [] v
parse-show_parts (c ∷ []) or_join e v = rw (join_one c) (parse-and c [] v)
parse-show_parts (c ∷ c' ∷ cs) and_join e v = parse-and c (c' ∷ cs) v
parse-show_parts (c ∷ c' ∷ cs) or_join e v = parse-or c c' cs v

-- The text of a valid `--dependency` option parses to the same clauses, combined the same way if
-- there are two or more; a lone clause is always read back with `And`.
pub parse-show_dependency :
    (d : SlurmDependency)
    → DependencyIsValid d
    → parse_dependency (show_dependency d) ≡ ok (record d { combine = settle d.clauses d.combine })
unfolding show_dependency
parse-show_dependency d v = parse-show_parts d.clauses d.combine v.filled v.valid
