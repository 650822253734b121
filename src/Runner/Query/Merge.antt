-- ===== src/Runner/Query/Merge.antt =====
-- What the batch queries return, over any dispatcher.
use slurm_async_runner.Prelude.{
  ℕ, List, [], ◌∷◌, none, some, Bool, true, false, not, ◌&&◌, if◌then◌else◌, keep, is_some, ok, err,
  Result, ◌≡◌, ◌==◌, refl, arith, Bool-cases, inl, inr, sym,
}
use slurm_async_runner.Prelude.Text.{Text}
use slurm_async_runner.Dispatcher.{Capture, M, ◌>>=◌, pure}
use slurm_async_runner.Status.{JobStatus, default_status}
use slurm_async_runner.Runner.{
  Jobs, get, JobOutcome, no_outcome, dedupe_preserving_order, dedupe_from, merge_results, member,
  resolve,
}
use slurm_async_runner.Runner.Query.{
  query_job_states_batch_with, query_job_states_with_exit_code_with, active_jobs, state_history,
  exit_history, missing_from, merge_outcomes, active_outcome,
}

-- Each id that was asked for, and no other, is resolved: active first, then history, then unknown.
get-merge_results :
    (j : ℕ) (ids : List ℕ) (active history : Jobs JobStatus)
    → get j (merge_results ids active history) ≡ (
        if member j ids then some (resolve (get j active) (get j history) default_status) else none)
unfolding merge_results get
get-merge_results j [] active history = refl
get-merge_results j (k ∷ ids) active history = elim (Bool-cases (j == k)) [
  | inl e ↦ let same : j ≡ k = ground arith in rw e (rw same)
  | inr e ↦ rw e (get-merge_results j ids active history)
]

get-merge_outcomes :
    (j : ℕ) (ids : List ℕ) (active : Jobs JobStatus) (history : Jobs JobOutcome)
    → get j (merge_outcomes ids active history) ≡ (
        if member j ids
        then some (resolve (active_outcome (get j active)) (get j history) no_outcome)
        else none)
unfolding merge_outcomes get
get-merge_outcomes j [] active history = refl
get-merge_outcomes j (k ∷ ids) active history = elim (Bool-cases (j == k)) [
  | inl e ↦ let same : j ≡ k = ground arith in rw e (rw same)
  | inr e ↦ rw e (get-merge_outcomes j ids active history)
]

member-dedupe_from :
    (j : ℕ) (seen ids : List ℕ)
    → member j (dedupe_from seen ids) ≡ (member j ids && not (member j seen))
unfolding dedupe_from
member-dedupe_from j seen [] = refl
member-dedupe_from j seen (k ∷ ids) =
    ground (arith, member-dedupe_from j seen ids, member-dedupe_from j (k ∷ seen) ids)

member-dedupe : (j : ℕ) (ids : List ℕ) → member j (dedupe_preserving_order ids) ≡ member j ids
unfolding dedupe_preserving_order
member-dedupe j ids = ground (arith, member-dedupe_from j [] ids)

abbrev pub IsDistinct : List ℕ → Type 0
IsDistinct [] = Unit
IsDistinct (x ∷ xs) = (member x xs ≡ false) × IsDistinct xs

dedupe_from-IsDistinct : (seen ids : List ℕ) → IsDistinct (dedupe_from seen ids)
unfolding dedupe_from
dedupe_from-IsDistinct seen [] = tt
dedupe_from-IsDistinct seen (k ∷ ids) = elim (Bool-cases (member k seen)) [
  | inl e ↦ rw e (dedupe_from-IsDistinct seen ids)
  | inr e ↦
      rw e
        (ground (arith, member-dedupe_from k (k ∷ seen) ids), dedupe_from-IsDistinct (k ∷ seen) ids)
]

-- Deduplication keeps every id that was asked for, adds none, and leaves none twice.
pub dedupe_preserving_order_lem :
    (ids : List ℕ)
    → IsDistinct (dedupe_preserving_order ids)
      × ((j : ℕ) → member j (dedupe_preserving_order ids) ≡ member j ids)
dedupe_preserving_order_lem ids =
    (unfold dedupe_preserving_order in dedupe_from-IsDistinct [] ids, λ j. member-dedupe j ids)

member-keep : (j : ℕ) (p : ℕ → Bool) (ids : List ℕ) → member j (keep p ids) ≡ (member j ids && p j)
member-keep j p [] = refl
member-keep j p (k ∷ ids) = elim (Bool-cases (j == k)) [
  | inl e ↦ let same : k ≡ j = ground arith in rw same (ground (arith, member-keep j p ids))
  | inr e ↦ ground (arith, member-keep j p ids)
]

-- sacct is asked for a job exactly if the job was asked for and squeue did not report it.
pub member-missing_from :
    (j : ℕ) (ids : List ℕ) (active : Jobs JobStatus)
    → member j (missing_from active (dedupe_preserving_order ids))
      ≡ (member j ids && not (is_some (get j active)))
member-missing_from j ids active = rw (
  member-keep j (λ k. not (is_some (get k active))) (dedupe_preserving_order ids),
  member-dedupe j ids,
)

-- A sequence succeeds only where its first step does.
>>=-ok :
    {W A B : Type 0} (m : M W A) (f : A → M W B) (w w' : W) (b : B)
    → (m >>= f) w ≡ (ok b, w')
    → (a : A) × (v : W) × (m w ≡ (ok a, v)) × (f a v ≡ (ok b, w'))
>>=-ok m f w w' b h = first_step (m w).0 (m w).1 refl h
  where
    first_step :
        (r : Result Text _) (v : _)
        → m w ≡ (r, v)
        → (elim r [ ok a ↦ f a v | err e ↦ (err e, v) ]) ≡ (ok b, w')
        → (a : _) × (v' : _) × (m w ≡ (ok a, v')) × (f a v' ≡ (ok b, w'))
    first_step (ok a) v e q = (a, v, e, q)
    first_step (err x) v e q = cc

is_some-if : {A : Type 0} (b : Bool) (a : A) → is_some (if b then some a else none) ≡ b
is_some-if true a = refl
is_some-if false a = refl

-- What two steps and a pure end return.
two_steps :
    {W A B C : Type 0} (first : M W A) (second : A → M W B) (end : A → B → C) (w w' : W) (c : C)
    → (first >>= λ a. (second a >>= λ b. pure (end a b))) w ≡ (ok c, w')
    → (a : A) × (b : B) × (end a b ≡ c)
two_steps first second end w w' c h =
    let step = >>=-ok first (λ a. (second a >>= λ b. pure (end a b))) w w' c h in
    let rest = >>=-ok (second step.0) (λ b. pure (end step.0 b)) step.1 w' c step.3 in
    (step.0, rest.0, cc)

module _ {W : Type 0} (capture : Capture W) where
  -- Where a batch query of squeue and sacct succeeds, it reports every job that was asked for and no other.
  pub query_job_states_batch_with_lem :
      (ids : List ℕ) (w w' : W) (m : Jobs JobStatus)
      → query_job_states_batch_with capture ids w ≡ (ok m, w')
      → (j : ℕ) → is_some (get j m) ≡ member j ids
  unfolding query_job_states_batch_with
  query_job_states_batch_with_lem [] w w' m h j =
      let empty : m ≡ [] = cc in rw empty (unfold get in refl)
  query_job_states_batch_with_lem (i ∷ ids) w w' m h j =
      let unique = dedupe_preserving_order (i ∷ ids) in
      let run =
        two_steps (active_jobs capture unique)
          (λ active. state_history capture (missing_from active unique)) (merge_results (i ∷ ids)) w
          w' m h in
      rw (sym run.2, get-merge_results j (i ∷ ids) run.0 run.1) (is_some-if (member j (i ∷ ids)) _)

  -- The same for the batch query that reports exit codes.
  pub query_job_states_with_exit_code_with_lem :
      (ids : List ℕ) (w w' : W) (m : Jobs JobOutcome)
      → query_job_states_with_exit_code_with capture ids w ≡ (ok m, w')
      → (j : ℕ) → is_some (get j m) ≡ member j ids
  unfolding query_job_states_with_exit_code_with
  query_job_states_with_exit_code_with_lem [] w w' m h j =
      let empty : m ≡ [] = cc in rw empty (unfold get in refl)
  query_job_states_with_exit_code_with_lem (i ∷ ids) w w' m h j =
      let unique = dedupe_preserving_order (i ∷ ids) in
      let run =
        two_steps (active_jobs capture unique)
          (λ active. exit_history capture (missing_from active unique)) (merge_outcomes (i ∷ ids)) w
          w' m h in
      rw (sym run.2, get-merge_outcomes j (i ∷ ids) run.0 run.1) (is_some-if (member j (i ∷ ids)) _)
