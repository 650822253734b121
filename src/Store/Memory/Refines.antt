-- ===== src/Store/Memory/Refines.antt =====
-- A store in memory is the map that its changes describe, and finds its jobs.
use slurm_async_runner.Prelude.{
  ℕ, List, [], ◌∷◌, Option, none, some, true, if◌then◌else◌, ◌==◌, ok, ◌≡◌, refl, ap, arith,
  Bool-cases, inl, inr,
}
use slurm_async_runner.Store.{JobSnapshot, find, is_job, find_by_jobid}
use slurm_async_runner.Store.Memory.{
  Entries, lookup, insert, remove, values, IsMap, insert-IsMap, remove-IsMap, lookup-insert,
  lookup-remove, in_memory, Change, saved, deleted, after,
}

module _ {S : Type 0} (shape : JobSnapshot S) where
  -- The changes as updates of a function from uuids.
  pub replay : List (Change shape) → (ℕ → Option S) → ℕ → Option S
  replay [] f = f
  replay (saved s ∷ cs) f = replay cs (λ u. if u == shape.uuid s then some s else f u)
  replay (deleted v ∷ cs) f = replay cs (λ u. if u == v then none else f u)

  -- Each snapshot stands under its own uuid, and no uuid has two.
  abbrev pub IsKeyed : Entries S → Type 0
  IsKeyed [] = Unit {0}
  IsKeyed ((u, s) ∷ m) = (shape.uuid s ≡ u) × IsKeyed m

  abbrev pub IsValid : Entries S → Type 0
  IsValid m = IsMap m × IsKeyed m

  remove-IsKeyed : (u : ℕ) (m : Entries S) → IsKeyed m → IsKeyed (remove u m)
  unfolding remove
  remove-IsKeyed u [] h = tt
  remove-IsKeyed u ((v, s) ∷ m) h = ground (arith, remove-IsKeyed u m h.1)

  pub save-IsValid : (s : S) (m : Entries S) → IsValid m → IsValid ((in_memory shape).save s m).1
  unfolding insert
  save-IsValid s m h =
      (insert-IsMap (shape.uuid s) s m h.0, (refl, remove-IsKeyed (shape.uuid s) m h.1))

  pub delete-IsValid :
      (u : ℕ) (m : Entries S) → IsValid m → IsValid ((in_memory shape).delete u m).1
  delete-IsValid u m h = (remove-IsMap u m h.0, remove-IsKeyed u m h.1)

  reads_as_replay :
      (cs : List (Change shape)) (m : Entries S) (f : ℕ → Option S)
      → IsValid m
      → ((u : ℕ) → lookup u m ≡ f u)
      → IsValid (after shape cs m) × ((u : ℕ) → lookup u (after shape cs m) ≡ replay cs f u)
  unfolding after replay
  reads_as_replay [] m f h same = (h, same)
  reads_as_replay (saved s ∷ cs) m f h same =
      reads_as_replay cs (insert (shape.uuid s) s m)
        (λ u. if u == shape.uuid s then some s else f u) (save-IsValid s m h)
        (λ u. rw (lookup-insert u (shape.uuid s) s m, same u) refl)
  reads_as_replay (deleted v ∷ cs) m f h same =
      reads_as_replay cs (remove v m) (λ u. if u == v then none else f u) (delete-IsValid v m h)
        (λ u. rw (lookup-remove u v m, same u) refl)

  -- Any sequence of saves and deletes on a new store leaves each snapshot under its own uuid and no
  -- uuid twice, and a load of any uuid returns what the last change of that uuid left: the snapshot
  -- that was saved, or nothing.
  pub in_memory_refines :
      (cs : List (Change shape)) (u : ℕ)
      → IsValid (after shape cs [])
        × (((in_memory shape).load u (after shape cs [])).0 ≡ ok (replay cs (λ v. none) u))
  in_memory_refines cs u =
      let (valid, same) = reads_as_replay cs [] (λ v. none) (tt, tt) (λ v. unfold lookup in refl) in
      (valid, ap ok (same u))

  find_later :
      (j v : ℕ) (t : S) (m : Entries S) (s : S)
      → lookup v m ≡ none
      → lookup (shape.uuid s) m ≡ some s
      → lookup (shape.uuid s) ((v, t) ∷ m) ≡ some s
  unfolding lookup
  find_later j v t m s fresh found = ground arith

  find-values :
      (j u : ℕ) (m : Entries S) (s : S)
      → IsValid m
      → lookup u m ≡ some s
      → is_job j (shape.jobid s) ≡ true
      → (t : S) × (find (λ x. is_job j (shape.jobid x)) (values m) ≡ some t)
        × (lookup (shape.uuid t) m ≡ some t)
        × (is_job j (shape.jobid t) ≡ true)
  unfolding lookup values
  find-values j u [] s h found is = absurd (cc)
  find-values j u ((v, t) ∷ m) s h found is = elim (Bool-cases (is_job j (shape.jobid t))) [
    | inl e ↦ (t, rw e refl, ground arith, e)
    | inr n ↦ elim (Bool-cases (u == v)) [
      | inl e ↦ absurd (ground arith)
      | inr e ↦
          let (x, p, q, r) = find-values j u m s (h.0.1, h.1.1) (ground arith) is in
          (x, rw (n, p) refl, find_later j v t m x h.0.0 q, r)
    ]
  ]

  -- A job that has a snapshot in a valid store is found by its number: the result is a stored snapshot
  -- of that job.
  pub find_by_jobid-in_memory :
      (j u : ℕ) (m : Entries S) (s : S)
      → IsValid m
      → lookup u m ≡ some s
      → is_job j (shape.jobid s) ≡ true
      → (t : S) × ((find_by_jobid shape (in_memory shape) j m).0 ≡ ok (some t))
        × (lookup (shape.uuid t) m ≡ some t)
        × (is_job j (shape.jobid t) ≡ true)
  unfolding find_by_jobid
  find_by_jobid-in_memory j u m s h found is =
      let (t, p, q, r) = find-values j u m s h found is in (t, ap ok p, q, r)
