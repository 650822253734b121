-- ===== src/Sbatch/Manager/Attached.antt =====
-- What attaching finds, and how the tasks of an array are ordered.
use slurm_async_runner.Prelude.{
  ℕ, List, [], ◌∷◌, Option, none, some, Bool, true, false, ◌&&◌, is_some, ok, err, keep, All, ◌==◌,
  ◌≡◌, refl, ap, ◌∙◌, arith, Bool-cases, inl, inr,
}
use slurm_async_runner.Prelude.Text.{Text, codes, text_eq, text_eq_refl}
use slurm_async_runner.Dispatcher.{Effect, ◌>>=◌, pure, lift, map_err, >>=-of_ok, map_err-of_ok}
use slurm_async_runner.Store.{JobSnapshot, find_all_by_jobid, is_job}
use slurm_async_runner.Store.Envelope.{Json, Serde, kind_key, as_text, enveloped, encode}
use slurm_async_runner.Store.Envelope.Laws.{JsonIsLawful, SerdeIsLawful, encode-document}
use slurm_async_runner.Sbatch.Cmd.{SbatchCmd}
use slurm_async_runner.Sbatch.Handle.{SbatchJobSnapshot}
use slurm_async_runner.Sbatch.Manager.{
  Environment, SbatchAttachError, attach_io, sbatch_snapshot, spawn, by_uuid, by_file,
  kind_mismatch,
}
use slurm_async_runner.Sbatch.Manager.Spawn.{spawn-ok}
use slurm_async_runner.Sbatch.Manager.Attach.{
  task_leb, insert_task, sort_tasks, attach_array_jobid, attach, check_kind, from_file,
}

abbrev pub is_task : ℕ → Option ℕ → Bool
is_task i none = false
is_task i (some k) = k == i

-- No snapshot has a lower task than one in front of it.
abbrev pub IsSorted : List SbatchJobSnapshot → Type 0
IsSorted [] = Unit {0}
IsSorted (s ∷ ss) = All (λ t. task_leb s.array_task_id t.array_task_id ≡ true) ss × IsSorted ss

task_leb_total : (a b : Option ℕ) → task_leb a b ≡ false → task_leb b a ≡ true
task_leb_total none b h = absurd (cc)
task_leb_total (some i) none h = refl
task_leb_total (some i) (some j) h = ground arith

task_leb_trans :
    (a b c : Option ℕ) → task_leb a b ≡ true → task_leb b c ≡ true → task_leb a c ≡ true
task_leb_trans none b c h k = refl
task_leb_trans (some i) none c h k = absurd (cc)
task_leb_trans (some i) (some j) none h k = absurd (cc)
task_leb_trans (some i) (some j) (some l) h k = ground arith

below :
    (a b : Option ℕ) (ts : List SbatchJobSnapshot)
    → task_leb a b ≡ true
    → All (λ t. task_leb b t.array_task_id ≡ true) ts
    → All (λ t. task_leb a t.array_task_id ≡ true) ts
below a b [] h all = tt
below a b (t ∷ ts) h all = (task_leb_trans a b t.array_task_id h all.0, below a b ts h all.1)

insert_task-All :
    (P : SbatchJobSnapshot → Type 0) (s : SbatchJobSnapshot) (ts : List SbatchJobSnapshot)
    → P s
    → All P ts
    → All P (insert_task s ts)
unfolding insert_task
insert_task-All P s [] p all = (p, tt)
insert_task-All P s (t ∷ ts) p all = ground (arith, all, insert_task-All P s ts p all.1)

insert_task-IsSorted :
    (s : SbatchJobSnapshot) (ts : List SbatchJobSnapshot)
    → IsSorted ts
    → IsSorted (insert_task s ts)
unfolding insert_task
insert_task-IsSorted s [] h = (tt, tt)
insert_task-IsSorted s (t ∷ ts) h = elim (Bool-cases (task_leb s.array_task_id t.array_task_id)) [
  | inl e ↦ rw e ((e, below s.array_task_id t.array_task_id ts e h.0), h)
  | inr e ↦ rw e (
    insert_task-All (λ x. task_leb t.array_task_id x.array_task_id ≡ true) s ts
        (task_leb_total s.array_task_id t.array_task_id e) h.0,
    insert_task-IsSorted s ts h.1,
  )
]

sort_tasks-IsSorted : (ss : List SbatchJobSnapshot) → IsSorted (sort_tasks ss)
unfolding sort_tasks
sort_tasks-IsSorted [] = tt
sort_tasks-IsSorted (s ∷ ss) = insert_task-IsSorted s (sort_tasks ss) (sort_tasks-IsSorted ss)

-- Two snapshots of one task keep their order.
task_leb-of_is_task :
    (i : ℕ) (a b : Option ℕ) → is_task i a ≡ true → task_leb a b ≡ false → is_task i b ≡ false
task_leb-of_is_task i none b p h = absurd (cc)
task_leb-of_is_task i (some k) none p h = refl
task_leb-of_is_task i (some k) (some l) p h = ground arith

keep-insert_task :
    (i : ℕ) (s : SbatchJobSnapshot) (ts : List SbatchJobSnapshot)
    → keep (λ t. is_task i t.array_task_id) (insert_task s ts)
      ≡ keep (λ t. is_task i t.array_task_id) (s ∷ ts)
unfolding insert_task
keep-insert_task i s [] = refl
keep-insert_task i s (t ∷ ts) = elim (Bool-cases (task_leb s.array_task_id t.array_task_id)) [
  | inl e ↦ rw e refl
  | inr e ↦ elim (Bool-cases (is_task i s.array_task_id)) [
    | inl p ↦
        let q = task_leb-of_is_task i s.array_task_id t.array_task_id p e in
        rw (e, keep-insert_task i s ts, p, q) refl
    | inr n ↦ rw (e, keep-insert_task i s ts, n) refl
  ]
]

keep-sort_tasks :
    (i : ℕ) (ss : List SbatchJobSnapshot)
    → keep (λ t. is_task i t.array_task_id) (sort_tasks ss)
      ≡ keep (λ t. is_task i t.array_task_id) ss
unfolding sort_tasks
keep-sort_tasks i [] = refl
keep-sort_tasks i (s ∷ ss) =
    keep-insert_task i s (sort_tasks ss) ∙ (ground (arith, keep-sort_tasks i ss))

sort_tasks-All :
    (P : SbatchJobSnapshot → Type 0) (ss : List SbatchJobSnapshot)
    → All P ss
    → All P (sort_tasks ss)
unfolding sort_tasks
sort_tasks-All P [] h = tt
sort_tasks-All P (s ∷ ss) h = insert_task-All P s (sort_tasks ss) h.0 (sort_tasks-All P ss h.1)

keep-All : {A : Type 0} (p : A → Bool) (xs : List A) → All (λ x. p x ≡ true) (keep p xs)
keep-All p [] = tt
keep-All p (x ∷ xs) = ground (arith, keep-All p xs)

keep-keep :
    {A : Type 0} (p q : A → Bool) (xs : List A) → keep p (keep q xs) ≡ keep (λ x. q x && p x) xs
keep-keep p q [] = refl
keep-keep p q (x ∷ xs) = ground (arith, keep-keep p q xs)

keep_same :
    {A : Type 0} (p q : A → Bool) (xs : List A) → ((x : A) → p x ≡ q x) → keep p xs ≡ keep q xs
keep_same p q [] h = refl
keep_same p q (x ∷ xs) h = ground (arith, h x, keep_same p q xs h)

task_of_job :
    (i : ℕ) (b : Bool) (o : Option ℕ) → (b && (is_some o && is_task i o)) ≡ (b && is_task i o)
task_of_job i b none = refl
task_of_job i b (some k) = refl

-- Testing for a task of the job in one pass.
keep-tasks :
    (j i : ℕ) (ss : List SbatchJobSnapshot)
    → keep
        (λ t. is_task i t.array_task_id)
        (keep (λ s. is_some s.array_task_id) (keep (λ s. is_job j (some s.jobid)) ss))
      ≡ keep (λ s. is_job j (some s.jobid) && is_task i s.array_task_id) ss
keep-tasks j i ss =
    keep-keep (λ t. is_task i t.array_task_id) (λ s. is_some s.array_task_id)
      (keep (λ s. is_job j (some s.jobid)) ss)
    ∙ keep-keep (λ s. is_some s.array_task_id && is_task i s.array_task_id)
        (λ s. is_job j (some s.jobid)) ss
    ∙ keep_same
        (λ s. is_job j (some s.jobid) && (is_some s.array_task_id && is_task i s.array_task_id))
        (λ s. is_job j (some s.jobid) && is_task i s.array_task_id) ss
        (λ s. task_of_job i (is_job j (some s.jobid)) s.array_task_id)

module _ {W : Type 0} (env : Environment W) where
  -- Where the store lists its snapshots, `attach_array_jobid` returns snapshots of tasks only, sorted
  -- by the task. For every task they are the stored snapshots of the job that have it, all of them,
  -- in the order of the listing.
  pub attach_array_jobid-IsSorted :
      (j i : ℕ) (w w' : W) (listed : List SbatchJobSnapshot)
      → env.store.list w ≡ (ok listed, w')
      → (tasks : List SbatchJobSnapshot) × (attach_array_jobid env j w ≡ (ok tasks, w'))
        × IsSorted tasks
        × All (λ s. is_some s.array_task_id ≡ true) tasks
        × (keep (λ s. is_task i s.array_task_id) tasks
            ≡ keep (λ s. is_job j (some s.jobid) && is_task i s.array_task_id) listed)
  unfolding attach_array_jobid find_all_by_jobid
  attach_array_jobid-IsSorted j i w w' listed h =
      let of_job = keep (λ s. is_job j (some s.jobid)) listed in
      let tasks = keep (λ s. is_some s.array_task_id) of_job in
      let found : (env.store.list >>= λ snaps.
      pure (keep (λ s. is_job j (sbatch_snapshot.jobid s)) snaps))
            w
          ≡ (ok of_job, w') =
        >>=-of_ok env.store.list (λ snaps. pure (keep (λ s. is_job j (some s.jobid)) snaps)) w w'
          listed h in
      (
        sort_tasks tasks,
        >>=-of_ok (map_err attach_io (find_all_by_jobid sbatch_snapshot env.store j))
            (λ snaps. pure (sort_tasks (keep (λ s. is_some s.array_task_id) snaps))) w w' of_job
            (map_err-of_ok attach_io (find_all_by_jobid sbatch_snapshot env.store j) w w' of_job
              found),
        sort_tasks-IsSorted tasks,
        sort_tasks-All (λ s. is_some s.array_task_id ≡ true) tasks
            (keep-All (λ s. is_some s.array_task_id) of_job),
        keep-sort_tasks i tasks ∙ keep-tasks j i listed,
      )

-- What a handle relies on: a snapshot that was saved is what a load of its uuid gives next.
pub record StoreIsLawful {W : Type 0} (env : Environment W) : Type 0 where
  pub load-save :
      (s : SbatchJobSnapshot) (w w' : W)
      → env.store.save s w ≡ (ok tt, w')
      → (env.store.load s.uuid w').0 ≡ ok (some s)

module _ {W Value : Type 0} (json : Json Value) (serde : Serde Value SbatchJobSnapshot)
    (env : Environment W) where
  pub loaded :
      (u : ℕ) (s : SbatchJobSnapshot) (w : W)
      → (env.store.load u w).0 ≡ ok (some s)
      → (attach json serde env (by_uuid u) w).0 ≡ ok s
  unfolding attach
  loaded u s w h = cc

  -- A job that was submitted is attached to by its uuid, with the snapshot of its submission.
  pub attach-spawn :
      (cmd : SbatchCmd) (w w' : W) (snap : SbatchJobSnapshot)
      → StoreIsLawful env
      → spawn env cmd w ≡ (ok snap, w')
      → (attach json serde env (by_uuid snap.uuid) w').0 ≡ ok snap
  attach-spawn cmd w w' snap law h =
      let (argv, out, u, built, ran, good, named, path, uuid, time, fields, saved) =
        spawn-ok env cmd w w' snap h in
      loaded snap.uuid snap w' (law.load-save snap (env.new_uuid u).1 w' saved)

  abbrev checked : Value → Effect SbatchAttachError W SbatchJobSnapshot
  checked v =
      lift (check_kind json serde env (as_text json serde sbatch_snapshot (json.get kind_key v)) v)

  read_value :
      (value : Value) (s : SbatchJobSnapshot)
      → serde.from_value value ≡ ok s
      → from_file json serde env value ≡ ok s
  unfolding from_file
  read_value value s h = rw (from_file, h) refl

  own_kind :
      (k : Text) (value : Value) (s : SbatchJobSnapshot)
      → text_eq k (codes "sbatch") ≡ true
      → serde.from_value value ≡ ok s
      → check_kind json serde env (some k) value ≡ ok s
  unfolding check_kind
  own_kind k value s e h = rw e (read_value value s h)

  attach-read :
      (path bytes k : Text) (value y : Value) (w w' : W)
      → env.read path w ≡ (ok bytes, w')
      → json.from_slice bytes ≡ ok value
      → json.get kind_key value ≡ some y
      → json.as_str y ≡ some k
      → attach json serde env (by_file path) w ≡ (check_kind json serde env (some k) value, w')
  unfolding attach
  attach-read path bytes k value y w w' read parsed field text =
      let first = map_err-of_ok attach_io (env.read path) w w' bytes read in
      >>=-of_ok (map_err attach_io (env.read path))
        (λ b. map_err attach_io (lift (json.from_slice b)) >>= checked) w w' bytes first
      ∙ >>=-of_ok (map_err attach_io (lift (json.from_slice bytes))) checked w' w' value (
          map_err-of_ok attach_io (lift (json.from_slice bytes)) w' w' value
            (ap (λ r. (r, w')) parsed))
      ∙ (rw (field, text) refl)

  -- A file with the envelope of another kind is refused, with that kind in the error.
  pub attach-other_kind :
      {T : Type 0} (serde' : Serde Value T) (shape : JobSnapshot T) (path bytes : Text) (t : T)
      (w w' : W)
      → JsonIsLawful json
      → env.read path w ≡ (ok bytes, w')
      → encode json serde' shape t ≡ ok bytes
      → text_eq shape.kind (codes "sbatch") ≡ false
      → attach json serde env (by_file path) w ≡ (err (kind_mismatch shape.kind), w')
  unfolding check_kind
  attach-other_kind serde' shape path bytes t w w' law read written differs =
      let (v, p, q, r) = encode-document json law serde' serde' shape shape t bytes written in
      attach-read path bytes shape.kind (enveloped json serde' shape v) (json.string shape.kind) w
        w' read q r (law.as_str-string shape.kind)
      ∙ (rw differs refl)

  -- A file that a snapshot was written to is attached to as that snapshot.
  pub attach-file :
      (path bytes : Text) (read : SbatchJobSnapshot → SbatchJobSnapshot) (s : SbatchJobSnapshot)
      (w w' : W)
      → JsonIsLawful json
      → SerdeIsLawful json serde read
      → env.read path w ≡ (ok bytes, w')
      → encode json serde sbatch_snapshot s ≡ ok bytes
      → attach json serde env (by_file path) w ≡ (ok (read s), w')
  attach-file path bytes reads s w w' law serde_law read written =
      let (v, p, q, r) =
        encode-document json law serde serde sbatch_snapshot sbatch_snapshot s bytes written in
      attach-read path bytes (codes "sbatch") (enveloped json serde sbatch_snapshot v)
        (json.string (codes "sbatch")) w w' read q r (law.as_str-string (codes "sbatch"))
      ∙ ap (λ r. (r, w'))
          (own_kind (codes "sbatch") (enveloped json serde sbatch_snapshot v) (reads s)
            (text_eq_refl (codes "sbatch")) (serde_law.from_value-insert s v _ _ p))
