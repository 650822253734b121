-- ===== src/Tssrun/Parse.antt =====
-- What the `salloc` lines are read as.
use slurm_async_runner.Prelude.{ℕ, ◌≤◌, [], ◌∷◌, ◌++◌, none, some, All-map, ◌≡◌, ◌≢◌, refl, arith}
use slurm_async_runner.Prelude.Text.{Text, codes, strip_prefix, strip_prefix-append, Lacks}
use slurm_async_runner.Prelude.Words.{trim, NoSpace}
use slurm_async_runner.Prelude.Words
use slurm_async_runner.Prelude.Number.{show, show-digits, is_empty-show, parse_uint-show, max_u64}
use slurm_async_runner.Tssrun.{
  split_once_text, granted, nodes, are_ready, parse_salloc_jobid, parse_salloc_node,
}

digits-NoSpace : (n : ℕ) → NoSpace (show n)
digits-NoSpace n = All-map (λ c h. ground arith) (show n) (show-digits n)

-- The line that grants an allocation names the job, for every number of 64 bits.
pub parse_salloc_jobid-show :
    (n : ℕ) → n ≤ max_u64 → parse_salloc_jobid (granted ++ show n) ≡ some n
unfolding parse_salloc_jobid
parse_salloc_jobid-show n h =
    rw
      (
        parse_salloc_jobid,
        strip_prefix-append granted (show n),
        Words.trim_solid (show n) (digits-NoSpace n) (is_empty-show n),
        parse_uint-show max_u64 n h,
      )
      refl

-- At a separator the text is split, and at another character it is split later.
split_here :
    (sep rest s : Text) → strip_prefix sep s ≡ some rest → split_once_text sep s ≡ some ([], rest)
unfolding split_once_text
split_here sep rest [] h = rw (split_once_text, h) refl
split_here sep rest (c ∷ s) h = rw (split_once_text, h) refl

split_later :
    (sep p r s : Text) (c : ℕ)
    → strip_prefix sep (c ∷ s) ≡ none
    → split_once_text sep s ≡ some (p, r)
    → split_once_text sep (c ∷ s) ≡ some (c ∷ p, r)
unfolding split_once_text
split_later sep p r s c h later = rw (split_once_text, h, later) refl

other_start : (d c : ℕ) (sep s : Text) → c ≢ d → strip_prefix (d ∷ sep) (c ∷ s) ≡ none
unfolding strip_prefix
other_start d c sep s h = ground arith

split_once_text-append :
    (d : ℕ) (sep node rest : Text)
    → Lacks d node
    → split_once_text (d ∷ sep) (node ++ ((d ∷ sep) ++ rest)) ≡ some (node, rest)
split_once_text-append d sep [] rest h =
    split_here (d ∷ sep) rest ((d ∷ sep) ++ rest) (strip_prefix-append (d ∷ sep) rest)
split_once_text-append d sep (c ∷ node) rest h =
    split_later (d ∷ sep) node rest (node ++ ((d ∷ sep) ++ rest)) c (other_start d c sep _ h.0)
      (split_once_text-append d sep node rest h.1)

node_of :
    (s node rest : Text)
    → split_once_text are_ready s ≡ some (node, rest)
    → parse_salloc_node (nodes ++ s) ≡ some node
unfolding parse_salloc_node
node_of s node rest h = rw (parse_salloc_node, strip_prefix-append nodes s, h) refl

no_job : (s : Text) → parse_salloc_jobid (nodes ++ s) ≡ none
unfolding parse_salloc_jobid strip_prefix
no_job s = refl

-- The line that says that nodes are ready gives the nodes as they are written, if there is no space in
-- them, whatever follows, and it names no job.
pub parse_salloc_node-ready :
    (node rest : Text)
    → Lacks b' ' node
    → (parse_salloc_node (nodes ++ (node ++ (are_ready ++ rest))) ≡ some node)
      × (parse_salloc_jobid (nodes ++ (node ++ (are_ready ++ rest))) ≡ none)
parse_salloc_node-ready node rest h = (
  node_of (node ++ (are_ready ++ rest)) node rest
      (split_once_text-append b' ' (codes "are ready for job") node rest h),
  no_job (node ++ (are_ready ++ rest)),
)
