-- ===== src/Sbatch/Parse/Submitted.antt =====
-- src/sbatch/parse.rs: the job number in what `sbatch` prints (`parse_submitted_jobid`).
use slurm_async_runner.Prelude.{
  ℕ, ◌≤◌, List, [], ◌∷◌, ◌++◌, Option, none, some, if◌then◌else◌, ◌≡◌, ◌≢◌, refl, ap, ◌∙◌, arith,
  All, is_empty, All-append, All-map,
}
use slurm_async_runner.Prelude.Text.{
  Text, codes, strip_prefix, strip_prefix-append, is_digit, IsDigit, Lacks,
}
use slurm_async_runner.Prelude.Words.{lines, lines-append, trim, trim-append, NoSpace}
use slurm_async_runner.Prelude.Number.{
  show, show-digits, parse_uint, parse_uint-show, is_empty-show, show-Lacks, max_u64,
}

-- `chars().take_while(|c| c.is_ascii_digit())`.
take_digits : Text → Text
take_digits [] = []
take_digits (c ∷ s) = let rest = take_digits s in if is_digit c then c ∷ rest else []

abbrev number_of : Text → Option ℕ
number_of digits = if is_empty digits then none else parse_uint max_u64 digits

submitted_line : Text → Option ℕ
unfolding take_digits
submitted_line line = elim (strip_prefix (codes "Submitted batch job ") (trim line)) [
  | none ↦ none
  | some rest ↦ number_of (take_digits rest)
]

-- The first line that gives a number.
first_number : List Text → Option ℕ
unfolding submitted_line
first_number [] = none
first_number (l ∷ ls) =
    let rest = first_number ls in elim (submitted_line l) [ none ↦ rest | some n ↦ some n ]

unfoldable pub parse_submitted_jobid : Text → Option ℕ
unfolding first_number
parse_submitted_jobid stdout = first_number (lines stdout)

take_digits-All : (s : Text) → All IsDigit s → take_digits s ≡ s
unfolding take_digits
take_digits-All [] h = refl
take_digits-All (c ∷ s) h = ground (arith, take_digits-All s h.1)

digits-NoSpace : (n : ℕ) → NoSpace (show n)
digits-NoSpace n = All-map (λ c h. ground arith) (show n) (show-digits n)

submitted_line-show :
    (n : ℕ) → n ≤ max_u64 → submitted_line (codes "Submitted batch job " ++ show n) ≡ some n
unfolding submitted_line
submitted_line-show n h =
    rw
      (
        submitted_line,
        trim-append b'S' (codes "ubmitted batch job ") (show n) refl (digits-NoSpace n)
            (is_empty-show n),
        strip_prefix-append (codes "Submitted batch job ") (show n),
        take_digits-All (show n) (show-digits n),
        is_empty-show n,
        parse_uint-show max_u64 n h,
      )
      refl

first_number_head :
    (l : Text) (ls : List Text) (n : ℕ) → submitted_line l ≡ some n → first_number (l ∷ ls) ≡ some n
unfolding first_number
first_number_head l ls n h = rw (first_number, h) refl

-- What `sbatch` prints for a job, with any text behind that line, gives the number of the job.
pub parse_submitted_jobid-show :
    (n : ℕ) (rest : Text)
    → n ≤ max_u64
    → parse_submitted_jobid (codes "Submitted batch job " ++ (show n ++ 10 ∷ rest)) ≡ some n
unfolding parse_submitted_jobid first_number
parse_submitted_jobid-show n rest h =
    let line : Text = codes "Submitted batch job " ++ show n in
    let no_feed : Lacks 10 line =
      All-append (λ c. c ≢ 10) (codes "Submitted batch job ") (show n) (omega arith)
        (show-Lacks 10 n refl) in
    let no_return : Lacks 13 line =
      All-append (λ c. c ≢ 13) (codes "Submitted batch job ") (show n) (omega arith)
        (show-Lacks 13 n refl) in
    let split : lines (line ++ 10 ∷ rest) ≡ line ∷ lines rest =
      lines-append line rest no_feed no_return in
    ap first_number split ∙ first_number_head line (lines rest) n (submitted_line-show n h)
