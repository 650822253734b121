-- ===== src/Sbatch/Parse.antt =====
-- src/sbatch/parse.rs: the array-index expansion (`expand_array_indices`).
pub mod Expand
pub mod Submitted
use slurm_async_runner.Prelude.{
  ℕ, zero, suc, ◌+◌, ◌-◌, List, [], ◌∷◌, ◌++◌, Option, none, some, leb, if◌then◌else◌,
}
use slurm_async_runner.Prelude.Number.{max_u32}
use slurm_async_runner.Options.ArraySpec.{ArrayIndex, single, range, stepped, SlurmArraySpec}

-- `for i in start..=end`, with the number of rounds left.
count_up : ℕ → ℕ → List ℕ
count_up zero i = []
count_up (suc n) i = i ∷ count_up n (i + 1)

cons_option : ℕ → Option (List ℕ) → Option (List ℕ)
cons_option i none = none
cons_option i (some l) = some (i ∷ l)

-- `while i <= end { push(i); i = i.checked_add(step) or break }`; `none` means that the fuel ran
-- out.
pub steps : ℕ → ℕ → ℕ → ℕ → Option (List ℕ)
unfolding cons_option
steps zero i end step = none
steps (suc fuel) i end step =
    let rest = cons_option i (steps fuel (i + step) end step) in
    if leb i end then if leb (i + step) max_u32 then rest else some (i ∷ []) else some []

-- With a positive step `end + 2` rounds are more than enough.
expand_index : ArrayIndex → Option (List ℕ)
unfolding count_up steps
expand_index (single i) = some (i ∷ [])
expand_index (range start end) = some (count_up (end + 1 - start) start)
expand_index (stepped start end step) = steps (end + 2) start end step

append_option : Option (List ℕ) → Option (List ℕ) → Option (List ℕ)
append_option none ys = none
append_option (some xs) none = none
append_option (some xs) (some ys) = some (xs ++ ys)

expand_entries : List ArrayIndex → Option (List ℕ)
unfolding append_option expand_index
expand_entries [] = some []
expand_entries (e ∷ es) = append_option (expand_index e) (expand_entries es)

unfoldable pub expand_array_indices : SlurmArraySpec → Option (List ℕ)
unfolding expand_entries
expand_array_indices spec = expand_entries spec.indices
