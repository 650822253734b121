-- ===== src/Sbatch/Parse/Expand.antt =====
-- Which task indices an `--array` option stands for.
use slurm_async_runner.Prelude.{
  ℕ, zero, suc, ◌+◌, ◌-◌, ◌%◌, ◌≤◌, ◌<◌, List, [], ◌∷◌, ◌++◌, none, some, leb, ◌==◌, Bool, false,
  ◌&&◌, ◌||◌, ◌≡◌, refl, arith, Bool-cases, inl, inr, All, ◌∙◌, ap,
}
use native.Mathlib.Nat.{mod-eq_of_lt, mod-eq-sub-mod}
use slurm_async_runner.Prelude.Number.{max_u32}
use slurm_async_runner.Options.ArraySpec.{
  ArrayIndex, single, range, stepped, SlurmArraySpec, SpecIsValid, IndexIsValid,
}
use slurm_async_runner.Sbatch.Parse.{
  count_up, steps, cons_option, expand_index, append_option, expand_entries, expand_array_indices,
}

-- The entry lists the index.
abbrev pub lists : ℕ → ArrayIndex → Bool
lists k (single i) = k == i
lists k (range start end) = leb start k && leb k end
lists k (stepped start end step) = leb start k && leb k end && (k - start) % step == 0

abbrev pub member : ℕ → List ℕ → Bool
member k [] = false
member k (x ∷ xs) = k == x || member k xs

member-append : (k : ℕ) (xs ys : List ℕ) → member k (xs ++ ys) ≡ (member k xs || member k ys)
member-append k [] ys = refl
member-append k (x ∷ xs) ys = ground (arith, member-append k xs ys)

member-count_up : (k n i : ℕ) → member k (count_up n i) ≡ (leb i k && leb (k + 1) (i + n))
unfolding count_up
member-count_up k zero i = ground arith
member-count_up k (suc n) i = ground (arith, member-count_up k n (i + 1))

-- Enough fuel gives the list, and it holds the progression up to `end`.
steps_total :
    (fuel i end step : ℕ)
    → 0 < step
    → end + 1 < fuel + i
    → 0 < fuel
    → (l : List ℕ) × (steps fuel i end step ≡ some l)
unfolding steps cons_option
steps_total zero i end step p h h' = elim h' [ ]
steps_total (suc fuel) i end step p h h' = elim (Bool-cases (leb i end)) [
  | inl e ↦ elim (Bool-cases (leb (i + step) max_u32)) [
    | inl f ↦
        let (l, q) = steps_total fuel (i + step) end step p (ground arith) (ground arith) in
        (i ∷ l, rw (e, f, q))
    | inr f ↦ (i ∷ [], rw (e, f))
  ]
  | inr e ↦ ([], rw e)
]

near_mod : (i k step : ℕ) → 0 < step → k < i + step → (k - i) % step ≡ k - i
near_mod i k step p h = mod-eq_of_lt (omega arith)

jump_mod : (i k step : ℕ) → 0 < step → i + step ≤ k → (k - i) % step ≡ (k - (i + step)) % step
jump_mod i k step p h = mod-eq-sub-mod (omega arith) ∙ ap (λ (t : ℕ). t % step) (omega arith)

member-steps :
    (fuel i end step k : ℕ) (l : List ℕ)
    → 0 < step
    → end ≤ max_u32
    → steps fuel i end step ≡ some l
    → member k l ≡ (leb i k && leb k end && (k - i) % step == 0)
unfolding steps
member-steps zero i end step k l p m h = cc
member-steps (suc fuel) i end step k [] p m h = ground (arith, near_mod i k step p)
member-steps (suc fuel) i end step k (x ∷ l) p m h =
    ground (
      arith,
      near_mod i k step p,
      jump_mod i k step p,
      member-steps fuel (i + step) end step k l p m,
    )

member-expand_index :
    (k : ℕ) (e : ArrayIndex) (l : List ℕ)
    → IndexIsValid e
    → expand_index e ≡ some l
    → member k l ≡ lists k e
unfolding expand_index
member-expand_index k (single i) l v h = ground arith
member-expand_index k (range a b) l v h = ground (arith, member-count_up k (b + 1 - a) a)
member-expand_index k (stepped a b c) l v h = member-steps (b + 2) a b c k l v.2 (v.1) h

expand_index_total : (e : ArrayIndex) → IndexIsValid e → (l : List ℕ) × (expand_index e ≡ some l)
unfolding expand_index
expand_index_total (single i) v = (i ∷ [], refl)
expand_index_total (range a b) v = (count_up (b + 1 - a) a, refl)
expand_index_total (stepped a b c) v = steps_total (b + 2) a b c v.2 (omega arith) (omega arith)

abbrev pub lists_any : ℕ → List ArrayIndex → Bool
lists_any k [] = false
lists_any k (e ∷ es) = lists k e || lists_any k es

expand_entries_lem :
    (es : List ArrayIndex)
    → All IndexIsValid es
    → (l : List ℕ) × (expand_entries es ≡ some l) × ((k : ℕ) → member k l ≡ lists_any k es)
unfolding expand_entries append_option
expand_entries_lem [] v = ([], refl, λ k. refl)
expand_entries_lem (e ∷ es) v =
    let (xs, p) = expand_index_total e v.0 in
    let (ys, q, r) = expand_entries_lem es v.1 in
    (xs ++ ys, rw (p, q), λ k. rw (member-append k xs ys, member-expand_index k e xs v.0 p, r k))

-- A valid `--array` option expands to a list (the loop over a stepped range ends), and a task index
-- is in that list exactly when one of the entries stands for it: it is the single index, or lies
-- in the range, or lies in the range at a multiple of the step from its start.
pub expand_array_indices_lem :
    (spec : SlurmArraySpec)
    → SpecIsValid spec
    → (l : List ℕ) × (expand_array_indices spec ≡ some l)
      × ((k : ℕ) → member k l ≡ lists_any k spec.indices)
unfolding expand_array_indices
expand_array_indices_lem spec v = expand_entries_lem spec.indices v.entries

-- With a step of zero, which the parser refuses and the type admits, the loop never ends: no
-- amount of fuel gives a list.
pub steps_zero : (fuel i end : ℕ) → i ≤ end → end ≤ max_u32 → steps fuel i end 0 ≡ none
unfolding steps cons_option
steps_zero zero i end h m = refl
steps_zero (suc fuel) i end h m =
    let e : i + 0 ≡ i = omega arith in rw (e, steps_zero fuel i end h m) (ground arith)
