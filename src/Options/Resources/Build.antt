-- ===== src/Options/Resources/Build.antt =====
-- `ResourceSpec::from_parts`: the option built from numbers that are already typed.
use slurm_async_runner.Prelude.{
  ℕ, Option, none, some, Result, ok, err, ok_or, refuse_if, ◌>>=◌, ◌>>◌, Bool, false, ◌||◌, ◌&&◌,
  ◌≡◌, is_some, arith, if◌then◌else◌, ◌==◌,
}
use slurm_async_runner.Prelude.Text.{Text, codes}
use slurm_async_runner.Options.Resources.{Memory, ResourceSpec, cpu, gpu, non_zero}

pub data ResourceSpecError : Type 0 where
  mixed_cpu_gpu : ResourceSpecError
  zero_value : Text → ResourceSpecError

-- `count.map(|v| NonZeroU32::new(v).ok_or(ZeroValue(key))).transpose()`.
check_count : Text → Option ℕ → Result ResourceSpecError (Option ℕ)
check_count key none = ok none
check_count key (some n) = ok_or (non_zero n) (zero_value key) >>= λ v. ok (some v)

build :
    (processes threads cores : Option ℕ)
    → Option Memory
    → (gpus : Option ℕ) → Result ResourceSpecError ResourceSpec
unfolding check_count
build processes threads cores memory (some g) = do
  g ← ok_or (non_zero g) (zero_value (codes "gpus"))
  ok (gpu g)
build processes threads cores memory none = do
  p ← check_count (codes "processes") processes
  t ← check_count (codes "threads") threads
  c ← check_count (codes "cores") cores
  ok (cpu (record { p = p; t = t; c = c; m = memory }))

pub from_parts :
    (processes threads cores : Option ℕ)
    → Option Memory
    → (gpus : Option ℕ) → Result ResourceSpecError ResourceSpec
unfolding build
from_parts processes threads cores memory gpus = do
  let any_cpu = is_some processes || is_some threads || is_some cores || is_some memory
  refuse_if (is_some gpus && any_cpu) mixed_cpu_gpu
  build processes threads cores memory gpus

-- A `Some(0)`.
abbrev pub is_zero : Option ℕ → Bool
is_zero none = false
is_zero (some n) = n == 0

-- The keys as the option that they spell.
abbrev pub spelled : (p t c : Option ℕ) → Option Memory → (g : Option ℕ) → ResourceSpec
spelled p t c m none = cpu (record { p = p; t = t; c = c; m = m })
spelled p t c m (some g) = gpu g

-- `from_parts` on every input: a GPU count beside a CPU key is refused first, then the first count
-- that is zero, in the order gpus, processes, threads, cores; any other input gives the option that
-- its keys spell, unchanged.
pub from_parts_lem :
    (p t c : Option ℕ) (m : Option Memory) (g : Option ℕ)
    → from_parts p t c m g ≡ (
        if is_some g && (is_some p || is_some t || is_some c || is_some m)
        then err mixed_cpu_gpu
        else if is_zero g
        then err (zero_value (codes "gpus"))
        else if is_zero p
        then err (zero_value (codes "processes"))
        else if is_zero t
        then err (zero_value (codes "threads"))
        else if is_zero c
        then err (zero_value (codes "cores"))
        else ok (spelled p t c m g))
unfolding from_parts
from_parts_lem p t c m none = ground arith
from_parts_lem none none none none (some g) = ground arith
from_parts_lem p t c m (some g) = ground arith
