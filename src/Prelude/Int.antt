-- ===== src/Prelude/Int.antt =====
-- Signed integers over the native numbers, under the library's names; `i32` printed and parsed.
use Prim.Native.Nat.{ℕ, ◌+◌, ◌-◌, ◌^◌}
use mathlib.Core.Option.{Option, none, some}
use mathlib.Core.List.{[], ◌∷◌}
use slurm_async_runner.Prelude.Tests.{◌==◌, if◌then◌else◌}
use slurm_async_runner.Prelude.Text.{Text}
use slurm_async_runner.Prelude.Number.{parse_uint, unsigned, show}

-- `negsuc n` is -(n + 1).
pub data ℤ : Type 0 where
  pos : ℕ → ℤ
  negsuc : ℕ → ℤ

abbrev pub negate : ℕ → ℤ
negate n = if n == 0 then pos 0 else negsuc (n - 1)

abbrev pub max_i32 : ℕ
max_i32 = 2 ^ 31 - 1

abbrev read_negative : Option ℕ → Option ℤ
read_negative none = none
read_negative (some n) = some (negate n)

abbrev read_positive : Option ℕ → Option ℤ
read_positive none = none
read_positive (some n) = some (pos n)

-- `str::parse::<i32>`: a sign may stand before the digits.
unfoldable pub parse_i32 : Text → Option ℤ
parse_i32 [] = none
parse_i32 (c ∷ s) =
    if c == b'-'
    then read_negative (unsigned (max_i32 + 1) s)
    else read_positive (parse_uint max_i32 (c ∷ s))

unfoldable pub show_ℤ : ℤ → Text
show_ℤ (pos n) = show n
show_ℤ (negsuc n) = b'-' ∷ show (n + 1)
