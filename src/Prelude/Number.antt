-- ===== src/Prelude/Number.antt =====
-- Numbers as text: `u8`, `u16`, `u32` and `u64` printed by `{}` and `{:02}`, and read by
-- `str::parse`, which takes a `+` before the digits and refuses what exceeds the type.
use Prim.Native.Nat.{ℕ, zero, suc, ◌+◌, ◌-◌, ◌*◌, ◌/◌, ◌%◌, ◌^◌, ◌≤◌, ◌<◌}
use mathlib.Core.Path.{◌≡◌, refl, ◌∙◌}
use mathlib.Core.Bool.{◌&&◌, false}
use mathlib.Core.List.{[], ◌∷◌}
use mathlib.Core.Logic.{inl, inr}
use mathlib.Core.Option.{Option, none, some}
use native.Mathlib.Omega.{arith}
use slurm_async_runner.Prelude.Tests.{ltb, leb, ◌==◌, if◌then◌else◌, Bool-cases}
use slurm_async_runner.Prelude.Lists.{All, is_empty}
use slurm_async_runner.Prelude.Text.{Text, codes, is_digit, IsDigit, Lacks, Lacks-of_digits}

abbrev pub max_u8 : ℕ
max_u8 = 2 ^ 8 - 1

abbrev pub max_u16 : ℕ
max_u16 = 2 ^ 16 - 1

abbrev pub max_u32 : ℕ
max_u32 = 2 ^ 32 - 1

abbrev pub max_u64 : ℕ
max_u64 = 2 ^ 64 - 1

-- `checked_mul(10)` and `checked_add(d)` fail together where the new value exceeds `max`.
scan : ℕ → ℕ → Text → Option ℕ
scan max n [] = some n
scan max n (c ∷ s) =
    let m = n * 10 + (c - b'0') in
    let rest = scan max m s in if is_digit c && leb m max then rest else none

unfoldable pub unsigned : ℕ → Text → Option ℕ
unfolding scan
unsigned max [] = none
unsigned max (c ∷ s) = scan max 0 (c ∷ s)

unfoldable pub parse_uint : ℕ → Text → Option ℕ
unfolding unsigned
parse_uint max [] = none
parse_uint max (c ∷ s) = if c == b'+' then unsigned max s else unsigned max (c ∷ s)

-- The digits of `n` before `out`, by repeated division. With fuel above `n` the loop ends.
show_from : ℕ → ℕ → Text → Text
show_from zero n out = out
show_from (suc fuel) n out =
    let shown = (b'0' + n % 10) ∷ out in
    let rest = show_from fuel (n / 10) shown in if n / 10 == 0 then shown else rest

unfoldable pub show : ℕ → Text
unfolding show_from
show n = show_from (suc n) n []

-- `{:02}`.
unfoldable pub show_2 : ℕ → Text
show_2 n = if ltb n 10 then b'0' ∷ show n else show n

show-max_u32 : show max_u32 ≡ codes "4294967295"
unfolding show
show-max_u32 = refl

parse_uint_overflow : parse_uint max_u32 (codes "4294967296") ≡ none
unfolding parse_uint
parse_uint_overflow = refl

show_from-digits : (fuel n : ℕ) (out : Text) → All IsDigit out → All IsDigit (show_from fuel n out)
unfolding show_from
show_from-digits zero n out h = h
show_from-digits (suc fuel) n out h =
    let h' : All IsDigit ((b'0' + n % 10) ∷ out) = (omega arith, h) in
    elim (Bool-cases (n / 10 == 0)) [
      | inl e ↦ rw e h'
      | inr e ↦ rw e (show_from-digits fuel (n / 10) _ h')
    ]

pub show-digits : (n : ℕ) → All IsDigit (show n)
unfolding show
show-digits n = show_from-digits (suc n) n [] tt

show_from_cons :
    (fuel n c : ℕ) (out : Text) → (d : ℕ) × (s : Text) × (show_from fuel n (c ∷ out) ≡ d ∷ s)
unfolding show_from
show_from_cons zero n c out = (c, out, refl)
show_from_cons (suc fuel) n c out = elim (Bool-cases (n / 10 == 0)) [
  | inl e ↦ (b'0' + n % 10, c ∷ out, rw e refl)
  | inr e ↦ rw e (show_from_cons fuel (n / 10) _ (c ∷ out))
]

-- A number has at least one digit.
pub show_cons : (n : ℕ) → (d : ℕ) × (s : Text) × (show n ≡ d ∷ s)
unfolding show show_from
show_cons n = elim (Bool-cases (n / 10 == 0)) [
  | inl e ↦ (b'0' + n % 10, [], rw e refl)
  | inr e ↦ rw e (show_from_cons n (n / 10) _ [])
]

-- Reading the last digit of `n` after the digits before it gives `n`.
scan_last :
    (max n : ℕ) (out : Text) → n ≤ max → scan max (n / 10) ((b'0' + n % 10) ∷ out) ≡ scan max n out
unfolding scan
scan_last max n out h = ground arith

scan-show_from :
    (max fuel n : ℕ) (out : Text)
    → n < fuel
    → n ≤ max
    → scan max 0 (show_from fuel n out) ≡ scan max n out
unfolding show_from
scan-show_from max zero n out lt h = elim lt [ ]
scan-show_from max (suc fuel) n out lt h = elim (Bool-cases (n / 10 == 0)) [
  | inl e ↦ rw e (let z : 0 ≡ n / 10 = ground arith in rw z (scan_last max n out h))
  | inr e ↦
      rw e (scan-show_from max fuel (n / 10) _ (ground arith) (omega arith) ∙ scan_last max n out h)
]

scan-show : (max n : ℕ) → n ≤ max → scan max 0 (show n) ≡ some n
unfolding show scan
scan-show max n h = scan-show_from max (suc n) n [] (omega arith) h

-- For text that begins with a digit there is no sign to take off.
parse_uint-scan : (max c : ℕ) (s : Text) → IsDigit c → parse_uint max (c ∷ s) ≡ scan max 0 (c ∷ s)
unfolding parse_uint
parse_uint-scan max c s h = ground arith

-- What is printed is read back, within the type's range.
pub parse_uint-show : (max n : ℕ) → n ≤ max → parse_uint max (show n) ≡ some n
parse_uint-show max n h =
    let (d, s, e) = show_cons n in
    let digits : All IsDigit (d ∷ s) = rw e at (show-digits n) in
    rw e (parse_uint-scan max d s digits.0 ∙ (rw e at (scan-show max n h)))

scan_le : (max n : ℕ) (s : Text) (m : ℕ) → n ≤ max → scan max n s ≡ some m → m ≤ max
unfolding scan
scan_le max n [] m h e = ground arith
scan_le max n (c ∷ s) m h e = ground (arith, scan_le max (n * 10 + (c - b'0')) s m)

unsigned_le : (max : ℕ) (s : Text) (m : ℕ) → unsigned max s ≡ some m → m ≤ max
unfolding unsigned
unsigned_le max [] m e = cc
unsigned_le max (c ∷ s) m e = scan_le max 0 (c ∷ s) m (omega arith) e

-- What is read is in the type's range.
pub parse_uint-le : (max : ℕ) (s : Text) (m : ℕ) → parse_uint max s ≡ some m → m ≤ max
unfolding parse_uint
parse_uint-le max [] m e = cc
parse_uint-le max (c ∷ s) m e = elim (Bool-cases (c == b'+')) [
  | inl p ↦ unsigned_le max s m (rw p at e)
  | inr p ↦ unsigned_le max (c ∷ s) m (rw p at e)
]

-- A printed number holds no separator, and is not empty.
pub show-Lacks : (d n : ℕ) → is_digit d ≡ false → Lacks d (show n)
show-Lacks d n h = Lacks-of_digits d (show n) h (show-digits n)

pub is_empty-show : (n : ℕ) → is_empty (show n) ≡ false
is_empty-show n = let (d, s, e) = show_cons n in rw e

scan_zero : (max : ℕ) (s : Text) → scan max 0 (b'0' ∷ s) ≡ scan max 0 s
unfolding scan
scan_zero max s = ground arith

padded : (max n : ℕ) → n ≤ max → parse_uint max (b'0' ∷ show n) ≡ some n
padded max n h =
    parse_uint-scan max b'0' (show n) (omega arith) ∙ scan_zero max (show n) ∙ scan-show max n h

pub show_2-digits : (n : ℕ) → All IsDigit (show_2 n)
unfolding show_2
show_2-digits n = ground (arith, show-digits n)

pub parse_uint-show_2 : (max n : ℕ) → n ≤ max → parse_uint max (show_2 n) ≡ some n
unfolding show_2
parse_uint-show_2 max n h = elim (Bool-cases (ltb n 10)) [
  | inl e ↦ rw e (padded max n h)
  | inr e ↦ rw e (parse_uint-show max n h)
]

-- A number below 100 is printed in two digits.
pub show_2-two_digits : (n : ℕ) → n < 100 → show_2 n ≡ (b'0' + n / 10) ∷ (b'0' + n % 10) ∷ []
unfolding show_2 show show_from
show_2-two_digits zero h = refl
show_2-two_digits (suc n) h = ground arith
