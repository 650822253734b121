-- ===== src/Options/Resources.antt =====
-- src/entities/slurm/sbatch_options/resource_spec.rs: the `--rsc` option, built, printed and parsed.
pub mod RoundTrip
pub mod Sound
pub mod Build
use slurm_async_runner.Prelude.{
  ℕ, ◌≤◌, ◌<◌, List, [], ◌∷◌, ◌++◌, Option, none, some, is_empty, Result, ok, err, ok_or, refuse_if,
  ◌>>=◌, ◌>>◌, Bool, true, false, not, ◌&&◌, ◌||◌, if◌then◌else◌, ◌≡◌, ◌==◌, is_some,
}
use slurm_async_runner.Prelude.Text.{
  Text, codes, text_eq, split_once, split, join, is_digit, split_last,
}
use slurm_async_runner.Prelude.Number.{max_u32, parse_uint, show}
use slurm_async_runner.Schema.{Parsed, parse_error, SchemaParseError}

pub data MemoryUnit : Type 0 where
  kilo mega giga tera : MemoryUnit

abbrev pub unit_char : MemoryUnit → ℕ
unit_char kilo = b'K'
unit_char mega = b'M'
unit_char giga = b'G'
unit_char tera = b'T'

abbrev pub unit_from_char : ℕ → Option MemoryUnit
unit_from_char c =
    if c == b'K'
    then some kilo
    else if c == b'M'
    then some mega
    else if c == b'G'
    then some giga
    else if c == b'T'
    then some tera
    else none

pub record Memory : Type 0 where
  pub value : ℕ
  pub unit : MemoryUnit

unfoldable pub show_memory : Memory → Text
show_memory m = show m.value ++ unit_char m.unit ∷ []

abbrev memory_error : Text → SchemaParseError
memory_error s = parse_error (codes "resource_spec/m") s

-- The digits and the unit, which is `M` where the last character is a digit.
split_unit : Text → Text → ℕ → Parsed (Text × MemoryUnit)
split_unit s front last =
    if is_digit last
    then ok (s, mega)
    else (do unit ← ok_or (unit_from_char last) (memory_error s); ok (front, unit))

-- `NonZeroU32::new`.
abbrev pub non_zero : ℕ → Option ℕ
non_zero n = if n == 0 then none else some n

unfoldable pub parse_memory : Text → Parsed Memory
unfolding split_unit
parse_memory s = do
  refuse_if (is_empty s) (memory_error s)
  (front, last) ← ok_or (split_last s) (memory_error s)
  (digits, unit) ← split_unit s front last
  refuse_if (is_empty digits) (memory_error s)
  raw ← ok_or (parse_uint max_u32 digits) (memory_error s)
  value ← ok_or (non_zero raw) (memory_error s)
  ok (record { value = value; unit = unit })

pub record ResourceSpecCpu : Type 0 where
  pub p : Option ℕ
  pub t : Option ℕ
  pub c : Option ℕ
  pub m : Option Memory

pub data ResourceSpec : Type 0 where
  cpu : ResourceSpecCpu → ResourceSpec
  gpu : (g : ℕ) → ResourceSpec

-- `<key>=<value>` where there is a value.
token : ℕ → Text → Text
token key value = key ∷ b'=' ∷ value

count_part : ℕ → Option ℕ → List Text
unfolding token
count_part key none = []
count_part key (some n) = token key (show n) ∷ []

memory_part : Option Memory → List Text
unfolding token
memory_part none = []
memory_part (some m) = token b'm' (show_memory m) ∷ []

cpu_parts : ResourceSpecCpu → List Text
unfolding count_part memory_part
cpu_parts s =
    count_part b'p' s.p ++ (count_part b't' s.t ++ (count_part b'c' s.c ++ memory_part s.m))

unfoldable pub show_resources : ResourceSpec → Text
unfolding cpu_parts token
show_resources (cpu s) = join b':' (cpu_parts s)
show_resources (gpu g) = token b'g' (show g)

-- The variables of the parser's loop.
pub record Keys : Type 0 where
  pub p : Option ℕ
  pub t : Option ℕ
  pub c : Option ℕ
  pub m : Option Memory
  pub g : Option ℕ

abbrev no_keys : Keys
no_keys = record { p = none; t = none; c = none; m = none; g = none }

abbrev count_error : Text → Text → SchemaParseError
count_error key original = parse_error (codes "resource_spec/" ++ key) original

parse_count : Text → Text → Text → Parsed ℕ
parse_count key raw original = do
  n ← ok_or (parse_uint max_u32 raw) (count_error key original)
  ok_or (non_zero n) (count_error key original)

abbrev spec_error : Text → SchemaParseError
spec_error s = parse_error (codes "resource_spec") s

-- One round of the loop, at a token that is split at its `=`.
read_pair : Text → Keys → Text → Text → Parsed Keys
unfolding parse_count text_eq
read_pair s k key value =
    if text_eq key (codes "p")
    then (do
      refuse_if (is_some k.p) (spec_error s)
      n ← parse_count (codes "p") value s
      ok (record k { p = some n }))
    else if text_eq key (codes "t")
    then (do
      refuse_if (is_some k.t) (spec_error s)
      n ← parse_count (codes "t") value s
      ok (record k { t = some n }))
    else if text_eq key (codes "c")
    then (do
      refuse_if (is_some k.c) (spec_error s)
      n ← parse_count (codes "c") value s
      ok (record k { c = some n }))
    else if text_eq key (codes "m")
    then (do
      refuse_if (is_some k.m) (spec_error s)
      m ← parse_memory value
      ok (record k { m = some m }))
    else if text_eq key (codes "g")
    then (do
      refuse_if (is_some k.g) (spec_error s)
      n ← parse_count (codes "g") value s
      ok (record k { g = some n }))
    else err (spec_error s)

read_token : Text → Keys → Text → Parsed Keys
unfolding read_pair
read_token s k tok = do
  (key, value) ← ok_or (split_once b'=' tok) (spec_error s)
  refuse_if (is_empty key || is_empty value) (spec_error s)
  read_pair s k key value

read_tokens : Text → Keys → List Text → Parsed Keys
unfolding read_token
read_tokens s k [] = ok k
read_tokens s k (tok ∷ toks) = read_token s k tok >>= λ k'. read_tokens s k' toks

-- The last `match`.
finish : Text → (g p t c : Option ℕ) → Option Memory → Parsed ResourceSpec
finish s (some g) none none none none = ok (gpu g)
finish s (some g) _ _ _ _ = err (spec_error s)
finish s none none none none none = err (spec_error s)
finish s none p t c m = ok (cpu (record { p = p; t = t; c = c; m = m }))

unfoldable pub parse_resources : Text → Parsed ResourceSpec
unfolding read_tokens finish
parse_resources s = do
  refuse_if (is_empty s) (spec_error s)
  k ← read_tokens s no_keys (split b':' s)
  finish s k.g k.p k.t k.c k.m

-- `NonZeroU32` in every count.
abbrev pub CountIsValid : Option ℕ → Type 0
CountIsValid none = Unit
CountIsValid (some n) = (0 < n) × (n ≤ max_u32)

abbrev pub MemoryIsValid : Option Memory → Type 0
MemoryIsValid none = Unit
MemoryIsValid (some m) = (0 < m.value) × (m.value ≤ max_u32)

pub record CpuIsValid (s : ResourceSpecCpu) : Type 0 where
  pub p : CountIsValid s.p
  pub t : CountIsValid s.t
  pub c : CountIsValid s.c
  pub m : MemoryIsValid s.m

abbrev pub SpecIsValid : ResourceSpec → Type 0
SpecIsValid (cpu s) = CpuIsValid s
SpecIsValid (gpu g) = (0 < g) × (g ≤ max_u32)

-- A CPU spec with no key is a value of the type; it prints as the empty text.
abbrev pub requests : ResourceSpec → Bool
requests (cpu s) = is_some s.p || is_some s.t || is_some s.c || is_some s.m
requests (gpu g) = true
