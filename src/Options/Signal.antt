-- ===== src/Options/Signal.antt =====
-- src/entities/slurm/sbatch_options/signal.rs: the `--signal` option, printed and parsed.
pub mod Laws
use slurm_async_runner.Prelude.{
  ℕ, ◌≤◌, ◌<◌, List, [], ◌∷◌, ◌++◌, Option, none, some, All, is_empty, ok, err, ok_or, refuse_if,
  ◌>>=◌, ◌>>◌, Bool, true, false, not, ◌&&◌, ◌||◌, if◌then◌else◌, ◌≡◌, ltb, leb, ◌==◌,
}
use slurm_async_runner.Prelude.Text.{
  Text, codes, split_once, strip_prefix, is_digit, is_upper, every,
}
use slurm_async_runner.Prelude.Number.{max_u8, max_u16, parse_uint, show}
use slurm_async_runner.Schema.{Parsed, parse_error, SchemaParseError}

pub data SignalIdent : Type 0 where
  number : ℕ → SignalIdent
  name : Text → SignalIdent

pub record SlurmSignalSpec : Type 0 where
  pub allow_resignal : Bool
  pub signal : SignalIdent
  pub seconds_before_end : Option ℕ

unfoldable pub show_ident : SignalIdent → Text
show_ident (number n) = show n
show_ident (name s) = s

show_resignal : Bool → Text
show_resignal true = codes "R:"
show_resignal false = []

show_seconds : Option ℕ → Text
show_seconds none = []
show_seconds (some sec) = b'@' ∷ show sec

unfoldable pub show_signal : SlurmSignalSpec → Text
unfolding show_resignal show_seconds
show_signal spec =
    show_resignal spec.allow_resignal
    ++ (show_ident spec.signal ++ show_seconds spec.seconds_before_end)

abbrev ident_error : Text → SchemaParseError
ident_error s = parse_error (codes "signal/identifier") s

abbrev pub is_name_char : ℕ → Bool
is_name_char c = is_upper c || is_digit c || c == b'_'

-- `^[A-Z][A-Z0-9_]*$`, with no look-up of the signal.
abbrev pub is_name : Text → Bool
is_name [] = false
is_name (first ∷ chars) = is_upper first && every is_name_char chars

unfoldable pub parse_ident : Text → Parsed SignalIdent
parse_ident s = do
  refuse_if (is_empty s) (ident_error s)
  if every is_digit s
      then (do
        n ← ok_or (parse_uint max_u8 s) (ident_error s)
        refuse_if (not (leb 1 n && leb n 64)) (ident_error s)
        ok (number n))
      else (do refuse_if (not (is_name s)) (ident_error s); ok (name s))

abbrev signal_error : Text → SchemaParseError
signal_error s = parse_error (codes "signal") s

-- `R:` in front.
strip_resignal : Text → Bool × Text
strip_resignal s = elim (strip_prefix (codes "R:") s) [
  | some rest ↦ (true, rest)
  | none ↦ (false, s)
]

-- `@<seconds>` at the end.
split_seconds : Text → Text × Option Text
split_seconds rest = elim (split_once b'@' rest) [ some (l, r) ↦ (l, some r) | none ↦ (rest, none) ]

parse_seconds : Text → Option Text → Parsed (Option ℕ)
parse_seconds s none = ok none
parse_seconds s (some r) = do
  n ← ok_or (parse_uint max_u16 r) (signal_error s)
  refuse_if (n == 0) (signal_error s)
  ok (some n)

parse_rest : Text → Bool → Text → Option Text → Parsed SlurmSignalSpec
unfolding parse_seconds
parse_rest s allow sig_part sec_part = do
  refuse_if (is_empty sig_part) (signal_error s)
  signal ← parse_ident sig_part
  seconds ← parse_seconds s sec_part
  ok (record { allow_resignal = allow; signal = signal; seconds_before_end = seconds })

unfoldable pub parse_signal : Text → Parsed SlurmSignalSpec
unfolding strip_resignal split_seconds parse_rest
parse_signal s = do
  refuse_if (is_empty s) (signal_error s)
  let (allow, rest) = strip_resignal s
  let (sig_part, sec_part) = split_seconds rest
  parse_rest s allow sig_part sec_part

-- The constraints that the parser enforces.
abbrev pub IdentIsValid : SignalIdent → Type 0
IdentIsValid (number n) = (0 < n) × (n ≤ 64)
IdentIsValid (name s) = is_name s ≡ true

abbrev pub SecondsIsValid : Option ℕ → Type 0
SecondsIsValid none = Unit
SecondsIsValid (some n) = (0 < n) × (n ≤ max_u16)

pub record SignalIsValid (spec : SlurmSignalSpec) : Type 0 where
  pub ident : IdentIsValid spec.signal
  pub seconds : SecondsIsValid spec.seconds_before_end
