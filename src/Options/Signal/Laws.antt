-- ===== src/Options/Signal/Laws.antt =====
-- The `--signal` text: printing and then parsing, and what the parser accepts.
use slurm_async_runner.Prelude.{
  ℕ, [], ◌∷◌, ◌++◌, Option, none, some, is_empty, ok, refuse_if, Bool, true, false, ◌≡◌, refl,
  arith, append-nil, All-map, All-append, >>=-eq-ok,
}
use slurm_async_runner.Prelude.Text.{
  Text, codes, strip_prefix, is_digit, every, All-of_every, every-digits, Lacks, split_once-append,
  split_once_of_Lacks, strip_prefix-append, is_empty-append_left,
}
use slurm_async_runner.Prelude.Number.{
  max_u8, max_u16, show, show-Lacks, is_empty-show, parse_uint-show, parse_uint-le, show-digits,
}
use slurm_async_runner.Options.Signal.{
  SignalIdent, number, name, SlurmSignalSpec, show_ident, show_resignal, show_seconds, show_signal,
  is_name_char, is_name, parse_ident, strip_resignal, split_seconds, parse_seconds, parse_rest,
  parse_signal, IdentIsValid, SecondsIsValid, SignalIsValid,
}

-- An identifier holds neither `@` nor `:`.
name-Lacks : (d : ℕ) (s : Text) → is_name_char d ≡ false → is_name s ≡ true → Lacks d s
name-Lacks d [] h n = tt
name-Lacks d (c ∷ s) h n =
    (ground arith, All-map (λ e he. ground arith) s (All-of_every is_name_char s (ground arith)))

ident-Lacks :
    (d : ℕ) (i : SignalIdent) → is_name_char d ≡ false → IdentIsValid i → Lacks d (show_ident i)
unfolding show_ident
ident-Lacks d (number n) h v = show-Lacks d n (ground arith)
ident-Lacks d (name s) h v = name-Lacks d s h v

is_empty-ident : (i : SignalIdent) → IdentIsValid i → is_empty (show_ident i) ≡ false
unfolding show_ident
is_empty-ident (number n) v = is_empty-show n
is_empty-ident (name []) v = cc
is_empty-ident (name (c ∷ s)) v = refl

-- A name begins with a letter, so it is not taken for a number.
name_not_digits : (s : Text) → is_name s ≡ true → every is_digit s ≡ false
unfolding every
name_not_digits [] h = cc
name_not_digits (c ∷ s) h = ground arith

pub parse-show_ident : (i : SignalIdent) → IdentIsValid i → parse_ident (show_ident i) ≡ ok i
unfolding parse_ident show_ident
parse-show_ident (number n) v = ground (
  arith,
  is_empty-show n,
  every-digits (show n) (show-digits n),
  parse_uint-show max_u8 n (omega arith),
)
parse-show_ident (name s) v = ground (arith, is_empty-ident (name s) v, name_not_digits s v)

seconds_text : Option ℕ → Option Text
seconds_text none = none
seconds_text (some n) = some (show n)

split_seconds-show :
    (t : Text) (sec : Option ℕ)
    → Lacks b'@' t
    → split_seconds (t ++ show_seconds sec) ≡ (t, seconds_text sec)
unfolding split_seconds show_seconds seconds_text
split_seconds-show t none h = ground (arith, append-nil t, split_once_of_Lacks b'@' t h)
split_seconds-show t (some n) h = ground (arith, split_once-append b'@' t (show n) h)

parse_seconds-show :
    (s : Text) (sec : Option ℕ) → SecondsIsValid sec → parse_seconds s (seconds_text sec) ≡ ok sec
unfolding parse_seconds seconds_text
parse_seconds-show s none v = refl
parse_seconds-show s (some n) v = ground (arith, parse_uint-show max_u16 n v.1)

strip_prefix_of_Lacks : (s : Text) → Lacks b':' s → strip_prefix (codes "R:") s ≡ none
unfolding strip_prefix
strip_prefix_of_Lacks [] h = refl
strip_prefix_of_Lacks (c ∷ []) h = ground arith
strip_prefix_of_Lacks (c ∷ d ∷ s) h = ground arith

strip_resignal-show :
    (r : Bool) (s : Text) → Lacks b':' s → strip_resignal (show_resignal r ++ s) ≡ (r, s)
unfolding strip_resignal show_resignal
strip_resignal-show true s h = ground (arith, strip_prefix-append (codes "R:") s)
strip_resignal-show false s h = ground (arith, strip_prefix_of_Lacks s h)

show_seconds-Lacks : (sec : Option ℕ) → Lacks b':' (show_seconds sec)
unfolding show_seconds
show_seconds-Lacks none = tt
show_seconds-Lacks (some n) = (omega arith, show-Lacks b':' n refl)

is_empty-prefixed :
    (r : Bool) (s : Text) → is_empty s ≡ false → is_empty (show_resignal r ++ s) ≡ false
unfolding show_resignal
is_empty-prefixed true s h = refl
is_empty-prefixed false s h = h

-- The text of a valid `--signal` option (a number from 1 to 64 or a name of capitals, digits and
-- underscores that begins with a capital, and a positive time) parses to the same option.
pub parse_signal-show_signal :
    (spec : SlurmSignalSpec) → SignalIsValid spec → parse_signal (show_signal spec) ≡ ok spec
unfolding parse_signal show_signal
parse_signal-show_signal spec v =
    let i = show_ident spec.signal in
    let sec = show_seconds spec.seconds_before_end in
    rw (
      is_empty-prefixed spec.allow_resignal (i ++ sec)
          (is_empty-append_left i sec (is_empty-ident spec.signal v.ident)),
      strip_resignal-show spec.allow_resignal (i ++ sec) (
          All-append _ i sec (ident-Lacks b':' spec.signal refl v.ident)
            (show_seconds-Lacks spec.seconds_before_end)),
      split_seconds-show i spec.seconds_before_end (ident-Lacks b'@' spec.signal refl v.ident),
      is_empty-ident spec.signal v.ident,
      parse-show_ident spec.signal v.ident,
      parse_seconds-show _ spec.seconds_before_end v.seconds,
    )

parse_ident-IdentIsValid : (s : Text) (i : SignalIdent) → parse_ident s ≡ ok i → IdentIsValid i
unfolding parse_ident
parse_ident-IdentIsValid s (number n) h = ground arith
parse_ident-IdentIsValid s (name t) h = ground arith

parse_seconds-SecondsIsValid :
    (s : Text) (r : Option Text) (sec : Option ℕ) → parse_seconds s r ≡ ok sec → SecondsIsValid sec
unfolding parse_seconds
parse_seconds-SecondsIsValid s r none h = tt
parse_seconds-SecondsIsValid s none (some n) h = absurd (cc)
parse_seconds-SecondsIsValid s (some t) (some n) h = grind (arith, parse_uint-le max_u16)

parse_rest-SignalIsValid :
    (s : Text) (a : Bool) (p : Text) (q : Option Text) (spec : SlurmSignalSpec)
    → parse_rest s a p q ≡ ok spec
    → SignalIsValid spec
unfolding parse_rest
parse_rest-SignalIsValid s a p q spec h = record {
  ident = grind (arith, parse_ident-IdentIsValid p);
  seconds = grind (arith, parse_seconds-SecondsIsValid s q);
}

-- The parser of `--signal` accepts only valid options.
pub parse_signal-SignalIsValid :
    (s : Text) (spec : SlurmSignalSpec) → parse_signal s ≡ ok spec → SignalIsValid spec
unfolding parse_signal
parse_signal-SignalIsValid s spec h =
    let (u, p, q) = >>=-eq-ok (refuse_if (is_empty s) _) _ h in
    parse_rest-SignalIsValid s _ _ _ spec q
