-- ===== src/Prelude/Text.antt =====
-- `&str` as the list of its characters' code points, with the methods of `str` and `char` that the
-- program calls.
use Prim.Native.Nat.{ℕ, ◌-◌, ◌≤◌}
use Prim.Native.Char.{code}
use Prim.Native.String.{String}
use mathlib.Core.Path.{◌≡◌, refl, ap}
use mathlib.Core.Bool.{Bool, true, false, ◌&&◌, ◌||◌}
use mathlib.Core.List.{List, [], ◌∷◌, ◌++◌}
use mathlib.Core.Logic.{◌≢◌}
use mathlib.Core.Option.{Option, none, some}
use native.Mathlib.Omega.{arith}
use slurm_async_runner.Prelude.Tests.{leb, ◌==◌, if◌then◌else◌}
use slurm_async_runner.Prelude.Lists.{is_empty, All, All-append, All-map}

abbrev pub Text : Type 0
Text = List ℕ

-- The characters of a literal. `String` has its own `[]` and `∷`.
abbrev pub codes : String → Text
codes String.[] = []
codes (String.◌∷◌ c s) = code c ∷ codes s

unfoldable pub text_eq : Text → Text → Bool
text_eq [] [] = true
text_eq [] (d ∷ t) = false
text_eq (c ∷ s) [] = false
text_eq (c ∷ s) (d ∷ t) = (c == d) && text_eq s t

pub text_eq_refl : (s : Text) → text_eq s s ≡ true
unfolding text_eq
text_eq_refl [] = refl
text_eq_refl (c ∷ s) = ground (arith, text_eq_refl s)

pub text_eq_sound : (s t : Text) → text_eq s t ≡ true → s ≡ t
unfolding text_eq
text_eq_sound [] [] h = refl
text_eq_sound [] (d ∷ t) h = cc
text_eq_sound (c ∷ s) [] h = cc
text_eq_sound (c ∷ s) (d ∷ t) h = ground (arith, text_eq_sound s t)

-- `char::is_ascii_digit`, `char::is_ascii_uppercase`, `char::to_ascii_uppercase`.
abbrev pub is_digit : ℕ → Bool
is_digit c = leb b'0' c && leb c b'9'

abbrev pub is_upper : ℕ → Bool
is_upper c = leb b'A' c && leb c b'Z'

abbrev pub to_upper : ℕ → ℕ
to_upper c = if leb b'a' c && leb c b'z' then c - 32 else c

-- `char::is_whitespace`: the Unicode property White_Space.
abbrev pub is_space : ℕ → Bool
is_space c =
    (leb 9 c && leb c 13)
    || c == 32
    || c == 0x85
    || c == 0xa0
    || c == 0x1680
    || (leb 0x2000 c && leb c 0x200a)
    || c == 0x2028
    || c == 0x2029
    || c == 0x202f
    || c == 0x205f
    || c == 0x3000

abbrev pub Lacks : ℕ → Text → Type 0
Lacks d = All (λ c. c ≢ d)

abbrev pub IsDigit : ℕ → Type 0
IsDigit c = (b'0' ≤ c) × (c ≤ b'9')

pub Lacks-of_digits : (d : ℕ) (s : Text) → is_digit d ≡ false → All IsDigit s → Lacks d s
Lacks-of_digits d s h = All-map (λ c hc. ground arith) s

-- `s.contains(c)`.
unfoldable pub contains : ℕ → Text → Bool
contains d [] = false
contains d (c ∷ s) = c == d || contains d s

pub contains_of_Lacks : (d : ℕ) (s : Text) → Lacks d s → contains d s ≡ false
unfolding contains
contains_of_Lacks d [] h = refl
contains_of_Lacks d (c ∷ s) h = ground (arith, contains_of_Lacks d s h.1)

pub Lacks-of_contains : (d : ℕ) (s : Text) → contains d s ≡ false → Lacks d s
unfolding contains
Lacks-of_contains d [] h = tt
Lacks-of_contains d (c ∷ s) h = (ground arith, Lacks-of_contains d s (ground arith))

pub contains-append : (d : ℕ) (s t : Text) → contains d (s ++ d ∷ t) ≡ true
unfolding contains
contains-append d [] t = ground arith
contains-append d (c ∷ s) t = ground (arith, contains-append d s t)

-- `s.split_once(c)`: the parts before and after the first `c`.
abbrev cons_first : ℕ → Option (Text × Text) → Option (Text × Text)
cons_first c none = none
cons_first c (some (p, r)) = some (c ∷ p, r)

unfoldable pub split_once : ℕ → Text → Option (Text × Text)
split_once d [] = none
split_once d (c ∷ s) = if c == d then some ([], s) else cons_first c (split_once d s)

pub split_once-append : (d : ℕ) (p r : Text) → Lacks d p → split_once d (p ++ d ∷ r) ≡ some (p, r)
unfolding split_once
split_once-append d [] r h = ground arith
split_once-append d (c ∷ p) r h = ground (arith, split_once-append d p r h.1)

pub split_once_of_Lacks : (d : ℕ) (s : Text) → Lacks d s → split_once d s ≡ none
unfolding split_once
split_once_of_Lacks d [] h = refl
split_once_of_Lacks d (c ∷ s) h = ground (arith, split_once_of_Lacks d s h.1)

-- `s.split(c)`: the parts between the `c`s, of which there is at least one.
abbrev pub cons_head : ℕ → List Text → List Text
cons_head c [] = (c ∷ []) ∷ []
cons_head c (p ∷ ps) = (c ∷ p) ∷ ps

unfoldable pub split : ℕ → Text → List Text
split d [] = [] ∷ []
split d (c ∷ s) = let rest = split d s in if c == d then [] ∷ rest else cons_head c rest

pub split_of_Lacks : (d : ℕ) (s : Text) → Lacks d s → split d s ≡ s ∷ []
unfolding split
split_of_Lacks d [] h = refl
split_of_Lacks d (c ∷ s) h = ground (arith, split_of_Lacks d s h.1)

pub split-append : (d : ℕ) (p r : Text) → Lacks d p → split d (p ++ d ∷ r) ≡ p ∷ split d r
unfolding split
split-append d [] r h = ground arith
split-append d (c ∷ p) r h = ground (arith, split-append d p r h.1)

-- `parts.join(c)`, and the loop that writes `c` before every entry but the first.
unfoldable pub join : ℕ → List Text → Text
join d [] = []
join d (p ∷ []) = p
join d (p ∷ q ∷ ps) = p ++ d ∷ join d (q ∷ ps)

pub split-join :
    (d : ℕ) (p : Text) (ps : List Text)
    → All (Lacks d) (p ∷ ps)
    → split d (join d (p ∷ ps)) ≡ p ∷ ps
unfolding join
split-join d p [] h = split_of_Lacks d p h.0
split-join d p (q ∷ ps) h =
    rw (split-append d p (join d (q ∷ ps)) h.0) (ap (λ l. p ∷ l) (split-join d q ps h.1))

pub Lacks-join : (d e : ℕ) (ps : List Text) → d ≢ e → All (Lacks e) ps → Lacks e (join d ps)
unfolding join
Lacks-join d e [] n h = tt
Lacks-join d e (p ∷ []) n h = h.0
Lacks-join d e (p ∷ q ∷ ps) n h =
    All-append _ p (d ∷ join d (q ∷ ps)) h.0 (n, Lacks-join d e (q ∷ ps) n h.1)

pub is_empty-append : (s : Text) (e : ℕ) (t : Text) → is_empty (s ++ e ∷ t) ≡ false
is_empty-append [] e t = refl
is_empty-append (c ∷ s) e t = refl

pub is_empty-append_left : (s t : Text) → is_empty s ≡ false → is_empty (s ++ t) ≡ false
is_empty-append_left [] t h = cc
is_empty-append_left (c ∷ s) t h = refl

pub is_empty-join :
    (d : ℕ) (p : Text) (ps : List Text) → is_empty p ≡ false → is_empty (join d (p ∷ ps)) ≡ false
unfolding join
is_empty-join d p [] h = h
is_empty-join d p (q ∷ ps) h = is_empty-append p d (join d (q ∷ ps))

is_empty-cons_head : (c : ℕ) (ps : List Text) → is_empty (cons_head c ps) ≡ false
is_empty-cons_head c [] = refl
is_empty-cons_head c (p ∷ ps) = refl

-- There is always at least one part.
pub is_empty-split : (d : ℕ) (s : Text) → is_empty (split d s) ≡ false
unfolding split
is_empty-split d [] = refl
is_empty-split d (c ∷ s) = ground (arith, is_empty-cons_head c (split d s))

-- `s.strip_prefix(p)`.
unfoldable pub strip_prefix : Text → Text → Option Text
strip_prefix [] s = some s
strip_prefix (p ∷ ps) [] = none
strip_prefix (p ∷ ps) (c ∷ s) = if c == p then strip_prefix ps s else none

pub strip_prefix-append : (p s : Text) → strip_prefix p (p ++ s) ≡ some s
unfolding strip_prefix
strip_prefix-append [] s = refl
strip_prefix-append (c ∷ p) s = ground (arith, strip_prefix-append p s)

-- `s.chars().all(p)`.
unfoldable pub every : (ℕ → Bool) → Text → Bool
every p [] = true
every p (c ∷ s) = p c && every p s

pub All-of_every : (p : ℕ → Bool) (s : Text) → every p s ≡ true → All (λ c. p c ≡ true) s
unfolding every
All-of_every p [] h = tt
All-of_every p (c ∷ s) h = (ground arith, All-of_every p s (ground arith))

pub every-digits : (s : Text) → All IsDigit s → every is_digit s ≡ true
unfolding every
every-digits [] h = refl
every-digits (c ∷ s) h = ground (arith, every-digits s h.1)

-- `s.chars().next_back()`, with what stands before that character.
abbrev put_front : ℕ → Option (Text × ℕ) → Option (Text × ℕ)
put_front c none = some ([], c)
put_front c (some (s, last)) = some (c ∷ s, last)

unfoldable pub split_last : Text → Option (Text × ℕ)
split_last [] = none
split_last (c ∷ s) = put_front c (split_last s)

pub split_last-append : (s : Text) (c : ℕ) → split_last (s ++ c ∷ []) ≡ some (s, c)
unfolding split_last
split_last-append [] c = refl
split_last-append (d ∷ s) c = rw (split_last-append s c)

-- The same for a list that is known to be filled.
pub split-join_of_filled :
    (d : ℕ) (ps : List Text) → is_empty ps ≡ false → All (Lacks d) ps → split d (join d ps) ≡ ps
split-join_of_filled d [] e h = cc
split-join_of_filled d (p ∷ ps) e h = split-join d p ps h

pub is_empty-join_of_filled :
    (d : ℕ) (ps : List Text)
    → is_empty ps ≡ false
    → All (λ p. is_empty p ≡ false) ps
    → is_empty (join d ps) ≡ false
is_empty-join_of_filled d [] e h = cc
is_empty-join_of_filled d (p ∷ ps) e h = is_empty-join d p ps h.0

abbrev is_prefix : Text → Text → Bool
is_prefix [] s = true
is_prefix (p ∷ ps) [] = false
is_prefix (p ∷ ps) (c ∷ s) = (c == p) && is_prefix ps s

-- `s.contains(t)` for a text `t`.
unfoldable pub contains_text : Text → Text → Bool
contains_text t [] = is_empty t
contains_text t (c ∷ s) = is_prefix t (c ∷ s) || contains_text t s
