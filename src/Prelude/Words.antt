-- ===== src/Prelude/Words.antt =====
-- Lines, words and fields of a text: `str::lines`, `split_whitespace`, `splitn` and `trim`.
use slurm_async_runner.Prelude.Tests.{if◌then◌else◌, ◌==◌}
use slurm_async_runner.Prelude.Lists.{is_empty, keep, All, All-map, All-append}
use slurm_async_runner.Prelude.Text.{
  Text, is_space, to_upper, cons_head, split, split_once, Lacks, split-append, is_empty-split,
  is_empty-append,
}
use Prim.Native.Nat.{ℕ, zero, suc}
use mathlib.Core.Path.{◌≡◌, refl, ap, sym, ◌∙◌}
use mathlib.Core.Bool.{Bool, true, false, not}
use mathlib.Core.List.{
  List, [], ◌∷◌, ◌++◌, map, reverse, reverse-cons, reverse-append, reverse-reverse,
}
use mathlib.Core.Option.{none, some}
use native.Mathlib.Omega.{arith}

-- The parts between the characters that pass the test.
unfoldable pub split_where : (ℕ → Bool) → Text → List Text
split_where p [] = [] ∷ []
split_where p (c ∷ s) = let rest = split_where p s in if p c then [] ∷ rest else cons_head c rest

abbrev pub is_filled : Text → Bool
is_filled s = not (is_empty s)

-- `s.split_whitespace()`.
unfoldable pub words : Text → List Text
unfolding split_where
words s = keep is_filled (split_where is_space s)

-- `s.split_whitespace().next().unwrap_or("")`.
abbrev pub first_or_empty : List Text → Text
first_or_empty [] = []
first_or_empty (w ∷ ws) = w

drop_spaces : Text → Text
drop_spaces [] = []
drop_spaces (c ∷ s) = if is_space c then drop_spaces s else c ∷ s

-- `s.trim()`.
unfoldable pub trim : Text → Text
unfolding drop_spaces
trim s = reverse (drop_spaces (reverse (drop_spaces s)))

-- `s.splitn(n, c)`: at most `n` parts, the last of which is the rest.
unfoldable pub splitn : ℕ → ℕ → Text → List Text
splitn zero d s = []
splitn (suc zero) d s = s ∷ []
splitn (suc (suc n)) d s = elim (split_once d s) [
  | none ↦ s ∷ []
  | some (p, r) ↦ p ∷ splitn (suc n) d r
]

-- A carriage return before the line feed is part of the line ending.
strip_cr : Text → Text
strip_cr [] = []
strip_cr (c ∷ []) = if c == 13 then [] else c ∷ []
strip_cr (c ∷ d ∷ s) = c ∷ strip_cr (d ∷ s)

line_ends : List Text → List Text
unfolding strip_cr
line_ends [] = []
line_ends (p ∷ []) = if is_empty p then [] else p ∷ []
line_ends (p ∷ q ∷ ps) = strip_cr p ∷ line_ends (q ∷ ps)

-- `s.lines()`: a last line without a line feed counts, an empty rest does not.
unfoldable pub lines : Text → List Text
unfolding line_ends
lines s = line_ends (split 10 s)

abbrev pub NoSpace : Text → Type 0
NoSpace = All (λ c. is_space c ≡ false)

split_where-append :
    (p : ℕ → Bool) (w : Text) (c : ℕ) (rest : Text)
    → All (λ c. p c ≡ false) w
    → p c ≡ true
    → split_where p (w ++ c ∷ rest) ≡ w ∷ split_where p rest
unfolding split_where
split_where-append p [] c rest h e = rw e
split_where-append p (d ∷ w) c rest h e = rw (h.0, split_where-append p w c rest h.1 e)

split_where_none : (p : ℕ → Bool) (w : Text) → All (λ c. p c ≡ false) w → split_where p w ≡ w ∷ []
unfolding split_where
split_where_none p [] h = refl
split_where_none p (d ∷ w) h = rw (h.0, split_where_none p w h.1)

-- A word is what stands before the first space, and text with no space is one word.
pub words-append :
    (w : Text) (c : ℕ) (rest : Text)
    → NoSpace w
    → is_empty w ≡ false
    → is_space c ≡ true
    → words (w ++ c ∷ rest) ≡ w ∷ words rest
unfolding words
words-append w c rest h f e = rw (split_where-append is_space w c rest h e, f)

pub words_one : (w : Text) → NoSpace w → is_empty w ≡ false → words w ≡ w ∷ []
unfolding words
words_one w h f = rw (split_where_none is_space w h, f)

pub words_space : (c : ℕ) (s : Text) → is_space c ≡ true → words (c ∷ s) ≡ words s
unfolding words split_where
words_space c s e = rw e

cons_head-map :
    (f : ℕ → ℕ) (c : ℕ) (ps : List Text)
    → cons_head (f c) (map (map f) ps) ≡ map (map f) (cons_head c ps)
cons_head-map f c [] = refl
cons_head-map f c (p ∷ ps) = refl

split_where-map :
    (p : ℕ → Bool) (f : ℕ → ℕ) (s : Text)
    → ((c : ℕ) → p (f c) ≡ p c)
    → split_where p (map f s) ≡ map (map f) (split_where p s)
unfolding split_where
split_where-map p f [] h = refl
split_where-map p f (c ∷ s) h = rw (h c, split_where-map p f s h) (branch (p c))
  where
    branch :
        (b : Bool)
        → (if b
            then [] ∷ map (map f) (split_where p s)
            else cons_head (f c) (map (map f) (split_where p s)))
          ≡ map (map f) (if b then [] ∷ split_where p s else cons_head c (split_where p s))
    branch true = refl
    branch false = cons_head-map f c (split_where p s)

is_filled-map : (f : ℕ → ℕ) (s : Text) → is_filled (map f s) ≡ is_filled s
is_filled-map f [] = refl
is_filled-map f (c ∷ s) = refl

keep-map :
    (f : ℕ → ℕ) (ps : List Text) → keep is_filled (map (map f) ps) ≡ map (map f) (keep is_filled ps)
keep-map f [] = refl
keep-map f ([] ∷ ps) = keep-map f ps
keep-map f ((c ∷ s) ∷ ps) = ap (λ l. map f (c ∷ s) ∷ l) (keep-map f ps)

is_space-to_upper : (c : ℕ) → is_space (to_upper c) ≡ is_space c
is_space-to_upper c = ground arith

-- Words are found in the upper case text where they are in the text.
pub words-to_upper : (s : Text) → words (map to_upper s) ≡ map (map to_upper) (words s)
unfolding words
words-to_upper s =
    rw (split_where-map is_space to_upper s is_space-to_upper)
      (keep-map to_upper (split_where is_space s))

strip_cr_of_Lacks : (s : Text) → Lacks 13 s → strip_cr s ≡ s
unfolding strip_cr
strip_cr_of_Lacks [] h = refl
strip_cr_of_Lacks (c ∷ []) h = ground arith
strip_cr_of_Lacks (c ∷ d ∷ s) h = ap (λ t. c ∷ t) (strip_cr_of_Lacks (d ∷ s) h.1)

line_ends_step :
    (l : Text) (ps : List Text)
    → is_empty ps ≡ false
    → Lacks 13 l
    → line_ends (l ∷ ps) ≡ l ∷ line_ends ps
unfolding line_ends
line_ends_step l [] e h = cc
line_ends_step l (p ∷ ps) e h = ap (λ t. t ∷ line_ends (p ∷ ps)) (strip_cr_of_Lacks l h)

-- A line is what stands before the first line feed.
pub lines-append :
    (l rest : Text) → Lacks 10 l → Lacks 13 l → lines (l ++ 10 ∷ rest) ≡ l ∷ lines rest
unfolding lines
lines-append l rest h k =
    rw (split-append 10 l rest h) (line_ends_step l (split 10 rest) (is_empty-split 10 rest) k)

pub Lacks-of_NoSpace : (d : ℕ) (s : Text) → is_space d ≡ true → NoSpace s → Lacks d s
Lacks-of_NoSpace d s h = All-map (λ c hc. λ e. let q : is_space c ≡ true = rw e h in cc) s

NoSpace-reverse : (t : Text) → NoSpace t → NoSpace (reverse t)
NoSpace-reverse [] h = tt
NoSpace-reverse (c ∷ t) h =
    rw (reverse-cons c t)
      (All-append (λ c. is_space c ≡ false) (reverse t) (c ∷ []) (NoSpace-reverse t h.1) (h.0, tt))

is_empty-reverse : (t : Text) → is_empty t ≡ false → is_empty (reverse t) ≡ false
is_empty-reverse [] h = absurd (cc)
is_empty-reverse (c ∷ t) h = rw (reverse-cons c t) (is_empty-append (reverse t) c [])

drop_solid : (t r : Text) → NoSpace t → is_empty t ≡ false → drop_spaces (t ++ r) ≡ t ++ r
unfolding drop_spaces
drop_solid [] r h e = absurd (cc)
drop_solid (c ∷ t) r h e = rw h.0 refl

-- A text that begins and ends with characters that are not spaces is not trimmed.
pub trim-append :
    (c : ℕ) (p t : Text)
    → is_space c ≡ false
    → NoSpace t
    → is_empty t ≡ false
    → trim (c ∷ (p ++ t)) ≡ c ∷ (p ++ t)
unfolding trim
trim-append c p t hc h e =
    let front : drop_spaces (c ∷ (p ++ t)) ≡ c ∷ (p ++ t) =
      drop_solid (c ∷ []) (p ++ t) (hc, tt) refl in
    let turned : reverse (c ∷ (p ++ t)) ≡ reverse t ++ reverse (c ∷ p) = reverse-append (c ∷ p) t in
    let back : drop_spaces (reverse t ++ reverse (c ∷ p)) ≡ reverse t ++ reverse (c ∷ p) =
      drop_solid (reverse t) (reverse (c ∷ p)) (NoSpace-reverse t h) (is_empty-reverse t e) in
    ap (λ s. reverse (drop_spaces (reverse s))) front
    ∙ ap (λ s. reverse (drop_spaces s)) turned
    ∙ ap reverse back
    ∙ ap reverse (sym turned)
    ∙ reverse-reverse (c ∷ (p ++ t))

drop_all : (t : Text) → NoSpace t → is_empty t ≡ false → drop_spaces t ≡ t
unfolding drop_spaces
drop_all [] h e = absurd (cc)
drop_all (c ∷ t) h e = rw h.0 refl

-- A text without spaces is not trimmed.
pub trim_solid : (t : Text) → NoSpace t → is_empty t ≡ false → trim t ≡ t
unfolding trim
trim_solid t h e =
    ap (λ s. reverse (drop_spaces (reverse s))) (drop_all t h e)
    ∙ ap reverse (drop_all (reverse t) (NoSpace-reverse t h) (is_empty-reverse t e))
    ∙ reverse-reverse t

-- The first line feed ends the first line.
pub lines-feed : (p r : Text) → Lacks 10 p → (l : Text) × (lines (p ++ 10 ∷ r) ≡ l ∷ lines r)
unfolding lines line_ends
lines-feed p r h =
    (strip_cr p, ap line_ends (split-append 10 p r h) ∙ more (split 10 r) (is_empty-split 10 r))
  where
    more : (ps : List Text) → is_empty ps ≡ false → line_ends (p ∷ ps) ≡ strip_cr p ∷ line_ends ps
    more [] e = absurd (cc)
    more (q ∷ ps) e = refl
