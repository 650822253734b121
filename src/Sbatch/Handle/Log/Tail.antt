-- ===== src/Sbatch/Handle/Log/Tail.antt =====
-- Reading a log backwards gives its last lines.
use mathlib.Core.List.{append-nil}
use slurm_async_runner.Prelude.{
  ℕ, zero, suc, ◌+◌, ◌-◌, ◌≤◌, List, [], ◌∷◌, ◌++◌, append_assoc, Bool, true, false, if◌then◌else◌,
  ◌==◌, ltb, leb, length, length-append, All-append, ◌≢◌, ◌≡◌, refl, sym, ap, ◌∙◌, ◌⊎◌, inl, inr,
  arith, Bool-cases,
}
use slurm_async_runner.Prelude.Text.{Text, Lacks}
use slurm_async_runner.Prelude.Words.{lines, lines-feed}
use slurm_async_runner.Sbatch.Handle.Log.{
  take, drop, count_feeds, read_len, read_back, last_lines, read_last_lines, tail_read_chunk,
}

-- What the decoder does at a line feed: the parts around it are decoded on their own.
pub record DecodeIsLawful (decode : Text → Text) : Type 0 where
  pub decode-feed : (p s : Text) → decode (p ++ 10 ∷ s) ≡ decode p ++ 10 ∷ decode s

take-drop : (a b k : ℕ) (s : Text) → k ≡ a + b → take a s ++ take b (drop a s) ≡ take k s
take-drop zero b k s h = let same : b ≡ k = omega arith in ap (λ x. take x s) same
take-drop (suc a) zero zero [] h = refl
take-drop (suc a) (suc b) zero [] h = refl
take-drop (suc a) zero (suc k) [] h = refl
take-drop (suc a) (suc b) (suc k) [] h = refl
take-drop (suc a) b zero (c ∷ s) h = absurd (omega arith)
take-drop (suc a) b (suc k) (c ∷ s) h = ap (λ t. c ∷ t) (take-drop a b k s (omega arith))

take_all : (s : Text) → take (length s) s ≡ s
take_all [] = refl
take_all (c ∷ s) = ap (λ t. c ∷ t) (take_all s)

-- What was read ends the file, and it is all of it or holds more line feeds than lines are wanted.
Covers : Text → ℕ → Text → Type 0
Covers file n buf =
    (pre : Text) × (file ≡ pre ++ buf) × ((pre ≡ []) ⊎ (ltb n (count_feeds buf) ≡ true))

read_len_lem : (pos : ℕ) → (pos ≡ (pos - read_len pos) + read_len pos) × (pos - read_len pos ≤ pos)
read_len_lem pos = elim (Bool-cases (leb tail_read_chunk pos)) [
  | inl e ↦ rw e (ground arith, ground arith)
  | inr e ↦ rw e (ground arith, ground arith)
]

shorter : (pos rounds : ℕ) → (pos == 0) ≡ false → pos ≤ suc rounds → pos - read_len pos ≤ rounds
shorter pos rounds n h = elim (Bool-cases (leb tail_read_chunk pos)) [
  | inl e ↦ rw e (ground arith)
  | inr e ↦ rw e (ground arith)
]

enough :
    (file : Text) (n : ℕ) (pre buf : Text)
    → file ≡ pre ++ buf
    → ltb n (count_feeds buf) ≡ true
    → Covers file n buf
unfolding Covers
enough file n pre buf h many = (pre, h, inr many)

Covers-if :
    (file : Text) (n : ℕ) (b c : Bool) (x y z : Text)
    → (b ≡ true → Covers file n x)
    → (b ≡ false → c ≡ true → Covers file n y)
    → (b ≡ false → c ≡ false → Covers file n z)
    → Covers file n (if b then x else if c then y else z)
Covers-if file n true c x y z f g h = f refl
Covers-if file n false true x y z f g h = g refl refl
Covers-if file n false false x y z f g h = h refl refl

at_start :
    (file : Text) (n pos : ℕ) (buf : Text)
    → pos ≡ 0
    → file ≡ take pos file ++ buf
    → Covers file n buf
unfolding Covers
at_start file n pos buf z h = ([], h ∙ ap (λ k. take k file ++ buf) z, inl refl)

one_chunk :
    (file : Text) (pos : ℕ) (buf : Text)
    → file ≡ take pos file ++ buf
    → file
      ≡ take (pos - read_len pos) file
        ++ (take (read_len pos) (drop (pos - read_len pos) file) ++ buf)
one_chunk file pos buf h =
    h
    ∙ ap (λ t. t ++ buf)
        (sym (take-drop (pos - read_len pos) (read_len pos) pos file (read_len_lem pos).0))
    ∙ append_assoc (take (pos - read_len pos) file)
        (take (read_len pos) (drop (pos - read_len pos) file)) buf

read_back-Covers :
    (file : Text) (n rounds pos : ℕ) (buf : Text)
    → pos ≤ rounds
    → file ≡ take pos file ++ buf
    → Covers file n (read_back file n rounds pos buf)
unfolding read_back
read_back-Covers file n zero pos buf le h = at_start file n pos buf (omega arith) h
read_back-Covers file n (suc rounds) pos buf le h =
    let start = pos - read_len pos in
    let buf' = take (read_len pos) (drop start file) ++ buf in
    let split = one_chunk file pos buf h in
    Covers-if file n (pos == 0) (ltb n (count_feeds buf')) buf buf'
      (read_back file n rounds start buf') (λ z. at_start file n pos buf (ground arith) h)
      (λ nz many. enough file n (take start file) buf' split many)
      (λ nz few. read_back-Covers file n rounds start buf' (shorter pos rounds nz le) split)

-- Behind the first line feed of a text with one there is one fewer.
first_feed :
    (b : Text) (k : ℕ)
    → count_feeds b ≡ suc k
    → (p r : Text) × (b ≡ p ++ 10 ∷ r) × Lacks 10 p × (count_feeds r ≡ k)
unfolding count_feeds
first_feed [] k h = absurd (omega arith)
first_feed (c ∷ b) k h = elim (Bool-cases (c == 10)) [
  | inl e ↦ ([], b, ap (λ x. x ∷ b) (ground arith), tt, ground arith)
  | inr e ↦
      let (p, r, same, lacks, count) = first_feed b k (ground arith) in
      (c ∷ p, r, ap (λ t. c ∷ t) same, ((ground arith), lacks), count)
]

-- The lines behind a line feed are the last ones.
lines_behind :
    (p x y : Text)
    → Lacks 10 p
    → (ls : List Text) × (1 ≤ length ls) × (lines (p ++ (x ++ 10 ∷ y)) ≡ ls ++ lines y)
lines_behind p [] y h = let (l, e) = lines-feed p y h in (l ∷ [], omega arith, e)
lines_behind p (c ∷ x) y h = elim (Bool-cases (c == 10)) [
  | inl e ↦
      let (l, q) = lines-feed p (x ++ 10 ∷ y) h in
      let (ls, long, r) = lines_behind [] x y tt in
      let feed : c ≡ 10 = ground arith in
      (l ∷ ls, omega arith, ap (λ d. lines (p ++ d ∷ (x ++ 10 ∷ y))) feed ∙ q ∙ ap (λ t. l ∷ t) r)
  | inr e ↦
      let (ls, long, r) =
        lines_behind (p ++ c ∷ []) x y
          (All-append (λ d. d ≢ 10) p (c ∷ []) h ((ground arith), tt)) in
      (ls, long, ap lines (sym (append_assoc p (c ∷ []) (x ++ 10 ∷ y))) ∙ r)
]

drop-append : {A : Type 0} (ls m : List A) (k : ℕ) → drop (length ls + k) (ls ++ m) ≡ drop k m
drop-append [] m k = let same : 0 + k ≡ k = omega arith in ap (λ j. drop j m) same
drop-append (l ∷ ls) m k =
    let same : suc (length ls) + k ≡ suc (length ls + k) = omega arith in
    ap (λ j. drop j (l ∷ (ls ++ m))) same ∙ drop-append ls m k

last_lines_lem : (n : ℕ) (ls : List Text) → last_lines n ls ≡ drop (length ls - n) ls
last_lines_lem n ls = elim (Bool-cases (ltb n (length ls))) [
  | inl e ↦ rw e refl
  | inr e ↦ let none_over : 0 ≡ length ls - n = ground arith in rw e (ap (λ k. drop k ls) none_over)
]

last_lines-append :
    (n : ℕ) (ls m : List Text) → n ≤ length m → last_lines n (ls ++ m) ≡ last_lines n m
last_lines-append n ls m h =
    let over : length (ls ++ m) - n ≡ length ls + (length m - n) =
      omega (arith, length-append ls m) in
    last_lines_lem n (ls ++ m)
    ∙ ap (λ k. drop k (ls ++ m)) over
    ∙ drop-append ls m (length m - n)
    ∙ sym (last_lines_lem n m)

drop_all : {A : Type 0} (ls : List A) → drop (length ls) ls ≡ []
drop_all [] = refl
drop_all (l ∷ ls) = drop_all ls

module _ (decode : Text → Text) (law : DecodeIsLawful decode) where
  -- Every line feed ends a line.
  feeds_end_lines : (k : ℕ) (r : Text) → count_feeds r ≡ k → k ≤ length (lines (decode r))
  feeds_end_lines zero r h = omega arith
  feeds_end_lines (suc k) r h =
      let (p, q, same, lacks, count) = first_feed r k h in
      let (ls, long, e) = lines_behind [] (decode p) (decode q) tt in
      let later = feeds_end_lines k q count in
      let all : lines (decode r) ≡ ls ++ lines (decode q) =
        ap (λ t. lines (decode t)) same ∙ ap lines (law.decode-feed p q) ∙ e in
      omega (arith, later, long, ap length all, length-append ls (lines (decode q)))

  last_of_suffix :
      (file pre buf : Text) (n : ℕ)
      → file ≡ pre ++ buf
      → ltb n (count_feeds buf) ≡ true
      → last_lines n (lines (decode buf)) ≡ last_lines n (lines (decode file))
  last_of_suffix file pre buf n h many =
      let (p, r, same, lacks, count) = first_feed buf (count_feeds buf - 1) (ground arith) in
      let (ls, long, e) = lines_behind [] (decode p) (decode r) tt in
      let (ms, long', e') = lines_behind [] (decode (pre ++ p)) (decode r) tt in
      let enough_lines : n ≤ length (lines (decode r)) =
        (let many_lines = feeds_end_lines (count_feeds buf - 1) r count in ground arith) in
      let small : lines (decode buf) ≡ ls ++ lines (decode r) =
        ap (λ t. lines (decode t)) same ∙ ap lines (law.decode-feed p r) ∙ e in
      let whole : file ≡ (pre ++ p) ++ 10 ∷ r =
        h ∙ ap (λ t. pre ++ t) same ∙ sym (append_assoc pre p (10 ∷ r)) in
      let large : lines (decode file) ≡ ms ++ lines (decode r) =
        ap (λ t. lines (decode t)) whole ∙ ap lines (law.decode-feed (pre ++ p) r) ∙ e' in
      ap (last_lines n) small
      ∙ last_lines-append n ls (lines (decode r)) enough_lines
      ∙ sym (last_lines-append n ms (lines (decode r)) enough_lines)
      ∙ ap (last_lines n) (sym large)

  last_of_read :
      (file buf : Text) (n : ℕ)
      → Covers file n buf
      → last_lines n (lines (decode buf)) ≡ last_lines n (lines (decode file))
  unfolding Covers
  last_of_read file buf n (pre, h, inl whole) =
      ap (λ t. last_lines n (lines (decode t))) (sym (h ∙ ap (λ t. t ++ buf) whole))
  last_of_read file buf n (pre, h, inr many) = last_of_suffix file pre buf n h many

  no_lines : (ls : List Text) → last_lines 0 ls ≡ []
  no_lines ls = last_lines_lem 0 ls ∙ ap (λ k. drop k ls) (omega arith) ∙ drop_all ls

  -- The tail read gives the last `n` lines of the whole file, decoded, or all of them where it has fewer:
  -- the chunks, the stop after enough line feeds and a character that a chunk cuts do not show. The
  -- length of the file is enough for the rounds of the loop.
  pub read_last_lines_lem :
      (file : Text) (n : ℕ) → read_last_lines decode file n ≡ last_lines n (lines (decode file))
  unfolding read_last_lines
  read_last_lines_lem file n = elim (Bool-cases (n == 0)) [
    | inl e ↦
        let zero_lines : 0 ≡ n = ground arith in
        rw e (
          sym (no_lines (lines (decode file)))
          ∙ ap (λ k. last_lines k (lines (decode file))) zero_lines)
    | inr e ↦ rw e (
        last_of_read file (read_back file n (length file) (length file) []) n (
          read_back-Covers file n (length file) (length file) [] (omega arith)
            (sym (append-nil (take (length file) file) ∙ take_all file))))
  ]
