-- ===== src/Options/ArraySpec/RoundTrip.antt =====
-- The `--array` text: printing and then parsing, and what the parser accepts.
use slurm_async_runner.Prelude.{
  ℕ, List, [], ◌∷◌, ◌++◌, map, Option, none, some, All, is_empty, ok, ◌==◌, ◌≡◌, refl, arith, false,
  All-append, append-nil, All-of_map, collect-map,
}
use slurm_async_runner.Prelude.Text.{
  Text, join, Lacks, split_once-append, split_once_of_Lacks, is_digit, is_empty-append,
  is_empty-append_left, is_empty-join, split-join, Lacks-join,
}
use slurm_async_runner.Prelude.Number.{max_u32, show, show-Lacks, is_empty-show, parse_uint-show}
use slurm_async_runner.Options.ArraySpec.{
  ArrayIndex, SlurmArraySpec, single, range, stepped, parse_spec, parse_index, show_spec,
  show_index, IndexIsValid, CapIsValid, SpecIsValid, split_cap, show_cap,
}

-- A range holds no separator of the outer levels.
show_pair-Lacks :
    (d e a b : ℕ) → is_digit d ≡ false → (d == e) ≡ false → Lacks d (show a ++ e ∷ show b)
show_pair-Lacks d e a b h n =
    All-append _ (show a) (e ∷ show b) (show-Lacks d a h) (ground arith, show-Lacks d b h)

-- Each entry is read back from its text.
pub parse-show_index : (i : ArrayIndex) → IndexIsValid i → parse_index (show_index i) ≡ ok i
unfolding parse_index show_index
parse-show_index (single i) h = ground (
  arith,
  is_empty-show i,
  split_once_of_Lacks b':' (show i) (show-Lacks b':' i refl),
  split_once_of_Lacks b'-' (show i) (show-Lacks b'-' i refl),
  parse_uint-show max_u32 i h,
)
parse-show_index (range a b) h = ground (
  arith,
  is_empty-append (show a) b'-' (show b),
  split_once_of_Lacks b':' (show a ++ b'-' ∷ show b) (show_pair-Lacks b':' b'-' a b refl refl),
  split_once-append b'-' (show a) (show b) (show-Lacks b'-' a refl),
  parse_uint-show max_u32 a (omega arith),
  parse_uint-show max_u32 b h.1,
)
parse-show_index (stepped a b c) h =
    let pair = show a ++ b'-' ∷ show b in
    ground (
      arith,
      is_empty-append pair b':' (show c),
      split_once-append b':' pair (show c) (show_pair-Lacks b':' b'-' a b refl refl),
      split_once-append b'-' (show a) (show b) (show-Lacks b'-' a refl),
      parse_uint-show max_u32 a (omega arith),
      parse_uint-show max_u32 b h.1,
      parse_uint-show max_u32 c h.3,
    )

show_index-Lacks :
    (d : ℕ)
    → is_digit d ≡ false
    → (d == b'-') ≡ false
    → (d == b':') ≡ false
    → (i : ArrayIndex) → Lacks d (show_index i)
unfolding show_index
show_index-Lacks d h n m (single i) = show-Lacks d i h
show_index-Lacks d h n m (range a b) = show_pair-Lacks d b'-' a b h n
show_index-Lacks d h n m (stepped a b c) =
    All-append _ (show a ++ b'-' ∷ show b) (b':' ∷ show c) (show_pair-Lacks d b'-' a b h n)
      (ground arith, show-Lacks d c h)

is_empty-show_index : (i : ArrayIndex) → is_empty (show_index i) ≡ false
unfolding show_index
is_empty-show_index (single i) = is_empty-show i
is_empty-show_index (range a b) = is_empty-append (show a) b'-' (show b)
is_empty-show_index (stepped a b c) = is_empty-append (show a ++ b'-' ∷ show b) b':' (show c)

split_cap-show :
    (t : Text) (cap : Option ℕ)
    → Lacks b'%' t
    → CapIsValid cap
    → split_cap (t ++ show_cap cap) ≡ ok (t, cap)
unfolding split_cap show_cap
split_cap-show t none h v = rw append-nil (ground (arith, split_once_of_Lacks b'%' t h))
split_cap-show t (some n) h v =
    ground (arith, split_once-append b'%' t (show n) h, parse_uint-show max_u32 n v.1)

show_list : ArrayIndex → List ArrayIndex → Text
show_list i is = join b',' (map show_index (i ∷ is))

parse-show_parts :
    (i : ArrayIndex) (is : List ArrayIndex) (cap : Option ℕ)
    → All IndexIsValid (i ∷ is)
    → CapIsValid cap
    → parse_spec (show_list i is ++ show_cap cap)
      ≡ ok (record { indices = i ∷ is; max_concurrent = cap })
unfolding parse_spec show_list
parse-show_parts i is cap h v =
    let t = show_list i is in
    let filled = is_empty-join b',' (show_index i) (map show_index is) (is_empty-show_index i) in
    let free =
      Lacks-join b',' b'%' (map show_index (i ∷ is)) (omega arith)
        (All-of_map (Lacks b'%') show_index (i ∷ is) (show_index-Lacks b'%' refl refl refl)) in
    rw (
      is_empty-append_left t (show_cap cap) filled,
      split_cap-show t cap free v,
      filled,
      split-join b',' (show_index i) (map show_index is)
          (All-of_map (Lacks b',') show_index (i ∷ is) (show_index-Lacks b',' refl refl refl)),
      collect-map show_index IndexIsValid parse_index (i ∷ is) parse-show_index h,
    )

parse-show_lists :
    (is : List ArrayIndex) (cap : Option ℕ)
    → is_empty is ≡ false
    → All IndexIsValid is
    → CapIsValid cap
    → parse_spec (show_spec (record { indices = is; max_concurrent = cap }))
      ≡ ok (record { indices = is; max_concurrent = cap })
unfolding show_spec show_list
parse-show_lists [] cap e h v = cc
parse-show_lists (i ∷ is) cap e h v = parse-show_parts i is cap h v

-- The text of a valid `--array` option (a filled list of valid entries, a positive cap) parses to
-- the same option.
pub parse_spec-show_spec :
    (spec : SlurmArraySpec) → SpecIsValid spec → parse_spec (show_spec spec) ≡ ok spec
parse_spec-show_spec spec v =
    parse-show_lists spec.indices spec.max_concurrent v.listed v.entries v.cap
