-- ===== src/Options/Resources/RoundTrip.antt =====
-- The `--rsc` text: printing and then parsing.
use slurm_async_runner.Prelude.{
  ℕ, ◌≤◌, ◌<◌, List, [], ◌∷◌, ◌++◌, Option, none, some, is_empty, ok, true, false, ◌||◌, ◌≡◌,
  is_some, refl, arith, All, All-append, append-nil, ◌≢◌, ◌∙◌, All-map,
}
use mathlib.Core.Path.{subst}
use slurm_async_runner.Prelude.Text.{
  Text, codes, split_once, join, is_digit, Lacks, split_last-append, is_empty-append,
  split_of_Lacks, is_empty-join_of_filled, split-join_of_filled,
}
use slurm_async_runner.Prelude.Number.{max_u32, show, show-Lacks, is_empty-show, parse_uint-show}
use slurm_async_runner.Options.Resources.{
  MemoryUnit, kilo, Memory, show_memory, parse_memory, split_unit, unit_char, ResourceSpecCpu,
  ResourceSpec, cpu, gpu, count_part, memory_part, cpu_parts, show_resources, no_keys, parse_count,
  read_tokens, finish, parse_resources, CountIsValid, MemoryIsValid, CpuIsValid, SpecIsValid,
  requests,
}

unit_not_digit : (u : MemoryUnit) → is_digit (unit_char u) ≡ false
unit_not_digit kilo = refl
unit_not_digit _ = refl

split_unit-char :
    (s front : Text) (u : MemoryUnit) → split_unit s front (unit_char u) ≡ ok (front, u)
unfolding split_unit
split_unit-char s front kilo = refl
split_unit-char s front _ = refl

pub parse-show_memory :
    (m : Memory) → 0 < m.value → m.value ≤ max_u32 → parse_memory (show_memory m) ≡ ok m
unfolding parse_memory show_memory
parse-show_memory m p h = ground (
  arith,
  is_empty-append (show m.value) (unit_char m.unit) [],
  split_last-append (show m.value) (unit_char m.unit),
  split_unit-char (show m.value ++ unit_char m.unit ∷ []) (show m.value) m.unit,
  is_empty-show m.value,
  parse_uint-show max_u32 m.value h,
)

is_empty-show_memory : (m : Memory) → is_empty (show_memory m) ≡ false
unfolding show_memory
is_empty-show_memory m = is_empty-append (show m.value) (unit_char m.unit) []

parse_count-show : (key s : Text) (n : ℕ) → 0 < n → n ≤ max_u32 → parse_count key (show n) s ≡ ok n
unfolding parse_count
parse_count-show key s n p h = ground (arith, parse_uint-show max_u32 n h)

-- Each part sets the variable of its key, and no part leaves it as it is.
module _ (s : Text) (rest : List Text) where
  read_p :
      (o : Option ℕ) (t c : Option ℕ) (m : Option Memory) (g : Option ℕ)
      → CountIsValid o
      → read_tokens s (record { p = none; t = t; c = c; m = m; g = g }) (count_part b'p' o ++ rest)
        ≡ read_tokens s (record { p = o; t = t; c = c; m = m; g = g }) rest
  unfolding read_tokens count_part split_once
  read_p none t c m g v = refl
  read_p (some n) t c m g v = rw (is_empty-show n, parse_count-show (codes "p") s n v.0 v.1)

  read_t :
      (o : Option ℕ) (p c : Option ℕ) (m : Option Memory) (g : Option ℕ)
      → CountIsValid o
      → read_tokens s (record { p = p; t = none; c = c; m = m; g = g }) (count_part b't' o ++ rest)
        ≡ read_tokens s (record { p = p; t = o; c = c; m = m; g = g }) rest
  unfolding read_tokens count_part split_once
  read_t none p c m g v = refl
  read_t (some n) p c m g v = rw (is_empty-show n, parse_count-show (codes "t") s n v.0 v.1)

  read_c :
      (o : Option ℕ) (p t : Option ℕ) (m : Option Memory) (g : Option ℕ)
      → CountIsValid o
      → read_tokens s (record { p = p; t = t; c = none; m = m; g = g }) (count_part b'c' o ++ rest)
        ≡ read_tokens s (record { p = p; t = t; c = o; m = m; g = g }) rest
  unfolding read_tokens count_part split_once
  read_c none p t m g v = refl
  read_c (some n) p t m g v = rw (is_empty-show n, parse_count-show (codes "c") s n v.0 v.1)

  read_m :
      (o : Option Memory) (p t c g : Option ℕ)
      → MemoryIsValid o
      → read_tokens s (record { p = p; t = t; c = c; m = none; g = g }) (memory_part o ++ rest)
        ≡ read_tokens s (record { p = p; t = t; c = c; m = o; g = g }) rest
  unfolding read_tokens memory_part split_once
  read_m none p t c g v = refl
  read_m (some m) p t c g v = rw (is_empty-show_memory m, parse-show_memory m v.0 v.1)

read-cpu_parts :
    (s : Text) (r : ResourceSpecCpu)
    → CpuIsValid r
    → read_tokens s no_keys (cpu_parts r)
      ≡ ok (record { p = r.p; t = r.t; c = r.c; m = r.m; g = none })
unfolding cpu_parts
read-cpu_parts s r v =
    read_p s (count_part b't' r.t ++ (count_part b'c' r.c ++ memory_part r.m)) r.p none none none
      none v.p
    ∙ read_t s (count_part b'c' r.c ++ memory_part r.m) r.t r.p none none none v.t
    ∙ read_c s (memory_part r.m) r.c r.p r.t none none v.c
    ∙ (rw append-nil at (read_m s [] r.m r.p r.t r.c none v.m))
    ∙ done
  where
    done :
        read_tokens s (record { p = r.p; t = r.t; c = r.c; m = r.m; g = none }) []
        ≡ ok (record { p = r.p; t = r.t; c = r.c; m = r.m; g = none })
    done = unfold read_tokens in refl

-- A part is filled and holds no colon.
abbrev IsPart : Text → Type 0
IsPart p = Lacks b':' p × (is_empty p ≡ false)

count_part-IsPart : (key : ℕ) (o : Option ℕ) → key ≢ b':' → All IsPart (count_part key o)
unfolding count_part
count_part-IsPart key none h = tt
count_part-IsPart key (some n) h = (((h, (omega arith, show-Lacks b':' n refl)), refl), tt)

show_memory-Lacks : (m : Memory) → Lacks b':' (show_memory m)
unfolding show_memory
show_memory-Lacks m =
    All-append _ (show m.value) (unit_char m.unit ∷ []) (show-Lacks b':' m.value refl)
      (ground arith, tt)

memory_part-IsPart : (o : Option Memory) → All IsPart (memory_part o)
unfolding memory_part
memory_part-IsPart none = tt
memory_part-IsPart (some m) = (((omega arith, (omega arith, show_memory-Lacks m)), refl), tt)

cpu_parts-IsPart : (r : ResourceSpecCpu) → All IsPart (cpu_parts r)
unfolding cpu_parts
cpu_parts-IsPart r =
    All-append _ (count_part b'p' r.p) _ (count_part-IsPart b'p' r.p (omega arith)) (
      All-append _ (count_part b't' r.t) _ (count_part-IsPart b't' r.t (omega arith)) (
        All-append _ (count_part b'c' r.c) _ (count_part-IsPart b'c' r.c (omega arith))
          (memory_part-IsPart r.m)))

cpu_parts_filled_of :
    (p t c : Option ℕ) (m : Option Memory)
    → is_some p || is_some t || is_some c || is_some m ≡ true
    → is_empty (count_part b'p' p ++ (count_part b't' t ++ (count_part b'c' c ++ memory_part m)))
      ≡ false
unfolding count_part memory_part
cpu_parts_filled_of (some n) t c m h = refl
cpu_parts_filled_of none (some n) c m h = refl
cpu_parts_filled_of none none (some n) m h = refl
cpu_parts_filled_of none none none (some n) h = refl
cpu_parts_filled_of none none none none h = cc

cpu_parts_filled : (r : ResourceSpecCpu) → requests (cpu r) ≡ true → is_empty (cpu_parts r) ≡ false
unfolding cpu_parts
cpu_parts_filled r h = cpu_parts_filled_of r.p r.t r.c r.m h

finish-cpu :
    (s : Text) (p t c : Option ℕ) (m : Option Memory)
    → is_some p || is_some t || is_some c || is_some m ≡ true
    → finish s none p t c m ≡ ok (cpu (record { p = p; t = t; c = c; m = m }))
unfolding finish
finish-cpu s (some n) t c m h = refl
finish-cpu s none (some n) c m h = refl
finish-cpu s none none (some n) m h = refl
finish-cpu s none none none (some n) h = refl
finish-cpu s none none none none h = cc

parse-show_cpu :
    (r : ResourceSpecCpu)
    → CpuIsValid r
    → requests (cpu r) ≡ true
    → parse_resources (show_resources (cpu r)) ≡ ok (cpu r)
unfolding parse_resources show_resources
parse-show_cpu r v h =
    let ps = cpu_parts r in
    rw
      (
        is_empty-join_of_filled b':' ps (cpu_parts_filled r h)
            (All-map (λ p q. q.1) ps (cpu_parts-IsPart r)),
        split-join_of_filled b':' ps (cpu_parts_filled r h)
            (All-map (λ p q. q.0) ps (cpu_parts-IsPart r)),
        read-cpu_parts (join b':' ps) r v,
      )
      (finish-cpu (join b':' ps) r.p r.t r.c r.m h)

parse-show_gpu :
    (g : ℕ) → 0 < g → g ≤ max_u32 → parse_resources (show_resources (gpu g)) ≡ ok (gpu g)
unfolding parse_resources show_resources split_once
parse-show_gpu g p h = rw (
  split_of_Lacks b':' (b'g' ∷ b'=' ∷ show g) (omega arith, (omega arith, show-Lacks b':' g refl)),
  is_empty-show g,
  parse_count-show (codes "g") _ g p h,
)

-- The text of a valid `--rsc` option (positive numbers) that requests something parses to the same
-- option.
pub parse_resources-show_resources :
    (spec : ResourceSpec)
    → SpecIsValid spec
    → requests spec ≡ true
    → parse_resources (show_resources spec) ≡ ok spec
parse_resources-show_resources (cpu r) v h = parse-show_cpu r v h
parse_resources-show_resources (gpu g) v h = parse-show_gpu g v.0 v.1

show_nothing :
    (p t c : Option ℕ) (m : Option Memory)
    → is_some p || is_some t || is_some c || is_some m ≡ false
    → join b':' (count_part b'p' p ++ (count_part b't' t ++ (count_part b'c' c ++ memory_part m)))
      ≡ []
unfolding count_part memory_part join
show_nothing (some n) t c m h = cc
show_nothing none (some n) c m h = cc
show_nothing none none (some n) m h = cc
show_nothing none none none (some n) h = cc
show_nothing none none none none h = refl

-- The option that requests nothing prints as the empty text, which the parser refuses.
pub parse_resources-nothing :
    (spec : ResourceSpec)
    → requests spec ≡ false
    → (show_resources spec ≡ [])
      × ((r : ResourceSpec) → parse_resources (show_resources spec) ≢ ok r)
unfolding show_resources cpu_parts parse_resources
parse_resources-nothing (gpu g) h = absurd (cc)
parse_resources-nothing (cpu r) h =
    let e : show_resources (cpu r) ≡ [] = show_nothing r.p r.t r.c r.m h in
    (
      e,
      λ r' q.
          let q' : parse_resources [] ≡ ok r' = subst (λ t. parse_resources t ≡ ok r') e q in cc,
    )
