-- ===== src/Options/Resources/Sound.antt =====
-- What the `--rsc` parser accepts.
use slurm_async_runner.Prelude.{
  ℕ, ◌≤◌, ◌<◌, List, [], ◌∷◌, Option, some, is_empty, ok, ok_or, refuse_if, ◌>>=◌, ◌>>◌, Bool, true,
  ◌||◌, ◌≡◌, arith, >>=-eq-ok, Ensures, Ensures-of, of_Ensures, Ensures-if, Ensures-refuse_if,
  Ensures-bind,
}
use slurm_async_runner.Prelude.Text.{Text, codes, text_eq, split_once, split}
use slurm_async_runner.Prelude.Number.{max_u32, parse_uint-le}
use slurm_async_runner.Schema.{SchemaParseError}
use slurm_async_runner.Options.Resources.{
  Memory, parse_memory, ResourceSpec, cpu, gpu, Keys, no_keys, parse_count, read_pair, read_token,
  read_tokens, finish, parse_resources, CountIsValid, MemoryIsValid, SpecIsValid, requests,
}

record KeysAreValid (k : Keys) : Type 0 where
  p : CountIsValid k.p
  t : CountIsValid k.t
  c : CountIsValid k.c
  m : MemoryIsValid k.m
  g : CountIsValid k.g

parse_memory-positive :
    (s : Text) (m : Memory) → parse_memory s ≡ ok m → (0 < m.value) × (m.value ≤ max_u32)
unfolding parse_memory
parse_memory-positive s m h = grind (arith, parse_uint-le max_u32)

parse_count-positive :
    (key raw s : Text) (n : ℕ) → parse_count key raw s ≡ ok n → (0 < n) × (n ≤ max_u32)
unfolding parse_count
parse_count-positive key raw s n h = grind (arith, parse_uint-le max_u32)

-- A count is stored only after it was read.
store_count :
    (b : Bool) (e : SchemaParseError) (key raw s : Text) (put : ℕ → Keys)
    → ((n : ℕ) → (0 < n) × (n ≤ max_u32) → KeysAreValid (put n))
    → Ensures KeysAreValid (refuse_if b e >> (parse_count key raw s >>= λ n. ok (put n)))
store_count b e key raw s put h = Ensures-refuse_if KeysAreValid b e _ (
    Ensures-bind (λ n. (0 < n) × (n ≤ max_u32)) KeysAreValid (parse_count key raw s) _
      (Ensures-of (λ n. (0 < n) × (n ≤ max_u32)) (parse_count key raw s)
        (parse_count-positive key raw s))
      h)

store_memory :
    (b : Bool) (e : SchemaParseError) (raw : Text) (put : Memory → Keys)
    → ((m : Memory) → (0 < m.value) × (m.value ≤ max_u32) → KeysAreValid (put m))
    → Ensures KeysAreValid (refuse_if b e >> (parse_memory raw >>= λ m. ok (put m)))
store_memory b e raw put h = Ensures-refuse_if KeysAreValid b e _ (
    Ensures-bind (λ m. (0 < m.value) × (m.value ≤ max_u32)) KeysAreValid (parse_memory raw) _
      (Ensures-of (λ m. (0 < m.value) × (m.value ≤ max_u32)) (parse_memory raw)
        (parse_memory-positive raw))
      h)

read_pair-valid :
    (s : Text) (k : Keys) (key value : Text)
    → KeysAreValid k
    → Ensures KeysAreValid (read_pair s k key value)
unfolding read_pair
read_pair-valid s k key value v =
    Ensures-if KeysAreValid (text_eq key (codes "p")) _ _
      (store_count _ _ (codes "p") value s (λ n. record k { p = some n })
        (λ n h. record { p = h; t = v.t; c = v.c; m = v.m; g = v.g }))
      (Ensures-if KeysAreValid (text_eq key (codes "t")) _ _
        (store_count _ _ (codes "t") value s (λ n. record k { t = some n })
          (λ n h. record { p = v.p; t = h; c = v.c; m = v.m; g = v.g }))
        (Ensures-if KeysAreValid (text_eq key (codes "c")) _ _
          (store_count _ _ (codes "c") value s (λ n. record k { c = some n })
            (λ n h. record { p = v.p; t = v.t; c = h; m = v.m; g = v.g }))
          (Ensures-if KeysAreValid (text_eq key (codes "m")) _ _
            (store_memory _ _ value (λ n. record k { m = some n })
              (λ n h. record { p = v.p; t = v.t; c = v.c; m = h; g = v.g }))
            (Ensures-if KeysAreValid (text_eq key (codes "g")) _ _
              (store_count _ _ (codes "g") value s (λ n. record k { g = some n })
                (λ n h. record { p = v.p; t = v.t; c = v.c; m = v.m; g = h }))
              tt))))

read_token-valid :
    (s : Text) (k : Keys) (tok : Text) → KeysAreValid k → Ensures KeysAreValid (read_token s k tok)
unfolding read_token
read_token-valid s k tok v =
    Ensures-bind (λ _. Unit {0}) KeysAreValid (ok_or (split_once b'=' tok) _) _
      (Ensures-of (λ _. Unit {0}) _ (λ _ _. tt))
      (λ kv _.
        Ensures-refuse_if KeysAreValid (is_empty kv.0 || is_empty kv.1) _ _
          (read_pair-valid s k kv.0 kv.1 v))

read_tokens-valid :
    (s : Text) (toks : List Text) (k : Keys)
    → KeysAreValid k
    → Ensures KeysAreValid (read_tokens s k toks)
unfolding read_tokens
read_tokens-valid s [] k v = v
read_tokens-valid s (tok ∷ toks) k v =
    Ensures-bind KeysAreValid KeysAreValid (read_token s k tok) (λ k'. read_tokens s k' toks)
      (read_token-valid s k tok v) (λ k' v'. read_tokens-valid s toks k' v')

finish-valid :
    (s : Text) (g p t c : Option ℕ) (m : Option Memory) (spec : ResourceSpec)
    → CountIsValid g
    → CountIsValid p
    → CountIsValid t
    → CountIsValid c
    → MemoryIsValid m
    → finish s g p t c m ≡ ok spec
    → SpecIsValid spec × (requests spec ≡ true)
unfolding finish
finish-valid s g p t c m (gpu n) vg vp vt vc vm h = ground arith
finish-valid s g p t c m (cpu r) vg vp vt vc vm h = ground arith

-- The parser of `--rsc` accepts only options with positive numbers that fit `u32`, of one flavour,
-- that request something.
pub parse_resources-SpecIsValid :
    (s : Text) (spec : ResourceSpec)
    → parse_resources s ≡ ok spec
    → SpecIsValid spec × (requests spec ≡ true)
unfolding parse_resources
parse_resources-SpecIsValid s spec h =
    let (u, p, q) = >>=-eq-ok (refuse_if (is_empty s) _) _ h in
    let (k, p', q') = >>=-eq-ok (read_tokens s no_keys (split b':' s)) _ q in
    let v =
      of_Ensures KeysAreValid (read_tokens s no_keys (split b':' s)) k
        (read_tokens-valid s (split b':' s) no_keys
          (record { p = tt; t = tt; c = tt; m = tt; g = tt }))
        p' in
    finish-valid s k.g k.p k.t k.c k.m spec v.g v.p v.t v.c v.m q'
