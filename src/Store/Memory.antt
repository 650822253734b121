-- ===== src/Store/Memory.antt =====
-- src/store.rs: `InMemoryStateStore`, and that it is a map.
pub mod Refines
use slurm_async_runner.Prelude.{
  ℕ, ◌+◌, List, [], ◌∷◌, map, Option, none, some, Bool, true, false, not, if◌then◌else◌, keep, ◌==◌,
  Result, ok, err, ◌≡◌, refl, arith, length, is_some,
}
use slurm_async_runner.Prelude.Text.{Text}
use slurm_async_runner.Dispatcher.{M, pure}
use slurm_async_runner.Store.{JobSnapshot, JobStateStore}

-- The entries of a `HashMap<Uuid, S>`.
abbrev pub Entries : Type 0 → Type 0
Entries S = List (ℕ × S)

module _ {S : Type 0} where
  unfoldable pub lookup : ℕ → Entries S → Option S
  lookup u [] = none
  lookup u ((v, s) ∷ m) = let rest = lookup u m in if u == v then some s else rest

  unfoldable pub remove : ℕ → Entries S → Entries S
  remove u [] = []
  remove u ((v, s) ∷ m) = let rest = remove u m in if u == v then rest else (v, s) ∷ rest

  unfoldable pub insert : ℕ → S → Entries S → Entries S
  unfolding remove
  insert u s m = (u, s) ∷ remove u m

  unfoldable pub values : Entries S → List S
  values m = map (λ e. e.1) m

  pub lookup-remove :
      (j u : ℕ) (m : Entries S) → lookup j (remove u m) ≡ (if j == u then none else lookup j m)
  unfolding lookup remove
  lookup-remove j u [] = ground arith
  lookup-remove j u ((v, s) ∷ m) = ground (arith, lookup-remove j u m)

  pub lookup-insert :
      (j u : ℕ) (s : S) (m : Entries S)
      → lookup j (insert u s m) ≡ (if j == u then some s else lookup j m)
  unfolding lookup insert
  lookup-insert j u s m = ground (arith, lookup-remove j u m)

  -- Each uuid has one entry.
  abbrev pub IsMap : Entries S → Type 0
  IsMap [] = Unit {0}
  IsMap ((u, s) ∷ m) = (lookup u m ≡ none) × IsMap m

  pub remove-IsMap : (u : ℕ) (m : Entries S) → IsMap m → IsMap (remove u m)
  unfolding remove
  remove-IsMap u [] h = tt
  remove-IsMap u ((v, s) ∷ m) h = ground (arith, remove-IsMap u m h.1, lookup-remove v u m)

  pub insert-IsMap : (u : ℕ) (s : S) (m : Entries S) → IsMap m → IsMap (insert u s m)
  unfolding insert
  insert-IsMap u s m h = (ground (arith, lookup-remove u u m), remove-IsMap u m h)

module _ {S : Type 0} (shape : JobSnapshot S) where
  abbrev pub in_memory : JobStateStore S (Entries S)
  in_memory = record {
    save = λ s m. (ok tt, insert (shape.uuid s) s m);
    load = λ u m. (ok (lookup u m), m);
    list = λ m. (ok (values m), m);
    delete = λ u m. (ok tt, remove u m);
  }

  -- The calls that change a store.
  pub data Change : Type 0 where
    saved : (s : S) → Change
    deleted : (u : ℕ) → Change

  unfoldable pub after : List Change → Entries S → Entries S
  after [] m = m
  after (saved s ∷ cs) m = after cs (in_memory.save s m).1
  after (deleted u ∷ cs) m = after cs (in_memory.delete u m).1
