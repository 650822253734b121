-- ===== src/Sbatch/QueryCache/Layers.antt =====
-- src/sbatch/manager.rs (`handle_dispatcher`): the three caches, one inside the other.
use slurm_async_runner.Prelude.{ℕ, List, [], ◌∷◌, Option, none, some, ◌≡◌, ◌≢◌, refl, arith}
use slurm_async_runner.Prelude.Text.{Text, codes, text_eq_sound}
use slurm_async_runner.Dispatcher.{Capture}
use slurm_async_runner.Sbatch.QueryCache.{Cached, Shape, capture, pass}
use slurm_async_runner.Sbatch.QueryCache.Squeue.{JobKey, squeue_shape, parse_argv}
use slurm_async_runner.Sbatch.QueryCache.Sacct.{
  sacct_shape, qgroup_shape, parse_sacct_argv, parse_qgroup_argv,
}

-- The program of a command decides which cache may recognise it.
abbrev program : List Text → Text
program [] = []
program (p ∷ args) = p

program-sacct :
    (argv : List Text) (ks : List JobKey)
    → parse_sacct_argv argv ≡ some ks
    → program argv ≡ codes "sacct"
unfolding parse_sacct_argv
program-sacct [] ks h = absurd (cc)
program-sacct (p ∷ []) ks h = absurd (cc)
program-sacct (p ∷ a ∷ []) ks h = absurd (cc)
program-sacct (p ∷ a ∷ b ∷ []) ks h = absurd (cc)
program-sacct (p ∷ a ∷ b ∷ c ∷ []) ks h = absurd (cc)
program-sacct (p ∷ a ∷ b ∷ c ∷ d ∷ []) ks h = absurd (cc)
program-sacct (p ∷ a ∷ b ∷ c ∷ d ∷ e ∷ []) ks h = absurd (cc)
program-sacct (p ∷ a ∷ b ∷ c ∷ d ∷ e ∷ f ∷ []) ks h = text_eq_sound p (codes "sacct") (ground arith)
program-sacct (p ∷ a ∷ b ∷ c ∷ d ∷ e ∷ f ∷ g ∷ l) ks h = absurd (cc)

program-squeue :
    (argv : List Text) (ks : List JobKey)
    → parse_argv argv ≡ some ks
    → program argv ≡ codes "squeue"
unfolding parse_argv
program-squeue [] ks h = absurd (cc)
program-squeue (p ∷ []) ks h = absurd (cc)
program-squeue (p ∷ a ∷ []) ks h = absurd (cc)
program-squeue (p ∷ a ∷ b ∷ []) ks h = absurd (cc)
program-squeue (p ∷ a ∷ b ∷ c ∷ []) ks h = absurd (cc)
program-squeue (p ∷ a ∷ b ∷ c ∷ d ∷ []) ks h = absurd (cc)
program-squeue (p ∷ a ∷ b ∷ c ∷ d ∷ e ∷ []) ks h = absurd (cc)
program-squeue (p ∷ a ∷ b ∷ c ∷ d ∷ e ∷ f ∷ []) ks h =
    text_eq_sound p (codes "squeue") (ground arith)
program-squeue (p ∷ a ∷ b ∷ c ∷ d ∷ e ∷ f ∷ g ∷ l) ks h = absurd (cc)

program-qgroup :
    (argv : List Text) (ks : List ℕ)
    → parse_qgroup_argv argv ≡ some ks
    → program argv ≡ codes "qgroup"
unfolding parse_qgroup_argv
program-qgroup [] ks h = absurd (cc)
program-qgroup (p ∷ []) ks h = absurd (cc)
program-qgroup (p ∷ a ∷ []) ks h = text_eq_sound p (codes "qgroup") (ground arith)
program-qgroup (p ∷ a ∷ b ∷ l) ks h = absurd (cc)

none_of : {A : Type 0} (o : Option A) → ((a : A) → o ≢ some a) → o ≡ none
none_of none h = refl
none_of (some a) h = absurd (h a refl)

-- The states of the sacct, squeue and qgroup caches around the world of the dispatcher.
abbrev pub Layered : Type 0 → Type 0
Layered W = Cached ℕ (Cached JobKey (Cached JobKey W))

module _ {W : Type 0} (now : W → ℕ) (ttl : ℕ) (inner : Capture W) where
  abbrev pub sacct_batched : Capture (Cached JobKey W)
  sacct_batched = capture sacct_shape now ttl inner

  abbrev pub squeue_batched : Capture (Cached JobKey (Cached JobKey W))
  squeue_batched = capture squeue_shape (λ s. now s.world) ttl sacct_batched

  unfoldable pub handle_dispatcher : Capture (Layered W)
  handle_dispatcher = capture qgroup_shape (λ s. now s.world.world) ttl squeue_batched

  passes :
      {K V : Type 0} (shape : Shape K) (clock : V → ℕ) (below : Capture V) (argv : List Text)
      (s : Cached K V)
      → shape.parse argv ≡ none
      → capture shape clock ttl below argv s
        ≡ ((below argv s.world).0, record s { world = (below argv s.world).1 })
  unfolding capture pass
  passes shape clock below argv s h = rw (capture, h) refl

  -- A command that none of the caches recognises is run as it is, and leaves the caches alone.
  pub handle_dispatcher-other :
      (argv : List Text) (s : Layered W)
      → parse_qgroup_argv argv ≡ none
      → parse_argv argv ≡ none
      → parse_sacct_argv argv ≡ none
      → ((handle_dispatcher argv s).0 ≡ (inner argv s.world.world.world).0)
        × ((handle_dispatcher argv s).1.world.world.world ≡ (inner argv s.world.world.world).1)
        × ((handle_dispatcher argv s).1.slot ≡ s.slot)
        × ((handle_dispatcher argv s).1.world.slot ≡ s.world.slot)
        × ((handle_dispatcher argv s).1.world.world.slot ≡ s.world.world.slot)
  unfolding handle_dispatcher
  handle_dispatcher-other argv s q u a =
      rw
        (
          passes qgroup_shape (λ t. now t.world.world) squeue_batched argv s q,
          passes squeue_shape (λ t. now t.world) sacct_batched argv s.world u,
          passes sacct_shape now inner argv s.world.world a,
        )
        (refl, refl, refl, refl, refl)

  -- The exit-code query of sacct is answered by the sacct cache: the other two let it through and keep
  -- their entries and their registries.
  pub handle_dispatcher-sacct :
      (argv : List Text) (ks : List JobKey) (s : Layered W)
      → parse_sacct_argv argv ≡ some ks
      → ((handle_dispatcher argv s).0 ≡ (sacct_batched argv s.world.world).0)
        × ((handle_dispatcher argv s).1.world.world ≡ (sacct_batched argv s.world.world).1)
        × ((handle_dispatcher argv s).1.slot ≡ s.slot)
        × ((handle_dispatcher argv s).1.world.slot ≡ s.world.slot)
  unfolding handle_dispatcher
  handle_dispatcher-sacct argv ks s h =
      let word = program-sacct argv ks h in
      let q : parse_qgroup_argv argv ≡ none =
        none_of _ (λ l e. let other = program-qgroup argv l e in cc) in
      let u : parse_argv argv ≡ none =
        none_of _ (λ l e. let other = program-squeue argv l e in cc) in
      rw
        (
          passes qgroup_shape (λ t. now t.world.world) squeue_batched argv s q,
          passes squeue_shape (λ t. now t.world) sacct_batched argv s.world u,
        )
        (refl, refl, refl, refl)
