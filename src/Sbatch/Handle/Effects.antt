-- ===== src/Sbatch/Handle/Effects.antt =====
-- Reasoning on what the handle's operations do: conditions on the result and on the state behind.
use mathlib.Core.Path.{subst}
use slurm_async_runner.Prelude.{Result, ok, err, ◌≡◌, refl}
use slurm_async_runner.Prelude.Text.{Text}
use slurm_async_runner.Dispatcher.{M, ◌>>=◌}
use slurm_async_runner.Sbatch.Handle.{Handle, outside}

module _ {W : Type 0} where
  -- `P` holds of the value and the state where a result is returned, `E` of the state where it is an error.
  abbrev pub PostOf : {A : Type 0} → Result Text A → (A → W → Type 0) → (W → Type 0) → W → Type 0
  PostOf (ok a) P E w = P a w
  PostOf (err e) P E w = E w

  abbrev pub Post : {A : Type 0} → M W A → W → (A → W → Type 0) → (W → Type 0) → Type 0
  Post m w P E = PostOf (m w).0 P E (m w).1

  abbrev PostPair : {A : Type 0} → Result Text A × W → (A → W → Type 0) → (W → Type 0) → Type 0
  PostPair q P E = PostOf q.0 P E q.1

  bind_of :
      {A B : Type 0} (f : A → M W B) (P : B → W → Type 0) (E : W → Type 0) (r : Result Text A)
      (v : W)
      → PostOf r (λ a u. Post (f a) u P E) E v
      → PostPair (elim r [ ok a ↦ f a v | err e ↦ (err e, v) ]) P E
  bind_of f P E (ok a) v h = h
  bind_of f P E (err e) v h = h

  -- A sequence: the condition behind the first step is that the second reaches its own.
  pub Post-bind :
      {A B : Type 0} (m : M W A) (f : A → M W B) (w : W) (P : B → W → Type 0) (E : W → Type 0)
      → Post m w (λ a u. Post (f a) u P E) E
      → Post (m >>= f) w P E
  Post-bind m f w P E h = bind_of f P E (m w).0 (m w).1 h

  -- What holds of every value and state holds behind every step.
  any_of :
      {A : Type 0} (r : Result Text A) (P : A → W → Type 0) (E : W → Type 0) (w : W)
      → ((a : A) → P a w)
      → E w
      → PostOf r P E w
  any_of (ok a) P E w p e = p a
  any_of (err x) P E w p e = e

  weaker_of :
      {A : Type 0} (r : Result Text A) (w : W) (P P' : A → W → Type 0) (E E' : W → Type 0)
      → ((a : A) (u : W) → P a u → P' a u)
      → ((u : W) → E u → E' u)
      → PostOf r P E w
      → PostOf r P' E' w
  weaker_of (ok a) w P P' E E' p e h = p a w h
  weaker_of (err x) w P P' E E' p e h = e w h

  -- Conditions may be weakened.
  pub Post-weaker :
      {A : Type 0} (m : M W A) (w : W) (P P' : A → W → Type 0) (E E' : W → Type 0)
      → ((a : A) (u : W) → P a u → P' a u)
      → ((u : W) → E u → E' u)
      → Post m w P E
      → Post m w P' E'
  Post-weaker m w P P' E E' p e h = weaker_of (m w).0 (m w).1 P P' E E' p e h

  pub of_Post :
      {A : Type 0} (m : M W A) (w w' : W) (a : A) (P : A → W → Type 0) (E : W → Type 0)
      → Post m w P E
      → m w ≡ (ok a, w')
      → P a w'
  of_Post m w w' a P E h e = subst (λ q. PostPair q P E) e h

  pub of_Post_err :
      {A : Type 0} (m : M W A) (w w' : W) (x : Text) (P : A → W → Type 0) (E : W → Type 0)
      → Post m w P E
      → m w ≡ (err x, w')
      → E w'
  of_Post_err m w w' x P E h e = subst (λ q. PostPair q P E) e h

-- A call to the world leaves the handle's snapshot as it is, whether it fails or not, and then the
-- rest of the operation runs.
module _ {W A B : Type 0} (m : M W A) (f : A → M (Handle W) B) (h : Handle W)
    (P : B → Handle W → Type 0) (E : Handle W → Type 0) where
  same_of :
      (r : Result Text A) (v : W)
      → m h.world ≡ (r, v)
      → ((a : A) (w : W) → m h.world ≡ (ok a, w) → Post (f a) (record h { world = w }) P E)
      → E (record h { world = v })
      → PostOf r (λ a u. Post (f a) u P E) E (record h { world = v })
  same_of (ok a) v q p e = p a v q
  same_of (err x) v q p e = e

  -- The same, where the rest may rely on what the call answered.
  pub Post-answered :
      ((a : A) (w : W) → m h.world ≡ (ok a, w) → Post (f a) (record h { world = w }) P E)
      → ((w : W) → E (record h { world = w }))
      → Post (outside m >>= f) h P E
  Post-answered p e =
      Post-bind (outside m) f h P E (same_of (m h.world).0 (m h.world).1 refl p (e (m h.world).1))

  pub Post-outside :
      ((a : A) (w : W) → Post (f a) (record h { world = w }) P E)
      → ((w : W) → E (record h { world = w }))
      → Post (outside m >>= f) h P E
  Post-outside p e =
      let there = record h { world = (m h.world).1 } in
      Post-bind (outside m) f h P E (
        any_of (m h.world).0 (λ a u. Post (f a) u P E) E there (λ a. p a (m h.world).1)
          (e (m h.world).1))
