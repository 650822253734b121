-- ===== src/Dispatcher.antt =====
-- src/dispatcher.rs: the output of a subprocess, and the effect of the functions that run one. The
-- world `W` that a subprocess reads and changes is a parameter; an error is its message.
use slurm_async_runner.Prelude.{
  ◌≡◌, refl, ap, ℕ, List, ◌∷◌, ◌++◌, Bool, false, Result, ok, err, if◌then◌else◌, is_empty, ◌==◌,
}
use slurm_async_runner.Prelude.Text.{Text, codes}
use slurm_async_runner.Prelude.Words.{trim}
use slurm_async_runner.Prelude.Int.{ℤ, pos, negsuc}

pub record CaptureOutput : Type 0 where
  pub exit_code : ℤ
  pub stdout : Text
  pub stderr : Text

abbrev pub is_zero : ℤ → Bool
is_zero (pos n) = n == 0
is_zero (negsuc n) = false

abbrev pub success : CaptureOutput → Bool
success out = is_zero out.exit_code

abbrev pub newline : ℕ
newline = 10

unfoldable pub diagnostic : CaptureOutput → Text
diagnostic out =
    if is_empty (trim out.stderr)
    then out.stdout
    else if is_empty out.stdout
    then codes "[stderr]" ++ newline ∷ out.stderr
    else out.stdout ++ newline ∷ (codes "[stderr]" ++ newline ∷ out.stderr)

-- A function that may run subprocesses and may fail with an error of type `E`.
abbrev pub Effect : Type 0 → Type 0 → Type 0 → Type 0
Effect E W A = W → Result E A × W

-- The same with a message for an error.
abbrev pub M : Type 0 → Type 0 → Type 0
M W A = Effect Text W A

infixl 5 ◌>>=◌ ◌>>◌
abbrev pub ◌>>=◌ : {E W A B : Type 0} → Effect E W A → (A → Effect E W B) → Effect E W B
◌>>=◌ m f w = elim (m w).0 [ ok a ↦ f a (m w).1 | err e ↦ (err e, (m w).1) ]

abbrev pub ◌>>◌ : {E W B : Type 0} → Effect E W (Unit {0}) → Effect E W B → Effect E W B
m >> k = m >>= λ _. k

abbrev pub pure : {E W A : Type 0} → A → Effect E W A
pure a w = (ok a, w)

abbrev pub lift : {E W A : Type 0} → Result E A → Effect E W A
lift r w = (r, w)

-- A step that succeeds, in front of the rest.
pub >>=-of_ok :
    {E W A B : Type 0} (m : Effect E W A) (f : A → Effect E W B) (w w' : W) (a : A)
    → m w ≡ (ok a, w')
    → (m >>= f) w ≡ f a w'
>>=-of_ok m f w w' a h = ap (λ q. elim q.0 [ ok x ↦ f x q.1 | err e ↦ (err e, q.1) ]) h

-- A step that fails, in front of the rest.
pub >>=-of_err :
    {E W A B : Type 0} (m : Effect E W A) (f : A → Effect E W B) (w w' : W) (e : E)
    → m w ≡ (err e, w')
    → (m >>= f) w ≡ (err e, w')
>>=-of_err m f w w' e h = ap (λ q. elim q.0 [ ok x ↦ f x q.1 | err y ↦ (err y, q.1) ]) h

-- A sequence succeeds only where its first step does, and its rest behind it.
pub >>=-inv :
    {E W A B : Type 0} (m : Effect E W A) (f : A → Effect E W B) (w w' : W) (b : B)
    → (m >>= f) w ≡ (ok b, w')
    → (a : A) × (u : W) × (m w ≡ (ok a, u)) × (f a u ≡ (ok b, w'))
>>=-inv {E} {W} {A} {B} m f w w' b h = by_result (m w).0 (m w).1 refl h
  where
    by_result :
        (r : Result E A) (u : W)
        → m w ≡ (r, u)
        → elim r [ ok x ↦ f x u | err e ↦ (err e, u) ] ≡ (ok b, w')
        → (a : A) × (u : W) × (m w ≡ (ok a, u)) × (f a u ≡ (ok b, w'))
    by_result (ok a) u p q = (a, u, p, q)
    by_result (err e) u p q = absurd (cc)

-- `.map_err(f)?`.
abbrev pub map_err : {E F W A : Type 0} → (E → F) → Effect E W A → Effect F W A
map_err f m w = elim (m w).0 [ ok a ↦ (ok a, (m w).1) | err e ↦ (err (f e), (m w).1) ]

pub map_err-inv :
    {E F W A : Type 0} (f : E → F) (m : Effect E W A) (w w' : W) (a : A)
    → map_err f m w ≡ (ok a, w')
    → m w ≡ (ok a, w')
map_err-inv {E} {F} {W} {A} f m w w' a h = by_result (m w).0 (m w).1 refl h
  where
    by_result :
        (r : Result E A) (u : W)
        → m w ≡ (r, u)
        → map_err f (λ v. (r, u)) w ≡ (ok a, w')
        → m w ≡ (ok a, w')
    by_result (ok x) u p q = cc
    by_result (err e) u p q = absurd (cc)

pub map_err-of_ok :
    {E F W A : Type 0} (f : E → F) (m : Effect E W A) (w w' : W) (a : A)
    → m w ≡ (ok a, w')
    → map_err f m w ≡ (ok a, w')
map_err-of_ok f m w w' a h = ap (λ q. elim q.0 [ ok x ↦ (ok x, q.1) | err e ↦ (err (f e), q.1) ]) h

-- `JobDispatcher::capture`.
abbrev pub Capture : Type 0 → Type 0
Capture W = List Text → M W CaptureOutput
