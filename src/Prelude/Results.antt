-- ===== src/Prelude/Results.antt =====
-- `Result<T, E>` with its `?` operator, and `Option` turned into it (`ok_or_else`, `map_err`).
use Prim.Native.Nat.{suc}
use mathlib.Core.Path.{◌≡◌, refl, ap, subst}
use mathlib.Core.Bool.{Bool, true, false}
use mathlib.Core.List.{List, [], ◌∷◌, map}
use mathlib.Core.Option.{Option, none, some}
use slurm_async_runner.Prelude.Tests.{if◌then◌else◌}
use slurm_async_runner.Prelude.Lists.{All, length, is_empty}

pub data Result {ℓ κ} (E : Type ℓ) (A : Type κ) : Type (ℓ ⊔ κ) where
  ok : A → Result E A
  err : E → Result E A

-- `o.ok_or(e)`.
abbrev pub ok_or {ℓ κ} : {E : Type ℓ} {A : Type κ} → Option A → E → Result E A
ok_or none e = err e
ok_or (some a) e = ok a

-- `if bad { return Err(e) }`.
abbrev pub refuse_if {ℓ} : {E : Type ℓ} → Bool → E → Result E (Unit {0})
refuse_if bad e = if bad then err e else ok tt

-- `r?`, with the rest of the function behind it.
module _ {ℓ κ μ} {E : Type ℓ} {A : Type κ} {B : Type μ} where
  infixl 5 ◌>>=◌
  abbrev pub ◌>>=◌ : Result E A → (A → Result E B) → Result E B
  r >>= rest = elim r [ ok a ↦ rest a | err e ↦ err e ]

  -- A step succeeds in front of its rest only where both do.
  pub >>=-eq-ok :
      (r : Result E A) (rest : A → Result E B) {b : B}
      → (r >>= rest) ≡ ok b
      → (a : A) × (r ≡ ok a) × (rest a ≡ ok b)
  >>=-eq-ok (err e) rest h = cc
  >>=-eq-ok (ok a) rest h = (a, refl, h)

infixl 5 ◌>>◌
abbrev pub ◌>>◌ {ℓ κ} : {E : Type ℓ} {B : Type κ} → Result E (Unit {0}) → Result E B → Result E B
checked >> rest = checked >>= (λ (u : Unit {0}). rest)

module _ {ℓ κ μ} {E : Type ℓ} {A : Type κ} {B : Type μ} where
  -- `iter.map(f).collect::<Result<Vec<_>, _>>()`: the first error stops the loop.
  abbrev pub collect : (A → Result E B) → List A → Result E (List B)
  collect f [] = ok []
  collect f (x ∷ xs) = f x >>= λ b. collect f xs >>= λ bs. ok (b ∷ bs)

  -- An entry-by-entry round trip is one of the list.
  pub collect-map :
      (show_b : B → A) (P : B → Type μ) (f : A → Result E B) (bs : List B)
      → ((b : B) → P b → f (show_b b) ≡ ok b)
      → All P bs
      → collect f (map show_b bs) ≡ ok bs
  collect-map show_b P f [] h all = refl
  collect-map show_b P f (b ∷ bs) h all = rw (h b all.0, collect-map show_b P f bs h all.1)

  -- What every successful step ensures, every collected element has.
  pub collect-All :
      (P : B → Type μ) (f : A → Result E B) (xs : List A) (bs : List B)
      → ((a : A) (b : B) → f a ≡ ok b → P b)
      → collect f xs ≡ ok bs
      → All P bs
  collect-All P f [] bs h e = let nil : [] ≡ bs = cc in subst (All P) nil tt
  collect-All P f (x ∷ xs) bs h e =
      let (b, p, q) = >>=-eq-ok (f x) (λ b. collect f xs >>= λ bs. ok (b ∷ bs)) e in
      let (rest, p', q') = >>=-eq-ok (collect f xs) (λ bs. ok (b ∷ bs)) q in
      let cons : b ∷ rest ≡ bs = cc in subst (All P) cons (h x b p, collect-All P f xs rest h p')

  pub length-collect :
      (f : A → Result E B) (xs : List A) (bs : List B)
      → collect f xs ≡ ok bs
      → length bs ≡ length xs
  length-collect f [] bs e = let nil : [] ≡ bs = cc in subst (λ l. length l ≡ 0) nil refl
  length-collect f (x ∷ xs) bs e =
      let (b, p, q) = >>=-eq-ok (f x) (λ b. collect f xs >>= λ bs. ok (b ∷ bs)) e in
      let (rest, p', q') = >>=-eq-ok (collect f xs) (λ bs. ok (b ∷ bs)) q in
      let cons : b ∷ rest ≡ bs = cc in
      subst (λ l. length l ≡ length (x ∷ xs)) cons (ap suc (length-collect f xs rest p'))

pub is_empty-collect {ℓ κ μ} :
    {E : Type ℓ} {A : Type κ} {B : Type μ} (f : A → Result E B) (xs : List A) (bs : List B)
    → is_empty xs ≡ false
    → collect f xs ≡ ok bs
    → is_empty bs ≡ false
is_empty-collect f [] bs h e = cc
is_empty-collect f (x ∷ xs) bs h e =
    let (b, p, q) = >>=-eq-ok (f x) (λ b. collect f xs >>= λ bs. ok (b ∷ bs)) e in
    let (rest, p', q') = >>=-eq-ok (collect f xs) (λ bs. ok (b ∷ bs)) q in
    let cons : b ∷ rest ≡ bs = cc in subst (λ l. is_empty l ≡ false) cons refl

-- What holds of the value, if there is one, with a rule for each way to build a result.
abbrev pub Ensures {ℓ κ μ} : {E : Type ℓ} {A : Type κ} → (A → Type μ) → Result E A → Type μ
Ensures P (ok a) = P a
Ensures P (err e) = Unit

module _ {ℓ κ μ} {E : Type ℓ} {A : Type κ} (P : A → Type μ) where
  pub Ensures-of : (r : Result E A) → ((a : A) → r ≡ ok a → P a) → Ensures P r
  Ensures-of (ok a) h = h a refl
  Ensures-of (err e) h = tt

  pub of_Ensures : (r : Result E A) (a : A) → Ensures P r → r ≡ ok a → P a
  of_Ensures r a h e = subst (Ensures P) e h

  pub Ensures-if :
      (b : Bool) (x y : Result E A) → Ensures P x → Ensures P y → Ensures P (if b then x else y)
  Ensures-if true x y hx hy = hx
  Ensures-if false x y hx hy = hy

  pub Ensures-refuse_if :
      (b : Bool) (e : E) (x : Result E A) → Ensures P x → Ensures P (refuse_if b e >> x)
  Ensures-refuse_if true e x h = tt
  Ensures-refuse_if false e x h = h

pub Ensures-bind {ℓ κ μ ν ξ} :
    {E : Type ℓ} {A : Type κ} {B : Type ξ} (Q : A → Type μ) (P : B → Type ν) (m : Result E A)
    (f : A → Result E B)
    → Ensures Q m
    → ((a : A) → Q a → Ensures P (f a))
    → Ensures P (m >>= f)
Ensures-bind Q P (ok a) f h k = k a h
Ensures-bind Q P (err e) f h k = tt
