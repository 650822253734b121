-- ===== src/Polling/Laws.antt =====
-- When the polling loop ends, and with what.
use slurm_async_runner.Prelude.{
  ℕ, zero, suc, ◌+◌, ◌≤◌, ◌<◌, Option, some, Bool, true, false, Result, ok, err, ◌≡◌, refl, sym, ap,
  ◌∙◌, ◌⊎◌, inl, inr, Bool-cases, is_some, arith, if◌then◌else◌, leb,
}
use slurm_async_runner.Prelude.Text.{Text}
use slurm_async_runner.Dispatcher.{M}
use slurm_async_runner.Polling.{wait_loop, max_consecutive_refresh_failures}

abbrev pub is_err : {E A : Type 0} → Result E A → Bool
is_err (ok a) = false
is_err (err e) = true

Result-cases : {E A : Type 0} (r : Result E A) → ((a : A) × (r ≡ ok a)) ⊎ ((e : E) × (r ≡ err e))
Result-cases (ok a) = inl (a, refl)
Result-cases (err e) = inr (e, refl)

module _ {H S : Type 0} (refresh : M H S) (sleep : H → H) where
  -- The state behind several polls, each with its pause.
  abbrev pub polls : ℕ → H → H
  polls zero h = h
  polls (suc n) h = polls n (sleep (refresh h).1)

  -- Several polls in a row fail.
  abbrev pub Fails : ℕ → H → Type 0
  Fails zero h = Unit {0}
  Fails (suc n) h = (is_err (refresh h).0 ≡ true) × Fails n (sleep (refresh h).1)

module _ {H S : Type 0} (refresh : M H S) (done : S → Bool) (sleep : H → H) where
  -- One round, by the result of its poll.
  after : ℕ → ℕ → Result Text S × H → Option (Result Text S) × H
  after rounds failures q = elim q.0 [
    | ok snap ↦
        if done snap
        then (some (ok snap), q.1)
        else wait_loop refresh done sleep rounds 0 (sleep q.1)
    | err e ↦
        if leb max_consecutive_refresh_failures (failures + 1)
        then (some (err e), q.1)
        else wait_loop refresh done sleep rounds (failures + 1) (sleep q.1)
  ]

  round :
      (rounds failures : ℕ) (h : H)
      → wait_loop refresh done sleep (suc rounds) failures h ≡ after rounds failures (refresh h)
  unfolding wait_loop after
  round rounds failures h = refl

  -- Four failures in a row are tolerated, counted with those before.
  tolerate :
      (n failures rounds : ℕ) (h : H)
      → n + failures < max_consecutive_refresh_failures
      → Fails refresh sleep n h
      → wait_loop refresh done sleep (n + rounds) failures h
        ≡ wait_loop refresh done sleep rounds (n + failures) (polls refresh sleep n h)
  unfolding after
  tolerate zero failures rounds h lt fails = ground arith
  tolerate (suc n) failures rounds h lt fails = elim (Result-cases (refresh h).0) [
    | inl (a, e) ↦ absurd (cc)
    | inr (x, e) ↦
        let count : suc n + rounds ≡ suc (n + rounds) = omega arith in
        let sum : n + (failures + 1) ≡ suc n + failures = omega arith in
        let more : leb max_consecutive_refresh_failures (failures + 1) ≡ false = ground arith in
        let first : after (n + rounds) failures (refresh h)
            ≡ wait_loop refresh done sleep (n + rounds) (failures + 1) (sleep (refresh h).1) =
          rw (e, more) refl in
        let rest = tolerate n (failures + 1) rounds (sleep (refresh h).1) (omega arith) fails.1 in
        rw (count, sym sum) (round (n + rounds) failures h ∙ first ∙ rest)
  ]

  settles :
      (rounds failures : ℕ) (h h' : H) (snap : S)
      → refresh h ≡ (ok snap, h')
      → done snap ≡ true
      → wait_loop refresh done sleep (suc rounds) failures h ≡ (some (ok snap), h')
  unfolding after
  settles rounds failures h h' snap e s =
      round rounds failures h ∙ ap (after rounds failures) e ∙ rw s refl

  breaks :
      (rounds failures : ℕ) (h h' : H) (x : Text)
      → refresh h ≡ (err x, h')
      → max_consecutive_refresh_failures ≤ failures + 1
      → wait_loop refresh done sleep (suc rounds) failures h ≡ (some (err x), h')
  unfolding after
  breaks rounds failures h h' x e le =
      let more : leb max_consecutive_refresh_failures (failures + 1) ≡ true = ground arith in
      round rounds failures h ∙ ap (after rounds failures) e ∙ rw more refl

  -- The loop ends with the snapshot of a poll that is done, if at most four polls came before it and
  -- all of them failed; one round for each poll is enough.
  pub wait_loop-tolerates :
      (n : ℕ) (h h' : H) (snap : S)
      → n < max_consecutive_refresh_failures
      → Fails refresh sleep n h
      → refresh (polls refresh sleep n h) ≡ (ok snap, h')
      → done snap ≡ true
      → wait_loop refresh done sleep (n + 1) 0 h ≡ (some (ok snap), h')
  wait_loop-tolerates n h h' snap lt fails e s =
      tolerate n 0 1 h (omega arith) fails ∙ settles 0 (n + 0) (polls refresh sleep n h) h' snap e s

  -- After four failed polls in a row a fifth failure ends the loop with its error; five rounds are
  -- enough.
  pub wait_loop-gives_up :
      (h h' : H) (x : Text)
      → Fails refresh sleep 4 h
      → refresh (polls refresh sleep 4 h) ≡ (err x, h')
      → wait_loop refresh done sleep max_consecutive_refresh_failures 0 h ≡ (some (err x), h')
  wait_loop-gives_up h h' x fails e =
      tolerate 4 0 1 h (omega arith) fails
      ∙ breaks 0 4 (polls refresh sleep 4 h) h' x e (omega arith)

  abbrev Returned : H → S → H → Type 0
  Returned h snap h' =
      (done snap ≡ true) × ((n : ℕ) × (refresh (polls refresh sleep n h) ≡ (ok snap, h')))

  later :
      (h u h' : H) (r : Result Text S) (snap : S)
      → refresh h ≡ (r, u)
      → Returned (sleep u) snap h'
      → Returned h snap h'
  later h u h' r snap e (t, (n, p)) = (
    t,
    (suc n, ap (λ (q : Result Text S × H). refresh (polls refresh sleep n (sleep q.1))) e ∙ p),
  )

  Returned-after :
      (rounds failures : ℕ) (h h' : H) (snap : S)
      → ((f : ℕ) (g : H)
          → wait_loop refresh done sleep rounds f g ≡ (some (ok snap), h')
          → Returned g snap h')
      → (q : Result Text S × H) → refresh h ≡ q
      → after rounds failures q ≡ (some (ok snap), h')
      → Returned h snap h'
  unfolding after
  Returned-after rounds failures h h' snap ih (ok s, u) p e = elim (Bool-cases (done s)) [
    | inl d ↦
        let result : s ≡ snap = ground arith in
        let state : u ≡ h' = ground arith in
        (ap done (sym result) ∙ d, (0, p ∙ rw (result, state) refl))
    | inr d ↦ later h u h' (ok s) snap p (ih 0 (sleep u) (ground arith))
  ]
  Returned-after rounds failures h h' snap ih (err x, u) p e =
      elim (Bool-cases (leb max_consecutive_refresh_failures (failures + 1))) [
        | inl d ↦ absurd (ground arith)
        | inr d ↦ later h u h' (err x) snap p (ih (failures + 1) (sleep u) (ground arith))
      ]

  -- Where the loop returns a snapshot, it is done, and it is the result of one of the polls.
  pub wait_loop-done :
      (rounds failures : ℕ) (h h' : H) (snap : S)
      → wait_loop refresh done sleep rounds failures h ≡ (some (ok snap), h')
      → (done snap ≡ true) × ((n : ℕ) × (refresh (polls refresh sleep n h) ≡ (ok snap, h')))
  unfolding wait_loop
  wait_loop-done zero failures h h' snap e = absurd (cc)
  wait_loop-done (suc rounds) failures h h' snap e =
      Returned-after rounds failures h h' snap (λ f g. wait_loop-done rounds f g h' snap)
        (refresh h) refl (sym (round rounds failures h) ∙ e)

  ends-after :
      (rounds failures : ℕ) (q : Result Text S × H)
      → ((f : ℕ) → is_some (wait_loop refresh done sleep rounds f (sleep q.1)).0 ≡ true)
      → is_some (after rounds failures q).0 ≡ true
  unfolding after
  ends-after rounds failures (ok s, u) ih = ground (arith, ih 0)
  ends-after rounds failures (err x, u) ih = ground (arith, ih (failures + 1))

  -- The loop ends, with a snapshot or an error, within `n + 1` rounds if poll number `n` (from 0)
  -- succeeds and is done, whatever the polls before it return.
  pub wait_loop-ends :
      (n failures : ℕ) (h h' : H) (snap : S)
      → refresh (polls refresh sleep n h) ≡ (ok snap, h')
      → done snap ≡ true
      → is_some (wait_loop refresh done sleep (suc n) failures h).0 ≡ true
  wait_loop-ends zero failures h h' snap e s = rw (settles 0 failures h h' snap e s) refl
  wait_loop-ends (suc n) failures h h' snap e s = rw (round (suc n) failures h) (
      ends-after (suc n) failures (refresh h)
        (λ f. wait_loop-ends n f (sleep (refresh h).1) h' snap e s))
