-- ===== src/Tssrun/Refresh.antt =====
-- src/tssrun/handle.rs (`refresh`, `wait_terminal`): a handle that reads its snapshot from the store.
use slurm_async_runner.Prelude.{
  ℕ, zero, suc, ◌+◌, Option, none, some, Bool, true, false, if◌then◌else◌, Result, ok, err, ◌≡◌,
  refl, ap, ◌∙◌, arith,
}
use slurm_async_runner.Prelude.Text.{Text}
use slurm_async_runner.Dispatcher.{Effect}
use slurm_async_runner.Store.{JobStateStore}
use slurm_async_runner.Tssrun.Handle.{TssrunJobSnapshot, is_finished}

pub data TssrunRefreshError : Type 0 where
  no_store : TssrunRefreshError
  not_found : (uuid : ℕ) → TssrunRefreshError
  other : (message : Text) → TssrunRefreshError

-- The snapshot in the watch channel, and the world of the store.
pub record Handle (W : Type 0) : Type 0 where
  pub channel : TssrunJobSnapshot
  pub world : W

-- A success gives what the store answered, to the channel too; a failure leaves the channel alone.
abbrev pub Refreshed :
    Result Text (Option TssrunJobSnapshot)
    → TssrunJobSnapshot
    → Result TssrunRefreshError TssrunJobSnapshot
    → TssrunJobSnapshot
    → Type 0
Refreshed answer old (ok snap) new = (answer ≡ ok (some snap)) × (new ≡ snap)
Refreshed answer old (err e) new = new ≡ old

-- A finished snapshot, or an error.
abbrev pub ends_with : Result TssrunRefreshError TssrunJobSnapshot → Bool
ends_with (ok snap) = is_finished snap
ends_with (err e) = true

plus_zero : (r : ℕ) → 0 + suc r ≡ suc r
plus_zero r = omega arith

plus_suc : (n r : ℕ) → suc n + suc r ≡ suc (n + suc r)
plus_suc n r = omega arith

module _ {W : Type 0} where
  -- What the store answered, and the world behind it.
  unfoldable pub refreshed :
      Handle W
      → Result Text (Option TssrunJobSnapshot)
      → W
      → Result TssrunRefreshError TssrunJobSnapshot × Handle W
  refreshed h (err e) w = (err (other e), record h { world = w })
  refreshed h (ok none) w = (err (not_found h.channel.uuid), record h { world = w })
  refreshed h (ok (some snap)) w = (ok snap, record { channel = snap; world = w })

  unfoldable pub refresh :
      Option (JobStateStore TssrunJobSnapshot W)
      → Effect TssrunRefreshError (Handle W) TssrunJobSnapshot
  unfolding refreshed
  refresh none h = (err no_store, h)
  refresh (some store) h =
      refreshed h (store.load h.channel.uuid h.world).0 (store.load h.channel.uuid h.world).1

  -- For a number of polls at most; `none` means that it still polls. An error ends the loop.
  unfoldable pub wait_terminal :
      Option (JobStateStore TssrunJobSnapshot W)
      → (Handle W → Handle W)
      → ℕ
      → Handle W
      → Option (Result TssrunRefreshError TssrunJobSnapshot) × Handle W
  wait_terminal store sleep zero h = (none, h)
  wait_terminal store sleep (suc rounds) h = elim (refresh store h).0 [
    | ok snap ↦
        let rest = wait_terminal store sleep rounds (sleep (refresh store h).1) in
        if is_finished snap then (some (ok snap), (refresh store h).1) else rest
    | err e ↦ (some (err e), (refresh store h).1)
  ]

  refreshed-Refreshed :
      (h : Handle W) (r : Result Text (Option TssrunJobSnapshot)) (w : W)
      → Refreshed r h.channel (refreshed h r w).0 (refreshed h r w).1.channel
  unfolding refreshed
  refreshed-Refreshed h (err e) w = refl
  refreshed-Refreshed h (ok none) w = refl
  refreshed-Refreshed h (ok (some snap)) w = (refl, refl)

  -- A refresh that succeeds returns the snapshot that the store loaded for the handle's uuid, which the
  -- channel holds from then on; one that fails leaves the channel as it is.
  pub refresh-Refreshed :
      (store : JobStateStore TssrunJobSnapshot W) (h : Handle W)
      → Refreshed
          (store.load h.channel.uuid h.world).0
          h.channel
          (refresh (some store) h).0
          (refresh (some store) h).1.channel
  unfolding refresh
  refresh-Refreshed store h =
      refreshed-Refreshed h (store.load h.channel.uuid h.world).0
        (store.load h.channel.uuid h.world).1

  -- The states behind several polls, each with its pause.
  abbrev pub polls :
      Option (JobStateStore TssrunJobSnapshot W) → (Handle W → Handle W) → ℕ → Handle W → Handle W
  polls store sleep zero h = h
  polls store sleep (suc n) h = polls store sleep n (sleep (refresh store h).1)

  -- Each of the first polls finds the job unfinished.
  abbrev pub Unfinished :
      Option (JobStateStore TssrunJobSnapshot W) → (Handle W → Handle W) → ℕ → Handle W → Type 0
  Unfinished store sleep zero h = Unit {0}
  Unfinished store sleep (suc n) h =
      ((snap : TssrunJobSnapshot) × ((refresh store h).0 ≡ ok snap) × (is_finished snap ≡ false))
      × Unfinished store sleep n (sleep (refresh store h).1)

  one_more :
      (store : Option (JobStateStore TssrunJobSnapshot W)) (sleep : Handle W → Handle W)
      (rounds : ℕ) (h : Handle W) (snap : TssrunJobSnapshot)
      → (refresh store h).0 ≡ ok snap
      → is_finished snap ≡ false
      → wait_terminal store sleep (suc rounds) h
        ≡ wait_terminal store sleep rounds (sleep (refresh store h).1)
  unfolding wait_terminal
  one_more store sleep rounds h snap p q = rw (wait_terminal, p, q) refl

  ends_ok :
      (store : Option (JobStateStore TssrunJobSnapshot W)) (sleep : Handle W → Handle W)
      (rounds : ℕ) (h : Handle W) (snap : TssrunJobSnapshot)
      → (refresh store h).0 ≡ ok snap
      → is_finished snap ≡ true
      → wait_terminal store sleep (suc rounds) h ≡ (some (ok snap), (refresh store h).1)
  unfolding wait_terminal
  ends_ok store sleep rounds h snap p q = rw (wait_terminal, p, q) refl

  ends_err :
      (store : Option (JobStateStore TssrunJobSnapshot W)) (sleep : Handle W → Handle W)
      (rounds : ℕ) (h : Handle W) (e : TssrunRefreshError)
      → (refresh store h).0 ≡ err e
      → wait_terminal store sleep (suc rounds) h ≡ (some (err e), (refresh store h).1)
  unfolding wait_terminal
  ends_err store sleep rounds h e p = rw (wait_terminal, p) refl

  -- `wait_terminal` polls as long as the store has the job unfinished: the first poll that finds it
  -- finished ends the loop with that snapshot, and the first error ends it with that error, where as
  -- many rounds are given; with fewer it still polls.
  pub wait_terminal-polls :
      (store : Option (JobStateStore TssrunJobSnapshot W)) (sleep : Handle W → Handle W)
      (n rounds : ℕ) (h : Handle W) (result : Result TssrunRefreshError TssrunJobSnapshot)
      → Unfinished store sleep n h
      → (refresh store (polls store sleep n h)).0 ≡ result
      → ends_with result ≡ true
      → (wait_terminal store sleep n h ≡ (none, polls store sleep n h))
        × (wait_terminal store sleep (n + suc rounds) h
            ≡ (some result, (refresh store (polls store sleep n h)).1))
  unfolding wait_terminal
  wait_terminal-polls store sleep zero rounds h (ok snap) u p q = (
    refl,
    ap (λ k. wait_terminal store sleep k h) (plus_zero rounds)
        ∙ ends_ok store sleep rounds h snap p q,
  )
  wait_terminal-polls store sleep zero rounds h (err e) u p q = (
    refl,
    ap (λ k. wait_terminal store sleep k h) (plus_zero rounds) ∙ ends_err store sleep rounds h e p,
  )
  wait_terminal-polls store sleep (suc n) rounds h result (now, later) p q =
      let (snap, r, s) = now in
      let (still, done) =
        wait_terminal-polls store sleep n rounds (sleep (refresh store h).1) result later p q in
      (
        one_more store sleep n h snap r s ∙ still,
        ap (λ k. wait_terminal store sleep k h) (plus_suc n rounds)
            ∙ one_more store sleep (n + suc rounds) h snap r s
            ∙ done,
      )
