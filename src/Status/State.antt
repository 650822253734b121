-- ===== src/Status/State.antt =====
-- `JobState`: the scheduler's state codes, their tests, and their tokens.
use slurm_async_runner.Prelude.{
  ℕ, List, [], ◌∷◌, ◌++◌, map, Bool, true, false, ◌||◌, ◌&&◌, if◌then◌else◌, ◌≡◌, refl, is_empty,
  ap, ◌∙◌, arith, sym,
}
use slurm_async_runner.Prelude.Text.{Text, codes, text_eq, to_upper, is_space}
use slurm_async_runner.Prelude.Words.{
  words, first_or_empty, NoSpace, words-append, words_one, words-to_upper,
}

pub data JobState : Type 0 where
  pending configuring requeued requeue_fed requeue_hold resv_del_hold suspended stopped : JobState
  running completing resizing signaling stage_out : JobState
  completed : JobState
  boot_fail cancelled deadline failed node_fail out_of_memory preempted revoked : JobState
  special_exit timeout : JobState
  unknown : JobState

abbrev pub is_running : JobState → Bool
is_running running = true
is_running _ = false

abbrev pub is_terminal : JobState → Bool
is_terminal completed = true
is_terminal boot_fail = true
is_terminal cancelled = true
is_terminal deadline = true
is_terminal failed = true
is_terminal node_fail = true
is_terminal out_of_memory = true
is_terminal preempted = true
is_terminal revoked = true
is_terminal special_exit = true
is_terminal timeout = true
is_terminal _ = false

one_of : Text → List Text → Bool
unfolding text_eq
one_of s [] = false
one_of s (t ∷ ts) = text_eq s t || one_of s ts

-- The arms of the `match` on the upper-case token.
parse_token : Text → JobState
unfolding one_of
parse_token s =
    if one_of s (codes "PENDING" ∷ codes "PD" ∷ [])
    then pending
    else if one_of s (codes "CONFIGURING" ∷ codes "CF" ∷ [])
    then configuring
    else if one_of s (codes "REQUEUED" ∷ codes "RQ" ∷ [])
    then requeued
    else if one_of s (codes "REQUEUE_FED" ∷ codes "RF" ∷ [])
    then requeue_fed
    else if one_of s (codes "REQUEUE_HOLD" ∷ codes "RH" ∷ [])
    then requeue_hold
    else if one_of s (codes "RESV_DEL_HOLD" ∷ codes "RD" ∷ [])
    then resv_del_hold
    else if one_of s (codes "SUSPENDED" ∷ codes "S" ∷ [])
    then suspended
    else if one_of s (codes "STOPPED" ∷ codes "ST" ∷ [])
    then stopped
    else if one_of s (codes "RUNNING" ∷ codes "R" ∷ codes "RUN" ∷ [])
    then running
    else if one_of s (codes "COMPLETING" ∷ codes "CG" ∷ [])
    then completing
    else if one_of s (codes "RESIZING" ∷ codes "RS" ∷ [])
    then resizing
    else if one_of s (codes "SIGNALING" ∷ codes "SI" ∷ [])
    then signaling
    else if one_of s (codes "STAGE_OUT" ∷ codes "SO" ∷ [])
    then stage_out
    else if one_of s (codes "QUE" ∷ [])
    then pending
    else if one_of s (codes "COMPLETED" ∷ codes "CD" ∷ codes "CMP" ∷ codes "FINI" ∷ [])
    then completed
    else if one_of s (codes "BOOT_FAIL" ∷ codes "BF" ∷ [])
    then boot_fail
    else if one_of s (codes "CANCELLED" ∷ codes "CA" ∷ [])
    then cancelled
    else if one_of s (codes "DEADLINE" ∷ codes "DL" ∷ [])
    then deadline
    else if one_of s (codes "FAILED" ∷ codes "F" ∷ codes "FAIL" ∷ [])
    then failed
    else if one_of s (codes "NODE_FAIL" ∷ codes "NF" ∷ [])
    then node_fail
    else if one_of s (codes "OUT_OF_MEMORY" ∷ codes "OOM" ∷ [])
    then out_of_memory
    else if one_of s (codes "PREEMPTED" ∷ codes "PR" ∷ [])
    then preempted
    else if one_of s (codes "REVOKED" ∷ codes "RV" ∷ [])
    then revoked
    else if one_of s (codes "SPECIAL_EXIT" ∷ codes "SE" ∷ [])
    then special_exit
    else if one_of s (codes "TIMEOUT" ∷ codes "TO" ∷ [])
    then timeout
    else unknown

unfoldable pub parse : Text → JobState
unfolding parse_token
parse raw = parse_token (map to_upper (first_or_empty (words raw)))

unfoldable pub as_token : JobState → Text
as_token pending = codes "PENDING"
as_token configuring = codes "CONFIGURING"
as_token requeued = codes "REQUEUED"
as_token requeue_fed = codes "REQUEUE_FED"
as_token requeue_hold = codes "REQUEUE_HOLD"
as_token resv_del_hold = codes "RESV_DEL_HOLD"
as_token suspended = codes "SUSPENDED"
as_token stopped = codes "STOPPED"
as_token running = codes "RUNNING"
as_token completing = codes "COMPLETING"
as_token resizing = codes "RESIZING"
as_token signaling = codes "SIGNALING"
as_token stage_out = codes "STAGE_OUT"
as_token completed = codes "COMPLETED"
as_token boot_fail = codes "BOOT_FAIL"
as_token cancelled = codes "CANCELLED"
as_token deadline = codes "DEADLINE"
as_token failed = codes "FAILED"
as_token node_fail = codes "NODE_FAIL"
as_token out_of_memory = codes "OUT_OF_MEMORY"
as_token preempted = codes "PREEMPTED"
as_token revoked = codes "REVOKED"
as_token special_exit = codes "SPECIAL_EXIT"
as_token timeout = codes "TIMEOUT"
as_token unknown = codes "UNKNOWN"

parse_token-as_token : (s : JobState) → parse_token (map to_upper (as_token s)) ≡ s
unfolding parse_token as_token
parse_token-as_token pending = refl
parse_token-as_token _ = refl

as_token-NoSpace : (s : JobState) → NoSpace (as_token s)
unfolding as_token
as_token-NoSpace pending = ground arith
as_token-NoSpace _ = ground arith

is_empty-as_token : (s : JobState) → is_empty (as_token s) ≡ false
unfolding as_token
is_empty-as_token pending = refl
is_empty-as_token _ = refl

-- A state's token parses to the state, alone and with trailing context behind a space
-- (`CANCELLED by 1234`).
pub parse-as_token :
    (s : JobState) (c : ℕ) (rest : Text)
    → is_space c ≡ true
    → (parse (as_token s) ≡ s) × (parse (as_token s ++ c ∷ rest) ≡ s)
unfolding parse
parse-as_token s c rest h = (
  rw (words_one (as_token s) (as_token-NoSpace s) (is_empty-as_token s)) (parse_token-as_token s),
  rw (words-append (as_token s) c rest (as_token-NoSpace s) (is_empty-as_token s) h)
      (parse_token-as_token s),
)

first-map :
    (ws : List Text) → first_or_empty (map (map to_upper) ws) ≡ map to_upper (first_or_empty ws)
first-map [] = refl
first-map (w ∷ ws) = refl

upper_first : Text → Text
upper_first raw = map to_upper (first_or_empty (words raw))

upper_first-lem : (s : Text) → upper_first s ≡ first_or_empty (words (map to_upper s))
unfolding upper_first
upper_first-lem s = sym (ap first_or_empty (words-to_upper s) ∙ first-map (words s))

-- Case does not matter: texts with the same upper case parse to the same state.
pub parse_case : (s t : Text) → map to_upper s ≡ map to_upper t → parse s ≡ parse t
unfolding parse upper_first
parse_case s t e =
    ap parse_token
      (upper_first-lem s ∙ ap (λ u. first_or_empty (words u)) e ∙ sym (upper_first-lem t))

-- No state is both running and terminal.
pub running_not_terminal : (s : JobState) → is_running s && is_terminal s ≡ false
running_not_terminal pending = refl
running_not_terminal _ = refl
