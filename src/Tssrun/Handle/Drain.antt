-- ===== src/Tssrun/Handle/Drain.antt =====
-- What holds when `wait` returns, in runs in which nobody refreshes the handle.
pub mod Heard
use mathlib.Core.Path.{subst}
use slurm_async_runner.Prelude.{
  Bool-cases, List, [], ◌∷◌, ◌++◌, Option, none, some, Bool, true, false, not, ◌||◌, ◌&&◌, is_some,
  Result, ok, err, All, All-append, All-map, ◌≡◌, refl, sym, ap, ◌∙◌, ◌⊎◌, inl, inr, arith,
}
use slurm_async_runner.Prelude.Text.{Text, text_eq, text_eq_refl, text_eq_sound}
use slurm_async_runner.Tssrun.{parse_salloc_jobid, parse_salloc_node}
use slurm_async_runner.Tssrun.Handle.{
  TssrunJobSnapshot, LogStream, stdout, stderr, lines_of, set_once, Tee, reading, parsing,
  jobid_parsed, node_parsed, persisting, ended, failed, Surroundings, Shared, TeeMove, read_line,
  set_jobid, set_node, copy_update, no_update, persist, persist_failed, stream_end, read_error,
}

-- A line that says something was heard: the field has a value.
abbrev pub heard : {A : Type 0} → Option A → Option A → Bool
heard parsed field = not (is_some parsed) || is_some field

-- The task is still to take the number of the job, or the nodes, from this line.
abbrev pub jobid_pending : Tee → Text → Bool
jobid_pending (parsing l) line = text_eq l line
jobid_pending reading line = false
jobid_pending (jobid_parsed l updated) line = false
jobid_pending (node_parsed updated) line = false
jobid_pending (persisting snap) line = false
jobid_pending ended line = false
jobid_pending failed line = false

abbrev pub node_pending : Tee → Text → Bool
node_pending (parsing l) line = text_eq l line
node_pending (jobid_parsed l updated) line = text_eq l line
node_pending reading line = false
node_pending (node_parsed updated) line = false
node_pending (persisting snap) line = false
node_pending ended line = false
node_pending failed line = false

abbrev pub jobid_ok : TssrunJobSnapshot → Tee → Text → Bool
jobid_ok snap tee line = heard (parse_salloc_jobid line) snap.jobid || jobid_pending tee line

abbrev pub node_ok : TssrunJobSnapshot → Tee → Text → Bool
node_ok snap tee line = heard (parse_salloc_node line) snap.node || node_pending tee line

abbrev pub LineIsOk : TssrunJobSnapshot → Tee → Text → Type 0
LineIsOk snap tee line = (jobid_ok snap tee line ≡ true) × (node_ok snap tee line ≡ true)

heard_once : {A : Type 0} (p old : Option A) → heard p (set_once p old) ≡ true
heard_once none old = refl
heard_once (some a) none = refl
heard_once (some a) (some b) = refl

heard_still :
    {A : Type 0} (p q old : Option A) (b : Bool)
    → (heard p old || b) ≡ true
    → (heard p (set_once q old) || b) ≡ true
heard_still p none old b h = h
heard_still p (some a) (some c) b h = h
heard_still none (some a) none b h = refl
heard_still (some x) (some a) none b h = refl

-- The line that was just looked at is heard, and others stay heard.
heard_now :
    {A : Type 0} (read : Text → Option A) (l line : Text) (old : Option A)
    → (heard (read line) old || text_eq l line) ≡ true
    → (heard (read line) (set_once (read l) old) || false) ≡ true
heard_now read l line old h = elim (Bool-cases (text_eq l line)) [
  | inl e ↦
      let same = text_eq_sound l line e in
      subst (λ x. (heard (read x) (set_once (read l) old) || false) ≡ true) same
        (ap (λ b. b || false) (heard_once (read l) old))
  | inr e ↦
      heard_still (read line) (read l) old false (ap (λ b. heard (read line) old || b) (sym e) ∙ h)
]

-- A move of the line's own task.
TeeMove-own :
    {g : Surroundings} {stream : LogStream} {m m' : Shared} {t t' : Tee} (line : Text)
    → TeeMove g stream m t m' t'
    → LineIsOk m.channel t line
    → LineIsOk m'.channel t' line
TeeMove-own line (read_line l rest q) h = (ground arith, ground arith)
TeeMove-own {m = m} line (set_jobid l) h =
    (heard_now parse_salloc_jobid l line m.channel.jobid h.0, h.1)
TeeMove-own {m = m} line (set_node l updated) h =
    (h.0, heard_now parse_salloc_node l line m.channel.node h.1)
TeeMove-own line copy_update h = h
TeeMove-own line no_update h = h
TeeMove-own line (persist snap) h = h
TeeMove-own line (persist_failed snap fails) h = h
TeeMove-own line (stream_end q) h = h
TeeMove-own line read_error h = h

-- A move of another task.
TeeMove-others :
    {g : Surroundings} {stream : LogStream} {m m' : Shared} {t t' : Tee} (u : Tee) (line : Text)
    → TeeMove g stream m t m' t'
    → LineIsOk m.channel u line
    → LineIsOk m'.channel u line
TeeMove-others u line (read_line l rest q) h = h
TeeMove-others {m = m} u line (set_jobid l) h = (
  heard_still (parse_salloc_jobid line) (parse_salloc_jobid l) m.channel.jobid
      (jobid_pending u line) h.0,
  h.1,
)
TeeMove-others {m = m} u line (set_node l updated) h = (
  h.0,
  heard_still (parse_salloc_node line) (parse_salloc_node l) m.channel.node (node_pending u line)
      h.1,
)
TeeMove-others u line copy_update h = h
TeeMove-others u line no_update h = h
TeeMove-others u line (persist snap) h = h
TeeMove-others u line (persist_failed snap fails) h = h
TeeMove-others u line (stream_end q) h = h
TeeMove-others u line read_error h = h

-- The task of a stream, of two.
abbrev pub pick : LogStream → Tee → Tee → Tee
pick stdout o e = o
pick stderr o e = e

abbrev pub LinesAreOk : Shared → Tee → Tee → Type 0
LinesAreOk m o e = All (λ (x : LogStream × Text). LineIsOk m.channel (pick x.0 o e) x.1) m.lines

pub fresh_line : (snap : TssrunJobSnapshot) (l : Text) → LineIsOk snap (parsing l) l
fresh_line snap l = (ground (arith, text_eq_refl l), ground (arith, text_eq_refl l))

pub kept_stdout :
    {g : Surroundings} {m m' : Shared} {t t' : Tee} (e : Tee)
    → TeeMove g stdout m t m' t'
    → (x : LogStream × Text) → LineIsOk m.channel (pick x.0 t e) x.1
    → LineIsOk m'.channel (pick x.0 t' e) x.1
kept_stdout e mv (stdout, line) h = TeeMove-own line mv h
kept_stdout e mv (stderr, line) h = TeeMove-others e line mv h

pub kept_stderr :
    {g : Surroundings} {m m' : Shared} {t t' : Tee} (o : Tee)
    → TeeMove g stderr m t m' t'
    → (x : LogStream × Text) → LineIsOk m.channel (pick x.0 o t) x.1
    → LineIsOk m'.channel (pick x.0 o t') x.1
kept_stderr o mv (stdout, line) h = TeeMove-others o line mv h
kept_stderr o mv (stderr, line) h = TeeMove-own line mv h

-- The lines behind a move: as before, or with one more, which its task is about to look at.
pub TeeMove-lines :
    {g : Surroundings} {stream : LogStream} {m m' : Shared} {t t' : Tee}
    → TeeMove g stream m t m' t'
    → (m'.lines ≡ m.lines)
      ⊎ ((l : Text) × (m'.lines ≡ m.lines ++ (stream, l) ∷ []) × (t' ≡ parsing l))
TeeMove-lines (read_line l rest q) = inr (l, refl, refl)
TeeMove-lines (set_jobid l) = inl refl
TeeMove-lines (set_node l updated) = inl refl
TeeMove-lines copy_update = inl refl
TeeMove-lines no_update = inl refl
TeeMove-lines (persist snap) = inl refl
TeeMove-lines (persist_failed snap fails) = inl refl
TeeMove-lines (stream_end q) = inl refl
TeeMove-lines read_error = inl refl

-- A line of one stream is none of the other.
lines_of-stdout :
    (read : List (LogStream × Text)) (l : Text)
    → lines_of stdout (read ++ (stderr, l) ∷ []) ≡ lines_of stdout read
lines_of-stdout [] l = refl
lines_of-stdout ((stdout, x) ∷ read) l = ap (λ ls. x ∷ ls) (lines_of-stdout read l)
lines_of-stdout ((stderr, x) ∷ read) l = lines_of-stdout read l

lines_of-stderr :
    (read : List (LogStream × Text)) (l : Text)
    → lines_of stderr (read ++ (stdout, l) ∷ []) ≡ lines_of stderr read
lines_of-stderr [] l = refl
lines_of-stderr ((stdout, x) ∷ read) l = lines_of-stderr read l
lines_of-stderr ((stderr, x) ∷ read) l = ap (λ ls. x ∷ ls) (lines_of-stderr read l)

pub kept_of_stdout :
    {g : Surroundings} {m m' : Shared} {t t' : Tee}
    → TeeMove g stdout m t m' t'
    → lines_of stderr m'.lines ≡ lines_of stderr m.lines
kept_of_stdout {m = m} mv = elim (TeeMove-lines mv) [
  | inl same ↦ ap (lines_of stderr) same
  | inr (l, more, now) ↦ ap (lines_of stderr) more ∙ lines_of-stderr m.lines l
]

pub kept_of_stderr :
    {g : Surroundings} {m m' : Shared} {t t' : Tee}
    → TeeMove g stderr m t m' t'
    → lines_of stdout m'.lines ≡ lines_of stdout m.lines
kept_of_stderr {m = m} mv = elim (TeeMove-lines mv) [
  | inl same ↦ ap (lines_of stdout) same
  | inr (l, more, now) ↦ ap (lines_of stdout) more ∙ lines_of-stdout m.lines l
]

-- A task that ended has read what its stream holds.
abbrev pub IsRead : List Text → List Text → Tee → Type 0
IsRead content read ended = content ≡ read
IsRead content read failed = Unit {0}
IsRead content read reading = Unit {0}
IsRead content read (parsing line) = Unit {0}
IsRead content read (jobid_parsed line updated) = Unit {0}
IsRead content read (node_parsed updated) = Unit {0}
IsRead content read (persisting snap) = Unit {0}

pub TeeMove-IsRead :
    {g : Surroundings} {stream : LogStream} {m m' : Shared} {t t' : Tee}
    → TeeMove g stream m t m' t'
    → IsRead (g.content stream) (lines_of stream m'.lines) t'
TeeMove-IsRead (read_line l rest q) = tt
TeeMove-IsRead (set_jobid l) = tt
TeeMove-IsRead (set_node l updated) = tt
TeeMove-IsRead copy_update = tt
TeeMove-IsRead no_update = tt
TeeMove-IsRead (persist snap) = tt
TeeMove-IsRead (persist_failed snap fails) = tt
TeeMove-IsRead (stream_end q) = q
TeeMove-IsRead read_error = tt
