-- ===== src/Tests/Json.antt =====
-- A format of documents for which the laws of the envelope hold: texts and numbers behind a mark, and
-- objects as entries one behind the other, each key and value with a zero behind it.
use mathlib.Core.Path.{subst}
use slurm_async_runner.Prelude.{
  ℕ, zero, suc, [], ◌∷◌, Option, none, some, Bool, true, false, if◌then◌else◌, ◌==◌, Result, ok,
  err, ◌≡◌, refl, ap, ◌∙◌, Bool-cases, inl, inr,
}
use slurm_async_runner.Prelude.Text.{Text, codes, text_eq}
use slurm_async_runner.Status.Reason.{JobReason, parse, as_str}
use slurm_async_runner.Store.{JobSnapshot}
use slurm_async_runner.Store.Envelope.{Json, Serde, kind_key, version_key}
use slurm_async_runner.Store.Envelope.Laws.{JsonIsLawful, SerdeIsLawful}

abbrev closed : Text → Text → Text
closed [] rest = 0 ∷ rest
closed (c ∷ s) rest = suc c ∷ closed s rest

-- The rest of an object's value, up to its zero.
unfoldable value_of : Text → Text
value_of [] = []
value_of (zero ∷ s) = []
value_of (suc c ∷ s) = c ∷ value_of s

-- The three states of a search: in a key that agrees so far, in a key that differs, in a value to skip.
pub data Search : Type 0 where
  agrees : (left : Text) → Search
  differs : Search
  skips : Search

unfoldable seek : Text → Search → Text → Option Text
unfolding value_of
seek k q [] = none
seek k (agrees []) (zero ∷ s) = some (value_of s)
seek k (agrees (d ∷ left)) (zero ∷ s) = seek k skips s
seek k differs (zero ∷ s) = seek k skips s
seek k skips (zero ∷ s) = seek k (agrees k) s
seek k (agrees []) (suc c ∷ s) = seek k differs s
seek k (agrees (d ∷ left)) (suc c ∷ s) =
    let same = seek k (agrees left) s in
    let other = seek k differs s in if d == c then same else other
seek k differs (suc c ∷ s) = seek k differs s
seek k skips (suc c ∷ s) = seek k skips s

value_of-closed : (x rest : Text) → value_of (closed x rest) ≡ x
unfolding value_of
value_of-closed [] rest = refl
value_of-closed (c ∷ x) rest = ap (λ s. c ∷ s) (value_of-closed x rest)

seek-differs : (k j rest : Text) → seek k differs (closed j rest) ≡ seek k skips rest
unfolding seek
seek-differs k [] rest = refl
seek-differs k (c ∷ j) rest = seek-differs k j rest

seek-skips : (k x rest : Text) → seek k skips (closed x rest) ≡ seek k (agrees k) rest
unfolding seek
seek-skips k [] rest = refl
seek-skips k (c ∷ x) rest = seek-skips k x rest

seek-agrees :
    (k left j rest : Text)
    → seek k (agrees left) (closed j rest)
      ≡ (if text_eq left j then some (value_of rest) else seek k skips rest)
unfolding seek text_eq
seek-agrees k [] [] rest = refl
seek-agrees k [] (c ∷ j) rest = seek-differs k j rest
seek-agrees k (d ∷ left) [] rest = refl
seek-agrees k (d ∷ left) (c ∷ j) rest = elim (Bool-cases (d == c)) [
  | inl e ↦ rw e (seek-agrees k left j rest)
  | inr e ↦ rw e (seek-differs k j rest)
]

unfoldable pub get_field : Text → Text → Option Text
unfolding seek
get_field k [] = none
get_field k (mark ∷ s) = seek k (agrees k) s

unfoldable pub insert_field : Text → Text → Text → Text
insert_field j x [] = []
insert_field j x (mark ∷ s) = mark ∷ closed j (closed x s)

unfoldable pub marked_object : Text → Bool
marked_object [] = false
marked_object (mark ∷ s) = mark == 2

unfoldable pub text_of : Text → Option Text
text_of [] = none
text_of (mark ∷ s) = if mark == 0 then some s else none

unfoldable pub number_of : Text → Option ℕ
number_of (mark ∷ n ∷ []) = if mark == 1 then some n else none
number_of s = none

abbrev pub documents : Json Text
documents = record {
  from_slice = λ s. ok s;
  to_pretty = λ v. v;
  get = get_field;
  insert = insert_field;
  is_object = marked_object;
  string = λ t. 0 ∷ t;
  number = λ n. 1 ∷ n ∷ [];
  as_str = text_of;
  as_u64 = number_of;
}

get_insert :
    (k j x v : Text)
    → marked_object v ≡ true
    → get_field k (insert_field j x v) ≡ (if text_eq k j then some x else get_field k v)
unfolding get_field insert_field marked_object
get_insert k j x [] h = absurd (cc)
get_insert k j x (mark ∷ s) h =
    seek-agrees k k j (closed x s) ∙ (rw (value_of-closed x s, seek-skips k x s) refl)

is_object_insert :
    (j x v : Text) → marked_object v ≡ true → marked_object (insert_field j x v) ≡ true
unfolding insert_field marked_object
is_object_insert j x [] h = h
is_object_insert j x (mark ∷ s) h = h

pub documents-JsonIsLawful : JsonIsLawful documents
unfolding text_of number_of
documents-JsonIsLawful = record {
  from_slice-to_pretty = λ v. refl;
  get-insert = λ k j x v o. get_insert k j x v o;
  is_object-insert = λ j x v o. is_object_insert j x v o;
  as_str-string = λ t. refl;
  as_u64-number = λ n. refl;
}

-- A snapshot with a uuid, a job's number and a reason, which is written as its text; its fields stand
-- behind the envelope's.
pub record Small : Type 0 where
  pub uuid : ℕ
  pub jobid : ℕ
  pub reason : JobReason

abbrev pub small : Text → JobSnapshot Small
small kind = record { uuid = λ s. s.uuid; jobid = λ s. some s.jobid; kind = kind }

unfoldable skip_cell : Text → Text
skip_cell [] = []
skip_cell (zero ∷ s) = s
skip_cell (suc c ∷ s) = skip_cell s

skip_cell-closed : (x rest : Text) → skip_cell (closed x rest) ≡ rest
unfolding skip_cell
skip_cell-closed [] rest = refl
skip_cell-closed (c ∷ x) rest = skip_cell-closed x rest

unfoldable small_of : Text → Result Text Small
small_of (u ∷ j ∷ s) = ok (record { uuid = u; jobid = j; reason = parse s })
small_of s = err (codes "no snapshot")

abbrev pub read_small : Small → Small
read_small s = record s { reason = parse (as_str s.reason) }

unfoldable pub behind_envelope : Text → Result Text Small
unfolding skip_cell small_of
behind_envelope [] = err (codes "no object")
behind_envelope (mark ∷ s) = small_of (skip_cell (skip_cell (skip_cell (skip_cell s))))

abbrev pub small_serde : Serde Text Small
small_serde = record {
  to_value = λ s. ok (2 ∷ s.uuid ∷ s.jobid ∷ as_str s.reason);
  from_value = behind_envelope;
}

four :
    (a b c d s : Text)
    → skip_cell (skip_cell (skip_cell (skip_cell (closed a (closed b (closed c (closed d s)))))))
      ≡ s
four a b c d s =
    ap (λ t. skip_cell (skip_cell (skip_cell t))) (skip_cell-closed a _)
    ∙ ap (λ t. skip_cell (skip_cell t)) (skip_cell-closed b _)
    ∙ ap skip_cell (skip_cell-closed c _)
    ∙ skip_cell-closed d s

read_back :
    (s : Small) (v x y : Text)
    → small_serde.to_value s ≡ ok v
    → behind_envelope (insert_field version_key x (insert_field kind_key y v)) ≡ ok (read_small s)
unfolding behind_envelope insert_field
read_back s v x y h =
    let same : 2 ∷ s.uuid ∷ s.jobid ∷ as_str s.reason ≡ v = cc in
    subst
      (λ u.
        behind_envelope (insert_field version_key x (insert_field kind_key y u))
        ≡ ok (read_small s))
      same (ap small_of (four version_key x kind_key y (s.uuid ∷ s.jobid ∷ as_str s.reason)))

pub small_serde-SerdeIsLawful : SerdeIsLawful documents small_serde read_small
small_serde-SerdeIsLawful = record { from_value-insert = λ s v x y h. read_back s v x y h }
