-- ===== src/Options/Mail.antt =====
-- `MailType` and `MailTypeInput` of src/entities/slurm/sbatch_options.rs: the `--mail-type` option.
use slurm_async_runner.Prelude.{
  List, [], ◌∷◌, map, ok, err, collect, ◌≡◌, if◌then◌else◌, is_empty, false, All, refl, All-of_map,
  collect-map, arith, ◌>>=◌,
}
use slurm_async_runner.Prelude.Text.{Text, codes, text_eq, split, join, Lacks, split-join_of_filled}
use slurm_async_runner.Schema.{Parsed, parse_error}

pub data MailType : Type 0 where
  begin end fail requeue all : MailType

unfoldable pub as_slurm_str : MailType → Text
as_slurm_str begin = codes "BEGIN"
as_slurm_str end = codes "END"
as_slurm_str fail = codes "FAIL"
as_slurm_str requeue = codes "REQUEUE"
as_slurm_str all = codes "ALL"

unfoldable pub parse_mail_type : Text → Parsed MailType
unfolding text_eq
parse_mail_type s =
    if text_eq s (codes "BEGIN")
    then ok begin
    else if text_eq s (codes "END")
    then ok end
    else if text_eq s (codes "FAIL")
    then ok fail
    else if text_eq s (codes "REQUEUE")
    then ok requeue
    else if text_eq s (codes "ALL")
    then ok all
    else err (parse_error (codes "mail_types") s)

pub record MailTypeInput : Type 0 where
  pub types : List MailType

unfoldable pub show_mail_types : MailTypeInput → Text
show_mail_types m = join b',' (map as_slurm_str m.types)

pub parse_mail_types : Text → Parsed MailTypeInput
parse_mail_types s = do
  types ← collect parse_mail_type (split b',' s)
  ok (record { types = types })

parse-as_slurm_str : (t : MailType) → parse_mail_type (as_slurm_str t) ≡ ok t
unfolding parse_mail_type as_slurm_str
parse-as_slurm_str begin = refl
parse-as_slurm_str _ = refl

as_slurm_str-Lacks : (t : MailType) → Lacks b',' (as_slurm_str t)
unfolding as_slurm_str
as_slurm_str-Lacks begin = omega arith
as_slurm_str-Lacks _ = omega arith

every_type : (ts : List MailType) → All (λ _. Unit {0}) ts
every_type [] = tt
every_type (t ∷ ts) = (tt, every_type ts)

is_empty-map : (ts : List MailType) → is_empty ts ≡ false → is_empty (map as_slurm_str ts) ≡ false
is_empty-map [] h = h
is_empty-map (t ∷ ts) h = refl

-- The text of a list of mail types that is not empty parses to the same list.
pub parse-show_mail_types :
    (m : MailTypeInput) → is_empty m.types ≡ false → parse_mail_types (show_mail_types m) ≡ ok m
unfolding parse_mail_types show_mail_types
parse-show_mail_types m h = rw (
  split-join_of_filled b',' (map as_slurm_str m.types) (is_empty-map m.types h)
      (All-of_map (Lacks b',') as_slurm_str m.types as_slurm_str-Lacks),
  collect-map as_slurm_str (λ _. Unit {0}) parse_mail_type m.types (λ t _. parse-as_slurm_str t)
      (every_type m.types),
)
