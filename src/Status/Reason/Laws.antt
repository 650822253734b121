-- ===== src/Status/Reason/Laws.antt =====
-- Reasons read back from their text, and what is kept of any text.
use slurm_async_runner.Prelude.{
  Bool, arith, true, ◌≡◌, refl, List, [], ◌∷◌, is_empty, if◌then◌else◌, ◌||◌, ◌&&◌, inl, inr,
  Bool-cases, ◌∙◌, sym,
}
use slurm_async_runner.Prelude.Text.{Text, codes, text_eq, text_eq_sound}
use slurm_async_runner.Prelude.Words.{trim}
use slurm_async_runner.Status.Reason.{
  JobReason, none, other, as_str, is_known, parse, table, find_row,
}

-- Every known reason is read back from its text.
pub parse-as_str : (r : JobReason) → is_known r ≡ true → parse (as_str r) ≡ r
unfolding parse as_str text_eq trim
parse-as_str none h = refl
parse-as_str (other s) h = absurd (cc)
parse-as_str _ h = refl

-- Each row of the table holds the text that its reason prints.
rows_agree : List (Text × JobReason) → Bool
rows_agree [] = true
rows_agree ((t, r) ∷ rows) = text_eq (as_str r) t && rows_agree rows

table_agrees : rows_agree table ≡ true
unfolding rows_agree as_str text_eq
table_agrees = refl

as_str-find_row :
    (s : Text) (rows : List (Text × JobReason))
    → rows_agree rows ≡ true
    → as_str (find_row s rows) ≡ s
unfolding find_row as_str rows_agree
as_str-find_row s [] h = refl
as_str-find_row s ((t, r) ∷ rows) h = elim (Bool-cases (text_eq s t)) [
  | inl e ↦ rw e (text_eq_sound (as_str r) t (ground arith) ∙ sym (text_eq_sound s t e))
  | inr e ↦ rw e (as_str-find_row s rows (ground arith))
]

as_str-trimmed :
    (t : Text)
    → as_str (if is_empty t || text_eq t (codes "None") then none else find_row t table)
      ≡ (if is_empty t then codes "None" else t)
as_str-trimmed [] = unfold as_str in refl
as_str-trimmed (c ∷ s) = elim (Bool-cases (text_eq (c ∷ s) (codes "None"))) [
  | inl e ↦ rw e (unfold as_str in sym (text_eq_sound (c ∷ s) (codes "None") e))
  | inr e ↦ rw e (as_str-find_row (c ∷ s) table table_agrees)
]

-- Nothing of a reason is lost: what is read from any text prints as that text with the space around
-- it taken off, or as `None` if nothing is left.
pub as_str-parse :
    (s : Text) → as_str (parse s) ≡ (if is_empty (trim s) then codes "None" else trim s)
unfolding parse
as_str-parse s = as_str-trimmed (trim s)
