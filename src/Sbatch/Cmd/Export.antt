-- ===== src/Sbatch/Cmd/Export.antt =====
-- What `--export` carries.
use mathlib.Core.List.{Perm}
use mathlib.Core.List.Perm
use slurm_async_runner.Prelude.{
  All-map, true, false, List, [], ◌∷◌, ◌++◌, map, some, ok, ◌≡◌, ◌≢◌, refl, ap, arith, All,
  All-append, append_assoc, append-nil, Bool-cases, inl, inr,
}
use slurm_async_runner.Prelude.Text.{
  Text, codes, split, Lacks, split_once, split_once-append, split-append, split_of_Lacks,
  contains_of_Lacks,
}
use slurm_async_runner.Sbatch.Cmd.{
  text_before, insert_entry, sort_entries, show_entry, render_entries, render_export,
}

-- Neither key nor value has a comma or an equals sign.
pub record EntryIsValid (e : Text × Text) : Type 0 where
  pub key_comma : Lacks b',' e.0
  pub key_equals : Lacks b'=' e.0
  pub value_comma : Lacks b',' e.1
  pub value_equals : Lacks b'=' e.1

insert-All :
    (e : Text × Text) (es : List (Text × Text))
    → EntryIsValid e
    → All EntryIsValid es
    → All EntryIsValid (insert_entry e es)
unfolding insert_entry
insert-All e [] v vs = (v, tt)
insert-All e (f ∷ fs) v vs = elim (Bool-cases (text_before e.0 f.0)) [
  | inl b ↦ rw b (v, vs)
  | inr b ↦ rw b (vs.0, insert-All e fs v vs.1)
]

sort-All : (es : List (Text × Text)) → All EntryIsValid es → All EntryIsValid (sort_entries es)
unfolding sort_entries
sort-All [] v = tt
sort-All (e ∷ es) v = insert-All e (sort_entries es) v.0 (sort-All es v.1)

-- The keys are in the order of texts, none before a smaller one.
abbrev pub IsOrdered : List (Text × Text) → Type 0
IsOrdered [] = Unit {0}
IsOrdered (e ∷ es) = All (λ f. text_before e.0 f.0 ≡ true) es × IsOrdered es

text_before_total : (s t : Text) → text_before s t ≡ false → text_before t s ≡ true
text_before_total [] t h = absurd (cc)
text_before_total (c ∷ s) [] h = refl
text_before_total (c ∷ s) (d ∷ t) h = ground (arith, text_before_total s t)

text_before_trans :
    (s t u : Text) → text_before s t ≡ true → text_before t u ≡ true → text_before s u ≡ true
text_before_trans [] t u p q = refl
text_before_trans (c ∷ s) [] u p q = absurd (cc)
text_before_trans (c ∷ s) (d ∷ t) [] p q = absurd (cc)
text_before_trans (c ∷ s) (d ∷ t) (b ∷ u) p q = ground (arith, text_before_trans s t u)

-- What stands behind an entry stands behind it with one more.
behind-insert :
    (k : Text) (e : Text × Text) (es : List (Text × Text))
    → text_before k e.0 ≡ true
    → All (λ f. text_before k f.0 ≡ true) es
    → All (λ f. text_before k f.0 ≡ true) (insert_entry e es)
unfolding insert_entry
behind-insert k e [] b h = (b, tt)
behind-insert k e (f ∷ fs) b h = elim (Bool-cases (text_before e.0 f.0)) [
  | inl x ↦ rw x (b, h)
  | inr x ↦ rw x (h.0, behind-insert k e fs b h.1)
]

insert-IsOrdered :
    (e : Text × Text) (es : List (Text × Text)) → IsOrdered es → IsOrdered (insert_entry e es)
unfolding insert_entry
insert-IsOrdered e [] h = (tt, tt)
insert-IsOrdered e (f ∷ fs) h = elim (Bool-cases (text_before e.0 f.0)) [
  | inl x ↦ rw x ((x, All-map (λ g b. text_before_trans e.0 f.0 g.0 x b) fs h.0), h)
  | inr x ↦
      rw x (behind-insert f.0 e fs (text_before_total e.0 f.0 x) h.0, insert-IsOrdered e fs h.1)
]

sort-IsOrdered : (es : List (Text × Text)) → IsOrdered (sort_entries es)
unfolding sort_entries
sort-IsOrdered [] = tt
sort-IsOrdered (e ∷ es) = insert-IsOrdered e (sort_entries es) (sort-IsOrdered es)

insert-perm : (e : Text × Text) (es : List (Text × Text)) → Perm (insert_entry e es) (e ∷ es)
unfolding insert_entry
insert-perm e [] = Perm.rfl
insert-perm e (f ∷ fs) = elim (Bool-cases (text_before e.0 f.0)) [
  | inl x ↦ rw x Perm.rfl
  | inr x ↦ rw x (Perm.trans (Perm.cons f (insert-perm e fs)) (Perm.swap e f fs))
]

sort-perm : (es : List (Text × Text)) → Perm (sort_entries es) es
unfolding sort_entries
sort-perm [] = Perm.rfl
sort-perm (e ∷ es) = Perm.trans (insert-perm e (sort_entries es)) (Perm.cons e (sort-perm es))

-- The text of entries, each behind a comma.
rest_of : List (Text × Text) → Text
rest_of [] = []
rest_of (e ∷ es) = b',' ∷ (show_entry e ++ rest_of es)

render_entries-ok :
    (out : Text) (es : List (Text × Text))
    → All EntryIsValid es
    → render_entries out es ≡ ok (out ++ rest_of es)
unfolding render_entries rest_of
render_entries-ok out [] v = rw (append-nil out) refl
render_entries-ok out (e ∷ es) v =
    rw
      (
        contains_of_Lacks b',' e.0 v.0.key_comma,
        contains_of_Lacks b'=' e.0 v.0.key_equals,
        contains_of_Lacks b',' e.1 v.0.value_comma,
        contains_of_Lacks b'=' e.1 v.0.value_equals,
        render_entries-ok (out ++ b',' ∷ show_entry e) es v.1,
      )
      (ap ok (append_assoc out (b',' ∷ show_entry e) (rest_of es)))

entry-Lacks : (e : Text × Text) → EntryIsValid e → Lacks b',' (show_entry e)
entry-Lacks e v =
    All-append (λ c. c ≢ b',') e.0 (b'=' ∷ e.1) v.key_comma (omega arith, v.value_comma)

split-rest :
    (head : Text) (es : List (Text × Text))
    → Lacks b',' head
    → All EntryIsValid es
    → split b',' (head ++ rest_of es) ≡ head ∷ map show_entry es
unfolding rest_of
split-rest head [] h v = rw (append-nil head) (split_of_Lacks b',' head h)
split-rest head (e ∷ es) h v =
    rw
      (
        split-append b',' head (show_entry e ++ rest_of es) h,
        split-rest (show_entry e) es (entry-Lacks e v.0) v.1,
      )
      refl

splits_entries :
    (es : List (Text × Text))
    → All EntryIsValid es
    → All (λ e. split_once b'=' (show_entry e) ≡ some e) es
splits_entries [] v = tt
splits_entries (e ∷ es) v = (split_once-append b'=' e.0 e.1 v.0.key_equals, splits_entries es v.1)

-- An environment whose keys and values have no comma and no equals sign is rendered, and read back:
-- split at the commas, the text is `ALL` and one part for each entry of a list that has the entries of
-- the environment, each as often, in the order of their keys. Each part, split at its first equals
-- sign, is the entry.
pub render_export_lem :
    (env : List (Text × Text))
    → All EntryIsValid env
    → (text : Text) × (sorted : List (Text × Text)) × (render_export env ≡ ok text)
      × Perm sorted env
      × IsOrdered sorted
      × (split b',' text ≡ codes "ALL" ∷ map show_entry sorted)
      × All (λ e. split_once b'=' (show_entry e) ≡ some e) sorted
unfolding render_export
render_export_lem env v =
    let sorted = sort-All env v in
    (
      codes "ALL" ++ rest_of (sort_entries env),
      sort_entries env,
      render_entries-ok (codes "ALL") (sort_entries env) sorted,
      sort-perm env,
      sort-IsOrdered env,
      split-rest (codes "ALL") (sort_entries env) (omega arith) sorted,
      splits_entries (sort_entries env) sorted,
    )
