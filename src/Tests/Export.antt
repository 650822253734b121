-- ===== src/Tests/Export.antt =====
-- The theorem on the exported environment, applied to one.
use mathlib.Core.List.{Perm}
use slurm_async_runner.Prelude.{List, [], ◌∷◌, map, All, some, ok, ◌≡◌}
use slurm_async_runner.Prelude.{arith}
use slurm_async_runner.Prelude.Text.{Text, codes, split, split_once}
use slurm_async_runner.Sbatch.Cmd.{render_export, show_entry}
use slurm_async_runner.Sbatch.Cmd.Export.{EntryIsValid, IsOrdered, render_export_lem}

abbrev two_entries : List (Text × Text)
two_entries = (codes "B", codes "2") ∷ (codes "A", codes "1") ∷ []

two_entries_valid : All EntryIsValid two_entries
two_entries_valid = (
  record {
    key_comma = omega arith;
    key_equals = omega arith;
    value_comma = omega arith;
    value_equals = omega arith;
  },
  (
    record {
      key_comma = omega arith;
      key_equals = omega arith;
      value_comma = omega arith;
      value_equals = omega arith;
    },
    tt,
  ),
)

render_export_example :
    (text : Text) × (sorted : List (Text × Text)) × (render_export two_entries ≡ ok text)
    × Perm sorted two_entries
    × IsOrdered sorted
    × (split b',' text ≡ codes "ALL" ∷ map show_entry sorted)
    × All (λ e. split_once b'=' (show_entry e) ≡ some e) sorted
render_export_example = render_export_lem two_entries two_entries_valid
