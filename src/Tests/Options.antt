-- ===== src/Tests/Options.antt =====
-- The theorems on the option values, applied to options of real submissions.
use slurm_async_runner.Prelude.{◌++◌, ℕ, List, [], ◌∷◌, none, some, ok, ◌≡◌, refl, true, arith}
use slurm_async_runner.Prelude.Text.{
  codes, contains, split, split_once, split_last, every, strip_prefix,
}
use slurm_async_runner.Prelude.Number.{max_u32, parse_uint}
use slurm_async_runner.Options.ArraySpec
use slurm_async_runner.Options.ArraySpec.{
  single, range, stepped, SlurmArraySpec, parse_spec, show_spec,
}
use slurm_async_runner.Options.ArraySpec.RoundTrip.{parse_spec-show_spec}
use slurm_async_runner.Options.ArraySpec.Sound.{parse_spec-SpecIsValid}
use slurm_async_runner.Options.TimeLimit.{JobTimeLimit, LimitIsValid, parse_limit, show_limit}
use slurm_async_runner.Options.TimeLimit.Forms.{
  Component, parse_limit-show_limit, parse_limit-LimitIsValid,
}
use slurm_async_runner.Options.Dependency.{
  after_any, singleton, or_join, DependencyIsValid, parse_clause, parse_type, parse_job_ref,
  parse_dependency, show_dependency, SlurmDependency,
}
use slurm_async_runner.Options.Dependency.RoundTrip.{parse-show_dependency}
use slurm_async_runner.Options.Signal.{
  SlurmSignalSpec, name, SignalIsValid, parse_ident, parse_signal,
}
use slurm_async_runner.Options.Resources.{
  ResourceSpec, giga, cpu, SpecIsValid, parse_memory, parse_resources, show_resources,
}
use slurm_async_runner.Options.Resources.RoundTrip.{parse_resources-show_resources}
use slurm_async_runner.Options.Mail.{begin, end, MailTypeInput}
use slurm_async_runner.Sbatch.Parse.{expand_array_indices, steps}
use slurm_async_runner.Sbatch.Parse.Expand.{member, lists_any, expand_array_indices_lem, steps_zero}

-- `0-9:3,20%4`
abbrev tasks : SlurmArraySpec
tasks = record { indices = stepped 0 9 3 ∷ single 20 ∷ []; max_concurrent = some 4 }

tasks_valid : ArraySpec.SpecIsValid tasks
tasks_valid = record {
  listed = refl;
  entries = ((omega arith, omega arith, omega arith, omega arith), (omega arith, tt));
  cap = (omega arith, omega arith);
}

parse_spec-show_spec_example : parse_spec (show_spec tasks) ≡ ok tasks
parse_spec-show_spec_example = parse_spec-show_spec tasks tasks_valid

tasks_read : parse_spec (codes "0-9:3,20%4") ≡ ok tasks
unfolding parse_spec split_once parse_uint split ArraySpec.parse_index
tasks_read = refl

parse_spec-SpecIsValid_example : ArraySpec.SpecIsValid tasks
parse_spec-SpecIsValid_example = parse_spec-SpecIsValid (codes "0-9:3,20%4") tasks tasks_read

expand_array_indices_example :
    (l : List ℕ) × (expand_array_indices tasks ≡ some l)
    × ((k : ℕ) → member k l ≡ lists_any k tasks.indices)
expand_array_indices_example = expand_array_indices_lem tasks tasks_valid

steps_zero_example : steps 10 3 9 0 ≡ none
steps_zero_example = steps_zero 10 3 9 (omega arith) (omega arith)

two_read : parse_uint max_u32 (codes "02") ≡ some 2
unfolding parse_uint
two_read = refl

component_2 : Component
component_2 = record {
  text = codes "02";
  value = 2;
  digits = ((omega arith, omega arith), ((omega arith, omega arith), tt));
  reads = two_read;
}

abbrev ninety_minutes : JobTimeLimit
ninety_minutes = record { seconds = 5400 }

ninety_minutes_valid : LimitIsValid ninety_minutes
ninety_minutes_valid = record { positive = omega arith; fits = omega arith }

parse_limit-show_limit_example :
    (parse_limit (show_limit ninety_minutes) ≡ ok ninety_minutes)
    × (h : Component) × (h.value ≡ 1)
    × (show_limit ninety_minutes ≡ h.text ++ b':' ∷ codes "30:00")
parse_limit-show_limit_example = parse_limit-show_limit ninety_minutes ninety_minutes_valid

ninety_minutes_read : parse_limit (codes "01:30:00") ≡ ok ninety_minutes
unfolding parse_limit split_once parse_uint split
ninety_minutes_read = refl

parse_limit-LimitIsValid_example : LimitIsValid ninety_minutes
parse_limit-LimitIsValid_example =
    parse_limit-LimitIsValid (codes "01:30:00") ninety_minutes ninety_minutes_read

-- `afterany:200:201?singleton`
abbrev two_clauses : SlurmDependency
two_clauses = record {
  clauses =
      record {
        dep_type = after_any;
        job_refs =
            record { job_id = 200; delay_minutes = none }
            ∷ record { job_id = 201; delay_minutes = none }
            ∷ [];
      }
      ∷ record { dep_type = singleton; job_refs = [] }
      ∷ [];
  combine = or_join;
}

two_clauses_valid : DependencyIsValid two_clauses
two_clauses_valid = record {
  filled = refl;
  valid = (
    record {
      listed = refl;
      refs = (
        record { id_fits = omega arith; delay = tt },
        (record { id_fits = omega arith; delay = tt }, tt),
      );
    },
    (record { listed = refl; refs = tt }, tt),
  );
}

parse-show_dependency_example : parse_dependency (show_dependency two_clauses) ≡ ok two_clauses
parse-show_dependency_example = parse-show_dependency two_clauses two_clauses_valid

two_clauses_read : parse_dependency (codes "afterany:200:201?singleton") ≡ ok two_clauses
unfolding parse_dependency contains split parse_clause parse_type parse_job_ref split_once
    parse_uint
two_clauses_read = refl

-- `R:USR1@120`
abbrev warning : SlurmSignalSpec
warning = record {
  allow_resignal = true;
  signal = name (codes "USR1");
  seconds_before_end = some 120;
}

warning_valid : SignalIsValid warning
unfolding every
warning_valid = record { ident = refl; seconds = (omega arith, omega arith) }

warning_read : parse_signal (codes "R:USR1@120") ≡ ok warning
unfolding parse_signal parse_ident split_once parse_uint every strip_prefix
warning_read = refl

-- `p=4:m=8G`
abbrev four_processes : ResourceSpec
four_processes =
    cpu (record { p = some 4; t = none; c = none; m = some (record { value = 8; unit = giga }) })

four_processes_valid : SpecIsValid four_processes
four_processes_valid = record {
  p = (omega arith, omega arith);
  t = tt;
  c = tt;
  m = (omega arith, omega arith);
}

parse_resources-show_resources_example :
    parse_resources (show_resources four_processes) ≡ ok four_processes
parse_resources-show_resources_example =
    parse_resources-show_resources four_processes four_processes_valid refl

abbrev no_request : ResourceSpec
no_request = cpu (record { p = none; t = none; c = none; m = none })

four_processes_read : parse_resources (codes "p=4:m=8G") ≡ ok four_processes
unfolding parse_resources split split_once parse_uint parse_memory split_last
four_processes_read = refl

abbrev begin_and_end : MailTypeInput
begin_and_end = record { types = begin ∷ end ∷ [] }
