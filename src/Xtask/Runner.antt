-- ===== src/Xtask/Runner.antt =====
-- xtask/src/runner.rs: the suites of tests, each test on a machine that was restored, and the guard that
-- deletes the machine. What is printed is left out.
pub mod Clean
pub mod Sealed
pub mod Passed
pub mod Suites
pub mod Success
pub mod Records
use bouclier_bleu.Base.{
  ℕ, ◌+◌, String, Bool, true, false, not, ◌&&◌, ◌||◌, Option, none, some, List, [], ◌∷◌, ◌++◌, Text,
  Outcome, ok, err, codes, Line, lit, str, text_eq, if◌then◌else◌,
}
use bouclier_bleu.Base.Utf8.{from_utf8_lossy}
use bouclier_bleu.Exec.{pure, fail, unless, ◌>>=◌, ◌>>◌}
use bouclier_bleu.Xtask.Machine.{
  Machine, Output, Entry, Job, Failure, failed, panicked, exits, Task, join, delete, cat_benchmark,
}
use bouclier_bleu.Xtask.Utils.{call, incus_exec}
use bouclier_bleu.Xtask.Vm.{
  gets, tests_dir, elapsed, setup_and_snapshot_vm, restore_vm_snapshot, prepare_test_image, ignored,
}
use bouclier_bleu.Xtask.Report.{TestRecord, bench_path, generate_markdown_report}

-- `unwrap_or_default`, and `unwrap_or("")`
abbrev pub or_empty : Option Text → Text
or_empty none = []
or_empty (some text) = text

-- The target names the file or its stem, where there is a target.
unfoldable pub is_targeted : Option Text → Entry → Bool
is_targeted none entry = true
is_targeted (some target) entry =
    not (not (text_eq target entry.file_stem) && not (text_eq target entry.file_name))

unfoldable pub is_selected : Text → Option Text → Entry → Bool
unfolding is_targeted
is_selected ext target entry =
    entry.is_file && text_eq (or_empty entry.extension) ext && is_targeted target entry

unfoldable pub display_name : Text → Entry → Text
display_name ext entry = if text_eq ext (codes "sh") then entry.file_name else entry.file_stem

-- The records and the time that the restorations took.
abbrev pub Results : Type 0
Results = List TestRecord × ℕ

module _ (m : Machine) where
  -- Whether the task succeeded: its error is printed.
  abbrev pub settled : Outcome Failure (Unit {0}) × Job m.State → Outcome Failure Bool × Job m.State
  settled (ok _, s) = (ok true, s)
  settled (err (failed why), s) = (ok false, s)
  settled (err panicked, s) = (err panicked, s)
  settled (err (exits n), s) = (err (exits n), s)

  abbrev pub tried : Task m (Unit {0}) → Task m Bool
  tried task s = settled (task s)

  unfoldable pub append_metrics : Option Output → Task m (Unit {0})
  unfolding from_utf8_lossy
  append_metrics none s = (ok tt, s)
  append_metrics (some o) s =
      if o.is_success
      then (
        ok tt,
        record s { host = (m.append (bench_path m) (from_utf8_lossy o.stdout) s.host).1 },
      )
      else (ok tt, s)

  -- The metrics that a benchmark leaves in the guest.
  unfoldable pub side_load : Task m (Unit {0})
  side_load = do output ← call m cat_benchmark; append_metrics output

  -- A machine as the snapshot has it, the command, and what came of it.
  unfoldable pub run_test : Text → Text → Line → Task m (TestRecord × ℕ)
  run_test dir_name name cmd = do
    restore_time ← restore_vm_snapshot m
    from ← gets m m.now
    passed ← tried (incus_exec m cmd)
    duration ← elapsed m from
    unless (not (text_eq dir_name (codes "benchmark") && passed)) side_load
    pure (
      record { name = name; category = dir_name; duration = duration; passed = passed },
      restore_time,
    )

  abbrev pub with_result : TestRecord × ℕ → Results → Results
  with_result (res, time) (results, total) = (res ∷ results, time + total)

  module _ (dir_name ext : Text) (target : Option Text) (build_cmd : Text → Text → Line) where
    -- The body of the loop, for a file that is selected.
    unfoldable pub run_entry : Entry → Task m (TestRecord × ℕ)
    unfolding display_name
    run_entry entry =
        run_test dir_name (display_name ext entry) (build_cmd entry.file_stem entry.file_name)

    -- `entry.unwrap()` panics on an entry that cannot be read.
    unfoldable pub run_entries : List (Option Entry) → Task m Results
    unfolding is_selected
    run_entries [] = pure ([], 0)
    run_entries (none ∷ rest) = fail panicked
    run_entries (some entry ∷ rest) =
        let later = run_entries rest in
        if is_selected ext target entry
        then (do result ← run_entry entry; results ← later; pure (with_result result results))
        else later

    abbrev pub suite_dir : Text
    suite_dir = tests_dir m ++ codes "/" ++ dir_name

    unfoldable pub run_listed : Option (List (Option Entry)) → Task m Results
    run_listed none = fail (failed (lit "IO Error reading " ∷ str dir_name ∷ lit " dir" ∷ []))
    run_listed (some entries) = run_entries entries

    unfoldable pub run_present : Bool → Task m Results
    run_present false = pure ([], 0)
    run_present true = gets m (m.read_dir suite_dir) >>= run_listed

    unfoldable pub run_test_suite : Task m Results
    run_test_suite = gets m (m.exists suite_dir) >>= run_present

  unfoldable pub unit_name : Text → Text
  unit_name [] = codes "Workspace Unit Tests"
  unit_name (c ∷ cs) = codes "Unit Filter: " ++ c ∷ cs

  -- The tests of the crates, with one command.
  unfoldable pub run_unit : Option Text → Task m Results
  unfolding unit_name
  run_unit target = do
    result ←
        run_test (codes "unit") (unit_name (or_empty target))
          (lit "cargo test -q --release --workspace --lib " ∷ str (or_empty target) ∷ [])
    pure (with_result result ([], 0))

  abbrev shell_cmd : Text → Text → Line
  shell_cmd stem full = lit "bash tests/component/" ∷ str full ∷ []

  abbrev cargo_cmd : Text → Text → Line
  cargo_cmd stem full = lit "cargo test -q --release --test " ∷ str stem ∷ []

  abbrev bench_cmd : Text → Text → Line
  bench_cmd stem full =
      lit "cargo test -q --release --test " ∷ str stem ∷ lit " -- --nocapture" ∷ []

  -- The results of one category.
  unfoldable pub execute_suite : Text → Option Text → Task m Results
  execute_suite cat target =
      if text_eq cat (codes "unit")
      then run_unit target
      else if text_eq cat (codes "component")
      then run_test_suite (codes "component") (codes "sh") target shell_cmd
      else if text_eq cat (codes "integration")
      then run_test_suite (codes "integration") (codes "rs") target cargo_cmd
      else if text_eq cat (codes "benchmark")
      then run_test_suite (codes "benchmark") (codes "rs") target bench_cmd
      else if text_eq cat (codes "fuzzing") || text_eq cat (codes "threat")
      then pure ([], 0)
      else fail (failed (lit "Unknown test category: " ∷ str cat ∷ []))

  abbrev pub add_results : Results → Results → Results
  add_results (results, time) (more, later) = (results ++ more, time + later)

  -- The public suites, one after another.
  unfoldable pub later_suites : Task m Results
  later_suites = do
    component ← execute_suite (codes "component") none
    integration ← execute_suite (codes "integration") none
    pure (add_results component integration)

  unfoldable pub all_suites : Task m Results
  all_suites = do
    unit ← execute_suite (codes "unit") none
    later ← later_suites
    pure (add_results unit later)

  unfoldable pub selected_suites : Option Text → Option Text → Task m Results
  selected_suites none target = all_suites
  selected_suites (some cat) target =
      if text_eq cat (codes "all") then all_suites else execute_suite cat target

  abbrev pub all_passed : List TestRecord → Bool
  all_passed [] = true
  all_passed (res ∷ rest) = res.passed && all_passed rest

  -- The report, whose error is printed, and the verdict.
  unfoldable pub conclude : ℕ → Results → Task m (Unit {0})
  conclude setup_time (results, restore_time) = do
    ignored m (generate_markdown_report m results setup_time restore_time)
    unless (all_passed results)
        (fail (failed (lit "One or more test suites failed validation." ∷ [])))

  -- `VmGuard`: the machine is deleted when its scope is left, by a result, an error or a panic, but
  -- not when the process exits.
  unfoldable pub drop_guard :
      {A : Type 0} → Outcome Failure A × Job m.State → Outcome Failure A × Job m.State
  drop_guard (ok a, s) = (ok a, (call m delete s).1)
  drop_guard (err (failed why), s) = (err (failed why), (call m delete s).1)
  drop_guard (err panicked, s) = (err panicked, (call m delete s).1)
  drop_guard (err (exits n), s) = (err (exits n), s)

  abbrev pub dropped : {A : Type 0} → Task m A → Task m A
  dropped task s = drop_guard (task s)

  -- What the guard's scope holds.
  unfoldable pub pipeline : Option Text → Option Text → Text → Task m (Unit {0})
  pipeline category target image_alias = do
    setup_time ← setup_and_snapshot_vm m image_alias
    results ← selected_suites category target
    conclude setup_time results

  unfoldable pub run_tests : Option Text → Option Text → Text → Task m (Unit {0})
  run_tests category target image_alias = do
    prepare_test_image m image_alias
    dropped (pipeline category target image_alias)
