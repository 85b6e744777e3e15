-- ===== src/Xtask/Report.antt =====
-- xtask/src/report.rs: the records of the tests and the report that is written of them.
pub mod Quiet
use bouclier_bleu.Base.{
  ℕ, Bool, true, false, Option, none, some, List, [], ◌∷◌, ◌++◌, Text, codes, ok,
}
use bouclier_bleu.Exec.{pure, fail, ◌>>=◌, ◌>>◌}
use bouclier_bleu.Xtask.Machine.{Machine, Job, failed, Task, join}
use bouclier_bleu.Xtask.Vm.{gets, tests_dir, discard_file}

pub record TestRecord : Type 0 where
  pub name : Text
  pub category : Text
  pub duration : ℕ
  pub passed : Bool

abbrev pub status_text : Bool → Text
status_text true = codes "PASS"
status_text false = codes "FAIL"

abbrev pub table_head : Text
table_head =
    codes
      "# Bouclier Bleu Test Results\n\n| Test Name | Category | Duration | Status |\n|-----------|----------|----------|--------|\n"

module _ (m : Machine) where
  unfoldable pub row : TestRecord → Text
  row res =
      codes "| `"
      ++ res.name
      ++ codes "` | "
      ++ res.category
      ++ codes " | "
      ++ m.format_secs res.duration
      ++ codes "s | "
      ++ status_text res.passed
      ++ codes " |\n"

  unfoldable pub rows : List TestRecord → Text
  unfolding row
  rows [] = []
  rows (res ∷ rest) = row res ++ rows rest

  unfoldable pub metrics : ℕ → ℕ → Text
  metrics setup_time restore_time =
      codes "\n## Pipeline Environment Metrics\n\n* **Initial VM Setup & Snapshot:** `"
      ++ m.format_secs setup_time
      ++ codes "s`\n* **Cumulative Snapshot Restorations:** `"
      ++ m.format_secs restore_time
      ++ codes "s`\n"

  abbrev pub bench_path : Text
  bench_path = join m (tests_dir m) "benchmark_results.md"

  abbrev pub report_path : Text
  report_path = join m (tests_dir m) "Results.md"

  abbrev pub bench_section : Option Text → Text
  bench_section none = []
  bench_section (some bench_data) = codes "\n" ++ bench_data

  -- The results of the benchmarks, which are taken out of their file.
  unfoldable pub take_bench : Bool → Task m Text
  take_bench false = pure []
  take_bench true = do
    bench_data ← gets m (m.read_to_string bench_path)
    discard_file m bench_path
    pure (bench_section bench_data)

  -- `fs::write`, whose error leaves the function.
  unfoldable pub write_report : Text → Task m (Unit {0})
  write_report report s =
      let (done, host) = m.write report_path report s.host in
      let s' : Job m.State = record s { host = host } in
      elim done [ true ↦ (ok tt, s') | false ↦ fail (failed []) s' ]

  unfoldable pub generate_markdown_report : List TestRecord → ℕ → ℕ → Task m (Unit {0})
  unfolding rows metrics
  generate_markdown_report [] setup_time restore_time = pure tt
  generate_markdown_report (res ∷ rest) setup_time restore_time = do
    there ← gets m (m.exists bench_path)
    bench ← take_bench there
    write_report (table_head ++ rows (res ∷ rest) ++ metrics setup_time restore_time ++ bench)
