-- ===== src/Xtask/Report/Quiet.antt =====
-- The report runs no command.
use bouclier_bleu.Base.{ℕ, Bool, true, false, List, [], ◌∷◌, Text, inl, inr, Bool-cases}
use bouclier_bleu.Exec.{◌>>=◌}
use bouclier_bleu.Exec.Ensures.{Keeps, bind-Keeps}
use bouclier_bleu.Xtask.Machine.{Machine, Task}
use bouclier_bleu.Xtask.Vm.{gets, discard_file}
use bouclier_bleu.Xtask.Report.{
  TestRecord, take_bench, write_report, generate_markdown_report, report_path, bench_path,
}
use bouclier_bleu.Xtask.Trace.{Trace}

module _ (m : Machine) (P : Trace → Type 0) where
  abbrev Quiet : {A : Type 0} → Task m A → Type 0
  Quiet task = Keeps (λ s. P s.calls) task

  take_bench-Keeps : (there : Bool) → Quiet (take_bench m there)
  unfolding take_bench discard_file ◌>>=◌
  take_bench-Keeps true s h = h
  take_bench-Keeps false s h = h

  write_report-Keeps : (report : Text) → Quiet (write_report m report)
  unfolding write_report
  write_report-Keeps report s h = elim (Bool-cases (m.write (report_path m) report s.host).0) [
    | inl done ↦ rw (write_report, done) h
    | inr refused ↦ rw (write_report, refused) h
  ]

  pub report-Keeps :
      (results : List TestRecord) (setup_time restore_time : ℕ)
      → Quiet (generate_markdown_report m results setup_time restore_time)
  unfolding generate_markdown_report
  report-Keeps [] setup_time restore_time = λ s h. h
  report-Keeps (res ∷ rest) setup_time restore_time =
      bind-Keeps (λ s. P s.calls) (gets m (m.exists (bench_path m))) _ (λ s h. h)
        λ there.
          bind-Keeps (λ s. P s.calls) (take_bench m there) _ (take_bench-Keeps there)
            λ bench. write_report-Keeps _
