-- ===== src/Xtask/Runner/Success.antt =====
-- What the success of a run means: no test in its trace failed.
use bouclier_bleu.Base.{
  ℕ, ◌≡◌, refl, inl, inr, Bool, true, false, Option, [], ◌∷◌, Text, lit, Outcome, ok, err,
}
use bouclier_bleu.Exec.{unless, fail}
use bouclier_bleu.Exec.Ensures.{Holds, Leads, bind-Leads, Holds-ok}
use bouclier_bleu.Xtask.Machine.{Machine, Job, Failure, failed, panicked, exits, build_image, join}
use bouclier_bleu.Xtask.Utils.{call}
use bouclier_bleu.Xtask.Vm.{gets, has_image, prepare_test_image, setup_and_snapshot_vm, ignored}
use bouclier_bleu.Xtask.Report.{generate_markdown_report}
use bouclier_bleu.Xtask.Report.Quiet.{report-Keeps}
use bouclier_bleu.Xtask.Trace.{HasPassed}
use bouclier_bleu.Xtask.Vm.Keeps.{Kept, and_then, unless-Kept, execute_cmd-Kept}
use bouclier_bleu.Xtask.Vm.Tested.{
  IsFresh, neutral-IsFresh, Moves, moves_on, kept-Moves, setup-HasPassed,
}
use bouclier_bleu.Xtask.Runner.{
  Results, selected_suites, all_passed, conclude, drop_guard, dropped, pipeline, run_tests,
}
use bouclier_bleu.Xtask.Runner.Passed.{Unless}
use bouclier_bleu.Xtask.Runner.Suites.{Nothing, After, selected_suites-Tells}

module _ (m : Machine) where
  -- The verdict: without a failed test, and then without one in the trace.
  verdict-HasPassed :
      (passed : Bool) (s : Job m.State)
      → Unless passed s.calls
      → Holds
          (λ u s'. HasPassed s'.calls)
          (Nothing m)
          (unless passed (fail (failed (lit "One or more test suites failed validation." ∷ []))) s)
  verdict-HasPassed true s (inl missed) = cc missed
  verdict-HasPassed true s (inr h) = h
  verdict-HasPassed false s h = tt

  conclude-HasPassed :
      (setup_time : ℕ) (results : Results)
      → Leads
          (After m results)
          (conclude m setup_time results)
          (λ u s. HasPassed s.calls)
          (Nothing m)
  unfolding conclude
  conclude-HasPassed setup_time (results, restore_time) =
      let report = ignored m (generate_markdown_report m results setup_time restore_time) in
      bind-Leads (After m (results, restore_time)) (λ u s. After m (results, restore_time) s)
        (λ u s. HasPassed s.calls) (Nothing m) report _
        (λ s h. report-Keeps m (Unless (all_passed m results)) results setup_time restore_time s h)
        λ u s h. verdict-HasPassed (all_passed m results) s h

  pipeline-HasPassed :
      (category target : Option Text) (image_alias : Text)
      → Moves m IsFresh (pipeline m category target image_alias) HasPassed
  unfolding pipeline
  pipeline-HasPassed category target image_alias =
      moves_on m IsFresh HasPassed HasPassed (setup_and_snapshot_vm m image_alias) _
        (setup-HasPassed m image_alias)
        λ setup_time.
          bind-Leads (λ s. HasPassed s.calls) (After m) (λ u s. HasPassed s.calls) (Nothing m)
            (selected_suites m category target) (conclude m setup_time)
            (selected_suites-Tells m category target) (conclude-HasPassed setup_time)

  drop_guard-HasPassed :
      (r : Outcome Failure (Unit {0}) × Job m.State)
      → Holds (λ u s. HasPassed s.calls) (Nothing m) r
      → Holds (λ u s. HasPassed s.calls) (Nothing m) (drop_guard m r)
  unfolding drop_guard call
  drop_guard-HasPassed (ok a, s) h = (tt, h)
  drop_guard-HasPassed (err (failed why), s) h = tt
  drop_guard-HasPassed (err panicked, s) h = tt
  drop_guard-HasPassed (err (exits n), s) h = tt

  prepare-IsFresh :
      (image_alias : Text) → Kept m IsFresh neutral-IsFresh (prepare_test_image m image_alias)
  unfolding prepare_test_image
  prepare-IsFresh image_alias =
      and_then m IsFresh neutral-IsFresh (gets m (has_image m image_alias)) _ (λ s h. h)
        λ there. unless-Kept m IsFresh neutral-IsFresh there _ (
          execute_cmd-Kept m IsFresh neutral-IsFresh
            (build_image (join m m.root "scripts/build_image.sh") image_alias) _ refl)

  -- A run that succeeds has no failed test: every command that its trace shows in the guest of a
  -- machine that was just put back to the snapshot has succeeded.
  pub run_tests-HasPassed :
      (category target : Option Text) (image_alias : Text) (s : Job m.State)
      → IsFresh s.calls
      → (run_tests m category target image_alias s).0 ≡ ok tt
      → HasPassed (run_tests m category target image_alias s).1.calls
  unfolding run_tests
  run_tests-HasPassed category target image_alias s fresh succeeded =
      Holds-ok (λ u s'. HasPassed s'.calls) (Nothing m) (run_tests m category target image_alias s)
        tt
        (moves_on m IsFresh IsFresh HasPassed (prepare_test_image m image_alias)
          (λ u. dropped m (pipeline m category target image_alias))
          (kept-Moves m IsFresh (prepare_test_image m image_alias) (prepare-IsFresh image_alias))
          (λ u s₁ h.
            drop_guard-HasPassed (pipeline m category target image_alias s₁)
              (pipeline-HasPassed category target image_alias s₁ h))
          s fresh)
        succeeded
