-- ===== src/Xtask/Runner/Sealed.antt =====
-- A whole run of the task runner: its trace, and the end of the machine.
use bouclier_bleu.Base.{
  ℕ, refl, inl, inr, Bool-cases, Option, none, some, Text, codes, Outcome, ok, err, text_eq,
}
use bouclier_bleu.Exec.Ensures.{Holds-either}
use bouclier_bleu.Xtask.Machine.{
  Machine, Job, Failure, failed, panicked, exits, Task, build_image, join,
}
use bouclier_bleu.Xtask.Utils.{call}
use bouclier_bleu.Xtask.Vm.{gets, has_image, prepare_test_image, setup_and_snapshot_vm, ignored}
use bouclier_bleu.Xtask.Report.{generate_markdown_report}
use bouclier_bleu.Xtask.Report.Quiet.{report-Keeps}
use bouclier_bleu.Xtask.Trace.{stale, verified, At, IsSound}
use bouclier_bleu.Xtask.Vm.Keeps.{Kept, and_then, unless-Kept, execute_cmd-Kept}
use bouclier_bleu.Xtask.Vm.Goes.{IsBuilding, neutral-In, neutral-IsSound, Goes, goes_on, kept-Goes}
use bouclier_bleu.Xtask.Trace.{building}
use bouclier_bleu.Xtask.Vm.Isolated.{setup_and_snapshot_vm-Goes}
use bouclier_bleu.Xtask.Runner.{
  Results, later_suites, all_suites, selected_suites, all_passed, conclude, drop_guard, dropped,
  pipeline, run_tests,
}
use bouclier_bleu.Xtask.Runner.Clean.{execute_suite-Goes, IsSound-Holds}

module _ (m : Machine) where
  abbrev Sound : {A : Type 0} → Task m A → Type 0
  Sound task = Kept m IsSound neutral-IsSound task

  later_suites-Goes : Goes m IsSound (later_suites m) IsSound
  unfolding later_suites
  later_suites-Goes =
      goes_on m IsSound IsSound IsSound _ _ (execute_suite-Goes m (codes "component") none) λ a.
        goes_on m IsSound IsSound IsSound _ _ (execute_suite-Goes m (codes "integration") none)
          λ b s h. h

  all_suites-Goes : Goes m IsSound (all_suites m) IsSound
  unfolding all_suites
  all_suites-Goes =
      goes_on m IsSound IsSound IsSound _ _ (execute_suite-Goes m (codes "unit") none)
        λ a. goes_on m IsSound IsSound IsSound _ _ later_suites-Goes λ b s h. h

  selected_suites-Goes :
      (category target : Option Text) → Goes m IsSound (selected_suites m category target) IsSound
  unfolding selected_suites
  selected_suites-Goes none target = all_suites-Goes
  selected_suites-Goes (some cat) target = λ s h. elim (Bool-cases (text_eq cat (codes "all"))) [
    | inl all ↦ rw all (all_suites-Goes s h)
    | inr one ↦ rw one (execute_suite-Goes m cat target s h)
  ]

  conclude-Kept : (setup_time : ℕ) (results : Results) → Sound (conclude m setup_time results)
  unfolding conclude
  conclude-Kept setup_time (results, restore_time) =
      and_then m IsSound neutral-IsSound
        (ignored m (generate_markdown_report m results setup_time restore_time)) _
        (λ s h. report-Keeps m IsSound results setup_time restore_time s h)
        λ u. unless-Kept m IsSound neutral-IsSound (all_passed m results) _ (λ s h. h)

  pipeline-Goes :
      (category target : Option Text) (image_alias : Text)
      → Goes m IsBuilding (pipeline m category target image_alias) IsSound
  unfolding pipeline
  pipeline-Goes category target image_alias =
      goes_on m IsBuilding (At stale verified) IsSound (setup_and_snapshot_vm m image_alias) _
        (setup_and_snapshot_vm-Goes m image_alias)
        λ setup_time s h.
          goes_on m IsSound IsSound IsSound (selected_suites m category target)
            (conclude m setup_time) (selected_suites-Goes category target)
            (λ results.
              kept-Goes m IsSound (conclude m setup_time results) (λ t k. k)
                (conclude-Kept setup_time results))
            s h.0

  drop_guard-IsSound :
      {A : Type 0} (r : Outcome Failure A × Job m.State)
      → IsSound r.1.calls
      → IsSound (drop_guard m r).1.calls
  unfolding drop_guard call
  drop_guard-IsSound (ok a, s) h = (tt, h)
  drop_guard-IsSound (err (failed why), s) h = (tt, h)
  drop_guard-IsSound (err panicked, s) h = (tt, h)
  drop_guard-IsSound (err (exits n), s) h = h

  prepare-Kept :
      (image_alias : Text)
      → Kept m IsBuilding (neutral-In building) (prepare_test_image m image_alias)
  unfolding prepare_test_image
  prepare-Kept image_alias =
      and_then m IsBuilding (neutral-In building) (gets m (has_image m image_alias)) _ (λ s h. h)
        λ there. unless-Kept m IsBuilding (neutral-In building) there _ (
          execute_cmd-Kept m IsBuilding (neutral-In building)
            (build_image (join m m.root "scripts/build_image.sh") image_alias) _ refl)

  -- However a run ends, with every test passed, with an error, with a panic or with the exit of the
  -- process: a snapshot was taken only after `eth0` was taken off the profile or was not on it,
  -- the machine was then moved to that profile, and the last listing of its links after that printed no
  -- `eth0`, whatever its exit status; and after the snapshot every command of a test ran on a machine
  -- that had been put back and started since the last one.
  pub run_tests-IsSound :
      (category target : Option Text) (image_alias : Text) (s : Job m.State)
      → IsBuilding s.calls
      → IsSound (run_tests m category target image_alias s).1.calls
  unfolding run_tests
  run_tests-IsSound category target image_alias s h =
      Holds-either (λ u s'. IsSound s'.calls) (λ s'. IsSound s'.calls)
        (run_tests m category target image_alias s)
        (goes_on m IsBuilding IsBuilding IsSound (prepare_test_image m image_alias)
          (λ u. dropped m (pipeline m category target image_alias))
          (kept-Goes m IsBuilding (prepare_test_image m image_alias) (λ t k. k.0)
            (prepare-Kept image_alias))
          (λ u s₁ k. IsSound-Holds m (dropped m (pipeline m category target image_alias) s₁) (
            drop_guard-IsSound (pipeline m category target image_alias s₁) (
              Holds-either (λ v s'. IsSound s'.calls) (λ s'. IsSound s'.calls)
                (pipeline m category target image_alias s₁)
                (pipeline-Goes category target image_alias s₁ k) λ v s₂ j. j)))
          s h)
        λ u s₁ k. k
