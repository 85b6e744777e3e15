-- ===== src/Tests/Runner.antt =====
-- Examples of the task runner on a host where everything works.
use bouclier_bleu.Base.{
  contains_text, starts_with, text_eq, ok, ◌≡◌, refl, Option, none, some, [], ◌∷◌, Text, codes,
  Line, lit,
}
use bouclier_bleu.Exec.Ensures.{Holds}
use bouclier_bleu.Xtask.Trace.{IsSound, HasPassed}
use bouclier_bleu.Xtask.Utils.{
  await_guest_agent, poll_agent, sleep, incus_exec, guest_checked, execute_cmd, checked, call,
}
use bouclier_bleu.Xtask.Utils.Await.{Answered, Silent, await_guest_agent-Answered}
use bouclier_bleu.Exec.{◌>>=◌}
use bouclier_bleu.Xtask.Vm.{
  has_image, prepare_test_image, setup_and_snapshot_vm, provision, isolate, ensure_base_image,
  launch_instance, transfer_workspace, provision_default_config, compile_workspace, enforce_airgap,
  ensure_no_network_profile, removed, inject_kernel_parameters, boot_configured, assert_no_network,
  inspected_links, shows_network, create_snapshot, restore, restore_vm_snapshot, discard_file,
}
use bouclier_bleu.Xtask.Report.{generate_markdown_report, take_bench, write_report}
use bouclier_bleu.Xtask.Runner.{
  run_entries, run_tests, conclude, pipeline, drop_guard, selected_suites, execute_suite,
  run_test_suite, run_present, run_listed, run_entry, run_test, side_load, is_selected, is_targeted,
}
use bouclier_bleu.Xtask.Runner.Success.{run_tests-HasPassed}
use bouclier_bleu.Xtask.Runner.Sealed.{run_tests-IsSound}
use bouclier_bleu.Tests.Samples.{host, job}

abbrev component : Option Text
component = some (codes "component")

abbrev image : Text
image = codes "base"

run_tests-IsSound_example : IsSound (run_tests host component none image job).1.calls
run_tests-IsSound_example = run_tests-IsSound host component none image job (tt, refl)

abbrev shell : Text → Text → Line
shell stem full = lit "true" ∷ []

succeeded : (run_tests host component none image job).0 ≡ ok tt
unfolding run_tests prepare_test_image has_image pipeline drop_guard setup_and_snapshot_vm provision
    isolate ensure_base_image launch_instance transfer_workspace provision_default_config
    compile_workspace enforce_airgap ensure_no_network_profile removed inject_kernel_parameters
    boot_configured assert_no_network inspected_links shows_network create_snapshot restore
    restore_vm_snapshot discard_file selected_suites execute_suite run_test_suite run_present
    run_listed run_entries run_entry run_test side_load is_selected is_targeted conclude
    generate_markdown_report take_bench write_report await_guest_agent poll_agent sleep incus_exec
    guest_checked execute_cmd checked call contains_text starts_with text_eq ◌>>=◌
succeeded = refl

run_tests-HasPassed_example : HasPassed (run_tests host component none image job).1.calls
run_tests-HasPassed_example = run_tests-HasPassed host component none image job (refl, tt) succeeded

await_guest_agent-Answered_example :
    Holds (λ u s. Answered host 120 job s) (λ s. Silent host 120 job s) (await_guest_agent host job)
await_guest_agent-Answered_example = await_guest_agent-Answered host job
