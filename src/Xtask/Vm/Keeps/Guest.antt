-- ===== src/Xtask/Vm/Keeps/Guest.antt =====
-- The tasks that run commands in the guest, where these are allowed.
use bouclier_bleu.Base.{◌≡◌, refl, inl, inr, true, Bool-cases, Option, none, some, ◌∷◌, Text, Line}
use bouclier_bleu.Xtask.Machine.{Machine, Output, Command, tar, file_push, restart, guest}
use bouclier_bleu.Xtask.Scripts.{
  inject_cmd, enable_lsm_script, mask_services, extract_workspace, install_config,
}
use bouclier_bleu.Xtask.Utils.{call, execute_cmd, guest_checked, full_cmd, incus_exec}
use bouclier_bleu.Xtask.Vm.{
  discard_file, transfer_workspace, compile_workspace, ignored, boot_configured,
  inject_kernel_parameters, provision_default_config, tarball_path,
}
use bouclier_bleu.Xtask.Trace.{Trace, is_neutral}
use bouclier_bleu.Xtask.Vm.Keeps.{
  Kept, and_then, checked-Kept, sleep-Kept, execute_cmd-Kept, await_guest_agent-Kept,
  guest_checked-same,
}

module _ (m : Machine) (P : Trace → Type 0)
    (kept : (c : Command) (o : Option Output) (t : Trace)
      → is_neutral c ≡ true
      → P t
      → P ((c, o) ∷ t))
    (guests : (script : Line) (o : Option Output) (t : Trace)
      → P t
      → P ((guest script, o) ∷ t)) where
  guest-Kept : (script : Line) → Kept m P kept (call m (guest script))
  unfolding call
  guest-Kept script s h = guests script _ s.calls h

  guest_checked-Kept : (o : Option Output) → Kept m P kept (guest_checked m o)
  guest_checked-Kept o s h = rw (guest_checked-same m o s) h

  pub incus_exec-Kept : (command : Line) → Kept m P kept (incus_exec m command)
  unfolding incus_exec
  incus_exec-Kept command =
      and_then m P kept _ _ (guest-Kept (full_cmd m command)) λ o. guest_checked-Kept o

  extract-Kept : (why : Line) → Kept m P kept (execute_cmd m (guest extract_workspace) why)
  unfolding execute_cmd
  extract-Kept why =
      and_then m P kept _ _ (guest-Kept extract_workspace) λ o. checked-Kept m P kept why o

  discard_file-Kept : (path : Text) → Kept m P kept (discard_file m path)
  unfolding discard_file
  discard_file-Kept path s h = h

  pub transfer_workspace-Kept : Kept m P kept (transfer_workspace m)
  unfolding transfer_workspace
  transfer_workspace-Kept =
      and_then m P kept _ _ (execute_cmd-Kept m P kept (tar (tarball_path m)) _ refl) λ u.
        and_then m P kept _ _ (execute_cmd-Kept m P kept (file_push (tarball_path m)) _ refl)
          λ v. and_then m P kept _ _ (discard_file-Kept (tarball_path m)) λ w. extract-Kept _

  pub compile_workspace-Kept : Kept m P kept (compile_workspace m)
  unfolding compile_workspace
  compile_workspace-Kept = and_then m P kept _ _ (incus_exec-Kept inject_cmd) λ u.
      and_then m P kept _ _ (incus_exec-Kept _)
        λ v. and_then m P kept _ _ (incus_exec-Kept _) λ w. sleep-Kept m P kept 3

  pub provision_default_config-Kept : Kept m P kept (provision_default_config m)
  unfolding provision_default_config
  provision_default_config-Kept = incus_exec-Kept install_config

  boot_configured-Kept : (o : Option Output) → Kept m P kept (boot_configured m o)
  unfolding boot_configured
  boot_configured-Kept none s h = h
  boot_configured-Kept (some o) s h = elim (Bool-cases o.is_success) [
    | inl done ↦ rw done h
    | inr refused ↦ rw refused h
  ]

  pub inject_kernel_parameters-Kept : Kept m P kept (inject_kernel_parameters m)
  unfolding inject_kernel_parameters
  inject_kernel_parameters-Kept = and_then m P kept _ _ (guest-Kept enable_lsm_script) λ o.
      and_then m P kept _ _ (boot_configured-Kept o) λ u.
        and_then m P kept (ignored m (incus_exec m mask_services)) _
          (λ s h. incus_exec-Kept mask_services s h)
          λ v.
            and_then m P kept _ _ (execute_cmd-Kept m P kept restart _ refl)
              λ w. await_guest_agent-Kept m P kept
