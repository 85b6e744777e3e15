-- ===== src/Xtask/Vm/Tested.antt =====
-- A machine in a stage, and no test that failed: what the set-up keeps of that.
use bouclier_bleu.Base.{
  ◌≡◌, refl, inl, inr, true, Bool-cases, Option, none, some, [], ◌∷◌, Text, Line, lit,
}
use bouclier_bleu.Exec.{◌>>=◌}
use bouclier_bleu.Exec.Ensures.{Keeps, Leads, bind-Leads, Keeps-Leads}
use bouclier_bleu.Xtask.Machine.{
  Machine, Output, Command, Task, image_info, image_import, sha256sum, alias_create, delete,
  profile_show, profile_copy, device_remove, tar, file_push, echo_ready, cat_benchmark, restart,
  stop, stop_force, build_image, launch, profile_assign, ip_link, guest, start, snapshot_create,
  snapshot_restore,
}
use bouclier_bleu.Xtask.Utils.{call, execute_cmd}
use bouclier_bleu.Xtask.Vm.{
  gets, enforce_airgap, assert_no_network, inspected_links, launch_instance, create_snapshot,
  isolate, provision, shows_network, setup_and_snapshot_vm, inject_kernel_parameters,
}
use bouclier_bleu.Xtask.Trace.{Trace, Stage, building, stage, is_neutral, HasPassed}
use bouclier_bleu.Xtask.Vm.Keeps.{
  Kept, and_then, call-Kept, checked-Kept, execute_cmd-Kept, await_guest_agent-Kept,
  ensure_base_image-Kept, ensure_no_network_profile-Kept,
}
use bouclier_bleu.Xtask.Vm.Keeps.Guest.{
  transfer_workspace-Kept, compile_workspace-Kept, provision_default_config-Kept,
  inject_kernel_parameters-Kept,
}

abbrev pub Tested : Stage → Trace → Type 0
Tested st t = (stage t ≡ st) × HasPassed t

neutral-Tested :
    (c : Command) (o : Option Output) (t : Trace) (st : Stage)
    → is_neutral c ≡ true
    → Tested st t
    → Tested st ((c, o) ∷ t)
neutral-Tested (image_info a) o t st n h = (h.0, (tt, h.1))
neutral-Tested (image_import a b) o t st n h = (h.0, (tt, h.1))
neutral-Tested (sha256sum a) o t st n h = (h.0, (tt, h.1))
neutral-Tested (alias_create a b) o t st n h = (h.0, (tt, h.1))
neutral-Tested delete o t st n h = (h.0, (tt, h.1))
neutral-Tested profile_show o t st n h = (h.0, (tt, h.1))
neutral-Tested profile_copy o t st n h = cc n
neutral-Tested device_remove o t st n h = cc n
neutral-Tested (tar a) o t st n h = (h.0, (tt, h.1))
neutral-Tested (file_push a) o t st n h = (h.0, (tt, h.1))
neutral-Tested echo_ready o t st n h = (h.0, (tt, h.1))
neutral-Tested cat_benchmark o t st n h = (h.0, (tt, h.1))
neutral-Tested restart o t st n h = (h.0, (tt, h.1))
neutral-Tested stop o t st n h = (h.0, (tt, h.1))
neutral-Tested stop_force o t st n h = (h.0, (tt, h.1))
neutral-Tested (build_image a b) o t st n h = (h.0, (tt, h.1))
neutral-Tested (launch a) o t st n h = cc n
neutral-Tested profile_assign o t st n h = cc n
neutral-Tested ip_link o t st n h = cc n
neutral-Tested (guest script) o t st n h = cc n
neutral-Tested start o t st n h = cc n
neutral-Tested snapshot_create o t st n h = cc n
neutral-Tested snapshot_restore o t st n h = cc n

pub neutral-HasPassed :
    (c : Command) (o : Option Output) (t : Trace)
    → is_neutral c ≡ true
    → HasPassed t
    → HasPassed ((c, o) ∷ t)
neutral-HasPassed c o t n h = (neutral-Tested c o t (stage t) n (refl, h)).1

-- Nothing was tested yet.
abbrev pub IsFresh : Trace → Type 0
IsFresh = Tested building

pub neutral-IsFresh :
    (c : Command) (o : Option Output) (t : Trace)
    → is_neutral c ≡ true
    → IsFresh t
    → IsFresh ((c, o) ∷ t)
neutral-IsFresh c o t n h = neutral-Tested c o t building n h

guest-IsFresh :
    (script : Line) (o : Option Output) (t : Trace) → IsFresh t → IsFresh ((guest script, o) ∷ t)
guest-IsFresh script o t (at, passed) = (rw at refl, (rw at tt, passed))

module _ (m : Machine) where
  -- Tasks between traces, where nothing is said of a failure.
  abbrev pub Moves : {A : Type 0} → (Trace → Type 0) → Task m A → (Trace → Type 0) → Type 0
  Moves P task Q = Leads (λ s. P s.calls) task (λ a s. Q s.calls) (λ s. Unit {0})

  pub moves_on :
      {A B : Type 0} (P Q Q' : Trace → Type 0) (task : Task m A) (next : A → Task m B)
      → Moves P task Q
      → ((a : A) → Moves Q (next a) Q')
      → Moves P (task >>= next) Q'
  moves_on P Q Q' task next first later =
      bind-Leads (λ s. P s.calls) (λ a s. Q s.calls) (λ a s. Q' s.calls) (λ s. Unit {0}) task next
        first later

  pub kept-Moves :
      {A : Type 0} (P : Trace → Type 0) (task : Task m A)
      → Keeps (λ s. P s.calls) task
      → Moves P task P
  kept-Moves P task keeps = Keeps-Leads (λ s. P s.calls) (λ s. Unit {0}) task (λ s h. tt) keeps

  abbrev Fresh : {A : Type 0} → Task m A → Type 0
  Fresh task = Kept m IsFresh neutral-IsFresh task

  build_then :
      {A B : Type 0} (task : Task m A) (next : A → Task m B)
      → Fresh task
      → ((a : A) → Fresh (next a))
      → Fresh (task >>= next)
  build_then task next first later = and_then m IsFresh neutral-IsFresh task next first later

  checked_call-Fresh :
      (c : Command) (why : Line)
      → ((o : Option Output) (t : Trace) → IsFresh t → IsFresh ((c, o) ∷ t))
      → Fresh (execute_cmd m c why)
  unfolding execute_cmd call
  checked_call-Fresh c why fact =
      build_then (call m c) _ (λ s h. fact _ s.calls h)
        λ o. checked-Kept m IsFresh neutral-IsFresh why o

  launch_instance-Fresh : (image_alias : Text) → Fresh (launch_instance m image_alias)
  unfolding launch_instance
  launch_instance-Fresh image_alias =
      checked_call-Fresh (launch image_alias) _ λ o t h. (refl, (tt, h.1))

  provision-Fresh : (image_alias : Text) → Fresh (provision m image_alias)
  unfolding provision
  provision-Fresh image_alias =
      build_then _ _ (ensure_base_image-Kept m IsFresh neutral-IsFresh image_alias) λ u.
        build_then _ _ (call-Kept m IsFresh neutral-IsFresh delete refl) λ o.
          build_then _ _ (launch_instance-Fresh image_alias) λ v.
            build_then _ _ (await_guest_agent-Kept m IsFresh neutral-IsFresh) λ w.
              build_then _ _ (transfer_workspace-Kept m IsFresh neutral-IsFresh guest-IsFresh) λ x.
                build_then _ _
                  (provision_default_config-Kept m IsFresh neutral-IsFresh guest-IsFresh)
                  λ y. compile_workspace-Kept m IsFresh neutral-IsFresh guest-IsFresh

  enforce_airgap-Fresh : Fresh (enforce_airgap m)
  unfolding enforce_airgap
  enforce_airgap-Fresh =
      build_then _ _
        (ensure_no_network_profile-Kept m IsFresh neutral-IsFresh (λ o t h. (h.0, (tt, h.1)))
          λ o t h. (h.0, (tt, h.1)))
        λ u. checked_call-Fresh profile_assign _ λ o t h. (h.0, (tt, h.1))

  inspected_links-Fresh : (o : Option Output) → Fresh (inspected_links m o)
  unfolding inspected_links
  inspected_links-Fresh none = λ s h. h
  inspected_links-Fresh (some o) = λ s h. elim (Bool-cases (shows_network o)) [
    | inl network ↦ rw network h
    | inr isolated ↦ rw isolated h
  ]

  assert_no_network-Fresh : Fresh (assert_no_network m)
  unfolding assert_no_network call
  assert_no_network-Fresh =
      build_then (call m ip_link) _ (λ s h. (h.0, (tt, h.1))) inspected_links-Fresh

  snapshot-HasPassed : (why : Line) → Moves IsFresh (execute_cmd m snapshot_create why) HasPassed
  unfolding execute_cmd call
  snapshot-HasPassed why =
      moves_on IsFresh HasPassed HasPassed (call m snapshot_create) _ (λ s h. (tt, h.1))
        λ o. kept-Moves HasPassed _ (checked-Kept m HasPassed neutral-HasPassed why o)

  create_snapshot-HasPassed : Moves IsFresh (create_snapshot m) HasPassed
  unfolding create_snapshot
  create_snapshot-HasPassed =
      let why : Line = lit "Failed to gracefully halt VM" ∷ [] in
      moves_on IsFresh IsFresh HasPassed (execute_cmd m stop why) _
        (kept-Moves IsFresh (execute_cmd m stop why)
          (execute_cmd-Kept m IsFresh neutral-IsFresh stop why refl))
        λ u. snapshot-HasPassed _

  isolate-HasPassed : Moves IsFresh (isolate m) HasPassed
  unfolding isolate
  isolate-HasPassed =
      moves_on IsFresh IsFresh HasPassed (enforce_airgap m) _
        (kept-Moves IsFresh (enforce_airgap m) enforce_airgap-Fresh)
        λ u.
          moves_on IsFresh IsFresh HasPassed (inject_kernel_parameters m) _
            (kept-Moves IsFresh (inject_kernel_parameters m)
              (inject_kernel_parameters-Kept m IsFresh neutral-IsFresh guest-IsFresh))
            λ v.
              moves_on IsFresh IsFresh HasPassed (assert_no_network m) _
                (kept-Moves IsFresh (assert_no_network m) assert_no_network-Fresh)
                λ w. create_snapshot-HasPassed

  pub setup-HasPassed :
      (image_alias : Text) → Moves IsFresh (setup_and_snapshot_vm m image_alias) HasPassed
  unfolding setup_and_snapshot_vm
  setup-HasPassed image_alias =
      moves_on IsFresh IsFresh HasPassed (gets m m.now) _ (λ s h. h)
        λ from.
          moves_on IsFresh IsFresh HasPassed (provision m image_alias) _
            (kept-Moves IsFresh (provision m image_alias) (provision-Fresh image_alias))
            λ u. moves_on IsFresh HasPassed HasPassed (isolate m) _ isolate-HasPassed λ v s h. h
