-- ===== src/Xtask/Vm/Isolated.antt =====
-- What the set-up of the machine guarantees: its snapshot has no network.
use bouclier_bleu.Base.{
  ◌≡◌, refl, ap, ◌∙◌, inl, inr, true, Bool-cases, Option, none, some, [], ◌∷◌, Text, Line, lit,
}
use bouclier_bleu.Exec.Ensures.{Leads, bind-Leads}
use bouclier_bleu.Xtask.Machine.{
  Machine, Output, Command, Job, delete, launch, ip_link, guest, stop, snapshot_create, argv,
}
use bouclier_bleu.Xtask.Utils.{call, execute_cmd}
use bouclier_bleu.Xtask.Vm.{
  gets, shows_network, inspected_links, assert_no_network, launch_instance, create_snapshot,
  isolate, provision, setup_and_snapshot_vm,
}
use bouclier_bleu.Xtask.Trace.{
  Trace, Phase, after_links, building, stale, severed, verified, IsSound, At, stage, phase,
  is_neutral, prints_eth0,
}
use bouclier_bleu.Xtask.Vm.Keeps.{
  neutral-At, Kept, and_then, call-Kept, checked-Kept, execute_cmd-Kept, await_guest_agent-Kept,
  ensure_base_image-Kept,
}
use bouclier_bleu.Xtask.Vm.Goes.{IsBuilding, neutral-In, Goes, goes_on, kept-Goes, execute_cmd-Goes}
use bouclier_bleu.Xtask.Vm.Detached.{enforce_airgap-Goes}
use bouclier_bleu.Xtask.Vm.Keeps.Guest.{
  transfer_workspace-Kept, compile_workspace-Kept, provision_default_config-Kept,
  inject_kernel_parameters-Kept,
}

neutral-IsBuilding :
    (c : Command) (o : Option Output) (t : Trace)
    → is_neutral c ≡ true
    → IsBuilding t
    → IsBuilding ((c, o) ∷ t)
neutral-IsBuilding = neutral-In building

guest-At :
    (ph : Phase) (script : Line) (o : Option Output) (t : Trace)
    → At building ph t
    → At building ph ((guest script, o) ∷ t)
guest-At ph script o t (sound, at, in_phase) = ((inl at, sound), rw at refl, in_phase)

guest-IsBuilding :
    (script : Line) (o : Option Output) (t : Trace)
    → IsBuilding t
    → IsBuilding ((guest script, o) ∷ t)
guest-IsBuilding script o t h =
    let (sound, at, ph) = guest-At (phase t) script o t (h.0, h.1, refl) in (sound, at)

module _ (m : Machine) where
  launch_instance-Kept :
      (image_alias : Text) → Kept m IsBuilding neutral-IsBuilding (launch_instance m image_alias)
  unfolding launch_instance execute_cmd call
  launch_instance-Kept image_alias =
      and_then m IsBuilding neutral-IsBuilding (call m (launch image_alias)) _
        (λ s h. ((tt, h.0), refl)) λ o. checked-Kept m IsBuilding neutral-IsBuilding _ o

  provision-Kept :
      (image_alias : Text) → Kept m IsBuilding neutral-IsBuilding (provision m image_alias)
  unfolding provision
  provision-Kept image_alias =
      and_then m IsBuilding neutral-IsBuilding _ _
        (ensure_base_image-Kept m IsBuilding neutral-IsBuilding image_alias)
        λ u.
          and_then m IsBuilding neutral-IsBuilding _ _
            (call-Kept m IsBuilding neutral-IsBuilding delete refl)
            λ o.
              and_then m IsBuilding neutral-IsBuilding _ _ (launch_instance-Kept image_alias) λ v.
                and_then m IsBuilding neutral-IsBuilding _ _
                  (await_guest_agent-Kept m IsBuilding neutral-IsBuilding)
                  λ w.
                    and_then m IsBuilding neutral-IsBuilding _ _
                      (transfer_workspace-Kept m IsBuilding neutral-IsBuilding guest-IsBuilding)
                      λ x.
                        and_then m IsBuilding neutral-IsBuilding _ _
                          (provision_default_config-Kept m IsBuilding neutral-IsBuilding
                            guest-IsBuilding)
                          λ y.
                            compile_workspace-Kept m IsBuilding neutral-IsBuilding guest-IsBuilding

  -- The links were listed, and nothing was concluded yet.
  abbrev Listed : Option Output → Job m.State → Type 0
  Listed o s =
      IsSound s.calls × (stage s.calls ≡ building) × (phase s.calls ≡ after_links o severed)

  inspected_links-Leads :
      (o : Option Output)
      → Leads
          (Listed o)
          (inspected_links m o)
          (λ u s. At building verified s.calls)
          (λ s. IsSound s.calls)
  unfolding inspected_links shows_network
  inspected_links-Leads none s (sound, at, ph) = sound
  inspected_links-Leads (some o) s (sound, at, ph) = elim (Bool-cases (prints_eth0 o)) [
    | inl network ↦ rw network sound
    | inr isolated ↦
        let seen : phase s.calls ≡ verified = ph ∙ rw isolated refl in rw isolated (sound, at, seen)
  ]

  assert_no_network-Goes : Goes m (At building severed) (assert_no_network m) (At building verified)
  unfolding assert_no_network call
  assert_no_network-Goes =
      bind-Leads (λ s. At building severed s.calls) Listed (λ u s. At building verified s.calls)
        (λ s. IsSound s.calls) (call m ip_link) (inspected_links m)
        (λ s h. ((tt, h.0), h.1, ap (after_links (m.run none (argv ip_link) s.host).0) h.2))
        inspected_links-Leads

  -- A snapshot of a machine that was seen to have no network.
  create_snapshot-Goes : Goes m (At building verified) (create_snapshot m) (At stale verified)
  unfolding create_snapshot
  create_snapshot-Goes =
      let why : Line = lit "Failed to gracefully halt VM" ∷ [] in
      goes_on m (At building verified) (At building verified) (At stale verified)
        (execute_cmd m stop why) _
        (kept-Goes m (At building verified) (execute_cmd m stop why) (λ t h. h.0)
          (execute_cmd-Kept m (At building verified)
            (λ c o t n h. neutral-At c o t building verified n h) stop why refl))
        λ u.
          execute_cmd-Goes m (At building verified) (At stale verified) snapshot_create _
            (λ o t done h. ((h.2, h.0), refl, h.2)) λ o t h. (h.2, h.0)

  isolate-Goes : Goes m IsBuilding (isolate m) (At stale verified)
  unfolding isolate
  isolate-Goes =
      goes_on m IsBuilding (At building severed) (At stale verified) _ _ (enforce_airgap-Goes m)
        λ u.
          goes_on m (At building severed) (At building severed) (At stale verified) _ _
            (kept-Goes m (At building severed) _ (λ t h. h.0)
              (inject_kernel_parameters-Kept m (At building severed)
                (λ c o t n h. neutral-At c o t building severed n h) (guest-At severed)))
            λ v.
              goes_on m (At building severed) (At building verified) (At stale verified) _ _
                assert_no_network-Goes λ w. create_snapshot-Goes

  -- From a sound trace of a machine that is being built: where the set-up succeeds, `eth0` was
  -- taken off the profile, the machine was moved to it, a listing of its links printed no `eth0` after that, and
  -- the snapshot was taken then; and wherever it fails, no snapshot was taken without all that.
  pub setup_and_snapshot_vm-Goes :
      (image_alias : Text)
      → Goes m IsBuilding (setup_and_snapshot_vm m image_alias) (At stale verified)
  unfolding setup_and_snapshot_vm
  setup_and_snapshot_vm-Goes image_alias =
      goes_on m IsBuilding IsBuilding (At stale verified) (gets m m.now) _ (λ s h. h)
        λ from.
          goes_on m IsBuilding IsBuilding (At stale verified) _ _
            (kept-Goes m IsBuilding _ (λ t h. h.0) (provision-Kept image_alias))
            λ u.
              goes_on m IsBuilding (At stale verified) (At stale verified) _ _ isolate-Goes
                λ v s h. h
