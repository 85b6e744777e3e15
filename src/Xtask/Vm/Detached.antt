-- ===== src/Xtask/Vm/Detached.antt =====
-- The profile without a network, and the machine moved to it.
use bouclier_bleu.Base.{
  ◌≡◌, refl, inl, inr, true, Bool-cases, Option, none, some, ◌∷◌, codes, contains_text, Line, lit,
  [],
}
use bouclier_bleu.Base.Utf8.{from_utf8_lossy}
use bouclier_bleu.Exec.{unless}
use bouclier_bleu.Exec.Ensures.{Leads, bind-Leads}
use bouclier_bleu.Xtask.Machine.{
  Machine, Output, Job, profile_show, profile_copy, device_remove, profile_assign,
}
use bouclier_bleu.Xtask.Utils.{succeeds, call, execute_cmd}
use bouclier_bleu.Xtask.Vm.{removed, ensure_no_network_profile, enforce_airgap}
use bouclier_bleu.Xtask.Trace.{building, bare, severed, has_removed, IsSound, At, phase}
use bouclier_bleu.Xtask.Vm.Keeps.{call-Kept, copied_profile-Kept}
use bouclier_bleu.Xtask.Vm.Goes.{IsBuilding, neutral-In, Goes, goes_on, kept-Goes, execute_cmd-Goes}

module _ (m : Machine) where
  -- The device was taken off the profile, and nothing was concluded yet.
  abbrev Taken : Option Output → Job m.State → Type 0
  Taken o s = IsBuilding s.calls × (has_removed o ≡ true → phase s.calls ≡ bare)

  removed-Leads :
      (o : Option Output)
      → Leads (Taken o) (removed m o) (λ u s. At building bare s.calls) (λ s. IsSound s.calls)
  unfolding removed
  removed-Leads none s (h, taken) = h.0
  removed-Leads (some o) s (h, taken) = elim (Bool-cases o.is_success) [
    | inl done ↦ rw done (h.0, h.1, taken (rw done refl))
    | inr refused ↦
        let missing = contains_text (from_utf8_lossy o.stderr) (codes "doesn't exist") in
        elim (Bool-cases missing) [
          | inl gone ↦ rw (refused, gone) (h.0, h.1, taken (rw (refused, gone) refl))
          | inr other ↦ rw (refused, other) h.0
        ]
  ]

  ensure_no_network_profile-Goes :
      Goes m IsBuilding (ensure_no_network_profile m) (At building bare)
  unfolding ensure_no_network_profile call
  ensure_no_network_profile-Goes =
      goes_on m IsBuilding IsBuilding (At building bare) (call m profile_show) _
        (kept-Goes m IsBuilding (call m profile_show) (λ t h. h.0)
          (call-Kept m IsBuilding (neutral-In building) profile_show refl))
        λ shown.
          let why : Line = lit "Failed to copy default profile" ∷ [] in
          let copy = unless (succeeds shown) (execute_cmd m profile_copy why) in
          goes_on m IsBuilding IsBuilding (At building bare) copy _
            (kept-Goes m IsBuilding copy (λ t h. h.0)
              (copied_profile-Kept m IsBuilding (neutral-In building) (λ o t h. ((tt, h.0), h.1))
                (λ o t h. ((tt, h.0), h.1)) shown why))
            λ u.
              bind-Leads (λ s. IsBuilding s.calls) Taken (λ v s. At building bare s.calls)
                (λ s. IsSound s.calls) (call m device_remove) (removed m)
                (λ s h. (((tt, h.0), h.1), λ gone. rw gone refl)) removed-Leads

  -- The network is cut.
  pub enforce_airgap-Goes : Goes m IsBuilding (enforce_airgap m) (At building severed)
  unfolding enforce_airgap
  enforce_airgap-Goes =
      goes_on m IsBuilding (At building bare) (At building severed) _ _
        ensure_no_network_profile-Goes
        λ u.
          execute_cmd-Goes m (At building bare) (At building severed) profile_assign _
            (λ o t done h. ((tt, h.0), h.1, rw (done, h.2) refl)) λ o t h. (tt, h.0)
