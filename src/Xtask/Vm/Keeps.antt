-- ===== src/Xtask/Vm/Keeps.antt =====
-- The tasks that neither touch the network of the machine nor put it back keep its stage and phase.
pub mod Guest
use bouclier_bleu.Base.{
  ℕ, zero, suc, ◌≡◌, refl, sym, subst, ◌⊎◌, inl, inr, Bool, true, false, Bool-cases, Option, none,
  some, List, [], ◌∷◌, Text, Line, lit, Outcome, ok, err, if◌then◌else◌, contains_text, codes,
}
use bouclier_bleu.Base.Utf8.{from_utf8_lossy}
use bouclier_bleu.Exec.{◌>>=◌, ◌>>◌, unless, continue}
use bouclier_bleu.Exec.Ensures.{Keeps, bind-Keeps, unless-Keeps}
use bouclier_bleu.Xtask.Machine.{
  Machine, Output, Entry, Command, Call, Job, Failure, Task, image_info, image_import, sha256sum,
  alias_create, delete, profile_show, profile_copy, device_remove, tar, file_push, echo_ready,
  cat_benchmark, restart, stop, stop_force, build_image, launch, profile_assign, ip_link, guest,
  start, snapshot_create, snapshot_restore,
}
use bouclier_bleu.Xtask.Scripts.{
  inject_cmd, enable_lsm_script, mask_services, extract_workspace, install_config,
}
use bouclier_bleu.Xtask.Utils.{
  succeeds, call, checked, execute_cmd, guest_checked, full_cmd, incus_exec, sleep, poll_agent,
  await_guest_agent,
}
use bouclier_bleu.Xtask.Vm.{
  gets, find_image, aliased, link_fingerprint, imported, import_image, ensure_base_image, removed,
  ensure_no_network_profile, discard_file, transfer_workspace, compile_workspace, ignored,
  boot_configured, inject_kernel_parameters, provision_default_config, tarball_path,
}
use bouclier_bleu.Xtask.Trace.{
  Trace, Phase, Stage, building, IsSound, At, stage, phase, is_neutral, Allowed,
}

pub neutral-At :
    (c : Command) (o : Option Output) (t : Trace) (st : Stage) (ph : Phase)
    → is_neutral c ≡ true
    → At st ph t
    → At st ph ((c, o) ∷ t)
neutral-At (image_info a) o t st ph n h = ((tt, h.0), h.1, h.2)
neutral-At (image_import a b) o t st ph n h = ((tt, h.0), h.1, h.2)
neutral-At (sha256sum a) o t st ph n h = ((tt, h.0), h.1, h.2)
neutral-At (alias_create a b) o t st ph n h = ((tt, h.0), h.1, h.2)
neutral-At delete o t st ph n h = ((tt, h.0), h.1, h.2)
neutral-At profile_show o t st ph n h = ((tt, h.0), h.1, h.2)
neutral-At profile_copy o t st ph n h = cc n
neutral-At device_remove o t st ph n h = cc n
neutral-At (tar a) o t st ph n h = ((tt, h.0), h.1, h.2)
neutral-At (file_push a) o t st ph n h = ((tt, h.0), h.1, h.2)
neutral-At echo_ready o t st ph n h = ((tt, h.0), h.1, h.2)
neutral-At cat_benchmark o t st ph n h = ((tt, h.0), h.1, h.2)
neutral-At restart o t st ph n h = ((tt, h.0), h.1, h.2)
neutral-At stop o t st ph n h = ((tt, h.0), h.1, h.2)
neutral-At stop_force o t st ph n h = ((tt, h.0), h.1, h.2)
neutral-At (build_image a b) o t st ph n h = ((tt, h.0), h.1, h.2)
neutral-At (launch a) o t st ph n h = cc n
neutral-At profile_assign o t st ph n h = cc n
neutral-At ip_link o t st ph n h = cc n
neutral-At (guest script) o t st ph n h = cc n
neutral-At start o t st ph n h = cc n
neutral-At snapshot_create o t st ph n h = cc n
neutral-At snapshot_restore o t st ph n h = cc n

module _ (m : Machine) where
  checked-same : (why : Line) (o : Option Output) (s : Job m.State) → (checked m why o s).1 ≡ s
  unfolding checked
  checked-same why none s = refl
  checked-same why (some o) s = elim (Bool-cases o.is_success) [
    | inl done ↦ rw done refl
    | inr refused ↦ rw refused refl
  ]

  pub guest_checked-same : (o : Option Output) (s : Job m.State) → (guest_checked m o s).1 ≡ s
  unfolding guest_checked
  guest_checked-same none s = refl
  guest_checked-same (some o) s = elim (Bool-cases o.is_success) [
    | inl done ↦ rw done refl
    | inr refused ↦ rw refused refl
  ]

  module _ (P : Trace → Type 0)
      (kept : (c : Command) (o : Option Output) (t : Trace)
        → is_neutral c ≡ true
        → P t
        → P ((c, o) ∷ t)) where
    -- A task after which the trace still is one of `P`.
    abbrev pub Kept : {A : Type 0} → Task m A → Type 0
    Kept task = Keeps (λ s. P s.calls) task

    pub and_then :
        {A B : Type 0} (task : Task m A) (next : A → Task m B)
        → Kept task
        → ((a : A) → Kept (next a))
        → Kept (task >>= next)
    and_then task next first later = bind-Keeps (λ s. P s.calls) task next first later

    pub unless-Kept : (done : Bool) (task : Task m (Unit {0})) → Kept task → Kept (unless done task)
    unless-Kept done task h = unless-Keeps (λ s. P s.calls) done task h

    pub call-Kept : (c : Command) → is_neutral c ≡ true → Kept (call m c)
    unfolding call
    call-Kept c n s h = kept c _ s.calls n h

    pub checked-Kept : (why : Line) (o : Option Output) → Kept (checked m why o)
    checked-Kept why o s h = rw (checked-same why o s) h

    pub execute_cmd-Kept :
        (c : Command) (why : Line) → is_neutral c ≡ true → Kept (execute_cmd m c why)
    unfolding execute_cmd
    execute_cmd-Kept c why n = and_then _ _ (call-Kept c n) λ o. checked-Kept why o

    pub sleep-Kept : (n : ℕ) → Kept (sleep m n)
    unfolding sleep
    sleep-Kept n s h = h

    poll_agent-Kept : (n : ℕ) → Kept (poll_agent m n)
    unfolding poll_agent
    poll_agent-Kept zero = λ s h. h
    poll_agent-Kept (suc n) = and_then _ _ (call-Kept echo_ready refl) λ o.
        unless-Kept (succeeds o) _
          (and_then (sleep m 2) (λ u. poll_agent m n) (sleep-Kept 2) λ u. poll_agent-Kept n)

    pub await_guest_agent-Kept : Kept (await_guest_agent m)
    unfolding await_guest_agent
    await_guest_agent-Kept = poll_agent-Kept 120

    aliased-Kept : (image_alias : Text) (o : Option Output) → Kept (aliased m image_alias o)
    unfolding aliased
    aliased-Kept image_alias none = λ s h. h
    aliased-Kept image_alias (some o) = execute_cmd-Kept (alias_create image_alias _) _ refl

    link_fingerprint-Kept : (image_alias img : Text) → Kept (link_fingerprint m image_alias img)
    unfolding link_fingerprint
    link_fingerprint-Kept image_alias img =
        and_then _ _ (call-Kept (sha256sum img) refl) λ o. aliased-Kept image_alias o

    imported-Kept :
        (image_alias img : Text) (o : Option Output) → Kept (imported m image_alias img o)
    unfolding imported
    imported-Kept image_alias img none s h = h
    imported-Kept image_alias img (some o) s h = elim (Bool-cases o.is_success) [
      | inl done ↦ rw done h
      | inr refused ↦
          let there = contains_text (from_utf8_lossy o.stderr) (codes "already exists") in
          elim (Bool-cases there) [
            | inl linked ↦ rw (refused, linked) (link_fingerprint-Kept image_alias img s h)
            | inr other ↦ rw (refused, other) h
          ]
    ]

    import_image-Kept :
        (image_alias : Text) (img : Option Entry) → Kept (import_image m image_alias img)
    unfolding import_image
    import_image-Kept image_alias none = λ s h. h
    import_image-Kept image_alias (some img) =
        and_then _ _ (call-Kept (image_import img.path image_alias) refl)
          λ o. imported-Kept image_alias img.path o

    pub ensure_base_image-Kept : (image_alias : Text) → Kept (ensure_base_image m image_alias)
    unfolding ensure_base_image
    ensure_base_image-Kept image_alias = and_then _ _ (call-Kept (image_info image_alias) refl) λ o.
        unless-Kept (succeeds o) _ (
          and_then (gets m (find_image m image_alias)) (import_image m image_alias) (λ s h. h)
            λ img. import_image-Kept image_alias img)

    removed-same : (o : Option Output) (s : Job m.State) → (removed m o s).1 ≡ s
    unfolding removed
    removed-same none s = refl
    removed-same (some o) s = elim (Bool-cases o.is_success) [
      | inl done ↦ rw done refl
      | inr refused ↦
          let missing = contains_text (from_utf8_lossy o.stderr) (codes "doesn't exist") in
          elim (Bool-cases missing) [
            | inl gone ↦ rw (refused, gone) refl
            | inr other ↦ rw (refused, other) refl
          ]
    ]

    removed-Kept : (o : Option Output) → Kept (removed m o)
    removed-Kept o s h = rw (removed-same o s) h

    -- Copying the profile and taking the device off it keep `P` too.
    module _ (copied : (o : Option Output) (t : Trace) → P t → P ((profile_copy, o) ∷ t))
        (taken : (o : Option Output) (t : Trace) → P t → P ((device_remove, o) ∷ t)) where
      copy-Kept : (why : Line) → Kept (execute_cmd m profile_copy why)
      unfolding execute_cmd call
      copy-Kept why =
          and_then (call m profile_copy) _ (λ s h. copied _ s.calls h) λ o. checked-Kept why o

      pub copied_profile-Kept :
          (shown : Option Output) (why : Line)
          → Kept (unless (succeeds shown) (execute_cmd m profile_copy why))
      copied_profile-Kept shown why = unless-Kept (succeeds shown) _ (copy-Kept why)

      pub ensure_no_network_profile-Kept : Kept (ensure_no_network_profile m)
      unfolding ensure_no_network_profile call
      ensure_no_network_profile-Kept = and_then _ _ (call-Kept profile_show refl) λ shown.
          and_then _ _ (copied_profile-Kept shown _)
            λ u. and_then (call m device_remove) _ (λ s h. taken _ s.calls h) λ o. removed-Kept o
