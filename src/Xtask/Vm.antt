-- ===== src/Xtask/Vm.antt =====
-- xtask/src/vm.rs: the virtual machine, its image, its network and its snapshot. What the tasks print as
-- progress is left out.
pub mod Keeps
pub mod Goes
pub mod Detached
pub mod Isolated
pub mod Tested
use bouclier_bleu.Base.{
  ℕ, ◌-◌, String, Bool, true, false, Option, none, some, List, [], ◌∷◌, ◌++◌, Text, ok, codes, Line,
  lit, str, find, starts_with, contains_text, split_whitespace, if◌then◌else◌, ◌||◌,
}
use bouclier_bleu.Base.Utf8.{from_utf8_lossy}
use bouclier_bleu.Exec.{unless, pure, fail, ◌>>=◌, ◌>>◌}
use bouclier_bleu.Xtask.Machine.{
  Machine, Output, Entry, Command, Job, Failure, failed, panicked, exits, Task, join, image_info,
  image_import, sha256sum, alias_create, delete, launch, profile_show, profile_copy, device_remove,
  profile_assign, ip_link, tar, file_push, guest, restart, stop, stop_force, start, snapshot_create,
  snapshot_restore, build_image,
}
use bouclier_bleu.Xtask.Scripts.{
  inject_cmd, enable_lsm_script, mask_services, extract_workspace, install_config,
}
use bouclier_bleu.Xtask.Utils.{succeeds, call, execute_cmd, incus_exec, sleep, await_guest_agent}

-- The entries that could be read.
abbrev pub readable : List (Option Entry) → List Entry
readable [] = []
readable (none ∷ rest) = readable rest
readable (some entry ∷ rest) = entry ∷ readable rest

abbrev or_empty : Option (List (Option Entry)) → List (Option Entry)
or_empty none = []
or_empty (some entries) = entries

-- `split_whitespace().next().unwrap_or("")`
abbrev pub first_word : List Text → Text
first_word [] = []
first_word (w ∷ rest) = w

-- The links that the guest lists: `eth0` among them, whether the listing succeeded or not.
unfoldable pub shows_network : Output → Bool
unfolding from_utf8_lossy contains_text
shows_network o = contains_text (from_utf8_lossy o.stdout) (codes "eth0")

module _ (m : Machine) where
  -- What the host has at a moment.
  abbrev pub gets : {A : Type 0} → (m.State → A) → Task m A
  gets f s = (ok (f s.host), s)

  abbrev pub tests_dir : Text
  tests_dir = join m m.root "tests"

  -- The image's file: `find` over the directory of the tests.
  unfoldable pub find_image : Text → m.State → Option Entry
  unfolding starts_with
  find_image image_alias host =
      find (λ entry. starts_with entry.file_name (image_alias ++ codes ".tar"))
        (readable (or_empty (m.read_dir tests_dir host)))

  -- The name is added to the fingerprint that was computed.
  unfoldable pub aliased : Text → Option Output → Task m (Unit {0})
  unfolding from_utf8_lossy split_whitespace
  aliased image_alias none = fail (failed [])
  aliased image_alias (some o) =
      execute_cmd m
        (alias_create image_alias (first_word (split_whitespace (from_utf8_lossy o.stdout))))
        (lit "Failed to bypass alias lock" ∷ [])

  -- The image is there under another name.
  unfoldable pub link_fingerprint : Text → Text → Task m (Unit {0})
  link_fingerprint image_alias img = do
    sha_out ← call m (sha256sum img)
    aliased image_alias sha_out

  unfoldable pub imported : Text → Text → Option Output → Task m (Unit {0})
  unfolding from_utf8_lossy contains_text
  imported image_alias img none = fail (failed (lit "Incus import failed" ∷ []))
  imported image_alias img (some o) =
      let stderr = from_utf8_lossy o.stderr in
      if o.is_success
      then pure tt
      else if contains_text stderr (codes "already exists")
      then link_fingerprint image_alias img
      else fail (failed (lit "Image synchronization error:\n" ∷ str stderr ∷ []))

  unfoldable pub import_image : Text → Option Entry → Task m (Unit {0})
  import_image image_alias none = fail (
      failed (
        lit "Pre-compiled test image '"
        ∷ str image_alias
        ∷ lit "' missing. Run `scripts/build_image.sh -out "
        ∷ str image_alias
        ∷ lit "`."
        ∷ []))
  import_image image_alias (some img) = do
    import_out ← call m (image_import img.path image_alias)
    imported image_alias img.path import_out

  unfoldable pub ensure_base_image : Text → Task m (Unit {0})
  ensure_base_image image_alias = do
    info ← call m (image_info image_alias)
    unless (succeeds info) (gets (find_image image_alias) >>= import_image image_alias)

  unfoldable pub removed : Option Output → Task m (Unit {0})
  unfolding from_utf8_lossy contains_text
  removed none = fail (failed (lit "Failed to execute incus profile device remove" ∷ []))
  removed (some o) =
      let stderr = from_utf8_lossy o.stderr in
      if o.is_success
      then pure tt
      else if contains_text stderr (codes "doesn't exist")
      then pure tt
      else fail (failed (lit "Failed to remove eth0 from profile:\n" ∷ str stderr ∷ []))

  unfoldable pub ensure_no_network_profile : Task m (Unit {0})
  ensure_no_network_profile = do
    shown ← call m profile_show
    unless (succeeds shown) (execute_cmd m profile_copy (lit "Failed to copy default profile" ∷ []))
    output ← call m device_remove
    removed output

  unfoldable pub inspected_links : Option Output → Task m (Unit {0})
  inspected_links none = fail (failed (lit "Failed to inspect VM network" ∷ []))
  inspected_links (some o) =
      if shows_network o
      then fail (failed (lit "Air-gap violation: eth0 interface detected" ∷ []))
      else pure tt

  unfoldable pub assert_no_network : Task m (Unit {0})
  assert_no_network = do output ← call m ip_link; inspected_links output

  unfoldable pub enforce_airgap : Task m (Unit {0})
  enforce_airgap = do
    ensure_no_network_profile
    execute_cmd m profile_assign (lit "Failed to assign air-gapped profile" ∷ [])

  unfoldable pub launch_instance : Text → Task m (Unit {0})
  launch_instance image_alias =
      execute_cmd m (launch image_alias) (lit "Guest initialization failed" ∷ [])

  -- `let _ = fs::remove_file(path)`
  unfoldable pub discard_file : Text → Task m (Unit {0})
  discard_file path s = (ok tt, record s { host = (m.remove_file path s.host).1 })

  abbrev pub tarball_path : Text
  tarball_path = join m m.temp_dir "bb-src-bundle.tar.gz"

  unfoldable pub transfer_workspace : Task m (Unit {0})
  transfer_workspace = do
    execute_cmd m (tar tarball_path) (lit "Failed to archive host workspace" ∷ [])
    execute_cmd m (file_push tarball_path) (lit "Host-to-Guest file injection failed" ∷ [])
    discard_file tarball_path
    execute_cmd m (guest extract_workspace) (lit "Guest extraction phase failed" ∷ [])

  unfoldable pub compile_workspace : Task m (Unit {0})
  compile_workspace = do
    incus_exec m inject_cmd
    incus_exec m (lit "cargo clean -q && cargo build -q --release --workspace --all-targets" ∷ [])
    incus_exec m (lit "sync" ∷ [])
    sleep m 3

  -- The result of a task that is thrown away.
  abbrev pub ignored : Task m (Unit {0}) → Task m (Unit {0})
  ignored task s = (ok tt, (task s).1)

  -- The status of the script that writes the boot parameters: `expect`, and then the exit.
  unfoldable pub boot_configured : Option Output → Task m (Unit {0})
  boot_configured none = fail panicked
  boot_configured (some o) = if o.is_success then pure tt else fail (exits 1)

  unfoldable pub inject_kernel_parameters : Task m (Unit {0})
  inject_kernel_parameters = do
    status ← call m (guest enable_lsm_script)
    boot_configured status
    ignored (incus_exec m mask_services)
    execute_cmd m restart (lit "VM reboot procedure failed" ∷ [])
    await_guest_agent m

  unfoldable pub create_snapshot : Task m (Unit {0})
  create_snapshot = do
    execute_cmd m stop (lit "Failed to gracefully halt VM" ∷ [])
    execute_cmd m snapshot_create (lit "Snapshot generation aborted" ∷ [])

  unfoldable pub provision_default_config : Task m (Unit {0})
  provision_default_config = incus_exec m install_config

  -- The network is cut and the machine made ready, then the snapshot is taken.
  unfoldable pub isolate : Task m (Unit {0})
  isolate = do enforce_airgap; inject_kernel_parameters; assert_no_network; create_snapshot

  unfoldable pub provision : Text → Task m (Unit {0})
  provision image_alias = do
    ensure_base_image image_alias
    call m delete
    launch_instance image_alias
    await_guest_agent m
    transfer_workspace
    provision_default_config
    compile_workspace

  -- `start.elapsed()`
  abbrev pub elapsed : ℕ → Task m ℕ
  elapsed from = gets (λ host. m.now host - from)

  unfoldable pub setup_and_snapshot_vm : Text → Task m ℕ
  setup_and_snapshot_vm image_alias = do
    from ← gets m.now
    provision image_alias
    isolate
    elapsed from

  unfoldable pub restore : Task m (Unit {0})
  restore = do
    call m stop_force
    execute_cmd m snapshot_restore (lit "VM state reversion failed" ∷ [])
    execute_cmd m start (lit "Failed to resurrect VM from snapshot" ∷ [])
    await_guest_agent m

  unfoldable pub restore_vm_snapshot : Task m ℕ
  restore_vm_snapshot = do from ← gets m.now; restore; elapsed from

  unfoldable pub has_image : Text → m.State → Bool
  has_image image_alias host =
      m.exists (tests_dir ++ codes "/" ++ image_alias ++ codes ".tar.gz") host
      || m.exists (tests_dir ++ codes "/" ++ image_alias ++ codes ".tar.xz") host

  unfoldable pub prepare_test_image : Text → Task m (Unit {0})
  prepare_test_image image_alias = do
    there ← gets (has_image image_alias)
    unless there (
        execute_cmd m (build_image (join m m.root "scripts/build_image.sh") image_alias)
          (lit "Upstream base-image compilation script failed" ∷ []))
