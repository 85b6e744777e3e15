-- ===== src/Ipc/Setup/Secure.antt =====
-- What a set-up that succeeds promises of the directory.
use Prim.Native.Nat.{bit_and}
use bouclier_bleu.Base.{
  ◌≡◌, refl, ◌∙◌, ℕ, ◌-◌, ◌%◌, arith, Bool, true, false, ◌||◌, Option, none, some, inl, inr,
  Bool-cases, Line, ok,
}
use bouclier_bleu.Exec.{◌>>=◌}
use bouclier_bleu.Exec.Ensures.{Ensures, Ensures-continue, Holds-ok}
use bouclier_bleu.Host.{Metadata}
use bouclier_bleu.Ipc.Setup.{
  SocketHost, Setting, socket_dir, is_compromised, attempt, warn, wipe, rebuild, remediate,
  inspected, inspect, setup_secure_dir,
}

module _ (host : SocketHost) where
  open host use {State}

  -- What a file system documents of a removal that succeeds: nothing has the name any more.
  abbrev pub IsRemoving : Type 0
  IsRemoving =
      (s : State)
      → (((host.remove_file socket_dir s).0 ≡ true)
          → host.symlink_metadata socket_dir (host.remove_file socket_dir s).1 ≡ none)
        × (((host.remove_dir_all socket_dir s).0 ≡ true)
            → host.symlink_metadata socket_dir (host.remove_dir_all socket_dir s).1 ≡ none)

  -- And of a creation by root under a umask that succeeds: what has the name is a directory or a link to
  -- one; and where nothing had the name, it is root's directory with the mode that was asked for, less
  -- the permissions that the umask takes away.
  abbrev pub IsCreating : ℕ → Type 0
  IsCreating umask =
      (s : State)
      → (host.create_dir 0o700 socket_dir s).0 ≡ true
      → ((meta : Metadata)
          → host.symlink_metadata socket_dir (host.create_dir 0o700 socket_dir s).1 ≡ some meta
          → meta.is_symlink ≡ false
          → meta.is_dir ≡ true)
        × (host.symlink_metadata socket_dir s ≡ none
            → (meta : Metadata) × (host.symlink_metadata socket_dir
                  (host.create_dir 0o700 socket_dir s).1
                ≡ some meta)
              × (meta.is_symlink ≡ false)
              × (meta.uid ≡ 0)
              × (meta.mode % 0o1000 ≡ bit_and 0o700 (0o777 - umask)))

  -- The name is a directory's, and no link's, that belongs to root, with all permissions for the owner
  -- and none else.
  abbrev pub IsSecure : State → Type 0
  IsSecure s =
      (meta : Metadata) × (host.symlink_metadata socket_dir s ≡ some meta)
      × (meta.is_symlink ≡ false)
      × (meta.is_dir ≡ true)
      × (meta.uid ≡ 0)
      × (meta.mode % 0o1000 ≡ 0o700)

  -- What has the name is a directory, or a link.
  abbrev IsMade : State → Type 0
  IsMade s =
      (meta : Metadata)
      → host.symlink_metadata socket_dir s ≡ some meta
      → meta.is_symlink ≡ false
      → meta.is_dir ≡ true

  passed-IsSecure :
      (s : State) (meta : Metadata)
      → host.symlink_metadata socket_dir s ≡ some meta
      → is_compromised meta ≡ false
      → IsMade s
      → IsSecure s
  passed-IsSecure s meta found passed made =
      let plain : meta.is_symlink ≡ false = ground arith in
      (meta, found, plain, made meta found plain, ground arith, ground arith)

  -- An operation that reports success has done what it documents.
  attempt-Ensures :
      (P : State → Type 0) (operation : State → Bool × State) (why : Line) (s : Setting State)
      → ((operation s.files).0 ≡ true → P (operation s.files).1)
      → Ensures (λ u s'. P s'.files) (attempt host operation why s)
  unfolding attempt
  attempt-Ensures P operation why s documented = elim (Bool-cases (operation s.files).0) [
    | inl done ↦ rw done (documented done)
    | inr failed ↦ rw failed tt
  ]

  module _ (umask : ℕ) (owner_keeps : bit_and 0o700 (0o777 - umask) ≡ 0o700) (removing : IsRemoving)
      (creating : IsCreating umask) where
    created-IsSecure :
        (s : State)
        → host.symlink_metadata socket_dir s ≡ none
        → (host.create_dir 0o700 socket_dir s).0 ≡ true
        → IsSecure (host.create_dir 0o700 socket_dir s).1
    created-IsSecure s gone done =
        let (makes, fresh_entry) = creating s done in
        let (meta, found, plain, own, mode) = fresh_entry gone in
        (meta, found, plain, makes meta found plain, own, mode ∙ owner_keeps)

    IsGone : State → Type 0
    IsGone s = host.symlink_metadata socket_dir s ≡ none

    wipe-Ensures :
        (meta : Metadata) (s : Setting State) → Ensures (λ u s'. IsGone s'.files) (wipe host meta s)
    unfolding wipe IsGone
    wipe-Ensures meta s = elim (Bool-cases (meta.is_symlink || meta.is_file)) [
      | inl link ↦ rw link (attempt-Ensures IsGone _ _ s (removing s.files).0)
      | inr other ↦ rw other (attempt-Ensures IsGone _ _ s (removing s.files).1)
    ]

    rebuild-Ensures :
        (s : Setting State) → IsGone s.files → Ensures (λ u s'. IsSecure s'.files) (rebuild host s)
    unfolding rebuild warn ◌>>=◌ IsGone
    rebuild-Ensures s gone =
        Ensures-continue (λ u s'. IsSecure s'.files) (λ u s'. IsSecure s'.files) (λ _. warn host _)
          _ (attempt-Ensures IsSecure _ _ s (created-IsSecure s.files gone)) λ u s₁ secure. secure

    remediate-Ensures :
        (meta : Metadata) (s : Setting State)
        → Ensures (λ u s'. IsSecure s'.files) (remediate host meta s)
    unfolding remediate warn ◌>>=◌
    remediate-Ensures meta s =
        Ensures-continue (λ u s'. IsGone s'.files) (λ u s'. IsSecure s'.files) (λ _. rebuild host) _
          (wipe-Ensures meta _) λ u s₁ gone. rebuild-Ensures s₁ gone

    inspected-Ensures :
        (o : Option Metadata) (s : Setting State)
        → host.symlink_metadata socket_dir s.files ≡ o
        → IsMade s.files
        → Ensures (λ u s'. IsSecure s'.files) (inspected host o s)
    unfolding inspected
    inspected-Ensures none s found made = tt
    inspected-Ensures (some meta) s found made = elim (Bool-cases (is_compromised meta)) [
      | inl compromised ↦ rw compromised (remediate-Ensures meta s)
      | inr sound ↦ rw sound (passed-IsSecure s.files meta found sound made)
    ]

    -- If the file system removes and creates as documented, under the umask of the process, and that
    -- leaves the owner's permissions, then after a set-up that succeeds the directory of the control
    -- socket is a directory and no link, its owner is 0 and its permissions are 0o700, whatever stood
    -- there before.
    pub setup_secure_dir-IsSecure :
        (s : Setting State)
        → s.umask ≡ umask
        → (setup_secure_dir host s).0 ≡ ok tt
        → IsSecure (setup_secure_dir host s).1.files
    unfolding setup_secure_dir inspect ◌>>=◌
    setup_secure_dir-IsSecure s current h =
        Holds-ok (λ u s'. IsSecure s'.files) (λ s'. Unit {0}) (setup_secure_dir host s) tt
          (Ensures-continue (λ u s'. IsMade s'.files) (λ u s'. IsSecure s'.files)
            (λ _. inspect host) _ (attempt-Ensures IsMade _ _ s (λ done. (creating s.files done).0))
            λ u s₁ t. inspected-Ensures (host.symlink_metadata socket_dir s₁.files) s₁ refl t)
          h
