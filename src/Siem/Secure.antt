-- ===== src/Siem/Secure.antt =====
-- `ensure_secure_directory` lets only a secure directory through.
use Prim.Native.Nat.{bit_and}
use bouclier_bleu.Base.{
  ◌≡◌, refl, ◌∙◌, ℕ, ◌-◌, ◌%◌, arith, Bool, true, false, not, Option, none, some, Text, inl, inr,
  Bool-cases, if◌then◌else◌,
}
use bouclier_bleu.Host.{FileSystem, Metadata}
use bouclier_bleu.Siem.{is_insecure, wipe, rebuild, validate, ensure_secure_directory}

module _ (fs : FileSystem) where
  -- What a file system documents of a removal that succeeds: nothing has the name any more.
  abbrev pub IsRemoving : Type 0
  IsRemoving =
      (dir : Text) (s : fs.State)
      → (((fs.remove_file dir s).0 ≡ true) → fs.metadata dir (fs.remove_file dir s).1 ≡ none)
        × (((fs.remove_dir_all dir s).0 ≡ true)
            → fs.metadata dir (fs.remove_dir_all dir s).1 ≡ none)

  -- And of a creation by root under a umask that succeeds where nothing had the name: a directory of
  -- root's with the mode that was asked for, less the permissions that the umask takes away.
  abbrev pub IsCreating : ℕ → Type 0
  IsCreating umask =
      (dir : Text) (s : fs.State)
      → fs.metadata dir s ≡ none
      → (fs.create_dir 0o700 dir s).0 ≡ true
      → (meta : Metadata) × (fs.metadata dir (fs.create_dir 0o700 dir s).1 ≡ some meta)
        × (meta.is_dir ≡ true)
        × (meta.uid ≡ 0)
        × (meta.mode % 0o1000 ≡ bit_and 0o700 (0o777 - umask))

  -- The name is a directory's that belongs to root, with all permissions for the owner and none else.
  abbrev pub IsSecure : Text → fs.State → Type 0
  IsSecure dir s =
      (meta : Metadata) × (fs.metadata dir s ≡ some meta)
      × (meta.is_dir ≡ true)
      × (meta.uid ≡ 0)
      × (meta.mode % 0o1000 ≡ 0o700)

  passed-IsSecure :
      (dir : Text) (s : fs.State) (meta : Metadata)
      → fs.metadata dir s ≡ some meta
      → is_insecure meta ≡ false
      → IsSecure dir s
  unfolding is_insecure
  passed-IsSecure dir s meta found passed = (meta, found, ground arith, ground arith, ground arith)

  module _ (umask : ℕ) (owner_keeps : bit_and 0o700 (0o777 - umask) ≡ 0o700) (removing : IsRemoving)
      (creating : IsCreating umask) where
    -- Either way of removing.
    removed-none :
        (dir : Text) (s : fs.State) (file : Bool)
        → (if file then fs.remove_file dir s else fs.remove_dir_all dir s).0 ≡ true
        → fs.metadata dir (if file then fs.remove_file dir s else fs.remove_dir_all dir s).1 ≡ none
    removed-none dir s true h = (removing dir s).0 h
    removed-none dir s false h = (removing dir s).1 h

    rebuild-IsSecure :
        (dir : Text) (meta : Metadata) (s : fs.State)
        → (rebuild fs dir meta s).0 ≡ true
        → IsSecure dir (rebuild fs dir meta s).2
    unfolding rebuild
    rebuild-IsSecure dir meta s h = elim (Bool-cases (wipe fs dir meta s).0) [
      | inr failed ↦ cc (rw failed at h)
      | inl wiped ↦
          let gone : fs.metadata dir (wipe fs dir meta s).1 ≡ none =
            unfold wipe in removed-none dir s (not meta.is_dir) wiped in
          elim (Bool-cases (fs.create_dir 0o700 dir (wipe fs dir meta s).1).0) [
            | inr failed ↦ cc (rw (wiped, failed) at h)
            | inl made ↦
                let (new, found, dir', own, mode) = creating dir (wipe fs dir meta s).1 gone made in
                rw (wiped, made) (new, found, dir', own, mode ∙ owner_keeps)
          ]
    ]

    validate-IsSecure :
        (dir : Text) (o : Option Metadata) (s : fs.State)
        → fs.metadata dir s ≡ o
        → (validate fs dir o s).0 ≡ true
        → IsSecure dir (validate fs dir o s).2
    unfolding validate
    validate-IsSecure dir none s found h = cc h
    validate-IsSecure dir (some meta) s found h = elim (Bool-cases (is_insecure meta)) [
      | inr secure ↦ rw secure (passed-IsSecure dir s meta found secure)
      | inl insecure ↦ rw insecure (rebuild-IsSecure dir meta s (rw insecure at h))
    ]

    -- If the file system removes and creates as documented, under a umask that leaves the owner's
    -- permissions, then after a set-up that succeeds the log directory is a directory whose owner is 0
    -- and whose permissions are 0o700, whatever stood there before.
    pub ensure-IsSecure :
        (dir : Text) (s : fs.State)
        → (ensure_secure_directory fs dir s).0 ≡ true
        → IsSecure dir (ensure_secure_directory fs dir s).2
    unfolding ensure_secure_directory
    ensure-IsSecure dir s h =
        let s₁ = (fs.create_dir 0o700 dir s).1 in
        validate-IsSecure dir (fs.metadata dir s₁) s₁ refl h
