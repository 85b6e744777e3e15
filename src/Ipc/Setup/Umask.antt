-- ===== src/Ipc/Setup/Umask.antt =====
-- The umask of the process after the socket's set-up.
use bouclier_bleu.Base.{
  ℕ, ◌≡◌, refl, ◌⊎◌, inl, inr, Bool, false, ◌||◌, Bool-cases, Option, none, some, Line, Outcome, ok,
  err, arith,
}
use bouclier_bleu.Exec.{◌>>=◌}
use bouclier_bleu.Exec.Ensures.{continue-keeps}
use bouclier_bleu.Host.{Metadata}
use bouclier_bleu.Ipc.Setup.{
  SocketHost, Setting, socket_dir, is_compromised, attempt, warn, wipe, rebuild, remediate,
  inspected, inspect, setup_secure_dir, socket_path, is_foreign, bind_error, foreign_error,
  tight_umask, validate_socket, bind_socket,
}

module _ (host : SocketHost) where
  open host use {State}

  attempt-umask :
      (u : ℕ) (operation : State → Bool × State) (why : Line) (s : Setting State)
      → s.umask ≡ u
      → (attempt host operation why s).1.umask ≡ u
  unfolding attempt
  attempt-umask u operation why s h = elim (Bool-cases (operation s.files).0) [
    | inl done ↦ rw done h
    | inr refused ↦ rw refused h
  ]

  wipe-umask :
      (u : ℕ) (meta : Metadata) (s : Setting State) → s.umask ≡ u → (wipe host meta s).1.umask ≡ u
  unfolding wipe
  wipe-umask u meta s h = elim (Bool-cases (meta.is_symlink || meta.is_file)) [
    | inl link ↦ rw link (attempt-umask u _ _ s h)
    | inr other ↦ rw other (attempt-umask u _ _ s h)
  ]

  rebuild-umask : (u : ℕ) (s : Setting State) → s.umask ≡ u → (rebuild host s).1.umask ≡ u
  unfolding rebuild warn ◌>>=◌
  rebuild-umask u s h =
      continue-keeps (λ s'. s'.umask ≡ u) (λ _. warn host _) _ (attempt-umask u _ _ s h) λ a s₁ k. k

  remediate-umask :
      (u : ℕ) (meta : Metadata) (s : Setting State)
      → s.umask ≡ u
      → (remediate host meta s).1.umask ≡ u
  unfolding remediate warn ◌>>=◌
  remediate-umask u meta s h =
      continue-keeps (λ s'. s'.umask ≡ u) (λ _. rebuild host) _ (wipe-umask u meta _ h)
        λ a s₁ k. rebuild-umask u s₁ k

  inspected-umask :
      (u : ℕ) (o : Option Metadata) (s : Setting State)
      → s.umask ≡ u
      → (inspected host o s).1.umask ≡ u
  unfolding inspected
  inspected-umask u none s h = h
  inspected-umask u (some meta) s h = elim (Bool-cases (is_compromised meta)) [
    | inl compromised ↦ rw compromised (remediate-umask u meta s h)
    | inr sound ↦ rw sound h
  ]

  pub setup_secure_dir-umask : (s : Setting State) → (setup_secure_dir host s).1.umask ≡ s.umask
  unfolding setup_secure_dir inspect ◌>>=◌
  setup_secure_dir-umask s =
      continue-keeps (λ s'. s'.umask ≡ s.umask) (λ _. inspect host) _
        (attempt-umask s.umask _ _ s refl)
        λ a s₁ k. inspected-umask s.umask (host.symlink_metadata socket_dir s₁.files) s₁ k

  -- The socket's file, if it can be looked at, is root's and no link.
  abbrev pub IsRoots : Option Metadata → Type 0
  IsRoots none = Unit
  IsRoots (some meta) = (meta.uid ≡ 0) × (meta.is_symlink ≡ false)

  own-IsRoots : (o : Option Metadata) → is_foreign o ≡ false → IsRoots o
  own-IsRoots none h = tt
  own-IsRoots (some meta) h = (ground arith, ground arith)

  -- The umask that a binding leaves: the one before, except where the socket was not bound.
  abbrev pub Bound : Setting State → Outcome Line (Unit {0}) × Setting State → Type 0
  Bound s (ok _, s') = (s'.umask ≡ s.umask) × IsRoots (host.symlink_metadata socket_path s'.files)
  Bound s (err why, s') =
      ((why ≡ bind_error host) × (s'.umask ≡ tight_umask host))
      ⊎ ((why ≡ foreign_error host) × (s'.umask ≡ s.umask))

  validate_socket-Bound : (s : Setting State) → Bound s (validate_socket host s)
  unfolding validate_socket
  validate_socket-Bound s =
      elim (Bool-cases (is_foreign (host.symlink_metadata socket_path s.files))) [
        | inl foreign ↦ rw foreign (inr (refl, refl))
        | inr own ↦ rw own (refl, own-IsRoots _ own)
      ]

  -- A socket that is bound leaves the umask as it was; when the set-up succeeds, a socket that can be
  -- looked at belongs to root and is no link. Where the binding fails, the umask stays at 0o177.
  pub bind_socket-Bound : (s : Setting State) → Bound s (bind_socket host s)
  unfolding bind_socket
  bind_socket-Bound s =
      let cleared = (host.remove_file socket_path s.files).1 in
      elim (Bool-cases (host.bind (tight_umask host) socket_path cleared).0) [
        | inl bound ↦ rw bound (validate_socket-Bound (record s { files = _; umask = s.umask }))
        | inr failed ↦ rw failed (inl (refl, refl))
      ]
