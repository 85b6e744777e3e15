-- ===== src/Ipc/Setup.antt =====
-- core/src/ipc/setup.rs: the directory of the control socket, and the socket itself. The file system,
-- the binding of a socket and the umask of the process are what the code changes.
pub mod Secure
pub mod Umask
use bouclier_bleu.Base.{
  ℕ, ◌%◌, String, Bool, true, false, not, ◌&&◌, ◌||◌, Option, none, some, List, [], ◌∷◌, ◌++◌, ◌==◌,
  if◌then◌else◌, Text, Line, lit, str, codes, Outcome, ok, err,
}
use bouclier_bleu.Exec.{Exec, pure, fail, ◌>>=◌, ◌>>◌}
use bouclier_bleu.Host.{Metadata, FileSystem}
use bouclier_bleu.Siem.{permissions}

-- A file system on which sockets can be bound. `bind umask path` makes the socket's file under a umask.
pub record SocketHost : Type 1 where
  pub files : FileSystem
  pub open files use *
  pub bind : ℕ → Text → State → Bool × State

-- What the set-up changes: the files, the umask of the process, and what is printed as an error.
pub record Setting (S : Type 0) : Type 0 where
  pub files : S
  pub umask : ℕ
  pub errors : List Line

abbrev pub socket_dir : Text
socket_dir = codes "/var/run/bouclier-bleu"

abbrev pub socket_path : Text
socket_path = codes "/var/run/bouclier-bleu/control.sock"

-- A link, another owner than root, or other permissions than 0o700.
abbrev pub is_compromised : Metadata → Bool
is_compromised meta = meta.is_symlink || not (meta.uid == 0) || not (permissions meta == 0o700)

-- Not root's, or a link: `is_ok_and(|meta| meta.uid() != 0 || meta.is_symlink())`.
abbrev pub is_foreign : Option Metadata → Bool
is_foreign none = false
is_foreign (some meta) = not (meta.uid == 0) || meta.is_symlink

module _ (host : SocketHost) where
  open host use {State}

  abbrev pub SetUp : Type 0
  SetUp = Exec (Setting State) Line (Unit {0})

  -- An operation on the files, and the message of its failure.
  unfoldable pub attempt : (State → Bool × State) → Line → SetUp
  attempt operation why s =
      let (done, files) = operation s.files in
      let s' : Setting State = record s { files = files } in
      if done then (ok tt, s') else (err why, s')

  unfoldable pub warn : Line → SetUp
  warn line s = (ok tt, record s { errors = s.errors ++ line ∷ [] })

  -- A link or a file is removed, a directory is wiped.
  unfoldable pub wipe : Metadata → SetUp
  wipe meta =
      if meta.is_symlink || meta.is_file
      then attempt (host.remove_file socket_dir)
          (lit "FATAL: Failed to remove compromised symlink/file" ∷ [])
      else attempt (host.remove_dir_all socket_dir)
          (lit "FATAL: Failed to wipe compromised IPC directory" ∷ [])

  abbrev recreate_error : Line
  recreate_error = lit "FATAL: Failed to recreate secure IPC directory post-remediation" ∷ []

  abbrev rebuilt : Line
  rebuilt = lit "Bouclier Bleu [INFO]: IPC directory securely rebuilt." ∷ []

  unfoldable pub rebuild : SetUp
  rebuild = do attempt (host.create_dir 0o700 socket_dir) recreate_error; warn rebuilt

  unfoldable pub remediate : Metadata → SetUp
  remediate meta = do
    warn (
        lit "Bouclier Bleu [WARNING]: IPC directory "
        ∷ str socket_dir
        ∷ lit " has insecure permissions (Potential Pre-Staging Attack). Auto-remediating..."
        ∷ [])
    wipe meta
    rebuild

  -- The directory as it is found after it was created.
  unfoldable pub inspected : Option Metadata → SetUp
  inspected none = fail (lit "FATAL: Failed to verify IPC directory metadata." ∷ [])
  inspected (some meta) = if is_compromised meta then remediate meta else pure tt

  unfoldable pub inspect : SetUp
  inspect s = inspected (host.symlink_metadata socket_dir s.files) s

  unfoldable pub setup_secure_dir : SetUp
  setup_secure_dir = do
    attempt (host.create_dir 0o700 socket_dir)
        (lit "FATAL: Failed to construct secure IPC directory" ∷ [])
    inspect

  abbrev pub bind_error : Line
  bind_error = lit "FATAL: Failed to bind to Unix socket" ∷ []

  abbrev pub foreign_error : Line
  foreign_error = lit "FATAL: IPC socket ownership validation failed (Possible TOCTOU)." ∷ []

  -- What is bound is looked at again, and removed if it is not root's socket.
  unfoldable pub validate_socket : SetUp
  validate_socket s =
      if is_foreign (host.symlink_metadata socket_path s.files)
      then (err foreign_error, record s { files = (host.remove_file socket_path s.files).1 })
      else (ok tt, s)

  -- The umask while the socket is bound: only the owner may read and write.
  abbrev pub tight_umask : ℕ
  tight_umask = 0o177

  -- The operator `?` on the binding leaves the function before the umask is set back.
  unfoldable pub bind_socket : SetUp
  bind_socket s =
      let old_umask = s.umask in
      let tightened : Setting State = record s {
        files = (host.remove_file socket_path s.files).1;
        umask = tight_umask;
      } in
      let (bound, files) = host.bind tightened.umask socket_path tightened.files in
      if bound
      then validate_socket (record tightened { files = files; umask = old_umask })
      else (err bind_error, record tightened { files = files })
