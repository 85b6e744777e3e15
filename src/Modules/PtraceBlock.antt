-- ===== src/Modules/PtraceBlock.antt =====
-- modules/src/ptrace_block.rs: the alert, its parser, the handler and the declaration.
use bouclier_bleu.Base.{
  ℕ, ◌+◌, ◌==◌, if◌then◌else◌, String, none, some, List, [], ◌∷◌, Text, Line, lit, num, str, codes,
  trim, Outcome, ok, err,
}
use bouclier_bleu.Exec.{pure, ◌>>=◌, ◌>>◌}
use bouclier_bleu.Reader.{Endian, Bytes, Parse, read_u32, read_string}
use bouclier_bleu.Host.{number, text, Payload, Handler, print}
use bouclier_bleu.Watchlist.{Disk, Bpf, Work, Setup, say, warn, flag, get_secure_hardware_key}
use bouclier_bleu.Module.{Declaration, Init, sized, get_map}

pub record PtraceAlert : Type 0 where
  pub pid : ℕ
  pub target_pid : ℕ
  pub action_type : ℕ
  pub target_comm : Text

unfoldable pub read_alert : Endian → Parse PtraceAlert
unfolding ◌>>=◌
read_alert e = do
  pid ← read_u32 e
  target_pid ← read_u32 e
  action_type ← read_u32 e
  raw_target_comm ← read_string 16
  pure (record {
    pid = pid;
    target_pid = target_pid;
    action_type = action_type;
    target_comm = trim (λ c. c == 0) raw_target_comm;
  })

unfoldable pub try_from_bytes : Endian → Bytes → Outcome String PtraceAlert × List Line
unfolding sized read_alert
try_from_bytes e bytes = sized 28 (read_alert e) bytes

abbrev pub payload : PtraceAlert → Payload
payload a =
    ("pid", number a.pid)
    ∷ ("target_pid", number a.target_pid)
    ∷ ("action_type", number a.action_type)
    ∷ ("target_comm", text a.target_comm)
    ∷ []

abbrev pub action_cred_dump : ℕ
action_cred_dump = 1

abbrev pub action_injection : ℕ
action_injection = 2

abbrev pub action_proc_mem : ℕ
action_proc_mem = 3

unfoldable pub action_str : ℕ → String
action_str action =
    if action == action_cred_dump
    then "CREDENTIAL_DUMP"
    else if action == action_injection
    then "PROCESS_INJECTION"
    else if action == action_proc_mem
    then "PROC_MEM_TAMPER"
    else "UNKNOWN_VIOLATION"

unfoldable pub handler : {F : Type 0} → Handler F PtraceAlert
unfolding action_str
handler alert env w =
    print
      (lit "Bouclier Bleu [BLOCK]: PID "
        ∷ num alert.pid
        ∷ lit " attempted ["
        ∷ lit (action_str alert.action_type)
        ∷ lit "] against target '"
        ∷ str alert.target_comm
        ∷ lit "' (PID "
        ∷ num alert.target_pid
        ∷ lit ")."
        ∷ [])
      w

abbrev pub target_binaries : List Text
target_binaries =
    codes "/usr/sbin/sshd"
    ∷ codes "/usr/bin/sshd"
    ∷ codes "/usr/sbin/sshd-session"
    ∷ codes "/usr/bin/sshd-session"
    ∷ codes "/usr/bin/passwd"
    ∷ codes "/usr/bin/su"
    ∷ codes "/usr/bin/sudo"
    ∷ codes "/sbin/pam_timestamp_check"
    ∷ codes "/usr/sbin/pam_timestamp_check"
    ∷ codes "/sbin/unix_chkpwd"
    ∷ codes "/usr/sbin/unix_chkpwd"
    ∷ codes "/usr/sbin/sssd"
    ∷ codes "/usr/bin/sssd"
    ∷ codes "/usr/lib/systemd/systemd-logind"
    ∷ codes "/usr/lib/polkit-1/polkitd"
    ∷ codes "/usr/libexec/polkit-1/polkitd"
    ∷ codes "/usr/bin/gnome-keyring-daemon"
    ∷ codes "/usr/bin/kwalletd5"
    ∷ codes "/usr/bin/gpg-agent"
    ∷ codes "/usr/sbin/gdm3"
    ∷ codes "/usr/sbin/gdm"
    ∷ codes "/usr/bin/gdm"
    ∷ codes "/usr/sbin/lightdm"
    ∷ codes "/usr/bin/lightdm"
    ∷ codes "/usr/bin/sddm"
    ∷ []

module _ (disk : Disk) (e : Endian) (bpf : Bpf) where
  open bpf use {Object, update}

  -- One binary: skipped if it is not installed, counted if the map takes its key.
  unfoldable pub protect_one : Text → ℕ × Setup Object → ℕ × Setup Object
  unfolding get_secure_hardware_key
  protect_one path (protection_count, s) = elim (get_secure_hardware_key disk e path) [
    | none ↦ (protection_count, s)
    | some key ↦ elim (update (codes "protected_processes") key (flag bpf) s.object) [
      | ok o' ↦ (
        protection_count + 1,
        (say bpf
            (lit "Bouclier Bleu [Setup]: Anti-dumping memory protection activated for "
              ∷ str path
              ∷ [])
            (record s { object = o' })).1,
      )
      | err why ↦ (
        protection_count,
        (warn bpf
            (lit "Bouclier Bleu [WARNING]: Could not protect credential process "
              ∷ str path
              ∷ lit ": "
              ∷ why)
            s).1,
      )
    ]
  ]

  unfoldable pub protect_all : List Text → ℕ × Setup Object → ℕ × Setup Object
  unfolding protect_one
  protect_all [] s = s
  protect_all (path ∷ paths) s = protect_all paths (protect_one path s)

  -- At least one binary must be protected.
  unfoldable pub protect : Work bpf
  unfolding protect_all
  protect s =
      let (protection_count, s') = protect_all target_binaries (0, s) in
      if protection_count == 0
      then (
        err (lit "Credential protection initialization failed: Watchlist empty" ∷ []),
        (warn bpf (lit "Bouclier Bleu [CRITICAL]: No credential processes could be protected!" ∷ [])
            s').1,
      )
      else (ok tt, s')

unfoldable pub init : Init
unfolding protect get_map ◌>>=◌
init disk e bpf = do get_map bpf (codes "protected_processes"); protect disk e bpf

abbrev pub ptrace_block : {F : Type 0} → Declaration F PtraceAlert
ptrace_block = record {
  name = "Process Injection Prevention";
  slug = codes "ptrace_block";
  mitre = "T1055.008" ∷ "T1003.007" ∷ "T1068" ∷ [];
  parser = try_from_bytes;
  payload = payload;
  handler = handler;
  xattr_watchlist = none;
  dynamic_watchlist = none;
  capacities = λ disk. ((codes "protected_processes", 256) ∷ [], []);
  init = init;
}
