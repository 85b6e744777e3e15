-- ===== src/Modules/DumpRestrict.antt =====
-- modules/src/dump_restrict.rs: the alert, its parser, the handler and the declaration.
use bouclier_bleu.Base.{
  ℕ, ◌==◌, if◌then◌else◌, String, Option, none, some, List, [], ◌∷◌, Text, Line, lit, num, str,
  codes, trim, Outcome, split_whitespace, is_whitespace,
}
use bouclier_bleu.Exec.{pure, ◌>>=◌, ◌>>◌}
use bouclier_bleu.Reader.{Endian, Bytes, Parse, read_u32, read_string}
use bouclier_bleu.Host.{number, text, Payload, Handler, print}
use bouclier_bleu.Watchlist.{Disk, Bpf, Work, say, set_flag, get_secure_hardware_key, when_some}
use bouclier_bleu.Module.{Declaration, Init, sized, get_map}

pub record DumpAlert : Type 0 where
  pub pid : ℕ
  pub uid : ℕ
  pub action_type : ℕ
  pub comm : Text

unfoldable pub read_alert : Endian → Parse DumpAlert
unfolding ◌>>=◌
read_alert e = do
  pid ← read_u32 e
  uid ← read_u32 e
  action_type ← read_u32 e
  raw_comm ← read_string 16
  pure (record {
    pid = pid;
    uid = uid;
    action_type = action_type;
    comm = trim (λ c. c == 0) raw_comm;
  })

unfoldable pub try_from_bytes : Endian → Bytes → Outcome String DumpAlert × List Line
unfolding sized read_alert
try_from_bytes e bytes = sized 28 (read_alert e) bytes

abbrev pub payload : DumpAlert → Payload
payload a =
    ("pid", number a.pid)
    ∷ ("uid", number a.uid)
    ∷ ("action_type", number a.action_type)
    ∷ ("comm", text a.comm)
    ∷ []

abbrev pub action_coredump_file : ℕ
action_coredump_file = 1

abbrev pub action_prctl_tamper : ℕ
action_prctl_tamper = 2

abbrev pub action_piped_handler : ℕ
action_piped_handler = 3

unfoldable pub action_str : ℕ → String
action_str action =
    if action == action_coredump_file
    then "COREDUMP_GENERATION"
    else if action == action_prctl_tamper
    then "PRCTL_DUMPABLE_TAMPER"
    else if action == action_piped_handler
    then "PIPED_COREDUMP_HANDLER"
    else "UNKNOWN_VIOLATION"

unfoldable pub handler : {F : Type 0} → Handler F DumpAlert
unfolding action_str
handler alert env w =
    print
      (lit "Bouclier Bleu [BLOCK]: PID "
        ∷ num alert.pid
        ∷ lit " (UID "
        ∷ num alert.uid
        ∷ lit ") attempted ["
        ∷ lit (action_str alert.action_type)
        ∷ lit "] via process '"
        ∷ str alert.comm
        ∷ lit "'."
        ∷ [])
      w

-- `strip_prefix('|')`
abbrev pub strip_pipe : Text → Option Text
strip_pipe [] = none
strip_pipe (c ∷ cs) = if c == b'|' then some cs else none

-- `split_whitespace().next()`, where an empty path counts as none.
abbrev pub first_word : List Text → Option Text
first_word [] = none
first_word (word ∷ rest) = some word

-- The binary of a piped core dump handler, from the text of `core_pattern`.
unfoldable pub piped_handler : Text → Option Text
unfolding trim split_whitespace is_whitespace
piped_handler core_pattern = elim (strip_pipe (trim is_whitespace core_pattern)) [
  | none ↦ none
  | some stripped ↦ first_word (split_whitespace stripped)
]

abbrev pub handler_of : Option Text → Option Text
handler_of none = none
handler_of (some core_pattern) = piped_handler core_pattern

module _ (disk : Disk) (e : Endian) (bpf : Bpf) where
  -- The handler's key, if the binary can be opened.
  abbrev pub protect_key : Text → Option Bytes → Work bpf
  protect_key path none = say bpf (
      lit "Bouclier Bleu [Warning]: Could not resolve hardware key for piped handler '"
      ∷ str path
      ∷ lit "'."
      ∷ [])
  protect_key path (some key) = do
    set_flag bpf (lit "Failed to update protected_files map: " ∷ []) (codes "protected_files") key
    say bpf
        (lit "Bouclier Bleu [Setup]: Core dump piped handler '" ∷ str path ∷ lit "' indexed." ∷ [])

  abbrev pub protect_handler : Text → Work bpf
  protect_handler path = protect_key path (get_secure_hardware_key disk e path)

unfoldable pub init : Init
unfolding get_map piped_handler set_flag get_secure_hardware_key ◌>>=◌
init disk e bpf = do
  get_map bpf (codes "protected_files")
  when_some bpf (protect_handler disk e bpf)
      (handler_of (disk.read_file (codes "/proc/sys/kernel/core_pattern")))

abbrev pub dump_restrict : {F : Type 0} → Declaration F DumpAlert
dump_restrict = record {
  name = "Unprivileged Dump Restriction";
  slug = codes "dump_restrict";
  mitre = "T1003" ∷ "T1068" ∷ [];
  parser = try_from_bytes;
  payload = payload;
  handler = handler;
  xattr_watchlist = none;
  dynamic_watchlist = none;
  capacities = λ disk. ((codes "protected_files", 16) ∷ [], []);
  init = init;
}
