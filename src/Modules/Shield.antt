-- ===== src/Modules/Shield.antt =====
-- modules/src/shield.rs: the alert, its parser, the handler and the declaration.
use bouclier_bleu.Base.{
  ℕ, ◌==◌, if◌then◌else◌, String, none, some, List, [], ◌∷◌, Text, Line, lit, num, str, codes,
  Outcome, ok, err,
}
use bouclier_bleu.Exec.{pure, ◌>>=◌, ◌>>◌}
use bouclier_bleu.Reader.{Endian, Bytes, Parse, read_u32, read_string}
use bouclier_bleu.Host.{number, text, Payload, Handler, print}
use bouclier_bleu.Watchlist.{Disk, Bpf, Work, Setup, warn, flag, get_secure_hardware_key}
use bouclier_bleu.Module.{Declaration, Init, sized, get_map}

pub record ShieldAlert : Type 0 where
  pub pid : ℕ
  pub action_type : ℕ
  pub target : Text

unfoldable pub read_alert : Endian → Parse ShieldAlert
unfolding ◌>>=◌
read_alert e = do
  pid ← read_u32 e
  action_type ← read_u32 e
  target ← read_string 4096
  pure (record { pid = pid; action_type = action_type; target = target })

unfoldable pub try_from_bytes : Endian → Bytes → Outcome String ShieldAlert × List Line
unfolding sized read_alert
try_from_bytes e bytes = sized 4104 (read_alert e) bytes

abbrev pub payload : ShieldAlert → Payload
payload a =
    ("pid", number a.pid) ∷ ("action_type", number a.action_type) ∷ ("target", text a.target) ∷ []

unfoldable pub action_str : ℕ → String
action_str action =
    if action == 1
    then "FILE_TAMPER"
    else if action == 2
    then "BPF_TAMPER"
    else if action == 3
    then "SYSLOG_LEAK"
    else "UNKNOWN_VIOLATION"

unfoldable pub handler : {F : Type 0} → Handler F ShieldAlert
unfolding action_str
handler alert env w =
    print
      (lit "Bouclier Bleu [SHIELD]: Blocked unauthorized action ["
        ∷ lit (action_str alert.action_type)
        ∷ lit "] by PID "
        ∷ num alert.pid
        ∷ lit " on target: "
        ∷ str alert.target
        ∷ [])
      w

abbrev pub target_files : List Text
target_files = codes "/etc/bouclier-bleu/config.toml" ∷ codes "/usr/bin/bouclier-bleu-core" ∷ []

module _ (disk : Disk) (e : Endian) (bpf : Bpf) where
  open bpf use {Object, update}

  -- One file: skipped if it cannot be opened; a refused update is a warning.
  unfoldable pub protect_file : Text → Setup Object → Setup Object
  unfolding get_secure_hardware_key
  protect_file path s = elim (get_secure_hardware_key disk e path) [
    | none ↦ s
    | some key ↦ elim (update (codes "protected_files") key (flag bpf) s.object) [
      | ok o' ↦ record s { object = o' }
      | err why ↦
          (warn bpf (lit "Bouclier Bleu [WARNING]: Could not protect " ∷ str path ∷ lit ": " ∷ why)
            s).1
    ]
  ]

  unfoldable pub protect_files : List Text → Work bpf
  unfolding protect_file
  protect_files [] s = (ok tt, s)
  protect_files (path ∷ paths) s = protect_files paths (protect_file path s)

unfoldable pub init : Init
unfolding protect_files get_map ◌>>=◌
init disk e bpf = do get_map bpf (codes "protected_files"); protect_files disk e bpf target_files

abbrev pub shield : {F : Type 0} → Declaration F ShieldAlert
shield = record {
  name = "Self-Defense Architecture";
  slug = codes "shield";
  mitre = "T1562.001" ∷ "T1014" ∷ "T082" ∷ [];
  parser = try_from_bytes;
  payload = payload;
  handler = handler;
  xattr_watchlist = none;
  dynamic_watchlist = none;
  capacities = λ disk. ((codes "protected_files", 2) ∷ [], []);
  init = init;
}
