-- ===== src/Modules/RenameEntropy.antt =====
-- modules/src/rename_entropy.rs: the alert, its parser, the handler and the declaration.
use bouclier_bleu.Base.{
  ℕ, ◌==◌, if◌then◌else◌, String, true, none, some, List, [], ◌∷◌, ◌++◌, Text, Line, lit, num, str,
  codes, trim_end, Outcome,
}
use bouclier_bleu.Exec.{pure, ◌>>=◌}
use bouclier_bleu.Reader.{Endian, Bytes, Parse, read_u32, read_string}
use bouclier_bleu.Host.{number, text, Payload, Handler, eprint}
use bouclier_bleu.Watchlist.{directory}
use bouclier_bleu.Module.{Declaration, sized, no_capacities, no_init}
use bouclier_bleu.Strikes.{strike}

pub record RenameAlert : Type 0 where
  pub pid : ℕ
  pub ppid : ℕ
  pub full_path : Text

-- `format!("{}/{}", dir.trim_end_matches('/'), file)`
unfoldable pub join_path : Text → Text → Text
join_path dir file = trim_end (λ c. c == b'/') dir ++ (b'/' ∷ file)

unfoldable pub read_alert : Endian → Parse RenameAlert
unfolding join_path ◌>>=◌
read_alert e = do
  pid ← read_u32 e
  ppid ← read_u32 e
  dir_path ← read_string 4096
  file_name ← read_string 256
  pure (record { pid = pid; ppid = ppid; full_path = join_path dir_path file_name })

unfoldable pub try_from_bytes : Endian → Bytes → Outcome String RenameAlert × List Line
unfolding sized read_alert
try_from_bytes e bytes = sized 4360 (read_alert e) bytes

abbrev pub payload : RenameAlert → Payload
payload a = ("pid", number a.pid) ∷ ("ppid", number a.ppid) ∷ ("full_path", text a.full_path) ∷ []

-- The warning of a poisoned lock, the operator's line, and the strike.
unfoldable pub handler : {F : Type 0} → Handler F RenameAlert
unfolding strike
handler alert env w =
    let warned =
      if env.tracker_poisoned
      then eprint
          (lit "Bouclier Bleu [Warning]: Strike tracker mutex was poisoned. Recovering state." ∷ [])
          w
      else w in
    strike alert.ppid env (
      eprint
        (lit "Bouclier Bleu [FATAL]: PID "
          ∷ num alert.pid
          ∷ lit " triggered ransomware entropy heuristic on target: "
          ∷ str alert.full_path
          ∷ [])
        warned)

abbrev pub rename_entropy : {F : Type 0} → Declaration F RenameAlert
rename_entropy = record {
  name = "Ransomware Rename Entropy Monitor";
  slug = codes "rename_entropy";
  mitre = "T1486" ∷ [];
  parser = try_from_bytes;
  payload = payload;
  handler = handler;
  xattr_watchlist = none;
  dynamic_watchlist = some (record {
    map_name = codes "protected_dirs";
    target_paths = codes "/home" ∷ codes "/var" ∷ codes "/etc" ∷ codes "/opt" ∷ [];
    entry_type = directory;
    min_capacity = 8192;
    ignore_hidden = true;
    allow_hidden =
        codes ".ssh"
        ∷ codes ".gnupg"
        ∷ codes ".aws"
        ∷ codes ".kube"
        ∷ codes ".docker"
        ∷ codes ".config"
        ∷ [];
  });
  capacities = no_capacities;
  init = no_init;
}
