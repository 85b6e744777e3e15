-- ===== src/Modules/ExecBlock.antt =====
-- modules/src/exec_block.rs: the alert, its parser, the handler and the declaration.
use bouclier_bleu.Base.{
  ℕ, String, false, none, some, List, [], ◌∷◌, Text, Line, lit, num, str, codes, Outcome,
}
use bouclier_bleu.Exec.{pure, ◌>>=◌}
use bouclier_bleu.Reader.{Endian, Bytes, Parse, read_u32, read_string}
use bouclier_bleu.Host.{number, text, Payload, Handler, print}
use bouclier_bleu.Watchlist.{directory}
use bouclier_bleu.Module.{Declaration, sized, no_capacities, no_init}

pub record ExecAlert : Type 0 where
  pub pid : ℕ
  pub path : Text

unfoldable pub read_alert : Endian → Parse ExecAlert
unfolding ◌>>=◌
read_alert e = do
  pid ← read_u32 e
  path ← read_string 4096
  pure (record { pid = pid; path = path })

unfoldable pub try_from_bytes : Endian → Bytes → Outcome String ExecAlert × List Line
unfolding sized read_alert
try_from_bytes e bytes = sized 4100 (read_alert e) bytes

abbrev pub payload : ExecAlert → Payload
payload a = ("pid", number a.pid) ∷ ("path", text a.path) ∷ []

unfoldable pub handler : {F : Type 0} → Handler F ExecAlert
handler alert env w =
    print
      (lit "Bouclier Bleu [BLOCK]: PID "
        ∷ num alert.pid
        ∷ lit " attempted execution from protected path: "
        ∷ str alert.path
        ∷ [])
      w

abbrev pub exec_block : {F : Type 0} → Declaration F ExecAlert
exec_block = record {
  name = "Untrusted Path Execution Prevention";
  slug = codes "exec_block";
  mitre = "T1620" ∷ "T1027.002" ∷ [];
  parser = try_from_bytes;
  payload = payload;
  handler = handler;
  xattr_watchlist = none;
  dynamic_watchlist = some (record {
    map_name = codes "protected_dirs";
    target_paths =
        codes "/tmp"
        ∷ codes "/var/tmp"
        ∷ codes "/dev/shm"
        ∷ codes "/var/crash"
        ∷ codes "/dev/mqueue"
        ∷ codes "/run/user"
        ∷ [];
    entry_type = directory;
    min_capacity = 8192;
    ignore_hidden = false;
    allow_hidden = [];
  });
  capacities = no_capacities;
  init = no_init;
}
