-- ===== src/Modules/MountSecure.antt =====
-- modules/src/mount_secure.rs: the alert, its parser, the handler and the declaration.
use bouclier_bleu.Base.{ℕ, String, none, List, [], ◌∷◌, Text, Line, lit, num, str, codes, Outcome}
use bouclier_bleu.Exec.{pure, ◌>>=◌}
use bouclier_bleu.Reader.{Endian, Bytes, Parse, read_u32, read_string}
use bouclier_bleu.Host.{number, text, Payload, Handler, print}
use bouclier_bleu.Module.{Declaration, sized, no_capacities, no_init}

pub record MountAlert : Type 0 where
  pub pid : ℕ
  pub dev_name : Text
  pub fs_type : Text
  pub mount_point : Text

unfoldable pub read_alert : Endian → Parse MountAlert
unfolding ◌>>=◌
read_alert e = do
  pid ← read_u32 e
  dev_name ← read_string 256
  fs_type ← read_string 64
  mount_point ← read_string 512
  pure (record { pid = pid; dev_name = dev_name; fs_type = fs_type; mount_point = mount_point })

unfoldable pub try_from_bytes : Endian → Bytes → Outcome String MountAlert × List Line
unfolding sized read_alert
try_from_bytes e bytes = sized 836 (read_alert e) bytes

abbrev pub payload : MountAlert → Payload
payload a =
    ("pid", number a.pid)
    ∷ ("dev_name", text a.dev_name)
    ∷ ("fs_type", text a.fs_type)
    ∷ ("mount_point", text a.mount_point)
    ∷ []

unfoldable pub handler : {F : Type 0} → Handler F MountAlert
handler alert env w =
    print
      (lit "Bouclier Bleu [BLOCK]: PID "
        ∷ num alert.pid
        ∷ lit " attempted insecure mount of "
        ∷ str alert.dev_name
        ∷ lit " ("
        ∷ str alert.fs_type
        ∷ lit ") at '"
        ∷ str alert.mount_point
        ∷ lit "'. Enforcing MS_NOEXEC, MS_NOSUID, MS_NODEV."
        ∷ [])
      w

abbrev pub mount_secure : {F : Type 0} → Declaration F MountAlert
mount_secure = record {
  name = "Removable Media Neutralizer";
  slug = codes "mount_secure";
  mitre = "T1200" ∷ "T1548.001" ∷ "T1204.002" ∷ "T1068" ∷ "T1091" ∷ [];
  parser = try_from_bytes;
  payload = payload;
  handler = handler;
  xattr_watchlist = none;
  dynamic_watchlist = none;
  capacities = no_capacities;
  init = no_init;
}
