-- ===== src/Modules/UsernsRestrict.antt =====
-- modules/src/userns_restrict.rs: the alert, its parser, the handler and the declaration.
use bouclier_bleu.Base.{
  ℕ, ◌==◌, if◌then◌else◌, String, none, List, [], ◌∷◌, Text, Line, lit, num, str, codes, trim,
  Outcome,
}
use bouclier_bleu.Exec.{pure, ◌>>=◌}
use bouclier_bleu.Reader.{Endian, Bytes, Parse, read_u32, read_string}
use bouclier_bleu.Host.{number, text, Payload, Handler, print}
use bouclier_bleu.Module.{Declaration, sized, no_capacities, no_init}

pub record UsernsAlert : Type 0 where
  pub pid : ℕ
  pub action_type : ℕ
  pub target : Text

unfoldable pub read_alert : Endian → Parse UsernsAlert
unfolding ◌>>=◌
read_alert e = do
  pid ← read_u32 e
  action_type ← read_u32 e
  raw_target ← read_string 64
  pure (record { pid = pid; action_type = action_type; target = trim (λ c. c == 0) raw_target })

unfoldable pub try_from_bytes : Endian → Bytes → Outcome String UsernsAlert × List Line
unfolding sized read_alert
try_from_bytes e bytes = sized 72 (read_alert e) bytes

abbrev pub payload : UsernsAlert → Payload
payload a =
    ("pid", number a.pid) ∷ ("action_type", number a.action_type) ∷ ("target", text a.target) ∷ []

abbrev pub action_userns_create : ℕ
action_userns_create = 1

abbrev pub action_cap_sys_admin : ℕ
action_cap_sys_admin = 2

abbrev pub action_mount_dev : ℕ
action_mount_dev = 3

unfoldable pub action_str : ℕ → String
action_str action =
    if action == action_userns_create
    then "USER_NAMESPACE_CREATION"
    else if action == action_cap_sys_admin
    then "CAP_SYS_ADMIN_ACQUISITION"
    else if action == action_mount_dev
    then "PHYSICAL_DEVICE_MOUNT"
    else "UNKNOWN_VIOLATION"

unfoldable pub handler : {F : Type 0} → Handler F UsernsAlert
unfolding action_str
handler alert env w =
    print
      (lit "Bouclier Bleu [BLOCK]: PID "
        ∷ num alert.pid
        ∷ lit " attempted container escape primitive ["
        ∷ lit (action_str alert.action_type)
        ∷ lit "] targeting: "
        ∷ str alert.target
        ∷ lit "."
        ∷ [])
      w

abbrev pub userns_restrict : {F : Type 0} → Declaration F UsernsAlert
userns_restrict = record {
  name = "Namespace Escape Monitor";
  slug = codes "userns_restrict";
  mitre = "T1611" ∷ "T1068" ∷ "T1610" ∷ "T1612" ∷ [];
  parser = try_from_bytes;
  payload = payload;
  handler = handler;
  xattr_watchlist = none;
  dynamic_watchlist = none;
  capacities = no_capacities;
  init = no_init;
}
