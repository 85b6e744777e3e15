-- ===== src/Modules/MadviseRatelimit.antt =====
-- modules/src/madvise_ratelimit.rs: the alert, its parser, the handler and the declaration.
use bouclier_bleu.Base.{
  ℕ, ◌==◌, if◌then◌else◌, String, none, List, [], ◌∷◌, Text, Line, lit, num, str, codes, trim,
  Outcome,
}
use bouclier_bleu.Exec.{pure, ◌>>=◌}
use bouclier_bleu.Reader.{Endian, Bytes, Parse, read_u32, read_string}
use bouclier_bleu.Host.{number, text, Payload, Handler, print}
use bouclier_bleu.Module.{Declaration, sized, no_capacities, no_init}

pub record MadviseAlert : Type 0 where
  pub pid : ℕ
  pub tid : ℕ
  pub count : ℕ
  pub action_type : ℕ
  pub comm : Text

unfoldable pub read_alert : Endian → Parse MadviseAlert
unfolding ◌>>=◌
read_alert e = do
  pid ← read_u32 e
  tid ← read_u32 e
  count ← read_u32 e
  action_type ← read_u32 e
  raw_comm ← read_string 16
  pure (record {
    pid = pid;
    tid = tid;
    count = count;
    action_type = action_type;
    comm = trim (λ c. c == 0) raw_comm;
  })

unfoldable pub try_from_bytes : Endian → Bytes → Outcome String MadviseAlert × List Line
unfolding sized read_alert
try_from_bytes e bytes = sized 32 (read_alert e) bytes

abbrev pub payload : MadviseAlert → Payload
payload a =
    ("pid", number a.pid)
    ∷ ("tid", number a.tid)
    ∷ ("count", number a.count)
    ∷ ("action_type", number a.action_type)
    ∷ ("comm", text a.comm)
    ∷ []

abbrev pub action_madvise_spam : ℕ
action_madvise_spam = 1

unfoldable pub action_str : ℕ → String
action_str action =
    if action == action_madvise_spam then "MADVISE_RACE_CONDITION" else "UNKNOWN_VIOLATION"

unfoldable pub handler : {F : Type 0} → Handler F MadviseAlert
unfolding action_str
handler alert env w =
    print
      (lit "Bouclier Bleu [BLOCK]: Process '"
        ∷ str alert.comm
        ∷ lit "' (PID "
        ∷ num alert.pid
        ∷ lit ", TID "
        ∷ num alert.tid
        ∷ lit ") neutralized for attempting ["
        ∷ lit (action_str alert.action_type)
        ∷ lit "] with "
        ∷ num alert.count
        ∷ lit " loop iterations."
        ∷ [])
      w

abbrev pub madvise_ratelimit : {F : Type 0} → Declaration F MadviseAlert
madvise_ratelimit = record {
  name = "Race Condition Mitigator";
  slug = codes "madvise_ratelimit";
  mitre = "T1068" ∷ [];
  parser = try_from_bytes;
  payload = payload;
  handler = handler;
  xattr_watchlist = none;
  dynamic_watchlist = none;
  capacities = no_capacities;
  init = no_init;
}
