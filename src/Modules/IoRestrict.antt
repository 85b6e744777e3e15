-- ===== src/Modules/IoRestrict.antt =====
-- modules/src/io_restrict.rs: the alert, its parser, the handler and the declaration.
use bouclier_bleu.Base.{
  ℕ, ◌==◌, if◌then◌else◌, max, String, Option, none, some, List, [], ◌∷◌, Text, Line, lit, num, str,
  codes, trim, Outcome,
}
use bouclier_bleu.Exec.{pure, ◌>>=◌}
use bouclier_bleu.Reader.{Endian, Bytes, Parse, read_u32, read_string}
use bouclier_bleu.Host.{number, text, Payload, Handler, print}
use bouclier_bleu.Watchlist.{Disk}
use bouclier_bleu.Module.{Declaration, Capacities, sized, no_init}
use bouclier_bleu.Toml.{Toml, get_table, as_integer, low_u32, and_then}

pub record IoRestrictAlert : Type 0 where
  pub pid : ℕ
  pub action_type : ℕ
  pub syscall : Text

unfoldable pub read_alert : Endian → Parse IoRestrictAlert
unfolding ◌>>=◌
read_alert e = do
  pid ← read_u32 e
  action_type ← read_u32 e
  raw_syscall ← read_string 16
  pure (record { pid = pid; action_type = action_type; syscall = trim (λ c. c == 0) raw_syscall })

unfoldable pub try_from_bytes : Endian → Bytes → Outcome String IoRestrictAlert × List Line
unfolding sized read_alert
try_from_bytes e bytes = sized 24 (read_alert e) bytes

abbrev pub payload : IoRestrictAlert → Payload
payload a =
    ("pid", number a.pid) ∷ ("action_type", number a.action_type) ∷ ("syscall", text a.syscall) ∷ []

abbrev pub action_io_uring : ℕ
action_io_uring = 1

abbrev pub action_vmsplice : ℕ
action_vmsplice = 2

abbrev pub action_splice : ℕ
action_splice = 3

abbrev pub action_splice_flags : ℕ
action_splice_flags = 4

abbrev pub action_splice_taint : ℕ
action_splice_taint = 5

abbrev pub action_map_exhausted : ℕ
action_map_exhausted = 6

unfoldable pub action_str : ℕ → String
action_str action =
    if action == action_io_uring
    then "ASYNC_IO_SETUP"
    else if action == action_vmsplice
    then "ZERO_COPY_VMSPLICE"
    else if action == action_splice
    then "ZERO_COPY_SPLICE"
    else if action == action_splice_flags
    then "RESTRICTED_SPLICE_FLAGS"
    else if action == action_splice_taint
    then "TAINTED_PIPELINE_VIOLATION"
    else if action == action_map_exhausted
    then "MAP_CAPACITY_EXHAUSTED"
    else "UNKNOWN_IO_VIOLATION"

unfoldable pub handler : {F : Type 0} → Handler F IoRestrictAlert
unfolding action_str
handler alert env w =
    if alert.action_type == action_map_exhausted
    then print
        (lit "Bouclier Bleu [WARN]: PID "
          ∷ num alert.pid
          ∷ lit " degraded visibility. Taint map full ["
          ∷ lit (action_str alert.action_type)
          ∷ lit "] via "
          ∷ str alert.syscall
          ∷ lit "."
          ∷ [])
        w
    else print
        (lit "Bouclier Bleu [BLOCK]: PID "
          ∷ num alert.pid
          ∷ lit " attempted restricted I/O primitive ["
          ∷ lit (action_str alert.action_type)
          ∷ lit "] via "
          ∷ str alert.syscall
          ∷ lit "."
          ∷ [])
        w

abbrev pub default_size : ℕ
default_size = 8192

-- The size that the configuration gives, as `size as u32` cuts it.
unfoldable pub extracted_size : Option Toml → Option ℕ
extracted_size document = and_then document λ config.
    and_then (get_table (codes "modules") config) λ modules.
      and_then (get_table (codes "io_restrict_map_size") modules)
        λ size. and_then (as_integer size) λ n. some (low_u32 n)

-- At least 1024 entries; without a configured size, the default.
unfoldable pub pipe_map_size : Option ℕ → ℕ
pipe_map_size none = default_size
pipe_map_size (some size) = max size 1024

unfoldable pub capacities : Disk → Capacities × List Line
unfolding extracted_size pipe_map_size
capacities disk =
    let size = pipe_map_size (extracted_size disk.config) in
    (
      (codes "pipe_taint_map", size) ∷ [],
      (lit "Bouclier Bleu [Setup]: Scaling pipe_taint_map to "
            ∷ num size
            ∷ lit " entries based on configuration."
            ∷ [])
          ∷ [],
    )

abbrev pub io_restrict : {F : Type 0} → Declaration F IoRestrictAlert
io_restrict = record {
  name = "I/O Confinement Monitor";
  slug = codes "io_restrict";
  mitre = "T1486" ∷ "T1068" ∷ [];
  parser = try_from_bytes;
  payload = payload;
  handler = handler;
  xattr_watchlist = some (record {
    map_name = codes "io_restrict_binaries";
    attribute = codes "user.bouclier.io_restrict";
    target_paths =
        codes "/bin" ∷ codes "/sbin" ∷ codes "/usr/bin" ∷ codes "/usr/sbin" ∷ codes "/opt" ∷ [];
  });
  dynamic_watchlist = none;
  capacities = capacities;
  init = no_init;
}
