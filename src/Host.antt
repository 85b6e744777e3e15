-- ===== src/Host.antt =====
-- What the daemon stands on and does not implement: the file system, the process table, the clock and
-- the serializer. They are parameters of the model. `World` is what the daemon's own code changes.
use bouclier_bleu.Base.{ℕ, String, Bool, Option, List, [], ◌∷◌, ◌++◌, Text, Line}

-- `std::fs::Metadata`, as far as the program reads it; `mode` is `st_mode`.
pub record Metadata : Type 0 where
  pub is_dir : Bool
  pub is_file : Bool
  pub is_symlink : Bool
  pub uid : ℕ
  pub mode : ℕ

-- A file system: each operation returns whether it succeeded, and the state after it.
pub record FileSystem : Type 1 where
  pub State : Type 0
  -- `DirBuilder::new().recursive(true).mode(mode).create(path)`
  pub create_dir : ℕ → Text → State → Bool × State
  pub metadata : Text → State → Option Metadata
  pub symlink_metadata : Text → State → Option Metadata
  pub remove_file : Text → State → Bool × State
  pub remove_dir_all : Text → State → Bool × State
  -- `OpenOptions` with `create`, `append`, a mode and `O_NOFOLLOW`
  pub open_append : ℕ → Text → State → Bool × State
  -- `OpenOptions` with `write` alone
  pub open_write : Text → State → Bool × State

-- `sysinfo::Process`
pub record Process : Type 0 where
  pub pid : ℕ
  pub parent : Option ℕ
  pub start_time : ℕ

-- The strikes of a parent process; `first_strike` is an `Instant` in nanoseconds.
pub record PpidStrike : Type 0 where
  pub count : ℕ
  pub first_strike : ℕ

-- `HashMap<u32, PpidStrike>`
abbrev pub Tracker : Type 0
Tracker = List (ℕ × PpidStrike)

-- One field of an alert, as `derive(Serialize)` writes it.
pub data Value : Type 0 where
  number : ℕ → Value
  text : Text → Value

abbrev pub Payload : Type 0
Payload = List (String × Value)

-- `EnvelopedAlert` of modules/src/common/telemetry.rs.
pub record EnvelopedAlert : Type 0 where
  pub timestamp_ms : ℕ
  pub event_source : Text
  pub mitre_techniques : List String
  pub payload : Payload

-- The file behind the sink: `alerts.json`, or the fallback.
pub data LogFile : Type 0 where
  alerts_json fallback_log : LogFile

-- What one event reads from outside. `prune_clock` is the clock as the pruning reads it at each key.
pub record Readings : Type 0 where
  pub prune_clock : ℕ → ℕ
  pub now : ℕ
  pub epoch : ℕ
  pub processes : List Process
  pub tracker_poisoned : Bool
  pub timestamp_ms : ℕ
  pub to_json : EnvelopedAlert → Option Text
  pub sink_poisoned : Bool
  pub write_succeeds : Bool

-- The state of the daemon's modules: what was printed, the strike tracker, the processes that were
-- sent SIGKILL, the sink once it is initialised, the lines written to it, and the file system.
pub record World (F : Type 0) : Type 0 where
  pub out : List Line
  pub errors : List Line
  pub tracker : Tracker
  pub killed : List ℕ
  pub sink : Option (Option LogFile)
  pub written : List (LogFile × Text)
  pub files : F

-- The handler of an alert, in a world over the file system's states `F`.
abbrev pub Handler : Type 0 → Type 0 → Type 0
Handler F A = A → Readings → World F → World F

module _ {F : Type 0} where
  -- `println!` and `eprintln!`
  abbrev pub print : Line → World F → World F
  print line w = record w { out = w.out ++ line ∷ [] }

  abbrev pub eprint : Line → World F → World F
  eprint line w = record w { errors = w.errors ++ line ∷ [] }

  abbrev pub eprint_all : List Line → World F → World F
  eprint_all lines w = record w { errors = w.errors ++ lines }
