-- ===== src/Xtask/Machine.antt =====
-- The host that the task runner works on: its commands, its files and its clock. They are parameters.
-- The runner keeps them as a state, with the commands that it ran.
use bouclier_bleu.Base.{ℕ, String, Bool, Option, List, [], ◌∷◌, ◌++◌, Text, codes, Line, lit, str}
use bouclier_bleu.Reader.{Bytes}
use bouclier_bleu.Exec.{Exec}

-- `std::process::Output`; there is no code where a signal ended the command.
pub record Output : Type 0 where
  pub is_success : Bool
  pub code : Option ℕ
  pub stdout : Bytes
  pub stderr : Bytes

-- A `DirEntry` with what `Path` makes of it.
pub record Entry : Type 0 where
  pub path : Text
  pub file_name : Text
  pub file_stem : Text
  pub extension : Option Text
  pub is_file : Bool

-- The commands of utils.rs, vm.rs and runner.rs, each with what varies.
pub data Command : Type 0 where
  image_info : Text → Command
  image_import : Text → Text → Command
  sha256sum : Text → Command
  alias_create : Text → Text → Command
  delete : Command
  launch : Text → Command
  profile_show profile_copy device_remove profile_assign ip_link : Command
  tar file_push : Text → Command
  -- `incus exec VM -- bash -c`
  guest : Line → Command
  echo_ready cat_benchmark : Command
  restart stop stop_force start : Command
  snapshot_create snapshot_restore : Command
  build_image : Text → Text → Command

abbrev pub vm_name : String
vm_name = "bb-test-runner"

abbrev pub snapshot_name : String
snapshot_name = "clean-state"

-- Arguments that are written out.
abbrev words : List String → List Line
words [] = []
words (w ∷ rest) = (lit w ∷ []) ∷ words rest

abbrev word : Text → Line
word text = str text ∷ []

-- The program and its arguments.
unfoldable pub argv : Command → List Line
argv (image_info image_alias) = words ("incus" ∷ "image" ∷ "info" ∷ []) ++ word image_alias ∷ []
argv (image_import img image_alias) =
    words ("incus" ∷ "image" ∷ "import" ∷ [])
    ++ word img ∷ (lit "--alias" ∷ []) ∷ word image_alias ∷ []
argv (sha256sum img) = (lit "sha256sum" ∷ []) ∷ word img ∷ []
argv (alias_create image_alias fingerprint) =
    words ("incus" ∷ "image" ∷ "alias" ∷ "create" ∷ []) ++ word image_alias ∷ word fingerprint ∷ []
argv delete = words ("incus" ∷ "delete" ∷ vm_name ∷ "--force" ∷ [])
argv (launch image_alias) =
    words ("incus" ∷ "launch" ∷ [])
    ++ word image_alias
      ∷ words (
          vm_name ∷ "--vm" ∷ "-c" ∷ "security.secureboot=false" ∷ "-c" ∷ "limits.cpu=4" ∷ "-c"
          ∷ "limits.memory=8GB" ∷ [])
argv profile_show = words ("incus" ∷ "profile" ∷ "show" ∷ "bb-no-network" ∷ [])
argv profile_copy = words ("incus" ∷ "profile" ∷ "copy" ∷ "default" ∷ "bb-no-network" ∷ [])
argv device_remove =
    words ("incus" ∷ "profile" ∷ "device" ∷ "remove" ∷ "bb-no-network" ∷ "eth0" ∷ [])
argv profile_assign = words ("incus" ∷ "profile" ∷ "assign" ∷ vm_name ∷ "bb-no-network" ∷ [])
argv ip_link = words ("incus" ∷ "exec" ∷ vm_name ∷ "--" ∷ "ip" ∷ "-o" ∷ "link" ∷ "show" ∷ [])
argv (tar tarball) =
    words ("tar" ∷ "--exclude=target" ∷ "--exclude=.git" ∷ "--exclude=*.tar.*" ∷ "-czf" ∷ [])
    ++ word tarball ∷ (lit "." ∷ []) ∷ []
argv (file_push tarball) =
    words ("incus" ∷ "file" ∷ "push" ∷ [])
    ++ word tarball ∷ (lit vm_name ∷ lit "/root/src-bundle.tar.gz" ∷ []) ∷ []
argv (guest script) = words ("incus" ∷ "exec" ∷ vm_name ∷ "--" ∷ "bash" ∷ "-c" ∷ []) ++ script ∷ []
argv echo_ready = words ("incus" ∷ "exec" ∷ vm_name ∷ "--" ∷ "echo" ∷ "ready" ∷ [])
argv cat_benchmark =
    words ("incus" ∷ "exec" ∷ vm_name ∷ "--" ∷ "cat" ∷ "/workspace/benchmark_results.md" ∷ [])
argv restart = words ("incus" ∷ "restart" ∷ vm_name ∷ [])
argv stop = words ("incus" ∷ "stop" ∷ vm_name ∷ [])
argv stop_force = words ("incus" ∷ "stop" ∷ vm_name ∷ "--force" ∷ [])
argv start = words ("incus" ∷ "start" ∷ vm_name ∷ [])
argv snapshot_create = words ("incus" ∷ "snapshot" ∷ "create" ∷ vm_name ∷ snapshot_name ∷ [])
argv snapshot_restore = words ("incus" ∷ "snapshot" ∷ "restore" ∷ vm_name ∷ snapshot_name ∷ [])
argv (build_image script image_alias) =
    (lit "bash" ∷ []) ∷ word script ∷ words ("-os" ∷ "ubuntu" ∷ "-out" ∷ [])
    ++ word image_alias ∷ []

-- The host. `run` takes the directory that is set and the arguments, and gives no output where the
-- command could not be started. The clock counts nanoseconds.
pub record Machine : Type 1 where
  pub State : Type 0
  pub root : Text
  pub temp_dir : Text
  pub run : Option Text → List Line → State → Option Output × State
  pub sleep : ℕ → State → State
  pub now : State → ℕ
  pub exists : Text → State → Bool
  pub read_dir : Text → State → Option (List (Option Entry))
  pub read_to_string : Text → State → Option Text
  pub write : Text → Text → State → Bool × State
  pub append : Text → Text → State → Bool × State
  pub remove_file : Text → State → Bool × State
  -- `{:.2}` of a duration in seconds
  pub format_secs : ℕ → Text

-- A command and its result.
abbrev pub Call : Type 0
Call = Command × Option Output

-- The host, and the commands that were run, the latest first.
pub record Job (S : Type 0) : Type 0 where
  pub host : S
  pub calls : List Call

-- How a task ends that does not end well: with an error, a panic, or the end of the process.
pub data Failure : Type 0 where
  failed : Line → Failure
  panicked : Failure
  exits : ℕ → Failure

module _ (m : Machine) where
  abbrev pub Task : Type 0 → Type 0
  Task A = Exec (Job m.State) Failure A

  -- `Path::join`
  abbrev pub join : Text → String → Text
  join path name = path ++ codes "/" ++ codes name
