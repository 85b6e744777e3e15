-- ===== src/Tests/Samples.antt =====
-- Concrete inputs that the examples share.
use bouclier_bleu.Base.{
  ℕ, ◌+◌, Bool, true, false, Option, none, some, List, [], ◌∷◌, ◌++◌, Text, codes, Line, lit, num,
  str, debug, ok,
}
use bouclier_bleu.Reader.{Bytes}
use bouclier_bleu.Host.{Metadata, FileSystem, Process, Readings, World}
use bouclier_bleu.Watchlist.{Disk, Bpf}
use bouclier_bleu.Loader.{Libbpf, Skeleton}
use bouclier_bleu.Ipc.{Channel, Stream}
use bouclier_bleu.Ipc.Setup.{SocketHost}
use bouclier_bleu.Startup.{Platform}
use bouclier_bleu.Xtask.Machine.{Output, Entry, Machine, Job}

-- The directory of the alerts is there or is not.
abbrev pub secure_dir : Metadata
secure_dir = record { is_dir = true; is_file = false; is_symlink = false; uid = 0; mode = 0o40700 }

abbrev pub meta_of : Bool → Option Metadata
meta_of true = some secure_dir
meta_of false = none

abbrev pub small_files : FileSystem
small_files = record {
  State = Bool;
  create_dir = λ mode path s. (true, true);
  metadata = λ path s. meta_of s;
  symlink_metadata = λ path s. meta_of s;
  remove_file = λ path s. (true, false);
  remove_dir_all = λ path s. (true, false);
  open_append = λ mode path s. (true, s);
  open_write = λ path s. (false, s);
}

abbrev pub idle : {F : Type 0} → F → World F
idle files = record {
  out = [];
  errors = [];
  tracker = [];
  killed = [];
  sink = none;
  written = [];
  files = files;
}

abbrev process : ℕ → Option ℕ → Process
process pid parent = record { pid = pid; parent = parent; start_time = 100 }

-- The orchestrator 40 has the children 41 and 42; 7 is a stranger.
abbrev pub table : List Process
table = process 40 (some 1) ∷ process 41 (some 40) ∷ process 7 none ∷ process 42 (some 40) ∷ []

-- What an alert at a time reads.
abbrev pub reading : ℕ → Readings
reading now = record {
  prune_clock = λ key. now;
  now = now;
  epoch = 500;
  processes = table;
  tracker_poisoned = false;
  timestamp_ms = 500000;
  to_json = λ envelope. some (codes "{}");
  sink_poisoned = false;
  write_succeeds = true;
}

-- An object of the kernel is the value of its flag.
abbrev pub flag_bpf : Bpf
flag_bpf = record {
  Object = Option Bytes;
  has_map = λ name o. true;
  update = λ name key value o. ok (some value);
}

abbrev pub flag_lib : Libbpf
flag_lib = record {
  bpf = flag_bpf;
  Open = Unit {0};
  open_skel = λ name. some tt;
  has_open_map = λ name o. true;
  set_max_entries = λ name n o. o;
  programs = λ o. [];
  set_autoload = λ name b o. o;
  load_skel = λ o. some none;
  attach = λ o. some o;
}

abbrev pub skeleton : Text → Option Bytes → Skeleton flag_lib
skeleton kind flag = record { kind = kind; object = flag }

-- A disk without directories to walk.
abbrev pub bare_disk : Disk
bare_disk = record {
  walk = λ depth follow filter root. [];
  hardware = λ path. none;
  open_nofollow = λ path. none;
  read_file = λ path. none;
  config = none;
}

abbrev pub connection : Option ℕ → Text → Stream
connection uid sent = record {
  peer_uid = uid;
  read_timeout_set = true;
  write_timeout_set = true;
  sent = some sent;
  response = none;
}

-- The daemon's channel, with nothing in it.
abbrev pub empty_channel : Channel
empty_channel = record { bound = 128; pending = []; connected = true; fresh = 0 }

-- Letters beyond ASCII have no upper case here.
abbrev pub plain : ℕ → Text
plain c = c ∷ []

-- The same directory, and a socket that can be bound.
abbrev pub socket_host : SocketHost
socket_host = record { files = small_files; bind = λ umask path s. (true, s) }

-- Root's start on a kernel that lists BPF, without configuration.
abbrev pub platform : Platform
platform = record {
  euid = 0;
  lsm = some (codes "landlock,bpf");
  config_files = [];
  adds = λ name. true;
  builds = true;
}

-- A command that succeeds and says nothing.
abbrev pub silent : Output
silent = record { is_success = true; code = some 0; stdout = []; stderr = [] }

abbrev pub shell_test : Entry
shell_test = record {
  path = codes "/src/tests/component/shield.sh";
  file_name = codes "shield.sh";
  file_stem = codes "shield";
  extension = some (codes "sh");
  is_file = true;
}

-- A host on which everything works; its state is the clock.
abbrev pub host : Machine
host = record {
  State = ℕ;
  root = codes "/src";
  temp_dir = codes "/tmp";
  run = λ dir args now. (some silent, now + 1);
  sleep = λ n now. now + n;
  now = λ now. now;
  exists = λ path now. true;
  read_dir = λ path now. some (some shell_test ∷ []);
  read_to_string = λ path now. none;
  write = λ path text now. (true, now);
  append = λ path text now. (true, now);
  remove_file = λ path now. (true, now);
  format_secs = λ n. [];
}

abbrev pub job : Job ℕ
job = record { host = 0; calls = [] }

-- A line in bytes, of texts in ASCII without numbers.
abbrev pub bytes_of : Line → Bytes
bytes_of [] = []
bytes_of (lit s ∷ rest) = codes s ++ bytes_of rest
bytes_of (str t ∷ rest) = t ++ bytes_of rest
bytes_of (debug t ∷ rest) = t ++ bytes_of rest
bytes_of (num n ∷ rest) = bytes_of rest
