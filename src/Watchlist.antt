-- ===== src/Watchlist.antt =====
-- The watchlists of modules/src/common/fs_utils.rs: sizing a BPF map by walking directories, and
-- filling it with the hardware keys of what is found. The walk (the walkdir crate), the descriptors
-- and the kernel's map are parameters.
pub mod Capacity
use Prim.Native.Nat.{◌*◌}
use bouclier_bleu.Base.{
  ℕ, ◌+◌, ◌/◌, ◌%◌, ◌^◌, ltb, String, Bool, true, false, not, Option, none, some, List, [], ◌∷◌,
  ◌++◌, length, keep, max, any, text_eq, starts_with, if◌then◌else◌, Text, codes, Line, lit, str,
  debug, Outcome, ok, err,
}
use bouclier_bleu.Exec.{Exec, pure, ◌>>=◌, ◌>>◌}
use bouclier_bleu.Base.Utf8.{from_utf8_lossy}
use bouclier_bleu.Reader.{Endian, Bytes}
use bouclier_bleu.Toml.{Toml}
use bouclier_bleu.Device.{DevIno, generate_hardware_key}

pub data EntryType : Type 0 where
  file directory : EntryType

-- `walkdir::DirEntry`; the name is the bytes of the last component.
pub record DirEntry : Type 0 where
  pub path : Text
  pub file_name : Bytes
  pub is_file : Bool
  pub is_dir : Bool

-- A file opened for reading without following a link: its extended attributes and its metadata.
pub record Opened : Type 0 where
  pub xattr : Text → Option Bytes
  pub metadata : Option DevIno

-- The disk as the daemon reads it while it starts. `walk depth follow filter root` lists what
-- `WalkDir` yields under `filter_entry`, an error as `none`.
pub record Disk : Type 0 where
  pub walk : ℕ → Bool → (DirEntry → Bool) → Text → List (Option DirEntry)
  -- `openat` with `O_PATH | O_NOFOLLOW`, then `metadata`
  pub hardware : Text → Option DevIno
  -- `openat` with `O_RDONLY | O_NOFOLLOW`
  pub open_nofollow : Text → Option Opened
  pub read_file : Text → Option Text
  -- the configuration file, read and parsed as TOML
  pub config : Option Toml

-- A BPF object and the updates of its maps: the map's name, the key and the value.
pub record Bpf : Type 1 where
  pub Object : Type 0
  pub has_map : Text → Object → Bool
  pub update : Text → Bytes → Bytes → Object → Outcome Line Object

-- `filter_map(|e| e.ok())`
abbrev pub entries_of : List (Option DirEntry) → List DirEntry
entries_of [] = []
entries_of (none ∷ rest) = entries_of rest
entries_of (some e ∷ rest) = e ∷ entries_of rest

module _ (disk : Disk) where
  -- `build_secure_walker`, with the filter of its caller.
  unfoldable pub secure_walk : (DirEntry → Bool) → Text → List DirEntry
  secure_walk filter path = entries_of (disk.walk 20 false filter path)

  -- `get_secure_hardware_key`
  unfoldable pub get_secure_hardware_key : Endian → Text → Option Bytes
  get_secure_hardware_key e path = elim (disk.hardware path) [
    | none ↦ none
    | some id ↦ some (generate_hardware_key e id)
  ]

-- The closure of `filter_entry`: hidden entries are left out, unless they are allowed by name.
unfoldable pub is_visible : Bool → List Text → DirEntry → Bool
is_visible ignore_hidden allow_hidden entry =
    let name = from_utf8_lossy entry.file_name in
    if not ignore_hidden
    then true
    else if not (starts_with name (codes "."))
    then true
    else any (text_eq name) allow_hidden

unfoldable pub is_match : EntryType → DirEntry → Bool
is_match file entry = entry.is_file
is_match directory entry = entry.is_dir

-- `count` is an `i32` that wraps around in a release build; a negative one is 0 as a `u32`. The
-- product with 1.25 is exact and fits, since 31 bits times 5 / 4 do.
unfoldable pub buffered : ℕ → ℕ
buffered count = let n = count % 2 ^ 32 in if ltb n (2 ^ 31) then n * 5 / 4 else 0

-- `((count as f64 * 1.25) as u32).max(floor)`
unfoldable pub with_buffer : ℕ → ℕ → ℕ
unfolding buffered
with_buffer count floor = max (buffered count) floor

module _ (disk : Disk) (entry_type : EntryType) (ignore_hidden : Bool)
    (allow_hidden : List Text) where
  -- The entries of one path that are counted, and later indexed.
  unfoldable pub matches_in : Text → List DirEntry
  unfolding is_match is_visible secure_walk
  matches_in path =
      keep (is_match entry_type) (secure_walk disk (is_visible ignore_hidden allow_hidden) path)

  unfoldable pub count_matches : List Text → ℕ
  count_matches [] = 0
  count_matches (path ∷ paths) = length (matches_in path) + count_matches paths

  unfoldable pub calculate_dynamic_capacity : List Text → ℕ → ℕ
  calculate_dynamic_capacity target_paths min_capacity =
      with_buffer (count_matches target_paths) min_capacity

-- `calculate_watchlist_capacity`
unfoldable pub calculate_watchlist_capacity : Disk → List Text → ℕ
unfolding calculate_dynamic_capacity
calculate_watchlist_capacity disk paths = with_buffer (count_matches disk file false [] paths) 2048

-- An object while it is set up, and the lines that are printed and printed as errors.
pub record Setup (O : Type 0) : Type 0 where
  pub object : O
  pub out : List Line
  pub errors : List Line

module _ (bpf : Bpf) where
  open bpf use {Object, update}

  -- Work on an object that may fail with a message.
  abbrev pub Work : Type 0
  Work = Exec (Setup Object) Line (Unit {0})

  -- `println!` and `eprintln!`
  abbrev pub say : Line → Work
  say line s = (ok tt, record s { out = s.out ++ line ∷ [] })

  abbrev pub warn : Line → Work
  warn line s = (ok tt, record s { errors = s.errors ++ line ∷ [] })

  abbrev pub flag : Bytes
  flag = 1 ∷ []

  -- An update of a map with the value `[1]`; the message names the failure.
  unfoldable pub set_flag : Line → Text → Bytes → Work
  set_flag message map_name key s = elim (update map_name key flag s.object) [
    | ok o' ↦ (ok tt, record s { object = o' })
    | err why ↦ (err (message ++ why), s)
  ]

  -- A loop whose body may fail.
  unfoldable pub for_each : {A : Type 0} → (A → Work) → List A → Work
  unfolding ◌>>=◌
  for_each body [] = pure tt
  for_each body (x ∷ xs) = do body x; for_each body xs

  -- Work with a key, if there is one.
  abbrev pub when_some : {A : Type 0} → (A → Work) → Option A → Work
  when_some body none = pure tt
  when_some body (some a) = body a

module _ (disk : Disk) (bpf : Bpf) (e : Endian) (map_name : Text) where
  -- One entry: skipped if it cannot be opened, and an error if the map does not take its key.
  unfoldable pub index_entry : DirEntry → Work bpf
  index_entry entry =
      when_some bpf
        (set_flag bpf (lit "CRITICAL: Map update failed for " ∷ str entry.path ∷ lit ": " ∷ [])
          map_name)
        (get_secure_hardware_key disk e entry.path)

  -- One path, announced.
  unfoldable pub index_path : EntryType → Bool → List Text → Text → Text → Work bpf
  unfolding ◌>>=◌
  index_path entry_type ignore_hidden allow_hidden module_slug path = do
    say bpf (
        lit "Bouclier Bleu [Setup]: Recursively indexing path "
        ∷ str path
        ∷ lit " for "
        ∷ str module_slug
        ∷ lit "..."
        ∷ [])
    for_each bpf index_entry (matches_in disk entry_type ignore_hidden allow_hidden path)

  unfoldable pub populate_map_from_paths :
      List Text → EntryType → Bool → List Text → Text → Work bpf
  unfolding index_path
  populate_map_from_paths target_paths entry_type ignore_hidden allow_hidden module_slug =
      for_each bpf (index_path entry_type ignore_hidden allow_hidden module_slug) target_paths

  -- The identity of a file that carries the attribute with the value `1`.
  unfoldable pub opted_in : Text → Option Opened → Option DevIno
  opted_in attribute none = none
  opted_in attribute (some opened) = elim (opened.xattr attribute) [
    | none ↦ none
    | some value ↦ (if text_eq value (codes "1") then opened.metadata else none)
  ]

  -- The key of a file that opted in goes into the map.
  unfoldable pub enforce : Text → DirEntry → DevIno → Work bpf
  unfolding set_flag ◌>>=◌
  enforce module_slug entry id = do
    set_flag bpf (lit "CRITICAL: " ∷ str map_name ∷ lit " map failed to update: " ∷ []) map_name
        (generate_hardware_key e id)
    say bpf (
        lit "Bouclier Bleu [Setup]: "
        ∷ str module_slug
        ∷ lit " strict enforcement activated for "
        ∷ debug entry.path
        ∷ [])

  unfoldable pub index_opted_in : Text → Text → DirEntry → Work bpf
  unfolding opted_in enforce
  index_opted_in attribute module_slug entry =
      when_some bpf (enforce module_slug entry) (opted_in attribute (disk.open_nofollow entry.path))

  unfoldable pub scan_path : Text → Text → Text → Work bpf
  unfolding index_opted_in for_each ◌>>=◌
  scan_path attribute module_slug path = do
    say bpf (
        lit "Bouclier Bleu [Setup]: Scanning "
        ∷ str path
        ∷ lit " for "
        ∷ str module_slug
        ∷ lit " opt-in attributes..."
        ∷ [])
    for_each bpf (index_opted_in attribute module_slug) (matches_in disk file false [] path)

  unfoldable pub populate_map_from_xattr : List Text → Text → Text → Work bpf
  unfolding scan_path for_each
  populate_map_from_xattr target_paths attribute module_slug =
      for_each bpf (scan_path attribute module_slug) target_paths
