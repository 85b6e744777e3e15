-- ===== src/Module.antt =====
-- `define_security_module!` of modules/src/common/macros.rs and the trait `SecurityModule` of
-- modules/src/common/traits.rs. A `Declaration` holds the arguments of the macro; the functions below
-- are the methods that the macro writes for it.
use bouclier_bleu.Base.{
  ℕ, String, Bool, false, Option, none, some, List, [], ◌∷◌, ltb, length, if◌then◌else◌, Text, Line,
  lit, str, text_eq, Outcome, ok, err,
}
use bouclier_bleu.Exec.{pure, ◌>>=◌, ◌>>◌}
use bouclier_bleu.Reader.{Endian, Bytes, Parse, run}
use bouclier_bleu.Host.{FileSystem, Readings, World, Payload, Handler, eprint, eprint_all}
use bouclier_bleu.Siem.{emit_siem_event}
use bouclier_bleu.Watchlist.{
  EntryType, file, Disk, Bpf, Work, calculate_dynamic_capacity, populate_map_from_xattr,
  populate_map_from_paths,
}

pub record XattrWatchlist : Type 0 where
  pub map_name : Text
  pub attribute : Text
  pub target_paths : List Text

pub record DynamicWatchlist : Type 0 where
  pub map_name : Text
  pub target_paths : List Text
  pub entry_type : EntryType
  pub min_capacity : ℕ
  pub ignore_hidden : Bool
  pub allow_hidden : List Text

-- `HashMap<String, u32>`
abbrev pub Capacities : Type 0
Capacities = List (Text × ℕ)

-- What an init closure does: the lines it prints, and its work on the BPF object.
abbrev pub Init : Type 1
Init = Disk → Endian → (bpf : Bpf) → Work bpf

-- The arguments of the macro, for alerts of type `A` and a file system with states `F`.
pub record Declaration (F A : Type 0) : Type 1 where
  pub name : String
  pub slug : Text
  pub mitre : List String
  pub parser : Endian → Bytes → Outcome String A × List Line
  pub payload : A → Payload
  pub handler : Handler F A
  pub xattr_watchlist : Option XattrWatchlist
  pub dynamic_watchlist : Option DynamicWatchlist
  -- what the capacities closure gives, and the lines that it prints
  pub capacities : Disk → Capacities × List Line
  pub init : Init

-- The size test at the head of every `try_from_bytes`, and the reads behind it.
abbrev pub size_error : String
size_error = "Telemetry payload violates minimum size constraints."

unfoldable pub sized : {A : Type 0} → ℕ → Parse A → Bytes → Outcome String A × List Line
unfolding run
sized min_size m bytes = if ltb (length bytes) min_size then (err size_error, []) else run m bytes

-- `map.insert(key, value)`
unfoldable pub insert : Text → ℕ → Capacities → Capacities
insert key n [] = (key, n) ∷ []
insert key n ((k, m) ∷ rest) = if text_eq k key then (key, n) ∷ rest else (k, m) ∷ insert key n rest

-- `map.extend(more)`
unfoldable pub extend : Capacities → Capacities → Capacities
unfolding insert
extend caps [] = caps
extend caps ((k, n) ∷ more) = extend (insert k n caps) more

abbrev pub no_capacities : Disk → Capacities × List Line
no_capacities disk = ([], [])

abbrev pub no_init : Init
no_init disk e bpf = pure tt

module _ {F A : Type 0} (d : Declaration F A) where
  abbrev xattr_capacity : Disk → Option XattrWatchlist → Capacities → Capacities
  xattr_capacity disk none caps = caps
  xattr_capacity disk (some w) caps =
      insert w.map_name (calculate_dynamic_capacity disk file false [] w.target_paths 2048) caps

  abbrev dynamic_capacity : Disk → Option DynamicWatchlist → Capacities → Capacities
  dynamic_capacity disk none caps = caps
  dynamic_capacity disk (some w) caps =
      insert w.map_name
        (calculate_dynamic_capacity disk w.entry_type w.ignore_hidden w.allow_hidden w.target_paths
          w.min_capacity)
        caps

  unfoldable pub map_capacities : Disk → Capacities × List Line
  unfolding insert extend
  map_capacities disk =
      let (more, lines) = d.capacities disk in
      (
        extend
            (dynamic_capacity disk d.dynamic_watchlist (xattr_capacity disk d.xattr_watchlist []))
            more,
        lines,
      )

-- `provider.get_map(name)?`
unfoldable pub get_map : (bpf : Bpf) → Text → Work bpf
get_map bpf name s =
    if bpf.has_map name s.object
    then (ok tt, s)
    else (err (lit "Map '" ∷ str name ∷ lit "' not found in module skeleton" ∷ []), s)

module _ (disk : Disk) (e : Endian) (bpf : Bpf) where
  unfoldable pub init_xattr : Text → Option XattrWatchlist → Work bpf
  unfolding get_map populate_map_from_xattr
  init_xattr slug none = pure tt
  init_xattr slug (some w) = do
    get_map bpf w.map_name
    populate_map_from_xattr disk bpf e w.map_name w.target_paths w.attribute slug

  unfoldable pub init_dynamic : Text → Option DynamicWatchlist → Work bpf
  unfolding get_map populate_map_from_paths
  init_dynamic slug none = pure tt
  init_dynamic slug (some w) = do
    get_map bpf w.map_name
    populate_map_from_paths disk bpf e w.map_name w.target_paths w.entry_type w.ignore_hidden
        w.allow_hidden slug

  -- `SecurityModule::init`: the watchlists, then the closure.
  unfoldable pub init_module : {F A : Type 0} → Declaration F A → Work bpf
  unfolding init_xattr init_dynamic ◌>>=◌
  init_module d = do
    init_xattr d.slug d.xattr_watchlist
    init_dynamic d.slug d.dynamic_watchlist
    d.init disk e bpf

module _ (fs : FileSystem) {A : Type 0} (d : Declaration fs.State A) where
  -- What follows the parse: the alert is logged and handled, an error is printed.
  unfoldable pub parsed : Outcome String A → Readings → World fs.State → World fs.State
  unfolding emit_siem_event
  parsed (ok alert) env w =
      d.handler alert env (emit_siem_event fs d.slug d.mitre (d.payload alert) env w)
  parsed (err why) env w =
      eprint
        (lit "Bouclier Bleu [Error]: "
          ∷ str d.slug
          ∷ lit " failed to parse kernel event: "
          ∷ lit why
          ∷ [])
        w

  -- `SecurityModule::process_event`, of a module whose flag is `active`.
  unfoldable pub process_event : Endian → Bool → Bytes → Readings → World fs.State → World fs.State
  unfolding parsed
  process_event e active bytes env w =
      let (result, warnings) = d.parser e bytes in
      if active then parsed result env (eprint_all warnings w) else w
