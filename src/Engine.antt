-- ===== src/Engine.antt =====
-- `BpfEngine` of core/src/bpf_manager.rs: the skeletons by module name, their loading and their
-- initialisation. A `HashMap` is an association list; its order is that of the list.
pub mod Table
pub mod Configured
use bouclier_bleu.Base.{
  ℕ, Bool, true, false, Option, none, some, List, [], ◌∷◌, ◌++◌, text_eq, if◌then◌else◌, Text,
  codes, Line, lit, str, Outcome, ok, err,
}
use bouclier_bleu.Reader.{Endian}
use bouclier_bleu.Config.{States, DaemonConfig}
use bouclier_bleu.Watchlist.{Disk, Setup}
use bouclier_bleu.Module.{Capacities, map_capacities, init_module}
use bouclier_bleu.Loader.{Libbpf, Skeleton, load_module, set_module_state}
use bouclier_bleu.Kernel.{autoload, is_post_2025_vfs}
use bouclier_bleu.Registry.{SecurityModule, Registry, find_module, toggle, announced}
use bouclier_bleu.Host.{World, print, eprint}

-- `HashMap::get` by a text key.
unfoldable pub get {ℓ} : {V : Type ℓ} → Text → List (Text × V) → Option V
get key [] = none
get key ((k, v) ∷ rest) = if text_eq k key then some v else get key rest

-- `HashMap::insert`
unfoldable pub insert {ℓ} : {V : Type ℓ} → Text → V → List (Text × V) → List (Text × V)
insert key v [] = (key, v) ∷ []
insert key v ((k, w) ∷ rest) = if text_eq k key then (key, v) ∷ rest else (k, w) ∷ insert key v rest

-- `daemon_config.modules.get(name).copied().unwrap_or(false)`
abbrev pub or_false : Option Bool → Bool
or_false none = false
or_false (some b) = b

unfoldable pub configured : DaemonConfig → Text → Bool
unfolding get
configured c name = or_false (get name c.modules)

module _ (lib : Libbpf) (available : List Text) (disk : Disk) (e : Endian) where
  open lib use {Open, Object}

  abbrev pub Skeletons : Type 0
  Skeletons = List (Text × Skeleton lib)

  -- The autoload hook, over the programs of an object.
  abbrev pub set_program : Option Bool → Text → Open → Open
  set_program none name o = o
  set_program (some b) name o = lib.set_autoload name b o

  unfoldable pub set_programs : Text → Bool → List Text → Open → Open
  unfolding autoload
  set_programs mod_name post_2025 [] o = o
  set_programs mod_name post_2025 (name ∷ rest) o =
      set_programs mod_name post_2025 rest (set_program (autoload mod_name post_2025 name) name o)

  unfoldable pub pre_load_hook : Text → Bool → Open → Open
  unfolding set_programs
  pre_load_hook mod_name post_2025 o = set_programs mod_name post_2025 (lib.programs o) o

  module _ {F : Type 0} where
    -- `get_capacities`: what the module with that slug asks for.
    unfoldable pub get_capacities : Text → Registry F → Capacities × List Line
    unfolding map_capacities find_module
    get_capacities mod_name registry = elim (find_module mod_name registry) [
      | none ↦ ([], [])
      | some m ↦ map_capacities m.declaration disk
    ]

    -- A module that was loaded is kept; one that was not leaves the engine as it was.
    abbrev pub keep_loaded :
        Text → Option (Skeleton lib) → Skeletons × World F → Skeletons × World F
    keep_loaded mod_name none (skels, w) =
        (skels, eprint (lit "· [Fatal] Failed to load module " ∷ str mod_name ∷ []) w)
    keep_loaded mod_name (some skel) (skels, w) = (
      insert mod_name skel skels,
      print (lit "· Loaded and Attached eBPF module: " ∷ str mod_name ∷ []) w,
    )

    -- One round of the loop of `load_modules`.
    unfoldable pub load_one : Bool → Text → Registry F → Skeletons × World F → Skeletons × World F
    unfolding load_module get_capacities pre_load_hook insert
    load_one post_2025 mod_name registry (skels, w) =
        let (capacities, lines) = get_capacities mod_name registry in
        keep_loaded mod_name
          (load_module lib available mod_name capacities (pre_load_hook mod_name post_2025))
          (skels, record w { out = w.out ++ lines })

    unfoldable pub load_all :
        Bool → List Text → Registry F → Skeletons × World F → Skeletons × World F
    unfolding load_one
    load_all post_2025 [] registry s = s
    load_all post_2025 (mod_name ∷ rest) registry s =
        load_all post_2025 rest registry (load_one post_2025 mod_name registry s)

    -- An error of the kernel's flag is a warning.
    abbrev pub warned : Text → Outcome Line (Unit {0}) → World F → World F
    warned mod_name (ok done) w = w
    warned mod_name (err why) w =
        print
          (lit "· [Warning] Failed to initialize kernel state map for "
            ∷ str mod_name
            ∷ lit ": "
            ∷ why)
          w

    -- An error of a module's own set-up is printed, and the object keeps what was done.
    abbrev pub set_up :
        Text
        → Skeleton lib
        → World F
        → Outcome Line (Unit {0}) × Setup Object
        → Skeleton lib × World F
    set_up mod_name skel w (ok done, s) =
        (record skel { object = s.object }, record w { out = s.out; errors = s.errors })
    set_up mod_name skel w (err why, s) = (
      record skel { object = s.object },
      eprint (lit "· [Fatal] Module " ∷ str mod_name ∷ lit " initialization failed: " ∷ why)
          (record w { out = s.out; errors = s.errors }),
    )

    -- `user_mod.init(&provider)`
    abbrev pub init_skeleton :
        Text → Option (SecurityModule F) → Skeleton lib → World F → Skeleton lib × World F
    init_skeleton mod_name none skel w = (skel, w)
    init_skeleton mod_name (some m) skel w = set_up mod_name skel w (
        init_module disk e lib.bpf m.declaration
          (record { object = skel.object; out = w.out; errors = w.errors }))

    -- One round of `initialize_active_modules`.
    unfoldable pub initialize_one :
        DaemonConfig
        → Text
        → Skeleton lib
        → Registry F
        → World F
        → Skeleton lib × Registry F × World F
    unfolding configured set_module_state init_module find_module toggle
    initialize_one config mod_name skel registry w =
        let is_active = configured config mod_name in
        let (synced, skel') = set_module_state lib available e skel mod_name is_active in
        let (skel'', w') =
          init_skeleton mod_name (find_module mod_name registry) skel' (warned mod_name synced w) in
        (skel'', toggle mod_name is_active registry, announced mod_name is_active registry w')

    unfoldable pub initialize_active_modules :
        DaemonConfig → Skeletons → Registry F → World F → Skeletons × Registry F × World F
    unfolding initialize_one
    initialize_active_modules config [] registry w = ([], registry, w)
    initialize_active_modules config ((mod_name, skel) ∷ rest) registry w =
        let (skel', registry', w') = initialize_one config mod_name skel registry w in
        let (rest', registry'', w'') = initialize_active_modules config rest registry' w' in
        ((mod_name, skel') ∷ rest', registry'', w'')

    unfoldable pub load_modules :
        DaemonConfig → Registry F → World F → Skeletons × Registry F × World F
    unfolding is_post_2025_vfs load_all initialize_active_modules
    load_modules config registry w =
        let release = disk.read_file (codes "/proc/sys/kernel/osrelease") in
        let (skels, w') = load_all (is_post_2025_vfs release) available registry ([], w) in
        initialize_active_modules config skels registry w'
