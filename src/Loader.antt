-- ===== src/Loader.antt =====
-- The loader that core/build.rs generates, `bpf_loader`: it knows a skeleton type for each C file, and
-- opens, sizes, loads and attaches an object of libbpf. Libbpf is a parameter.
use bouclier_bleu.Base.{
  ℕ, Bool, not, Option, none, some, List, [], ◌∷◌, any, text_eq, if◌then◌else◌, Text, codes, Line,
  lit, str, Outcome, ok, err,
}
use bouclier_bleu.Reader.{Endian, Bytes}
use bouclier_bleu.Device.{to_ne_bytes}
use bouclier_bleu.Watchlist.{Bpf}
use bouclier_bleu.Module.{Capacities}

-- Libbpf before an object is loaded, beside the maps of a loaded one.
pub record Libbpf : Type 1 where
  pub bpf : Bpf
  pub open bpf use *
  pub Open : Type 0
  pub open_skel : Text → Option Open
  pub has_open_map : Text → Open → Bool
  pub set_max_entries : Text → ℕ → Open → Open
  pub programs : Open → List Text
  pub set_autoload : Text → Bool → Open → Open
  pub load_skel : Open → Option Object
  -- the kernel's answer, and the object with its links
  pub attach : Object → Option Object

-- A skeleton behind `dyn Any`: the module that its type belongs to, and its object.
pub record Skeleton (lib : Libbpf) : Type 0 where
  pub kind : Text
  pub object : lib.Object

-- The value of the flag, `1u32` or `0u32`.
abbrev pub state_value : Endian → Bool → Bytes
state_value e active = to_ne_bytes e 4 (if active then 1 else 0)

abbrev pub state_key : Endian → Bytes
state_key e = to_ne_bytes e 4 0

abbrev pub state_map : Text
state_map = codes "state_map"

module _ (lib : Libbpf) where
  open lib use {Open, Object, has_map, update}

  -- The capacities that name a map of the object are set; the result of the call is dropped.
  unfoldable pub set_capacities : Capacities → Open → Open
  set_capacities [] o = o
  set_capacities ((name, n) ∷ rest) o =
      set_capacities rest (if lib.has_open_map name o then lib.set_max_entries name n o else o)

  -- `load` and `attach`.
  unfoldable pub load_and_attach : Text → Open → Option (Skeleton lib)
  load_and_attach name o = elim (lib.load_skel o) [
    | none ↦ none
    | some loaded ↦ elim (lib.attach loaded) [
      | none ↦ none
      | some attached ↦ some (record { kind = name; object = attached })
    ]
  ]

  -- One arm of `load_module`.
  unfoldable pub load_arm : Text → Capacities → (Open → Open) → Option (Skeleton lib)
  unfolding set_capacities load_and_attach
  load_arm name capacities hook = elim (lib.open_skel name) [
    | none ↦ none
    | some o ↦ load_and_attach name (hook (set_capacities capacities o))
  ]

  module _ (available : List Text) where
    -- `match name`: the arms are those of the C files.
    unfoldable pub load_module : Text → Capacities → (Open → Open) → Option (Skeleton lib)
    unfolding load_arm
    load_module name capacities hook =
        if any (text_eq name) available then load_arm name capacities hook else none

    -- The flag is written if the object has a `state_map`.
    unfoldable pub update_state :
        Endian → Skeleton lib → Bool → Outcome Line (Unit {0}) × Skeleton lib
    update_state e skel active =
        if has_map state_map skel.object
        then elim (update state_map (state_key e) (state_value e active) skel.object) [
          | ok o ↦ (ok tt, record skel { object = o })
          | err why ↦ (err why, skel)
        ]
        else (ok tt, skel)

    unfoldable pub set_module_state :
        Endian → Skeleton lib → Text → Bool → Outcome Line (Unit {0}) × Skeleton lib
    unfolding update_state
    set_module_state e skel name active =
        if not (any (text_eq name) available)
        then (err (lit "Unknown eBPF module '" ∷ str name ∷ lit "'" ∷ []), skel)
        else if text_eq skel.kind name
        then update_state e skel active
        else (
          err (lit "Type downcast failed for module skeleton '" ∷ str name ∷ lit "'" ∷ []),
          skel,
        )

    -- `get_map`: whether the skeleton has the map.
    unfoldable pub get_skeleton_map : Skeleton lib → Text → Outcome Line (Unit {0})
    get_skeleton_map skel name =
        if not (any (text_eq skel.kind) available)
        then err (
            lit "Type downcast failed or map '"
            ∷ str name
            ∷ lit "' not found across all registered modules."
            ∷ [])
        else if has_map name skel.object
        then ok tt
        else err (lit "Map '" ∷ str name ∷ lit "' not found in module skeleton" ∷ [])
