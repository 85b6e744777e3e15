-- ===== src/Config.antt =====
-- `DaemonConfig::load` of core/src/config.rs. The parser of TOML is a parameter; what the derived
-- deserializer wants of the parsed document is written out: every value under `modules` a Boolean.
pub mod Strict
pub mod Documents
use bouclier_bleu.Base.{
  ℕ, String, Bool, true, false, not, Option, none, some, List, [], ◌∷◌, ◌==◌, if◌then◌else◌,
  text_eq, Text, codes,
}
use bouclier_bleu.Toml.{Toml, Entries, boolean, table, end, entry, get}

-- `HashMap<String, bool>`
abbrev pub States : Type 0
States = List (Text × Bool)

pub record DaemonConfig : Type 0 where
  pub modules : States

abbrev pub default : DaemonConfig
default = record { modules = [] }

-- A file on a search path, as it is opened: its owner, its contents, and the document in them.
-- `none` is an error of that step.
pub record ConfigFile : Type 0 where
  pub owner : Option ℕ
  pub contents : Option Text

-- `Path::exists`, then `File::open`.
pub data Found : Type 0 where
  absent unopened : Found
  opened : ConfigFile → Found

-- The daemon aborts, or has its configuration.
pub data Loaded : Type 0 where
  panic : Loaded
  config : DaemonConfig → Loaded

abbrev pub with_state : Text → Bool → Option States → Option States
with_state key b none = none
with_state key b (some rest) = some ((key, b) ∷ rest)

-- The fields of `modules`: one that is no Boolean is an error.
unfoldable pub states_of : Entries → Option States
states_of end = some []
states_of (entry key (boolean b) rest) = with_state key b (states_of rest)
states_of (entry key _ rest) = none

-- The field `modules`, by default empty.
unfoldable pub modules_of : Option Toml → Option States
unfolding states_of
modules_of none = some []
modules_of (some (table entries)) = states_of entries
modules_of (some _) = none

-- `toml::from_str::<DaemonConfig>`, from the parsed document.
unfoldable pub deserialize : Option Toml → Option DaemonConfig
deserialize (some (table entries)) = elim (modules_of (get (codes "modules") entries)) [
  | none ↦ none
  | some states ↦ some (record { modules = states })
]
deserialize _ = none

module _ (parse_toml : Text → Option Toml) where
  -- The contents that were read: a document that does not fit gives the default.
  unfoldable pub of_contents : Text → Loaded
  of_contents text = elim (deserialize (parse_toml text)) [
    | none ↦ config default
    | some c ↦ config c
  ]

  -- A file that was opened: `none` goes on to the next path.
  unfoldable pub of_file : ConfigFile → Option Loaded
  unfolding of_contents
  of_file f = elim f.owner [
    | none ↦ none
    | some uid ↦
        (if not (uid == 0)
          then some panic
          else elim f.contents [ none ↦ none | some text ↦ some (of_contents text) ])
  ]

  abbrev pub or_next : Option Loaded → Loaded → Loaded
  or_next none later = later
  or_next (some l) later = l

  -- The search paths in order.
  unfoldable pub load : List Found → Loaded
  unfolding of_file
  load [] = config default
  load (absent ∷ rest) = load rest
  load (unopened ∷ rest) = load rest
  load (opened f ∷ rest) = or_next (of_file f) (load rest)
