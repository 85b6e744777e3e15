-- ===== src/Actor.antt =====
-- `DaemonActor` of core/src/actor.rs and the telemetry callbacks of core/src/telemetry.rs: the engine's
-- loop, which answers commands from the channel and then polls the ring buffers.
pub mod Sync
pub mod Toggles
pub mod Rounds
use bouclier_bleu.Base.{
  ℕ, ◌+◌, String, Bool, true, false, Option, none, some, List, [], ◌∷◌, ◌++◌, text_eq,
  if◌then◌else◌, take, drop, Text, codes, Line, lit, num, str, Outcome, ok, err,
}
use bouclier_bleu.Reader.{Endian, Bytes}
use bouclier_bleu.Host.{FileSystem, Readings, World}
use bouclier_bleu.Module.{process_event}
use bouclier_bleu.Loader.{Libbpf, Skeleton, set_module_state, get_skeleton_map}
use bouclier_bleu.Registry.{SecurityModule, Registry, slug, find_module, toggle, announced}
use bouclier_bleu.Command.{DaemonCmd, status, list, enable, disable}
use bouclier_bleu.Ipc.{IpcMessage}
use bouclier_bleu.Engine.{Skeletons, get, insert}

-- An event of a ring buffer: the module whose map it is in, its bytes, and what the handler
-- reads from outside.
pub record Event : Type 0 where
  pub source : Text
  pub bytes : Bytes
  pub env : Readings

-- The round's first message and ten more are handled, then the ring buffers are polled.
abbrev pub drained : ℕ
drained = 11

module _ (fs : FileSystem) (lib : Libbpf) (available : List Text) (e : Endian) where
  pub record Daemon : Type 1 where
    pub registry : Registry fs.State
    pub skeletons : List (Text × Skeleton lib)
    pub world : World fs.State

  -- The reply to `List`: a line for each module.
  abbrev pub state_label : Bool → String
  state_label true = "[ACTIVE]  "
  state_label false = "[INACTIVE]"

  unfoldable pub list_modules : Registry fs.State → Line
  list_modules [] = []
  list_modules (m ∷ rest) =
      lit " "
      ∷ lit (state_label m.is_active)
      ∷ lit " "
      ∷ str (slug m)
      ∷ lit " ("
      ∷ lit m.declaration.name
      ∷ lit ")\n"
      ∷ list_modules rest

  abbrev pub state_str : Bool → String
  state_str true = "ENABLED"
  state_str false = "DISABLED"

  -- The kernel's flag was written, or was not: only then is the module's own flag left alone.
  abbrev pub synchronised :
      Text → Bool → Daemon → Outcome Line (Unit {0}) × Skeleton lib → Line × Daemon
  synchronised target on d (ok _, skel) = (
    lit "SUCCESS: Defense module '"
        ∷ str target
        ∷ lit "' "
        ∷ lit (state_str on)
        ∷ lit " via state synchronization\n"
        ∷ [],
    record {
      registry = toggle target on d.registry;
      skeletons = insert target skel d.skeletons;
      world = announced target on d.registry d.world;
    },
  )
  synchronised target on d (err why, skel) = (
    lit "ERROR: Failed to update kernel state for '"
        ∷ str target
        ∷ lit "': "
        ∷ (why ++ lit "\n" ∷ []),
    record d { skeletons = insert target skel d.skeletons },
  )

  -- The reply where the module is not loaded.
  abbrev pub not_loaded : Text → Bool → Line
  not_loaded target true =
      lit "ERROR: Module '"
      ∷ str target
      ∷ lit
          "' is not loaded in kernel memory. Check daemon boot logs or restart the service to load new modules.\n"
      ∷ []
  not_loaded target false =
      lit "ERROR: Module '" ∷ str target ∷ lit "' is not currently active\n" ∷ []

  unfoldable pub toggle_module : Text → Bool → Daemon → Line × Daemon
  toggle_module target on d = elim (get target d.skeletons) [
    | none ↦ (not_loaded target on, d)
    | some skel ↦ synchronised target on d (set_module_state lib available e skel target on)
  ]

  unfoldable pub handle_command : DaemonCmd → Daemon → Line × Daemon
  unfolding toggle_module list_modules
  handle_command status d = (lit "Bouclier Bleu EDR Status: Kernel Engine Running\n" ∷ [], d)
  handle_command list d = (lit "MODULE REGISTRY:\n" ∷ list_modules d.registry, d)
  handle_command (enable target) d = toggle_module target true d
  handle_command (disable target) d = toggle_module target false d

  -- Messages handled one after another, with the replies sent.
  unfoldable pub handle_all : List IpcMessage → Daemon → List (ℕ × Line) × Daemon
  unfolding handle_command
  handle_all [] d = ([], d)
  handle_all (msg ∷ rest) d =
      let (line, d') = handle_command msg.cmd d in
      let (replies, d'') = handle_all rest d' in ((msg.reply, line) ∷ replies, d'')

  -- The callback of a ring buffer: the event goes to the module with its map's slug.
  unfoldable pub on_event : Event → Daemon → Daemon
  on_event event d = elim (find_module event.source d.registry) [
    | none ↦ d
    | some m ↦ record d {
      world = process_event fs m.declaration e m.is_active event.bytes event.env d.world;
    }
  ]

  unfoldable pub poll : List Event → Daemon → Daemon
  unfolding on_event
  poll [] d = d
  poll (event ∷ rest) d = poll rest (on_event event d)

  -- What one round leaves: the replies, the messages not yet handled, and the daemon.
  pub record Round : Type 1 where
    pub replies : List (ℕ × Line)
    pub pending : List IpcMessage
    pub daemon : Daemon

  -- One round of `run` while the channel is connected: the queued messages, and the ring buffers'
  -- events if there is one.
  unfoldable pub tick : List IpcMessage → List Event → Daemon → Round
  unfolding handle_all poll
  tick queue events d =
      let (replies, d') = handle_all (take drained queue) d in
      record { replies = replies; pending = drop drained queue; daemon = poll events d' }

  -- `stage_maps`: the modules whose object has a map `alerts`.
  unfoldable pub stage_maps : List (Text × Skeleton lib) → List Text
  unfolding get_skeleton_map
  stage_maps [] = []
  stage_maps ((name, skel) ∷ rest) = elim (get_skeleton_map lib available skel (codes "alerts")) [
    | ok _ ↦ name ∷ stage_maps rest
    | err _ ↦ stage_maps rest
  ]
