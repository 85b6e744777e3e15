-- ===== src/Startup.antt =====
-- The start of the daemon: `main` of core/src/main.rs, `start_ipc_server` of core/src/ipc/mod.rs, the ring
-- buffer of core/src/telemetry.rs, and the loop `run` of core/src/actor.rs.
pub mod Guards
pub mod Loop
use bouclier_bleu.Base.{
  ℕ, Bool, true, false, not, ◌&&◌, Option, none, some, List, [], ◌∷◌, ◌++◌, ◌==◌, if◌then◌else◌,
  Text, text_eq, any, keep, codes, contains_text, Line, lit, Outcome, ok, err,
}
use bouclier_bleu.Reader.{Endian}
use bouclier_bleu.Host.{FileSystem, World, eprint}
use bouclier_bleu.Toml.{Toml}
use bouclier_bleu.Config.{Found, DaemonConfig, panic, config, load}
use bouclier_bleu.Watchlist.{Disk}
use bouclier_bleu.Loader.{Libbpf, Skeleton}
use bouclier_bleu.Registry.{Registry, build_registry}
use bouclier_bleu.Engine.{load_modules}
use bouclier_bleu.Command.{Unicode}
use bouclier_bleu.Ipc.{IpcMessage, Channel, Stream}
use bouclier_bleu.Ipc.Setup.{SocketHost, Setting, setup_secure_dir, bind_socket}
use bouclier_bleu.Actor.{Event, Daemon, stage_maps}
use bouclier_bleu.System.{System, serve, advance}
use bouclier_bleu.Exec.{◌>>=◌, ◌>>◌}

-- What `main` reads: the effective user, /sys/kernel/security/lsm, the configuration files, and what
-- libbpf makes of the ring buffer: whether it takes the map of a module, and whether it builds.
pub record Platform : Type 0 where
  pub euid : ℕ
  pub lsm : Option Text
  pub config_files : List Found
  pub adds : Text → Bool
  pub builds : Bool

-- A file that cannot be read does not stop the start.
abbrev pub lsm_inactive : Option Text → Bool
lsm_inactive none = false
lsm_inactive (some lsms) = not (contains_text lsms (codes "bpf"))

-- `bind_ringbuffer`: the modules with a callback, or none where no module has a map.
abbrev pub add_all : (Text → Bool) → List Text → Bool
add_all adds [] = true
add_all adds (name ∷ rest) = adds name && add_all adds rest

unfoldable pub bind_ringbuffer : Platform → List Text → Outcome Line (Option (List Text))
bind_ringbuffer p [] = ok none
bind_ringbuffer p (name ∷ rest) =
    if not (add_all p.adds (name ∷ rest))
    then err (lit "Failed to bind RingBuffer callback" ∷ [])
    else if not p.builds
    then err (lit "Failed to build unified BPF RingBuffer" ∷ [])
    else ok (some (name ∷ rest))

-- What comes in before a round of the engine, and what the ring buffers hold then.
pub record Turn : Type 0 where
  pub streams : List Stream
  -- the listener's thread has not died
  pub listener_lives : Bool
  pub events : List Event

-- `recv_timeout` finds the channel disconnected: nothing waits, and no listener is left to send.
abbrev pub is_disconnected : Bool → List IpcMessage → Bool
is_disconnected listening [] = not listening
is_disconnected listening (msg ∷ rest) = false

module _ (host : SocketHost) (lib : Libbpf) (available : List Text) (e : Endian) where
  open host use {State}

  abbrev pub Sys : Type 1
  Sys = System host.files lib available e

  -- Whether a listener was started: an error is printed, and the sender is dropped.
  abbrev pub listener : Outcome Line (Unit {0}) × Setting State → Bool × Setting State
  listener (ok _, s) = (true, s)
  listener (err why, s) = (false, record s { errors = s.errors ++ why ∷ [] })

  unfoldable pub start_ipc_server : Setting State → Bool × Setting State
  start_ipc_server s = listener ((setup_secure_dir host >> bind_socket host) s)

  -- How `main` gets to the engine's loop, or does not.
  pub data Started : Type 1 where
    exited : ℕ → Started
    panicked : Started
    failed : Line → Started
    running : Bool → ℕ → Option (List Text) → Sys → Started

  abbrev pub channel_128 : Channel
  channel_128 = record { bound = 128; pending = []; connected = true; fresh = 0 }

  -- The channel is made, the listener started, and the engine handed to its loop.
  unfoldable pub control_plane :
      List (Text × Skeleton lib) → Registry State → Option (List Text) → ℕ → World State → Started
  unfolding start_ipc_server
  control_plane skels registry ring umask w =
      let before : Setting State = record { files = w.files; umask = umask; errors = w.errors } in
      let (listening, s) = start_ipc_server before in
      let engine : Daemon host.files lib available e = record {
        registry = registry;
        skeletons = skels;
        world = record w { files = s.files; errors = s.errors };
      } in
      running listening s.umask ring
        (record { channel = channel_128; daemon = engine; replies = [] })

  unfoldable pub telemetry :
      Platform → List (Text × Skeleton lib) × Registry State × World State → ℕ → Started
  unfolding bind_ringbuffer stage_maps control_plane
  telemetry p (skels, registry, w) umask =
      elim (bind_ringbuffer p (stage_maps host.files lib available e skels)) [
        | err why ↦ failed why
        | ok ring ↦ control_plane skels registry ring umask w
      ]

  unfoldable pub main : (Text → Option Toml) → Disk → Platform → ℕ → World State → Started
  unfolding load load_modules telemetry build_registry
  main parse_toml disk p umask w =
      if not (p.euid == 0)
      then exited 1
      else if lsm_inactive p.lsm
      then exited 1
      else elim (load parse_toml p.config_files) [
        | panic ↦ panicked
        | config c ↦ telemetry p (load_modules lib available disk e c build_registry w) umask
      ]

  abbrev pub serve_all : Unicode → List Stream → Sys → Sys
  serve_all wide [] s = s
  serve_all wide (stream ∷ rest) s =
      serve_all wide rest (serve host.files lib available e wide stream s)

  -- Without a listener nobody is served.
  abbrev pub arrive : Bool → Unicode → List Stream → Sys → Sys
  arrive false wide streams s = s
  arrive true wide streams s = serve_all wide streams s

  -- Without a ring buffer nothing is polled; with one, the maps that were bound.
  abbrev pub polled : Option (List Text) → List Event → List Event
  polled none events = []
  polled (some maps) events = keep (λ event. any (text_eq event.source) maps) events

  -- The line that is printed when the control plane is gone.
  abbrev pub farewell : Sys → Sys
  farewell s =
      let d = s.daemon in
      let line : Line = lit "Bouclier Bleu [Fatal]: IPC Control Plane disconnected." ∷ [] in
      record s { daemon = record d { world = eprint line d.world } }

  -- Where the loop stands after the turns: it has left with the control plane gone, or goes on.
  pub record Ended : Type 1 where
    pub system : Sys
    pub has_stopped : Bool

  unfoldable pub run : Bool → Option (List Text) → Unicode → List Turn → Sys → Ended
  run listening ring wide [] s = record { system = s; has_stopped = false }
  run listening ring wide (turn ∷ rest) s =
      let lives = listening && turn.listener_lives in
      let s' = arrive lives wide turn.streams s in
      let later =
        run lives ring wide rest
          (advance host.files lib available e (polled ring turn.events) s') in
      if is_disconnected lives s'.channel.pending
      then record { system = farewell s'; has_stopped = true }
      else later
