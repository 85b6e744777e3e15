-- ===== src/Startup/Guards.antt =====
-- What holds when `main` leaves early, and when it gets to the engine's loop.
use bouclier_bleu.Base.{
  contains_text, codes, none, some, ℕ, ◌≡◌, ◌≢◌, ◌⊎◌, Bool, true, false, Option, List, [], Text,
}
use bouclier_bleu.Reader.{Endian}
use bouclier_bleu.Toml.{Toml}
use bouclier_bleu.Config.{panic, load}
use bouclier_bleu.Loader.{Libbpf}
use bouclier_bleu.Registry.{Registry}
use bouclier_bleu.Ipc.Setup.{SocketHost, socket_path}
use bouclier_bleu.Ipc.Setup.Umask.{IsRoots}
use bouclier_bleu.Startup.{Platform, add_all, Started, exited, panicked, failed, running}

-- The kernel's list of security modules was read and does not name BPF.
abbrev pub LacksBpf : Option Text → Type 0
LacksBpf o = (lsms : Text) × (o ≡ some lsms) × (contains_text lsms (codes "bpf") ≡ false)

-- It names BPF, or could not be read.
abbrev pub MayHaveBpf : Option Text → Type 0
MayHaveBpf o =
    (o ≡ none) ⊎ ((lsms : Text) × (o ≡ some lsms) × (contains_text lsms (codes "bpf") ≡ true))

module _ (host : SocketHost) (lib : Libbpf) (available : List Text) (e : Endian) where
  open host use {State}

  -- With a listener the umask is as it was before, and a socket that can be looked at is root's and no link.
  abbrev pub Listens : ℕ → Bool → ℕ → State → Type 0
  Listens umask false u files = Unit
  Listens umask true u files = (u ≡ umask) × IsRoots host (host.symlink_metadata socket_path files)

  -- The conditions of each way that the start can end.
  abbrev pub Guarded : (Text → Option Toml) → Platform → ℕ → Started host lib available e → Type 0
  Guarded parse_toml p umask (exited code) = (code ≡ 1) × ((p.euid ≢ 0) ⊎ LacksBpf p.lsm)
  Guarded parse_toml p umask panicked = load parse_toml p.config_files ≡ panic
  Guarded parse_toml p umask (failed why) =
      (maps : List Text) × ((add_all p.adds maps ≡ false) ⊎ (p.builds ≡ false))
  Guarded parse_toml p umask (running listening u ring s) =
      (p.euid ≡ 0)
      × MayHaveBpf p.lsm
      × Listens umask listening u s.daemon.world.files
      × (s.channel.bound ≡ 128)
      × (s.channel.pending ≡ [])
      × (s.replies ≡ [])
