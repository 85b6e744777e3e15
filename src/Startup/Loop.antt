-- ===== src/Startup/Loop.antt =====
-- The loop `run` of core/src/actor.rs against the steps of listener and engine in System.
use bouclier_bleu.Base.{◌≡◌, Bool, true, false, ◌&&◌, List, [], ◌∷◌, Text}
use bouclier_bleu.Reader.{Endian}
use bouclier_bleu.Loader.{Libbpf}
use bouclier_bleu.Command.{Unicode}
use bouclier_bleu.Ipc.Setup.{SocketHost}
use bouclier_bleu.System.{Reach}
use bouclier_bleu.Startup.{Turn, Sys, farewell, Ended}

-- Whether the listener lives through all the turns.
abbrev pub outlives : Bool → List Turn → Bool
outlives listening [] = listening
outlives listening (turn ∷ rest) = outlives (listening && turn.listener_lives) rest

module _ (host : SocketHost) (lib : Libbpf) (available : List Text) (e : Endian) where
  abbrev Reached : Unicode → Sys host lib available e → Sys host lib available e → Type 1
  Reached wide s s' = Reach host.files lib available e wide s s'

  -- The loop goes on in a state, or has left it with its last line: nothing waits and the listener died.
  abbrev pub Stands : Bool → Bool → Sys host lib available e → Sys host lib available e → Type 1
  Stands lives false reached stands = stands ≡ reached
  Stands lives true reached stands =
      (stands ≡ farewell host lib available e reached)
      × (reached.channel.pending ≡ [])
      × (lives ≡ false)

  abbrev pub Loops : Unicode → Bool → Sys host lib available e → Ended host lib available e → Type 1
  Loops wide lives s r =
      (reached : Sys host lib available e) × Reach host.files lib available e wide s reached
      × Stands lives r.has_stopped reached r.system
