-- ===== src/System/Sync.antt =====
-- The two flags of each module, along every interleaving.
use bouclier_bleu.Base.{Option, List, Text}
use bouclier_bleu.Reader.{Endian, Bytes}
use bouclier_bleu.Host.{FileSystem}
use bouclier_bleu.Loader.{Libbpf}
use bouclier_bleu.Command.{Unicode}
use bouclier_bleu.Actor.Sync.{IsStored, InSync, tick-InSync}
use bouclier_bleu.System.{System, Step, connect, round, Reach, here, next}

module _ (fs : FileSystem) (lib : Libbpf) (available : List Text) (e : Endian)
    (flag_of : lib.Object → Option Bytes) (stored : IsStored fs lib available e flag_of) where
  Step-InSync :
      {wide : Unicode} {s t : System fs lib available e}
      → Step fs lib available e wide s t
      → InSync fs lib available e flag_of s.daemon
      → InSync fs lib available e flag_of t.daemon
  Step-InSync {wide} {s} (connect stream) h = h
  Step-InSync {wide} {s} (round events) h =
      tick-InSync fs lib available e flag_of stored s.channel.pending events s.daemon h

  -- If an update that the kernel accepts can be read back, then however connections and rounds of the
  -- engine interleave, the daemon's flag of a module and the flag in its BPF object stay together,
  -- if they are so at the start.
  pub Reach-InSync :
      {wide : Unicode} {s t : System fs lib available e}
      → InSync fs lib available e flag_of s.daemon
      → Reach fs lib available e wide s t
      → InSync fs lib available e flag_of t.daemon
  Reach-InSync h here = h
  Reach-InSync h (next r st) = Step-InSync st (Reach-InSync h r)
