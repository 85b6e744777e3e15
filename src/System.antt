-- ===== src/System.antt =====
-- The two threads of the daemon: the listener of core/src/ipc/mod.rs, which takes one connection after
-- another, and the engine of core/src/actor.rs, with the channel between them. They run in any order;
-- here a connection reaches the channel at once, and a round of the engine is one step.
pub mod Order
pub mod Atomic
pub mod Drain
pub mod Sync
pub mod Session
use bouclier_bleu.Base.{ℕ, List, [], ◌++◌, drop, length, Text, Line}
use bouclier_bleu.Reader.{Endian}
use bouclier_bleu.Host.{FileSystem}
use bouclier_bleu.Loader.{Libbpf}
use bouclier_bleu.Command.{Unicode}
use bouclier_bleu.Ipc.{IpcMessage, Channel, Stream, handle_connection}
use bouclier_bleu.Actor.{Event, Daemon, tick}

module _ (fs : FileSystem) (lib : Libbpf) (available : List Text) (e : Endian) where
  -- The channel, what the engine owns, and the replies that it has sent.
  pub record System : Type 1 where
    pub channel : Channel
    pub daemon : Daemon fs lib available e
    pub replies : List (ℕ × Line)

  -- The listener's loop takes the next stream of `incoming()`.
  abbrev pub serve : Unicode → Stream → System → System
  serve wide stream s = record s { channel = (handle_connection wide stream s.channel).1 }

  -- The engine's loop goes around once.
  abbrev pub advance : List Event → System → System
  advance events s =
      let round = tick fs lib available e s.channel.pending events s.daemon in
      record {
        channel = record s.channel { pending = round.pending };
        daemon = round.daemon;
        replies = s.replies ++ round.replies;
      }

  pub data Step (wide : Unicode) (s : System) : System → Type 1 where
    connect : (stream : Stream) → Step wide s (serve wide stream s)
    round : (events : List Event) → Step wide s (advance events s)

  pub data Reach (wide : Unicode) (s : System) : System → Type 1 where
    here : Reach wide s s
    next : {t u : System} → Reach wide s t → Step wide t u → Reach wide s u

  -- The messages that a step, and the steps to a state, put in the channel.
  abbrev pub queued_by : {wide : Unicode} {s t : System} → Step wide s t → List IpcMessage
  queued_by {wide} {s} (connect stream) =
      drop (length s.channel.pending) (handle_connection wide stream s.channel).1.pending
  queued_by (round events) = []

  abbrev pub queued_along : {wide : Unicode} {s t : System} → Reach wide s t → List IpcMessage
  queued_along here = []
  queued_along (next r st) = queued_along r ++ queued_by st

  -- The events that they poll.
  abbrev pub polled_by : {wide : Unicode} {s t : System} → Step wide s t → List Event
  polled_by (connect stream) = []
  polled_by (round events) = events

  abbrev pub polled_along : {wide : Unicode} {s t : System} → Reach wide s t → List Event
  polled_along here = []
  polled_along (next r st) = polled_along r ++ polled_by st
