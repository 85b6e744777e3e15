-- ===== src/Ipc.antt =====
-- The connection handler of core/src/ipc/handler.rs: the peer's credentials, the timeouts, the command,
-- the bounded channel to the engine and the reply.
pub mod Setup
pub mod Guarded
pub mod Delivery
use bouclier_bleu.Base.{
  ℕ, ◌+◌, String, Bool, true, false, not, Option, none, some, List, [], ◌∷◌, ◌++◌, length, ltb,
  ◌==◌, if◌then◌else◌, Line, lit, num, Outcome, ok, err,
}
use bouclier_bleu.Reader.{Bytes}
use bouclier_bleu.Command.{DaemonCmd, Unicode, parse_command}

-- A command with the channel that its reply goes to.
pub record IpcMessage : Type 0 where
  pub cmd : DaemonCmd
  pub reply : ℕ

-- The `sync_channel` between the listener and the engine.
pub record Channel : Type 0 where
  pub bound : ℕ
  pub pending : List IpcMessage
  pub connected : Bool
  -- the next reply channel
  pub fresh : ℕ

-- A connection: what the kernel says of the peer, whether the timeouts are set, what the peer sends,
-- and what the engine replies within five seconds.
pub record Stream : Type 0 where
  pub peer_uid : Option ℕ
  pub read_timeout_set : Bool
  pub write_timeout_set : Bool
  pub sent : Option Bytes
  pub response : Option Line

pub data Sending : Type 0 where
  sent full disconnected : Sending

-- `tx.try_send`
unfoldable pub try_send : DaemonCmd → Channel → Sending × Channel
try_send cmd ch =
    if not ch.connected
    then (disconnected, ch)
    else if ltb (length ch.pending) ch.bound
    then (
      Sending.sent,
      record ch {
        pending = ch.pending ++ (record { cmd = cmd; reply = ch.fresh }) ∷ [];
        fresh = ch.fresh + 1;
      },
    )
    else (full, ch)

unfoldable pub verify_peercred : Option ℕ → Outcome Line (Unit {0})
verify_peercred none = err (
    lit "SECURITY ERROR: Kernel failed to yield peer credentials: "
    ∷ lit ". Dropping connection."
    ∷ [])
verify_peercred (some uid) =
    if not (uid == 0)
    then err (
        lit "SECURITY ALERT: Non-root process (UID: "
        ∷ num uid
        ∷ lit ") attempted IPC connection."
        ∷ [])
    else ok tt

-- The reply that was awaited, or the timeout.
abbrev pub awaited : Option Line → Line
awaited none = lit "ERROR: Engine operation timed out or panicked.\n" ∷ []
awaited (some line) = line

-- What `dispatch_command` hands back is written to the peer, on every branch.
abbrev pub dispatched : Stream → Sending × Channel → List Line × Channel
dispatched s (Sending.sent, ch) = (awaited s.response ∷ [], ch)
dispatched s (full, ch) =
    ((lit "ERROR: Daemon is busy or overwhelmed. Try again later.\n" ∷ []) ∷ [], ch)
dispatched s (disconnected, ch) =
    ((lit "FATAL: Core engine has crashed. Channel disconnected.\n" ∷ []) ∷ [], ch)

unfoldable pub dispatch_command : DaemonCmd → Stream → Channel → List Line × Channel
unfolding try_send
dispatch_command cmd s ch = dispatched s (try_send cmd ch)

-- What follows the parse: a command is dispatched, nothing is answered to an empty one.
unfoldable pub respond : Outcome String (Option DaemonCmd) → Stream → Channel → List Line × Channel
unfolding dispatch_command
respond (ok none) s ch = ([], ch)
respond (ok (some cmd)) s ch = dispatch_command cmd s ch
respond (err why) s ch = ((lit "ERROR: Unknown command received.\n" ∷ []) ∷ [], ch)

-- The lines written to the peer, and the channel.
unfoldable pub handle_connection : Unicode → Stream → Channel → List Line × Channel
handle_connection wide s ch = elim (verify_peercred s.peer_uid) [
  | err why ↦ ((lit "ERROR: Permission denied. Root access required.\n" ∷ []) ∷ [], ch)
  | ok _ ↦
      (if not s.read_timeout_set
        then ([], ch)
        else if not s.write_timeout_set
        then ([], ch)
        else respond (parse_command wide s.sent) s ch)
]
