-- ===== src/Client.antt =====
-- The client of cli/src/main.rs: one subcommand, one connection, and the answer that is printed.
use bouclier_bleu.Base.{
  ℕ, Bool, not, Option, none, some, List, [], ◌∷◌, take, Text, Line, lit, str, trim_end,
  is_whitespace, if◌then◌else◌,
}
use bouclier_bleu.Reader.{Bytes}
use bouclier_bleu.Command.{Commands, payload}

-- The connection as the client finds it: whether it is made, whether the command is written, and what
-- comes back until the daemon closes it; `none` is a read error.
pub record Link : Type 0 where
  pub connects : Bool
  pub writes : Text → Bool
  pub received : Text → Option Bytes

-- The exit status, and the lines printed and printed as errors.
pub record Report : Type 0 where
  pub status : ℕ
  pub out : List Line
  pub errors : List Line

abbrev failure : List Line → Report
failure errors = record { status = 1; out = []; errors = errors }

-- The check of `read_to_string` that what came is UTF-8 is a parameter.
module _ (from_utf8 : Bytes → Option Text) where
  abbrev pub decoded : Option Bytes → Option Text
  decoded none = none
  decoded (some bytes) = from_utf8 (take 4096 bytes)

  abbrev pub printed : Option Text → Report
  printed none = failure ((lit "Failed to read daemon response" ∷ []) ∷ [])
  printed (some response) = record {
    status = 0;
    out = (str (trim_end is_whitespace response) ∷ []) ∷ [];
    errors = [];
  }

  unfoldable pub send_command_to_daemon : Text → Link → Report
  unfolding trim_end is_whitespace
  send_command_to_daemon cmd link =
      if not link.connects
      then failure (
          (lit "Failed to connect to Bouclier Bleu daemon." ∷ [])
          ∷ (lit "Error" ∷ [])
          ∷ (lit
                "Make sure the core engine is running and you are executing this CLI as root (sudo)."
              ∷ [])
          ∷ [])
      else if not (link.writes cmd)
      then failure ((lit "Failed to send command over IPC" ∷ []) ∷ [])
      else printed (decoded (link.received cmd))

  unfoldable pub main : Commands → Link → Report
  unfolding payload send_command_to_daemon
  main command link = send_command_to_daemon (payload command) link
