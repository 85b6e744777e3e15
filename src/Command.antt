-- ===== src/Command.antt =====
-- The control protocol: `DaemonCmd` of core/src/ipc/types.rs, `parse_command` of
-- core/src/ipc/handler.rs, and the payloads that cli/src/main.rs sends.
pub mod RoundTrip
use bouclier_bleu.Base.{
  ℕ, String, Bool, ◌&&◌, Option, none, some, List, [], ◌∷◌, ◌++◌, ltb, if◌then◌else◌, take, Text,
  codes, text_eq, trim, is_whitespace, split_whitespace, to_ascii_upper, Outcome, ok, err,
}
use bouclier_bleu.Base.Utf8.{from_utf8_lossy}
use bouclier_bleu.Reader.{Bytes}

pub data DaemonCmd : Type 0 where
  status : DaemonCmd
  list : DaemonCmd
  enable : Text → DaemonCmd
  disable : Text → DaemonCmd

-- `char::to_uppercase` beyond ASCII: the tables of Unicode.
abbrev pub Unicode : Type 0
Unicode = ℕ → Text

module _ (wide : Unicode) where
  unfoldable pub char_upper : ℕ → Text
  char_upper c = if ltb c 0x80 then to_ascii_upper c ∷ [] else wide c

  -- `str::to_uppercase`
  unfoldable pub to_uppercase : Text → Text
  unfolding char_upper
  to_uppercase [] = []
  to_uppercase (c ∷ cs) = char_upper c ++ to_uppercase cs

  -- The match on the first word in upper case, with the words behind it.
  unfoldable pub command_of : Text → List Text → Outcome String (Option DaemonCmd)
  command_of verb [] =
      if text_eq verb (codes "STATUS")
      then ok (some status)
      else if text_eq verb (codes "LIST")
      then ok (some list)
      else err "Unknown command"
  command_of verb (target ∷ rest) =
      if text_eq verb (codes "STATUS")
      then ok (some status)
      else if text_eq verb (codes "LIST")
      then ok (some list)
      else if text_eq verb (codes "ENABLE")
      then ok (some (enable target))
      else if text_eq verb (codes "DISABLE")
      then ok (some (disable target))
      else err "Unknown command"

  unfoldable pub command_of_words : List Text → Outcome String (Option DaemonCmd)
  command_of_words [] = ok none
  command_of_words (verb ∷ rest) = command_of (to_uppercase verb) rest

  -- The bytes that were read, at most 1024.
  unfoldable pub parse_buffer : Bytes → Outcome String (Option DaemonCmd)
  parse_buffer [] = ok none
  parse_buffer (b ∷ bs) =
      command_of_words (split_whitespace (trim is_whitespace (from_utf8_lossy (b ∷ bs))))

  -- What the client sends until it shuts its side down; `none` is a read error.
  unfoldable pub parse_command : Option Bytes → Outcome String (Option DaemonCmd)
  parse_command none = err "Read error"
  parse_command (some sent) = parse_buffer (take 1024 sent)

-- The subcommands of the client, and `main`'s translation into a payload.
pub data Commands : Type 0 where
  status list : Commands
  enable disable : Text → Commands

unfoldable pub payload : Commands → Text
payload Commands.status = codes "STATUS"
payload Commands.list = codes "LIST"
payload (Commands.enable name) = codes "ENABLE " ++ name
payload (Commands.disable name) = codes "DISABLE " ++ name
