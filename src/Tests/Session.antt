-- ===== src/Tests/Session.antt =====
-- An example of a whole session: root's client enables the shield.
use bouclier_bleu.Base.{
  ◌≡◌, refl, some, [], ◌∷◌, ◌++◌, codes, text_eq, arith, Text, List, is_whitespace,
}
use bouclier_bleu.Reader.{little}
use bouclier_bleu.Command.{DaemonCmd, Commands}
use bouclier_bleu.Command.RoundTrip.{IsName}
use bouclier_bleu.Ipc.{Stream}
use bouclier_bleu.Client.{main}
use bouclier_bleu.Loader.{set_module_state, update_state}
use bouclier_bleu.Registry.{status_of}
use bouclier_bleu.Engine.{get}
use bouclier_bleu.Actor.{handle_all, handle_command, toggle_module}
use bouclier_bleu.Actor.Toggles.{flag_after}
use bouclier_bleu.System.{System}
use bouclier_bleu.System.Session.{link_to, shown, turn, ready, served, session}
use bouclier_bleu.Tests.Samples.{small_files, flag_lib, connection, empty_channel, plain, bytes_of}
use bouclier_bleu.Tests.Control.{started, events}

abbrev shield : List Text
shield = codes "shield" ∷ []

abbrev quiet : System small_files flag_lib shield little
quiet = record { channel = empty_channel; daemon = started; replies = [] }

abbrev enable_shield : Commands
enable_shield = Commands.enable (codes "shield")

abbrev answer_text : Text
answer_text = codes "SUCCESS: Defense module 'shield' ENABLED via state synchronization\n"

-- The engine's reply reaches the client in time.
abbrev client : Stream
client = record (connection (some 0) []) {
  response = some (turn small_files flag_lib shield little enable_shield quiet).0;
}

shield-IsName : IsName (codes "shield")
shield-IsName = record {
  ascii = (omega arith);
  word = (unfold is_whitespace in (refl, (refl, (refl, (refl, (refl, (refl, tt)))))));
  ne_nil = λ h. cc h;
  fits = omega arith;
}

answered : bytes_of (turn small_files flag_lib shield little enable_shield quiet).0 ≡ answer_text
unfolding handle_command toggle_module get text_eq set_module_state update_state handle_all
answered = refl

session_example :
    (main (λ bytes. some bytes) enable_shield (link_to plain bytes_of client empty_channel)
      ≡ shown answer_text)
    × ((served small_files flag_lib shield little enable_shield quiet plain client
          events).channel.pending
        ≡ [])
    × ((served small_files flag_lib shield little enable_shield quiet plain client events).replies
        ≡ []
          ++ ((handle_all small_files flag_lib shield little [] started).0
              ++ (0, (turn small_files flag_lib shield little enable_shield quiet).0) ∷ []))
    × ((j : Text)
        → status_of j
            (served small_files flag_lib shield little enable_shield quiet plain client
              events).daemon.registry
          ≡ flag_after small_files flag_lib shield little
              (DaemonCmd.enable (codes "shield"))
              (ready small_files flag_lib shield little enable_shield quiet)
              j)
unfolding handle_command toggle_module get text_eq set_module_state update_state handle_all
session_example =
    session small_files flag_lib shield little plain bytes_of (λ bytes. some bytes) enable_shield
      client quiet events answer_text shield-IsName (refl, refl, refl) refl (omega arith)
      (omega arith) refl refl
