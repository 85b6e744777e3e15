-- ===== src/Tests/Control.antt =====
-- Examples of the control socket and of the engine's loop.
use bouclier_bleu.Base.{
  ◌≡◌, refl, ◌≤◌, true, false, Option, some, List, [], ◌∷◌, ◌++◌, length, codes, arith, map, Line,
  Outcome, ok, is_whitespace, text_eq, text_eq_iff, Bool-cases, inl, inr,
}
use bouclier_bleu.Reader.{little, Bytes}
use bouclier_bleu.Command.{DaemonCmd, Commands, parse_command, payload}
use bouclier_bleu.Command.RoundTrip.{IsName, parse-payload}
use bouclier_bleu.Ipc.{IpcMessage, handle_connection}
use bouclier_bleu.Ipc.Guarded.{Reaches, handle_connection-Reaches}
use bouclier_bleu.Loader.{state_value, set_module_state}
use bouclier_bleu.Registry.{build_registry, status_of}
use bouclier_bleu.Engine.{get}
use bouclier_bleu.Actor.{Event, Daemon, handle_command, tick}
use bouclier_bleu.Actor.Sync.{IsStored, InSync, tick-InSync}
use bouclier_bleu.Actor.Toggles.{handle_command-status}
use bouclier_bleu.Actor.Rounds.{tick-replies}
use bouclier_bleu.Tests.Samples.{
  small_files, idle, reading, flag_lib, skeleton, connection, empty_channel, plain,
}

is_name : IsName (codes "io")
is_name = record {
  ascii = (omega arith, (omega arith, tt));
  word = (unfold is_whitespace in refl, (unfold is_whitespace in refl, tt));
  ne_nil = λ h. cc h;
  fits = omega arith;
}

parse-payload_example :
    parse_command plain (some (payload (Commands.enable (codes "io"))))
    ≡ ok (some (DaemonCmd.enable (codes "io")))
parse-payload_example = parse-payload plain (Commands.enable (codes "io")) is_name

handle_connection-Reaches_example :
    Reaches plain
      (connection (some 0) (codes "LIST"))
      empty_channel
      (handle_connection plain (connection (some 0) (codes "LIST")) empty_channel).1
handle_connection-Reaches_example =
    handle_connection-Reaches plain (connection (some 0) (codes "LIST")) empty_channel

-- One module is loaded, and the flag of its object is 0.
abbrev pub started : Daemon small_files flag_lib (codes "shield" ∷ []) little
started = record {
  registry = build_registry;
  skeletons = (codes "shield", skeleton (codes "shield") (some (state_value little false))) ∷ [];
  world = idle true;
}

pub stores : IsStored small_files flag_lib (codes "shield" ∷ []) little (λ o. o)
stores v o o' h =
    let same : ◌≡◌ {A = Outcome Line (Option Bytes)} (ok (some v)) (ok o') = h in cc same

pub in_sync : InSync small_files flag_lib (codes "shield" ∷ []) little (λ o. o) started
unfolding get status_of build_registry text_eq
in_sync j = elim (Bool-cases (text_eq (codes "shield") j)) [
  | inl here ↦
      let same : codes "shield" ≡ j = (text_eq_iff (codes "shield") j).0 here in rw (← same) refl
  | inr other ↦ rw other tt
]

abbrev queue : List IpcMessage
queue =
    (record { cmd = DaemonCmd.enable (codes "shield"); reply = 0 })
    ∷ (record { cmd = DaemonCmd.status; reply = 1 })
    ∷ []

abbrev pub events : List Event
events = (record { source = codes "shield"; bytes = 1 ∷ []; env = reading 0 }) ∷ []

tick-InSync_example :
    InSync small_files flag_lib
      (codes "shield" ∷ [])
      little
      (λ o. o)
      (tick small_files flag_lib (codes "shield" ∷ []) little queue events started).daemon
tick-InSync_example =
    tick-InSync small_files flag_lib (codes "shield" ∷ []) little (λ o. o) stores queue events
      started in_sync

tick-replies_example :
    (handled : List IpcMessage) × (handled
        ++ (tick small_files flag_lib (codes "shield" ∷ []) little queue events started).pending
      ≡ queue)
    × (map
          (λ r. r.0)
          (tick small_files flag_lib (codes "shield" ∷ []) little queue events started).replies
        ≡ map (λ m. m.reply) handled)
    × (length handled ≤ 11)
tick-replies_example =
    tick-replies small_files flag_lib (codes "shield" ∷ []) little queue events started

handle_command-status_example :
    status_of
      (codes "shield")
      (handle_command small_files flag_lib
        (codes "shield" ∷ [])
        little
        (DaemonCmd.enable (codes "shield"))
        started).1.registry
    ≡ some true
unfolding get status_of build_registry text_eq set_module_state
handle_command-status_example =
    handle_command-status small_files flag_lib (codes "shield" ∷ []) little
      (DaemonCmd.enable (codes "shield")) started (codes "shield")
