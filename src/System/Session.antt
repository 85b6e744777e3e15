-- ===== src/System/Session.antt =====
-- A subcommand from the client to the kernel and back: the client, the connection, the channel and a
-- round of the engine.
use bouclier_bleu.Base.{
  ◌<◌, ◌≤◌, ◌≡◌, refl, ap, ◌∙◌, true, Option, some, List, [], ◌∷◌, ◌++◌, take, take_all, drop_all,
  length, length-append, append-nil, arith, Text, Line, str, trim_end, is_whitespace, Option-cases,
  inl, inr,
}
use bouclier_bleu.Reader.{Endian, Bytes}
use bouclier_bleu.Host.{FileSystem}
use bouclier_bleu.Loader.{Libbpf}
use bouclier_bleu.Registry.{status_of, find_module}
use bouclier_bleu.Command.{Unicode, Commands, payload}
use bouclier_bleu.Command.RoundTrip.{IsSendable, request}
use bouclier_bleu.Ipc.{IpcMessage, Channel, Stream, handle_connection}
use bouclier_bleu.Ipc.Guarded.{IsTrusted}
use bouclier_bleu.Ipc.Delivery.{handle_connection-payload}
use bouclier_bleu.Client.{Link, Report, main, send_command_to_daemon}
use bouclier_bleu.Actor.{Event, Daemon, handle_command, handle_all, on_event, poll, tick, drained}
use bouclier_bleu.Actor.Toggles.{flag_after, handle_command-status}
use bouclier_bleu.System.{System, serve, advance}

-- What the daemon writes to its peer, line after line, in bytes.
abbrev pub written : (Line → Bytes) → List Line → Bytes
written render [] = []
written render (line ∷ rest) = render line ++ written render rest

abbrev pub asking : Text → Stream → Stream
asking cmd stream = record stream { sent = some cmd }

-- The client's end of a connection that the daemon handles.
abbrev pub link_to : Unicode → (Line → Bytes) → Stream → Channel → Link
link_to wide render stream ch = record {
  connects = true;
  writes = λ cmd. true;
  received = λ cmd. some (written render (handle_connection wide (asking cmd stream) ch).0);
}

-- What the client prints where the daemon's bytes are this text.
abbrev pub shown : Text → Report
shown text = record { status = 0; out = (str (trim_end is_whitespace text) ∷ []) ∷ []; errors = [] }

module _ (fs : FileSystem) (lib : Libbpf) (available : List Text) (e : Endian) where
  abbrev pub Engine : Type 1
  Engine = Daemon fs lib available e

  -- The engine's turn at a message behind others.
  handle_all-append :
      (queue : List IpcMessage) (msg : IpcMessage) (d : Engine)
      → let before = handle_all fs lib available e queue d in
        let turn = handle_command fs lib available e msg.cmd before.1 in
        handle_all fs lib available e (queue ++ msg ∷ []) d
        ≡ (before.0 ++ (msg.reply, turn.0) ∷ [], turn.1)
  unfolding handle_all
  handle_all-append [] msg d = refl
  handle_all-append (m ∷ queue) msg d =
      let (line, d') = handle_command fs lib available e m.cmd d in
      rw (handle_all-append queue msg d') refl

  registry-on_event :
      (event : Event) (d : Engine) → (on_event fs lib available e event d).registry ≡ d.registry
  unfolding on_event
  registry-on_event event d = elim (Option-cases (find_module event.source d.registry)) [
    | inl unknown ↦ rw (on_event, unknown) refl
    | inr (m, known) ↦ rw (on_event, known) refl
  ]

  registry-poll :
      (events : List Event) (d : Engine) → (poll fs lib available e events d).registry ≡ d.registry
  unfolding poll
  registry-poll [] d = refl
  registry-poll (event ∷ rest) d = registry-poll rest _ ∙ registry-on_event event d

  -- A round that finds fewer messages than it can take, and one more.
  tick-append :
      (queue : List IpcMessage) (msg : IpcMessage) (events : List Event) (d : Engine)
      → length queue < 11
      → let before = handle_all fs lib available e queue d in
        let turn = handle_command fs lib available e msg.cmd before.1 in
        tick fs lib available e (queue ++ msg ∷ []) events d ≡ record {
          replies = before.0 ++ (msg.reply, turn.0) ∷ [];
          pending = [];
          daemon = poll fs lib available e events turn.1;
        }
  unfolding tick
  tick-append queue msg events d short =
      let fits : length (queue ++ msg ∷ []) ≤ 11 = omega (arith, length-append queue (msg ∷ [])) in
      rw (take_all drained (queue ++ msg ∷ []) fits, drop_all drained (queue ++ msg ∷ []) fits)
        (rw (handle_all-append queue msg d) refl)

  module _ (c : Commands) (s : System fs lib available e) where
    -- The engine when the command's turn comes, behind the messages that waited.
    abbrev pub ready : Engine
    ready = (handle_all fs lib available e s.channel.pending s.daemon).1

    -- The command's reply, and the engine after it.
    abbrev pub turn : Line × Engine
    turn = handle_command fs lib available e (request c) ready

    -- The connection, and one round of the engine.
    abbrev pub served : Unicode → Stream → List Event → System fs lib available e
    served wide stream events =
        advance fs lib available e events
          (serve fs lib available e wide (asking (payload c) stream) s)

module _ (fs : FileSystem) (lib : Libbpf) (available : List Text) (e : Endian) (wide : Unicode)
    (render : Line → Bytes) (from_utf8 : Bytes → Option Text) (c : Commands) (stream : Stream)
    (s : System fs lib available e) where
  -- The client runs a subcommand as root, with a target that is a name which fits, while fewer than
  -- eleven messages wait, and fewer than the bound, in a connected channel, and the engine's reply
  -- arrives in time, in bytes that are the UTF-8 of a text once they are cut to 4096. Then it prints
  -- that text and exits with 0. The engine's next round, whatever it polls, answers every message, the
  -- command last, and the flags of the modules are those that the command makes of the flags before.
  pub session :
      (events : List Event) (text : Text)
      → IsSendable c
      → IsTrusted stream
      → s.channel.connected ≡ true
      → length s.channel.pending < s.channel.bound
      → length s.channel.pending < 11
      → stream.response ≡ some (turn fs lib available e c s).0
      → from_utf8 (take 4096 (render (turn fs lib available e c s).0)) ≡ some text
      → (main from_utf8 c (link_to wide render stream s.channel) ≡ shown text)
        × ((served fs lib available e c s wide stream events).channel.pending ≡ [])
        × ((served fs lib available e c s wide stream events).replies
            ≡ s.replies
              ++ ((handle_all fs lib available e s.channel.pending s.daemon).0
                  ++ (s.channel.fresh, (turn fs lib available e c s).0) ∷ []))
        × ((j : Text)
            → status_of j (served fs lib available e c s wide stream events).daemon.registry
              ≡ flag_after fs lib available e (request c) (ready fs lib available e c s) j)
  unfolding main send_command_to_daemon
  session events text sendable trusted live room short replied decoded =
      let asked = asking (payload c) stream in
      let connection =
        handle_connection-payload wide c asked s.channel sendable trusted refl live room in
      let round =
        tick-append fs lib available e s.channel.pending
          (record { cmd = request c; reply = s.channel.fresh }) events s.daemon short in
      (
        rw (connection, replied, append-nil (render (turn fs lib available e c s).0), decoded) refl,
        rw (connection, round) refl,
        rw (connection, round) refl,
        λ j.
            rw (connection, round)
              (ap (status_of j)
                  (registry-poll fs lib available e events (turn fs lib available e c s).1)
                ∙ handle_command-status fs lib available e (request c)
                    (ready fs lib available e c s) j),
      )
