-- ===== src/System/Atomic.antt =====
-- What the two threads do together, as an engine that takes one command or one event at a time.
use bouclier_bleu.Base.{
  ℕ, ◌≡◌, refl, sym, ap, ◌∙◌, List, [], ◌∷◌, ◌++◌, map, take, drop, length, drop-append,
  append_assoc, append-nil, inl, inr, Text, Line,
}
use bouclier_bleu.Reader.{Endian}
use bouclier_bleu.Host.{FileSystem}
use bouclier_bleu.Loader.{Libbpf}
use bouclier_bleu.Command.{Unicode}
use bouclier_bleu.Ipc.{IpcMessage, Channel, Stream}
use bouclier_bleu.Ipc.Guarded.{Reaches, handle_connection-Reaches}
use bouclier_bleu.Actor.{Event, Daemon, handle_command, handle_all, on_event, poll, tick, drained}
use bouclier_bleu.Actor.Rounds.{take-drop}
use bouclier_bleu.System.{
  System, Step, connect, round, Reach, here, next, queued_by, queued_along, polled_by, polled_along,
}

pub data Operation : Type 0 where
  command : IpcMessage → Operation
  observe : Event → Operation

abbrev pub commands : List Operation → List IpcMessage
commands [] = []
commands (command msg ∷ rest) = msg ∷ commands rest
commands (observe event ∷ rest) = commands rest

abbrev pub events_of : List Operation → List Event
events_of [] = []
events_of (command msg ∷ rest) = events_of rest
events_of (observe event ∷ rest) = event ∷ events_of rest

commands-append : (xs ys : List Operation) → commands (xs ++ ys) ≡ commands xs ++ commands ys
commands-append [] ys = refl
commands-append (command msg ∷ xs) ys = ap (◌∷◌ msg) (commands-append xs ys)
commands-append (observe event ∷ xs) ys = commands-append xs ys

events_of-append : (xs ys : List Operation) → events_of (xs ++ ys) ≡ events_of xs ++ events_of ys
events_of-append [] ys = refl
events_of-append (command msg ∷ xs) ys = events_of-append xs ys
events_of-append (observe event ∷ xs) ys = ap (◌∷◌ event) (events_of-append xs ys)

-- What a round does: the commands, and then the events.
abbrev round_of : List IpcMessage → List Event → List Operation
round_of queue events = map command queue ++ map observe events

commands-observe : (events : List Event) → commands (map observe events) ≡ []
commands-observe [] = refl
commands-observe (event ∷ rest) = commands-observe rest

commands-round_of :
    (queue : List IpcMessage) (events : List Event) → commands (round_of queue events) ≡ queue
commands-round_of [] events = commands-observe events
commands-round_of (msg ∷ rest) events = ap (◌∷◌ msg) (commands-round_of rest events)

events_of-round_of :
    (queue : List IpcMessage) (events : List Event) → events_of (round_of queue events) ≡ events
events_of-round_of [] [] = refl
events_of-round_of [] (event ∷ rest) = ap (◌∷◌ event) (events_of-round_of [] rest)
events_of-round_of (msg ∷ queue) events = events_of-round_of queue events

module _ (fs : FileSystem) (lib : Libbpf) (available : List Text) (e : Endian) where
  abbrev Sys : Type 1
  Sys = System fs lib available e

  abbrev Engine : Type 1
  Engine = Daemon fs lib available e

  -- The replies, and the daemon after the operations.
  unfoldable pub execute : List Operation → Engine → List (ℕ × Line) × Engine
  execute [] d = ([], d)
  execute (command msg ∷ rest) d =
      let (line, d') = handle_command fs lib available e msg.cmd d in
      let (replies, d'') = execute rest d' in ((msg.reply, line) ∷ replies, d'')
  execute (observe event ∷ rest) d = execute rest (on_event fs lib available e event d)

  execute-append :
      (xs ys : List Operation) (d : Engine)
      → execute (xs ++ ys) d
        ≡ ((execute xs d).0 ++ (execute ys (execute xs d).1).0, (execute ys (execute xs d).1).1)
  unfolding execute
  execute-append [] ys d = refl
  execute-append (command msg ∷ xs) ys d =
      let (line, d') = handle_command fs lib available e msg.cmd d in
      rw (execute-append xs ys d') refl
  execute-append (observe event ∷ xs) ys d = execute-append xs ys _

  execute-observe :
      (events : List Event) (d : Engine)
      → execute (map observe events) d ≡ ([], poll fs lib available e events d)
  unfolding execute poll
  execute-observe [] d = refl
  execute-observe (event ∷ rest) d = execute-observe rest _

  execute-command :
      (queue : List IpcMessage) (d : Engine)
      → execute (map command queue) d ≡ handle_all fs lib available e queue d
  unfolding execute handle_all
  execute-command [] d = refl
  execute-command (msg ∷ rest) d =
      let (line, d') = handle_command fs lib available e msg.cmd d in
      rw (execute-command rest d') refl

  execute-round_of :
      (queue : List IpcMessage) (events : List Event) (d : Engine)
      → execute (round_of queue events) d ≡ (
        (handle_all fs lib available e queue d).0,
        poll fs lib available e events (handle_all fs lib available e queue d).1,
      )
  execute-round_of queue events d =
      execute-append (map command queue) (map observe events) d
      ∙ rw
          (
            execute-command queue d,
            execute-observe events (handle_all fs lib available e queue d).1,
            append-nil (handle_all fs lib available e queue d).0,
          )
          refl

  -- The daemon and the replies of `t` come from operations one by one after `s`: on the commands
  -- that waited or were queued, in their order, less those that wait, and on the events.
  abbrev pub Atomic : Sys → Sys → List IpcMessage → List Event → Type 1
  Atomic s t queued polled =
      (ops : List Operation) × (t.replies ≡ s.replies ++ (execute ops s.daemon).0)
      × (t.daemon ≡ (execute ops s.daemon).1)
      × (commands ops ++ t.channel.pending ≡ s.channel.pending ++ queued)
      × (events_of ops ≡ polled)

  Reaches-queued :
      (wide : Unicode) (stream : Stream) (ch ch' : Channel)
      → Reaches wide stream ch ch'
      → ch'.pending ≡ ch.pending ++ drop (length ch.pending) ch'.pending
  Reaches-queued wide stream ch ch' (inl same) =
      let none_added : drop (length ch.pending) ch.pending ≡ [] =
        ap (drop (length ch.pending)) (sym (append-nil ch.pending)) ∙ drop-append ch.pending [] in
      rw (same, none_added, append-nil ch.pending) refl
  Reaches-queued wide stream ch ch' (inr (cmd, trusted, sent, live, room, same)) =
      rw (same, drop-append ch.pending ((record { cmd = cmd; reply = ch.fresh }) ∷ [])) refl

  Step-Atomic :
      {wide : Unicode} {s t : Sys} (st : Step fs lib available e wide s t)
      → Atomic s t (queued_by fs lib available e st) (polled_by fs lib available e st)
  unfolding execute tick
  Step-Atomic {wide} {s} (connect stream) = (
    [],
    sym (append-nil s.replies),
    refl,
    Reaches-queued wide stream s.channel _ (handle_connection-Reaches wide stream s.channel),
    refl,
  )
  Step-Atomic {wide} {s} (round events) =
      let now = take drained s.channel.pending in
      let run = sym (execute-round_of now events s.daemon) in
      (
        round_of now events,
        ap (λ r. s.replies ++ r.0) run,
        ap (λ r. r.1) run,
        rw (commands-round_of now events, append-nil s.channel.pending)
            (take-drop drained s.channel.pending),
        events_of-round_of now events,
      )

  Atomic-trans :
      (s t u : Sys) (queued more : List IpcMessage) (polled later : List Event)
      → Atomic s t queued polled
      → Atomic t u more later
      → Atomic s u (queued ++ more) (polled ++ later)
  Atomic-trans s t u queued more polled later (ops, replied, state, waiting, seen)
        (ops', replied', state', waiting', seen') =
      let run = execute-append ops ops' s.daemon in
      (
        ops ++ ops',
        rw
            (
              run,
              replied',
              replied,
              state,
              append_assoc s.replies (execute ops s.daemon).0
                  (execute ops' (execute ops s.daemon).1).0,
            )
            refl,
        rw (run, state', state) refl,
        rw
            (
              commands-append ops ops',
              append_assoc (commands ops) (commands ops') u.channel.pending,
              waiting',
              ← append_assoc (commands ops) t.channel.pending more,
              waiting,
            )
            (append_assoc s.channel.pending queued more),
        rw (events_of-append ops ops', seen, seen') refl,
      )

  -- However connections and rounds of the engine interleave, what the engine did is what it does when
  -- it takes one operation at a time: on some sequence of commands and events it sends the same
  -- replies and ends in the same state. The commands of that sequence, followed by those that still
  -- wait, are the ones that waited at the start and the ones that connections queued, in the order of
  -- their queueing; and its events are the ones that were polled, in their order.
  pub Reach-Atomic :
      {wide : Unicode} {s t : Sys} (r : Reach fs lib available e wide s t)
      → Atomic s t (queued_along fs lib available e r) (polled_along fs lib available e r)
  unfolding execute
  Reach-Atomic {wide} {s} here =
      ([], sym (append-nil s.replies), refl, sym (append-nil s.channel.pending), refl)
  Reach-Atomic {wide} {s} (next {t} {u} r st) =
      Atomic-trans s t u _ _ _ _ (Reach-Atomic r) (Step-Atomic st)
