-- ===== src/Ipc/Guarded.antt =====
-- Who reaches the engine over the socket, and how much waits for it.
use bouclier_bleu.Base.{
  ℕ, ◌+◌, ◌≤◌, ◌<◌, ◌≡◌, refl, ap, String, true, Option, none, some, List, [], ◌∷◌, ◌++◌, arith,
  ltb, ltb→lt, length, length-append, ◌==◌, Line, lit, num, Outcome, ok, err, Bool-cases, ◌⊎◌, inl,
  inr,
}
use bouclier_bleu.Command.{DaemonCmd, Unicode, parse_command}
use bouclier_bleu.Ipc.{
  Channel, Stream, Sending, sent, full, disconnected, try_send, verify_peercred, dispatched,
  dispatch_command, respond, handle_connection,
}

-- The channel holds no more than its bound.
abbrev pub IsBounded : Channel → Type 0
IsBounded ch = length ch.pending ≤ ch.bound

-- The channel with one command more.
abbrev pub queued : DaemonCmd → Channel → Channel
queued cmd ch = record ch {
  pending = ch.pending ++ (record { cmd = cmd; reply = ch.fresh }) ∷ [];
  fresh = ch.fresh + 1;
}

-- The stream is one that the daemon listens to: root's, with both timeouts set.
abbrev pub IsTrusted : Stream → Type 0
IsTrusted s = (s.peer_uid ≡ some 0) × (s.read_timeout_set ≡ true) × (s.write_timeout_set ≡ true)

-- Either the channel is as it was, or the connection was trusted, sent a command, and the command
-- was queued behind the others below the bound of a connected channel.
abbrev pub Reaches : Unicode → Stream → Channel → Channel → Type 0
Reaches wide s ch ch' =
    (ch' ≡ ch)
    ⊎ ((cmd : DaemonCmd) × IsTrusted s
        × (parse_command wide s.sent ≡ ok (some cmd))
        × (ch.connected ≡ true)
        × (length ch.pending < ch.bound)
        × (ch' ≡ queued cmd ch))

-- Sending either leaves the channel or queues the command.
abbrev Sent : DaemonCmd → Channel → Sending × Channel → Type 0
Sent cmd ch (sent, ch') =
    (ch.connected ≡ true) × (length ch.pending < ch.bound) × (ch' ≡ queued cmd ch)
Sent cmd ch (_, ch') = ch' ≡ ch

pub try_send-Sent : (cmd : DaemonCmd) (ch : Channel) → Sent cmd ch (try_send cmd ch)
unfolding try_send
try_send-Sent cmd ch = elim (Bool-cases ch.connected) [
  | inr gone ↦ rw gone refl
  | inl there ↦ elim (Bool-cases (ltb (length ch.pending) ch.bound)) [
    | inl room ↦ rw (there, room) (refl, ltb→lt (length ch.pending) ch.bound room, refl)
    | inr busy ↦ rw (there, busy) refl
  ]
]

dispatched-Reaches :
    (wide : Unicode) (s : Stream) (cmd : DaemonCmd) (ch : Channel) (r : Sending × Channel)
    → IsTrusted s
    → parse_command wide s.sent ≡ ok (some cmd)
    → Sent cmd ch r
    → Reaches wide s ch (dispatched s r).1
dispatched-Reaches wide s cmd ch (sent, ch') t p (live, room, at_end) =
    inr (cmd, t, p, live, room, at_end)
dispatched-Reaches wide s cmd ch (full, ch') t p h = inl h
dispatched-Reaches wide s cmd ch (disconnected, ch') t p h = inl h

respond-Reaches :
    (wide : Unicode) (s : Stream) (ch : Channel) (o : Outcome String (Option DaemonCmd))
    → IsTrusted s
    → parse_command wide s.sent ≡ o
    → Reaches wide s ch (respond o s ch).1
unfolding respond dispatch_command
respond-Reaches wide s ch (ok none) t p = inl refl
respond-Reaches wide s ch (ok (some cmd)) t p =
    dispatched-Reaches wide s cmd ch (try_send cmd ch) t p (try_send-Sent cmd ch)
respond-Reaches wide s ch (err why) t p = inl refl

-- A peer is root, or it is refused.
abbrev refusal : ℕ → Line
refusal uid =
    lit "SECURITY ALERT: Non-root process (UID: " ∷ num uid ∷ lit ") attempted IPC connection." ∷ []

peer-cases : (o : Option ℕ) → (o ≡ some 0) ⊎ ((why : Line) × (verify_peercred o ≡ err why))
unfolding verify_peercred
peer-cases none = inr (
  lit "SECURITY ERROR: Kernel failed to yield peer credentials: "
      ∷ lit ". Dropping connection."
      ∷ [],
  refl,
)
peer-cases (some uid) = elim (Bool-cases (uid == 0)) [
  | inl root ↦ inl (let zero_uid : uid ≡ 0 = ground arith in ap some zero_uid)
  | inr other ↦ inr (refusal uid, rw other refl)
]

-- A trusted connection gets to the parser.
pub handle_connection-trusted :
    (wide : Unicode) (s : Stream) (ch : Channel)
    → IsTrusted s
    → handle_connection wide s ch ≡ respond (parse_command wide s.sent) s ch
unfolding handle_connection verify_peercred
handle_connection-trusted wide s ch t =
    let (root, reading, writing) = t in rw (root, reading, writing) refl

-- A connection changes the channel to the engine only by queueing one command behind those that
-- wait; and it does so only if the peer is root, both timeouts were set, what was sent parses as that
-- command, the engine is connected, and fewer messages wait than the bound.
pub handle_connection-Reaches :
    (wide : Unicode) (s : Stream) (ch : Channel) → Reaches wide s ch (handle_connection wide s ch).1
unfolding handle_connection verify_peercred
handle_connection-Reaches wide s ch = elim (peer-cases s.peer_uid) [
  | inr (why, refused) ↦ inl (rw (handle_connection, refused) refl)
  | inl root ↦ elim (Bool-cases s.read_timeout_set) [
    | inr unset ↦ inl (rw (root, unset) refl)
    | inl reading ↦ elim (Bool-cases s.write_timeout_set) [
      | inr unset ↦ inl (rw (root, reading, unset) refl)
      | inl writing ↦
          let trusted : IsTrusted s = (root, reading, writing) in
          let answered = handle_connection-trusted wide s ch trusted in
          rw answered (respond-Reaches wide s ch (parse_command wide s.sent) trusted refl)
    ]
  ]
]

pub Reaches-IsBounded :
    (wide : Unicode) (s : Stream) (ch ch' : Channel)
    → IsBounded ch
    → Reaches wide s ch ch'
    → IsBounded ch'
Reaches-IsBounded wide s ch ch' h (inl e) = rw e h
Reaches-IsBounded wide s ch ch' h (inr (cmd, t, p, live, room, e)) =
    rw e (omega (arith, length-append ch.pending ((record { cmd = cmd; reply = ch.fresh }) ∷ [])))

-- Connections one after another, while the engine does not run.
abbrev pub connections : Unicode → List Stream → Channel → Channel
connections wide [] ch = ch
connections wide (s ∷ rest) ch = connections wide rest (handle_connection wide s ch).1

-- However many clients connect, the channel never holds more messages than its bound, if it does not
-- at the start.
pub connections-IsBounded :
    (wide : Unicode) (streams : List Stream) (ch : Channel)
    → IsBounded ch
    → IsBounded (connections wide streams ch)
connections-IsBounded wide [] ch h = h
connections-IsBounded wide (s ∷ rest) ch h =
    connections-IsBounded wide rest _
      (Reaches-IsBounded wide s ch _ h (handle_connection-Reaches wide s ch))
