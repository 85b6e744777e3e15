-- ===== src/Ipc/Delivery.antt =====
-- A command of the client, over the socket, into the engine's channel.
use bouclier_bleu.Base.{◌≡◌, refl, ◌∙◌, ◌<◌, true, some, [], ◌∷◌, length, lt→ltb, ok}
use bouclier_bleu.Command.{Unicode, Commands, payload, parse_command}
use bouclier_bleu.Command.RoundTrip.{IsSendable, request, parse-payload}
use bouclier_bleu.Ipc.{
  Channel, Stream, awaited, dispatch_command, try_send, respond, handle_connection,
}
use bouclier_bleu.Ipc.Guarded.{IsTrusted, queued, handle_connection-trusted}

-- What root's client sends for a subcommand is queued for the engine as that command, behind the
-- messages that wait, and the engine's reply is what the client is answered, if both timeouts were
-- set, a target is a name that fits, the engine is connected and fewer messages wait than the bound.
pub handle_connection-payload :
    (wide : Unicode) (c : Commands) (s : Stream) (ch : Channel)
    → IsSendable c
    → IsTrusted s
    → s.sent ≡ some (payload c)
    → ch.connected ≡ true
    → length ch.pending < ch.bound
    → handle_connection wide s ch ≡ (awaited s.response ∷ [], queued (request c) ch)
unfolding respond dispatch_command try_send
handle_connection-payload wide c s ch sendable trusted sent live room =
    let parsed : parse_command wide s.sent ≡ ok (some (request c)) =
      rw sent (parse-payload wide c sendable) in
    handle_connection-trusted wide s ch trusted
    ∙ rw (parsed, live, lt→ltb (length ch.pending) ch.bound room) refl
