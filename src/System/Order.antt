-- ===== src/System/Order.antt =====
-- The order in which the messages of the channel are answered, and how many wait.
use bouclier_bleu.Base.{
  ℕ, zero, suc, ◌+◌, ◌≡◌, refl, sym, ap, ◌∙◌, List, [], ◌∷◌, ◌++◌, map, append_assoc, map-append,
  arith, inl, inr, length-drop, Text, Line,
}
use bouclier_bleu.Reader.{Endian}
use bouclier_bleu.Host.{FileSystem}
use bouclier_bleu.Loader.{Libbpf}
use bouclier_bleu.Command.{Unicode}
use bouclier_bleu.Ipc.{Channel, Stream}
use bouclier_bleu.Ipc.Guarded.{Reaches, handle_connection-Reaches, Reaches-IsBounded, IsBounded}
use bouclier_bleu.Actor.{Event, tick, drained}
use bouclier_bleu.Actor.Rounds.{tick-replies}
use bouclier_bleu.System.{System, advance, Step, connect, round, Reach, here, next}

-- The reply channels that were made so far, in the order of their making.
abbrev pub upto : ℕ → List ℕ
upto zero = []
upto (suc n) = upto n ++ n ∷ []

module _ (fs : FileSystem) (lib : Libbpf) (available : List Text) (e : Endian) where
  abbrev pub Sys : Type 1
  Sys = System fs lib available e

  -- The reply channels that were answered and then those whose message waits are all there are,
  -- each once and in the order of their making.
  abbrev pub IsOrdered : List (ℕ × Line) → Channel → Type 0
  IsOrdered replies ch = map (λ r. r.0) replies ++ map (λ m. m.reply) ch.pending ≡ upto ch.fresh

  connect-IsOrdered :
      (wide : Unicode) (stream : Stream) (replies : List (ℕ × Line)) (ch ch' : Channel)
      → IsOrdered replies ch
      → Reaches wide stream ch ch'
      → IsOrdered replies ch'
  connect-IsOrdered wide stream replies ch ch' h (inl same) = rw same h
  connect-IsOrdered wide stream replies ch ch' h (inr (cmd, trusted, sent, live, room, same)) =
      let successor : ch.fresh + 1 ≡ suc ch.fresh = omega arith in
      rw
        (
          same,
          successor,
          map-append (λ m. m.reply) ch.pending ((record { cmd = cmd; reply = ch.fresh }) ∷ []),
          ← append_assoc (map (λ r. r.0) replies) (map (λ m. m.reply) ch.pending) (ch.fresh ∷ []),
          h,
        )
        refl

  advance-IsOrdered :
      (events : List Event) (s : Sys)
      → IsOrdered s.replies s.channel
      → IsOrdered
          (advance fs lib available e events s).replies
          (advance fs lib available e events s).channel
  advance-IsOrdered events s h =
      let (handled, all, answered, few) =
        tick-replies fs lib available e s.channel.pending events s.daemon in
      let now = tick fs lib available e s.channel.pending events s.daemon in
      let waiting : map (λ m. m.reply) handled ++ map (λ m. m.reply) now.pending
          ≡ map (λ m. m.reply) s.channel.pending =
        sym (map-append (λ m. m.reply) handled now.pending) ∙ ap (map (λ m. m.reply)) all in
      rw
        (
          map-append (λ r. r.0) s.replies now.replies,
          answered,
          append_assoc (map (λ r. r.0) s.replies) (map (λ m. m.reply) handled)
              (map (λ m. m.reply) now.pending),
          waiting,
        )
        h

  advance-IsBounded :
      (events : List Event) (s : Sys)
      → IsBounded s.channel
      → IsBounded (advance fs lib available e events s).channel
  unfolding tick
  advance-IsBounded events s h = omega (arith, length-drop drained s.channel.pending)

  abbrev pub IsOrderly : Sys → Type 0
  IsOrderly s = IsOrdered s.replies s.channel × IsBounded s.channel

  pub advance-IsOrderly :
      (events : List Event) (s : Sys)
      → IsOrderly s
      → IsOrderly (advance fs lib available e events s)
  advance-IsOrderly events s h = (advance-IsOrdered events s h.0, advance-IsBounded events s h.1)

  Step-IsOrderly :
      {wide : Unicode} {s t : Sys} → Step fs lib available e wide s t → IsOrderly s → IsOrderly t
  Step-IsOrderly {wide} {s} (connect stream) h =
      let reached = handle_connection-Reaches wide stream s.channel in
      (
        connect-IsOrdered wide stream s.replies s.channel _ h.0 reached,
        Reaches-IsBounded wide stream s.channel _ h.1 reached,
      )
  Step-IsOrderly {wide} {s} (round events) h = advance-IsOrderly events s h

  -- However connections and rounds of the engine interleave, every message that was queued has one
  -- reply channel of its own, the messages are answered in the order in which they were queued,
  -- each once and none is lost, and the channel holds no more messages than its bound, if all this
  -- holds at the start.
  pub Reach-IsOrderly :
      {wide : Unicode} {s t : Sys} → IsOrderly s → Reach fs lib available e wide s t → IsOrderly t
  Reach-IsOrderly h here = h
  Reach-IsOrderly h (next r st) = Step-IsOrderly st (Reach-IsOrderly h r)
