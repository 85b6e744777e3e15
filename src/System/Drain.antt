-- ===== src/System/Drain.antt =====
-- How many rounds of the engine it takes to answer what waits.
use bouclier_bleu.Base.{
  ◌*◌, ◌-◌, ◌≤◌, ◌≡◌, refl, sym, ap, ◌∙◌, List, [], ◌∷◌, ◌++◌, map, append-nil, length, length-drop,
  arith, Text,
}
use bouclier_bleu.Reader.{Endian}
use bouclier_bleu.Host.{FileSystem}
use bouclier_bleu.Loader.{Libbpf}
use bouclier_bleu.Actor.{Event, tick, drained}
use bouclier_bleu.System.{System, advance}
use bouclier_bleu.System.Order.{upto, IsOrderly, advance-IsOrderly}

empty_of-length {ℓ} : {A : Type ℓ} (xs : List A) → length xs ≡ 0 → xs ≡ []
empty_of-length [] h = refl
empty_of-length (x ∷ xs) h = absurd (omega arith)

module _ (fs : FileSystem) (lib : Libbpf) (available : List Text) (e : Endian) where
  abbrev Sys : Type 1
  Sys = System fs lib available e

  -- Rounds of the engine while nobody connects, each with the events that it polls.
  abbrev pub rounds : List (List Event) → Sys → Sys
  rounds [] s = s
  rounds (events ∷ rest) s = rounds rest (advance fs lib available e events s)

  fresh-rounds :
      (polled : List (List Event)) (s : Sys) → (rounds polled s).channel.fresh ≡ s.channel.fresh
  fresh-rounds [] s = refl
  fresh-rounds (events ∷ rest) s = fresh-rounds rest (advance fs lib available e events s)

  rounds-IsOrderly :
      (polled : List (List Event)) (s : Sys)
      → IsOrderly fs lib available e s
      → IsOrderly fs lib available e (rounds polled s)
  rounds-IsOrderly [] s h = h
  rounds-IsOrderly (events ∷ rest) s h =
      rounds-IsOrderly rest _ (advance-IsOrderly fs lib available e events s h)

  length-rounds :
      (polled : List (List Event)) (s : Sys)
      → length (rounds polled s).channel.pending ≡ length s.channel.pending - 11 * length polled
  unfolding tick
  length-rounds [] s = omega arith
  length-rounds (events ∷ rest) s = omega (
    arith,
    length-rounds rest (advance fs lib available e events s),
    length-drop drained s.channel.pending,
  )

  -- If nobody connects any more and the engine goes around as often as an eleventh of the channel's
  -- bound, rounded up, whatever it polls, then no message waits and every message that was ever
  -- queued has been answered, in the order of their queueing and each once.
  pub rounds-answered :
      (polled : List (List Event)) (s : Sys)
      → IsOrderly fs lib available e s
      → s.channel.bound ≤ 11 * length polled
      → ((rounds polled s).channel.pending ≡ [])
        × (map (λ r. r.0) (rounds polled s).replies ≡ upto s.channel.fresh)
  rounds-answered polled s h enough =
      let after = rounds polled s in
      let none_waits : after.channel.pending ≡ [] =
        empty_of-length after.channel.pending (omega (arith, h.1, length-rounds polled s)) in
      let ordered = (rounds-IsOrderly polled s h).0 in
      (
        none_waits,
        sym (append-nil (map (λ r. r.0) after.replies))
            ∙ ap (λ waits. map (λ r. r.0) after.replies ++ map (λ m. m.reply) waits)
                (sym none_waits)
            ∙ ordered
            ∙ ap upto (fresh-rounds polled s),
      )
