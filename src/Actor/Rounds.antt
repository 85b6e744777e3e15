-- ===== src/Actor/Rounds.antt =====
-- The order and the number of the messages that a round of the engine handles.
use bouclier_bleu.Base.{
  ℕ, zero, suc, ◌≤◌, ◌≡◌, refl, ap, List, [], ◌∷◌, ◌++◌, map, take, drop, length, length-take_le,
  Text,
}
use bouclier_bleu.Reader.{Endian}
use bouclier_bleu.Host.{FileSystem}
use bouclier_bleu.Loader.{Libbpf}
use bouclier_bleu.Ipc.{IpcMessage}
use bouclier_bleu.Actor.{Event, Daemon, drained, handle_all, tick}

pub take-drop {ℓ} : {A : Type ℓ} (n : ℕ) (xs : List A) → take n xs ++ drop n xs ≡ xs
take-drop zero xs = refl
take-drop (suc n) [] = refl
take-drop (suc n) (x ∷ xs) = ap (◌∷◌ x) (take-drop n xs)

module _ (fs : FileSystem) (lib : Libbpf) (available : List Text) (e : Endian) where
  replies-handle_all :
      (queue : List IpcMessage) (d : Daemon fs lib available e)
      → map (λ r. r.0) (handle_all fs lib available e queue d).0 ≡ map (λ m. m.reply) queue
  unfolding handle_all
  replies-handle_all [] d = refl
  replies-handle_all (msg ∷ rest) d = ap (◌∷◌ msg.reply) (replies-handle_all rest _)

  -- A round answers the first messages of the queue, eleven at most, each once, on its own reply
  -- channel and in the order of the queue; the messages behind them wait, and none is lost.
  pub tick-replies :
      (queue : List IpcMessage) (events : List Event) (d : Daemon fs lib available e)
      → (handled : List IpcMessage) × (handled ++ (tick fs lib available e queue events d).pending
          ≡ queue)
        × (map (λ r. r.0) (tick fs lib available e queue events d).replies
            ≡ map (λ m. m.reply) handled)
        × (length handled ≤ 11)
  unfolding tick
  tick-replies queue events d = (
    take drained queue,
    take-drop drained queue,
    replies-handle_all (take drained queue) d,
    length-take_le drained queue,
  )
