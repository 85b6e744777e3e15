-- ===== src/Base/Utf8.antt =====
-- `String::from_utf8_lossy` of the standard library. A valid sequence gives its character, and each
-- maximal part of an invalid one gives U+FFFD. The decoder reads byte by byte: `Pending` is what a
-- lead byte still waits for, and a byte that does not fit is read again as the first of a character.
pub mod Length
pub mod Ascii
use Prim.Native.Nat.{ℕ, zero, suc, ◌+◌, ◌-◌, ◌*◌, ◌%◌}
use mathlib.Core.List.{List, [], ◌∷◌, ◌++◌}
use bouclier_bleu.Base.Tests.{◌==◌, ltb, if◌then◌else◌, within}
use bouclier_bleu.Base.Strings.{Text}

abbrev pub replacement : ℕ
replacement = 0xfffd

-- `between lo hi more acc`: the next byte must lie in lo ..= hi, and `more` bytes follow it.
pub data Pending : Type 0 where
  start : Pending
  between : ℕ → ℕ → ℕ → ℕ → Pending

-- A byte read where a character begins.
unfoldable pub first_byte : ℕ → Text × Pending
first_byte b =
    if ltb b 0x80
    then (b ∷ [], start)
    else if within 0xc2 0xdf b
    then ([], between 0x80 0xbf 0 (b - 0xc0))
    else if b == 0xe0
    then ([], between 0xa0 0xbf 1 0)
    else if b == 0xed
    then ([], between 0x80 0x9f 1 0xd)
    else if within 0xe1 0xef b
    then ([], between 0x80 0xbf 1 (b - 0xe0))
    else if b == 0xf0
    then ([], between 0x90 0xbf 2 0)
    else if within 0xf1 0xf3 b
    then ([], between 0x80 0xbf 2 (b - 0xf0))
    else if b == 0xf4
    then ([], between 0x80 0x8f 2 4)
    else (replacement ∷ [], start)

-- A byte that continues a character: the last one completes it.
unfoldable pub continued : ℕ → ℕ → Text × Pending
continued zero point = (point ∷ [], start)
continued (suc more) point = ([], between 0x80 0xbf more point)

unfoldable pub next_byte : Pending → ℕ → Text × Pending
unfolding first_byte continued
next_byte start b = first_byte b
next_byte (between lo hi more acc) b =
    if within lo hi b
    then continued more (acc * 64 + b % 64)
    else (let (out, p) = first_byte b in (replacement ∷ out, p))

unfoldable pub decode : Pending → List ℕ → Text
unfolding next_byte
decode start [] = []
decode (between _ _ _ _) [] = replacement ∷ []
decode p (b ∷ bs) = let (out, q) = next_byte p b in out ++ decode q bs

unfoldable pub from_utf8_lossy : List ℕ → Text
unfolding decode
from_utf8_lossy = decode start
