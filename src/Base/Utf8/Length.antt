-- ===== src/Base/Utf8/Length.antt =====
-- Lossy decoding gives at most one character for each byte.
use Prim.Native.Nat.{ℕ, zero, suc, ◌+◌, ◌*◌, ◌%◌, ◌≤◌}
use mathlib.Core.List.{List, [], ◌∷◌}
use native.Mathlib.Omega.{arith}
use bouclier_bleu.Base.Lists.{length, length-append}
use bouclier_bleu.Base.Strings.{Text}
use bouclier_bleu.Base.Utf8.{
  Pending, start, between, first_byte, continued, next_byte, decode, from_utf8_lossy,
}

-- The character that a pending sequence may still give.
abbrev owed : Pending → ℕ
owed start = 0
owed (between _ _ _ _) = 1

abbrev Yields : ℕ → Text × Pending → Type 0
Yields n (out, p) = length out + owed p ≤ n

first_byte-Yields : (b : ℕ) → Yields 1 (first_byte b)
unfolding first_byte
first_byte-Yields b = ground arith

continued-Yields : (more point : ℕ) → Yields 1 (continued more point)
unfolding continued
continued-Yields zero point = omega arith
continued-Yields (suc more) point = omega arith

next_byte-Yields : (p : Pending) (b : ℕ) → Yields (owed p + 1) (next_byte p b)
unfolding next_byte
next_byte-Yields start b = first_byte-Yields b
next_byte-Yields (between lo hi more acc) b =
    ground (arith, first_byte-Yields b, continued-Yields more (acc * 64 + b % 64))

length-decode : (p : Pending) (bs : List ℕ) → length (decode p bs) ≤ owed p + length bs
unfolding decode
length-decode start [] = omega arith
length-decode (between _ _ _ _) [] = omega arith
length-decode p (b ∷ bs) =
    let (out, q) = next_byte p b in
    omega (arith, length-append out (decode q bs), length-decode q bs, next_byte-Yields p b)

pub length-from_utf8_lossy : (bs : List ℕ) → length (from_utf8_lossy bs) ≤ length bs
unfolding from_utf8_lossy
length-from_utf8_lossy bs = omega (arith, length-decode start bs)
