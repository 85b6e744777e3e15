-- ===== src/Base/Utf8/Ascii.antt =====
-- The decoder on ASCII bytes, which are their own characters.
use bouclier_bleu.Base.{◌<◌, ◌≡◌, refl, ap, [], ◌∷◌, All, lt→ltb, Text}
use bouclier_bleu.Base.Utf8.{start, first_byte, decode, from_utf8_lossy}

abbrev pub IsAscii : Text → Type 0
IsAscii = All (λ c. c < 0x80)

decode-ascii : (t : Text) → IsAscii t → decode start t ≡ t
unfolding decode
decode-ascii [] h = refl
decode-ascii (c ∷ cs) h = rw (lt→ltb c 0x80 h.0, first_byte) (ap (◌∷◌ c) (decode-ascii cs h.1))

pub from_utf8_lossy-ascii : (t : Text) → IsAscii t → from_utf8_lossy t ≡ t
unfolding from_utf8_lossy
from_utf8_lossy-ascii t h = decode-ascii t h
