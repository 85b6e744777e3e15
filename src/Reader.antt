-- ===== src/Reader.antt =====
-- `BpfReader`, modules/src/common/traits.rs: a cursor over the bytes that the kernel sent, and the
-- two reads that every alert is parsed with. A parser is an action on the reader that may fail. The
-- reader also keeps what the reads print to standard error.
mod Monad
pub mod Bounds
pub mod Clean
pub mod Wire
pub use Monad.{Parse, Reader, Bytes}
unfoldable pub use Monad.{run}
use bouclier_bleu.Base.{
  ℕ, zero, suc, ◌+◌, ◌*◌, String, Bool, true, false, not, ◌&&◌, ◌||◌, List, [], ◌∷◌, ◌++◌, map, ltb,
  ◌==◌, if◌then◌else◌, length, take, slice, keep, Text, Line, lit, num, Outcome, ok, err,
  is_ascii_graphic,
}
use bouclier_bleu.Base.Utf8.{from_utf8_lossy}

-- The byte order of the machine, for `from_ne_bytes` and `to_ne_bytes`.
pub data Endian : Type 0 where
  little big : Endian

-- `BpfReader::new`
abbrev pub new : Bytes → Reader
new bytes = record { bytes = bytes; offset = 0; log = [] }

-- `u32::from_ne_bytes` of a block that must hold four bytes.
unfoldable pub u32_of_bytes : Endian → Bytes → Outcome String ℕ
u32_of_bytes little (a ∷ b ∷ c ∷ d ∷ []) = ok (a + 256 * (b + 256 * (c + 256 * d)))
u32_of_bytes big (a ∷ b ∷ c ∷ d ∷ []) = ok (d + 256 * (c + 256 * (b + 256 * a)))
u32_of_bytes _ _ = err "Memory layout mismatch for u32"

-- The reader moves on only if the block was converted.
abbrev pub advance_u32 : Reader → Outcome String ℕ → Outcome String ℕ × Reader
advance_u32 r (ok n) = (ok n, record r { offset = r.offset + 4 })
advance_u32 r (err e) = (err e, r)

unfoldable pub read_u32 : Endian → Parse ℕ
unfolding u32_of_bytes
read_u32 e r =
    if ltb (length r.bytes) (r.offset + 4)
    then (err "Buffer underrun: Failed to isolate u32 block.", r)
    else advance_u32 r (u32_of_bytes e (slice r.offset 4 r.bytes))

-- The bytes before the first null byte.
unfoldable pub until_null : Bytes → Bytes
until_null [] = []
until_null (b ∷ bs) = let rest = until_null bs in if b == 0 then [] else b ∷ rest

-- The test of the closure in `read_string`: a character that is replaced.
abbrev pub is_unprintable : ℕ → Bool
is_unprintable c = not (is_ascii_graphic c) && not (c == b' ')

unfoldable pub sanitize : Text → Text
sanitize = map (λ c. if is_unprintable c then b'?' else c)

-- The warning, printed if a character was replaced.
abbrev pub replaced_warning : ℕ → List Line
replaced_warning zero = []
replaced_warning (suc n) =
    (lit "Bouclier Bleu [Warning]: Sanitized "
      ∷ num (suc n)
      ∷ lit " non-printable chars from kernel string"
      ∷ [])
    ∷ []

unfoldable pub read_string : ℕ → Parse Text
unfolding until_null sanitize from_utf8_lossy
read_string max_len r =
    if ltb (length r.bytes) (r.offset + max_len)
    then (err "Buffer underrun: String boundary exceeds payload size.", r)
    else (let raw = from_utf8_lossy (until_null (slice r.offset max_len r.bytes)) in
        let warned = replaced_warning (length (keep is_unprintable raw)) in
        (ok (sanitize raw), record r { offset = r.offset + max_len; log = r.log ++ warned }))
