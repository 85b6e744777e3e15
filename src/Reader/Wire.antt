-- ===== src/Reader/Wire.antt =====
-- The reads on what the kernel lays out: a word in the machine's byte order, and a text in a field
-- that null bytes fill.
use mathlib.Core.List.{append-nil}
use bouclier_bleu.Base.{
  ℕ, zero, suc, ◌+◌, ◌-◌, ◌^◌, ◌≤◌, ◌<◌, ◌≡◌, refl, ◌∙◌, ap, sym, false, List, [], ◌∷◌, ◌++◌, arith,
  ge→ltb, ◌==◌, length, length-append, length-drop, length-replicate, replicate, drop, slice, keep,
  Text, take-append, drop-append, ok,
}
use bouclier_bleu.Base.Utf8.Ascii.{IsAscii, from_utf8_lossy-ascii}
use bouclier_bleu.Device.{to_ne_bytes}
use bouclier_bleu.Reader.Monad.{Bytes, Reader}
use bouclier_bleu.Reader.Clean.{IsPrintable, kept-printable}
use bouclier_bleu.Reader.{
  Endian, little, big, u32_of_bytes, read_u32, until_null, is_unprintable, sanitize, read_string,
}

-- A text in a field of `n` bytes.
abbrev pub field : ℕ → Text → Bytes
field n t = t ++ replicate (n - length t) 0

u32_of_bytes-to_ne_bytes :
    (e : Endian) (n : ℕ) → n < 2 ^ 32 → u32_of_bytes e (to_ne_bytes e 4 n) ≡ ok n
unfolding u32_of_bytes
u32_of_bytes-to_ne_bytes little n h = ap ok (omega (arith, h))
u32_of_bytes-to_ne_bytes big n h = ap ok (omega (arith, h))

pub length-to_ne_bytes : (e : Endian) (n : ℕ) → length (to_ne_bytes e 4 n) ≡ 4
length-to_ne_bytes little n = refl
length-to_ne_bytes big n = refl

drop-nil {ℓ} : {A : Type ℓ} (n : ℕ) → drop {A = A} n [] ≡ []
drop-nil zero = refl
drop-nil (suc n) = refl

pub drop-add {ℓ} : {A : Type ℓ} (m n : ℕ) (xs : List A) → drop (m + n) xs ≡ drop n (drop m xs)
drop-add zero n xs = let e : zero + n ≡ n = omega arith in ap (λ k. drop k xs) e
drop-add (suc m) n [] = drop-nil (suc m + n) ∙ sym (drop-nil n)
drop-add (suc m) n (x ∷ xs) =
    let e : suc m + n ≡ suc (m + n) = omega arith in ap (λ k. drop k (x ∷ xs)) e ∙ drop-add m n xs

pub length-field : (n : ℕ) (t : Text) → length t ≤ n → length (field n t) ≡ n
length-field n t h = omega (
  arith,
  length-append t (replicate (n - length t) 0),
  length-replicate {A = ℕ} (n - length t) 0,
  h,
)

until_null-zeros : (n : ℕ) → until_null (replicate n 0) ≡ []
unfolding until_null
until_null-zeros zero = refl
until_null-zeros (suc n) = refl

printable-bounds : (c : ℕ) → (0x20 ≤ c) × (c ≤ 0x7e) → (0 < c) × (c < 0x80)
printable-bounds c h = (omega arith, omega arith)

until_null-field : (t : Text) (n : ℕ) → IsPrintable t → until_null (t ++ replicate n 0) ≡ t
unfolding until_null
until_null-field [] n h = until_null-zeros n
until_null-field (c ∷ cs) n h =
    let positive = (printable-bounds c h.0).0 in
    let nonzero : (c == 0) ≡ false = ground arith in
    rw nonzero (ap (◌∷◌ c) (until_null-field cs n h.1))

IsPrintable-IsAscii : (t : Text) → IsPrintable t → IsAscii t
IsPrintable-IsAscii [] h = tt
IsPrintable-IsAscii (c ∷ cs) h = ((printable-bounds c h.0).1, IsPrintable-IsAscii cs h.1)

sanitize-printable : (t : Text) → IsPrintable t → sanitize t ≡ t
unfolding sanitize
sanitize-printable [] h = refl
sanitize-printable (c ∷ cs) h = rw (kept-printable c h.0) (ap (◌∷◌ c) (sanitize-printable cs h.1))

keep-printable : (t : Text) → IsPrintable t → keep is_unprintable t ≡ []
keep-printable [] h = refl
keep-printable (c ∷ cs) h = rw (kept-printable c h.0) (keep-printable cs h.1)

module _ (r : Reader) (rest : Bytes) where
  -- The bytes that are not read yet start with a block, and a rest follows.
  abbrev pub Ahead : Bytes → Type 0
  Ahead block = drop r.offset r.bytes ≡ block ++ rest

  Ahead-fits :
      (block : Bytes) → Ahead block → 0 < length block → r.offset + length block ≤ length r.bytes
  Ahead-fits block h positive =
      let ends : length (drop r.offset r.bytes) ≡ length block + length rest =
        rw h (length-append block rest) in
      omega (arith, length-drop r.offset r.bytes, positive, ends)

  Ahead-slice :
      (block : Bytes) (n : ℕ) → Ahead block → length block ≡ n → slice r.offset n r.bytes ≡ block
  Ahead-slice block n h e = rw (h, ← e) (take-append block rest)

  -- What is left after the block.
  pub Ahead-drop :
      (block : Bytes) (n : ℕ) → Ahead block → length block ≡ n → drop (r.offset + n) r.bytes ≡ rest
  Ahead-drop block n h e = drop-add r.offset n r.bytes ∙ rw (h, ← e) (drop-append block rest)

  pub read_u32-Ahead :
      (e : Endian) (n : ℕ)
      → n < 2 ^ 32
      → Ahead (to_ne_bytes e 4 n)
      → read_u32 e r ≡ (ok n, record r { offset = r.offset + 4 })
  unfolding read_u32
  read_u32-Ahead e n small h =
      let block = to_ne_bytes e 4 n in
      let four = length-to_ne_bytes e n in
      let fits : r.offset + 4 ≤ length r.bytes =
        omega (arith, Ahead-fits block h (omega (arith, four)), four) in
      rw (ge→ltb _ _ fits, Ahead-slice block 4 h four, u32_of_bytes-to_ne_bytes e n small) refl

  pub read_string-Ahead :
      (n : ℕ) (t : Text)
      → 0 < n
      → length t ≤ n
      → IsPrintable t
      → Ahead (field n t)
      → read_string n r ≡ (ok t, record r { offset = r.offset + n })
  unfolding read_string
  read_string-Ahead n t positive short clean h =
      let size = length-field n t short in
      let fits : r.offset + n ≤ length r.bytes =
        omega (arith, Ahead-fits (field n t) h (omega (arith, size, positive)), size) in
      rw
        (
          ge→ltb _ _ fits,
          Ahead-slice (field n t) n h size,
          until_null-field t (n - length t) clean,
          from_utf8_lossy-ascii t (IsPrintable-IsAscii t clean),
          sanitize-printable t clean,
          keep-printable t clean,
          append-nil r.log,
        )
        refl
