-- ===== src/Reader/Clean.antt =====
-- What `read_string` returns: printable ASCII, no longer than the field.
use bouclier_bleu.Base.{
  ℕ, ◌≤◌, ◌≡◌, refl, false, [], ◌∷◌, arith, length, All, Text, ge→ltb, length-take_le, slice, drop,
  if◌then◌else◌,
}
use bouclier_bleu.Base.Utf8.{from_utf8_lossy}
use bouclier_bleu.Base.Utf8.Length.{length-from_utf8_lossy}
use bouclier_bleu.Reader.Monad.{Bytes}
use bouclier_bleu.Reader.Bounds.{Reads}
use bouclier_bleu.Reader.{is_unprintable, sanitize, until_null, read_string}

-- Printable ASCII characters and spaces only, so no line break and no escape sequence.
abbrev pub IsPrintable : Text → Type 0
IsPrintable = All (λ c. (0x20 ≤ c) × (c ≤ 0x7e))

abbrev pub IsClean : ℕ → Text → Type 0
IsClean n text = IsPrintable text × (length text ≤ n)

replaced-printable :
    (c : ℕ)
    → (0x20 ≤ (if is_unprintable c then b'?' else c))
      × ((if is_unprintable c then b'?' else c) ≤ 0x7e)
replaced-printable c = (ground arith, ground arith)

-- Such a character is not replaced.
pub kept-printable : (c : ℕ) → (0x20 ≤ c) × (c ≤ 0x7e) → is_unprintable c ≡ false
kept-printable c h = ground arith

pub sanitize-IsPrintable : (text : Text) → IsPrintable (sanitize text)
unfolding sanitize
sanitize-IsPrintable [] = tt
sanitize-IsPrintable (c ∷ cs) = (replaced-printable c, sanitize-IsPrintable cs)

length-sanitize : (text : Text) → length (sanitize text) ≡ length text
unfolding sanitize
length-sanitize [] = refl
length-sanitize (c ∷ cs) = omega (arith, length-sanitize cs)

length-until_null : (bs : Bytes) → length (until_null bs) ≤ length bs
unfolding until_null
length-until_null [] = omega arith
length-until_null (b ∷ bs) = ground (arith, length-until_null bs)

read-IsClean :
    (from len : ℕ) (bytes : Bytes)
    → IsClean len (sanitize (from_utf8_lossy (until_null (slice from len bytes))))
read-IsClean from len bytes =
    let field = slice from len bytes in
    let text = from_utf8_lossy (until_null field) in
    (
      sanitize-IsPrintable text,
      omega (
        arith,
        length-sanitize text,
        length-from_utf8_lossy (until_null field),
        length-until_null field,
        length-take_le len (drop from bytes),
      ),
    )

pub read_string-Reads : (n : ℕ) → Reads n (IsClean n) (read_string n)
unfolding read_string
read_string-Reads n = record {
  at = λ r fits. rw (ge→ltb _ _ fits) (read-IsClean r.offset n r.bytes, refl, refl);
}
