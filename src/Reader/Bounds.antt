-- ===== src/Reader/Bounds.antt =====
-- A read that finds its bytes succeeds and takes exactly those.
use bouclier_bleu.Base.{
  ℕ, ◌+◌, ◌≤◌, ◌≡◌, refl, ◌∙◌, String, List, [], ◌∷◌, arith, length, drop, slice, length-take,
  length-drop, Outcome, ok, err, ge→ltb,
}
use bouclier_bleu.Exec.{pure, continue, ◌>>=◌}
use bouclier_bleu.Reader.Monad.{Reader, Bytes, Parse}
use bouclier_bleu.Reader.{Endian, little, big, u32_of_bytes, read_u32}

module _ {A : Type 0} where
  -- A success from `r` that took `n` bytes, with a value that satisfies `Q`.
  abbrev pub Took : ℕ → (A → Type 0) → Reader → Outcome String A × Reader → Type 0
  Took n Q r (ok a, r') = Q a × (r'.bytes ≡ r.bytes) × (r'.offset ≡ r.offset + n)
  Took n Q r (err e, r') = ⊥

  pub record Reads (n : ℕ) (Q : A → Type 0) (m : Parse A) : Type 0 where
    pub at : (r : Reader) → r.offset + n ≤ length r.bytes → Took n Q r (m r)

  pub Reads-pure : (Q : A → Type 0) (a : A) → Q a → Reads 0 Q (pure a)
  Reads-pure Q a h = record { at = λ r fits. (h, refl, omega arith) }

  Took-later :
      (n k : ℕ) (P : A → Type 0) (r r' : Reader) (done : Outcome String A × Reader)
      → r'.bytes ≡ r.bytes
      → r'.offset ≡ r.offset + n
      → Took k P r' done
      → Took (n + k) P r done
  Took-later n k P r r' (ok a, s) same moved t = (t.0, t.1 ∙ same, omega arith)
  Took-later n k P r r' (err e, s) same moved t = absurd t

module _ {A B : Type 0} where
  Took-continue :
      (n k : ℕ) (Q : A → Type 0) (P : B → Type 0) (f : A → Parse B) (r : Reader)
      (done : Outcome String A × Reader)
      → ((a : A) → Q a → Reads k P (f a))
      → r.offset + (n + k) ≤ length r.bytes
      → Took n Q r done
      → Took (n + k) P r (continue f done)
  Took-continue n k Q P f r (ok a, r') next fits t =
      Took-later n k P r r' (f a r') t.1 t.2 ((next a t.0).at r' (rw t.1 (omega arith)))
  Took-continue n k Q P f r (err e, r') next fits t = absurd t

  pub Reads-bind :
      (n k : ℕ) (Q : A → Type 0) (P : B → Type 0) (m : Parse A) (f : A → Parse B)
      → Reads n Q m
      → ((a : A) → Q a → Reads k P (f a))
      → Reads (n + k) P (m >>= f)
  unfolding ◌>>=◌
  Reads-bind n k Q P m f first next = record {
    at = λ r fits. Took-continue n k Q P f r (m r) next fits (first.at r (omega arith));
  }

-- A block of four bytes is converted.
u32_of_bytes_total :
    (e : Endian) (block : Bytes) → length block ≡ 4 → (n : ℕ) × (u32_of_bytes e block ≡ ok n)
unfolding u32_of_bytes
u32_of_bytes_total little (a ∷ b ∷ c ∷ d ∷ []) h = (_, refl)
u32_of_bytes_total big (a ∷ b ∷ c ∷ d ∷ []) h = (_, refl)
u32_of_bytes_total e [] h = absurd (omega arith)
u32_of_bytes_total e (a ∷ []) h = absurd (omega arith)
u32_of_bytes_total e (a ∷ b ∷ []) h = absurd (omega arith)
u32_of_bytes_total e (a ∷ b ∷ c ∷ []) h = absurd (omega arith)
u32_of_bytes_total e (a ∷ b ∷ c ∷ d ∷ f ∷ rest) h = absurd (omega arith)

pub length-slice :
    {A : Type 0} (from len : ℕ) (xs : List A)
    → from + len ≤ length xs
    → length (slice from len xs) ≡ len
length-slice from len xs fits = length-take len (drop from xs) (omega (arith, length-drop from xs))

pub read_u32-Reads : (e : Endian) → Reads 4 (λ _. Unit {0}) (read_u32 e)
unfolding read_u32
read_u32-Reads e = record {
  at = λ r fits.
      let (n, converted) =
        u32_of_bytes_total e (slice r.offset 4 r.bytes) (length-slice r.offset 4 r.bytes fits) in
      rw (ge→ltb _ _ fits, converted) (tt, refl, refl);
}
