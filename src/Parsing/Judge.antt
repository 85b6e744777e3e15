-- ===== src/Parsing/Judge.antt =====
-- The judgement on a parser's result, and the proof of it from the reads that the parser is made of.
use bouclier_bleu.Base.{
  ℕ, ◌+◌, ◌≤◌, ◌<◌, ◌≡◌, refl, String, List, [], ◌∷◌, arith, length, All, Text, Line, Outcome, ok,
  err, ltb, ltb→lt, Bool-cases, inl, inr, Bool, trim, trim_start, trim_end, trim_end_cons,
}
use bouclier_bleu.Host.{Value, number, text, Payload}
use bouclier_bleu.Exec.{◌>>=◌}
use bouclier_bleu.Reader.{Bytes, Reader, Parse, Endian, read_u32, read_string}
use bouclier_bleu.Reader.Bounds.{Reads, Took, Reads-bind, read_u32-Reads}
use bouclier_bleu.Reader.Clean.{IsPrintable, read_string-Reads}
use bouclier_bleu.Module.{sized, size_error}

-- A field as the log writes it holds no control character and nothing beyond ASCII.
abbrev pub IsSafeValue : String × Value → Type 0
IsSafeValue (name, number n) = Unit
IsSafeValue (name, text t) = IsPrintable t

abbrev pub IsSafePayload : Payload → Type 0
IsSafePayload = All IsSafeValue

module _ {A : Type 0} (payload : A → Payload) where
  -- A payload of at least `n` bytes gives an alert with safe fields, any other the size error.
  abbrev pub Verdict : ℕ → Bytes → Outcome String A × List Line → Type 0
  Verdict n bytes (ok alert, log) = (n ≤ length bytes) × IsSafePayload (payload alert)
  Verdict n bytes (err why, log) = (length bytes < n) × (why ≡ size_error)

  Verdict-run :
      (n : ℕ) (bytes : Bytes) (r : Reader) (done : Outcome String A × Reader)
      → n ≤ length bytes
      → Took n (λ a. IsSafePayload (payload a)) r done
      → Verdict n bytes (done.0, done.1.log)
  Verdict-run n bytes r (ok a, r') fits t = (fits, t.0)
  Verdict-run n bytes r (err e, r') fits t = absurd t

  pub sized-Verdict :
      (n : ℕ) (m : Parse A) (bytes : Bytes)
      → Reads n (λ a. IsSafePayload (payload a)) m
      → Verdict n bytes (sized n m bytes)
  unfolding sized
  sized-Verdict n m bytes reads = elim (Bool-cases (ltb (length bytes) n)) [
    | inl short ↦ rw short (ltb→lt _ _ short, refl)
    | inr long ↦
        let fits : n ≤ length bytes = ground arith in
        let r : Reader = record { bytes = bytes; offset = 0; log = [] } in
        rw long (Verdict-run n bytes r (m r) fits (reads.at r (omega arith)))
  ]

-- All characters of a trimmed text stand in the text.
module _ (P : ℕ → Type 0) (p : ℕ → Bool) where
  All-trim_start : (t : Text) → All P t → All P (trim_start p t)
  unfolding trim_start
  All-trim_start [] h = tt
  All-trim_start (c ∷ cs) h = elim (Bool-cases (p c)) [
    | inl drop ↦ rw drop (All-trim_start cs h.1)
    | inr stay ↦ rw stay h
  ]

  All-trim_end_cons : (c : ℕ) (rest : Text) → P c → All P rest → All P (trim_end_cons p c rest)
  unfolding trim_end_cons
  All-trim_end_cons c [] h hs = elim (Bool-cases (p c)) [
    | inl drop ↦ rw drop tt
    | inr stay ↦ rw stay (h, tt)
  ]
  All-trim_end_cons c (d ∷ ds) h hs = (h, hs)

  pub All-trim_end : (t : Text) → All P t → All P (trim_end p t)
  unfolding trim_end
  All-trim_end [] h = tt
  All-trim_end (c ∷ cs) h = All-trim_end_cons c (trim_end p cs) h.0 (All-trim_end cs h.1)

  pub All-trim : (t : Text) → All P t → All P (trim p t)
  unfolding trim
  All-trim t h = All-trim_end (trim_start p t) (All-trim_start t h)

-- A parser that reads a number, or a text, and goes on.
module _ {A : Type 0} {Q : A → Type 0} (e : Endian) (k : ℕ) where
  pub u32-then :
      {f : ℕ → Parse A} → ((n : ℕ) → Reads k Q (f n)) → Reads (4 + k) Q (read_u32 e >>= f)
  u32-then next = Reads-bind 4 k _ Q _ _ (read_u32-Reads e) (λ n _. next n)

  pub text-then :
      (n : ℕ) {f : Text → Parse A}
      → ((t : Text) → IsPrintable t → Reads k Q (f t))
      → Reads (n + k) Q (read_string n >>= f)
  text-then n next = Reads-bind n k _ Q _ _ (read_string-Reads n) (λ t h. next t h.0)
