-- ===== src/Command/RoundTrip.antt =====
-- The daemon reads back what the client sends.
use bouclier_bleu.Base.{
  ℕ, zero, suc, ◌≤◌, ◌≡◌, ◌≢◌, refl, ◌∙◌, ap, Bool, false, some, [], ◌∷◌, ◌++◌, arith, length,
  length-append, All-append, take, All, Text, codes, trim, trim_start, trim_end, is_whitespace,
  split_whitespace, words_from, with_word, ok, text_eq,
}
use bouclier_bleu.Base.Utf8.{decode, from_utf8_lossy}
use mathlib.Core.List.{append-nil, append_assoc}
use bouclier_bleu.Base.Utf8.Ascii.{IsAscii, from_utf8_lossy-ascii}
use bouclier_bleu.Command.{
  DaemonCmd, Commands, Unicode, payload, parse_buffer, parse_command, command_of, command_of_words,
  to_uppercase, char_upper,
}

abbrev pub IsWord : Text → Type 0
IsWord = All (λ c. is_whitespace c ≡ false)

trim_start-word : (p : ℕ → Bool) (c : ℕ) (cs : Text) → p c ≡ false → trim_start p (c ∷ cs) ≡ c ∷ cs
unfolding trim_start
trim_start-word p c cs h = rw h

trim_end-word :
    (p : ℕ → Bool) (c : ℕ) (cs : Text)
    → All (λ d. p d ≡ false) (c ∷ cs)
    → trim_end p (c ∷ cs) ≡ c ∷ cs
unfolding trim_end
trim_end-word p c [] h = rw h.0
trim_end-word p c (d ∷ ds) h = rw (trim_end-word p d ds h.1)

trim_end-append :
    (p : ℕ → Bool) (xs : Text) (c : ℕ) (cs : Text)
    → All (λ d. p d ≡ false) (c ∷ cs)
    → trim_end p (xs ++ c ∷ cs) ≡ xs ++ c ∷ cs
unfolding trim_end
trim_end-append p [] c cs h = trim_end-word p c cs h
trim_end-append p (x ∷ []) c cs h = rw (trim_end-word p c cs h)
trim_end-append p (x ∷ y ∷ ys) c cs h = rw (trim_end-append p (y ∷ ys) c cs h)

trim_end-two :
    (v : ℕ) (vs : Text) (c : ℕ) (cs : Text)
    → IsWord (c ∷ cs)
    → trim_end is_whitespace ((v ∷ vs) ++ (b' ' ∷ c ∷ cs)) ≡ (v ∷ vs) ++ (b' ' ∷ c ∷ cs)
trim_end-two v vs c cs h =
    let shifted = append_assoc (v ∷ vs) (b' ' ∷ []) (c ∷ cs) in
    rw shifted at (trim_end-append is_whitespace ((v ∷ vs) ++ (b' ' ∷ [])) c cs h)

words_from-word :
    (word cs rest : Text) → IsWord cs → words_from word (cs ++ rest) ≡ words_from (word ++ cs) rest
unfolding words_from
words_from-word word [] rest h = rw append-nil
words_from-word word (c ∷ cs) rest h =
    rw h.0 (words_from-word (word ++ c ∷ []) cs rest h.1 ∙ rw (append_assoc word (c ∷ []) cs))

take-all : (n : ℕ) (t : Text) → length t ≤ n → take n t ≡ t
take-all zero [] h = refl
take-all zero (c ∷ cs) h = absurd (omega arith)
take-all (suc n) [] h = refl
take-all (suc n) (c ∷ cs) h = ap (◌∷◌ c) (take-all n cs (omega arith))

words_from-last : (word cs : Text) → IsWord cs → words_from word cs ≡ with_word (word ++ cs) []
unfolding words_from
words_from-last word [] h = rw append-nil
words_from-last word (c ∷ cs) h =
    rw h.0 (words_from-last (word ++ c ∷ []) cs h.1 ∙ rw (append_assoc word (c ∷ []) cs))

-- Two words with a space between them.
split-two :
    (verb : Text) (c : ℕ) (cs : Text)
    → IsWord verb
    → IsWord (c ∷ cs)
    → split_whitespace (verb ++ (b' ' ∷ c ∷ cs)) ≡ with_word verb ((c ∷ cs) ∷ [])
unfolding split_whitespace
split-two verb c cs hv hc =
    words_from-word [] verb (b' ' ∷ c ∷ cs) hv
    ∙ ap (with_word verb) (words_from-last [] (c ∷ cs) hc)

-- A name that the client can send whole: ASCII with no white space, not empty, and short enough for the 1024 bytes that the daemon reads.
pub record IsName (name : Text) : Type 0 where
  pub ascii : IsAscii name
  pub word : IsWord name
  pub ne_nil : name ≢ []
  pub fits : length name ≤ 1016

abbrev pub IsSendable : Commands → Type 0
IsSendable (Commands.enable name) = IsName name
IsSendable (Commands.disable name) = IsName name
IsSendable _ = Unit

abbrev pub request : Commands → DaemonCmd
request Commands.status = DaemonCmd.status
request Commands.list = DaemonCmd.list
request (Commands.enable name) = DaemonCmd.enable name
request (Commands.disable name) = DaemonCmd.disable name

abbrev line : ℕ → Text → ℕ → Text → Text
line v vs c cs = (v ∷ vs) ++ (b' ' ∷ c ∷ cs)

target-parse :
    (wide : Unicode) (v : ℕ) (vs : Text) (c : ℕ) (cs : Text)
    → IsWord (v ∷ vs)
    → IsAscii (v ∷ vs)
    → length (v ∷ vs) ≤ 7
    → IsName (c ∷ cs)
    → parse_command wide (some (line v vs c cs))
      ≡ command_of wide (to_uppercase wide (v ∷ vs)) ((c ∷ cs) ∷ [])
unfolding parse_command parse_buffer command_of_words trim
target-parse wide v vs c cs hw ha hl h = rw (
  take-all 1024 (line v vs c cs)
      (omega (arith, length-append {0} (v ∷ vs) (b' ' ∷ c ∷ cs), h.fits)),
  from_utf8_lossy-ascii (line v vs c cs)
      (All-append _ (v ∷ vs) (b' ' ∷ c ∷ cs) ha (omega arith, h.ascii)),
  trim_start-word is_whitespace v (vs ++ (b' ' ∷ c ∷ cs)) hw.0,
  trim_end-two v vs c cs h.word,
  split-two (v ∷ vs) c cs hw h.word,
)

enable-parse :
    (wide : Unicode) (name : Text)
    → IsName name
    → parse_command wide (some (payload (Commands.enable name))) ≡ ok (some (DaemonCmd.enable name))
unfolding payload to_uppercase char_upper command_of text_eq is_whitespace
enable-parse wide [] h = absurd (h.ne_nil refl)
enable-parse wide (c ∷ cs) h =
    let word : IsWord (codes "ENABLE") = (refl, (refl, (refl, (refl, (refl, (refl, tt)))))) in
    let ascii : IsAscii (codes "ENABLE") = (
      omega arith,
      (omega arith, (omega arith, (omega arith, (omega arith, (omega arith, tt))))),
    ) in
    target-parse wide b'E' (codes "NABLE") c cs word ascii (omega arith) h

disable-parse :
    (wide : Unicode) (name : Text)
    → IsName name
    → parse_command wide (some (payload (Commands.disable name)))
      ≡ ok (some (DaemonCmd.disable name))
unfolding payload to_uppercase char_upper command_of text_eq is_whitespace
disable-parse wide [] h = absurd (h.ne_nil refl)
disable-parse wide (c ∷ cs) h =
    let word : IsWord (codes "DISABLE") =
      (refl, (refl, (refl, (refl, (refl, (refl, (refl, tt))))))) in
    let ascii : IsAscii (codes "DISABLE") = (
      omega arith,
      (omega arith, (omega arith, (omega arith, (omega arith, (omega arith, (omega arith, tt)))))),
    ) in
    target-parse wide b'D' (codes "ISABLE") c cs word ascii (omega arith) h

-- The daemon parses the payload that the client sends for a subcommand as the command of the same
-- name, with the same target, if a target is a name that fits the 1024 bytes the daemon reads.
pub parse-payload :
    (wide : Unicode) (c : Commands)
    → IsSendable c
    → parse_command wide (some (payload c)) ≡ ok (some (request c))
unfolding payload to_uppercase char_upper command_of parse_command parse_buffer command_of_words
    trim trim_start trim_end split_whitespace words_from from_utf8_lossy decode text_eq
parse-payload wide Commands.status h = refl
parse-payload wide Commands.list h = refl
parse-payload wide (Commands.enable name) h = enable-parse wide name h
parse-payload wide (Commands.disable name) h = disable-parse wide name h
