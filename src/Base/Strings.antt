-- ===== src/Base/Strings.antt =====
-- Text as a list of code points, and what the program uses of `str`: equality, prefixes, trimming,
-- splitting and ASCII case. A line that is printed is a list of pieces, as `format!` takes them.
use Prim.Native.Char.{code}
use Prim.Native.String.{String}
use Prim.Native.Nat.{ℕ, ◌-◌}
use mathlib.Core.Path.{◌≡◌, refl}
use mathlib.Core.Logic.{◌↔◌}
use mathlib.Core.Bool.{Bool, true, false, ◌&&◌, ◌||◌}
use mathlib.Core.List.{List, [], ◌∷◌, ◌++◌}
use native.Mathlib.Omega.{arith}
use bouclier_bleu.Base.Tests.{◌==◌, if◌then◌else◌, within}

abbrev pub Text : Type 0
Text = List ℕ

abbrev pub codes : String → Text
codes String.[] = []
codes (String.◌∷◌ c s) = code c ∷ codes s

-- `==` on texts.
unfoldable pub text_eq : Text → Text → Bool
text_eq [] [] = true
text_eq (x ∷ xs) (y ∷ ys) = x == y && text_eq xs ys
text_eq _ _ = false

pub text_eq_iff : (a b : Text) → (text_eq a b ≡ true) ↔ (a ≡ b)
unfolding text_eq
text_eq_iff (x ∷ a) (y ∷ b) = ground (arith, text_eq_iff a b)
text_eq_iff _ _ = ground arith

pub text_eq_refl : (a : Text) → text_eq a a ≡ true
text_eq_refl a = (text_eq_iff a a).1 refl

-- `str::starts_with`
unfoldable pub starts_with : Text → Text → Bool
starts_with text [] = true
starts_with [] (p ∷ ps) = false
starts_with (c ∷ cs) (p ∷ ps) = c == p && starts_with cs ps

-- `str::contains` of a text.
unfoldable pub contains_text : Text → Text → Bool
unfolding starts_with
contains_text [] part = starts_with [] part
contains_text (c ∷ cs) part = starts_with (c ∷ cs) part || contains_text cs part

-- `trim_start_matches` by a test.
unfoldable pub trim_start : (ℕ → Bool) → Text → Text
trim_start p [] = []
trim_start p (c ∷ cs) = let rest = trim_start p cs in if p c then rest else c ∷ cs

-- `trim_end_matches` by a test: a tail that passes throughout is dropped.
unfoldable pub trim_end_cons : (ℕ → Bool) → ℕ → Text → Text
trim_end_cons p c [] = if p c then [] else c ∷ []
trim_end_cons p c (d ∷ ds) = c ∷ d ∷ ds

unfoldable pub trim_end : (ℕ → Bool) → Text → Text
unfolding trim_end_cons
trim_end p [] = []
trim_end p (c ∷ cs) = trim_end_cons p c (trim_end p cs)

-- `trim_matches` by a test.
unfoldable pub trim : (ℕ → Bool) → Text → Text
unfolding trim_start trim_end
trim p text = trim_end p (trim_start p text)

-- `char::is_whitespace`: the code points with the property White_Space.
unfoldable pub is_whitespace : ℕ → Bool
is_whitespace c =
    within 0x9 0xd c
    || c == 0x20
    || c == 0x85
    || c == 0xa0
    || c == 0x1680
    || within 0x2000 0x200a c
    || c == 0x2028
    || c == 0x2029
    || c == 0x202f
    || c == 0x205f
    || c == 0x3000

-- Puts the word read so far in front of the words that follow, unless it is empty.
abbrev pub with_word : Text → List Text → List Text
with_word [] rest = rest
with_word (c ∷ cs) rest = (c ∷ cs) ∷ rest

-- `str::split_whitespace`, with the word read so far.
unfoldable pub words_from : Text → Text → List Text
words_from word [] = with_word word []
words_from word (c ∷ cs) =
    let here = words_from [] cs in
    let later = words_from (word ++ c ∷ []) cs in
    if is_whitespace c then with_word word here else later

unfoldable pub split_whitespace : Text → List Text
unfolding words_from is_whitespace
split_whitespace = words_from []

-- `str::split` at a character, with the part read so far.
unfoldable pub parts_from : Text → ℕ → Text → List Text
parts_from part sep [] = part ∷ []
parts_from part sep (c ∷ cs) =
    let here = parts_from [] sep cs in
    let later = parts_from (part ++ c ∷ []) sep cs in if c == sep then part ∷ here else later

unfoldable pub split : ℕ → Text → List Text
unfolding parts_from
split sep text = parts_from [] sep text

-- `char::to_ascii_uppercase`
abbrev pub to_ascii_upper : ℕ → ℕ
to_ascii_upper c = if within b'a' b'z' c then c - 32 else c

-- `char::is_ascii_graphic`
abbrev pub is_ascii_graphic : ℕ → Bool
is_ascii_graphic c = within 0x21 0x7e c

-- One argument of `format!`, `println!` or `eprintln!`.
pub data Piece : Type 0 where
  lit : String → Piece
  num : ℕ → Piece
  str : Text → Piece
  -- `{:?}`: the text in quotes, with its escapes
  debug : Text → Piece

abbrev pub Line : Type 0
Line = List Piece
