-- ===== src/BuildScript/Names.antt =====
-- The name that a C file of the directory bpf gives to its module.
use bouclier_bleu.Base.{
  ℕ, ◌≡◌, refl, sym, subst, Bool, true, false, some, [], ◌∷◌, ◌++◌, arith, Text, codes, text_eq,
  text_eq_iff, text_eq_refl, Bool-cases, inl, inr,
}
use bouclier_bleu.BuildScript.{ends_with, trim_end_matches, extension_from, has_extension, suffix}

-- What ends with the suffix of the C files has the extension of a C file, so the test of the
-- extension refuses none of them.
extension-suffix :
    (seen : Bool) (name : Text)
    → ends_with name suffix ≡ true
    → extension_from seen name ≡ some (codes "c")
unfolding extension_from ends_with text_eq
extension-suffix seen [] h = cc
extension-suffix seen (c ∷ cs) h = elim (Bool-cases (text_eq (c ∷ cs) suffix)) [
  | inl whole ↦
      let e : c ∷ cs ≡ suffix = (text_eq_iff (c ∷ cs) suffix).0 whole in
      subst (λ t. extension_from seen t ≡ some (codes "c")) (sym e) refl
  | inr more ↦ ground (arith, extension-suffix true cs, more)
]

pub has_extension-suffix :
    (name : Text) → ends_with name suffix ≡ true → has_extension (codes "c") name ≡ true
unfolding has_extension
has_extension-suffix name h =
    rw (extension-suffix false name h, has_extension) (text_eq_refl (codes "c"))

trim_suffix : trim_end_matches suffix suffix ≡ []
unfolding trim_end_matches text_eq
trim_suffix = refl

ends_with-cons :
    (c : ℕ) (cs part : Text)
    → ends_with (c ∷ cs) part ≡ false
    → (text_eq (c ∷ cs) part ≡ false) × (ends_with cs part ≡ false)
unfolding ends_with
ends_with-cons c cs part h = (ground arith, ground arith)

trim_cons :
    (c : ℕ) (cs m part : Text)
    → trim_end_matches cs part ≡ m
    → text_eq (c ∷ m) part ≡ false
    → trim_end_matches (c ∷ cs) part ≡ c ∷ m
unfolding trim_end_matches
trim_cons c cs m part e other = rw e (rw other refl)

-- A name that does not itself end with the suffix is the module of the file that it names.
pub trim_end_matches-append :
    (m : Text) → ends_with m suffix ≡ false → trim_end_matches (m ++ suffix) suffix ≡ m
trim_end_matches-append [] h = trim_suffix
trim_end_matches-append (c ∷ cs) h =
    let (other, shorter) = ends_with-cons c cs suffix h in
    trim_cons c (cs ++ suffix) cs suffix (trim_end_matches-append cs shorter) other

pub ends_with-append : (m : Text) → ends_with (m ++ suffix) suffix ≡ true
unfolding ends_with text_eq
ends_with-append [] = refl
ends_with-append (c ∷ cs) = ground (arith, ends_with-append cs)
