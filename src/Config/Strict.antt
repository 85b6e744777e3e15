-- ===== src/Config/Strict.antt =====
-- What the typed configuration makes of the keys that other parts read from the same table.
use bouclier_bleu.Base.{
  ℕ, ◌≡◌, refl, Bool, false, Option, none, some, List, ◌∷◌, text_eq, Text, codes, inl, inr,
  Bool-cases,
}
use bouclier_bleu.Toml.{
  Toml, Entries, I64, string, other, get_table, as_integer, and_then-eq-some, boolean, integer,
  negative, table, end, entry, get,
}
use bouclier_bleu.Config.{
  States, default, Found, opened, config, with_state, states_of, modules_of, deserialize,
  of_contents, load,
}
use bouclier_bleu.Engine.{configured}
use bouclier_bleu.Modules.IoRestrict.{extracted_size}

-- A number among the values is an error.
abbrev IsNumber : Toml → Type 0
IsNumber (integer n) = Unit
IsNumber (negative n) = Unit
IsNumber _ = ⊥

with_state-none : (key : Text) (b : Bool) (o : Option States) → o ≡ none → with_state key b o ≡ none
with_state-none key b o h = rw h

number-states_of :
    (key : Text) (v : Toml) (es : Entries) → get key es ≡ some v → IsNumber v → states_of es ≡ none
unfolding get states_of
number-states_of key v end h n = cc
number-states_of key v (entry k (boolean b) rest) h n = elim (Bool-cases (text_eq k key)) [
  | inl here ↦ let e : v ≡ boolean b = cc (rw here at h) in absurd (rw e at n)
  | inr later ↦ with_state-none k b (states_of rest) (number-states_of key v rest (rw later at h) n)
]
number-states_of key v (entry k _ rest) h n = refl

as_integer-IsNumber : (v : Toml) (i : I64) → as_integer v ≡ some i → IsNumber v
as_integer-IsNumber (integer n) i h = tt
as_integer-IsNumber (negative n) i h = tt
as_integer-IsNumber (boolean b) i h = cc
as_integer-IsNumber (string t) i h = cc
as_integer-IsNumber other i h = cc
as_integer-IsNumber (table es) i h = cc

number-modules_of :
    (key : Text) (modules v : Toml)
    → get_table key modules ≡ some v
    → IsNumber v
    → modules_of (some modules) ≡ none
unfolding modules_of
number-modules_of key (table es) v h n = number-states_of key v es h n
number-modules_of key _ v h n = cc

modules-deserialize :
    (document modules : Toml)
    → get_table (codes "modules") document ≡ some modules
    → modules_of (some modules) ≡ none
    → deserialize (some document) ≡ none
unfolding deserialize
modules-deserialize (table root) modules h n =
    let found : get (codes "modules") root ≡ some modules = h in rw (deserialize, found, n) refl
modules-deserialize _ modules h n = refl

-- A document in which `io_restrict` finds the size of its map is no configuration for the daemon.
size-deserialize :
    (document : Toml) (n : ℕ)
    → extracted_size (some document) ≡ some n
    → deserialize (some document) ≡ none
unfolding extracted_size
size-deserialize document n h =
    let (modules, in_document, h₁) = and_then-eq-some (get_table (codes "modules") document) _ h in
    let (size, in_modules, h₂) =
      and_then-eq-some (get_table (codes "io_restrict_map_size") modules) _ h₁ in
    let (i, is_integer, h₃) = and_then-eq-some (as_integer size) _ h₂ in
    modules-deserialize document modules in_document (
      number-modules_of (codes "io_restrict_map_size") modules size in_modules
        (as_integer-IsNumber size i is_integer))

module _ (parse_toml : Text → Option Toml) where
  -- If the first file on the search path is owned by root and was read, and `io_restrict` finds the
  -- size of its map in the document, then the daemon loads the default configuration, in which every
  -- module is inactive, also those that the same file enables.
  pub size_disables_all :
      (text : Text) (document : Toml) (n : ℕ) (rest : List Found) (name : Text)
      → parse_toml text ≡ some document
      → extracted_size (some document) ≡ some n
      → (load parse_toml (opened (record { owner = some 0; contents = some text }) ∷ rest)
          ≡ config default)
        × (configured default name ≡ false)
  unfolding load configured
  size_disables_all text document n rest name parsed size =
      (rw (parsed, of_contents, size-deserialize document n size) refl, refl)
