-- ===== src/Config/Documents.antt =====
-- The documents that the daemon loads.
use bouclier_bleu.Base.{
  ◌≡◌, refl, ◌∙◌, Option, none, some, List, [], ◌∷◌, ◌++◌, All, Text, codes, text_eq, ◌⊎◌, inl, inr,
}
use bouclier_bleu.Toml.{Toml, Entries, boolean, table, end, entry, get}
use bouclier_bleu.Config.{
  States, DaemonConfig, Found, absent, unopened, opened, config, states_of, modules_of, deserialize,
  of_contents, of_file, load,
}

-- The document of a configuration.
abbrev pub entries_of : States → Entries
entries_of [] = end
entries_of ((name, b) ∷ rest) = entry name (boolean b) (entries_of rest)

abbrev pub document_of : DaemonConfig → Toml
document_of c = table (entry (codes "modules") (table (entries_of c.modules)) end)

states_of-entries_of : (s : States) → states_of (entries_of s) ≡ some s
unfolding states_of
states_of-entries_of [] = refl
states_of-entries_of ((name, b) ∷ rest) = rw (states_of-entries_of rest) refl

deserialize-document_of : (c : DaemonConfig) → deserialize (some (document_of c)) ≡ some c
unfolding deserialize modules_of get text_eq
deserialize-document_of c = rw (deserialize, states_of-entries_of c.modules) refl

-- A search path that gives no file to read.
abbrev pub IsSkipped : Found → Type 0
IsSkipped absent = Unit
IsSkipped unopened = Unit
IsSkipped (opened f) = (f.owner ≡ none) ⊎ ((f.owner ≡ some 0) × (f.contents ≡ none))

module _ (parse_toml : Text → Option Toml) where
  skipped-load :
      (paths rest : List Found)
      → All IsSkipped paths
      → load parse_toml (paths ++ rest) ≡ load parse_toml rest
  unfolding load of_file
  skipped-load [] rest h = refl
  skipped-load (absent ∷ paths) rest h = skipped-load paths rest h.1
  skipped-load (unopened ∷ paths) rest h = skipped-load paths rest h.1
  skipped-load (opened f ∷ paths) rest h = elim h.0 [
    | inl nameless ↦ rw nameless (skipped-load paths rest h.1)
    | inr (root, unread) ↦ rw (root, unread) (skipped-load paths rest h.1)
  ]

  -- The first file that can be read decides: if root owns it and it holds the document of a
  -- configuration, the daemon runs with that configuration, whatever files come later.
  pub load-document_of :
      (paths rest : List Found) (text : Text) (c : DaemonConfig)
      → All IsSkipped paths
      → parse_toml text ≡ some (document_of c)
      → load parse_toml (paths ++ opened (record { owner = some 0; contents = some text }) ∷ rest)
        ≡ config c
  unfolding load of_file of_contents
  load-document_of paths rest text c skipped parsed =
      skipped-load paths _ skipped ∙ rw (of_contents, parsed, deserialize-document_of c) refl
