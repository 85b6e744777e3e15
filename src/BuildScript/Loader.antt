-- ===== src/BuildScript/Loader.antt =====
-- The build and the loader of the daemon together: what stands in the directory bpf can be loaded.
use bouclier_bleu.Base.{
  ◌≡◌, refl, true, false, Option, none, some, List, [], ◌∷◌, ◌++◌, any, arith, Text, text_eq,
  text_eq_refl, ok, Bool-cases, inl, inr,
}
use bouclier_bleu.Exec.Ensures.{Holds-ok}
use bouclier_bleu.Module.{Capacities}
use bouclier_bleu.Loader.{Libbpf, load_arm, load_module}
use bouclier_bleu.BuildScript.{
  ModuleNames, BpfFile, Toolchain, Variables, Build, suffix, bpf_dir, ends_with, main,
  available_modules,
}
use bouclier_bleu.BuildScript.Names.{trim_end_matches-append, ends_with-append}
use bouclier_bleu.BuildScript.Steps.{is_source, modules_of}
use bouclier_bleu.BuildScript.Loading.{main-Complete}

module _ (m : Text) (e : BpfFile) (is_file : e.is_file ≡ true) (named : e.name ≡ m ++ suffix) where
  is_source-named : is_source e ≡ true
  is_source-named = rw (is_file, named) (ends_with-append m)

  known :
      (before after : List (Option BpfFile))
      → ends_with m suffix ≡ false
      → any (text_eq m) (modules_of (before ++ some e ∷ after)) ≡ true
  known [] after short =
      rw (is_source-named, named, trim_end_matches-append m short, text_eq_refl m) refl
  known (none ∷ before) after short = known before after short
  known (some x ∷ before) after short = elim (Bool-cases (is_source x)) [
    | inl source ↦ rw source (ground (arith, known before after short))
    | inr other ↦ rw other (known before after short)
  ]

-- After a build that ended without a panic, whatever else it met in a directory that reads the same
-- whenever it is read, the loader has an arm for every regular file `m.bpf.c` there, if m does not
-- itself end with `.bpf.c`: loading m is opening, sizing, loading and attaching its object, and is not
-- answered that the module is not found.
pub load_module-main :
    (tools : Toolchain) (vars : Variables) (before after : List (Option BpfFile)) (e : BpfFile)
    (m : Text) (b : Build tools) (ms : List ModuleNames)
    → ((s : tools.State) → tools.read_dir bpf_dir s ≡ some (before ++ some e ∷ after))
    → e.is_file ≡ true
    → e.name ≡ m ++ suffix
    → ends_with m suffix ≡ false
    → (main tools vars b).0 ≡ ok ms
    → (lib : Libbpf) (capacities : Capacities) (hook : lib.Open → lib.Open)
    → load_module lib (available_modules ms) m capacities hook ≡ load_arm lib m capacities hook
unfolding load_module
load_module-main tools vars before after e m b ms lists is_file named short built lib capacities
      hook =
    let complete =
      Holds-ok (λ ms _. available_modules ms ≡ modules_of (before ++ some e ∷ after)) _
        (main tools vars b) ms (main-Complete tools vars (before ++ some e ∷ after) lists b)
        built in
    rw (complete, known m e is_file named before after short) refl
