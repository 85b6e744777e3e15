-- ===== src/Tests/Build.antt =====
-- Examples of the build: a toolchain that remembers what it compiled.
use bouclier_bleu.Base.{
  ◌≡◌, refl, Bool, true, Option, none, some, List, [], ◌∷◌, ◌++◌, Text, codes, ok, text_eq, split,
  to_ascii_upper,
}
use bouclier_bleu.Exec.{◌>>=◌}
use bouclier_bleu.Loader.{load_arm, load_module}
use bouclier_bleu.Xtask.Machine.{Output}
use bouclier_bleu.BuildScript.{
  ModuleNames, BpfFile, Toolchain, Variables, Build, suffix, ends_with, trim_end_matches,
  snake_to_camel, main, include_dir, vmlinux, bpftool, listing, scan, generate, compile,
  format_ident, capitalized, store, has_extension, extension_from, available_modules,
}
use bouclier_bleu.BuildScript.Steps.{modules_of, Works}
use bouclier_bleu.BuildScript.Loading.{main-Builds}
use bouclier_bleu.BuildScript.Loader.{load_module-main}
use bouclier_bleu.Tests.Samples.{flag_lib}

abbrev dumped : Output
dumped = record { is_success = true; code = some 0; stdout = []; stderr = [] }

-- A regular file with a name in UTF-8.
abbrev regular : Text → BpfFile
regular name = record { name = name; is_utf8 = true; is_file = true }

abbrev shield_c : BpfFile
shield_c = regular (codes "shield.bpf.c")

-- A C file, and two files that are none.
abbrev directory : List (Option BpfFile)
directory =
    some (regular (codes "exec_block.bpf.c"))
    ∷ some (regular (codes "helper.c"))
    ∷ some shield_c
    ∷ some (regular (codes "README"))
    ∷ []

abbrev toolchain : Toolchain
toolchain = record {
  State = List Text;
  exists = λ p m. true;
  create_dir_all = λ p m. (true, m);
  copy = λ p q m. (true, m);
  run = λ args m. (some dumped, m);
  write = λ p c m. (true, m);
  read_dir = λ p m. some directory;
  build_and_generate = λ source args target m. (ok tt, m ++ source ∷ []);
  is_ident = λ name. true;
  to_uppercase = λ c. to_ascii_upper c ∷ [];
  render = λ ms. [];
}

abbrev works : Works toolchain
works = record {
  creates = λ p m. refl;
  copies = λ p q m. refl;
  runs = λ args m. (dumped, refl, refl);
  writes = λ p c m. refl;
  builds = λ source args target m. refl;
}

abbrev variables : Variables
variables = record { out_dir = some (codes "/out"); vmlinux_h_path = none }

abbrev fresh_build : Build toolchain
fresh_build = record { out = []; machine = [] }

main-Builds_example :
    (ms : List ModuleNames) × ((main toolchain variables fresh_build).0 ≡ ok ms)
    × (available_modules ms ≡ modules_of directory)
main-Builds_example =
    main-Builds toolchain variables directory (λ m. refl) works (codes "/out", refl)
      (
        ((λ _. refl), (λ _. (refl, refl, refl))),
        (
          ((λ _. refl), (λ _. (refl, refl, refl))),
          (
            ((λ _. refl), (λ _. (refl, refl, refl))),
            (((λ _. refl), (λ _. (refl, refl, refl))), tt),
          ),
        ),
      )
      fresh_build

modules_of-directory : modules_of directory ≡ codes "exec_block" ∷ codes "shield" ∷ []
unfolding ends_with trim_end_matches text_eq
modules_of-directory = refl

-- What the build gives at this directory: the names of exec_block and shield.
abbrev skeletons : List ModuleNames
skeletons =
    record {
      mod_ident = codes "exec_block";
      skel_name = codes "exec_block.skel.rs";
      builder_ident = codes "ExecBlockSkelBuilder";
      skel_ident = codes "ExecBlockSkel";
    }
    ∷ record {
      mod_ident = codes "shield";
      skel_name = codes "shield.skel.rs";
      builder_ident = codes "ShieldSkelBuilder";
      skel_ident = codes "ShieldSkel";
    }
    ∷ []

main-skeletons : (main toolchain variables fresh_build).0 ≡ ok skeletons
unfolding main include_dir vmlinux bpftool listing scan generate compile format_ident snake_to_camel
    capitalized store ends_with has_extension extension_from trim_end_matches text_eq split ◌>>=◌
main-skeletons = refl

short : ends_with (codes "shield") suffix ≡ Bool.false
unfolding ends_with text_eq
short = refl

load_module-main_example :
    load_module flag_lib (available_modules skeletons) (codes "shield") [] (λ o. o)
    ≡ load_arm flag_lib (codes "shield") [] (λ o. o)
load_module-main_example =
    load_module-main toolchain variables
      (some (regular (codes "exec_block.bpf.c")) ∷ some (regular (codes "helper.c")) ∷ [])
      (some (regular (codes "README")) ∷ []) shield_c (codes "shield") fresh_build skeletons
      (λ s. refl) refl refl short main-skeletons flag_lib [] (λ o. o)
