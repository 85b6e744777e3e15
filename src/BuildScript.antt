-- ===== src/BuildScript.antt =====
-- The build script core/build.rs: it brings the kernel's types, compiles every C file of the
-- directory bpf, and writes the loader that knows a skeleton for each of them.
pub mod Names
pub mod Steps
pub mod Loading
pub mod Loader
use bouclier_bleu.Base.{
  ℕ, ◌==◌, ◌&&◌, not, Bool, true, false, Option, none, some, List, [], ◌∷◌, ◌++◌, map, Text, codes,
  text_eq, split, Line, lit, str, Outcome, ok, err, if◌then◌else◌,
}
use bouclier_bleu.Base.Utf8.{from_utf8_lossy}
use bouclier_bleu.Reader.{Bytes}
use bouclier_bleu.Exec.{Exec, pure, fail, unless, ◌>>=◌, ◌>>◌}
use bouclier_bleu.Xtask.Machine.{Output}

-- What the loader holds for one C file: the name of its module, the file of its skeleton, and the
-- types in it.
pub record ModuleNames : Type 0 where
  pub mod_ident : Text
  pub skel_name : Text
  pub builder_ident : Text
  pub skel_ident : Text

-- An entry of the directory: its name, whether it is UTF-8, and whether it is a regular file.
pub record BpfFile : Type 0 where
  pub name : Text
  pub is_utf8 : Bool
  pub is_file : Bool

-- The machine that builds, the clang and bpftool behind `SkeletonBuilder`, the identifiers that
-- `format_ident` takes, the upper case of Unicode, and the code that `quote` writes.
pub record Toolchain : Type 1 where
  pub State : Type 0
  pub exists : Text → State → Bool
  pub create_dir_all : Text → State → Bool × State
  pub copy : Text → Text → State → Bool × State
  pub run : List Text → State → Option Output × State
  pub write : Text → Bytes → State → Bool × State
  pub read_dir : Text → State → Option (List (Option BpfFile))
  pub build_and_generate : Text → List Text → Text → State → Outcome Text (Unit {0}) × State
  pub is_ident : Text → Bool
  pub to_uppercase : ℕ → Text
  pub render : List ModuleNames → Bytes

-- The variables that the script reads.
pub record Variables : Type 0 where
  pub out_dir : Option Text
  pub vmlinux_h_path : Option Text

-- `str::ends_with` a text.
unfoldable pub ends_with : Text → Text → Bool
ends_with [] part = text_eq [] part
ends_with (c ∷ cs) part =
    let shorter = ends_with cs part in if text_eq (c ∷ cs) part then true else shorter

-- `trim_end_matches` with a text: every copy of it at the end goes.
unfoldable pub trim_end_matches : Text → Text → Text
trim_end_matches [] part = []
trim_end_matches (c ∷ cs) part =
    let kept = c ∷ trim_end_matches cs part in if text_eq kept part then [] else kept

abbrev pub or_else : {A : Type 0} → Option A → Option A → Option A
or_else none o = o
or_else (some a) o = some a

abbrev pub concat : List Text → Text
concat [] = []
concat (t ∷ ts) = t ++ concat ts

-- `Path::extension`: what follows the last dot, if something stands before that dot.
unfoldable pub extension_from : Bool → Text → Option Text
extension_from seen [] = none
extension_from seen (c ∷ cs) =
    let later = extension_from true cs in
    if c == b'.' then or_else later (if seen then some cs else none) else later

unfoldable pub has_extension : Text → Text → Bool
unfolding extension_from
has_extension wanted name = elim (extension_from false name) [
  | none ↦ text_eq [] wanted
  | some e ↦ text_eq e wanted
]

-- `Path::join` with a name that is not absolute.
abbrev pub join : Text → Text → Text
join dir name = dir ++ b'/' ∷ name

abbrev pub suffix : Text
suffix = codes ".bpf.c"

abbrev pub bpf_dir : Text
bpf_dir = codes "../bpf"

abbrev pub bpf_include_dir : Text
bpf_include_dir = join bpf_dir (codes "include")

abbrev pub vmlinux_path : Text
vmlinux_path = join bpf_include_dir (codes "vmlinux.h")

module _ (tools : Toolchain) where
  open tools use {State, to_uppercase, is_ident}

  -- One word: its first character in upper case.
  unfoldable pub capitalized : Text → Text
  capitalized [] = []
  capitalized (c ∷ cs) = to_uppercase c ++ cs

  unfoldable pub snake_to_camel : Text → Text
  unfolding capitalized
  snake_to_camel s = concat (map capitalized (split b'_' s))

  -- The state of the machine, and the lines for cargo.
  pub record Build : Type 0 where
    pub out : List Line
    pub machine : State

  -- An action of the script; its error is the message of a panic.
  abbrev pub Script : Type 0 → Type 0
  Script A = Exec Build Line A

  abbrev pub say : Line → Script (Unit {0})
  say line b = (ok tt, record b { out = b.out ++ line ∷ [] })

  -- A call that answers whether it succeeded, under `expect`.
  abbrev pub expects : Line → Bool × State → List Line → Outcome Line (Unit {0}) × Build
  expects message (true, m) lines = (ok tt, record { out = lines; machine = m })
  expects message (false, m) lines = (err message, record { out = lines; machine = m })

  abbrev pub expect : Line → (State → Bool × State) → Script (Unit {0})
  expect message call b = expects message (call b.machine) b.out

  abbrev pub given : {A : Type 0} → Line → Option A → Script A
  given message none = fail message
  given message (some a) = pure a

  unfoldable pub include_dir : Script (Unit {0})
  include_dir b =
      if tools.exists bpf_include_dir b.machine
      then (ok tt, b)
      else expect (lit "Failed to construct ../bpf/include directory" ∷ [])
          (tools.create_dir_all bpf_include_dir) b

  abbrev pub ran : Option Output × State → List Line → Outcome Line Output × Build
  ran (none, m) lines = (
    err (lit "Failed to execute bpftool. Is linux-tools-common installed?" ∷ []),
    record { out = lines; machine = m },
  )
  ran (some o, m) lines = (ok o, record { out = lines; machine = m })

  unfoldable pub bpftool : Script Output
  bpftool b =
      ran
        (tools.run
          (map codes
            ("bpftool" ∷ "btf" ∷ "dump" ∷ "file" ∷ "/sys/kernel/btf/vmlinux" ∷ "format" ∷ "c" ∷ []))
          b.machine)
        b.out

  -- The types of the kernel: a file that the environment names, or what bpftool prints.
  unfoldable pub vmlinux : Option Text → Script (Unit {0})
  unfolding bpftool ◌>>=◌
  vmlinux (some pre_generated) = do
    say (lit "cargo:warning=Using pre-generated vmlinux.h from " ∷ str pre_generated ∷ [])
    expect (lit "Failed to copy pre-generated vmlinux.h" ∷ [])
        (tools.copy pre_generated vmlinux_path)
  vmlinux none = do
    o ← bpftool
    unless o.is_success (
        fail
          (lit "Failed to dump vmlinux.h. bpftool stderr: " ∷ str (from_utf8_lossy o.stderr) ∷ []))
    expect (lit "Failed to write dynamically generated vmlinux.h" ∷ [])
        (tools.write vmlinux_path o.stdout)

  abbrev pub built :
      Text → Outcome Text (Unit {0}) × State → List Line → Outcome Line (Unit {0}) × Build
  built file_name (ok done, m) lines = (ok tt, record { out = lines; machine = m })
  built file_name (err why, m) lines = (
    err (lit "Failed to compile " ∷ str file_name ∷ lit ": " ∷ str why ∷ []),
    record { out = lines; machine = m },
  )

  unfoldable pub compile : Text → Text → Text → Script (Unit {0})
  compile out_dir file_name skel_name b =
      built file_name
        (tools.build_and_generate (join bpf_dir file_name)
          ((codes "-I" ++ bpf_include_dir) ∷ (codes "-I" ++ out_dir) ∷ []) (join out_dir skel_name)
          b.machine)
        b.out

  -- `format_ident!`, which panics at what is no identifier.
  unfoldable pub format_ident : Text → Script Text
  format_ident name =
      if is_ident name then pure name else fail (str name ∷ lit " is not a valid Ident" ∷ [])

  -- A C file becomes a skeleton with the names of its types.
  unfoldable pub generate : Text → Text → Script ModuleNames
  unfolding compile format_ident snake_to_camel trim_end_matches ◌>>=◌
  generate out_dir file_name = do
    let base_name = trim_end_matches file_name suffix
    let skel_name = base_name ++ codes ".skel.rs"
    compile out_dir file_name skel_name
    mod_ident ← format_ident base_name
    builder_ident ← format_ident (snake_to_camel base_name ++ codes "SkelBuilder")
    skel_ident ← format_ident (snake_to_camel base_name ++ codes "Skel")
    pure (record {
      mod_ident = mod_ident;
      skel_name = skel_name;
      builder_ident = builder_ident;
      skel_ident = skel_ident;
    })

  -- The rest of the directory, and the module in front of those it gives.
  abbrev pub pushed : Script ModuleNames → Script (List ModuleNames) → Script (List ModuleNames)
  pushed task rest = do one ← task; others ← rest; pure (one ∷ others)

  -- The loop over the directory; an entry that cannot be read is a panic, and so is a C file's name
  -- that is not UTF-8.
  unfoldable pub scan : Text → List (Option BpfFile) → Script (List ModuleNames)
  unfolding generate has_extension ends_with
  scan out_dir [] = pure []
  scan out_dir (none ∷ rest) = fail (lit "called `Result::unwrap()` on an `Err` value" ∷ [])
  scan out_dir (some e ∷ rest) =
      let others = scan out_dir rest in
      if e.is_file && has_extension (codes "c") e.name
      then if not e.is_utf8
        then fail (lit "called `Option::unwrap()` on a `None` value" ∷ [])
        else if ends_with e.name suffix
        then pushed (generate out_dir e.name) others
        else others
      else others

  unfoldable pub listing : Script (List (Option BpfFile))
  listing b = given (lit "Failed to read bpf dir" ∷ []) (tools.read_dir bpf_dir b.machine) b

  -- The loader is written for the modules.
  unfoldable pub store : Text → List ModuleNames → Script (List ModuleNames)
  unfolding ◌>>=◌
  store out_dir modules = do
    expect (lit "Failed to write bpf_loader.rs" ∷ [])
        (tools.write (join out_dir (codes "bpf_loader.rs")) (tools.render modules))
    pure modules

  -- `main`: the modules for which the loader was written.
  unfoldable pub main : Variables → Script (List ModuleNames)
  unfolding include_dir vmlinux listing scan store ◌>>=◌
  main vars = do
    out_dir ← given (lit "OUT_DIR must be set" ∷ []) vars.out_dir
    say (lit "cargo:rerun-if-changed=../bpf" ∷ [])
    include_dir
    vmlinux vars.vmlinux_h_path
    entries ← listing
    modules ← scan out_dir entries
    store out_dir modules

-- `available_modules` of the generated loader.
unfoldable pub available_modules : List ModuleNames → List Text
available_modules = map (λ m. m.mod_ident)
