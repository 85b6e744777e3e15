-- ===== src/BuildScript/Steps.antt =====
-- The steps of the build: what each leads to, where all works and where anything may fail.
use bouclier_bleu.Base.{
  ◌≡◌, refl, ◌⊎◌, inl, inr, Bool, true, false, ◌&&◌, Option, none, some, List, [], ◌∷◌, ◌++◌, Text,
  Line, codes, Outcome, ok, err, if◌then◌else◌, Bool-cases,
}
use bouclier_bleu.Reader.{Bytes}
use bouclier_bleu.Xtask.Machine.{Output}
use bouclier_bleu.Exec.{fail, unless, ◌>>=◌}
use bouclier_bleu.Exec.Ensures.{Holds, Leads, bind-Leads}
use bouclier_bleu.BuildScript.{
  ModuleNames, BpfFile, Toolchain, Build, Script, suffix, bpf_include_dir, vmlinux_path, ends_with,
  has_extension, trim_end_matches, snake_to_camel, expect, expects, include_dir, bpftool, ran,
  vmlinux, compile, built, format_ident, generate,
}

-- The C files of the kernel's modules, told by their names alone.
abbrev pub is_source : BpfFile → Bool
is_source e = e.is_file && ends_with e.name suffix

-- Their modules, in the order of the directory.
abbrev pub modules_of : List (Option BpfFile) → List Text
modules_of [] = []
modules_of (none ∷ rest) = modules_of rest
modules_of (some e ∷ rest) =
    if is_source e then trim_end_matches e.name suffix ∷ modules_of rest else modules_of rest

-- Every call of the machine succeeds.
pub record Works (tools : Toolchain) : Type 0 where
  pub creates : (p : Text) (m : tools.State) → (tools.create_dir_all p m).0 ≡ true
  pub copies : (p q : Text) (m : tools.State) → (tools.copy p q m).0 ≡ true
  pub runs :
      (args : List Text) (m : tools.State)
      → (o : Output) × ((tools.run args m).0 ≡ some o) × (o.is_success ≡ true)
  pub writes : (p : Text) (c : Bytes) (m : tools.State) → (tools.write p c m).0 ≡ true
  pub builds :
      (source : Text) (args : List Text) (target : Text) (m : tools.State)
      → (tools.build_and_generate source args target m).0 ≡ ok tt

-- The names that a C file gives are identifiers.
abbrev pub AreIdents : Toolchain → Text → Type 0
AreIdents tools name =
    (tools.is_ident name ≡ true)
    × (tools.is_ident (snake_to_camel tools name ++ codes "SkelBuilder") ≡ true)
    × (tools.is_ident (snake_to_camel tools name ++ codes "Skel") ≡ true)

-- An entry that can be read: a C file's name is UTF-8, and a module's gives identifiers.
abbrev pub IsFit : Toolchain → Option BpfFile → Type 0
IsFit tools none = ⊥
IsFit tools (some e) =
    ((e.is_file && has_extension (codes "c") e.name ≡ true) → e.is_utf8 ≡ true)
    × ((is_source e ≡ true) → AreIdents tools (trim_end_matches e.name suffix))

-- `R` is what may hold after a panic: anything, or nothing where all works.
module _ (tools : Toolchain) (R : Type 0) where
  abbrev pub Any : {A : Type 0} → A → Build tools → Type 0
  Any a b = Unit

  abbrev pub Start : Build tools → Type 0
  Start b = Unit

  abbrev pub Panic : Build tools → Type 0
  Panic b = R

  expects-Holds :
      (message : Line) (r : Bool × tools.State) (lines : List Line)
      → R ⊎ (r.0 ≡ true)
      → Holds Any Panic (expects tools message r lines)
  expects-Holds message (true, m) lines h = tt
  expects-Holds message (false, m) lines (inl r) = r
  expects-Holds message (false, m) lines (inr h) = cc h

  pub where_works : {P Q : Type 0} → (P → Q) → R ⊎ P → R ⊎ Q
  where_works f (inl r) = inl r
  where_works f (inr p) = inr (f p)

  pub expect-Leads :
      (message : Line) (call : tools.State → Bool × tools.State)
      → R ⊎ ((m : tools.State) → (call m).0 ≡ true)
      → Leads Start (expect tools message call) Any Panic
  expect-Leads message call works b h =
      expects-Holds message (call b.machine) b.out (where_works (λ w. w b.machine) works)

  pub include_dir-Leads : R ⊎ Works tools → Leads Start (include_dir tools) Any Panic
  unfolding include_dir
  include_dir-Leads works b h = elim (Bool-cases (tools.exists bpf_include_dir b.machine)) [
    | inl there ↦ rw there tt
    | inr missing ↦ rw missing (
        expect-Leads _ (tools.create_dir_all bpf_include_dir)
          (where_works (λ w. w.creates bpf_include_dir) works) b tt)
  ]

  ran-Holds :
      (r : Option Output × tools.State) (lines : List Line)
      → R ⊎ ((o : Output) × (r.0 ≡ some o) × (o.is_success ≡ true))
      → Holds (λ o b. R ⊎ (o.is_success ≡ true)) Panic (ran tools r lines)
  ran-Holds (none, m) lines (inl r) = r
  ran-Holds (none, m) lines (inr (o, h, s)) = cc h
  ran-Holds (some x, m) lines (inl r) = inl r
  ran-Holds (some x, m) lines (inr (o, h, s)) = let e : o ≡ x = cc h in inr (rw (← e) s)

  bpftool-Leads :
      R ⊎ Works tools → Leads Start (bpftool tools) (λ o b. R ⊎ (o.is_success ≡ true)) Panic
  unfolding bpftool
  bpftool-Leads works b h = ran-Holds _ b.out (where_works (λ w. w.runs _ b.machine) works)

  -- The assertion on what bpftool answered.
  unless-Leads :
      (done : Bool) (message : Line)
      → Leads (λ b. R ⊎ (done ≡ true)) (unless done (fail {S = Build tools} message)) Any Panic
  unless-Leads true message b h = tt
  unless-Leads false message b (inl r) = r
  unless-Leads false message b (inr h) = cc h

  pub vmlinux-Leads :
      (path : Option Text) → R ⊎ Works tools → Leads Start (vmlinux tools path) Any Panic
  unfolding vmlinux ◌>>=◌
  vmlinux-Leads (some p) works = λ b h.
      expect-Leads _ (tools.copy p vmlinux_path) (where_works (λ w. w.copies p vmlinux_path) works)
        _ tt
  vmlinux-Leads none works =
      bind-Leads Start (λ o b. R ⊎ (o.is_success ≡ true)) Any Panic (bpftool tools) _
        (bpftool-Leads works)
        λ o.
          bind-Leads (λ b. R ⊎ (o.is_success ≡ true)) Any Any Panic (unless o.is_success _) _
            (unless-Leads o.is_success _)
            λ done.
              expect-Leads _ (tools.write vmlinux_path o.stdout)
                (where_works (λ w. w.writes vmlinux_path o.stdout) works)

  built-Holds :
      (file_name : Text) (r : Outcome Text (Unit {0}) × tools.State) (lines : List Line)
      → R ⊎ (r.0 ≡ ok tt)
      → Holds Any Panic (built tools file_name r lines)
  built-Holds file_name (ok done, m) lines h = tt
  built-Holds file_name (err why, m) lines (inl r) = r
  built-Holds file_name (err why, m) lines (inr h) = cc h

  compile-Leads :
      (out_dir file_name skel_name : Text)
      → R ⊎ Works tools
      → Leads Start (compile tools out_dir file_name skel_name) Any Panic
  unfolding compile
  compile-Leads out_dir file_name skel_name works b h =
      built-Holds file_name _ b.out (where_works (λ w. w.builds _ _ _ b.machine) works)

  format_ident-Leads :
      (name : Text)
      → R ⊎ (tools.is_ident name ≡ true)
      → Leads Start (format_ident tools name) (λ i b. i ≡ name) Panic
  unfolding format_ident
  format_ident-Leads name (inl r) b h = elim (Bool-cases (tools.is_ident name)) [
    | inl valid ↦ rw valid refl
    | inr bad ↦ rw bad r
  ]
  format_ident-Leads name (inr valid) b h = rw valid refl

  abbrev pub Named : Text → ModuleNames → Build tools → Type 0
  Named base g b = g.mod_ident ≡ base

  -- An identifier that is refused is a panic.
  checked-Leads :
      (base name : Text) (next : Text → Script tools ModuleNames)
      → R ⊎ (tools.is_ident name ≡ true)
      → ((i : Text) → i ≡ name → Leads Start (next i) (Named base) Panic)
      → Leads Start (format_ident tools name >>= next) (Named base) Panic
  checked-Leads base name next valid later =
      bind-Leads Start (λ i b. i ≡ name) (Named base) Panic (format_ident tools name) next
        (format_ident-Leads name valid) (λ i b e. later i e b tt)

  pub generate-Leads :
      (out_dir file_name : Text)
      → R ⊎ Works tools
      → R ⊎ AreIdents tools (trim_end_matches file_name suffix)
      → Leads Start
          (generate tools out_dir file_name)
          (Named (trim_end_matches file_name suffix))
          Panic
  unfolding generate
  generate-Leads out_dir file_name works idents =
      let base = trim_end_matches file_name suffix in
      bind-Leads Start Any (Named base) Panic _ _
        (compile-Leads out_dir file_name (base ++ codes ".skel.rs") works)
        λ done. checked-Leads base base _ (where_works (λ a. a.0) idents) λ i e.
          checked-Leads base _ _ (where_works (λ a. a.1) idents)
            λ j _. checked-Leads base _ _ (where_works (λ a. a.2) idents) λ k _ b _. e
