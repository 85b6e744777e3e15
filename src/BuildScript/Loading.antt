-- ===== src/BuildScript/Loading.antt =====
-- The build from end to end: which modules the loader is written for.
use bouclier_bleu.Base.{
  ◌≡◌, refl, ◌⊎◌, inl, inr, Bool, true, false, not, ◌&&◌, Option, none, some, List, [], ◌∷◌, Text,
  Line, codes, lit, Outcome, ok, err, if◌then◌else◌, All,
}
use bouclier_bleu.Exec.{pure, fail, ◌>>=◌}
use bouclier_bleu.Exec.Ensures.{Holds, Leads, Ensures, bind-Leads}
use bouclier_bleu.BuildScript.{
  ModuleNames, BpfFile, Toolchain, Variables, Build, Script, suffix, bpf_dir, join, ends_with,
  has_extension, trim_end_matches, expect, pushed, scan, listing, store, main, given, say,
  available_modules,
}
use bouclier_bleu.BuildScript.Names.{has_extension-suffix}
use bouclier_bleu.BuildScript.Steps.{
  modules_of, Works, IsFit, Any, Start, Panic, Named, where_works, expect-Leads, include_dir-Leads,
  vmlinux-Leads, generate-Leads,
}

-- An outcome that no panic can have.
succeeded :
    {S : Type 0} (names : List Text) (r : Outcome Line (List ModuleNames) × S)
    → Holds (λ ms s. available_modules ms ≡ names) (λ s. ⊥) r
    → (ms : List ModuleNames) × (r.0 ≡ ok ms) × (available_modules ms ≡ names)
succeeded names (ok ms, s) h = (ms, refl, h)
succeeded names (err why, s) h = absurd h

module _ (tools : Toolchain) (R : Type 0) where
  -- The loop.
  abbrev Complete : List Text → List ModuleNames → Build tools → Type 0
  Complete names ms b = available_modules ms ≡ names

  pushed-Leads :
      (base : Text) (names : List Text) (task : Script tools ModuleNames)
      (rest : Script tools (List ModuleNames))
      → Leads (Start tools R) task ((Named tools R) base) (Panic tools R)
      → Leads (Start tools R) rest (Complete names) (Panic tools R)
      → Leads (Start tools R) (pushed tools task rest) (Complete (base ∷ names)) (Panic tools R)
  unfolding available_modules
  pushed-Leads base names task rest first others =
      bind-Leads (Start tools R) ((Named tools R) base) (Complete (base ∷ names)) (Panic tools R)
        task _ first
        λ g b e.
          bind-Leads (Start tools R) (Complete names) (Complete (base ∷ names)) (Panic tools R) rest
            _ others (λ ms b' h. rw (e, h) refl) b tt

  -- One entry: the test of the extension refuses nothing that ends with the suffix.
  entry-Leads :
      (is_file is_c is_utf8 is_bpf : Bool) (message : Line) (base : Text) (names : List Text)
      (task others : Script tools (List ModuleNames))
      → (is_bpf ≡ true → is_c ≡ true)
      → R ⊎ ((is_file && is_c ≡ true) → is_utf8 ≡ true)
      → ((is_file && is_bpf ≡ true)
          → Leads (Start tools R) task (Complete (base ∷ names)) (Panic tools R))
      → Leads (Start tools R) others (Complete names) (Panic tools R)
      → Leads
          (Start tools R)
          (if is_file && is_c
            then if not is_utf8 then fail message else if is_bpf then task else others
            else others)
          (Complete (if is_file && is_bpf then base ∷ names else names))
          (Panic tools R)
  entry-Leads false is_c is_utf8 is_bpf message base names task others sub utf8 one rest = rest
  entry-Leads true true true true message base names task others sub utf8 one rest = one refl
  entry-Leads true true true false message base names task others sub utf8 one rest = rest
  entry-Leads true true false is_bpf message base names task others sub (inl r) one rest = λ b h. r
  entry-Leads true true false is_bpf message base names task others sub (inr u) one rest =
      λ b h. cc (u refl)
  entry-Leads true false is_utf8 true message base names task others sub utf8 one rest =
      λ b h. cc (sub refl)
  entry-Leads true false is_utf8 false message base names task others sub utf8 one rest = rest

  scan-Leads :
      (out_dir : Text) (entries : List (Option BpfFile))
      → R ⊎ Works tools
      → R ⊎ All (IsFit tools) entries
      → Leads
          (Start tools R)
          (scan tools out_dir entries)
          (Complete (modules_of entries))
          (Panic tools R)
  unfolding scan available_modules
  scan-Leads out_dir [] works fit = λ b h. refl
  scan-Leads out_dir (none ∷ rest) works (inl r) = λ b h. r
  scan-Leads out_dir (none ∷ rest) works (inr fit) = absurd fit.0
  scan-Leads out_dir (some e ∷ rest) works fit =
      let base = trim_end_matches e.name suffix in
      let later = scan-Leads out_dir rest works (where_works tools R (λ f. f.1) fit) in
      entry-Leads e.is_file (has_extension (codes "c") e.name) e.is_utf8 (ends_with e.name suffix) _
        base (modules_of rest) _ _ (has_extension-suffix e.name)
        (where_works tools R (λ f. f.0.0) fit)
        (λ source.
          pushed-Leads base (modules_of rest) _ _
            (generate-Leads tools R out_dir e.name works
              (where_works tools R (λ f. f.0.1 source) fit))
            later)
        later

  given-Leads :
      {A : Type 0} (message : Line) (o : Option A)
      → R ⊎ ((a : A) × (o ≡ some a))
      → Leads (Start tools R) (given tools message o) (Any tools R) (Panic tools R)
  given-Leads message (some a) h b _ = tt
  given-Leads message none (inl r) b _ = r
  given-Leads message none (inr (a, h)) b _ = cc h

  listing-Leads :
      (entries : List (Option BpfFile))
      → ((m : tools.State) → tools.read_dir bpf_dir m ≡ some entries)
      → Leads (Start tools R) (listing tools) (λ es b. es ≡ entries) (Panic tools R)
  unfolding listing
  listing-Leads entries lists b _ = rw (lists b.machine) refl

  -- What runs before it is of no concern.
  preceded :
      {A : Type 0} (names : List Text) (task : Script tools A)
      (next : A → Script tools (List ModuleNames))
      → Leads (Start tools R) task (Any tools R) (Panic tools R)
      → ((a : A) → Leads (Start tools R) (next a) (Complete names) (Panic tools R))
      → Leads (Start tools R) (task >>= next) (Complete names) (Panic tools R)
  preceded names task next =
      bind-Leads (Start tools R) (Any tools R) (Complete names) (Panic tools R) task next

  store-Leads :
      (names : List Text) (out_dir : Text) (ms : List ModuleNames)
      → R ⊎ Works tools
      → available_modules ms ≡ names
      → Leads (Start tools R) (store tools out_dir ms) (Complete names) (Panic tools R)
  unfolding store
  store-Leads names out_dir ms works e =
      let message : Line = lit "Failed to write bpf_loader.rs" ∷ [] in
      let path = join out_dir (codes "bpf_loader.rs") in
      let write = tools.write path (tools.render ms) in
      preceded names (expect tools message write) (λ _. pure ms)
        (expect-Leads tools R message write
          (where_works tools R (λ w. w.writes path (tools.render ms)) works))
        λ done b _. e

  pub main-Leads :
      (vars : Variables) (entries : List (Option BpfFile))
      → ((m : tools.State) → tools.read_dir bpf_dir m ≡ some entries)
      → R ⊎ Works tools
      → R ⊎ ((dir : Text) × (vars.out_dir ≡ some dir))
      → R ⊎ All (IsFit tools) entries
      → Leads (Start tools R) (main tools vars) (Complete (modules_of entries)) (Panic tools R)
  unfolding main
  main-Leads vars entries lists works dir fit =
      let names = modules_of entries in
      preceded names _ _ (given-Leads _ vars.out_dir dir) λ out_dir.
        preceded names (say tools _) _ (λ b _. tt)
          λ said. preceded names _ _ (include_dir-Leads tools R works) λ made.
            preceded names _ _ (vmlinux-Leads tools R vars.vmlinux_h_path works) λ typed.
              bind-Leads (Start tools R) (λ es b. es ≡ entries) (Complete names) (Panic tools R)
                (listing tools) (λ es. scan tools out_dir es >>= store tools out_dir)
                (listing-Leads entries lists)
                λ es b same.
                  bind-Leads (Start tools R) (Complete names) (Complete names) (Panic tools R)
                    (scan tools out_dir es) (store tools out_dir)
                    (rw same (scan-Leads out_dir entries works fit))
                    (λ ms b' e. store-Leads names out_dir ms works e b' tt) b tt

module _ (tools : Toolchain) (vars : Variables) (entries : List (Option BpfFile)) where
  -- Where the directory bpf reads as these entries whenever it is read, a build that ends without a
  -- panic has written a loader for exactly the modules whose C files are among them, in their order.
  pub main-Complete :
      ((m : tools.State) → tools.read_dir bpf_dir m ≡ some entries)
      → (b : Build tools)
      → Ensures (λ ms _. available_modules ms ≡ modules_of entries) (main tools vars b)
  main-Complete lists b =
      main-Leads tools (Unit {0}) vars entries lists (inl tt) (inl tt) (inl tt) b tt

  -- Where every call succeeds, the directory bpf reads as these entries whenever it is read, the output
  -- directory is given, and the C files' names can be read and give identifiers, the build ends without
  -- a panic, with a loader for exactly the modules whose C files are among the entries, in their order.
  pub main-Builds :
      ((m : tools.State) → tools.read_dir bpf_dir m ≡ some entries)
      → Works tools
      → ((dir : Text) × (vars.out_dir ≡ some dir))
      → All (IsFit tools) entries
      → (b : Build tools)
      → (ms : List ModuleNames) × ((main tools vars b).0 ≡ ok ms)
        × (available_modules ms ≡ modules_of entries)
  main-Builds lists works dir fit b =
      succeeded _ (main tools vars b)
        (main-Leads tools ⊥ vars entries lists (inr works) (inr dir) (inr fit) b tt)
