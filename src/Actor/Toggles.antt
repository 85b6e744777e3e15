-- ===== src/Actor/Toggles.antt =====
-- What a command makes of every module's flag.
use bouclier_bleu.Base.{
  ◌≡◌, refl, Bool, true, false, ◌&&◌, Option, none, some, List, text_eq, text_eq_iff, Text, inl,
  inr, Bool-cases, Option-cases, Line, Outcome, ok, err, if◌then◌else◌,
}
use bouclier_bleu.Reader.{Endian}
use bouclier_bleu.Host.{FileSystem}
use bouclier_bleu.Loader.{Libbpf, Skeleton, set_module_state}
use bouclier_bleu.Registry.{status_of}
use bouclier_bleu.Command.{DaemonCmd, status, list, enable, disable}
use bouclier_bleu.Engine.{get}
use bouclier_bleu.Engine.Configured.{toggled, status_of-toggle_same, status_of-toggle_other}
use bouclier_bleu.Actor.{Daemon, synchronised, toggle_module, handle_command}

module _ (fs : FileSystem) (lib : Libbpf) (available : List Text) (e : Endian) where
  -- The kernel took the flag.
  abbrev accepted : Outcome Line (Unit {0}) × Skeleton lib → Bool
  accepted (ok _, skel) = true
  accepted (err why, skel) = false

  -- The module is loaded, and the kernel takes the flag.
  abbrev pub accepts : Text → Bool → Daemon fs lib available e → Option (Skeleton lib) → Bool
  accepts target on d none = false
  accepts target on d (some skel) = accepted (set_module_state lib available e skel target on)

  -- The flag of module `j` after a command.
  abbrev pub flag_after : DaemonCmd → Daemon fs lib available e → Text → Option Bool
  flag_after (enable target) d j =
      if text_eq target j && accepts target true d (get target d.skeletons)
      then toggled true (status_of j d.registry)
      else status_of j d.registry
  flag_after (disable target) d j =
      if text_eq target j && accepts target false d (get target d.skeletons)
      then toggled false (status_of j d.registry)
      else status_of j d.registry
  flag_after _ d j = status_of j d.registry

  synchronised-status :
      (target : Text) (on : Bool) (d : Daemon fs lib available e) (j : Text)
      (r : Outcome Line (Unit {0}) × Skeleton lib)
      → status_of j (synchronised fs lib available e target on d r).1.registry ≡ (
          if text_eq target j && accepted r
          then toggled on (status_of j d.registry)
          else status_of j d.registry)
  synchronised-status target on d j (err why, skel) = elim (Bool-cases (text_eq target j)) [
    | inl here ↦ rw here refl
    | inr other ↦ rw other refl
  ]
  synchronised-status target on d j (ok _, skel) = elim (Bool-cases (text_eq target j)) [
    | inl here ↦
        let same : target ≡ j = (text_eq_iff target j).0 here in
        rw here (rw same (status_of-toggle_same j on d.registry))
    | inr other ↦ rw other (status_of-toggle_other target on j d.registry other)
  ]

  toggle_module-status :
      (target : Text) (on : Bool) (d : Daemon fs lib available e) (j : Text)
      → status_of j (toggle_module fs lib available e target on d).1.registry ≡ (
          if text_eq target j && accepts target on d (get target d.skeletons)
          then toggled on (status_of j d.registry)
          else status_of j d.registry)
  unfolding toggle_module
  toggle_module-status target on d j = elim (Option-cases (get target d.skeletons)) [
    | inl absent ↦ elim (Bool-cases (text_eq target j)) [
      | inl here ↦ rw (toggle_module, absent, here) refl
      | inr other ↦ rw (toggle_module, absent, other) refl
    ]
    | inr (skel, found) ↦
        rw (toggle_module, found)
          (synchronised-status target on d j (set_module_state lib available e skel target on))
  ]

  -- A command changes a module's flag only if it names that module, the module is loaded and the
  -- kernel takes the flag, and then the flag is the one that was asked for; a command that is refused,
  -- and the flags of all other modules, are left alone.
  pub handle_command-status :
      (cmd : DaemonCmd) (d : Daemon fs lib available e) (j : Text)
      → status_of j (handle_command fs lib available e cmd d).1.registry ≡ flag_after cmd d j
  unfolding handle_command
  handle_command-status status d j = refl
  handle_command-status list d j = refl
  handle_command-status (enable target) d j = toggle_module-status target true d j
  handle_command-status (disable target) d j = toggle_module-status target false d j
