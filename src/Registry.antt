-- ===== src/Registry.antt =====
-- The registry of modules/src/common/macros.rs: the ten modules as trait objects, each with its flag.
pub mod Harmless
use bouclier_bleu.Base.{
  Bool, false, Option, none, some, List, [], ◌∷◌, find, text_eq, if◌then◌else◌, Text, lit, str,
}
use bouclier_bleu.Host.{World, print}
use bouclier_bleu.Module.{Declaration}
use bouclier_bleu.Modules.ExecBlock.{exec_block}
use bouclier_bleu.Modules.RenameEntropy.{rename_entropy}
use bouclier_bleu.Modules.Shield.{shield}
use bouclier_bleu.Modules.MountSecure.{mount_secure}
use bouclier_bleu.Modules.StrictWx.{strict_wx}
use bouclier_bleu.Modules.PtraceBlock.{ptrace_block}
use bouclier_bleu.Modules.DumpRestrict.{dump_restrict}
use bouclier_bleu.Modules.UsernsRestrict.{userns_restrict}
use bouclier_bleu.Modules.MadviseRatelimit.{madvise_ratelimit}
use bouclier_bleu.Modules.IoRestrict.{io_restrict}

-- `Arc<dyn SecurityModule>`: a declaration over some type of alerts, and `is_active`.
pub record SecurityModule (F : Type 0) : Type 1 where
  pub Alert : Type 0
  pub declaration : Declaration F Alert
  pub is_active : Bool

abbrev pub Registry : Type 0 → Type 1
Registry F = List (SecurityModule F)

-- `new`: every module starts inactive.
abbrev pub new : {F A : Type 0} → Declaration F A → SecurityModule F
new {A} d = record { Alert = A; declaration = d; is_active = false }

abbrev pub slug : {F : Type 0} → SecurityModule F → Text
slug m = m.declaration.slug

module _ {F : Type 0} where
  unfoldable pub build_registry : Registry F
  build_registry =
      new exec_block
      ∷ new rename_entropy
      ∷ new shield
      ∷ new mount_secure
      ∷ new strict_wx
      ∷ new ptrace_block
      ∷ new dump_restrict
      ∷ new userns_restrict
      ∷ new madvise_ratelimit
      ∷ new io_restrict
      ∷ []

  -- `iter().find(|m| m.slug() == target)`
  unfoldable pub find_module : Text → Registry F → Option (SecurityModule F)
  find_module target = find (λ m. text_eq (slug m) target)

  -- `toggle` on the module that `find` gives.
  unfoldable pub toggle : Text → Bool → Registry F → Registry F
  toggle target state [] = []
  toggle target state (m ∷ rest) =
      if text_eq (slug m) target
      then record m { is_active = state } ∷ rest
      else m ∷ toggle target state rest

  -- The line that `toggle` prints.
  abbrev pub announced : Text → Bool → Registry F → World F → World F
  announced target state registry w = elim (find_module target registry) [
    | none ↦ w
    | some m ↦
        print
          (lit "Bouclier Bleu [Control]: "
            ∷ str (slug m)
            ∷ lit " active state -> "
            ∷ lit (if state then "true" else "false")
            ∷ [])
          w
  ]

  -- `status` of the module with a slug, if there is one.
  unfoldable pub status_of : Text → Registry F → Option Bool
  status_of target [] = none
  status_of target (m ∷ rest) =
      if text_eq (slug m) target then some m.is_active else status_of target rest
