-- ===== src/Xtask/Router.antt =====
-- xtask/src/main.rs: the arguments, the subcommand and the exit status.
use bouclier_bleu.Base.{
  ℕ, Bool, Option, none, some, List, [], ◌∷◌, Text, ok, err, codes, text_eq, Outcome, if◌then◌else◌,
  ◌||◌,
}
use bouclier_bleu.Exec.{fail}
use bouclier_bleu.Xtask.Machine.{Machine, Job, Failure, failed, panicked, exits, Task}
use bouclier_bleu.Xtask.Vm.{prepare_test_image}
use bouclier_bleu.Xtask.Runner.{run_tests}

abbrev pub default_image : Text
default_image = codes "bouclier-bleu-test-base"

unfoldable pub is_image_flag : Text → Bool
unfolding text_eq
is_image_flag a = text_eq a (codes "-img") || text_eq a (codes "--img")

-- What follows the flag: the image and the arguments that are left; `none` where there is no image.
abbrev pub image_after : List Text → Option (Text × List Text)
image_after [] = none
image_after (image ∷ rest) = some (image, rest)

abbrev pub keep_argument : Text → Option (Text × List Text) → Option (Text × List Text)
keep_argument a none = none
keep_argument a (some (image, rest)) = some (image, a ∷ rest)

-- The first flag and its image are taken out.
unfoldable pub extract_image : List Text → Option (Text × List Text)
unfolding is_image_flag
extract_image [] = some (default_image, [])
extract_image (a ∷ rest) =
    let later = extract_image rest in
    if is_image_flag a then image_after rest else keep_argument a later

-- `args_iter.next()`
abbrev pub argument : List Text → Option Text
argument [] = none
argument (a ∷ rest) = some a

abbrev pub others : List Text → List Text
others [] = []
others (a ∷ rest) = rest

module _ (m : Machine) where
  unfoldable pub route : Text → List Text → Task m (Unit {0})
  route image [] = fail (exits 1)
  route image (a ∷ rest) =
      if text_eq a (codes "prepare-image")
      then prepare_test_image m image
      else if text_eq a (codes "test")
      then run_tests m (argument rest) (argument (others rest)) image
      else fail (exits 1)

  unfoldable pub command : List Text → Task m (Unit {0})
  command args = elim (extract_image args) [
    | none ↦ fail (exits 1)
    | some (image, rest) ↦ route image rest
  ]

  -- The status of the process: a panic of the main thread is 101.
  abbrev pub status_of : Outcome Failure (Unit {0}) → ℕ
  status_of (ok _) = 0
  status_of (err (failed why)) = 1
  status_of (err panicked) = 101
  status_of (err (exits n)) = n

  unfoldable pub main : List Text → Job m.State → ℕ × Job m.State
  main args s = (status_of (command args s).0, (command args s).1)
