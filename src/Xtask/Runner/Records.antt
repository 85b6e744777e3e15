-- ===== src/Xtask/Runner/Records.antt =====
-- The records of a suite, and the end of the machine.
use bouclier_bleu.Base.{Bool, true, false, Option, none, some, List, [], ◌∷◌, Text}
use bouclier_bleu.Exec.Ensures.{Leads}
use bouclier_bleu.Xtask.Machine.{Machine, Entry, Task}
use bouclier_bleu.Xtask.Report.{TestRecord}
use bouclier_bleu.Xtask.Runner.{is_selected, display_name}

-- What a record is labelled with.
abbrev pub label : TestRecord → Text × Text
label res = (res.name, res.category)

-- The labels of the entries that are selected, in the order of the directory.
abbrev pub with_label : Bool → Text × Text → List (Text × Text) → List (Text × Text)
with_label true l rest = l ∷ rest
with_label false l rest = rest

abbrev pub labels : Text → Text → Option Text → List (Option Entry) → List (Text × Text)
labels dir_name ext target [] = []
labels dir_name ext target (none ∷ rest) = labels dir_name ext target rest
labels dir_name ext target (some entry ∷ rest) =
    with_label (is_selected ext target entry) (display_name ext entry, dir_name)
      (labels dir_name ext target rest)

module _ (m : Machine) where
  -- Of a task that succeeds, a property of its value.
  abbrev pub Yields : {A : Type 0} → Task m A → (A → Type 0) → Type 0
  Yields task Q = Leads (λ s. Unit {0}) task (λ a s. Q a) (λ s. Unit {0})
