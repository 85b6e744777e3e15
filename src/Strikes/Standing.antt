-- ===== src/Strikes/Standing.antt =====
-- The heuristic told without a table: how a parent process stands with its strikes, and what a
-- sequence of alerts of many processes comes to.
use bouclier_bleu.Base.{ℕ, ◌+◌, Bool, true, false, List, [], ◌∷◌, ◌++◌, ltb, ◌==◌, if◌then◌else◌}
use bouclier_bleu.Host.{Readings, World}
use bouclier_bleu.Strikes.{seconds, strike}
use bouclier_bleu.Strikes.Tree.{tree_kills}

-- No strike, one, or two; with the time of the first.
pub data Standing : Type 0 where
  clear : Standing
  once : ℕ → Standing
  twice : ℕ → Standing

abbrev pub within : ℕ → ℕ → Bool
within t now = if ltb (t + seconds 2) now then false else true

-- The standing after an alert.
unfoldable pub advance : ℕ → Standing → Standing
advance now clear = once now
advance now (once t) = if within t now then twice t else once now
advance now (twice t) = if within t now then clear else once now

-- Whether the alert is the third within two seconds of the first.
unfoldable pub is_third : ℕ → Standing → Bool
is_third now (twice t) = within t now
is_third now _ = false

-- A poisoned lock costs every process its strikes.
unfoldable pub reset : Bool → (ℕ → Standing) → ℕ → Standing
reset true standing j = clear
reset false standing j = standing j

unfoldable pub advance_one : ℕ → Readings → (ℕ → Standing) → ℕ → Standing
unfolding reset advance
advance_one ppid env standing j =
    if ppid == j
    then advance env.now (reset env.tracker_poisoned standing j)
    else reset env.tracker_poisoned standing j

-- The processes that a sequence of alerts kills.
unfoldable pub verdicts : (ℕ → Standing) → List (ℕ × Readings) → List ℕ
unfolding advance_one is_third reset
verdicts standing [] = []
verdicts standing ((ppid, env) ∷ rest) =
    (if is_third env.now (reset env.tracker_poisoned standing ppid)
      then tree_kills ppid env
      else [])
    ++ verdicts (advance_one ppid env standing) rest

-- The alerts as the code handles them, one after another.
unfoldable pub alerts : {F : Type 0} → List (ℕ × Readings) → World F → World F
alerts [] w = w
alerts ((ppid, env) ∷ rest) w = alerts rest (strike ppid env w)
