-- ===== src/Strikes.antt =====
-- The temporal heuristic of modules/src/rename_entropy.rs: strikes of a parent process within two
-- seconds, and the eradication of its process tree at the third.
pub mod Tree
pub mod Table
pub mod Window
pub mod Burst
pub mod Sequence
pub mod Distinct
pub mod Standing
pub mod Refined
use bouclier_bleu.Base.{
  ℕ, ◌+◌, ◌-◌, ◌*◌, ◌%◌, ◌^◌, Bool, ◌&&◌, Option, none, some, List, [], ◌∷◌, ◌++◌, ltb, leb, ◌==◌,
  if◌then◌else◌, keep, find, Text, Line, lit, num, str,
}
use bouclier_bleu.Host.{Process, PpidStrike, Tracker, Readings, World, print, eprint}

-- `Duration::from_secs`, in nanoseconds.
abbrev pub seconds : ℕ → ℕ
seconds n = n * 1000000000

abbrev pub threshold : ℕ
threshold = 3

-- `HashMap::get`, `insert` and `remove` on the tracker.
unfoldable pub lookup : ℕ → Tracker → Option PpidStrike
lookup key [] = none
lookup key ((k, s) ∷ rest) = if k == key then some s else lookup key rest

unfoldable pub insert : ℕ → PpidStrike → Tracker → Tracker
insert key s [] = (key, s) ∷ []
insert key s ((k, old) ∷ rest) = if k == key then (key, s) ∷ rest else (k, old) ∷ insert key s rest

unfoldable pub remove : ℕ → Tracker → Tracker
remove key [] = []
remove key ((k, s) ∷ rest) =
    let others = remove key rest in if k == key then others else (k, s) ∷ others

-- `tracker.retain`: strikes younger than five seconds, by the clock as it is read at each key.
unfoldable pub retain : (ℕ → ℕ) → Tracker → Tracker
retain clock [] = []
retain clock ((k, s) ∷ rest) =
    let others = retain clock rest in
    if ltb (clock k - s.first_strike) (seconds 5) then (k, s) ∷ others else others

-- `entry(ppid).or_insert(…)`
unfoldable pub or_insert : ℕ → Option PpidStrike → PpidStrike
or_insert now none = record { count = 0; first_strike = now }
or_insert now (some s) = s

-- More than two seconds since the first strike.
unfoldable pub is_expired : ℕ → PpidStrike → Bool
is_expired now s = ltb (seconds 2) (now - s.first_strike)

-- The strike after this alert: the window has passed, or it counts one more.
unfoldable pub struck : ℕ → PpidStrike → PpidStrike
unfolding is_expired
struck now s =
    if is_expired now s
    then record { count = 1; first_strike = now }
    else record s { count = (s.count + 1) % 2 ^ 32 }

-- The tracker that the handler works on; a poisoned one is cleared.
unfoldable pub recovered : Bool → Tracker → Tracker
recovered poisoned t = if poisoned then [] else t

-- `process.parent().is_some_and(|p| p == target)`
unfoldable pub is_child : ℕ → Process → Bool
is_child target p = elim p.parent [ none ↦ Bool.false | some parent ↦ parent == target ]

-- The children are killed one after another.
unfoldable pub kill_all : {F : Type 0} → List Process → World F → World F
kill_all [] w = w
kill_all (p ∷ rest) w = kill_all rest (
    print
      (lit "Bouclier Bleu [REMEDIATION]: Collateral worker terminated -> PID: " ∷ num p.pid ∷ [])
      (record w { killed = w.killed ++ p.pid ∷ [] }))

-- The orchestrator, if it runs, is killed unless its start time is not in the past.
unfoldable pub kill_parent : {F : Type 0} → ℕ → ℕ → Option Process → World F → World F
kill_parent target epoch none w = w
kill_parent target epoch (some parent) w =
    if ltb 0 parent.start_time && ltb parent.start_time epoch
    then record w { killed = w.killed ++ parent.pid ∷ [] }
    else eprint
        (lit "Bouclier Bleu [WARNING]: Aborted orchestrator termination. PID "
          ∷ num target
          ∷ lit " was recycled."
          ∷ [])
        w

unfoldable pub neutralize_threat_tree : {F : Type 0} → ℕ → Readings → World F → World F
unfolding is_child kill_all kill_parent
neutralize_threat_tree target env w =
    kill_parent target env.epoch (find (λ p. p.pid == target) env.processes)
      (kill_all (keep (is_child target) env.processes) w)

-- The answer to the third strike: the tree is eradicated, and the strikes are forgotten.
unfoldable pub answer : {F : Type 0} → ℕ → Readings → World F → World F
answer ppid env w =
    let answered = neutralize_threat_tree ppid env (
      print
        (lit "Bouclier Bleu [FATAL]: PPID "
          ∷ num ppid
          ∷ lit " crossed heuristic threshold (3 strikes/2s). Executing tree eradication."
          ∷ [])
        w) in
    record answered { tracker = remove ppid answered.tracker }

-- The alert is counted against the strike that was found, and the third in the window is answered.
unfoldable pub count_strike :
    {F : Type 0} → ℕ → Readings → Option PpidStrike → Tracker → World F → World F
count_strike ppid env found pruned w =
    let before = or_insert env.now found in
    let after = struck env.now before in
    let counted = record w { tracker = insert ppid after pruned } in
    if is_expired env.now before
    then counted
    else if leb threshold after.count
    then answer ppid env counted
    else counted

unfoldable pub strike : {F : Type 0} → ℕ → Readings → World F → World F
strike ppid env w =
    let pruned = retain env.prune_clock (recovered env.tracker_poisoned w.tracker) in
    count_strike ppid env (lookup ppid pruned) pruned w
