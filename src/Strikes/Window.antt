-- ===== src/Strikes/Window.antt =====
-- What an alert does to the strikes: the tracker's invariant, the count of the window, and when the
-- process tree is killed.
use bouclier_bleu.Base.{
  ℕ, ◌+◌, ◌%◌, ◌^◌, ◌≤◌, ◌<◌, ◌≡◌, refl, ap, Bool, false, Option, none, some, ◌++◌, arith, leb,
  if◌then◌else◌, Bool-cases, inl, inr,
}
use bouclier_bleu.Host.{PpidStrike, Tracker, Readings, World}
use bouclier_bleu.Strikes.{
  threshold, lookup, insert, remove, retain, or_insert, is_expired, struck, recovered, answer,
  count_strike, strike,
}
use bouclier_bleu.Strikes.Tree.{tree_kills, killed-neutralize, tracker-neutralize}

-- A strike that is kept has counted once or twice.
abbrev pub IsOpen : PpidStrike → Type 0
IsOpen s = (1 ≤ s.count) × (s.count < threshold)

-- What the third alert in the window meets: the strike is two old already, and has not expired.
abbrev pub crosses : ℕ → Option PpidStrike → Bool
crosses now none = false
crosses now (some s) = if is_expired now s then false else leb threshold ((s.count + 1) % 2 ^ 32)

-- The strike of the parent after the alert, from the one before it.
abbrev pub next_strike : ℕ → Option PpidStrike → Option PpidStrike
next_strike now none = some (record { count = 1; first_strike = now })
next_strike now (some s) = if crosses now (some s) then none else some (struck now s)

-- The strikes that an alert starts from.
abbrev pub pruned : Readings → Tracker → Tracker
pruned env t = retain env.prune_clock (recovered env.tracker_poisoned t)

-- The two outcomes of `count_strike`, from the tests that it makes.
module _ {F : Type 0} (ppid : ℕ) (env : Readings) (t : Tracker) (w : World F) where
  abbrev pub counted : PpidStrike → World F
  counted s = record w { tracker = insert ppid (struck env.now s) t }

  pub count_strike-eq :
      (found : Option PpidStrike)
      → count_strike ppid env found t w ≡ (
          if crosses env.now found
          then answer ppid env (counted (or_insert env.now found))
          else counted (or_insert env.now found))
  unfolding count_strike struck is_expired or_insert
  count_strike-eq none = ground arith
  count_strike-eq (some s) = ground arith

module _ {F : Type 0} (ppid : ℕ) (env : Readings) (w : World F) where
  pub killed-answer : (answer ppid env w).killed ≡ w.killed ++ tree_kills ppid env
  unfolding answer
  killed-answer = killed-neutralize ppid env _

  pub tracker-answer : (answer ppid env w).tracker ≡ remove ppid w.tracker
  unfolding answer
  tracker-answer = ap (remove ppid) (tracker-neutralize ppid env _)

  -- An alert kills exactly the tree of its parent process if the strike that it finds has not
  -- expired and has been counted twice or more, and kills nothing otherwise.
  pub killed-strike : (strike ppid env w).killed ≡ (
      if crosses env.now (lookup ppid (pruned env w.tracker))
      then w.killed ++ tree_kills ppid env
      else w.killed)
  unfolding strike
  killed-strike =
      let t = pruned env w.tracker in
      let found = lookup ppid t in
      rw (count_strike-eq ppid env t w found) (elim (Bool-cases (crosses env.now found)) [
        | inl yes' ↦ rw yes' (unfold answer in killed-neutralize ppid env _)
        | inr no' ↦ rw no' refl
      ])

  pub tracker-strike : (strike ppid env w).tracker ≡ (
      if crosses env.now (lookup ppid (pruned env w.tracker))
      then remove ppid (
          insert ppid
            (struck env.now (or_insert env.now (lookup ppid (pruned env w.tracker))))
            (pruned env w.tracker))
      else insert ppid
          (struck env.now (or_insert env.now (lookup ppid (pruned env w.tracker))))
          (pruned env w.tracker))
  unfolding strike
  tracker-strike =
      let t = pruned env w.tracker in
      let found = lookup ppid t in
      rw (count_strike-eq ppid env t w found) (elim (Bool-cases (crosses env.now found)) [
        | inl yes' ↦ rw yes' (unfold answer in ap (remove ppid) (tracker-neutralize ppid env _))
        | inr no' ↦ rw no' refl
      ])
