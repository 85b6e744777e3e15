-- ===== src/Strikes/Refined.antt =====
-- The tracker refines the standings: that it forgets strikes of five seconds is never noticed.
use bouclier_bleu.Base.{
  ℕ, ◌+◌, ◌≤◌, ◌≡◌, ◌∙◌, sym, ap, refl, Bool, true, false, Option, none, some, List, [], ◌∷◌, ◌++◌,
  arith, ◌==◌, if◌then◌else◌, Bool-cases, inl, inr, ==_iff, append-nil, append_assoc,
}
use bouclier_bleu.Host.{PpidStrike, Tracker, Readings, World}
use bouclier_bleu.Strikes.{
  seconds, lookup, insert, is_expired, struck, recovered, or_insert, strike,
}
use bouclier_bleu.Strikes.Tree.{tree_kills}
use bouclier_bleu.Strikes.Distinct.{
  IsDistinct, retain-IsDistinct, insert-IsDistinct, remove-IsDistinct, young, lookup-retain,
}
use bouclier_bleu.Strikes.Window.{crosses, next_strike, pruned, killed-strike, tracker-strike}
use bouclier_bleu.Strikes.Burst.{lookup-strike}
use bouclier_bleu.Strikes.Standing.{
  Standing, clear, once, twice, advance, is_third, reset, advance_one, verdicts, alerts,
}

-- How a strike in the table, or its absence, stands for a standing: what is pruned was expired.
abbrev pub Represents : ℕ → Option PpidStrike → Standing → Type 0
Represents now none clear = Unit
Represents now none (once t) = t + seconds 5 ≤ now
Represents now none (twice t) = t + seconds 5 ≤ now
Represents now (some s) clear = ⊥
Represents now (some s) (once t) = (s.first_strike ≡ t) × (s.count ≡ 1)
Represents now (some s) (twice t) = (s.first_strike ≡ t) × (s.count ≡ 2)

-- Time passes.
later :
    (a b : ℕ) (o : Option PpidStrike) (st : Standing)
    → a ≤ b
    → Represents a o st
    → Represents b o st
later a b none clear h r = tt
later a b none (once t) h r = omega arith
later a b none (twice t) h r = omega arith
later a b (some s) clear h r = r
later a b (some s) (once t) h r = r
later a b (some s) (twice t) h r = r

-- A strike is pruned.
younger :
    (clock now : ℕ) (o : Option PpidStrike) (st : Standing)
    → clock ≤ now
    → Represents now o st
    → Represents now (young clock o) st
younger clock now none st h r = r
younger clock now (some s) clear h r = absurd r
younger clock now (some s) (once t) h r = ground arith
younger clock now (some s) (twice t) h r = ground arith

-- An alert of the process itself.
advanced :
    (now : ℕ) (o : Option PpidStrike) (st : Standing)
    → Represents now o st
    → Represents now (next_strike now o) (advance now st)
unfolding advance is_expired struck
advanced now none clear r = (refl, refl)
advanced now none (once t) r = ground arith
advanced now none (twice t) r = ground arith
advanced now (some s) clear r = absurd r
advanced now (some s) (once t) r = ground arith
advanced now (some s) (twice t) r = ground arith

decided :
    (now : ℕ) (o : Option PpidStrike) (st : Standing)
    → Represents now o st
    → crosses now o ≡ is_third now st
unfolding is_third is_expired
decided now none clear r = refl
decided now none (once t) r = refl
decided now none (twice t) r = ground arith
decided now (some s) clear r = absurd r
decided now (some s) (once t) r = ground arith
decided now (some s) (twice t) r = ground arith

abbrev pub Refines : ℕ → Tracker → (ℕ → Standing) → Type 0
Refines now t standing = (k : ℕ) → Represents now (lookup k t) (standing k)

-- Clearing a poisoned tracker, and pruning.
recovered-Refines :
    (poisoned : Bool) (now : ℕ) (t : Tracker) (standing : ℕ → Standing)
    → Refines now t standing
    → Refines now (recovered poisoned t) (reset poisoned standing)
unfolding recovered reset lookup
recovered-Refines true now t standing r k = tt
recovered-Refines false now t standing r k = r k

recovered-IsDistinct :
    (poisoned : Bool) (t : Tracker) → IsDistinct t → IsDistinct (recovered poisoned t)
unfolding recovered
recovered-IsDistinct true t d = tt
recovered-IsDistinct false t d = d

-- The readings of an alert come after those of the one before it, and the clock is read for the
-- pruning before the alert's own reading.
abbrev pub IsTimely : ℕ → List (ℕ × Readings) → Type 0
IsTimely last [] = Unit
IsTimely last ((ppid, env) ∷ rest) =
    (last ≤ env.now) × ((k : ℕ) → env.prune_clock k ≤ env.now) × IsTimely env.now rest

module _ (last : ℕ) (env : Readings) (t : Tracker) (standing : ℕ → Standing) where
  pruned-Refines :
      IsDistinct t
      → Refines last t standing
      → last ≤ env.now
      → ((k : ℕ) → env.prune_clock k ≤ env.now)
      → Refines env.now (pruned env t) (reset env.tracker_poisoned standing)
  pruned-Refines d r h clocks k =
      let t' = recovered env.tracker_poisoned t in
      let old = recovered-Refines env.tracker_poisoned last t standing r k in
      let now = later last env.now (lookup k t') (reset env.tracker_poisoned standing k) h old in
      rw (lookup-retain env.prune_clock k t' (recovered-IsDistinct env.tracker_poisoned t d)) (
        younger (env.prune_clock k) env.now (lookup k t') (reset env.tracker_poisoned standing k)
          (clocks k) now)

module _ {F : Type 0} (last ppid : ℕ) (env : Readings) (w : World F) (standing : ℕ → Standing)
    (d : IsDistinct w.tracker) (r : Refines last w.tracker standing) (h : last ≤ env.now)
    (clocks : (k : ℕ) → env.prune_clock k ≤ env.now) where
  abbrev settled :
      (k : ℕ)
      → Represents env.now (lookup k (pruned env w.tracker)) (reset env.tracker_poisoned standing k)
  settled = pruned-Refines last env w.tracker standing d r h clocks

  strike-Refines : Refines env.now (strike ppid env w).tracker (advance_one ppid env standing)
  unfolding advance_one
  strike-Refines j = rw (lookup-strike ppid env w j) (elim (Bool-cases (ppid == j)) [
    | inl same ↦
        let e : ppid ≡ j = (==_iff ppid j).0 same in rw (same, e) (advanced env.now _ _ (settled j))
    | inr other ↦ rw other (settled j)
  ])

  strike-IsDistinct : IsDistinct (strike ppid env w).tracker
  strike-IsDistinct =
      let t = pruned env w.tracker in
      let dt =
        retain-IsDistinct env.prune_clock (recovered env.tracker_poisoned w.tracker)
          (recovered-IsDistinct env.tracker_poisoned w.tracker d) in
      let s = struck env.now (or_insert env.now (lookup ppid t)) in
      let di = insert-IsDistinct ppid s t dt in
      rw (tracker-strike ppid env w) (elim (Bool-cases (crosses env.now (lookup ppid t))) [
        | inl c ↦ rw c (remove-IsDistinct ppid (insert ppid s t) di)
        | inr c ↦ rw c di
      ])

  killed-eq-verdict :
      (strike ppid env w).killed
      ≡ w.killed
        ++ (if is_third env.now (reset env.tracker_poisoned standing ppid)
            then tree_kills ppid env
            else [])
  killed-eq-verdict =
      let e = decided env.now (lookup ppid (pruned env w.tracker)) _ (settled ppid) in
      killed-strike ppid env w
      ∙ rw e (elim (Bool-cases (is_third env.now (reset env.tracker_poisoned standing ppid))) [
        | inl third ↦ rw third refl
        | inr other ↦ rw other (sym (append-nil w.killed))
      ])

-- Alerts of any processes, interleaved in any way, in the order of the clock, from a tracker that
-- holds no key twice and represents how each process stands: the trees that are killed are, in
-- order, those that the standings call for. In the standings nothing is pruned, every process counts
-- its own alerts alone, and a tree is called for at the third alert of its process within two seconds
-- of the first; a poisoned lock clears them all.
pub killed-eq-verdicts :
    {F : Type 0} (last : ℕ) (es : List (ℕ × Readings)) (w : World F) (standing : ℕ → Standing)
    → IsDistinct w.tracker
    → Refines last w.tracker standing
    → IsTimely last es
    → (alerts es w).killed ≡ w.killed ++ verdicts standing es
unfolding alerts verdicts
killed-eq-verdicts last [] w standing d r h = sym (append-nil w.killed)
killed-eq-verdicts last ((ppid, env) ∷ rest) w standing d r h =
    let next = advance_one ppid env standing in
    killed-eq-verdicts env.now rest (strike ppid env w) next
      (strike-IsDistinct last ppid env w standing d r h.0 h.1)
      (strike-Refines last ppid env w standing d r h.0 h.1) h.2
    ∙ ap (λ k. k ++ verdicts next rest) (killed-eq-verdict last ppid env w standing d r h.0 h.1)
    ∙ append_assoc w.killed _ (verdicts next rest)
