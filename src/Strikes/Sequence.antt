-- ===== src/Strikes/Sequence.antt =====
-- Several alerts of one parent process: the third within two seconds is answered, and the two seconds
-- start at the first strike.
use bouclier_bleu.Base.{
  ℕ, ◌+◌, ◌-◌, ◌≤◌, ◌<◌, ◌≡◌, ◌∙◌, ap, false, Option, none, some, List, ◌++◌, arith, if◌then◌else◌,
}
use bouclier_bleu.Host.{PpidStrike, Tracker, Readings, World}
use bouclier_bleu.Strikes.{seconds, lookup, is_expired, struck, recovered, strike}
use bouclier_bleu.Strikes.Tree.{tree_kills}
use bouclier_bleu.Strikes.Table.{lookup-retain-none, lookup-retain_fresh}
use bouclier_bleu.Strikes.Window.{crosses, next_strike, pruned, killed-strike}
use bouclier_bleu.Strikes.Burst.{lookup-strike}

-- A strike as the tracker holds it.
abbrev pub since : ℕ → ℕ → PpidStrike
since first count = record { count = count; first_strike = first }

-- The lock is not poisoned, and the clock is read for the pruning before the alert's own reading.
pub record IsOrderly (ppid : ℕ) (env : Readings) : Type 0 where
  pub unpoisoned : env.tracker_poisoned ≡ false
  pub monotonic : env.prune_clock ppid ≤ env.now

module _ (ppid : ℕ) where
  unpruned :
      (env : Readings) (t : Tracker)
      → env.tracker_poisoned ≡ false
      → lookup ppid t ≡ none
      → lookup ppid (pruned env t) ≡ none
  unfolding recovered
  unpruned env t e h = rw e (lookup-retain-none env.prune_clock ppid t h)

  kept :
      (env : Readings) (t : Tracker) (s : PpidStrike)
      → env.tracker_poisoned ≡ false
      → lookup ppid t ≡ some s
      → env.prune_clock ppid - s.first_strike < seconds 5
      → lookup ppid (pruned env t) ≡ some s
  unfolding recovered
  kept env t s e h fresh = rw e (lookup-retain_fresh env.prune_clock ppid s t h fresh)

module _ {F : Type 0} (ppid : ℕ) where
  -- What one alert does, told of the strike of its own parent process.
  abbrev After : World F → Option PpidStrike → List ℕ → Type 0
  After w found killed = (lookup ppid w.tracker ≡ found) × (w.killed ≡ killed)

  step :
      (env : Readings) (w : World F) (o : Option PpidStrike)
      → lookup ppid (pruned env w.tracker) ≡ o
      → After
          (strike ppid env w)
          (next_strike env.now o)
          (if crosses env.now o then w.killed ++ tree_kills ppid env else w.killed)
  step env w o h =
      (lookup-strike ppid env w ppid ∙ ground (arith, h), killed-strike ppid env w ∙ rw h)

  -- The first alert.
  first :
      (env : Readings) (w : World F)
      → IsOrderly ppid env
      → lookup ppid w.tracker ≡ none
      → After (strike ppid env w) (some (since env.now 1)) w.killed
  first env w o h = step env w none (unpruned ppid env w.tracker o.unpoisoned h)

  -- The second alert within the window of the first.
  second :
      (env : Readings) (w : World F) (t : ℕ)
      → IsOrderly ppid env
      → lookup ppid w.tracker ≡ some (since t 1)
      → env.now ≤ t + seconds 2
      → After (strike ppid env w) (some (since t 2)) w.killed
  unfolding is_expired struck
  second env w t o h in_time =
      let (l, k) =
        step env w (some (since t 1))
          (kept ppid env w.tracker (since t 1) o.unpoisoned h (omega (arith, o.monotonic))) in
      (l ∙ ground arith, k ∙ ground arith)

  -- The third.
  third :
      (env : Readings) (w : World F) (t : ℕ)
      → IsOrderly ppid env
      → lookup ppid w.tracker ≡ some (since t 2)
      → env.now ≤ t + seconds 2
      → After (strike ppid env w) none (w.killed ++ tree_kills ppid env)
  unfolding is_expired struck
  third env w t o h in_time =
      let (l, k) =
        step env w (some (since t 2))
          (kept ppid env w.tracker (since t 2) o.unpoisoned h (omega (arith, o.monotonic))) in
      (l ∙ ground arith, k ∙ ground arith)

  -- An alert more than two seconds, and less than five, after the first strike.
  late :
      (env : Readings) (w : World F) (t n : ℕ)
      → IsOrderly ppid env
      → lookup ppid w.tracker ≡ some (since t n)
      → t + seconds 2 < env.now
      → env.now < t + seconds 5
      → After (strike ppid env w) (some (since env.now 1)) w.killed
  unfolding is_expired struck
  late env w t n o h expired fresh =
      let (l, k) =
        step env w (some (since t n))
          (kept ppid env w.tracker (since t n) o.unpoisoned h (omega (arith, o.monotonic))) in
      (l ∙ ground arith, k ∙ ground arith)

  -- Three alerts of a parent process that has no strike, the third at most two seconds after the
  -- first: the process tree is killed as the process table is at the third, once, and the strikes
  -- are forgotten.
  pub three_strikes :
      (a b c : Readings) (w : World F)
      → lookup ppid w.tracker ≡ none
      → IsOrderly ppid a
      → IsOrderly ppid b
      → IsOrderly ppid c
      → b.now ≤ c.now
      → c.now ≤ a.now + seconds 2
      → ((strike ppid c (strike ppid b (strike ppid a w))).killed ≡ w.killed ++ tree_kills ppid c)
        × (lookup ppid (strike ppid c (strike ppid b (strike ppid a w))).tracker ≡ none)
  three_strikes a b c w h oa ob oc bc ac =
      let (l₁, k₁) = first a w oa h in
      let (l₂, k₂) = second b (strike ppid a w) a.now ob l₁ (omega arith) in
      let (l₃, k₃) = third c (strike ppid b (strike ppid a w)) a.now oc l₂ ac in
      (k₃ ∙ ap (λ k. k ++ tree_kills ppid c) (k₂ ∙ k₁), l₃)

  -- The window starts at the first strike and does not slide: after alerts at a and b, one at c that
  -- comes more than two and less than five seconds after a starts the count again, so a fourth alert
  -- at d, at most two seconds after c, kills nothing, even if b, c and d lie within two seconds.
  pub window_is_fixed :
      (a b c d : Readings) (w : World F)
      → lookup ppid w.tracker ≡ none
      → IsOrderly ppid a
      → IsOrderly ppid b
      → IsOrderly ppid c
      → IsOrderly ppid d
      → b.now ≤ a.now + seconds 2
      → a.now + seconds 2 < c.now
      → c.now < a.now + seconds 5
      → d.now ≤ c.now + seconds 2
      → (strike ppid d (strike ppid c (strike ppid b (strike ppid a w)))).killed ≡ w.killed
  window_is_fixed a b c d w h oa ob oc od ab ac ca cd =
      let (l₁, k₁) = first a w oa h in
      let (l₂, k₂) = second b (strike ppid a w) a.now ob l₁ ab in
      let (l₃, k₃) = late c (strike ppid b (strike ppid a w)) a.now 2 oc l₂ ac ca in
      let (l₄, k₄) = second d (strike ppid c (strike ppid b (strike ppid a w))) c.now od l₃ cd in
      k₄ ∙ k₃ ∙ k₂ ∙ k₁
