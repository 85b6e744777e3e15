-- ===== src/Strikes/Burst.antt =====
-- The heuristic over sequences of alerts: the tracker as a map, its invariant, three strikes within
-- two seconds, and the window that starts at the first strike.
use bouclier_bleu.Base.{
  ℕ, ◌≡◌, refl, Option, none, some, [], arith, ◌==◌, if◌then◌else◌, Bool-cases, inl, inr,
}
use bouclier_bleu.Host.{PpidStrike, Tracker, Readings, World}
use bouclier_bleu.Strikes.{lookup, insert, remove, or_insert, is_expired, struck, recovered, strike}
use bouclier_bleu.Strikes.Table.{
  Every, Found, Every-retain, Every-insert, Every-remove-insert, Every-lookup, lookup-insert,
  lookup-remove,
}
use bouclier_bleu.Strikes.Window.{IsOpen, crosses, next_strike, pruned, tracker-strike}

struck-new : (now : ℕ) → struck now (or_insert now none) ≡ record { count = 1; first_strike = now }
unfolding struck is_expired or_insert
struck-new now = ground arith

lookup-replaced :
    (ppid j now : ℕ) (found : Option PpidStrike) (t : Tracker)
    → lookup j (
        if crosses now found
        then remove ppid (insert ppid (struck now (or_insert now found)) t)
        else insert ppid (struck now (or_insert now found)) t)
      ≡ (if ppid == j then next_strike now found else lookup j t)
lookup-replaced ppid j now none t = rw (lookup-insert ppid j _ t, struck-new now) refl
lookup-replaced ppid j now (some s) t = elim (Bool-cases (crosses now (some s))) [
  | inl c ↦ rw c (
      ground (
        arith,
        lookup-remove ppid j (insert ppid (struck now (or_insert now (some s))) t),
        lookup-insert ppid j (struck now (or_insert now (some s))) t,
      ))
  | inr c ↦ rw c (unfold or_insert in ground (arith, lookup-insert ppid j (struck now s) t))
]

module _ {F : Type 0} (ppid : ℕ) (env : Readings) (w : World F) where
  -- After an alert the strikes of its parent process are those that the rules of the window give from
  -- the strikes before it, and every other process keeps what the pruning left of its strikes.
  pub lookup-strike :
      (j : ℕ)
      → lookup j (strike ppid env w).tracker ≡ (
          if ppid == j
          then next_strike env.now (lookup ppid (pruned env w.tracker))
          else lookup j (pruned env w.tracker))
  lookup-strike j =
      rw (tracker-strike ppid env w)
        (lookup-replaced ppid j env.now (lookup ppid (pruned env w.tracker)) (pruned env w.tracker))

-- Pruning and clearing keep an invariant of the strikes.
pruned-Every :
    (P : PpidStrike → Type 0) (env : Readings) (t : Tracker) → Every P t → Every P (pruned env t)
unfolding recovered
pruned-Every P env t h = elim (Bool-cases env.tracker_poisoned) [
  | inl p ↦ rw p (Every-retain P env.prune_clock [] tt)
  | inr p ↦ rw p (Every-retain P env.prune_clock t h)
]

replaced-IsOpen :
    (ppid now : ℕ) (found : Option PpidStrike) (t : Tracker)
    → Found IsOpen found
    → Every IsOpen t
    → Every IsOpen (
        if crosses now found
        then remove ppid (insert ppid (struck now (or_insert now found)) t)
        else insert ppid (struck now (or_insert now found)) t)
replaced-IsOpen ppid now none t f h =
    rw (struck-new now) (Every-insert IsOpen ppid _ t (omega arith, omega arith) h)
replaced-IsOpen ppid now (some s) t f h = elim (Bool-cases (crosses now (some s))) [
  | inl c ↦ rw c (Every-remove-insert IsOpen ppid _ t h)
  | inr c ↦
      let open' : IsOpen (struck now (or_insert now (some s))) =
        unfold struck is_expired or_insert in ground arith in
      rw c (Every-insert IsOpen ppid _ t open' h)
]

-- From a tracker whose strikes have all been counted once or twice, every alert, whatever the clock
-- reads and whether the lock was poisoned or not, leaves such a tracker.
pub strike-IsOpen :
    {F : Type 0} (ppid : ℕ) (env : Readings) (w : World F)
    → Every IsOpen w.tracker
    → Every IsOpen (strike ppid env w).tracker
strike-IsOpen ppid env w h =
    let t = pruned env w.tracker in
    let open' = pruned-Every IsOpen env w.tracker h in
    rw (tracker-strike ppid env w)
      (replaced-IsOpen ppid env.now (lookup ppid t) t (Every-lookup IsOpen ppid t open') open')
