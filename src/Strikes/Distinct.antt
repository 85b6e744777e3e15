-- ===== src/Strikes/Distinct.antt =====
-- The tracker as a map without double keys, and what pruning leaves of each key.
use bouclier_bleu.Base.{
  ℕ, ◌+◌, ◌≡◌, ap, refl, Option, none, some, [], ◌∷◌, ltb, arith, ◌==◌, if◌then◌else◌, Bool-cases,
  inl, inr, ==_iff,
}
use bouclier_bleu.Host.{PpidStrike, Tracker}
use bouclier_bleu.Strikes.{seconds, lookup, insert, remove, retain}
use bouclier_bleu.Strikes.Table.{lookup-insert, lookup-remove, lookup-retain-none}

-- No key twice.
abbrev pub IsDistinct : Tracker → Type 0
IsDistinct [] = Unit
IsDistinct ((k, s) ∷ t) = (lookup k t ≡ none) × IsDistinct t

pub retain-IsDistinct : (clock : ℕ → ℕ) (t : Tracker) → IsDistinct t → IsDistinct (retain clock t)
unfolding retain
retain-IsDistinct clock [] d = tt
retain-IsDistinct clock ((k, s) ∷ t) d =
    ground (arith, retain-IsDistinct clock t d.1, lookup-retain-none clock k t d.0)

pub insert-IsDistinct :
    (k : ℕ) (s : PpidStrike) (t : Tracker) → IsDistinct t → IsDistinct (insert k s t)
unfolding insert lookup
insert-IsDistinct k s [] d = (refl, tt)
insert-IsDistinct k s ((j, x) ∷ t) d =
    ground (arith, insert-IsDistinct k s t d.1, lookup-insert k j s t)

pub remove-IsDistinct : (k : ℕ) (t : Tracker) → IsDistinct t → IsDistinct (remove k t)
unfolding remove
remove-IsDistinct k [] d = tt
remove-IsDistinct k ((j, x) ∷ t) d = ground (arith, remove-IsDistinct k t d.1, lookup-remove k j t)

-- What pruning leaves, key by key.
abbrev pub young : ℕ → Option PpidStrike → Option PpidStrike
young now none = none
young now (some s) = if ltb now (s.first_strike + seconds 5) then some s else none

pub lookup-retain :
    (clock : ℕ → ℕ) (k : ℕ) (t : Tracker)
    → IsDistinct t
    → lookup k (retain clock t) ≡ young (clock k) (lookup k t)
unfolding lookup retain
lookup-retain clock k [] d = refl
lookup-retain clock k ((j, s) ∷ t) d = elim (Bool-cases (j == k)) [
  | inl same ↦
      let e : j ≡ k = (==_iff j k).0 same in
      let gone : lookup k t ≡ none = rw (← e) d.0 in
      ground (arith, lookup-retain-none clock k t gone, ap clock e)
  | inr other ↦ ground (arith, lookup-retain clock k t d.1)
]
