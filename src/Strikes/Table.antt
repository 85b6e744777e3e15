-- ===== src/Strikes/Table.antt =====
-- The tracker as a map: what a lookup finds after each operation on it.
use bouclier_bleu.Base.{
  ℕ, ◌-◌, ◌<◌, ==_iff, lt→ltb, Bool-cases, inl, inr, ◌≡◌, refl, Option, none, some, [], ◌∷◌, arith,
  ◌==◌, if◌then◌else◌,
}
use bouclier_bleu.Host.{PpidStrike, Tracker}
use bouclier_bleu.Strikes.{lookup, insert, remove, retain, seconds}

pub lookup-insert :
    (k j : ℕ) (s : PpidStrike) (t : Tracker)
    → lookup j (insert k s t) ≡ (if k == j then some s else lookup j t)
unfolding lookup insert
lookup-insert k j s [] = refl
lookup-insert k j s ((i, old) ∷ t) = ground (arith, lookup-insert k j s t)

pub lookup-remove :
    (k j : ℕ) (t : Tracker) → lookup j (remove k t) ≡ (if k == j then none else lookup j t)
unfolding lookup remove
lookup-remove k j [] = ground arith
lookup-remove k j ((i, s) ∷ t) = ground (arith, lookup-remove k j t)

-- A predicate on every strike of the tracker.
abbrev pub Every : (PpidStrike → Type 0) → Tracker → Type 0
Every P [] = Unit
Every P ((k, s) ∷ t) = P s × Every P t

module _ (P : PpidStrike → Type 0) where
  pub Every-retain : (clock : ℕ → ℕ) (t : Tracker) → Every P t → Every P (retain clock t)
  unfolding retain
  Every-retain clock [] h = tt
  Every-retain clock ((k, s) ∷ t) h = ground (arith, Every-retain clock t h.1)

  pub Every-insert :
      (k : ℕ) (s : PpidStrike) (t : Tracker) → P s → Every P t → Every P (insert k s t)
  unfolding insert
  Every-insert k s [] p h = (p, tt)
  Every-insert k s ((j, old) ∷ t) p h = ground (arith, Every-insert k s t p h.1)

  pub Every-remove : (k : ℕ) (t : Tracker) → Every P t → Every P (remove k t)
  unfolding remove
  Every-remove k [] h = tt
  Every-remove k ((j, s) ∷ t) h = ground (arith, Every-remove k t h.1)

  -- A strike that is put in and taken out again leaves the others.
  pub Every-remove-insert :
      (k : ℕ) (s : PpidStrike) (t : Tracker) → Every P t → Every P (remove k (insert k s t))
  unfolding remove insert
  Every-remove-insert k s [] h = ground arith
  Every-remove-insert k s ((j, old) ∷ t) h =
      ground (arith, Every-remove k t h.1, Every-remove-insert k s t h.1)

abbrev pub Found : (PpidStrike → Type 0) → Option PpidStrike → Type 0
Found P none = Unit
Found P (some s) = P s

pub Every-lookup :
    (P : PpidStrike → Type 0) (k : ℕ) (t : Tracker) → Every P t → Found P (lookup k t)
unfolding lookup
Every-lookup P k [] h = tt
Every-lookup P k ((j, s) ∷ t) h = ground (arith, Every-lookup P k t h.1)

-- What pruning leaves of one key.
pub lookup-retain-none :
    (clock : ℕ → ℕ) (k : ℕ) (t : Tracker) → lookup k t ≡ none → lookup k (retain clock t) ≡ none
unfolding lookup retain
lookup-retain-none clock k [] h = refl
lookup-retain-none clock k ((i, s) ∷ t) h = ground (arith, lookup-retain-none clock k t)

pub lookup-retain_fresh :
    (clock : ℕ → ℕ) (k : ℕ) (s : PpidStrike) (t : Tracker)
    → lookup k t ≡ some s
    → clock k - s.first_strike < seconds 5
    → lookup k (retain clock t) ≡ some s
unfolding lookup retain
lookup-retain_fresh clock k s [] h fresh = cc
lookup-retain_fresh clock k s ((i, x) ∷ t) h fresh = elim (Bool-cases (i == k)) [
  | inl same ↦
      let e : i ≡ k = (==_iff i k).0 same in
      let x-eq-s : x ≡ s = ground arith in rw (e, x-eq-s) (rw (lt→ltb _ _ fresh) (ground arith))
  | inr other ↦ ground (arith, lookup-retain_fresh clock k s t)
]
