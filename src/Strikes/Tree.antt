-- ===== src/Strikes/Tree.antt =====
-- Which processes `neutralize_threat_tree` kills, and in which order.
use mathlib.Core.List.{append-nil, append_assoc}
use bouclier_bleu.Base.{
  ℕ, ◌≡◌, refl, ◌∙◌, ap, sym, ◌&&◌, Option, none, some, List, [], ◌∷◌, ◌++◌, map, arith, ltb, ◌==◌,
  if◌then◌else◌, keep, find, inl, inr, Bool-cases,
}
use bouclier_bleu.Host.{Process, Readings, World}
use bouclier_bleu.Strikes.{is_child, kill_all, kill_parent, neutralize_threat_tree}

-- The orchestrator's part: its own identifier, if it runs and started in the past.
abbrev pub parent_kills : ℕ → Option Process → List ℕ
parent_kills epoch none = []
parent_kills epoch (some p) =
    if ltb 0 p.start_time && ltb p.start_time epoch then p.pid ∷ [] else []

-- The children first, then the orchestrator.
abbrev pub tree_kills : ℕ → Readings → List ℕ
tree_kills target env =
    map (λ p. p.pid) (keep (is_child target) env.processes)
    ++ parent_kills env.epoch (find (λ p. p.pid == target) env.processes)

module _ {F : Type 0} where
  killed-kill_all :
      (ps : List Process) (w : World F) → (kill_all ps w).killed ≡ w.killed ++ map (λ p. p.pid) ps
  unfolding kill_all
  killed-kill_all [] w = sym (append-nil w.killed)
  killed-kill_all (p ∷ ps) w =
      killed-kill_all ps _ ∙ append_assoc w.killed (p.pid ∷ []) (map (λ p. p.pid) ps)

  tracker-kill_all : (ps : List Process) (w : World F) → (kill_all ps w).tracker ≡ w.tracker
  unfolding kill_all
  tracker-kill_all [] w = refl
  tracker-kill_all (p ∷ ps) w = tracker-kill_all ps _

  killed-kill_parent :
      (target epoch : ℕ) (o : Option Process) (w : World F)
      → (kill_parent target epoch o w).killed ≡ w.killed ++ parent_kills epoch o
  unfolding kill_parent
  killed-kill_parent target epoch none w = sym (append-nil w.killed)
  killed-kill_parent target epoch (some p) w =
      elim (Bool-cases (ltb 0 p.start_time && ltb p.start_time epoch)) [
        | inl past ↦ rw past refl
        | inr recycled ↦ rw recycled (sym (append-nil w.killed))
      ]

  tracker-kill_parent :
      (target epoch : ℕ) (o : Option Process) (w : World F)
      → (kill_parent target epoch o w).tracker ≡ w.tracker
  unfolding kill_parent
  tracker-kill_parent target epoch none w = refl
  tracker-kill_parent target epoch (some p) w = ground arith

  pub killed-neutralize :
      (target : ℕ) (env : Readings) (w : World F)
      → (neutralize_threat_tree target env w).killed ≡ w.killed ++ tree_kills target env
  unfolding neutralize_threat_tree
  killed-neutralize target env w =
      let children = keep (is_child target) env.processes in
      let parent = find (λ p. p.pid == target) env.processes in
      killed-kill_parent target env.epoch parent (kill_all children w)
      ∙ ap (λ l. l ++ parent_kills env.epoch parent) (killed-kill_all children w)
      ∙ append_assoc w.killed (map (λ p. p.pid) children) (parent_kills env.epoch parent)

  pub tracker-neutralize :
      (target : ℕ) (env : Readings) (w : World F)
      → (neutralize_threat_tree target env w).tracker ≡ w.tracker
  unfolding neutralize_threat_tree
  tracker-neutralize target env w =
      let children = keep (is_child target) env.processes in
      let parent = find (λ p. p.pid == target) env.processes in
      tracker-kill_parent target env.epoch parent (kill_all children w)
      ∙ tracker-kill_all children w
