-- ===== src/Xtask/Utils/Await.antt =====
-- How often the runner looks for the guest's agent.
use bouclier_bleu.Base.{
  ℕ, zero, suc, ◌≡◌, ◌<◌, refl, ◌∙◌, ap, sym, true, false, [], ◌++◌, All, All-append, append_assoc,
  length-append, Bool-cases, Option, none, List, ◌∷◌, length, arith, inl, inr,
}
use bouclier_bleu.Exec.{◌>>=◌}
use bouclier_bleu.Exec.Ensures.{Holds, Holds-weaker}
use bouclier_bleu.Xtask.Machine.{Machine, Output, Call, Job, echo_ready, argv}
use bouclier_bleu.Xtask.Utils.{succeeds, call, sleep, poll_agent, await_guest_agent}

module _ (m : Machine) where
  -- A look that did not find the agent.
  abbrev pub IsMiss : Call → Type 0
  IsMiss (c, o) = (c ≡ echo_ready) × (succeeds o ≡ false)

  -- The commands are misses, and then a look that found the agent; `n` looks at most.
  abbrev pub Answered : ℕ → Job m.State → Job m.State → Type 0
  Answered n s s' =
      (o : Option Output) × (misses : List Call) × (s'.calls
        ≡ (echo_ready, o) ∷ (misses ++ s.calls))
      × (succeeds o ≡ true)
      × All IsMiss misses
      × (length misses < n)

  -- The commands are `n` misses.
  abbrev pub Silent : ℕ → Job m.State → Job m.State → Type 0
  Silent n s s' =
      (misses : List Call) × (s'.calls ≡ misses ++ s.calls)
      × All IsMiss misses
      × (length misses ≡ n)

  poll_agent-Answered :
      (n : ℕ) (s : Job m.State)
      → Holds (λ u s'. Answered n s s') (λ s'. Silent n s s') (poll_agent m n s)
  unfolding poll_agent call sleep ◌>>=◌
  poll_agent-Answered zero s = ([], refl, tt, refl)
  poll_agent-Answered (suc n) s =
      let o = (m.run none (argv echo_ready) s.host).0 in
      elim (Bool-cases (succeeds o)) [
        | inl ready ↦ rw ready (o, [], refl, ready, tt, omega arith)
        | inr silent ↦
            let s₂ = (sleep m 2 (call m echo_ready s).1).1 in
            rw silent (
              Holds-weaker (λ u s'. Answered n s₂ s') (λ u s'. Answered (suc n) s s')
                (λ s'. Silent n s₂ s') (λ s'. Silent (suc n) s s') (poll_agent m n s₂)
                (poll_agent-Answered n s₂)
                (λ u s' (r, misses, latest, good, all, few). (
                  r,
                  misses ++ (echo_ready, o) ∷ [],
                  latest
                      ∙ ap (◌∷◌ (echo_ready, r))
                          (sym (append_assoc misses ((echo_ready, o) ∷ []) s.calls)),
                  good,
                  All-append IsMiss misses ((echo_ready, o) ∷ []) all ((refl, silent), tt),
                  omega (arith, length-append misses ((echo_ready, o) ∷ [])),
                ))
                λ s' (misses, latest, all, many). (
                  misses ++ (echo_ready, o) ∷ [],
                  latest ∙ sym (append_assoc misses ((echo_ready, o) ∷ []) s.calls),
                  All-append IsMiss misses ((echo_ready, o) ∷ []) all ((refl, silent), tt),
                  omega (arith, length-append misses ((echo_ready, o) ∷ [])),
                ))
      ]

  -- The wait for the guest's agent ends: where it succeeds, its commands are looks that did not find the
  -- agent, fewer than 120, and then one that did; where it fails, they are 120 looks, none of which
  -- found the agent.
  pub await_guest_agent-Answered :
      (s : Job m.State)
      → Holds (λ u s'. Answered 120 s s') (λ s'. Silent 120 s s') (await_guest_agent m s)
  unfolding await_guest_agent
  await_guest_agent-Answered s = poll_agent-Answered 120 s
