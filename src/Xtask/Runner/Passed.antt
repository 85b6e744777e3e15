-- ===== src/Xtask/Runner/Passed.antt =====
-- What the success of a run means: no test in its trace failed.
use bouclier_bleu.Base.{
  ℕ, ◌≡◌, refl, ◌⊎◌, inl, inr, Bool, true, false, not, ◌&&◌, Bool-cases, Option, none, some, ◌∷◌,
  Text, Line, codes, text_eq,
}
use bouclier_bleu.Exec.{◌>>=◌, unless}
use bouclier_bleu.Exec.Ensures.{Holds, Leads, bind-Leads}
use bouclier_bleu.Xtask.Machine.{
  Machine, Output, Command, Job, Task, guest, stop_force, snapshot_restore, start, cat_benchmark,
}
use bouclier_bleu.Xtask.Utils.{succeeds, call, guest_checked, full_cmd, incus_exec, execute_cmd}
use bouclier_bleu.Xtask.Vm.{gets, elapsed, restore, restore_vm_snapshot}
use bouclier_bleu.Xtask.Report.{TestRecord}
use bouclier_bleu.Xtask.Trace.{
  Trace, Stage, building, stale, restored, clean, stage, is_neutral, HasPassed, Passing,
}
use bouclier_bleu.Xtask.Vm.Keeps.{
  Kept, and_then, call-Kept, checked-Kept, unless-Kept, await_guest_agent-Kept,
}
use bouclier_bleu.Xtask.Vm.Tested.{neutral-HasPassed, kept-Moves}
use bouclier_bleu.Xtask.Runner.{settled, tried, append_metrics, side_load, run_test}

succeeded_test :
    (script : Line) (st : Stage) (o : Option Output)
    → succeeds o ≡ true
    → Passing (guest script) st o
succeeded_test script building o h = tt
succeeded_test script stale o h = tt
succeeded_test script restored o h = tt
succeeded_test script clean o h = h

-- A failed test, or no failure in the trace.
abbrev pub Unless : Bool → Trace → Type 0
Unless passed t = (passed ≡ false) ⊎ HasPassed t

pub neutral-Unless :
    (passed : Bool) (c : Command) (o : Option Output) (t : Trace)
    → is_neutral c ≡ true
    → Unless passed t
    → Unless passed ((c, o) ∷ t)
neutral-Unless passed c o t n (inl missed) = inl missed
neutral-Unless passed c o t n (inr h) = inr (neutral-HasPassed c o t n h)

module _ (m : Machine) where
  abbrev Passed : {A : Type 0} → Task m A → Type 0
  Passed task = Kept m HasPassed neutral-HasPassed task

  command-Passed :
      (c : Command) (why : Line)
      → ((o : Option Output) (t : Trace) → HasPassed t → HasPassed ((c, o) ∷ t))
      → Passed (execute_cmd m c why)
  unfolding execute_cmd call
  command-Passed c why fact =
      and_then m HasPassed neutral-HasPassed (call m c) _ (λ s h. fact _ s.calls h)
        λ o. checked-Kept m HasPassed neutral-HasPassed why o

  restore-Passed : Passed (restore m)
  unfolding restore
  restore-Passed =
      and_then m HasPassed neutral-HasPassed _ _
        (call-Kept m HasPassed neutral-HasPassed stop_force refl)
        λ o.
          and_then m HasPassed neutral-HasPassed _ _
            (command-Passed snapshot_restore _ (λ r t h. (tt, h)))
            λ u.
              and_then m HasPassed neutral-HasPassed _ _ (command-Passed start _ (λ r t h. (tt, h)))
                λ v. await_guest_agent-Kept m HasPassed neutral-HasPassed

  restore_vm_snapshot-Passed : Passed (restore_vm_snapshot m)
  unfolding restore_vm_snapshot
  restore_vm_snapshot-Passed =
      and_then m HasPassed neutral-HasPassed (gets m m.now) _ (λ s h. h)
        λ from. and_then m HasPassed neutral-HasPassed (restore m) _ restore-Passed λ u s h. h

  -- What is said where a task succeeds.
  abbrev pub Tells : {A : Type 0} → (Trace → Type 0) → Task m A → (A → Bool) → Type 0
  Tells P task verdict =
      Leads (λ s. P s.calls) task (λ a s. Unless (verdict a) s.calls) (λ s. Unit {0})

  settled-Unless :
      (o : Option Output) (s : Job m.State)
      → (succeeds o ≡ true → HasPassed s.calls)
      → Holds
          (λ passed s'. Unless passed s'.calls)
          (λ s'. Unit {0})
          (settled m (guest_checked m o s))
  unfolding guest_checked
  settled-Unless none s h = inl refl
  settled-Unless (some o) s h = elim (Bool-cases o.is_success) [
    | inl done ↦ rw done (inr (h done))
    | inr refused ↦ rw refused (inl refl)
  ]

  test-Tells : (cmd : Line) → Tells HasPassed (tried m (incus_exec m cmd)) (λ passed. passed)
  unfolding incus_exec call ◌>>=◌
  test-Tells cmd s h =
      let c = guest (full_cmd m cmd) in
      let s₁ = (call m c s).1 in
      settled-Unless _ s₁ λ good. (succeeded_test (full_cmd m cmd) (stage s.calls) _ good, h)

  append_metrics-Kept :
      (passed : Bool) (o : Option Output)
      → Kept m (Unless passed) (neutral-Unless passed) (append_metrics m o)
  unfolding append_metrics
  append_metrics-Kept passed none = λ s h. h
  append_metrics-Kept passed (some o) =
      λ s h. elim (Bool-cases o.is_success) [ inl done ↦ rw done h | inr refused ↦ rw refused h ]

  side_load-Kept : (passed : Bool) → Kept m (Unless passed) (neutral-Unless passed) (side_load m)
  unfolding side_load
  side_load-Kept passed =
      and_then m (Unless passed) (neutral-Unless passed) (call m cat_benchmark) _
        (call-Kept m (Unless passed) (neutral-Unless passed) cat_benchmark refl)
        (append_metrics-Kept passed)

  pub run_test-Tells :
      (dir_name name : Text) (cmd : Line)
      → Tells HasPassed (run_test m dir_name name cmd) (λ r. r.0.passed)
  unfolding run_test
  run_test-Tells dir_name name cmd =
      let N : Job m.State → Type 0 = λ s. Unit {0} in
      let H : Job m.State → Type 0 = λ s. HasPassed s.calls in
      let Q : TestRecord × ℕ → Job m.State → Type 0 = λ r s. Unless r.0.passed s.calls in
      bind-Leads H (λ a s. HasPassed s.calls) Q N (restore_vm_snapshot m) _
        (kept-Moves m HasPassed (restore_vm_snapshot m) restore_vm_snapshot-Passed)
        λ restore_time.
          bind-Leads H (λ a s. HasPassed s.calls) Q N (gets m m.now) _ (λ s h. h)
            λ from.
              bind-Leads H (λ passed s. Unless passed s.calls) Q N (tried m (incus_exec m cmd)) _
                (test-Tells cmd)
                λ passed.
                  let U : Job m.State → Type 0 = λ s. Unless passed s.calls in
                  bind-Leads U (λ a s. Unless passed s.calls) Q N (elapsed m from) _ (λ s h. h)
                    λ duration.
                      let load =
                        unless (not (text_eq dir_name (codes "benchmark") && passed))
                          (side_load m) in
                      bind-Leads U (λ a s. Unless passed s.calls) Q N load _
                        (kept-Moves m (Unless passed) load (
                          unless-Kept m (Unless passed) (neutral-Unless passed) _ (side_load m)
                            (side_load-Kept passed)))
                        λ u s h. h
