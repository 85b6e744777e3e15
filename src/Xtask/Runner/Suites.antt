-- ===== src/Xtask/Runner/Suites.antt =====
-- The suites of a run: where their results have no failed test, neither has the trace.
use bouclier_bleu.Base.{
  ℕ, ◌≡◌, refl, ◌∙◌, inl, inr, Bool, true, false, ◌&&◌, ◌||◌, Bool-cases, Option, none, some, List,
  [], ◌∷◌, ◌++◌, Text, Line, codes, text_eq,
}
use bouclier_bleu.Exec.{◌>>=◌, pure}
use bouclier_bleu.Exec.Ensures.{Holds, bind-Leads, after}
use bouclier_bleu.Xtask.Machine.{Machine, Entry, Job, Task}
use bouclier_bleu.Xtask.Vm.{gets}
use bouclier_bleu.Xtask.Report.{TestRecord}
use bouclier_bleu.Xtask.Trace.{Trace, HasPassed}
use bouclier_bleu.Xtask.Runner.{
  Results, run_test, is_selected, run_entry, run_entries, run_listed, run_present, run_test_suite,
  run_unit, execute_suite, later_suites, all_suites, selected_suites, all_passed, with_result,
  add_results,
}
use bouclier_bleu.Xtask.Runner.Passed.{Unless, Tells, run_test-Tells}

-- One that missed is enough.
both_missed : (a b : Bool) → b ≡ false → (a && b) ≡ false
both_missed true b h = h
both_missed false b h = refl

module _ (m : Machine) where
  all_passed-append :
      (xs ys : List TestRecord) → all_passed m (xs ++ ys) ≡ (all_passed m xs && all_passed m ys)
  all_passed-append [] ys = refl
  all_passed-append (res ∷ xs) ys = elim (Bool-cases res.passed) [
    | inl passed ↦ rw passed (all_passed-append xs ys)
    | inr missed ↦ rw missed refl
  ]

  -- The results of a part of a run.
  abbrev pub Suite : Task m Results → Type 0
  Suite task = Tells m HasPassed task (λ r. all_passed m r.0)

  abbrev pub Nothing : Job m.State → Type 0
  Nothing s = Unit

  abbrev pub After : Results → Job m.State → Type 0
  After r s = Unless (all_passed m r.0) s.calls

  with-Unless : (a b : Bool) (t : Trace) → Unless b t → Unless (a && b) t
  with-Unless a b t (inl missed) = inl (both_missed a b missed)
  with-Unless a b t (inr passed) = inr passed

  both : (a : Bool) (t : Trace) → Unless a t → Unless (a && true) t
  both true t h = h
  both false t h = inl refl

  -- A result, and then the others.
  joined-Tells :
      (result : TestRecord × ℕ) (later : Task m Results)
      → Suite later
      → (s : Job m.State) → Unless result.0.passed s.calls
      → Holds After Nothing ((later >>= λ results. pure (with_result m result results)) s)
  joined-Tells result later tells s (inl missed) =
      after After later (λ results. pure (with_result m result results))
        (λ results s₁ h. inl (rw missed refl)) s tt
  joined-Tells result later tells s (inr passed) =
      bind-Leads (λ s₁. HasPassed s₁.calls) After After Nothing later
        (λ results. pure (with_result m result results)) tells
        (λ results s₁ h. with-Unless result.0.passed (all_passed m results.0) s₁.calls h) s passed

  module _ (dir_name ext : Text) (target : Option Text) (build_cmd : Text → Text → Line) where
    run_entries-Tells :
        (entries : List (Option Entry))
        → Suite (run_entries m dir_name ext target build_cmd entries)
    unfolding run_entries run_entry
    run_entries-Tells [] = λ s h. inr h
    run_entries-Tells (none ∷ rest) = λ s h. tt
    run_entries-Tells (some entry ∷ rest) = λ s h.
        elim (Bool-cases (is_selected ext target entry)) [
          | inr skipped ↦ rw skipped (run_entries-Tells rest s h)
          | inl selected ↦
              let later = run_entries m dir_name ext target build_cmd rest in
              rw selected (
                bind-Leads (λ s₁. HasPassed s₁.calls) (λ r s₁. Unless r.0.passed s₁.calls) After
                  Nothing (run_entry m dir_name ext target build_cmd entry) _
                  (run_test-Tells m dir_name _ _)
                  (λ result. joined-Tells result later (run_entries-Tells rest)) s h)
        ]

    run_listed-Tells :
        (o : Option (List (Option Entry))) → Suite (run_listed m dir_name ext target build_cmd o)
    unfolding run_listed
    run_listed-Tells none = λ s h. tt
    run_listed-Tells (some entries) = run_entries-Tells entries

    run_present-Tells : (there : Bool) → Suite (run_present m dir_name ext target build_cmd there)
    unfolding run_present
    run_present-Tells false = λ s h. inr h
    run_present-Tells true =
        bind-Leads (λ s. HasPassed s.calls) (λ a s. HasPassed s.calls) After Nothing (gets m _)
          (run_listed m dir_name ext target build_cmd) (λ s h. h) run_listed-Tells

    run_test_suite-Tells : Suite (run_test_suite m dir_name ext target build_cmd)
    unfolding run_test_suite
    run_test_suite-Tells =
        bind-Leads (λ s. HasPassed s.calls) (λ a s. HasPassed s.calls) After Nothing (gets m _)
          (run_present m dir_name ext target build_cmd) (λ s h. h) run_present-Tells

  run_unit-Tells : (target : Option Text) → Suite (run_unit m target)
  unfolding run_unit
  run_unit-Tells target =
      bind-Leads (λ s. HasPassed s.calls) (λ r s. Unless r.0.passed s.calls) After Nothing
        (run_test m (codes "unit") _ _) _ (run_test-Tells m _ _ _)
        λ result s h. both result.0.passed s.calls h

  execute_suite-Tells : (cat : Text) (target : Option Text) → Suite (execute_suite m cat target)
  unfolding execute_suite
  execute_suite-Tells cat target = λ s h. elim (Bool-cases (text_eq cat (codes "unit"))) [
    | inl unit ↦ rw unit (run_unit-Tells target s h)
    | inr a ↦ elim (Bool-cases (text_eq cat (codes "component"))) [
      | inl component ↦ rw (a, component) (run_test_suite-Tells _ _ target _ s h)
      | inr b ↦ elim (Bool-cases (text_eq cat (codes "integration"))) [
        | inl integration ↦ rw (a, b, integration) (run_test_suite-Tells _ _ target _ s h)
        | inr c ↦ elim (Bool-cases (text_eq cat (codes "benchmark"))) [
          | inl benchmark ↦ rw (a, b, c, benchmark) (run_test_suite-Tells _ _ target _ s h)
          | inr d ↦
              elim (Bool-cases (text_eq cat (codes "fuzzing") || text_eq cat (codes "threat"))) [
                | inl restricted ↦ rw (a, b, c, d, restricted) (inr h)
                | inr unknown ↦ rw (a, b, c, d, unknown) tt
              ]
        ]
      ]
    ]
  ]

  -- Suites one after another: what one missed is missed.
  added-Tells :
      (first : Results) (later : Task m Results)
      → Suite later
      → (s : Job m.State) → After first s
      → Holds After Nothing ((later >>= λ more. pure (add_results m first more)) s)
  added-Tells (xs, time) later tells s (inl missed) =
      after After later (λ more. pure (add_results m (xs, time) more))
        (λ more s₁ h. inl (all_passed-append xs more.0 ∙ rw missed refl)) s tt
  added-Tells (xs, time) later tells s (inr passed) =
      bind-Leads (λ s₁. HasPassed s₁.calls) After After Nothing later
        (λ more. pure (add_results m (xs, time) more)) tells
        (λ more s₁ h.
          rw (all_passed-append xs more.0)
            (with-Unless (all_passed m xs) (all_passed m more.0) s₁.calls h))
        s passed

  later_suites-Tells : Suite (later_suites m)
  unfolding later_suites
  later_suites-Tells =
      bind-Leads (λ s. HasPassed s.calls) After After Nothing
        (execute_suite m (codes "component") none) _ (execute_suite-Tells (codes "component") none)
        λ component.
          added-Tells component (execute_suite m (codes "integration") none)
            (execute_suite-Tells (codes "integration") none)

  all_suites-Tells : Suite (all_suites m)
  unfolding all_suites
  all_suites-Tells =
      bind-Leads (λ s. HasPassed s.calls) After After Nothing (execute_suite m (codes "unit") none)
        _ (execute_suite-Tells (codes "unit") none)
        λ unit. added-Tells unit (later_suites m) later_suites-Tells

  pub selected_suites-Tells :
      (category target : Option Text) → Suite (selected_suites m category target)
  unfolding selected_suites
  selected_suites-Tells none target = all_suites-Tells
  selected_suites-Tells (some cat) target = λ s h. elim (Bool-cases (text_eq cat (codes "all"))) [
    | inl all ↦ rw all (all_suites-Tells s h)
    | inr one ↦ rw one (execute_suite-Tells cat target s h)
  ]
