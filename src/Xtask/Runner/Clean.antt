-- ===== src/Xtask/Runner/Clean.antt =====
-- Every test runs on a machine that was put back to its snapshot, whatever failed before.
use bouclier_bleu.Base.{
  ◌≡◌, refl, inl, inr, Bool, true, false, not, ◌&&◌, ◌||◌, Bool-cases, Option, none, some, List, [],
  ◌∷◌, Text, Line, codes, Outcome, ok, err, text_eq,
}
use bouclier_bleu.Exec.{◌>>=◌, unless}
use bouclier_bleu.Exec.Ensures.{Holds}
use bouclier_bleu.Xtask.Machine.{
  Machine, Output, Entry, Job, Failure, failed, panicked, exits, Task, guest, stop_force,
  snapshot_restore, start, cat_benchmark,
}
use bouclier_bleu.Xtask.Utils.{call, full_cmd, incus_exec, await_guest_agent}
use bouclier_bleu.Xtask.Vm.{gets, elapsed, restore, restore_vm_snapshot}
use bouclier_bleu.Xtask.Trace.{Trace, restored, clean, IsSound}
use bouclier_bleu.Xtask.Vm.Keeps.{call-Kept, await_guest_agent-Kept, guest_checked-same}
use bouclier_bleu.Xtask.Vm.Goes.{
  In, neutral-In, neutral-IsSound, Goes, goes_on, kept-Goes, execute_cmd-Goes,
}
use bouclier_bleu.Xtask.Runner.{
  settled, tried, append_metrics, side_load, run_test, is_selected, run_entry, run_entries,
  run_listed, run_present, run_test_suite, run_unit, execute_suite,
}

module _ (m : Machine) where
  pub IsSound-Holds :
      {A : Type 0} (r : Outcome Failure A × Job m.State)
      → IsSound r.1.calls
      → Holds (λ a s. IsSound s.calls) (λ s. IsSound s.calls) r
  IsSound-Holds (ok a, s) h = h
  IsSound-Holds (err why, s) h = h

  restore-Goes : Goes m IsSound (restore m) (In clean)
  unfolding restore
  restore-Goes =
      goes_on m IsSound IsSound (In clean) (call m stop_force) _
        (kept-Goes m IsSound (call m stop_force) (λ t h. h)
          (call-Kept m IsSound neutral-IsSound stop_force refl))
        λ o.
          goes_on m IsSound (In restored) (In clean) _ _
            (execute_cmd-Goes m IsSound (In restored) snapshot_restore _
              (λ r t done h. ((tt, h), rw done refl)) λ r t h. (tt, h))
            λ u.
              goes_on m (In restored) (In clean) (In clean) _ _
                (execute_cmd-Goes m (In restored) (In clean) start _
                  (λ r t done h. ((tt, h.0), rw (done, h.1) refl)) λ r t h. (tt, h.0))
                λ v.
                  kept-Goes m (In clean) (await_guest_agent m) (λ t h. h.0)
                    (await_guest_agent-Kept m (In clean) (neutral-In clean))

  restore_vm_snapshot-Goes : Goes m IsSound (restore_vm_snapshot m) (In clean)
  unfolding restore_vm_snapshot
  restore_vm_snapshot-Goes =
      goes_on m IsSound IsSound (In clean) (gets m m.now) _ (λ s h. h)
        λ from. goes_on m IsSound (In clean) (In clean) (restore m) _ restore-Goes λ u s h. h

  -- A task whose end is sound, whichever it is.
  abbrev Ends : {A : Type 0} → (Trace → Type 0) → Task m A → Type 0
  Ends P task = (s : Job m.State) → P s.calls → IsSound (task s).1.calls

  incus_exec-Ends : (command : Line) → Ends (In clean) (incus_exec m command)
  unfolding incus_exec call ◌>>=◌
  incus_exec-Ends command s h =
      let c = guest (full_cmd m command) in
      let o = (call m c s).1 in rw (guest_checked-same m _ o) ((inr h.1, h.0))

  settled-same : (r : Outcome Failure (Unit {0}) × Job m.State) → (settled m r).1 ≡ r.1
  settled-same (ok u, s) = refl
  settled-same (err (failed why), s) = refl
  settled-same (err panicked, s) = refl
  settled-same (err (exits n), s) = refl

  Ends-Goes :
      {A : Type 0} (P : Trace → Type 0) (task : Task m A) → Ends P task → Goes m P task IsSound
  Ends-Goes P task ends s h = IsSound-Holds (task s) (ends s h)

  test-Goes : (cmd : Line) → Goes m (In clean) (tried m (incus_exec m cmd)) IsSound
  test-Goes cmd =
      Ends-Goes (In clean) (tried m (incus_exec m cmd))
        λ s h. rw (settled-same (incus_exec m cmd s)) (incus_exec-Ends cmd s h)

  append_metrics-Goes : (o : Option Output) → Goes m IsSound (append_metrics m o) IsSound
  unfolding append_metrics
  append_metrics-Goes none s h = h
  append_metrics-Goes (some o) s h = elim (Bool-cases o.is_success) [
    | inl done ↦ rw done h
    | inr refused ↦ rw refused h
  ]

  side_load-Goes : Goes m IsSound (side_load m) IsSound
  unfolding side_load
  side_load-Goes =
      goes_on m IsSound IsSound IsSound (call m cat_benchmark) _
        (kept-Goes m IsSound (call m cat_benchmark) (λ t h. h)
          (call-Kept m IsSound neutral-IsSound cat_benchmark refl))
        append_metrics-Goes

  unless-Goes :
      (done : Bool) (task : Task m (Unit {0}))
      → Goes m IsSound task IsSound
      → Goes m IsSound (unless done task) IsSound
  unless-Goes true task h s k = k
  unless-Goes false task h s k = h s k

  run_test-Goes :
      (dir_name name : Text) (cmd : Line) → Goes m IsSound (run_test m dir_name name cmd) IsSound
  unfolding run_test
  run_test-Goes dir_name name cmd =
      goes_on m IsSound (In clean) IsSound (restore_vm_snapshot m) _ restore_vm_snapshot-Goes
        λ restore_time.
          goes_on m (In clean) (In clean) IsSound (gets m m.now) _ (λ s h. h)
            λ from.
              goes_on m (In clean) IsSound IsSound (tried m (incus_exec m cmd)) _ (test-Goes cmd)
                λ passed.
                  goes_on m IsSound IsSound IsSound (elapsed m from) _ (λ s h. h)
                    λ duration.
                      goes_on m IsSound IsSound IsSound
                        (unless (not (text_eq dir_name (codes "benchmark") && passed))
                          (side_load m))
                        _ (unless-Goes _ (side_load m) side_load-Goes) λ u s h. h

  module _ (dir_name ext : Text) (target : Option Text) (build_cmd : Text → Text → Line) where
    run_entries-Goes :
        (entries : List (Option Entry))
        → Goes m IsSound (run_entries m dir_name ext target build_cmd entries) IsSound
    unfolding run_entries run_entry
    run_entries-Goes [] = λ s h. h
    run_entries-Goes (none ∷ rest) = λ s h. h
    run_entries-Goes (some entry ∷ rest) = λ s h. elim (Bool-cases (is_selected ext target entry)) [
      | inr skipped ↦ rw skipped (run_entries-Goes rest s h)
      | inl selected ↦ rw selected (
          goes_on m IsSound IsSound IsSound (run_entry m dir_name ext target build_cmd entry) _
            (run_test-Goes dir_name _ _)
            (λ result.
              goes_on m IsSound IsSound IsSound (run_entries m dir_name ext target build_cmd rest) _
                (run_entries-Goes rest) λ results s₁ k. k)
            s h)
    ]

    run_listed-Goes :
        (o : Option (List (Option Entry)))
        → Goes m IsSound (run_listed m dir_name ext target build_cmd o) IsSound
    unfolding run_listed
    run_listed-Goes none = λ s h. h
    run_listed-Goes (some entries) = run_entries-Goes entries

    run_present-Goes :
        (there : Bool) → Goes m IsSound (run_present m dir_name ext target build_cmd there) IsSound
    unfolding run_present
    run_present-Goes false = λ s h. h
    run_present-Goes true =
        goes_on m IsSound IsSound IsSound (gets m _) (run_listed m dir_name ext target build_cmd)
          (λ s h. h) run_listed-Goes

    run_test_suite-Goes : Goes m IsSound (run_test_suite m dir_name ext target build_cmd) IsSound
    unfolding run_test_suite
    run_test_suite-Goes =
        goes_on m IsSound IsSound IsSound (gets m _) (run_present m dir_name ext target build_cmd)
          (λ s h. h) run_present-Goes

  run_unit-Goes : (target : Option Text) → Goes m IsSound (run_unit m target) IsSound
  unfolding run_unit
  run_unit-Goes target =
      goes_on m IsSound IsSound IsSound (run_test m (codes "unit") _ _) _ (run_test-Goes _ _ _)
        λ result s h. h

  pub execute_suite-Goes :
      (cat : Text) (target : Option Text) → Goes m IsSound (execute_suite m cat target) IsSound
  unfolding execute_suite
  execute_suite-Goes cat target = λ s h. elim (Bool-cases (text_eq cat (codes "unit"))) [
    | inl unit ↦ rw unit (run_unit-Goes target s h)
    | inr a ↦ elim (Bool-cases (text_eq cat (codes "component"))) [
      | inl component ↦ rw (a, component) (run_test_suite-Goes _ _ target _ s h)
      | inr b ↦ elim (Bool-cases (text_eq cat (codes "integration"))) [
        | inl integration ↦ rw (a, b, integration) (run_test_suite-Goes _ _ target _ s h)
        | inr c ↦ elim (Bool-cases (text_eq cat (codes "benchmark"))) [
          | inl benchmark ↦ rw (a, b, c, benchmark) (run_test_suite-Goes _ _ target _ s h)
          | inr d ↦
              elim (Bool-cases (text_eq cat (codes "fuzzing") || text_eq cat (codes "threat"))) [
                | inl restricted ↦ rw (a, b, c, d, restricted) h
                | inr unknown ↦ rw (a, b, c, d, unknown) h
              ]
        ]
      ]
    ]
  ]
