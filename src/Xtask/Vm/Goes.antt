-- ===== src/Xtask/Vm/Goes.antt =====
-- Tasks between traces of the machine: what a task makes of the trace where it succeeds, and that the
-- trace is sound wherever it fails.
use bouclier_bleu.Base.{◌≡◌, refl, inl, inr, true, Bool-cases, Option, none, some, ◌∷◌, Line}
use bouclier_bleu.Exec.{◌>>=◌}
use bouclier_bleu.Exec.Ensures.{Keeps, Leads, bind-Leads, Keeps-Leads}
use bouclier_bleu.Xtask.Machine.{Machine, Output, Command, Job, Task, argv}
use bouclier_bleu.Xtask.Utils.{dir_of, succeeds, call, checked, execute_cmd}
use bouclier_bleu.Xtask.Trace.{Trace, Stage, building, IsSound, stage, phase, is_neutral}
use bouclier_bleu.Xtask.Vm.Keeps.{neutral-At}

-- A sound trace of a machine in that stage.
abbrev pub In : Stage → Trace → Type 0
In st t = IsSound t × (stage t ≡ st)

abbrev pub IsBuilding : Trace → Type 0
IsBuilding = In building

pub neutral-In :
    (st : Stage) (c : Command) (o : Option Output) (t : Trace)
    → is_neutral c ≡ true
    → In st t
    → In st ((c, o) ∷ t)
neutral-In st c o t n h =
    let (sound, at, ph) = neutral-At c o t st (phase t) n (h.0, h.1, refl) in (sound, at)

pub neutral-IsSound :
    (c : Command) (o : Option Output) (t : Trace)
    → is_neutral c ≡ true
    → IsSound t
    → IsSound ((c, o) ∷ t)
neutral-IsSound c o t n h = (neutral-In (stage t) c o t n (h, refl)).0

module _ (m : Machine) where
  -- A task from a trace of `P` to one of `Q`, or to a sound one where it fails.
  abbrev pub Goes : {A : Type 0} → (Trace → Type 0) → Task m A → (Trace → Type 0) → Type 0
  Goes P task Q = Leads (λ s. P s.calls) task (λ a s. Q s.calls) (λ s. IsSound s.calls)

  pub goes_on :
      {A B : Type 0} (P Q Q' : Trace → Type 0) (task : Task m A) (next : A → Task m B)
      → Goes P task Q
      → ((a : A) → Goes Q (next a) Q')
      → Goes P (task >>= next) Q'
  goes_on P Q Q' task next first later =
      bind-Leads (λ s. P s.calls) (λ a s. Q s.calls) (λ a s. Q' s.calls) (λ s. IsSound s.calls) task
        next first later

  pub kept-Goes :
      {A : Type 0} (P : Trace → Type 0) (task : Task m A)
      → ((t : Trace) → P t → IsSound t)
      → Keeps (λ s. P s.calls) task
      → Goes P task P
  kept-Goes P task sound keeps =
      Keeps-Leads (λ s. P s.calls) (λ s. IsSound s.calls) task (λ s h. sound s.calls h) keeps

  -- The trace after a command: in `Q` where it succeeded, and sound.
  abbrev Ran : (Trace → Type 0) → Option Output → Job m.State → Type 0
  Ran Q o s = (succeeds o ≡ true → Q s.calls) × IsSound s.calls

  checked-Leads :
      (Q : Trace → Type 0) (why : Line) (o : Option Output)
      → Leads (Ran Q o) (checked m why o) (λ u s. Q s.calls) (λ s. IsSound s.calls)
  unfolding checked
  checked-Leads Q why none s h = h.1
  checked-Leads Q why (some o) s h = elim (Bool-cases o.is_success) [
    | inl done ↦ rw done (h.0 done)
    | inr refused ↦ rw refused h.1
  ]

  call-Leads :
      (P Q : Trace → Type 0) (c : Command)
      → ((o : Option Output) (t : Trace) → succeeds o ≡ true → P t → Q ((c, o) ∷ t))
      → ((o : Option Output) (t : Trace) → P t → IsSound ((c, o) ∷ t))
      → Leads (λ s. P s.calls) (call m c) (Ran Q) (λ s. IsSound s.calls)
  unfolding call
  call-Leads P Q c done always s h =
      let o = (m.run (dir_of m c) (argv c) s.host).0 in
      ((λ good. done o s.calls good h), always o s.calls h)

  -- A command that is checked: where it succeeded, and in any case.
  pub execute_cmd-Goes :
      (P Q : Trace → Type 0) (c : Command) (why : Line)
      → ((o : Option Output) (t : Trace) → succeeds o ≡ true → P t → Q ((c, o) ∷ t))
      → ((o : Option Output) (t : Trace) → P t → IsSound ((c, o) ∷ t))
      → Goes P (execute_cmd m c why) Q
  unfolding execute_cmd
  execute_cmd-Goes P Q c why done always =
      bind-Leads (λ s. P s.calls) (Ran Q) (λ u s. Q s.calls) (λ s. IsSound s.calls) (call m c)
        (checked m why) (call-Leads P Q c done always) λ o. checked-Leads Q why o
