-- ===== src/Exec/Ensures.antt =====
-- What holds of the state where an action succeeds, rule by rule.
use bouclier_bleu.Base.{◌≡◌, Bool, true, false, Outcome, ok, err}
use bouclier_bleu.Exec.{Exec, continue, unless, ◌>>=◌}

module _ {S E : Type 0} where
  -- What every action keeps holds also where one has failed.
  pub continue-keeps :
      {A B : Type 0} (P : S → Type 0) (next : A → Exec S E B) (r : Outcome E A × S)
      → P r.1
      → ((a : A) (s : S) → P s → P (next a s).1)
      → P (continue next r).1
  continue-keeps P next (ok a, s) h step = step a s h
  continue-keeps P next (err e, s) h step = h

  -- An action that keeps a property of the state, whether it succeeds or not.
  abbrev pub Keeps : {A : Type 0} → (S → Type 0) → Exec S E A → Type 0
  Keeps P task = (s : S) → P s → P (task s).1

  pub bind-Keeps :
      {A B : Type 0} (P : S → Type 0) (task : Exec S E A) (next : A → Exec S E B)
      → Keeps P task
      → ((a : A) → Keeps P (next a))
      → Keeps P (task >>= next)
  unfolding ◌>>=◌
  bind-Keeps P task next first later s h =
      continue-keeps P next (task s) (first s h) λ a s₁ k. later a s₁ k

  pub unless-Keeps :
      (P : S → Type 0) (done : Bool) (task : Exec S E (Unit {0}))
      → Keeps P task
      → Keeps P (unless done task)
  unless-Keeps P true task h s k = k
  unless-Keeps P false task h s k = h s k

  -- What holds after an action: `Q` of its value and the state where it succeeded, `R` where it failed.
  abbrev pub Holds : {A : Type 0} → (A → S → Type 0) → (S → Type 0) → Outcome E A × S → Type 0
  Holds Q R (ok a, s) = Q a s
  Holds Q R (err why, s) = R s

  abbrev pub Leads :
      {A : Type 0} → (S → Type 0) → Exec S E A → (A → S → Type 0) → (S → Type 0) → Type 0
  Leads P task Q R = (s : S) → P s → Holds Q R (task s)

  pub continue-Holds :
      {A B : Type 0} (Q : A → S → Type 0) (Q' : B → S → Type 0) (R : S → Type 0)
      (next : A → Exec S E B) (r : Outcome E A × S)
      → Holds Q R r
      → ((a : A) → Leads (Q a) (next a) Q' R)
      → Holds Q' R (continue next r)
  continue-Holds Q Q' R next (ok a, s) h step = step a s h
  continue-Holds Q Q' R next (err why, s) h step = h

  pub bind-Leads :
      {A B : Type 0} (P : S → Type 0) (Q : A → S → Type 0) (Q' : B → S → Type 0) (R : S → Type 0)
      (task : Exec S E A) (next : A → Exec S E B)
      → Leads P task Q R
      → ((a : A) → Leads (Q a) (next a) Q' R)
      → Leads P (task >>= next) Q' R
  unfolding ◌>>=◌
  bind-Leads P Q Q' R task next first later s h =
      continue-Holds Q Q' R next (task s) (first s h) later

  kept-Holds :
      {A : Type 0} (P R : S → Type 0) (r : Outcome E A × S)
      → ((s : S) → P s → R s)
      → P r.1
      → Holds (λ a s. P s) R r
  kept-Holds P R (ok a, s) weaker h = h
  kept-Holds P R (err why, s) weaker h = weaker s h

  pub Keeps-Leads :
      {A : Type 0} (P R : S → Type 0) (task : Exec S E A)
      → ((s : S) → P s → R s)
      → Keeps P task
      → Leads P task (λ a s. P s) R
  Keeps-Leads P R task weaker keeps s h = kept-Holds P R (task s) weaker (keeps s h)

  -- Where the action succeeded, its value and the state after it satisfy `P`.
  abbrev pub Ensures : {A : Type 0} → (A → S → Type 0) → Outcome E A × S → Type 0
  Ensures P r = Holds P (λ s. Unit {0}) r

  pub Ensures-continue :
      {A B : Type 0} (P : A → S → Type 0) (Q : B → S → Type 0) (next : A → Exec S E B)
      (r : Outcome E A × S)
      → Ensures P r
      → ((a : A) (s : S) → P a s → Ensures Q (next a s))
      → Ensures Q (continue next r)
  Ensures-continue P Q next r h step = continue-Holds P Q (λ s. Unit {0}) next r h step

  -- A property of both ends holds at the end.
  pub Holds-either :
      {A : Type 0} (Q : A → S → Type 0) (R : S → Type 0) (r : Outcome E A × S)
      → Holds Q R r
      → ((a : A) (s : S) → Q a s → R s)
      → R r.1
  Holds-either Q R (ok a, s) h weaker = weaker a s h
  Holds-either Q R (err why, s) h weaker = h

  any-Holds : {A : Type 0} (r : Outcome E A × S) → Holds (λ a s. Unit {0}) (λ s. Unit {0}) r
  any-Holds (ok a, s) = tt
  any-Holds (err why, s) = tt

  -- Whatever an action does, what follows it matters alone.
  pub after :
      {A B : Type 0} (Q : B → S → Type 0) (task : Exec S E A) (next : A → Exec S E B)
      → ((a : A) → Leads (λ s. Unit {0}) (next a) Q (λ s. Unit {0}))
      → Leads (λ s. Unit {0}) (task >>= next) Q (λ s. Unit {0})
  after Q task next later =
      bind-Leads (λ s. Unit {0}) (λ a s. Unit {0}) Q (λ s. Unit {0}) task next
        (λ s h. any-Holds (task s)) later

  pub Holds-weaker :
      {A : Type 0} (Q Q' : A → S → Type 0) (R R' : S → Type 0) (r : Outcome E A × S)
      → Holds Q R r
      → ((a : A) (s : S) → Q a s → Q' a s)
      → ((s : S) → R s → R' s)
      → Holds Q' R' r
  Holds-weaker Q Q' R R' (ok a, s) h good bad = good a s h
  Holds-weaker Q Q' R R' (err why, s) h good bad = bad s h

  pub Holds-ok :
      {A : Type 0} (Q : A → S → Type 0) (R : S → Type 0) (r : Outcome E A × S) (a : A)
      → Holds Q R r
      → r.0 ≡ ok a
      → Q a r.1
  Holds-ok Q R (ok b, s) a h e = let same : b ≡ a = cc e in rw (← same) h
  Holds-ok Q R (err why, s) a h e = cc e
