-- ===== src/Exec.antt =====
-- Actions on a state that may fail with an error: what was changed before the error stays changed.
pub mod Ensures
use bouclier_bleu.Base.{Bool, true, false, Outcome, ok, err}

abbrev pub Exec : Type 0 → Type 0 → Type 0 → Type 0
Exec S E A = S → Outcome E A × S

module _ {S E : Type 0} where
  abbrev pub pure : {A : Type 0} → A → Exec S E A
  pure a s = (ok a, s)

  abbrev pub fail : {A : Type 0} → E → Exec S E A
  fail e s = (err e, s)

  abbrev pub continue : {A B : Type 0} → (A → Exec S E B) → Outcome E A × S → Outcome E B × S
  continue f (ok a, s) = f a s
  continue f (err e, s) = (err e, s)

  infixl 5 ◌>>=◌ ◌>>◌
  unfoldable pub ◌>>=◌ : {A B : Type 0} → Exec S E A → (A → Exec S E B) → Exec S E B
  ◌>>=◌ m f s = continue f (m s)

  abbrev pub ◌>>◌ : {A B : Type 0} → Exec S E A → Exec S E B → Exec S E B
  m >> k = m >>= λ _. k

  -- `if !done { … }`
  abbrev pub unless : Bool → Exec S E (Unit {0}) → Exec S E (Unit {0})
  unless true m = pure tt
  unless false m = m
