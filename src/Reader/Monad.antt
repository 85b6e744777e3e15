-- ===== src/Reader/Monad.antt =====
-- The reader's state, and the parsers on it.
use bouclier_bleu.Base.{ℕ, String, List, [], Line, Outcome}
use bouclier_bleu.Exec.{Exec}

abbrev pub Bytes : Type 0
Bytes = List ℕ

pub record Reader : Type 0 where
  pub bytes : Bytes
  pub offset : ℕ
  pub log : List Line

abbrev pub Parse : Type 0 → Type 0
Parse = Exec Reader String

-- Runs an action on fresh bytes: its result, and what it printed to standard error.
unfoldable pub run : {A : Type 0} → Parse A → Bytes → Outcome String A × List Line
run m bytes =
    let (result, r) = m (record { bytes = bytes; offset = 0; log = [] }) in (result, r.log)
