-- ===== src/Xtask/Utils.antt =====
-- xtask/src/utils.rs: running a command, running one in the guest, and waiting for the guest.
pub mod Await
use bouclier_bleu.Base.{
  ℕ, zero, suc, ◌*◌, ◌^◌, String, Bool, true, false, Option, none, some, List, [], ◌∷◌, ◌++◌, Text,
  ok, Line, lit, num, str, trim, is_whitespace, if◌then◌else◌,
}
use bouclier_bleu.Base.Utf8.{from_utf8_lossy}
use bouclier_bleu.Exec.{unless, pure, fail, ◌>>=◌, ◌>>◌}
use bouclier_bleu.Xtask.Machine.{
  Machine, Output, Command, Job, Failure, failed, argv, tar, build_image, guest, echo_ready, Task,
}

-- `is_ok_and(|o| o.status.success())`
abbrev pub succeeds : Option Output → Bool
succeeds none = false
succeeds (some o) = o.is_success

-- `output.status.code().unwrap_or(-1)`
abbrev pub code_or : Option ℕ → Line
code_or none = lit "-1" ∷ []
code_or (some n) = num n ∷ []

-- `{:?}` of the code.
abbrev debug_code : Option ℕ → Line
debug_code none = lit "None" ∷ []
debug_code (some n) = lit "Some(" ∷ num n ∷ lit ")" ∷ []

-- The seconds between two looks at the guest, in nanoseconds.
abbrev pub seconds : ℕ → ℕ
seconds n = n * 10 ^ 9

module _ (m : Machine) where
  -- `current_dir`, where a command sets it.
  abbrev pub dir_of : Command → Option Text
  dir_of (tar tarball) = some m.root
  dir_of (build_image script image_alias) = some m.root
  dir_of _ = none

  -- `Command::output`
  unfoldable pub call : Command → Task m (Option Output)
  unfolding argv
  call c s =
      let (o, host) = m.run (dir_of c) (argv c) s.host in
      (ok o, record { host = host; calls = (c, o) ∷ s.calls })

  -- What `execute_cmd` makes of the output.
  unfoldable pub checked : Line → Option Output → Task m (Unit {0})
  unfolding from_utf8_lossy trim is_whitespace
  checked error_msg none = fail (failed error_msg)
  checked error_msg (some o) =
      if o.is_success
      then pure tt
      else fail (
          failed (
            error_msg
            ++ lit " (Exit code: " ∷ code_or o.code
            ++ lit ")\n\n--- STDERR ---\n"
              ∷ str (trim is_whitespace (from_utf8_lossy o.stderr))
              ∷ []))

  unfoldable pub execute_cmd : Command → Line → Task m (Unit {0})
  execute_cmd c error_msg = do o ← call c; checked error_msg o

  unfoldable pub guest_checked : Option Output → Task m (Unit {0})
  unfolding from_utf8_lossy
  guest_checked none = fail (failed (lit "Incus translation execution failure" ∷ []))
  guest_checked (some o) =
      if o.is_success
      then pure tt
      else fail (
          failed (
            lit "Guest command failed (Exit code: " ∷ debug_code o.code
            ++ lit ")\n\n--- STDOUT ---\n"
              ∷ str (from_utf8_lossy o.stdout)
              ∷ lit "\n--- STDERR ---\n"
              ∷ str (from_utf8_lossy o.stderr)
              ∷ []))

  -- In the guest, in the workspace and with the environment of Rust.
  abbrev pub full_cmd : Line → Line
  full_cmd command = lit "source ~/.cargo/env && cd /workspace && " ∷ command

  unfoldable pub incus_exec : Line → Task m (Unit {0})
  incus_exec command = do o ← call (guest (full_cmd command)); guest_checked o

  unfoldable pub sleep : ℕ → Task m (Unit {0})
  sleep n s = (ok tt, record s { host = m.sleep (seconds n) s.host })

  -- The loop of `await_guest_agent`, with the looks that are left.
  unfoldable pub poll_agent : ℕ → Task m (Unit {0})
  poll_agent zero =
      fail (failed (lit "VM communication agent exceeded response timeout limit." ∷ []))
  poll_agent (suc n) = do o ← call echo_ready; unless (succeeds o) (sleep 2 >> poll_agent n)

  unfoldable pub await_guest_agent : Task m (Unit {0})
  await_guest_agent = poll_agent 120
