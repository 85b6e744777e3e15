-- ===== src/Tests/Response.antt =====
-- Examples of the alerts: parsing, dispatch, strikes and the sink.
use bouclier_bleu.Base.{
  ℕ, ◌≡◌, refl, Bool, true, false, none, some, List, [], ◌∷◌, ◌++◌, replicate, codes, arith, ok,
}
use bouclier_bleu.Reader.{little, Bytes, replaced_warning}
use bouclier_bleu.Host.{alerts_json, Readings, World}
use bouclier_bleu.Strikes.{lookup, strike, seconds, is_child}
use bouclier_bleu.Strikes.Tree.{tree_kills}
use bouclier_bleu.Strikes.Sequence.{IsOrderly, three_strikes, window_is_fixed}
use bouclier_bleu.Strikes.Standing.{clear, verdicts, alerts}
use bouclier_bleu.Strikes.Refined.{killed-eq-verdicts}
use bouclier_bleu.Registry.{build_registry}
use bouclier_bleu.Parsing.{field_sizes, Judged, parsers_Judged}
use bouclier_bleu.Modules.RenameEntropy.{RenameAlert, join_path}
use bouclier_bleu.Modules.RenameEntropy
use bouclier_bleu.Modules.IoRestrict
use bouclier_bleu.Parsing.Skew.{io_wire, try_from_bytes-io_wire}
use bouclier_bleu.Parsing.Wire.{Fits, rename_wire, parse-rename_wire}
use bouclier_bleu.Registry.Harmless.{OnlyRenames, process_event-OnlyRenames}
use bouclier_bleu.Base.{All}
use bouclier_bleu.Siem.{is_insecure, ensure_secure_directory, validate}
use bouclier_bleu.Siem.Secure.{IsRemoving, IsCreating, IsSecure, ensure-IsSecure}
use bouclier_bleu.Tests.Samples.{small_files, idle, reading, secure_dir}

-- An event of 4100 bytes: the process 40 and a path.
abbrev event : Bytes
event = 40 ∷ 0 ∷ 0 ∷ 0 ∷ (codes "/tmp/x" ++ replicate 4090 0)

parsers_Judged_example : Judged little event field_sizes (build_registry {F = Bool})
parsers_Judged_example = parsers_Judged Bool little event

orderly : (now : ℕ) → IsOrderly 40 (reading now)
orderly now = record { unpoisoned = refl; monotonic = omega arith }

-- The empty world with three alerts behind it, a second apart.
abbrev after_three : World Bool
after_three =
    strike 40 (reading (seconds 3))
      (strike 40 (reading (seconds 2)) (strike 40 (reading (seconds 1)) (idle true)))

three_strikes_example :
    (after_three.killed ≡ tree_kills 40 (reading (seconds 3)))
    × (lookup 40 after_three.tracker ≡ none)
unfolding lookup
three_strikes_example =
    three_strikes 40 (reading (seconds 1)) (reading (seconds 2)) (reading (seconds 3)) (idle true)
      refl (orderly (seconds 1)) (orderly (seconds 2)) (orderly (seconds 3)) (omega arith)
      (omega arith)

-- Alerts of the processes 40 and 50 by turns: the strike of 50 is pruned at eight seconds.
abbrev interleaved : List (ℕ × Readings)
interleaved =
    (40, reading (seconds 1))
    ∷ (50, reading (seconds 2))
    ∷ (40, reading (seconds 2))
    ∷ (40, reading (seconds 3))
    ∷ (40, reading (seconds 8))
    ∷ (50, reading (seconds 9))
    ∷ []

killed-eq-verdicts_example :
    (alerts interleaved (idle true)).killed ≡ [] ++ verdicts (λ _. clear) interleaved
unfolding lookup
killed-eq-verdicts_example =
    killed-eq-verdicts 0 interleaved (idle true) (λ _. clear) tt (λ _. tt) (omega arith)

interleaved_killed : verdicts (λ _. clear) interleaved ≡ tree_kills 40 (reading (seconds 3))
unfolding verdicts is_child
interleaved_killed = refl

-- Alerts at 1, 2.9, 3.5 and 4.2 seconds.
window_is_fixed_example :
    (strike 40 (reading 4200000000) (
      strike 40
        (reading 3500000000)
        (strike 40 (reading 2900000000) (strike 40 (reading (seconds 1)) (idle true))))).killed
    ≡ []
unfolding lookup
window_is_fixed_example =
    window_is_fixed 40 (reading (seconds 1)) (reading 2900000000) (reading 3500000000)
      (reading 4200000000) (idle true) refl (orderly (seconds 1)) (orderly 2900000000)
      (orderly 3500000000) (orderly 4200000000) (omega arith) (omega arith) (omega arith)
      (omega arith)

-- The sink is open.
abbrev opened : World Bool
opened = record (idle true) { sink = some (some alerts_json) }

removes : IsRemoving small_files
removes dir s = (λ h. refl, λ h. refl)

creates : IsCreating small_files 0o022
creates dir s gone h = (secure_dir, refl, refl, refl, refl)

ensure-IsSecure_example :
    IsSecure small_files
      (codes "/var/log")
      (ensure_secure_directory small_files (codes "/var/log") false).2
unfolding ensure_secure_directory validate is_insecure
ensure-IsSecure_example =
    ensure-IsSecure small_files 0o022 refl removes creates (codes "/var/log") false refl

slash : Fits 4096 (codes "/")
slash = record { short = omega arith; clean = ((omega arith, omega arith), tt) }

name : Fits 256 (codes "a")
name = record { short = omega arith; clean = ((omega arith, omega arith), tt) }

parse-rename_wire_example :
    RenameEntropy.try_from_bytes little (rename_wire little 41 40 (codes "/") (codes "a") (0 ∷ []))
    ≡ (ok (record { pid = 41; ppid = 40; full_path = join_path (codes "/") (codes "a") }), [])
parse-rename_wire_example =
    parse-rename_wire little 41 40 (codes "/") (codes "a") (0 ∷ []) (omega arith) (omega arith)
      slash name

try_from_bytes-io_wire_example :
    IoRestrict.try_from_bytes little (io_wire 40 41 2 (codes "vmsplice") [])
    ≡ (ok (record { pid = 40; action_type = 41; syscall = codes "?" }), replaced_warning 1)
try_from_bytes-io_wire_example =
    try_from_bytes-io_wire 40 41 2 (codes "vmsplice") [] (omega arith) (omega arith) (omega arith)
      (omega arith) (omega arith)

process_event-OnlyRenames_example : All (OnlyRenames small_files) (build_registry {F = Bool})
process_event-OnlyRenames_example = process_event-OnlyRenames small_files
