-- ===== src/Tests/Startup.antt =====
-- Examples of the start: the configuration, the watchlists and the hooks.
use bouclier_bleu.Base.{
  ◌^◌, ℕ, ◌+◌, ◌-◌, ◌≡◌, refl, ◌≤◌, Bool, true, false, Option, none, some, [], ◌∷◌, Text, codes,
  arith, ok, text_eq,
}
use bouclier_bleu.Reader.{little}
use bouclier_bleu.Device.{kernel_dev}
use bouclier_bleu.Device.Layout.{makedev, kernel_dev-makedev}
use bouclier_bleu.Base.{◌*◌, ◌<◌}
use bouclier_bleu.Device.Identity.{generate_hardware_key-injective}
use bouclier_bleu.Toml.{Toml, Entries, integer, boolean, table, entry, end}
use bouclier_bleu.Config.{DaemonConfig, default, opened, absent, unopened, config, load}
use bouclier_bleu.Config.Documents.{document_of, load-document_of}
use bouclier_bleu.Config.Strict.{size_disables_all}
use bouclier_bleu.Engine.{configured, get, initialize_active_modules}
use bouclier_bleu.Engine.Configured.{initialize-status}
use bouclier_bleu.Registry.{build_registry, status_of}
use bouclier_bleu.Modules.IoRestrict.{extracted_size}
use bouclier_bleu.Watchlist.{
  buffered, file, DirEntry, Disk, Bpf, Setup, populate_map_from_paths, calculate_dynamic_capacity,
  with_buffer, count_matches, matches_in,
}
use bouclier_bleu.Watchlist.Capacity.{TakesUpdates, Leaves, populate-Leaves}
use bouclier_bleu.Tests.Samples.{bare_disk, idle, flag_lib, skeleton}

-- The shield is enabled, and the map of `io_restrict` has a size.
abbrev document : Toml
document = table (
    entry (codes "modules")
      (table (
        entry (codes "shield") (boolean true)
          (entry (codes "io_restrict_map_size") (integer 2048) end)))
      end)

document_size : extracted_size (some document) ≡ some 2048
unfolding extracted_size bouclier_bleu.Toml.get text_eq
document_size = refl

size_disables_all_example :
    (load
        (λ text. some document)
        (opened (record { owner = some 0; contents = some [] }) ∷ absent ∷ [])
      ≡ config default)
    × (configured default (codes "shield") ≡ false)
size_disables_all_example =
    size_disables_all (λ text. some document) [] document 2048 (absent ∷ []) (codes "shield") refl
      document_size

-- The configuration enables the shield, which is the one module that was loaded.
abbrev shield_on : DaemonConfig
shield_on = record { modules = (codes "shield", true) ∷ [] }

initialize-status_example :
    status_of
      (codes "shield")
      (initialize_active_modules flag_lib
        (codes "shield" ∷ [])
        bare_disk
        little
        shield_on
        ((codes "shield", skeleton (codes "shield") none) ∷ [])
        (build_registry {F = Bool})
        (idle true)).1
    ≡ some true
unfolding get configured status_of build_registry text_eq
initialize-status_example =
    initialize-status flag_lib (codes "shield" ∷ []) bare_disk little shield_on
      ((codes "shield", skeleton (codes "shield") none) ∷ []) build_registry (codes "shield")
      (idle true)

-- Two files in one directory, and a map with room for 4 entries that counts down.
abbrev found : Text → Option DirEntry
found path = some (record { path = path; file_name = path; is_file = true; is_dir = false })

abbrev two_files : Disk
two_files = record bare_disk {
  walk = λ depth follow filter root. found (codes "a") ∷ found (codes "b") ∷ [];
  hardware = λ path. some (record { ino = 7; dev = 2049 });
}

abbrev counter : Bpf
counter = record { Object = ℕ; has_map = λ name o. true; update = λ name key value o. ok (o - 1) }

takes : TakesUpdates counter (λ o. o)
takes name key value o n h = (o - 1, refl, omega arith)

few : count_matches two_files file false [] (codes "/etc" ∷ []) < 2 ^ 31
unfolding count_matches matches_in
few = omega arith

two_fit : 0 + calculate_dynamic_capacity two_files file false [] (codes "/etc" ∷ []) 2 ≤ 2
unfolding calculate_dynamic_capacity with_buffer buffered count_matches matches_in
two_fit = omega arith

-- A map with room for two entries.
abbrev two_left : Setup ℕ
two_left = record { object = 2; out = []; errors = [] }

populate-Leaves_example :
    Leaves counter
      (λ o. o)
      0
      (populate_map_from_paths two_files counter little
        (codes "files")
        (codes "/etc" ∷ [])
        file
        false
        []
        (codes "shield")
        two_left)
populate-Leaves_example =
    populate-Leaves counter (λ o. o) takes two_files little (codes "files") (codes "/etc" ∷ []) file
      false [] (codes "shield") 2 two_left 0 few two_fit

-- The configuration file is there, the second path is not.
load-document_of_example :
    load
      (λ text. some (document_of shield_on))
      (absent ∷ opened (record { owner = some 0; contents = some [] }) ∷ unopened ∷ [])
    ≡ config shield_on
load-document_of_example =
    load-document_of (λ text. some (document_of shield_on)) (absent ∷ []) (unopened ∷ []) []
      shield_on (tt, tt) refl

-- The file 7 of the device 8:1.
generate_hardware_key-injective_example : (◌≡◌ {A = ℕ} 7 7) × (◌≡◌ {A = ℕ} 8 8) × (◌≡◌ {A = ℕ} 1 1)
generate_hardware_key-injective_example =
    generate_hardware_key-injective little 7 8 1 7 8 1 (omega arith) (omega arith) (omega arith)
      (omega arith) (omega arith) (omega arith) refl

-- The device 8:300.
kernel_dev-makedev_example : kernel_dev (makedev 8 300) ≡ 8 * 2 ^ 20 + 300
kernel_dev-makedev_example = kernel_dev-makedev 8 300 (omega arith) (omega arith)
