-- ===== src/Parsing/Wire.antt =====
-- Structs as the kernel sends them, and the alerts that the daemon reads from them.
use bouclier_bleu.Base.{
  ℕ, ◌^◌, ◌≤◌, ◌<◌, ◌≡◌, refl, [], ◌++◌, arith, ge→ltb, length, length-append, Text, ok,
}
use bouclier_bleu.Exec.{◌>>=◌}
use bouclier_bleu.Device.{to_ne_bytes}
use bouclier_bleu.Reader.{Endian, Bytes, Reader, run}
use bouclier_bleu.Reader.Clean.{IsPrintable}
use bouclier_bleu.Reader.Wire.{
  field, length-field, length-to_ne_bytes, Ahead-drop, read_u32-Ahead, read_string-Ahead,
}
use bouclier_bleu.Module.{sized}
use bouclier_bleu.Modules.RenameEntropy.{join_path, read_alert, try_from_bytes}

-- A text that fits a field of `n` bytes and is printable.
pub record Fits (n : ℕ) (t : Text) : Type 0 where
  pub short : length t ≤ n
  pub clean : IsPrintable t

module _ (e : Endian) (pid ppid : ℕ) (dir file : Text) (padding : Bytes) where
  -- `struct rename_alert`, and what the ring buffer adds behind it.
  abbrev pub rename_wire : Bytes
  rename_wire =
      to_ne_bytes e 4 pid
      ++ (to_ne_bytes e 4 ppid ++ (field 4096 dir ++ (field 256 file ++ padding)))

  abbrev cursor : ℕ → Reader
  cursor n = record { bytes = rename_wire; offset = n; log = [] }

  length-rename_wire : Fits 4096 dir → Fits 256 file → 4360 ≤ length rename_wire
  length-rename_wire d f =
      let files = field 256 file ++ padding in
      let dirs = field 4096 dir ++ files in
      omega (
        arith,
        length-append (to_ne_bytes e 4 pid) (to_ne_bytes e 4 ppid ++ dirs),
        length-append (to_ne_bytes e 4 ppid) dirs,
        length-append (field 4096 dir) files,
        length-append (field 256 file) padding,
        length-to_ne_bytes e pid,
        length-to_ne_bytes e ppid,
        length-field 4096 dir d.short,
        length-field 256 file f.short,
      )

  -- From the struct that the kernel sends for a refused rename, in the machine's byte order and with
  -- any padding behind it, the daemon reads the identifiers of the process and of its parent, and the
  -- directory joined with the file's name, and prints no warning, if the identifiers are 32-bit words
  -- and the two texts are printable and fit their fields.
  pub parse-rename_wire :
      pid < 2 ^ 32
      → ppid < 2 ^ 32
      → Fits 4096 dir
      → Fits 256 file
      → try_from_bytes e rename_wire
        ≡ (ok (record { pid = pid; ppid = ppid; full_path = join_path dir file }), [])
  unfolding try_from_bytes sized read_alert run ◌>>=◌
  parse-rename_wire p pp d f =
      let files = field 256 file ++ padding in
      let dirs = field 4096 dir ++ files in
      let tail = to_ne_bytes e 4 ppid ++ dirs in
      let at_ppid =
        Ahead-drop (cursor 0) tail (to_ne_bytes e 4 pid) 4 refl (length-to_ne_bytes e pid) in
      let at_dir =
        Ahead-drop (cursor 4) dirs (to_ne_bytes e 4 ppid) 4 at_ppid (length-to_ne_bytes e ppid) in
      let at_file =
        Ahead-drop (cursor 8) files (field 4096 dir) 4096 at_dir (length-field 4096 dir d.short) in
      rw
        (
          ge→ltb _ _ (length-rename_wire d f),
          read_u32-Ahead (cursor 0) tail e pid p refl,
          read_u32-Ahead (cursor 4) dirs e ppid pp at_ppid,
          read_string-Ahead (cursor 8) files 4096 dir (omega arith) d.short d.clean at_dir,
          read_string-Ahead (cursor 4104) padding 256 file (omega arith) f.short f.clean at_file,
        )
        refl
