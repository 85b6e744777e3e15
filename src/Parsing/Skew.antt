-- ===== src/Parsing/Skew.antt =====
-- The struct that bpf/io_restrict.bpf.c sends against the alert that modules/src/io_restrict.rs reads:
-- the kernel's struct has a word more, so every field behind the first is read from the wrong place.
use bouclier_bleu.Base.{
  ℕ, ◌+◌, ◌^◌, ◌≤◌, ◌<◌, ◌≡◌, refl, [], ◌∷◌, ◌++◌, arith, ge→ltb, length, length-append, Text,
  codes, ok, keep, take, slice, trim, trim_start, trim_end, trim_end_cons,
}
use bouclier_bleu.Base.Utf8.Ascii.{from_utf8_lossy-ascii}
use bouclier_bleu.Exec.{◌>>=◌}
use bouclier_bleu.Device.{to_ne_bytes}
use bouclier_bleu.Reader.{
  little, Bytes, Reader, run, read_string, replaced_warning, is_unprintable, until_null, sanitize,
}
use bouclier_bleu.Reader.Wire.{field, length-field, read_u32-Ahead}
use bouclier_bleu.Module.{sized}
use bouclier_bleu.Modules.IoRestrict.{read_alert, try_from_bytes}

-- The first byte of a word below 256 ends at the null byte behind it.
word-until_null :
    (action : ℕ) (rest : Bytes)
    → 0 < action
    → action < 256
    → until_null (to_ne_bytes little 4 action ++ rest) ≡ action ∷ []
unfolding until_null
word-until_null action rest positive small = ground arith

-- A single control character is replaced.
control-sanitize : (action : ℕ) → action < 0x20 → sanitize (action ∷ []) ≡ b'?' ∷ []
unfolding sanitize
control-sanitize action small = ground arith

control-keep : (action : ℕ) → action < 0x20 → keep is_unprintable (action ∷ []) ≡ action ∷ []
control-keep action small = ground arith

module _ (tgid pid action : ℕ) (syscall : Text) (padding : Bytes) where
  -- `struct io_restrict_alert` on a little-endian machine, and what the ring buffer adds behind it.
  abbrev pub io_wire : Bytes
  io_wire =
      to_ne_bytes little 4 tgid
      ++ (to_ne_bytes little 4 pid
          ++ (to_ne_bytes little 4 action ++ (field 16 syscall ++ padding)))

  abbrev cursor : ℕ → Reader
  cursor n = record { bytes = io_wire; offset = n; log = [] }

  length-io_wire : length syscall ≤ 16 → 28 ≤ length io_wire
  length-io_wire short =
      let names = field 16 syscall ++ padding in
      omega (arith, length-append (field 16 syscall) padding, length-field 16 syscall short)

  -- The field of the system call is read from the word of the action.
  read_string-action :
      length syscall ≤ 16
      → 0 < action
      → action < 0x20
      → read_string 16 (cursor 8)
        ≡ (ok (b'?' ∷ []), record (cursor 8) { offset = 24; log = replaced_warning 1 })
  unfolding read_string
  read_string-action short positive small =
      let names = take 12 (field 16 syscall ++ padding) in
      let fits : 8 + 16 ≤ length io_wire = omega (arith, length-io_wire short) in
      let raw : until_null (slice 8 16 io_wire) ≡ action ∷ [] =
        word-until_null action names positive (omega arith) in
      rw
        (
          ge→ltb _ _ fits,
          raw,
          from_utf8_lossy-ascii (action ∷ []) (omega arith, tt),
          control-sanitize action small,
          control-keep action small,
        )
        refl

  -- On a little-endian machine, from the struct that the kernel sends for a restricted operation, with
  -- any padding behind it, the daemon reads the thread's identifier as the action and the action's word
  -- as the name of the system call, which comes out as a question mark with a warning, if the
  -- identifiers are 32-bit words, the action is not 0 and below 32, and the name fits its field.
  pub try_from_bytes-io_wire :
      tgid < 2 ^ 32
      → pid < 2 ^ 32
      → 0 < action
      → action < 0x20
      → length syscall ≤ 16
      → try_from_bytes little io_wire
        ≡ (ok (record { pid = tgid; action_type = pid; syscall = codes "?" }), replaced_warning 1)
  unfolding try_from_bytes sized read_alert run trim trim_start trim_end trim_end_cons ◌>>=◌
  try_from_bytes-io_wire t p positive small short =
      let names = to_ne_bytes little 4 action ++ (field 16 syscall ++ padding) in
      let tail = to_ne_bytes little 4 pid ++ names in
      let long : 24 ≤ length io_wire = omega (arith, length-io_wire short) in
      rw
        (
          ge→ltb _ _ long,
          read_u32-Ahead (cursor 0) tail little tgid t refl,
          read_u32-Ahead (cursor 4) names little pid p refl,
          read_string-action short positive small,
        )
        refl
