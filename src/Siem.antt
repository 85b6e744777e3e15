-- ===== src/Siem.antt =====
-- The telemetry sink, modules/src/common/telemetry.rs: the log directory is made or rebuilt, the file
-- is opened once, and each alert becomes one line.
pub mod Once
pub mod Secure
use bouclier_bleu.Base.{
  ℕ, ◌%◌, String, Bool, true, false, not, ◌&&◌, ◌||◌, Option, none, some, List, [], ◌∷◌, ◌++◌, ◌==◌,
  if◌then◌else◌, Text, Line, lit, str, codes, Outcome, ok, err,
}
use bouclier_bleu.Host.{
  Metadata, FileSystem, Payload, EnvelopedAlert, LogFile, alerts_json, fallback_log, Readings,
  World, eprint,
}

-- `meta.mode() & 0o777`
abbrev pub permissions : Metadata → ℕ
permissions meta = meta.mode % 512

abbrev pub log_dir : Text
log_dir = codes "/var/log/bouclier-bleu"

abbrev fallback_path : Text
fallback_path = codes "/tmp/bouclier_fallback.log"

-- Not a directory, not owned by root, or with other permissions than 0o700.
unfoldable pub is_insecure : Metadata → Bool
is_insecure meta = not meta.is_dir || not (meta.uid == 0) || not (permissions meta == 0o700)

module _ (fs : FileSystem) where
  -- A step of the set-up: whether it goes on, what was printed, and the file system.
  abbrev pub Setup : Type 0
  Setup = Bool × List Line × fs.State

  -- The directory, or what stands in its place, is removed.
  unfoldable pub wipe : Text → Metadata → fs.State → Bool × fs.State
  wipe dir meta s = if not meta.is_dir then fs.remove_file dir s else fs.remove_dir_all dir s

  -- The removal and the second creation, each of which may fail.
  unfoldable pub rebuild : Text → Metadata → fs.State → Setup
  rebuild dir meta s =
      let (wiped, s₁) = wipe dir meta s in
      let (made, s₂) = fs.create_dir 0o700 dir s₁ in
      if not wiped
      then (
        false,
        (lit "Bouclier Bleu [CRITICAL]: Failed to wipe compromised log directory" ∷ []) ∷ [],
        s₁,
      )
      else if not made
      then (
        false,
        (lit "Bouclier Bleu [CRITICAL]: Failed to recreate secure log directory" ∷ []) ∷ [],
        s₂,
      )
      else (true, (lit "Bouclier Bleu [INFO]: Log directory securely rebuilt." ∷ []) ∷ [], s₂)

  -- The directory as it is found after the first creation.
  unfoldable pub validate : Text → Option Metadata → fs.State → Setup
  validate dir none s = (
    false,
    (lit
            "Bouclier Bleu [CRITICAL]: Failed to verify log directory metadata. Sinking telemetry to fallback."
          ∷ [])
        ∷ [],
    s,
  )
  validate dir (some meta) s =
      let (done, lines, s') = rebuild dir meta s in
      let warning =
        lit "Bouclier Bleu [WARNING]: Log directory "
        ∷ str dir
        ∷ lit " has insecure permissions (Potential Pre-Staging Attack). Auto-remediating..."
        ∷ [] in
      if is_insecure meta then (done, warning ∷ lines, s') else (true, [], s)

  unfoldable pub ensure_secure_directory : Text → fs.State → Setup
  ensure_secure_directory dir s =
      let (made, s₁) = fs.create_dir 0o700 dir s in
      let (done, lines, s₂) = validate dir (fs.metadata dir s₁) s₁ in
      let warned =
        if made
        then []
        else (lit "Bouclier Bleu [Warning]: Failed to securely create log directory" ∷ []) ∷ [] in
      (done, warned ++ lines, s₂)

  -- The one fallback is opened for writing; it is not created.
  unfoldable pub get_fallback_sink : fs.State → Option LogFile × List Line × fs.State
  get_fallback_sink s =
      let (opened, s') = fs.open_write fallback_path s in
      if opened then (some fallback_log, [], s') else (
        none,
        (lit "Bouclier Bleu [FATAL]: No writable device available. Telemetry dropped." ∷ []) ∷ [],
        s',
      )

  unfoldable pub open_strict_file : Text → fs.State → Option LogFile × List Line × fs.State
  open_strict_file dir s =
      let (opened, s') = fs.open_append 0o600 (dir ++ codes "/alerts.json") s in
      if opened
      then (some alerts_json, [], s')
      else (none, (lit "Bouclier Bleu [CRITICAL]: Failed to open SIEM sink" ∷ []) ∷ [], s')

  -- The file that was opened, or the fallback.
  unfoldable pub or_fallback :
      Option LogFile × List Line × fs.State → Option LogFile × List Line × fs.State
  unfolding get_fallback_sink
  or_fallback (some file, lines, s) = (some file, lines, s)
  or_fallback (none, lines, s) =
      let (file, more, s') = get_fallback_sink s in (file, lines ++ more, s')

  -- The closure of `get_or_init`.
  unfoldable pub open_sink : fs.State → Option LogFile × List Line × fs.State
  unfolding ensure_secure_directory get_fallback_sink open_strict_file or_fallback
  open_sink s =
      let (secure, lines, s₁) = ensure_secure_directory log_dir s in
      let (file, more, s₂) =
        if secure then or_fallback (open_strict_file log_dir s₁) else get_fallback_sink s₁ in
      (file, lines ++ more, s₂)

  -- `SIEM_LOG_SINK.get_or_init`: the closure runs only if the sink is not set.
  unfoldable pub get_sink : World fs.State → Option LogFile × World fs.State
  get_sink w =
      let (file, lines, s) = open_sink w.files in
      elim w.sink [
        | some held ↦ (held, w)
        | none ↦ (file, record w { sink = some file; errors = w.errors ++ lines; files = s })
      ]

  -- The line is written if there is a file, and a failure is reported.
  unfoldable pub write_line : Option LogFile → Text → Readings → World fs.State → World fs.State
  write_line none json env w = w
  write_line (some file) json env w =
      if env.write_succeeds
      then record w { written = w.written ++ (file, json) ∷ [] }
      else eprint (lit "Bouclier Bleu [ERROR]: Failed to write SIEM event" ∷ []) w

  unfoldable pub emit_siem_event :
      Text → List String → Payload → Readings → World fs.State → World fs.State
  emit_siem_event slug mitre payload env w =
      let (held, w') = get_sink w in
      let envelope : EnvelopedAlert = record {
        timestamp_ms = env.timestamp_ms;
        event_source = slug;
        mitre_techniques = mitre;
        payload = payload;
      } in
      elim (env.to_json envelope) [
        | none ↦ w'
        | some json ↦ (if env.sink_poisoned then w' else write_line held json env w')
      ]
