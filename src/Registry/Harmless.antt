-- ===== src/Registry/Harmless.antt =====
-- Which events of the ten modules can kill a process or count a strike: `process_event` of
-- modules/src/common/macros.rs over the registry and the handlers of the modules.
use bouclier_bleu.Base.{
  ◌≡◌, refl, ◌⊎◌, inl, inr, Bool, true, false, Bool-cases, Option, none, some, List, Text, String,
  Outcome, ok, err, All, codes, if◌then◌else◌, ◌==◌, Option-cases, ◌∙◌, Line,
}
use bouclier_bleu.Reader.{Endian, Bytes}
use bouclier_bleu.Host.{FileSystem, Readings, World, Payload, EnvelopedAlert, LogFile, eprint_all}
use bouclier_bleu.Siem.{get_sink, write_line, emit_siem_event}
use bouclier_bleu.Module.{Declaration, parsed, process_event}
use bouclier_bleu.Registry.{SecurityModule, slug, new, build_registry}
use bouclier_bleu.Modules.ExecBlock
use bouclier_bleu.Modules.RenameEntropy
use bouclier_bleu.Modules.Shield
use bouclier_bleu.Modules.MountSecure
use bouclier_bleu.Modules.StrictWx
use bouclier_bleu.Modules.PtraceBlock
use bouclier_bleu.Modules.DumpRestrict
use bouclier_bleu.Modules.UsernsRestrict
use bouclier_bleu.Modules.MadviseRatelimit
use bouclier_bleu.Modules.IoRestrict

-- No process was killed, and no strike was counted or forgotten.
abbrev pub Same : {F : Type 0} → World F → World F → Type 0
Same w w' = (w'.killed ≡ w.killed) × (w'.tracker ≡ w.tracker)

abbrev pub is_accepted : {A : Type 0} → Outcome String A → Bool
is_accepted (ok alert) = true
is_accepted (err why) = false

module _ (fs : FileSystem) where
  abbrev F : Type 0
  F = fs.State

  get_sink-Same : (w : World F) → Same w (get_sink fs w).1
  unfolding get_sink
  get_sink-Same w = elim (Option-cases w.sink) [
    | inl empty ↦ rw (get_sink, empty) (refl, refl)
    | inr (held, open_one) ↦ rw (get_sink, open_one) (refl, refl)
  ]

  write_line-Same :
      (held : Option LogFile) (json : Text) (env : Readings) (w : World F)
      → Same w (write_line fs held json env w)
  unfolding write_line
  write_line-Same none json env w = (refl, refl)
  write_line-Same (some file) json env w = elim (Bool-cases env.write_succeeds) [
    | inl written ↦ rw written (refl, refl)
    | inr lost ↦ rw lost (refl, refl)
  ]

  either-Same :
      (b : Bool) (w w₁ w₂ : World F) → Same w w₁ → Same w w₂ → Same w (if b then w₁ else w₂)
  either-Same true w w₁ w₂ h₁ h₂ = h₁
  either-Same false w w₁ w₂ h₁ h₂ = h₂

  emit_siem_event-Same :
      (source : Text) (mitre : List String) (payload : Payload) (env : Readings) (w : World F)
      → Same w (emit_siem_event fs source mitre payload env w)
  unfolding emit_siem_event
  emit_siem_event-Same source mitre payload env w =
      let (held, w') = get_sink fs w in
      let opened = get_sink-Same w in
      let envelope : EnvelopedAlert = record {
        timestamp_ms = env.timestamp_ms;
        event_source = source;
        mitre_techniques = mitre;
        payload = payload;
      } in
      elim (Option-cases (env.to_json envelope)) [
        | inl unwritable ↦ rw (emit_siem_event, unwritable) opened
        | inr (json, serialized) ↦
            let line = write_line-Same held json env w' in
            rw (emit_siem_event, serialized)
              (either-Same env.sink_poisoned w w' _ opened (line.0 ∙ opened.0, line.1 ∙ opened.1))
      ]

  -- A handler that neither kills nor counts.
  abbrev IsHarmless : {A : Type 0} → Declaration F A → Type 0
  IsHarmless {A} d = (alert : A) (env : Readings) (w : World F) → Same w (d.handler alert env w)

  module _ {A : Type 0} (d : Declaration F A) where
    -- An event that is not accepted while the module is active.
    dropped-Same :
        (result : Outcome String A × List Line) (active : Bool) (env : Readings) (w : World F)
        → Same w (if active then parsed fs d result.0 env (eprint_all result.1 w) else w)
          ⊎ ((active ≡ true) × (is_accepted result.0 ≡ true))
    unfolding parsed
    dropped-Same result false env w = inl (refl, refl)
    dropped-Same (err why, warnings) true env w = inl (refl, refl)
    dropped-Same (ok alert, warnings) true env w = inr (refl, refl)

    parsed-Same :
        IsHarmless d
        → (result : Outcome String A × List Line) (active : Bool) (env : Readings) (w : World F)
        → Same w (if active then parsed fs d result.0 env (eprint_all result.1 w) else w)
    unfolding parsed
    parsed-Same harmless result false env w = (refl, refl)
    parsed-Same harmless (err why, warnings) true env w = (refl, refl)
    parsed-Same harmless (ok alert, warnings) true env w =
        let w₁ = eprint_all warnings w in
        let w₂ = emit_siem_event fs d.slug d.mitre (d.payload alert) env w₁ in
        let logged = emit_siem_event-Same d.slug d.mitre (d.payload alert) env w₁ in
        let handled = harmless alert env w₂ in (handled.0 ∙ logged.0, handled.1 ∙ logged.1)

  -- Where an event of the module changes the dead or the tracker, the module is `rename_entropy`, it is
  -- active, and its parser accepted the event.
  abbrev pub OnlyRenames : SecurityModule F → Type 0
  OnlyRenames m =
      (e : Endian) (active : Bool) (bytes : Bytes) (env : Readings) (w : World F)
      → Same w (process_event fs m.declaration e active bytes env w)
        ⊎ ((slug m ≡ codes "rename_entropy")
            × (active ≡ true)
            × (is_accepted (m.declaration.parser e bytes).0 ≡ true))

  harmless-OnlyRenames :
      {A : Type 0} (d : Declaration F A)
      → IsHarmless d
      → (active : Bool) → OnlyRenames (record { Alert = A; declaration = d; is_active = active })
  unfolding process_event
  harmless-OnlyRenames d harmless flag e active bytes env w =
      inl (parsed-Same d harmless (d.parser e bytes) active env w)

  io_restrict-IsHarmless : IsHarmless IoRestrict.io_restrict
  unfolding IoRestrict.handler
  io_restrict-IsHarmless alert env w =
      elim (Bool-cases (alert.action_type == IoRestrict.action_map_exhausted)) [
        | inl full ↦ rw full (refl, refl)
        | inr blocked ↦ rw blocked (refl, refl)
      ]

  rename_entropy-OnlyRenames : OnlyRenames (new RenameEntropy.rename_entropy)
  unfolding process_event
  rename_entropy-OnlyRenames e active bytes env w =
      let d = RenameEntropy.rename_entropy {F = F} in
      elim (dropped-Same d (d.parser e bytes) active env w) [
        | inl same ↦ inl same
        | inr (on, accepted) ↦ inr (refl, on, accepted)
      ]

  -- Of the ten modules in the registry, whatever the state of the daemon: an event kills no process,
  -- and counts or forgets no strike, unless it is one of `rename_entropy`, that module is active, and
  -- its parser accepts the event.
  pub process_event-OnlyRenames : All OnlyRenames (build_registry {F = F})
  unfolding build_registry ExecBlock.handler Shield.handler MountSecure.handler StrictWx.handler
      PtraceBlock.handler DumpRestrict.handler UsernsRestrict.handler MadviseRatelimit.handler
  process_event-OnlyRenames = (
    harmless-OnlyRenames ExecBlock.exec_block (λ alert env w. (refl, refl)) false,
    (
      rename_entropy-OnlyRenames,
      (
        harmless-OnlyRenames Shield.shield (λ alert env w. (refl, refl)) false,
        (
          harmless-OnlyRenames MountSecure.mount_secure (λ alert env w. (refl, refl)) false,
          (
            harmless-OnlyRenames StrictWx.strict_wx (λ alert env w. (refl, refl)) false,
            (
              harmless-OnlyRenames PtraceBlock.ptrace_block (λ alert env w. (refl, refl)) false,
              (
                harmless-OnlyRenames DumpRestrict.dump_restrict (λ alert env w. (refl, refl)) false,
                (
                  harmless-OnlyRenames UsernsRestrict.userns_restrict (λ alert env w. (refl, refl))
                      false,
                  (
                    harmless-OnlyRenames MadviseRatelimit.madvise_ratelimit
                        (λ alert env w. (refl, refl)) false,
                    (harmless-OnlyRenames IoRestrict.io_restrict io_restrict-IsHarmless false, tt),
                  ),
                ),
              ),
            ),
          ),
        ),
      ),
    ),
  )
