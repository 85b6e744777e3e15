-- ===== src/Actor/Sync.antt =====
-- The daemon's flag of a module and the flag that its BPF programs read.
use bouclier_bleu.Base.{
  ◌≡◌, refl, ◌∙◌, ap, Bool, true, false, Option, none, some, List, [], ◌∷◌, text_eq, text_eq_iff,
  any, Text, inl, inr, Bool-cases, Option-cases, Outcome-cases, Line, Outcome, ok, err, take,
}
use bouclier_bleu.Reader.{Endian, Bytes}
use bouclier_bleu.Host.{FileSystem}
use bouclier_bleu.Loader.{
  Libbpf, Skeleton, state_map, state_key, state_value, update_state, set_module_state,
}
use bouclier_bleu.Registry.{find_module, toggle, status_of}
use bouclier_bleu.Command.{DaemonCmd, status, list, enable, disable}
use bouclier_bleu.Ipc.{IpcMessage}
use bouclier_bleu.Engine.{get, insert}
use bouclier_bleu.Engine.Table.{get-insert_same, get-insert_other}
use bouclier_bleu.Engine.Configured.{toggled, status_of-toggle_same, status_of-toggle_other}
use bouclier_bleu.Actor.{
  Event, Daemon, synchronised, toggle_module, handle_command, handle_all, on_event, poll, tick,
  drained,
}

module _ (fs : FileSystem) (lib : Libbpf) (available : List Text) (e : Endian)
    (flag_of : lib.Object → Option Bytes) where
  -- What the kernel documents of a successful update: the value is there to be read.
  abbrev pub IsStored : Type 0
  IsStored =
      (v : Bytes) (o o' : lib.Object)
      → lib.update state_map (state_key e) v o ≡ ok o'
      → flag_of o' ≡ some v

  abbrev Flagged : Bool → Skeleton lib → Bool → Type 0
  Flagged false skel b = Unit
  Flagged true skel b = flag_of skel.object ≡ some (state_value e b)

  -- A skeleton that has a map for the flag, of a module with a flag, holds that flag.
  abbrev Synced : Option (Skeleton lib) → Option Bool → Type 0
  Synced none _ = Unit
  Synced (some skel) none = Unit
  Synced (some skel) (some b) = Flagged (lib.has_map state_map skel.object) skel b

  abbrev pub InSync : Daemon fs lib available e → Type 0
  InSync d = (j : Text) → Synced (get j d.skeletons) (status_of j d.registry)

  -- What a change of the kernel's flag gives: an error and the skeleton as it was, or a skeleton
  -- with the flag.
  abbrev Changed : Skeleton lib → Bool → Outcome Line (Unit {0}) × Skeleton lib → Type 0
  Changed skel on (err why, skel') = skel' ≡ skel
  Changed skel on (ok _, skel') = Synced (some skel') (some on)

  module _ (stored : IsStored) where
    Flagged-stored :
        (skel : Skeleton lib) (on b : Bool) (o : lib.Object)
        → lib.update state_map (state_key e) (state_value e on) skel.object ≡ ok o
        → Flagged b (record skel { object = o }) on
    Flagged-stored skel on false o h = tt
    Flagged-stored skel on true o h = stored (state_value e on) skel.object o h

    update_state-Changed :
        (skel : Skeleton lib) (on : Bool) → Changed skel on (update_state lib available e skel on)
    unfolding update_state
    update_state-Changed skel on = elim (Bool-cases (lib.has_map state_map skel.object)) [
      | inr without ↦ rw without (rw without tt)
      | inl with_map ↦
          elim (Outcome-cases (lib.update state_map (state_key e) (state_value e on) skel.object)) [
            | inl (o, updated) ↦
                rw (with_map, updated) (Flagged-stored skel on (lib.has_map state_map o) o updated)
            | inr (why, refused) ↦ rw (with_map, refused) refl
          ]
    ]

    set_module_state-Changed :
        (skel : Skeleton lib) (name : Text) (on : Bool)
        → Changed skel on (set_module_state lib available e skel name on)
    unfolding set_module_state
    set_module_state-Changed skel name on = elim (Bool-cases (any (text_eq name) available)) [
      | inr unknown ↦ rw unknown refl
      | inl known ↦ elim (Bool-cases (text_eq skel.kind name)) [
        | inr foreign ↦ rw (known, foreign) refl
        | inl own ↦ rw (known, own) (update_state-Changed skel on)
      ]
    ]

    Synced-toggled :
        (skel : Skeleton lib) (on : Bool) (flag : Option Bool)
        → Synced (some skel) (some on)
        → Synced (some skel) (toggled on flag)
    Synced-toggled skel on none h = tt
    Synced-toggled skel on (some _) h = h

    synchronised-InSync :
        (target : Text) (on : Bool) (d : Daemon fs lib available e) (skel : Skeleton lib)
        (r : Outcome Line (Unit {0}) × Skeleton lib)
        → get target d.skeletons ≡ some skel
        → Changed skel on r
        → InSync d
        → InSync (synchronised fs lib available e target on d r).1
    synchronised-InSync target on d skel (err why, skel') found h sync j =
        elim (Bool-cases (text_eq target j)) [
          | inl here ↦
              let same : target ≡ j = (text_eq_iff target j).0 here in
              let before : get j d.skeletons ≡ some skel = rw (← same) found in
              let after : get j (insert target skel' d.skeletons) ≡ some skel =
                rw same (get-insert_same j skel' d.skeletons) ∙ ap some h in
              rw after (rw before at (sync j))
          | inr other ↦ rw (get-insert_other target skel' j d.skeletons other) (sync j)
        ]
    synchronised-InSync target on d skel (ok _, skel') found h sync j =
        elim (Bool-cases (text_eq target j)) [
          | inl here ↦
              let same : target ≡ j = (text_eq_iff target j).0 here in
              let after : get j (insert target skel' d.skeletons) ≡ some skel' =
                rw same (get-insert_same j skel' d.skeletons) in
              let flag : status_of j (toggle target on d.registry)
                  ≡ toggled on (status_of j d.registry) =
                rw same (status_of-toggle_same j on d.registry) in
              rw (after, flag) (Synced-toggled skel' on (status_of j d.registry) h)
          | inr other ↦
              rw
                (
                  get-insert_other target skel' j d.skeletons other,
                  status_of-toggle_other target on j d.registry other,
                )
                (sync j)
        ]

    toggle_module-InSync :
        (target : Text) (on : Bool) (d : Daemon fs lib available e)
        → InSync d
        → InSync (toggle_module fs lib available e target on d).1
    unfolding toggle_module
    toggle_module-InSync target on d sync = elim (Option-cases (get target d.skeletons)) [
      | inl absent ↦ rw (toggle_module, absent) sync
      | inr (skel, found) ↦
          rw (toggle_module, found)
            (synchronised-InSync target on d skel _ found (set_module_state-Changed skel target on)
              sync)
    ]

    -- If an update that the kernel accepts can be read back, then every command keeps the two flags of
    -- each module together: where the daemon has a flag and the BPF object a map for it, the map
    -- holds the daemon's flag. This holds also for a command that fails.
    pub handle_command-InSync :
        (cmd : DaemonCmd) (d : Daemon fs lib available e)
        → InSync d
        → InSync (handle_command fs lib available e cmd d).1
    unfolding handle_command
    handle_command-InSync status d sync = sync
    handle_command-InSync list d sync = sync
    handle_command-InSync (enable target) d sync = toggle_module-InSync target true d sync
    handle_command-InSync (disable target) d sync = toggle_module-InSync target false d sync

    handle_all-InSync :
        (queue : List IpcMessage) (d : Daemon fs lib available e)
        → InSync d
        → InSync (handle_all fs lib available e queue d).1
    unfolding handle_all
    handle_all-InSync [] d sync = sync
    handle_all-InSync (msg ∷ rest) d sync =
        handle_all-InSync rest _ (handle_command-InSync msg.cmd d sync)

    on_event-InSync :
        (event : Event) (d : Daemon fs lib available e)
        → InSync d
        → InSync (on_event fs lib available e event d)
    unfolding on_event
    on_event-InSync event d sync = elim (Option-cases (find_module event.source d.registry)) [
      | inl unknown ↦ rw (on_event, unknown) sync
      | inr (m, known) ↦ rw (on_event, known) sync
    ]

    poll-InSync :
        (events : List Event) (d : Daemon fs lib available e)
        → InSync d
        → InSync (poll fs lib available e events d)
    unfolding poll
    poll-InSync [] d sync = sync
    poll-InSync (event ∷ rest) d sync = poll-InSync rest _ (on_event-InSync event d sync)

    -- If an update that the kernel accepts can be read back, then a round of the engine keeps the two
    -- flags of each module together, whatever messages wait and whatever events the kernel sends.
    pub tick-InSync :
        (queue : List IpcMessage) (events : List Event) (d : Daemon fs lib available e)
        → InSync d
        → InSync (tick fs lib available e queue events d).daemon
    unfolding tick
    tick-InSync queue events d sync =
        poll-InSync events _ (handle_all-InSync (take drained queue) d sync)
