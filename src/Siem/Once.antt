-- ===== src/Siem/Once.antt =====
-- The sink of the alerts is opened once, and an alert adds one line at most.
use bouclier_bleu.Base.{◌≡◌, String, Option, none, some, List, [], ◌∷◌, ◌++◌, if◌then◌else◌, Text}
use bouclier_bleu.Host.{FileSystem, Payload, EnvelopedAlert, LogFile, Readings, World}

module _ (fs : FileSystem) where
  -- What an alert adds to the lines of the sink.
  abbrev pub added : Option Text → Option LogFile → Readings → List (LogFile × Text)
  added none held env = []
  added (some json) none env = []
  added (some json) (some file) env =
      if env.sink_poisoned then [] else if env.write_succeeds then (file, json) ∷ [] else []

  -- The envelope of an alert.
  abbrev pub envelope : Text → List String → Payload → Readings → EnvelopedAlert
  envelope slug mitre payload env = record {
    timestamp_ms = env.timestamp_ms;
    event_source = slug;
    mitre_techniques = mitre;
    payload = payload;
  }

  -- What an alert leaves of the world, given the lines it adds.
  abbrev pub Added :
      Option LogFile → List (LogFile × Text) → World fs.State → World fs.State → Type 0
  Added held lines w w' =
      (w'.files ≡ w.files) × (w'.sink ≡ some held) × (w'.written ≡ w.written ++ lines)
