-- ===== src/Tests/Threads.antt =====
-- Examples of the start and of the two threads.
use bouclier_bleu.Base.{
  ◌≡◌, refl, Bool, true, false, none, some, List, [], ◌∷◌, map, Text, codes, arith, ok,
}
use bouclier_bleu.Reader.{little}
use bouclier_bleu.Host.{Metadata}
use bouclier_bleu.Base.{Option, sym, ap}
use bouclier_bleu.Ipc.{Stream}
use bouclier_bleu.Ipc.Setup.{socket_dir, Setting, setup_secure_dir, attempt, inspect, inspected}
use bouclier_bleu.Ipc.Setup.Secure.{IsRemoving, IsCreating, IsSecure, setup_secure_dir-IsSecure}
use bouclier_bleu.Exec.{◌>>=◌}
use bouclier_bleu.Actor.{Event}
use bouclier_bleu.Actor.Sync.{InSync}
use bouclier_bleu.System.{
  System, serve, advance, connect, round, Reach, here, next, queued_along, polled_along,
}
use bouclier_bleu.System.Order.{upto, IsOrderly, Reach-IsOrderly}
use bouclier_bleu.System.Atomic.{Atomic, Reach-Atomic}
use bouclier_bleu.System.Drain.{rounds, rounds-answered}
use bouclier_bleu.System.Sync.{Reach-InSync}
use bouclier_bleu.Startup.{Turn}
use bouclier_bleu.Tests.Samples.{
  small_files, flag_lib, connection, empty_channel, plain, socket_host,
}
use bouclier_bleu.Tests.Control.{started, stores, in_sync, events}

abbrev shield : List Text
shield = codes "shield" ∷ []

abbrev quiet : System small_files flag_lib shield little
quiet = record { channel = empty_channel; daemon = started; replies = [] }

abbrev client : Stream
client = connection (some 0) (codes "STATUS")

-- A client connects, and the engine goes around once.
abbrev answered : System small_files flag_lib shield little
answered =
    advance small_files flag_lib shield little events
      (serve small_files flag_lib shield little plain client quiet)

abbrev path : Reach small_files flag_lib shield little plain quiet answered
path = next (next here (connect client)) (round events)

Reach-Atomic_example :
    Atomic small_files flag_lib shield little quiet answered
      (queued_along small_files flag_lib shield little path)
      (polled_along small_files flag_lib shield little path)
Reach-Atomic_example = Reach-Atomic small_files flag_lib shield little path

Reach-IsOrderly_example : IsOrderly small_files flag_lib shield little answered
Reach-IsOrderly_example =
    Reach-IsOrderly small_files flag_lib shield little (refl, omega arith) path

Reach-InSync_example : InSync small_files flag_lib shield little (λ o. o) answered.daemon
Reach-InSync_example = Reach-InSync small_files flag_lib shield little (λ o. o) stores in_sync path

-- Twelve rounds without events.
abbrev twelve : List (List Event)
twelve = [] ∷ [] ∷ [] ∷ [] ∷ [] ∷ [] ∷ [] ∷ [] ∷ [] ∷ [] ∷ [] ∷ [] ∷ []

rounds-answered_example :
    ((rounds small_files flag_lib shield little twelve quiet).channel.pending ≡ [])
    × (map (λ r. r.0) (rounds small_files flag_lib shield little twelve quiet).replies ≡ upto 0)
rounds-answered_example =
    rounds-answered small_files flag_lib shield little twelve quiet (refl, omega arith)
      (omega arith)

abbrev setting : Setting Bool
setting = record { files = false; umask = 0o022; errors = [] }

removing : IsRemoving socket_host
removing s = ((λ h. refl), (λ h. refl))

abbrev is_dir_of : Option Metadata → Bool
is_dir_of none = true
is_dir_of (some meta) = meta.is_dir

-- What has the name of the directory is a directory.
made_dir :
    (path : Text) (s : Bool) (meta : Metadata)
    → small_files.symlink_metadata path s ≡ some meta
    → meta.is_dir ≡ true
made_dir path true meta found = sym (ap (λ o. is_dir_of o) found)
made_dir path false meta found = cc found

creating : IsCreating socket_host 0o022
creating s done =
    (λ meta found plain. made_dir socket_dir true meta found, λ gone. (_, refl, refl, refl, refl))

set_up : (setup_secure_dir socket_host setting).0 ≡ ok tt
unfolding setup_secure_dir attempt inspect inspected ◌>>=◌
set_up = refl

setup_secure_dir-IsSecure_example :
    IsSecure socket_host (setup_secure_dir socket_host setting).1.files
setup_secure_dir-IsSecure_example =
    setup_secure_dir-IsSecure socket_host 0o022 refl removing creating setting refl set_up

-- Three turns: two with a listener, the first with a client, and one after its death.
abbrev turns : List Turn
turns =
    record { streams = client ∷ []; listener_lives = true; events = events }
    ∷ record { streams = []; listener_lives = true; events = [] }
    ∷ record { streams = []; listener_lives = false; events = [] }
    ∷ []
