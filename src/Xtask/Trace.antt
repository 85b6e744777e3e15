-- ===== src/Xtask/Trace.antt =====
-- What the commands that a task ran say of the machine: whether it has a network, and whether it is as the
-- snapshot left it. A trace has the latest command first.
use bouclier_bleu.Base.{
  ◌≡◌, Bool, true, false, Option, none, some, List, [], ◌∷◌, if◌then◌else◌, ◌⊎◌, codes,
  contains_text,
}
use bouclier_bleu.Base.Utf8.{from_utf8_lossy}
use bouclier_bleu.Xtask.Machine.{
  Output, Command, Call, launch, profile_copy, device_remove, profile_assign, ip_link, guest,
  snapshot_create, snapshot_restore, start,
}
use bouclier_bleu.Xtask.Utils.{succeeds}

abbrev pub Trace : Type 0
Trace = List Call

-- The network: as the image has it, removed from the profile, cut by the assignment of that profile, and
-- then looked at from inside.
pub data Phase : Type 0 where
  online bare severed verified : Phase

-- The profile has no `eth0` any more, as the command says.
abbrev pub has_removed : Option Output → Bool
has_removed none = false
has_removed (some o) =
    if o.is_success then true else contains_text (from_utf8_lossy o.stderr) (codes "doesn't exist")

abbrev pub after_removal : Option Output → Phase → Phase
after_removal o ph = if has_removed o then bare else ph

abbrev pub assigned : Phase → Phase
assigned bare = severed
assigned ph = ph

-- What the guest printed names `eth0`.
abbrev pub prints_eth0 : Output → Bool
prints_eth0 o = contains_text (from_utf8_lossy o.stdout) (codes "eth0")

abbrev pub confirm : Phase → Phase
confirm severed = verified
confirm ph = ph

abbrev pub after_links : Option Output → Phase → Phase
after_links none ph = ph
after_links (some o) ph = if prints_eth0 o then online else confirm ph

abbrev pub next_phase : Command → Option Output → Phase → Phase
next_phase (launch image_alias) o ph = online
next_phase profile_copy o ph = online
next_phase device_remove o ph = after_removal o ph
next_phase profile_assign o ph = if succeeds o then assigned ph else ph
next_phase ip_link o ph = after_links o ph
next_phase _ o ph = ph

abbrev pub phase : Trace → Phase
phase [] = online
phase ((c, o) ∷ earlier) = next_phase c o (phase earlier)

-- The machine: being built, with the traces of a test, put back, and put back and started.
pub data Stage : Type 0 where
  building stale restored clean : Stage

abbrev pub started : Bool → Stage → Stage
started true restored = clean
started _ st = st

abbrev pub after_guest : Stage → Stage
after_guest building = building
after_guest _ = stale

abbrev pub next_stage : Command → Option Output → Stage → Stage
next_stage (launch image_alias) o st = building
next_stage snapshot_create o st = stale
next_stage snapshot_restore o st = if succeeds o then restored else stale
next_stage start o st = started (succeeds o) st
next_stage (guest script) o st = after_guest st
next_stage _ o st = st

abbrev pub stage : Trace → Stage
stage [] = building
stage ((c, o) ∷ earlier) = next_stage c o (stage earlier)

-- The condition of a command on the trace before it: a snapshot is of a machine seen without `eth0`,
-- and nothing runs in the guest of a tested machine before the snapshot is back.
abbrev pub Allowed : Command → Trace → Type 0
Allowed snapshot_create earlier = phase earlier ≡ verified
Allowed (guest script) earlier = (stage earlier ≡ building) ⊎ (stage earlier ≡ clean)
Allowed _ earlier = Unit

abbrev pub IsSound : Trace → Type 0
IsSound [] = Unit
IsSound ((c, o) ∷ earlier) = Allowed c earlier × IsSound earlier

-- A sound trace of a machine in that stage and that phase.
abbrev pub At : Stage → Phase → Trace → Type 0
At st ph t = IsSound t × (stage t ≡ st) × (phase t ≡ ph)

-- The commands that neither the network nor the state of the machine depends on.
abbrev pub is_neutral : Command → Bool
is_neutral (launch image_alias) = false
is_neutral profile_copy = false
is_neutral device_remove = false
is_neutral profile_assign = false
is_neutral ip_link = false
is_neutral (guest script) = false
is_neutral snapshot_create = false
is_neutral snapshot_restore = false
is_neutral start = false
is_neutral _ = true

-- A command in the guest of a machine that was just put back is a test, and it has succeeded.
abbrev pub Passing : Command → Stage → Option Output → Type 0
Passing (guest script) clean o = succeeds o ≡ true
Passing _ st o = Unit

abbrev pub HasPassed : Trace → Type 0
HasPassed [] = Unit
HasPassed ((c, o) ∷ earlier) = Passing c (stage earlier) o × HasPassed earlier
