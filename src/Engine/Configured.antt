-- ===== src/Engine/Configured.antt =====
-- What the configuration makes of the modules' flags while the engine starts.
use bouclier_bleu.Base.{
  ◌≡◌, refl, ◌∙◌, ap, Bool, false, Option, none, some, List, [], ◌∷◌, text_eq, text_eq_iff,
  if◌then◌else◌, Text, inl, inr, Bool-cases,
}
use bouclier_bleu.Reader.{Endian}
use bouclier_bleu.Config.{DaemonConfig}
use bouclier_bleu.Watchlist.{Disk}
use bouclier_bleu.Host.{World}
use bouclier_bleu.Loader.{Libbpf}
use bouclier_bleu.Registry.{Registry, slug, toggle, status_of}
use bouclier_bleu.Engine.{get, configured, Skeletons, initialize_one, initialize_active_modules}

-- The flag after a toggle, if there is one.
abbrev pub toggled : Bool → Option Bool → Option Bool
toggled state none = none
toggled state (some _) = some state

toggled-toggled :
    (state : Bool) (o : Option Bool) → toggled state (toggled state o) ≡ toggled state o
toggled-toggled state none = refl
toggled-toggled state (some b) = refl

module _ {F : Type 0} where
  -- A toggle sets the flag of its module, if there is one, and leaves the others.
  pub status_of-toggle_same :
      (target : Text) (state : Bool) (r : Registry F)
      → status_of target (toggle target state r) ≡ toggled state (status_of target r)
  unfolding toggle status_of
  status_of-toggle_same target state [] = refl
  status_of-toggle_same target state (m ∷ rest) = elim (Bool-cases (text_eq (slug m) target)) [
    | inl here ↦ rw here (rw here refl)
    | inr later ↦ rw later (rw later (status_of-toggle_same target state rest))
  ]

  pub status_of-toggle_other :
      (target : Text) (state : Bool) (j : Text) (r : Registry F)
      → text_eq target j ≡ false
      → status_of j (toggle target state r) ≡ status_of j r
  unfolding toggle status_of
  status_of-toggle_other target state j [] h = refl
  status_of-toggle_other target state j (m ∷ rest) h = elim (Bool-cases (text_eq (slug m) target)) [
    | inl here ↦
        let missed : text_eq (slug m) j ≡ false = rw ((text_eq_iff (slug m) target).0 here) h in
        rw here (rw missed refl)
    | inr later ↦ rw later (
        ap (λ o. if text_eq (slug m) j then some m.is_active else o)
          (status_of-toggle_other target state j rest h))
  ]

-- The flag that a module has after the start, by whether its skeleton was loaded.
abbrev pub started : {S : Type 0} → Bool → Option S → Option Bool → Option Bool
started state none flag = flag
started state (some _) flag = toggled state flag

started-toggled :
    {S : Type 0} (state : Bool) (o : Option S) (flag : Option Bool)
    → started state o (toggled state flag) ≡ toggled state flag
started-toggled state none flag = refl
started-toggled state (some _) flag = toggled-toggled state flag

module _ {F : Type 0} (lib : Libbpf) (available : List Text) (disk : Disk) (e : Endian) where
  -- After the engine's start the flag of a module whose skeleton was loaded is what the
  -- configuration says of it, inactive if it does not name it, whether or not the kernel took the
  -- flag and whether or not the module's own set-up failed; the flag of any other is as before.
  pub initialize-status :
      (config : DaemonConfig) (skels : Skeletons lib available disk e) (registry : Registry F)
      (j : Text) (w : World F)
      → status_of j (initialize_active_modules lib available disk e config skels registry w).1
        ≡ started (configured config j) (get j skels) (status_of j registry)
  unfolding initialize_active_modules initialize_one get
  initialize-status config [] registry j w = refl
  initialize-status config ((name, skel) ∷ rest) registry j w =
      let state = configured config name in
      let ih =
        initialize-status config rest (toggle name state registry) j
          (initialize_one lib available disk e config name skel registry w).2 in
      elim (Bool-cases (text_eq name j)) [
        | inl here ↦
            let same : name ≡ j = (text_eq_iff name j).0 here in
            let set : status_of j (toggle name (configured config name) registry)
                ≡ toggled (configured config j) (status_of j registry) =
              rw same (status_of-toggle_same j (configured config j) registry) in
            rw here (
              ih
              ∙ ap (started (configured config j) (get j rest)) set
              ∙ started-toggled (configured config j) (get j rest) (status_of j registry))
        | inr later ↦ rw later (
            ih
            ∙ ap (started (configured config j) (get j rest))
                (status_of-toggle_other name state j registry later))
      ]
