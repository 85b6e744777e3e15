-- ===== src/Engine/Table.antt =====
-- `HashMap::get` after `HashMap::insert`, for the tables keyed by a module's name.
use bouclier_bleu.Base.{
  ◌≡◌, refl, ap, false, some, List, [], ◌∷◌, text_eq, text_eq_iff, text_eq_refl, if◌then◌else◌,
  Text, inl, inr, Bool-cases,
}
use bouclier_bleu.Engine.{get, insert}

module _ {ℓ} {V : Type ℓ} where
  pub get-insert_same :
      (key : Text) (v : V) (t : List (Text × V)) → get key (insert key v t) ≡ some v
  unfolding get insert
  get-insert_same key v [] = rw (text_eq_refl key) refl
  get-insert_same key v ((k, w) ∷ rest) = elim (Bool-cases (text_eq k key)) [
    | inl here ↦ rw here (rw (text_eq_refl key) refl)
    | inr later ↦ rw later (rw later (get-insert_same key v rest))
  ]

  pub get-insert_other :
      (key : Text) (v : V) (j : Text) (t : List (Text × V))
      → text_eq key j ≡ false
      → get j (insert key v t) ≡ get j t
  unfolding get insert
  get-insert_other key v j [] h = rw h refl
  get-insert_other key v j ((k, w) ∷ rest) h = elim (Bool-cases (text_eq k key)) [
    | inl here ↦
        let missed : text_eq k j ≡ false = rw ((text_eq_iff k key).0 here) h in
        rw here (rw (h, missed) refl)
    | inr later ↦
        rw later (ap (λ o. if text_eq k j then some w else o) (get-insert_other key v j rest h))
  ]
