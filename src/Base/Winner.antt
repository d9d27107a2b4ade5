-- ===== src/Base/Winner.antt =====
-- The greatest entry of a log among those that a test picks: what "last writer wins" means,
-- whatever order the entries came in.
use mathlib.Core.Path.{◌≡◌, sym, ap, ◌∙◌}
use mathlib.Core.Logic.{inl, inr}
use mathlib.Core.Bool.{Bool, true, false}
use mathlib.Core.Option.{Option, none, some}
use mathlib.Core.List.{List, [], ◌∷◌, Memᴰ}
use mathlib.Core.List.Memᴰ
use native.Mathlib.Omega.{arith}
use orgsync.Base.Tests.{if◌then◌else◌, Bool-cases, Option-cases}
use orgsync.Base.Order.{
  Ord, above, above_irrefl, not_above_of_above, not_above_trans, eq_of_not_above,
}

-- The same entries, in any order and number.
abbrev pub SameMembers {ℓ} : {A : Type ℓ} → List A → List A → Type ℓ
SameMembers {A} l r = ((a : A) → Memᴰ a l → Memᴰ a r) × ((a : A) → Memᴰ a r → Memᴰ a l)

module _ {ℓ κ} {A : Type ℓ} {K : Type κ} ⦃o : Ord K⦄ (key : A → K) where
  -- The new entry replaces the old one only if it is above.
  abbrev pub better : A → Option A → A
  better a none = a
  better a (some b) = if above (key a) (key b) then a else b

  unfoldable pub winner : (A → Bool) → List A → Option A
  winner p [] = none
  winner p (a ∷ l) = let rest = winner p l in if p a then some (better a rest) else rest

  -- No two entries share a key.
  abbrev pub UniqueKeys : List A → Type (ℓ ⊔ κ)
  UniqueKeys l = (a b : A) → Memᴰ a l → Memᴰ b l → key a ≡ key b → a ≡ b

  module _ (p : A → Bool) where
    pub winner_mem : (l : List A) {w : A} → winner p l ≡ some w → Memᴰ w l × (p w ≡ true)
    unfolding winner
    winner_mem [] e = absurd (cc)
    winner_mem (a ∷ l) {w} e = elim (Bool-cases (p a)) [
      | inl picked ↦ elim (Option-cases (winner p l)) [
        | inl nothing ↦ let same : w ≡ a = ground arith in (Memᴰ.head same, ap p same ∙ picked)
        | inr (b, found) ↦
            let (m, h) = winner_mem l found in
            elim (Bool-cases (above (key a) (key b))) [
              | inl wins ↦ let same : w ≡ a = ground arith in (Memᴰ.head same, ap p same ∙ picked)
              | inr loses ↦
                  let same : w ≡ b = ground arith in (Memᴰ.tail (Memᴰ.cast same m), ap p same ∙ h)
            ]
      ]
      | inr skipped ↦ let (m, h) = winner_mem l (rw skipped at e) in (Memᴰ.tail m, h)
    ]

    -- A picked entry never beats the winner.
    pub winner_max :
        (l : List A) (a : A)
        → Memᴰ a l
        → p a ≡ true
        → (w : A) × (winner p l ≡ some w) × (above (key a) (key w) ≡ false)
    unfolding winner
    winner_max [] a m h = elim m [ ]
    winner_max (x ∷ l) a (Memᴰ.head e) h =
        let px : p x ≡ true = sym (ap p e) ∙ h in
        elim (Option-cases (winner p l)) [
          | inl nothing ↦ (x, rw (px, nothing), rw e (above_irrefl (key x)))
          | inr (b, found) ↦ elim (Bool-cases (above (key x) (key b))) [
            | inl wins ↦ (x, rw (px, found, wins), rw e (above_irrefl (key x)))
            | inr loses ↦ (b, rw (px, found, loses), rw e loses)
          ]
        ]
    winner_max (x ∷ l) a (Memᴰ.tail m) h =
        let (w, found, below) = winner_max l a m h in
        elim (Bool-cases (p x)) [
          | inl px ↦ elim (Bool-cases (above (key x) (key w))) [
            | inl wins ↦ (
              x,
              rw (px, found, wins),
              not_above_trans (key a) (key w) (key x) below
                  (not_above_of_above (key x) (key w) wins),
            )
            | inr loses ↦ (w, rw (px, found, loses), below)
          ]
          | inr fails ↦ (w, rw (fails, found), below)
        ]

    -- The winner depends only on which entries are there: not on their order, nor on repeats.
    pub winner-SameMembers :
        (l r : List A) → UniqueKeys l → SameMembers l r → winner p l ≡ winner p r
    winner-SameMembers l r unique (there, back) = elim (Option-cases (winner p l)) [
      | inl none_l ↦ elim (Option-cases (winner p r)) [
        | inl none_r ↦ none_l ∙ sym none_r
        | inr (b, found) ↦
            let (m, h) = winner_mem r found in
            let (w, some_l, _) = winner_max l b (back b m) h in cc
      ]
      | inr (a, found) ↦
          let (m, h) = winner_mem l found in
          let (w, some_r, below) = winner_max r a (there a m) h in
          let (mw, hw) = winner_mem r some_r in
          let (v, some_l, below') = winner_max l w (back w mw) hw in
          let same : v ≡ a = ground arith in
          let tie : key a ≡ key w = eq_of_not_above (key a) (key w) below (rw same at below') in
          found ∙ ap some (unique a w m (back w mw) tie) ∙ sym some_r
    ]
