-- ===== src/Seed/Main/Marks.antt =====
-- The texts by which main.rs of the seed server tells the addresses that only it can use.
use orgsync.Base.{
  ℕ, ◌≡◌, refl, ap, ◌∙◌, true, ◌⊎◌, inl, inr, [], ◌∷◌, ◌++◌, Bytes, codes, take, length, Bool-cases,
  ◌==◌, ==_iff, arith, nat_ord, list_ord,
}
use orgsync.Seed.Main.{has_text, is_advertisable}

-- The text stands somewhere in the address.
abbrev pub Occurs : Bytes → Bytes → Type 0
Occurs needle addr = (before : Bytes) × (after : Bytes) × (addr ≡ before ++ (needle ++ after))

-- The address has a text that the server takes for the mark of one that only it can use.
abbrev pub IsMarkedLocal : Bytes → Type 0
IsMarkedLocal addr =
    Occurs (codes "/ip4/127.") addr
    ⊎ (Occurs (codes "/ip6/::1") addr ⊎ Occurs (codes "/ip4/0.0.0.0") addr)

take-prefix :
    (needle s : Bytes) → take (length needle) s ≡ needle → (after : Bytes) × (s ≡ needle ++ after)
take-prefix [] s h = (s, refl)
take-prefix (k ∷ needle) [] h = absurd (cc)
take-prefix (k ∷ needle) (b ∷ s) h =
    let here : b ≡ k = cc in let (after, e) = take-prefix needle s (cc) in (after, cc)

take-append : (needle after : Bytes) → take (length needle) (needle ++ after) ≡ needle
take-append [] after = refl
take-append (k ∷ needle) after = ap (λ l. k ∷ l) (take-append needle after)

-- The search of the code finds a text just where it stands.
has_text-Occurs : (needle addr : Bytes) → has_text needle addr ≡ true → Occurs needle addr
unfolding has_text
has_text-Occurs needle [] h = absurd (cc)
has_text-Occurs needle (b ∷ s) h = elim (Bool-cases (take (length needle) (b ∷ s) == needle)) [
  | inl here ↦
      let (after, e) =
        take-prefix needle (b ∷ s) ((==_iff (take (length needle) (b ∷ s)) needle).0 here) in
      ([], after, e)
  | inr later ↦
      let (before, after, e) = has_text-Occurs needle s (rw later at h) in
      (b ∷ before, after, ap (λ l. b ∷ l) e)
]

Occurs-has_text :
    (k : ℕ) (needle before after : Bytes)
    → has_text (k ∷ needle) (before ++ ((k ∷ needle) ++ after)) ≡ true
unfolding has_text
Occurs-has_text k needle [] after =
    rw
      ((==_iff (take (length (k ∷ needle)) ((k ∷ needle) ++ after)) (k ∷ needle)).1
        (take-append (k ∷ needle) after))
      refl
Occurs-has_text k needle (b ∷ before) after =
    let rest = Occurs-has_text k needle before after in ground (arith, rest)

has_text_of_Occurs :
    (k : ℕ) (needle addr : Bytes) → Occurs (k ∷ needle) addr → has_text (k ∷ needle) addr ≡ true
has_text_of_Occurs k needle addr (before, after, e) =
    ap (has_text (k ∷ needle)) e ∙ Occurs-has_text k needle before after

pub advertisable_apart : (x : Bytes) → is_advertisable x ≡ true → ¬ IsMarkedLocal x
unfolding is_advertisable
advertisable_apart x good (inl m) =
    let found = has_text_of_Occurs 47 (codes "ip4/127.") x m in ground (arith, found)
advertisable_apart x good (inr (inl m)) =
    let found = has_text_of_Occurs 47 (codes "ip6/::1") x m in ground (arith, found)
advertisable_apart x good (inr (inr m)) =
    let found = has_text_of_Occurs 47 (codes "ip4/0.0.0.0") x m in ground (arith, found)

pub marked_or_advertisable : (x : Bytes) → IsMarkedLocal x ⊎ (is_advertisable x ≡ true)
unfolding is_advertisable
marked_or_advertisable x = elim (Bool-cases (has_text (codes "/ip4/127.") x)) [
  | inl m ↦ inl (inl (has_text-Occurs (codes "/ip4/127.") x m))
  | inr apart ↦ elim (Bool-cases (has_text (codes "/ip6/::1") x)) [
    | inl m ↦ inl (inr (inl (has_text-Occurs (codes "/ip6/::1") x m)))
    | inr nor ↦ elim (Bool-cases (has_text (codes "/ip4/0.0.0.0") x)) [
      | inl m ↦ inl (inr (inr (has_text-Occurs (codes "/ip4/0.0.0.0") x m)))
      | inr neither ↦ inr (rw (apart, nor, neither) refl)
    ]
  ]
]
