-- ===== src/Seed/Serial.antt =====
-- Serials: each device that is in the table has one of its own, below the next to be given.
use orgsync.Base.{
  ℕ, ◌+◌, ◌<◌, ◌≡◌, refl, sym, ap, ◌∙◌, subst, false, ◌⊎◌, inl, inr, none, some, List, [], ◌∷◌,
  Bytes, Memᴰ, find, put, IsKeyed, mem-put, put-IsKeyed, ◌==◌, Option-cases, nat_ord, list_ord,
  arith,
}
use mathlib.Core.List.Memᴰ
use orgsync.Seed.{Org, Device, Store, put_device, revoke_rows}

-- On the rows of the devices, with the next serial.
pub record IsNumbered (next : ℕ) (devices : List (Bytes × Device)) : Type 0 where
  pub keyed : IsKeyed devices
  pub bound : (x : Bytes × Device) → Memᴰ x devices → x.1.serial < next
  pub distinct :
      (x y : Bytes × Device) → Memᴰ x devices → Memᴰ y devices → x.1.serial ≡ y.1.serial → x.0 ≡ y.0

abbrev pub IsConsistent : Store → Type 0
IsConsistent s = (org : Org) → s.org ≡ some org → IsNumbered org.next_serial s.devices

-- What is written for a device: its serial, and no mark of revocation.
put_device_lem :
    (devices : List (Bytes × Device)) (peer : Bytes) (row : Device)
    → row.revoked_at_ms ≡ none
    → (v : Device) × (put_device devices peer row ≡ put peer v devices)
      × (v.serial ≡ row.serial)
      × (v.revoked_at_ms ≡ none)
unfolding put_device
put_device_lem devices peer row clean = elim (Option-cases (find peer devices)) [
  | inl new ↦ (row, rw (new, put_device), refl, clean)
  | inr (old, held) ↦ (
    record old {
      serial = row.serial;
      display_name = row.display_name;
      role = row.role;
      platform = row.platform;
      enrolled_at_ms = row.enrolled_at_ms;
      expires_at_ms = row.expires_at_ms;
      revoked_at_ms = none;
    },
    rw (held, put_device),
    refl,
    refl,
  )
]

-- A row after the write is the device's, under the new serial and without a mark, or another's.
pub mem-put_device :
    (devices : List (Bytes × Device)) (peer : Bytes) (row : Device) (x : Bytes × Device)
    → IsKeyed devices
    → row.revoked_at_ms ≡ none
    → Memᴰ x (put_device devices peer row)
    → ((x.0 ≡ peer) × (x.1.serial ≡ row.serial) × (x.1.revoked_at_ms ≡ none))
      ⊎ (Memᴰ x devices × ((x.0 == peer) ≡ false))
mem-put_device devices peer row x keyed clean m =
    let (v, written, serial, unmarked) = put_device_lem devices peer row clean in
    elim (mem-put peer v devices x keyed (subst (λ l. Memᴰ x l) written m)) [
      | inl (key, value) ↦
          inl (key, ap (λ d. d.serial) value ∙ serial, ap (λ d. d.revoked_at_ms) value ∙ unmarked)
      | inr old ↦ inr old
    ]

pub put_device-IsNumbered :
    (next : ℕ) (devices : List (Bytes × Device)) (peer : Bytes) (row : Device)
    → row.serial ≡ next
    → row.revoked_at_ms ≡ none
    → IsNumbered next devices
    → IsNumbered (next + 1) (put_device devices peer row)
put_device-IsNumbered next devices peer row given clean n =
    let split = λ (x : Bytes × Device) (m : Memᴰ x (put_device devices peer row)).
      mem-put_device devices peer row x n.keyed clean m in
    let (v, written, _, _) = put_device_lem devices peer row clean in
    record {
      keyed = subst (λ l. IsKeyed l) (sym written) (put-IsKeyed peer v devices n.keyed);
      bound = λ x m. elim (split x m) [
        | inl (_, serial, _) ↦ omega (arith, serial, given)
        | inr (old, _) ↦ omega (arith, n.bound x old)
      ];
      distinct = λ x y mx my same. elim (split x mx) [
        | inl (kx, sx, _) ↦ elim (split y my) [
          | inl (ky, _, _) ↦ kx ∙ sym ky
          | inr (old, _) ↦ absurd (omega (arith, n.bound y old, sx, given, same))
        ]
        | inr (ox, _) ↦ elim (split y my) [
          | inl (_, sy, _) ↦ absurd (omega (arith, n.bound x ox, sy, given, same))
          | inr (oy, _) ↦ n.distinct x y ox oy same
        ]
      ];
    }

-- Revoking keeps keys and serials.
pub mem-revoke_rows :
    (serial now : ℕ) (devices : List (Bytes × Device)) (x : Bytes × Device)
    → Memᴰ x (revoke_rows serial now devices)
    → (y : Bytes × Device) × Memᴰ y devices × (x.0 ≡ y.0) × (x.1.serial ≡ y.1.serial)
unfolding revoke_rows
mem-revoke_rows serial now [] x m = elim m [ ]
mem-revoke_rows serial now ((peer, d) ∷ devices) x m = elim (Memᴰ.cases_cons m) [
  | inl e ↦ (
    (peer, d),
    Memᴰ.head refl,
    ap (λ y. y.0) e,
    ap (λ (y : Bytes × Device). y.1.serial) e ∙ ground arith,
  )
  | inr t ↦
      let (y, my, key, same) = mem-revoke_rows serial now devices x t in
      (y, Memᴰ.tail my, key, same)
]

revoke_rows-IsKeyed :
    (serial now : ℕ) (devices : List (Bytes × Device))
    → IsKeyed devices
    → IsKeyed (revoke_rows serial now devices)
unfolding revoke_rows
revoke_rows-IsKeyed serial now [] keyed = keyed
revoke_rows-IsKeyed serial now ((peer, d) ∷ devices) (first, keyed) = (
  (λ x m.
      let (y, my, key, _) = mem-revoke_rows serial now devices x m in
      ap (λ (k : Bytes). k == peer) key ∙ first y my),
  revoke_rows-IsKeyed serial now devices keyed,
)

pub revoke_rows-IsNumbered :
    (serial now next : ℕ) (devices : List (Bytes × Device))
    → IsNumbered next devices
    → IsNumbered next (revoke_rows serial now devices)
revoke_rows-IsNumbered serial now next devices n =
    let before = λ (x : Bytes × Device) (m : Memᴰ x (revoke_rows serial now devices)).
      mem-revoke_rows serial now devices x m in
    record {
      keyed = revoke_rows-IsKeyed serial now devices n.keyed;
      bound = λ x m. let (y, my, _, same) = before x m in omega (arith, n.bound y my, same);
      distinct = λ x y mx my same.
          let (x', mx', kx, sx) = before x mx in
          let (y', my', ky, sy) = before y my in
          kx ∙ n.distinct x' y' mx' my' (sym sx ∙ same ∙ sy) ∙ sym ky;
    }
