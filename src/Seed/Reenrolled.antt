-- ===== src/Seed/Reenrolled.antt =====
-- A device that enrols again takes a new serial, and its old one leaves the tables.
use orgsync.Base.{
  ℕ, ◌≡◌, ◌≢◌, refl, sym, ap, ◌∙◌, subst, false, inl, inr, Bytes, Memᴰ, any, mem_of_any, ==_iff,
  Bool-cases, nat_ord, list_ord, arith,
}
use orgsync.Error.{ok, err, other}
use orgsync.Crypto.{Crypto, Lawful}
use orgsync.Identity.Crl.{RevocationList, is_revoked}
use orgsync.Identity.Cert.{DeviceCert, peer_id}
use orgsync.Seed.{
  Device, Store, Request, Org, Invite, is_active, new_device, put_device, record_device,
  redeem_invite, revoke, crl,
}
use orgsync.Seed.Redeemed.{redeem_steps}
use orgsync.Seed.Serial.{IsNumbered, IsConsistent, mem-put_device}
use orgsync.Seed.Revoked.{crl_lem}

-- No row has the old serial any more.
old_serial_gone :
    (s : Store) (org : Org) (r : Request) (invite : Invite) (cert : DeviceCert) (now : ℕ)
    (peer : Bytes) (d : Device)
    → IsNumbered org.next_serial s.devices
    → Memᴰ (peer, d) s.devices
    → (x : Bytes × Device) → Memᴰ x (put_device s.devices peer (new_device org r invite cert now))
    → x.1.serial ≢ d.serial
old_serial_gone s org r invite cert now peer d n md x mx same =
    elim (mem-put_device s.devices peer (new_device org r invite cert now) x n.keyed refl mx) [
      | inl (_, serial, _) ↦ omega (arith, n.bound (peer, d) md, serial, same)
      | inr (old, apart) ↦ let own = (==_iff x.0 peer).1 (n.distinct x (peer, d) old md same) in cc
    ]

-- When a device that is in the table redeems another invite, the serial of its certificate before is
-- neither on the list that the server publishes then, though it may have been revoked, nor
-- can it be revoked: the server does not know it any more.
pub reenrolled :
    (c : Crypto) (s : Store) (r : Request) (now issue_now : ℕ) (s' : Store) (cert : DeviceCert)
    (peer : Bytes) (d : Device) (list : RevocationList) (revoke_now list_now : ℕ)
    → Lawful c
    → IsConsistent s
    → Memᴰ (peer, d) s.devices
    → redeem_invite c s r now issue_now ≡ ok (s', cert)
    → peer_id c cert ≡ ok peer
    → crl c s' ≡ ok list
    → (is_revoked list d.serial ≡ false) × (revoke s' d.serial revoke_now list_now ≡ err other)
unfolding record_device revoke
reenrolled c s r now issue_now s' cert peer d list revoke_now list_now law good md h same_peer
      listed =
    let done = redeem_steps c s r now issue_now s' cert h in
    let own : ok done.peer ≡ ok peer = sym done.peer_held ∙ same_peer in
    let key : done.peer ≡ peer = cc in
    let rows : s'.devices ≡ put_device s.devices peer (new_device done.org r done.invite cert now) =
      ap (λ (k : Store). k.devices) done.recorded
      ∙ ap (λ p. put_device s.devices p (new_device done.org r done.invite cert now)) key in
    let gone = λ (x : Bytes × Device) (mx : Memᴰ x s'.devices).
      old_serial_gone s done.org r done.invite cert now peer d (good done.org done.org_held) md x
        (subst (λ l. Memᴰ x l) rows mx) in
    (
      elim (Bool-cases (is_revoked list d.serial)) [
        | inl hit ↦
            let (x, mx, _, e) = ((crl_lem c s' list law listed).1 d.serial).0 hit in
            absurd (gone x mx e)
        | inr miss ↦ miss
      ],
      elim (Bool-cases (any (is_active d.serial) s'.devices)) [
        | inl there ↦
            let (x, mx, active) = mem_of_any (is_active d.serial) s'.devices there in
            let e : x.1.serial ≡ d.serial = (==_iff x.1.serial d.serial).0 (ground arith) in
            absurd (gone x mx e)
        | inr nobody ↦ rw nobody
      ],
    )
