-- ===== src/Tests/Calls.antt =====
-- An app on a device that has joined.
use orgsync.Base.{
  ℕ, zero, suc, ◌≤◌, ◌≡◌, ◌≢◌, refl, ap, ap₂, ◌∙◌, true, Option, none, some, List, [], ◌∷◌, ◌++◌,
  Bytes, codes, take, drop, length, length-append, arith, nat_ord, list_ord,
}
use orgsync.Error.{ok}
use orgsync.Identity.{Role, admin, member, readonly}
use orgsync.Enroll.{Enrollment}
use orgsync.Enroll.Saved.{EnrollmentJson, save, load}
use orgsync.Node.Gate.{Event, requested}
use orgsync.Node.{hello}
use orgsync.Node.Saving.{run_saving, load-run_saving, load-save}
use orgsync.Mobile.{Client, idle, is_enrolled, start}
use orgsync.Mobile.Data.{Sql}
use orgsync.Mobile.Json.{not_enrolled, raised}
use orgsync.Mobile.Enrolled.{
  Call, AreSparing, starts, turns, hears, stops, syncs, executes, calls, calls-is_enrolled,
}
use orgsync.Tests.Toy.{world, Rows, replica}
use orgsync.Tests.Trust.{key, list, cert, joined, newer}
use orgsync.Tests.Network.{node}
use orgsync.Tests.Reopening.{catalog}
use orgsync.Tests.Texts.{take_front, drop_front, paper}

pack : List Bytes → Bytes
pack [] = []
pack (b ∷ l) = length b ∷ (b ++ pack l)

unpack : ℕ → Bytes → List Bytes
unpack zero s = []
unpack (suc fuel) [] = []
unpack (suc fuel) (n ∷ s) = take n s ∷ unpack fuel (drop n s)

unpack-pack : (fuel : ℕ) (l : List Bytes) → length l ≤ fuel → unpack fuel (pack l) ≡ l
unfolding unpack pack
unpack-pack zero [] h = refl
unpack-pack (suc fuel) [] h = refl
unpack-pack zero (v ∷ l) h = absurd (omega arith)
unpack-pack (suc fuel) (v ∷ l) h =
    ap₂ (λ (x : Bytes) (y : List Bytes). x ∷ y) (take_front v (pack l))
      (ap (unpack fuel) (drop_front v (pack l)) ∙ unpack-pack fuel l (omega arith))

enough : (l : List Bytes) → length l ≤ length (pack l)
unfolding pack
enough [] = omega arith
enough (v ∷ l) = omega (arith, enough l, length-append v (pack l))

role_code : Role → ℕ
role_code admin = 0
role_code member = 1
role_code readonly = 2

role_of : ℕ → Role
role_of zero = admin
role_of (suc zero) = member
role_of (suc (suc n)) = readonly

role_of-role_code : (r : Role) → role_of (role_code r) ≡ r
unfolding role_of role_code
role_of-role_code admin = refl
role_of-role_code member = refl
role_of-role_code readonly = refl

abbrev fields : Enrollment → List Bytes
fields e =
    e.org_id
    ∷ e.org_name
    ∷ e.cert.claims.org_id
    ∷ e.cert.claims.device_pub
    ∷ e.cert.claims.user_id
    ∷ e.cert.claims.display_name
    ∷ (role_code e.cert.claims.role
        ∷ e.cert.claims.issued_at_ms
        ∷ e.cert.claims.expires_at_ms
        ∷ e.cert.claims.serial
        ∷ e.crl.updated_at_ms
        ∷ [])
    ∷ e.cert.org_pub
    ∷ e.cert.signature
    ∷ e.crl.org_id
    ∷ e.crl.revoked
    ∷ e.crl.org_pub
    ∷ e.crl.signature
    ∷ e.bootstrap

of_fields : List Bytes → Option Enrollment
of_fields
      (org_id
        ∷ org_name
        ∷ org
        ∷ dev
        ∷ user
        ∷ name
        ∷ (role ∷ issued ∷ expires ∷ serial ∷ at ∷ [])
        ∷ pub_key
        ∷ sig
        ∷ crl_org
        ∷ revoked
        ∷ crl_pub
        ∷ crl_sig
        ∷ bootstrap) =
    some (record {
      org_id = org_id;
      org_name = org_name;
      cert = record {
        claims = record {
          org_id = org;
          device_pub = dev;
          user_id = user;
          display_name = name;
          role = role_of role;
          issued_at_ms = issued;
          expires_at_ms = expires;
          serial = serial;
        };
        org_pub = pub_key;
        signature = sig;
      };
      crl = record {
        org_id = crl_org;
        updated_at_ms = at;
        revoked = revoked;
        org_pub = crl_pub;
        signature = crl_sig;
      };
      bootstrap = bootstrap;
    })
of_fields _ = none

of_fields-fields : (e : Enrollment) → of_fields (fields e) ≡ some e
unfolding of_fields
of_fields-fields e =
    ap
      (λ r. some (record e { cert = record e.cert { claims = record e.cert.claims { role = r } } }))
      (role_of-role_code e.cert.claims.role)

pub pack_fields : Enrollment → Bytes
pack_fields e = pack (fields e)

pub unpack_fields : Bytes → Option Enrollment
unpack_fields s = of_fields (unpack (length s) s)

pub unpack-pack_fields : (e : Enrollment) → unpack_fields (pack_fields e) ≡ some e
unfolding pack_fields unpack_fields
unpack-pack_fields e =
    ap of_fields (unpack-pack (length (pack (fields e))) (fields e) (enough (fields e)))
    ∙ of_fields-fields e

abbrev pub stored : EnrollmentJson
stored = record {
  to_string = pack_fields;
  from_str = unpack_fields;
  from_str-to_string = unpack-pack_fields;
}

abbrev phone : Client Rows
phone = record {
  secret = [];
  slot = idle (replica (codes "phone"));
  meta = save stored [] joined;
  peers = [];
}

phone_joined : is_enrolled world catalog stored phone ≡ true
unfolding is_enrolled
phone_joined = rw (load-save world stored [] joined)

-- Any statement deletes all peers and writes to no other table.
abbrev run_sql : Sql Rows
run_sql sql params (file, (meta, peers)) = ((file, (meta, [])), some (length peers))

abbrev day : List (Call stored world catalog)
day =
    starts 600 (ok tt)
    ∷ hears (requested key (hello 1 cert list true) 600 601)
    ∷ executes (codes "INSERT") []
    ∷ turns
    ∷ syncs
    ∷ stops
    ∷ []

spared : AreSparing stored world catalog paper run_sql day
spared = (tt, (tt, ((λ params files. refl), (tt, (tt, (tt, tt))))))

calls-is_enrolled_example :
    (is_enrolled world catalog stored (calls stored world catalog paper run_sql phone day) ≡ true)
    × ((start world catalog stored
          (calls stored world catalog paper run_sql phone day)
          700
          (ok tt)).1
        ≢ raised not_enrolled)
calls-is_enrolled_example =
    calls-is_enrolled stored world catalog paper run_sql phone day 700 (ok tt) spared phone_joined

abbrev news : List (Event world)
news = requested key (hello 1 cert newer true) 600 601 ∷ []

load-run_saving_example :
    let r = run_saving world stored node (save stored [] joined) news in
    load stored r.1 ≡ ok (some r.0.enrollment)
load-run_saving_example =
    load-run_saving world stored node (save stored [] joined) news
      (load-save world stored [] joined)
