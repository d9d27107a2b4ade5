-- ===== src/Enroll/Saved.antt =====
-- `save` and `load` of rust/p2p-core/src/enroll.rs. The JSON of an enrolment is an interface.
use orgsync.Base.{◌≡◌, Option, none, some, Bytes, codes, list_ord, nat_ord}
use orgsync.Error.{Result, ok, err, codec}
use orgsync.Enroll.{Enrollment}
use orgsync.Db.Outbox.{Meta, set_meta, get_meta}

abbrev pub meta_key : Bytes
meta_key = codes "enrollment"

-- `serde_json` on an enrolment, with what is promised of it.
pub record EnrollmentJson : Type 0 where
  pub to_string : Enrollment → Bytes
  pub from_str : Bytes → Option Enrollment
  pub from_str-to_string : (e : Enrollment) → from_str (to_string e) ≡ some e

module _ (j : EnrollmentJson) where
  unfoldable pub save : Meta → Enrollment → Meta
  unfolding set_meta
  save meta e = set_meta meta meta_key (j.to_string e)

  abbrev pub read : Option Enrollment → Result (Option Enrollment)
  read none = err codec
  read (some e) = ok (some e)

  abbrev pub load_raw : Option Bytes → Result (Option Enrollment)
  load_raw none = ok none
  load_raw (some raw) = read (j.from_str raw)

  unfoldable pub load : Meta → Result (Option Enrollment)
  unfolding get_meta
  load meta = load_raw (get_meta meta meta_key)
