-- ===== src/Tests/Toy.antt =====
-- A small outside world: a signature is any text of 64 bytes, and app tables are lists of rows.
use orgsync.Base.{
  ℕ, zero, suc, refl, Bool, none, some, List, [], ◌∷◌, Bytes, codes, length, find, put, delete,
  ◌==◌, if◌then◌else◌, nat_ord, list_ord, pair_ord,
}
use orgsync.Crypto.{Crypto, Lawful}
use orgsync.Hlc.{zero_hlc}
use orgsync.Value.{SqlValue}
use orgsync.Db.{TableSpec, AppTables, Env, Db}
use orgsync.Db.Tables.{RowKey, empty}

abbrev pub zeros : ℕ → Bytes
zeros zero = []
zeros (suc n) = 0 ∷ zeros n

abbrev pub toy : Crypto
toy = record {
  is_public_key = λ key. length key == 32;
  verify = λ key message sig. length sig == 64;
  public = λ secret. zeros 32;
  sign = λ secret message. zeros 64;
  peer_id = λ key. key;
  multihash = λ peer. if length peer == 32 then some (0, peer) else none;
  decode_key = λ digest. some digest;
  blake3 = λ b. zeros 32;
  decode_keypair = λ b. some b;
  encode_keypair = λ b. b;
  decode_secret = λ b. some b;
  hex_encode = λ b. b;
  hex_decode = λ b. some b;
}

pub toy-Lawful : Lawful toy
toy-Lawful = record {
  verify-sign = λ secret message. refl;
  public-accepted = λ secret. refl;
  inlined = λ key h. (key, rw h, refl);
  public-length = λ secret. refl;
  signature_nonempty = λ secret message. refl;
  decode-encode_keypair = λ secret. refl;
  hex_decode-encode = λ b. refl;
}

abbrev pub Rows : Type 0
Rows = List (RowKey × List (Bytes × SqlValue))

abbrev pub toy_tables : AppTables Rows
toy_tables = record {
  read_row = λ app spec pk. find {K = RowKey} (spec.name, pk) app;
  upsert_row = λ app spec pk cols. some (put {K = RowKey} (spec.name, pk) cols app);
  delete_row = λ app spec pk. some (delete {K = RowKey} (spec.name, pk) app);
}

abbrev pub world : Env Rows
world = record { crypto = toy; app_tables = toy_tables; now_ms = λ k. 1000 }

abbrev pub messages : TableSpec
messages = record { name = codes "messages"; pk_col = codes "id"; cols = codes "body" ∷ [] }

abbrev pub replica : Bytes → Db Rows
replica device = record {
  device_id = device;
  signer = none;
  require_signatures = Bool.false;
  clock = zero_hlc;
  readings = 0;
  tables = (codes "messages", messages) ∷ [];
  guard = 0;
  local_ops = [];
  next_op = 1;
  crdt = empty;
  app = [];
}
