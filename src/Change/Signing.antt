-- ===== src/Change/Signing.antt =====
-- No two different changes have the same bytes to sign, so a signature covers one change only.
use orgsync.Base.{
  ℕ, ◌%◌, ◌^◌, ◌<◌, ◌≡◌, refl, sym, ap, ◌∙◌, [], ◌∷◌, ◌++◌, Bytes, length, le_bytes,
  length-le_bytes, le_bytes-injective, arith,
}
use mathlib.Core.List.{append-nil, append_assoc}
use orgsync.Hlc
use orgsync.Hlc.{Hlc}
use orgsync.Value.{SqlValue, null, int, real, text, blob, to_storage, IsValue}
use orgsync.Change.{
  ChangeKind, cell, deletion, as_i64, ChangeRecord, framed, unwrap_or_default, change_domain,
  signing_bytes,
}

-- The texts are shorter than four gigabytes, and the numbers fit their machine types.
pub record IsSignable (c : ChangeRecord) : Type 0 where
  pub tbl : length c.tbl < 2 ^ 32
  pub pk : length c.pk < 2 ^ 32
  pub col : length c.col < 2 ^ 32
  pub raw : length (unwrap_or_default (to_storage c.value).1) < 2 ^ 32
  pub origin : length c.origin < 2 ^ 32
  pub value : IsValue c.value
  pub hlc : Hlc.IsValid c.hlc

-- Everything of a change but the signature.
pub record SameContent (a b : ChangeRecord) : Type 0 where
  pub tbl : a.tbl ≡ b.tbl
  pub pk : a.pk ≡ b.pk
  pub col : a.col ≡ b.col
  pub value : a.value ≡ b.value
  pub hlc : a.hlc ≡ b.hlc
  pub origin : a.origin ≡ b.origin
  pub kind : a.kind ≡ b.kind

pub append_split :
    (xs xs' ys ys' : Bytes)
    → length xs ≡ length xs'
    → xs ++ ys ≡ xs' ++ ys'
    → (xs ≡ xs') × (ys ≡ ys')
append_split [] [] ys ys' h e = (refl, e)
append_split [] (x' ∷ xs') ys ys' h e = absurd (omega arith)
append_split (x ∷ xs) [] ys ys' h e = absurd (omega arith)
append_split (x ∷ xs) (x' ∷ xs') ys ys' h e =
    let (p, q) = append_split xs xs' ys ys' (omega arith) (cc) in (cc, q)

pub fixed_split :
    (w a b : ℕ) (ys ys' : Bytes)
    → a < 256 ^ w
    → b < 256 ^ w
    → le_bytes w a ++ ys ≡ le_bytes w b ++ ys'
    → (a ≡ b) × (ys ≡ ys')
fixed_split w a b ys ys' ha hb e =
    let (p, q) =
      append_split (le_bytes w a) (le_bytes w b) ys ys'
        (length-le_bytes w a ∙ sym (length-le_bytes w b)) e in
    (le_bytes-injective w a b ha hb p, q)

pub framed_split :
    (s t ys ys' : Bytes)
    → length s < 2 ^ 32
    → length t < 2 ^ 32
    → framed s ++ ys ≡ framed t ++ ys'
    → (s ≡ t) × (ys ≡ ys')
unfolding framed
framed_split s t ys ys' hs ht e =
    let n = length s % 2 ^ 32 in
    let m = length t % 2 ^ 32 in
    let grouped : le_bytes 4 n ++ (s ++ ys) ≡ le_bytes 4 m ++ (t ++ ys') =
      sym (append_assoc (le_bytes 4 n) s ys) ∙ e ∙ append_assoc (le_bytes 4 m) t ys' in
    let (same, rest) = fixed_split 4 n m (s ++ ys) (t ++ ys') (omega arith) (omega arith) grouped in
    append_split s t ys ys' (omega arith) rest

pub framed-injective :
    (s t : Bytes) → length s < 2 ^ 32 → length t < 2 ^ 32 → framed s ≡ framed t → s ≡ t
framed-injective s t hs ht e =
    (framed_split s t [] [] hs ht (append-nil (framed s) ∙ e ∙ sym (append-nil (framed t)))).0

as_i64-injective : (a b : ChangeKind) → as_i64 a % 256 ≡ as_i64 b % 256 → a ≡ b
as_i64-injective cell cell e = refl
as_i64-injective cell deletion e = absurd (omega arith)
as_i64-injective deletion cell e = absurd (omega arith)
as_i64-injective deletion deletion e = refl

vtype-small : (v : SqlValue) → (to_storage v).0 < 256 ^ 8
unfolding to_storage
vtype-small null = omega arith
vtype-small (int i) = omega arith
vtype-small (real f) = omega arith
vtype-small (text s) = omega arith
vtype-small (blob b) = omega arith

-- The tag and the bytes determine the value; only NULL has no bytes, and it has a tag of its own.
value_of_storage :
    (v w : SqlValue)
    → IsValue v
    → IsValue w
    → (to_storage v).0 ≡ (to_storage w).0
    → unwrap_or_default (to_storage v).1 ≡ unwrap_or_default (to_storage w).1
    → v ≡ w
unfolding to_storage
value_of_storage null null hv hw t r = refl
value_of_storage (int i) (int j) hv hw t r = ap int (le_bytes-injective 8 i j hv hw r)
value_of_storage (real i) (real j) hv hw t r = ap real (le_bytes-injective 8 i j hv hw r)
value_of_storage (text i) (text j) hv hw t r = ap text r
value_of_storage (blob i) (blob j) hv hw t r = ap blob r
value_of_storage v w hv hw t r = absurd (omega arith)

-- Two changes with the same bytes to sign have the same content.
pub signing_bytes-injective :
    (a b : ChangeRecord)
    → IsSignable a
    → IsSignable b
    → signing_bytes a ≡ signing_bytes b
    → SameContent a b
unfolding signing_bytes
signing_bytes-injective a b va vb e =
    let (_, e₁) = append_split change_domain change_domain _ _ refl e in
    let (tbl, e₂) = framed_split a.tbl b.tbl _ _ va.tbl vb.tbl e₁ in
    let (pk, e₃) = framed_split a.pk b.pk _ _ va.pk vb.pk e₂ in
    let (col, e₄) = framed_split a.col b.col _ _ va.col vb.col e₃ in
    let (kind, e₅) =
      append_split (as_i64 a.kind % 256 ∷ []) (as_i64 b.kind % 256 ∷ []) _ _ refl e₄ in
    let (vtype, e₆) = fixed_split 8 _ _ _ _ (vtype-small a.value) (vtype-small b.value) e₅ in
    let (raw, e₇) = framed_split _ _ _ _ va.raw vb.raw e₆ in
    let (wall, e₈) =
      fixed_split 8 a.hlc.wall_ms b.hlc.wall_ms _ _ va.hlc.wall_ms vb.hlc.wall_ms e₇ in
    let (counter, e₉) =
      fixed_split 4 a.hlc.counter b.hlc.counter _ _ va.hlc.counter vb.hlc.counter e₈ in
    record {
      tbl = tbl;
      pk = pk;
      col = col;
      value = value_of_storage a.value b.value va.value vb.value vtype raw;
      hlc = λ i. record { wall_ms = wall i; counter = counter i };
      origin = framed-injective a.origin b.origin va.origin vb.origin e₉;
      kind = as_i64-injective a.kind b.kind (ground arith);
    }
