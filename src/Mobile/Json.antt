-- ===== src/Mobile/Json.antt =====
-- How rows and parameters cross to the app in rust/p2p-mobile/src/lib.rs. What the code uses of
-- serde_json is an interface; an f64 is its bit pattern, and an i64 its two's complement pattern.
pub mod Carried
use orgsync.Base.{
  ℕ, ◌≡◌, Bool, true, false, Option, none, some, List, [], ◌∷◌, Bytes, codes, if◌then◌else◌,
}
use orgsync.Crypto.{Crypto}
use orgsync.Value.{SqlValue, int, real, text, blob}
use orgsync.Value.{null as sql_null}
use orgsync.Http.Handlers.{is_blank_text}

-- `P2pError`, without its texts.
pub data P2pError : Type 0 where
  failed : P2pError
  not_enrolled : P2pError
  not_running : P2pError

pub data P2pResult {ℓ} (T : Type ℓ) : Type ℓ where
  done : T → P2pResult T
  raised : P2pError → P2pResult T

infixl 5 ◌>>=◌
abbrev pub ◌>>=◌ {ℓ κ} : {T : Type ℓ} {U : Type κ} → P2pResult T → (T → P2pResult U) → P2pResult U
◌>>=◌ (raised e) rest = raised e
◌>>=◌ (done t) rest = rest t

-- `serde_json::Value`, over its numbers, arrays and objects.
pub data Value (Number Array Object : Type 0) : Type 0 where
  null : Value Number Array Object
  bool : Bool → Value Number Array Object
  number : Number → Value Number Array Object
  string : Bytes → Value Number Array Object
  array : Array → Value Number Array Object
  object : Object → Value Number Array Object

-- What is used of numbers, arrays and objects, and of the text of a value.
pub record Serde : Type 1 where
  pub Number : Type 0
  pub Array : Type 0
  pub Object : Type 0
  pub as_i64 : Number → Option ℕ
  pub as_f64 : Number → Option ℕ
  pub of_i64 : ℕ → Number
  -- `Number::from_f64`: there is none that is not finite.
  pub of_f64 : ℕ → Option Number
  pub items : Array → List (Value Number Array Object)
  pub of_items : List (Value Number Array Object) → Array
  pub get : Object → Bytes → Option (Value Number Array Object)
  pub single : Bytes → Value Number Array Object → Object
  pub from_str : Bytes → Option (Value Number Array Object)
  pub to_string : Value Number Array Object → Bytes

abbrev pub Json : Serde → Type 0
Json s = Value s.Number s.Array s.Object

-- The forms of the values of a row that have no float: no array is among them, and an object has one
-- entry, a string.
abbrev pub IsPlain : (s : Serde) → Json s → Type 0
IsPlain s null = Unit {0}
IsPlain s (bool b) = Unit {0}
IsPlain s (number n) = (i : ℕ) × (n ≡ s.of_i64 i)
IsPlain s (string t) = Unit {0}
IsPlain s (object o) = (k : Bytes) × (t : Bytes) × (o ≡ s.single k (string t))
IsPlain s (array a) = ⊥

abbrev pub ArePlain : (s : Serde) → List (Json s) → Type 0
ArePlain s [] = Unit {0}
ArePlain s (v ∷ l) = IsPlain s v × ArePlain s l

-- The documented behaviour of serde_json that the theorems use. What is said of texts is about
-- an array of plain values, since the text of a float may be read as another float.
pub record IsSerde (s : Serde) : Type 0 where
  pub as-of_i64 : (i : ℕ) → s.as_i64 (s.of_i64 i) ≡ some i
  pub float :
      (f : ℕ) (n : s.Number) → s.of_f64 f ≡ some n → (s.as_i64 n ≡ none) × (s.as_f64 n ≡ some f)
  pub items-of_items : (l : List (Json s)) → s.items (s.of_items l) ≡ l
  pub get-single : (k : Bytes) (v : Json s) → s.get (s.single k v) k ≡ some v
  pub from_str-to_string :
      (l : List (Json s))
      → ArePlain s l
      → s.from_str (s.to_string (array (s.of_items l))) ≡ some (array (s.of_items l))
  pub not_blank : (l : List (Json s)) → is_blank_text (s.to_string (array (s.of_items l))) ≡ false

abbrev pub blob_key : Bytes
blob_key = codes "$blob"

module _ (c : Crypto) (s : Serde) where
  abbrev or_zero : Option ℕ → ℕ
  or_zero none = 0
  or_zero (some f) = f

  abbrev pub number_value : Option ℕ → Option ℕ → SqlValue
  number_value (some i) f = int i
  number_value none f = real (or_zero f)

  abbrev pub decoded : Option Bytes → P2pResult SqlValue
  decoded (some bytes) = done (blob bytes)
  decoded none = raised failed

  abbrev pub blob_value : Option (Json s) → P2pResult SqlValue
  blob_value (some (string hexstr)) = decoded (c.hex_decode hexstr)
  blob_value _ = raised failed

  unfoldable pub json_to_value : Json s → P2pResult SqlValue
  json_to_value null = done sql_null
  json_to_value (bool b) = done (int (if b then 1 else 0))
  json_to_value (number n) = done (number_value (s.as_i64 n) (s.as_f64 n))
  json_to_value (string t) = done (text t)
  json_to_value (object o) = blob_value (s.get o blob_key)
  json_to_value (array a) = raised failed

  -- `json!` of an f64 that is not finite is null.
  abbrev pub of_float : Option s.Number → Json s
  of_float none = null
  of_float (some n) = number n

  unfoldable pub value_to_json : SqlValue → Json s
  value_to_json sql_null = null
  value_to_json (int i) = number (s.of_i64 i)
  value_to_json (real f) = of_float (s.of_f64 f)
  value_to_json (text t) = string t
  value_to_json (blob b) = object (s.single blob_key (string (c.hex_encode b)))

  -- `collect`: the first error ends it.
  unfoldable pub json_to_values : List (Json s) → P2pResult (List SqlValue)
  unfolding json_to_value
  json_to_values [] = done []
  json_to_values (v ∷ l) = do first ← json_to_value v; rest ← json_to_values l; done (first ∷ rest)

  abbrev parsed : Option (Json s) → P2pResult (List SqlValue)
  parsed (some (array a)) = json_to_values (s.items a)
  parsed _ = raised failed

  unfoldable pub parse_params : Bytes → P2pResult (List SqlValue)
  unfolding is_blank_text json_to_values
  parse_params params = if is_blank_text params then done [] else parsed (s.from_str params)
