-- ===== src/Mobile/Json/Carried.antt =====
-- What a value is after it has crossed to the app and back.
use orgsync.Base.{
  Bool, true, false, any, Bool-cases, ◌⊎◌, inl, inr, ℕ, ◌≡◌, refl, ap, ◌∙◌, Option, none, some,
  List, [], ◌∷◌, map,
}
use orgsync.Crypto.{Crypto, Lawful}
use orgsync.Value.{SqlValue, int, real, text, blob}
use orgsync.Value.{null as sql_null}
use orgsync.Mobile.Json.{
  done, Serde, IsSerde, ArePlain, array, string, json_to_value, number_value, of_float,
  value_to_json, json_to_values, parse_params, blob_value, decoded, blob_key,
}

abbrev float_left {ℓ} : {A : Type ℓ} → ℕ → Option A → SqlValue
float_left f none = sql_null
float_left f (some n) = real f

-- A number that is not finite is lost.
abbrev pub carried : Serde → SqlValue → SqlValue
carried s sql_null = sql_null
carried s (int i) = int i
carried s (real f) = float_left f (s.of_f64 f)
carried s (text t) = text t
carried s (blob b) = blob b

json_to_value-value_to_json :
    (c : Crypto) (s : Serde) (v : SqlValue)
    → Lawful c
    → IsSerde s
    → json_to_value c s (value_to_json c s v) ≡ done (carried s v)
unfolding json_to_value value_to_json
json_to_value-value_to_json c s sql_null law serde = refl
json_to_value-value_to_json c s (int i) law serde =
    ap (λ o. done (number_value c s o (s.as_f64 (s.of_i64 i)))) (serde.as-of_i64 i)
json_to_value-value_to_json c s (real f) law serde = float_lem (s.of_f64 f) refl
  where
    float_lem :
        (o : Option s.Number)
        → s.of_f64 f ≡ o
        → json_to_value c s (of_float c s o) ≡ done (float_left f o)
    float_lem none e = refl
    float_lem (some n) e =
        let (no_int, same) = serde.float f n e in
        ap (λ i. done (number_value c s i (s.as_f64 n))) no_int
        ∙ ap (λ o. done (number_value c s none o)) same
json_to_value-value_to_json c s (text t) law serde = refl
json_to_value-value_to_json c s (blob b) law serde =
    ap (blob_value c s) (serde.get-single blob_key (string (c.hex_encode b)))
    ∙ ap (decoded c s) (law.hex_decode-encode b)

json_to_values_lem :
    (c : Crypto) (s : Serde) (vs : List SqlValue)
    → Lawful c
    → IsSerde s
    → json_to_values c s (map (value_to_json c s) vs) ≡ done (map (carried s) vs)
unfolding json_to_values
json_to_values_lem c s [] law serde = refl
json_to_values_lem c s (v ∷ vs) law serde =
    rw (json_to_value-value_to_json c s v law serde, json_to_values_lem c s vs law serde)

abbrev pub is_real : SqlValue → Bool
is_real (real f) = true
is_real _ = false

carried_plain : (s : Serde) (vs : List SqlValue) → any is_real vs ≡ false → map (carried s) vs ≡ vs
unfolding any
carried_plain s [] h = refl
carried_plain s (sql_null ∷ vs) h = ap (λ l. sql_null ∷ l) (carried_plain s vs h)
carried_plain s (int i ∷ vs) h = ap (λ l. int i ∷ l) (carried_plain s vs h)
carried_plain s (real f ∷ vs) h = absurd (cc)
carried_plain s (text t ∷ vs) h = ap (λ l. text t ∷ l) (carried_plain s vs h)
carried_plain s (blob b ∷ vs) h = ap (λ l. blob b ∷ l) (carried_plain s vs h)

value_to_json-ArePlain :
    (c : Crypto) (s : Serde) (vs : List SqlValue)
    → any is_real vs ≡ false
    → ArePlain s (map (value_to_json c s) vs)
unfolding any value_to_json
value_to_json-ArePlain c s [] h = tt
value_to_json-ArePlain c s (sql_null ∷ vs) h = (tt, value_to_json-ArePlain c s vs h)
value_to_json-ArePlain c s (int i ∷ vs) h = ((i, refl), value_to_json-ArePlain c s vs h)
value_to_json-ArePlain c s (real f ∷ vs) h = absurd (cc)
value_to_json-ArePlain c s (text t ∷ vs) h = (tt, value_to_json-ArePlain c s vs h)
value_to_json-ArePlain c s (blob b ∷ vs) h =
    ((blob_key, c.hex_encode b, refl), value_to_json-ArePlain c s vs h)

through_text :
    (c : Crypto) (s : Serde) (vs : List SqlValue)
    → Lawful c
    → IsSerde s
    → any is_real vs ≡ false
    → parse_params c s (s.to_string (array (s.of_items (map (value_to_json c s) vs)))) ≡ done vs
unfolding parse_params
through_text c s vs law serde plain =
    let l = map (value_to_json c s) vs in
    rw
      (
        serde.not_blank l,
        serde.from_str-to_string l (value_to_json-ArePlain c s vs plain),
        serde.items-of_items l,
      )
      (json_to_values_lem c s vs law serde ∙ ap (λ k. done k) (carried_plain s vs plain))

-- The values of a row, each in the form in which it crosses to the app, are read back from these
-- forms as they were, but that a number which is not finite is null; and parameters that are written
-- as the text of a JSON array of such forms are read as they were, unless there is a float in them.
pub parse_params_lem :
    (c : Crypto) (s : Serde) (vs : List SqlValue)
    → Lawful c
    → IsSerde s
    → (json_to_values c s (map (value_to_json c s) vs) ≡ done (map (carried s) vs))
      × ((any is_real vs ≡ true)
          ⊎ (parse_params c s (s.to_string (array (s.of_items (map (value_to_json c s) vs))))
              ≡ done vs))
parse_params_lem c s vs law serde = (
  json_to_values_lem c s vs law serde,
  elim (Bool-cases (any is_real vs)) [
    | inl float ↦ inl float
    | inr plain ↦ inr (through_text c s vs law serde plain)
  ],
)
