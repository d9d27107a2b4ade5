-- ===== src/Tests/Texts.antt =====
-- A small serde_json, in which the text of a value is a tag and its content.
use orgsync.Base.{
  ℕ, zero, suc, ◌≤◌, ◌≡◌, refl, ap, ap₂, ◌∙◌, true, false, Option, none, some, List, [], ◌∷◌, ◌++◌,
  map, any, Bytes, codes, take, drop, length, length-append, ==_iff, ◌==◌, if◌then◌else◌, arith,
  nat_ord, list_ord,
}
use mathlib.Core.Logic.{◌⊎◌, inl, inr}
use orgsync.Value.{SqlValue, int, text, blob}
use orgsync.Http.Handlers.{is_blank_text}
use orgsync.Mobile.Json.{
  Value, null, bool, number, string, array, object, Serde, IsSerde, done, parse_params,
  json_to_values, value_to_json,
}
use orgsync.Mobile.Json.Carried.{carried, is_real, parse_params_lem}
use orgsync.Tests.Toy.{toy, toy-Lawful}

abbrev Number : Type 0
Number = ℕ ⊎ ℕ

abbrev Small : Type 0
Small = Value Number Bytes Bytes

pub write : Small → Bytes
write null = 0 ∷ []
write (bool true) = 1 ∷ []
write (bool false) = 2 ∷ []
write (number (inl i)) = 3 ∷ i ∷ []
write (number (inr f)) = 4 ∷ f ∷ []
write (string s) = 5 ∷ s
write (array a) = 6 ∷ a
write (object o) = 7 ∷ o

pub first : Bytes → ℕ
first [] = 0
first (x ∷ s) = x

pub read : Bytes → Small
read [] = null
read (t ∷ s) =
    if t == 1
    then bool true
    else if t == 2
    then bool false
    else if t == 3
    then number (inl (first s))
    else if t == 4
    then number (inr (first s))
    else if t == 5
    then string s
    else if t == 6
    then array s
    else if t == 7
    then object s
    else null

read-write : (v : Small) → read (write v) ≡ v
unfolding read write first
read-write null = refl
read-write (bool true) = refl
read-write (bool false) = refl
read-write (number (inl i)) = refl
read-write (number (inr f)) = refl
read-write (string s) = refl
read-write (array a) = refl
read-write (object o) = refl

pub take_front : (a b : Bytes) → take (length a) (a ++ b) ≡ a
take_front [] b = refl
take_front (x ∷ a) b = ap (λ l. x ∷ l) (take_front a b)

pub drop_front : (a b : Bytes) → drop (length a) (a ++ b) ≡ b
drop_front [] b = refl
drop_front (x ∷ a) b = drop_front a b

pub write_all : List Small → Bytes
write_all [] = []
write_all (v ∷ l) = length (write v) ∷ (write v ++ write_all l)

pub read_all : ℕ → Bytes → List Small
read_all zero s = []
read_all (suc fuel) [] = []
read_all (suc fuel) (n ∷ s) = read (take n s) ∷ read_all fuel (drop n s)

read_all-write_all : (fuel : ℕ) (l : List Small) → length l ≤ fuel → read_all fuel (write_all l) ≡ l
unfolding read_all write_all
read_all-write_all zero [] h = refl
read_all-write_all (suc fuel) [] h = refl
read_all-write_all zero (v ∷ l) h = absurd (omega arith)
read_all-write_all (suc fuel) (v ∷ l) h =
    ap₂ (λ (x : Small) (y : List Small). x ∷ y)
      (ap read (take_front (write v) (write_all l)) ∙ read-write v)
      (ap (read_all fuel) (drop_front (write v) (write_all l))
        ∙ read_all-write_all fuel l (omega arith))

enough : (l : List Small) → length l ≤ length (write_all l)
unfolding write_all
enough [] = omega arith
enough (v ∷ l) = omega (arith, enough l, length-append (write v) (write_all l))

pub named : Bytes → Small → Bytes
named k v = length k ∷ (k ++ write v)

pub lookup : Bytes → Bytes → Option Small
lookup [] k = none
lookup (n ∷ s) k = if take n s == k then some (read (drop n s)) else none

lookup-named : (k : Bytes) (v : Small) → lookup (named k v) k ≡ some v
unfolding lookup named
lookup-named k v =
    let here : (take (length k) (k ++ write v) == k) ≡ true =
      (==_iff (take (length k) (k ++ write v)) k).1 (take_front k (write v)) in
    rw here (ap (λ s. some (read s)) (drop_front k (write v)) ∙ ap (λ x. some x) (read-write v))

abbrev left : Number → Option ℕ
left (inl i) = some i
left (inr f) = none

abbrev right : Number → Option ℕ
right (inl i) = none
right (inr f) = some f

-- The text starts with a letter.
pub text_of : Small → Bytes
text_of v = 99 ∷ write v

pub value_of : Bytes → Option Small
value_of [] = none
value_of (x ∷ s) = some (read s)

abbrev pub paper : Serde
paper = record {
  Number = Number;
  Array = Bytes;
  Object = Bytes;
  as_i64 = left;
  as_f64 = right;
  of_i64 = λ i. inl i;
  of_f64 = λ f. some (inr f);
  items = λ a. read_all (length a) a;
  of_items = write_all;
  get = lookup;
  single = named;
  from_str = value_of;
  to_string = text_of;
}

visible : (s : Bytes) → is_blank_text (99 ∷ s) ≡ false
unfolding is_blank_text
visible [] = refl
visible (b ∷ []) = refl
visible (b ∷ b' ∷ s) = refl

paper-IsSerde : IsSerde paper
unfolding value_of text_of
paper-IsSerde = record {
  as-of_i64 = λ i. refl;
  float = λ f n e. float_lem f n e;
  items-of_items = λ l. read_all-write_all (length (write_all l)) l (enough l);
  get-single = lookup-named;
  from_str-to_string = λ l plain. ap (λ x. some x) (read-write (array (write_all l)));
  not_blank = λ l. visible (write (array (write_all l)));
}
  where
    float_lem : (f : ℕ) (n : Number) → some (inr f) ≡ some n → (left n ≡ none) × (right n ≡ some f)
    float_lem f (inl i) e = absurd (cc)
    float_lem f (inr g) e = (refl, ground arith)

abbrev row : List SqlValue
row = text (codes "hi") ∷ int 7 ∷ blob (1 ∷ 2 ∷ []) ∷ []

parse_params_lem_example :
    (json_to_values toy paper (map (value_to_json toy paper) row) ≡ done (map (carried paper) row))
    × ((any is_real row ≡ true)
        ⊎ (parse_params toy paper
              (paper.to_string (array (paper.of_items (map (value_to_json toy paper) row))))
            ≡ done row))
parse_params_lem_example = parse_params_lem toy paper row toy-Lawful paper-IsSerde
