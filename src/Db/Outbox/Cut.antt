-- ===== src/Db/Outbox/Cut.antt =====
-- What is left of the outbox once a page of it has been marked.
use mathlib.Core.List.{reverse}
use orgsync.Base.{
  ℕ, zero, suc, ◌≤◌, ◌≡◌, refl, sym, ap, ◌∙◌, true, false, [], ◌∷◌, Bytes, keep, take, drop, max, ℤ,
  pos, negsuc, arith, nat_ord, list_ord,
}
use orgsync.Db.Tables.{ChangeRow}
use orgsync.Db.Outbox.{is_past, is_unsent, high}
use orgsync.Db.Outbox.Span.{Log, Rising, picked, keep-reverse}

-- Past the one mark is past the other.
abbrev Beyond : ℤ → ℤ → Type 0
Beyond v w = (seq : ℕ) → is_past v seq ≡ true → is_past w seq ≡ true

Beyond-max : (w seq : ℕ) → Beyond (pos (max w seq)) (pos w)
unfolding is_past
Beyond-max w seq n h = ground arith

Beyond-negsuc : (v : ℤ) (w : ℕ) → Beyond v (negsuc w)
unfolding is_past
Beyond-negsuc v w n h = refl

pub Beyond-high : (w : ℤ) (rows : Log) → Beyond (high w rows) w
unfolding high
Beyond-high w [] n h = h
Beyond-high (pos w) ((seq, row) ∷ rows) n h =
    Beyond-max w seq n (Beyond-high (pos (max w seq)) rows n h)
Beyond-high (negsuc w) ((seq, row) ∷ rows) n h = Beyond-negsuc (high (pos seq) rows) w n h

not_past-high : (m n : ℕ) (rows : Log) → m ≤ n → is_past (high (pos n) rows) m ≡ false
unfolding high is_past
not_past-high m n [] h = ground arith
not_past-high m n ((seq, row) ∷ rows) h = not_past-high m (max n seq) rows (omega arith)

Beyond-past : (w : ℤ) (seq : ℕ) → is_past w seq ≡ true → Beyond (pos seq) w
unfolding is_past
Beyond-past (pos w) seq h n k = ground arith
Beyond-past (negsuc w) seq h n k = refl

-- Everything that rises past a mark is past it.
keep-Rising :
    (v w : ℤ) (l : Log)
    → Beyond w v
    → Rising w l
    → keep (λ (e : ℕ × ChangeRow). is_past v e.0) l ≡ l
unfolding keep
keep-Rising v w [] over r = refl
keep-Rising v w (e ∷ l) over (first, r) =
    let here : is_past v e.0 ≡ true = over e.0 first in
    rw here
      (ap (λ t. e ∷ t) (keep-Rising v (pos e.0) l (λ n h. over n (Beyond-past w e.0 first n h)) r))

pub high_first :
    (w : ℤ) (e : ℕ × ChangeRow) (rows : Log)
    → is_past w e.0 ≡ true
    → high w (e ∷ rows) ≡ high (pos e.0) rows
unfolding high is_past
high_first (pos w) (seq, row) rows h =
    let top : max w seq ≡ seq = ground arith in ap (λ n. high (pos n) rows) top
high_first (negsuc w) (seq, row) rows h = refl

keep_passed :
    (v : ℤ) (e : ℕ × ChangeRow) (l : Log)
    → is_past v e.0 ≡ false
    → keep (λ (x : ℕ × ChangeRow). is_past v x.0) (e ∷ l)
      ≡ keep (λ (x : ℕ × ChangeRow). is_past v x.0) l
unfolding keep
keep_passed v e l h = rw h

-- Of a rising list exactly the first `k` are up to the greatest number among them.
keep-high :
    (w : ℤ) (k : ℕ) (l : Log)
    → Rising w l
    → keep (λ (e : ℕ × ChangeRow). is_past (high w (take k l)) e.0) l ≡ drop k l
unfolding keep high
keep-high w zero l r = keep-Rising w w l (λ n h. h) r
keep-high w (suc k) [] r = refl
keep-high w (suc k) (e ∷ l) (first, r) =
    ap (λ v. keep (λ (x : ℕ × ChangeRow). is_past v x.0) (e ∷ l)) (high_first w e (take k l) first)
    ∙ keep_passed (high (pos e.0) (take k l)) e l (not_past-high e.0 e.0 (take k l) (omega arith))
    ∙ keep-high (pos e.0) k l r

keep-unsent :
    (device : Bytes) (v w : ℤ) (l : Log)
    → Beyond v w
    → keep (is_unsent device v) l
      ≡ keep (λ (e : ℕ × ChangeRow). is_past v e.0) (keep (is_unsent device w) l)
unfolding keep is_unsent
keep-unsent device v w [] over = refl
keep-unsent device v w (e ∷ l) over = ground (arith, keep-unsent device v w l over, over e.0)

-- Once the first `limit` rows of the outbox are marked, the outbox is the rest.
pub picked-high :
    (device : Bytes) (w : ℤ) (limit : ℕ) (l : Log)
    → Rising w (picked (is_unsent device w) l)
    → picked (is_unsent device (high w (take limit (picked (is_unsent device w) l)))) l
      ≡ drop limit (picked (is_unsent device w) l)
picked-high device w limit l r =
    let p = picked (is_unsent device w) l in
    let top = high w (take limit p) in
    ap reverse (keep-unsent device top w l (Beyond-high w (take limit p)))
    ∙ sym (keep-reverse (λ (e : ℕ × ChangeRow). is_past top e.0) (keep (is_unsent device w) l))
    ∙ keep-high w limit p r
