-- ===== src/Seed/Token.antt =====
-- Invite codes: how they are drawn, shown, and read back.
use orgsync.Base.{
  ℕ, zero, suc, ◌%◌, ◌<◌, ◌≡◌, refl, ◌∙◌, Bool, true, [], ◌∷◌, Bytes, codes, length, map, ◌&&◌,
  ◌||◌, arith,
}
use orgsync.Enroll.{is_digit, is_upper, normalize_invite_code}

-- Typed easily: without I, L, O, U, 0 and 1.
abbrev pub token_alphabet : Bytes
token_alphabet = codes "23456789ABCDEFGHJKMNPQRSTVWXYZ"

abbrev pub nth : ℕ → Bytes → ℕ
nth n [] = 0
nth zero (b ∷ l) = b
nth (suc n) (b ∷ l) = nth n l

-- The bytes that the random generator gives.
unfoldable pub random_token : Bytes → Bytes
random_token raw = map (λ b. nth (b % 30) token_alphabet) raw

-- `chunks(5)` joined by dashes: a dash stands in front of each block but the first. The counter is
-- the room that is left in the block.
unfoldable pub grouped : ℕ → Bytes → Bytes
grouped room [] = []
grouped zero (b ∷ token) = b'-' ∷ b ∷ grouped 4 token
grouped (suc room) (b ∷ token) = b ∷ grouped room token

unfoldable pub invite_code_display : Bytes → Bytes
unfolding grouped
invite_code_display token = grouped 5 token

abbrev is_canonical : ℕ → Bool
is_canonical b = is_digit b || is_upper b

abbrev all_canonical : Bytes → Bool
all_canonical [] = true
all_canonical (b ∷ l) = is_canonical b && all_canonical l

nth-canonical :
    (n : ℕ) (l : Bytes) → n < length l → all_canonical l ≡ true → is_canonical (nth n l) ≡ true
nth-canonical n [] h all = absurd (omega arith)
nth-canonical zero (b ∷ l) h all = ground arith
nth-canonical (suc n) (b ∷ l) h all = nth-canonical n l (omega arith) (ground arith)

random_token-canonical : (raw : Bytes) → all_canonical (random_token raw) ≡ true
unfolding random_token
random_token-canonical [] = refl
random_token-canonical (b ∷ raw) =
    let one = nth-canonical (b % 30) token_alphabet (omega arith) refl in
    ground (arith, one, random_token-canonical raw)

normalize-canonical : (t : Bytes) → all_canonical t ≡ true → normalize_invite_code t ≡ t
unfolding normalize_invite_code
normalize-canonical [] h = refl
normalize-canonical (b ∷ t) h = ground (arith, normalize-canonical t)

normalize-grouped :
    (room : ℕ) (t : Bytes) → normalize_invite_code (grouped room t) ≡ normalize_invite_code t
unfolding normalize_invite_code grouped
normalize-grouped room [] = refl
normalize-grouped zero (b ∷ t) = ground (arith, normalize-grouped 4 t)
normalize-grouped (suc room) (b ∷ t) = ground (arith, normalize-grouped room t)

-- A code that is drawn and shown in groups is read back as the code that is stored.
pub normalize-display :
    (raw : Bytes)
    → (normalize_invite_code (invite_code_display (random_token raw)) ≡ random_token raw)
      × (normalize_invite_code (random_token raw) ≡ random_token raw)
unfolding invite_code_display
normalize-display raw =
    let read = normalize-canonical (random_token raw) (random_token-canonical raw) in
    (normalize-grouped 5 (random_token raw) ∙ read, read)
