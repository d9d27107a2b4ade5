-- ===== src/Tests/Watching.antt =====
-- A terminal that prints messages as they arrive.
use orgsync.Base.{
  ℕ, ◌≡◌, refl, ◌⊎◌, false, some, [], ◌∷◌, Bytes, codes, Memᴰ, inl, inr, ap, ◌∙◌, any, keep, map,
  sort_by, insert_sorted, compare_list, ◌==◌, nat_ord, list_ord,
}
use mathlib.Core.List.Memᴰ
use orgsync.Value.{text}
use orgsync.Cli.{Message, Messages, line, in_order, last_id, print_new_messages}
use orgsync.Cli.Watched.{is_after, print_new_messages_lem}

abbrev said : Bytes → ℕ → Message
said body at = record { author_name = text (codes "ann"); body = text body; sent_at_ms = at }

-- The message "b" was printed, and then "a", of an earlier time, arrives.
abbrev chat : Messages
chat = (codes "b", said (codes "second") 20) ∷ (codes "a", said (codes "first") 10) ∷ []

abbrev no_f64 : ℕ → Bytes
no_f64 f = []

apart : (codes "a" == codes "b") ≡ false
unfolding compare_list
apart = refl

print_new_messages_lem_example :
    ((any (λ (x : Bytes × Message). x.0 == codes "b") chat ≡ false)
      × (print_new_messages no_f64 chat (some (codes "b")) ≡ ([], some (codes "b"))))
    ⊎ ((m : Bytes × Message) × Memᴰ m chat
        × (m.0 ≡ codes "b")
        × (print_new_messages no_f64 chat (some (codes "b")) ≡ (
          map (line no_f64) (keep (is_after m) (in_order chat)),
          last_id (some (codes "b")) (keep (is_after m) (in_order chat)),
        )))
print_new_messages_lem_example = print_new_messages_lem no_f64 chat (codes "b") (
  (λ x m. elim (Memᴰ.cases_cons m) [
    | inl e ↦ ap (λ (y : Bytes × Message). y.0 == codes "b") e ∙ apart
    | inr t ↦ elim t [ ]
  ]),
  ((λ x m. elim m [ ]), tt),
)

unprinted : print_new_messages no_f64 chat (some (codes "b")) ≡ ([], some (codes "b"))
unfolding print_new_messages sort_by insert_sorted compare_list
unprinted = refl
