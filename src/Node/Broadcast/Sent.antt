-- ===== src/Node/Broadcast/Sent.antt =====
-- What a broadcast sends: the changes in pieces, all of them, to everybody.
use mathlib.Core.List.{append_assoc, append-nil}
use orgsync.Base.{
  ℕ, zero, suc, ◌≤◌, ◌<◌, ◌≡◌, refl, sym, subst, ap, ap₂, ◌∙◌, ◌⊎◌, inl, inr, List, [], ◌∷◌, ◌++◌,
  Bytes, Memᴰ, take, drop, length, length-take-le, length-drop-le, take-drop, arith, nat_ord,
  list_ord,
}
use mathlib.Core.List.Memᴰ
use orgsync.Change.{ChangeRecord}
use orgsync.Node.{
  Runtime, Req, Effect, send, try_publish, local_changes, failed, push, disconnect, peer_connected,
  peer_disconnected, peer_rejected, synced,
}
use orgsync.Node.Broadcast.{
  chunks_from, chunks, send_chunk, send_chunks, replicating, broadcast, max_push_changes,
}

-- The changes that are tried to be published, in their order.
unfoldable pub tried : List Effect → List ChangeRecord
tried [] = []
tried (try_publish changes ∷ out) = changes ++ tried out
tried (send peer req ∷ out) = tried out
tried (disconnect peer ∷ out) = tried out
tried (peer_connected peer ∷ out) = tried out
tried (peer_disconnected peer ∷ out) = tried out
tried (peer_rejected peer ∷ out) = tried out
tried (synced peer applied tables ∷ out) = tried out
tried (local_changes count ∷ out) = tried out
tried (failed ∷ out) = tried out

pub tried-append : (out more : List Effect) → tried (out ++ more) ≡ tried out ++ tried more
unfolding tried
tried-append [] more = refl
tried-append (try_publish changes ∷ out) more =
    ap (λ l. changes ++ l) (tried-append out more)
    ∙ sym (append_assoc changes (tried out) (tried more))
tried-append (send peer req ∷ out) more = tried-append out more
tried-append (disconnect peer ∷ out) more = tried-append out more
tried-append (peer_connected peer ∷ out) more = tried-append out more
tried-append (peer_disconnected peer ∷ out) more = tried-append out more
tried-append (peer_rejected peer ∷ out) more = tried-append out more
tried-append (synced peer applied tables ∷ out) more = tried-append out more
tried-append (local_changes count ∷ out) more = tried-append out more
tried-append (failed ∷ out) more = tried-append out more

concat : List (List ChangeRecord) → List ChangeRecord
concat [] = []
concat (chunk ∷ rest) = chunk ++ concat rest

tried-send_chunk :
    (peers : List Bytes) (chunk : List ChangeRecord) → tried (send_chunk peers chunk) ≡ chunk
unfolding tried send_chunk
tried-send_chunk [] chunk = append-nil chunk
tried-send_chunk (peer ∷ peers) chunk = tried-send_chunk peers chunk

tried-send_chunks :
    (peers : List Bytes) (cs : List (List ChangeRecord)) → tried (send_chunks peers cs) ≡ concat cs
unfolding tried send_chunks concat
tried-send_chunks peers [] = refl
tried-send_chunks peers (chunk ∷ cs) =
    tried-append (send_chunk peers chunk) (send_chunks peers cs)
    ∙ ap₂ ◌++◌ (tried-send_chunk peers chunk) (tried-send_chunks peers cs)

-- As many rounds as there are changes are enough.
concat-chunks_from :
    (fuel size : ℕ) (l : List ChangeRecord)
    → length l ≤ fuel
    → concat (chunks_from fuel (suc size) l) ≡ l
unfolding concat chunks_from
concat-chunks_from zero size [] h = refl
concat-chunks_from zero size (c ∷ l) h = absurd (omega arith)
concat-chunks_from (suc fuel) size [] h = refl
concat-chunks_from (suc fuel) size (c ∷ l) h =
    ap (λ r. c ∷ (take size l ++ r))
      (concat-chunks_from fuel size (drop size l) (omega (arith, length-drop-le size l)))
    ∙ ap (λ r. c ∷ r) (take-drop size l)

-- No piece is empty or too long.
chunk_length :
    (fuel size : ℕ) (l : List ChangeRecord) {chunk : List ChangeRecord}
    → Memᴰ chunk (chunks_from fuel (suc size) l)
    → (0 < length chunk) × (length chunk ≤ suc size)
unfolding chunks_from
chunk_length zero size l m = elim m [ ]
chunk_length (suc fuel) size [] m = elim m [ ]
chunk_length (suc fuel) size (c ∷ l) {chunk} m = elim (Memᴰ.cases_cons m) [
  | inl e ↦
      let at : length chunk ≡ suc (length (take size l)) = ap length e in
      (omega arith, omega (arith, length-take-le size l))
  | inr t ↦ chunk_length fuel size (drop size l) t
]

mem-send_chunk :
    (peers : List Bytes) (chunk : List ChangeRecord) {e : Effect}
    → Memᴰ e (send_chunk peers chunk)
    → (e ≡ try_publish chunk) ⊎ ((peer : Bytes) × Memᴰ peer peers × (e ≡ send peer (push chunk)))
unfolding send_chunk
mem-send_chunk [] chunk m = elim (Memᴰ.cases_cons m) [ inl e ↦ inl e | inr t ↦ elim t [ ] ]
mem-send_chunk (peer ∷ peers) chunk m = elim (Memᴰ.cases_cons m) [
  | inl e ↦ inr (peer, Memᴰ.head refl, e)
  | inr t ↦ elim (mem-send_chunk peers chunk t) [
    | inl e ↦ inl e
    | inr (p, mp, e) ↦ inr (p, Memᴰ.tail mp, e)
  ]
]

mem-send_chunk_intro :
    (peers : List Bytes) (chunk : List ChangeRecord) {peer : Bytes}
    → Memᴰ peer peers
    → Memᴰ (send peer (push chunk)) (send_chunk peers chunk)
unfolding send_chunk
mem-send_chunk_intro [] chunk m = elim m [ ]
mem-send_chunk_intro (p ∷ peers) chunk (Memᴰ.head e) = Memᴰ.head (ap (λ k. send k (push chunk)) e)
mem-send_chunk_intro (p ∷ peers) chunk (Memᴰ.tail m) =
    Memᴰ.tail (mem-send_chunk_intro peers chunk m)

mem-send_chunks :
    (peers : List Bytes) (cs : List (List ChangeRecord)) {e : Effect}
    → Memᴰ e (send_chunks peers cs)
    → (chunk : List ChangeRecord) × Memᴰ chunk cs × Memᴰ e (send_chunk peers chunk)
unfolding send_chunks
mem-send_chunks peers [] m = elim m [ ]
mem-send_chunks peers (chunk ∷ cs) m = elim (Memᴰ.append_cases (send_chunk peers chunk) m) [
  | inl here ↦ (chunk, Memᴰ.head refl, here)
  | inr there ↦ let (c, mc, me) = mem-send_chunks peers cs there in (c, Memᴰ.tail mc, me)
]

mem-send_chunks_intro :
    (peers : List Bytes) (cs : List (List ChangeRecord)) {chunk : List ChangeRecord} {e : Effect}
    → Memᴰ chunk cs
    → Memᴰ e (send_chunk peers chunk)
    → Memᴰ e (send_chunks peers cs)
unfolding send_chunks
mem-send_chunks_intro peers [] mc m = elim mc [ ]
mem-send_chunks_intro peers (c ∷ cs) {chunk} {e} (Memᴰ.head same) m =
    Memᴰ.append_left (send_chunks peers cs) (subst (λ k. Memᴰ e (send_chunk peers k)) same m)
mem-send_chunks_intro peers (c ∷ cs) (Memᴰ.tail mc) m =
    Memᴰ.append_right (send_chunk peers c) (mem-send_chunks_intro peers cs mc m)

chunk_of_publish : Effect → List ChangeRecord
chunk_of_publish (try_publish changes) = changes
chunk_of_publish other = []

pushed_peer : Effect → Bytes
pushed_peer (send peer req) = peer
pushed_peer other = []

-- A broadcast tries to publish exactly the given changes in their order, in pieces of 1 to 200; each piece
-- is also pushed to every peer that is let in and holds data, and nothing is pushed to any other.
pub broadcast_lem :
    {App : Type 0} (n : Runtime App) (changes : List ChangeRecord)
    → (tried (broadcast n changes) ≡ changes)
      × ((chunk : List ChangeRecord)
          → Memᴰ (try_publish chunk) (broadcast n changes)
          → (0 < length chunk)
            × (length chunk ≤ max_push_changes)
            × ((peer : Bytes)
                → Memᴰ peer (replicating n.authed)
                → Memᴰ (send peer (push chunk)) (broadcast n changes)))
      × ((peer : Bytes) (req : Req)
          → Memᴰ (send peer req) (broadcast n changes)
          → Memᴰ peer (replicating n.authed))
unfolding broadcast chunks chunk_of_publish pushed_peer
broadcast_lem n changes =
    let peers = replicating n.authed in
    let cs = chunks_from (length changes) 200 changes in
    (
      tried-send_chunks peers cs ∙ concat-chunks_from (length changes) 199 changes (omega arith),
      λ chunk m.
          let (c, mc, me) = mem-send_chunks peers cs m in
          let same : chunk ≡ c = elim (mem-send_chunk peers c me) [
            | inl e ↦ ap chunk_of_publish e
            | inr (p, _, e) ↦ absurd (cc)
          ] in
          let at : Memᴰ chunk cs = Memᴰ.cast same mc in
          let (some_there, fits) = chunk_length (length changes) 199 changes at in
          (
            some_there,
            fits,
            λ peer mp. mem-send_chunks_intro peers cs at (mem-send_chunk_intro peers chunk mp),
          ),
      λ peer req m.
          let (c, mc, me) = mem-send_chunks peers cs m in
          elim (mem-send_chunk peers c me) [
            | inl e ↦ absurd (cc)
            | inr (p, mp, e) ↦ Memᴰ.cast (ap pushed_peer e) mp
          ],
    )
