-- ===== src/Seed/Main/Announced.antt =====
-- The addresses that the server hands to devices.
use orgsync.Base.{
  ℕ, ◌≡◌, refl, sym, ap, ◌∙◌, subst, Bool, true, false, ◌⊎◌, inl, inr, Option, List, [], ◌∷◌, ◌++◌,
  Bytes, codes, Memᴰ, any, mem_of_any, Bool-cases, ◌==◌, ==_iff, print_nat, arith, nat_ord,
  list_ord,
}
use mathlib.Core.List.Memᴰ
use mathlib.Core.List.{append_assoc, append-nil}
use orgsync.Seed.Main.Marks.{IsMarkedLocal, advertisable_apart, marked_or_advertisable}
use orgsync.Seed.Main.{
  IpAddr, has_text, starts_with_slash, p2p_part, prefix_of, announce, announce_addrs,
  is_advertisable, learn, learn_all,
}

-- The address ends in the peer's part, as a device wants of one that it dials at the start.
abbrev pub IsEndingIn : Bytes → Bytes → Type 0
IsEndingIn peer_id addr = (base : Bytes) × (addr ≡ base ++ (p2p_part ++ peer_id))

-- It does, or the operator has given it whole, with a peer in it.
abbrev pub IsNamed : List Bytes → Bytes → Bytes → Type 0
IsNamed hosts peer_id addr =
    IsEndingIn peer_id addr ⊎ (Memᴰ addr hosts × (has_text p2p_part addr ≡ true))

abbrev pub IsDistinct : List Bytes → Type 0
IsDistinct [] = Unit {0}
IsDistinct (x ∷ l) = (any (λ (b : Bytes). b == x) l ≡ false) × IsDistinct l

-- What a list of addresses has become.
pub record IsExtended (start now heard : List Bytes) : Type 0 where
  pub learned : List Bytes
  pub split : now ≡ start ++ learned
  pub sound : (x : Bytes) → Memᴰ x learned → ¬ IsMarkedLocal x × Memᴰ x heard × ¬ Memᴰ x start
  pub distinct : IsDistinct learned
  pub complete : (x : Bytes) → Memᴰ x heard → IsMarkedLocal x ⊎ Memᴰ x now

-- The same by the test of the code.
record IsLearned (start now heard : List Bytes) : Type 0 where
  pub learned : List Bytes
  pub split : now ≡ start ++ learned
  pub sound :
      (x : Bytes)
      → Memᴰ x learned
      → (is_advertisable x ≡ true) × Memᴰ x heard × (any (λ (b : Bytes). b == x) start ≡ false)
  pub distinct : IsDistinct learned
  pub complete : (x : Bytes) → Memᴰ x heard → is_advertisable x ≡ true → Memᴰ x now

abbrev holds : Bytes → List Bytes → Bool
holds x l = any (λ (b : Bytes). b == x) l

holds_before :
    (x y : Bytes) (l : List Bytes)
    → holds x (l ++ (y ∷ [])) ≡ false
    → (holds x l ≡ false) × ((y == x) ≡ false)
unfolding any
holds_before x y [] h = (refl, ground arith)
holds_before x y (z ∷ l) h = elim (Bool-cases (z == x)) [
  | inl same ↦ let bad : true ≡ false = rw same at h in absurd (cc)
  | inr other ↦ let rest = holds_before x y l (rw other at h) in (rw other rest.0, rest.1)
]

mem_of_holds : (x : Bytes) (l : List Bytes) → holds x l ≡ true → Memᴰ x l
mem_of_holds x l h =
    let (y, my, e) = mem_of_any (λ (b : Bytes). b == x) l h in Memᴰ.cast (sym ((==_iff y x).0 e)) my

-- None of the addresses is this one.
holds_none :
    (x : Bytes) (l : List Bytes) → ((y : Bytes) → Memᴰ y l → (x == y) ≡ false) → holds x l ≡ false
unfolding any
holds_none x [] apart = refl
holds_none x (y ∷ l) apart = elim (Bool-cases (y == x)) [
  | inl same ↦
      let here : (x == y) ≡ true = (==_iff x y).1 (sym ((==_iff y x).0 same)) in
      absurd (cc (here, apart y (Memᴰ.head refl)))
  | inr other ↦ rw other (holds_none x l (λ z m. apart z (Memᴰ.tail m)))
]

unchanged :
    (b : List Bytes) (a : Bytes) (addrs now : List Bytes)
    → (is_advertisable a ≡ true → Memᴰ a b)
    → IsLearned b now addrs
    → IsLearned b now (a ∷ addrs)
unchanged b a addrs now there e = record {
  learned = e.learned;
  split = e.split;
  sound = λ x m. let (good, heard, new) = e.sound x m in (good, Memᴰ.tail heard, new);
  distinct = e.distinct;
  complete = λ x m good. elim (Memᴰ.cases_cons m) [
    | inl same ↦
        let held = there (ap is_advertisable (sym same) ∙ good) in
        subst (λ l. Memᴰ x l) (sym e.split) (Memᴰ.append_left e.learned (Memᴰ.cast same held))
    | inr later ↦ e.complete x later good
  ];
}

added :
    (b : List Bytes) (a : Bytes) (addrs now : List Bytes)
    → is_advertisable a ≡ true
    → holds a b ≡ false
    → IsLearned (b ++ (a ∷ [])) now addrs
    → IsLearned b now (a ∷ addrs)
added b a addrs now good new e =
    let split : now ≡ b ++ (a ∷ e.learned) = e.split ∙ append_assoc b (a ∷ []) e.learned in
    record {
      learned = a ∷ e.learned;
      split = split;
      sound = λ x m. elim (Memᴰ.cases_cons m) [
        | inl same ↦
            (ap is_advertisable same ∙ good, Memᴰ.head same, ap (λ y. holds y b) same ∙ new)
        | inr later ↦
            let (fine, heard, fresh) = e.sound x later in
            (fine, Memᴰ.tail heard, (holds_before x a b fresh).0)
      ];
      distinct =
          (holds_none a e.learned (λ y m. (holds_before y a b ((e.sound y m).2)).1), e.distinct);
      complete = λ x m fine. elim (Memᴰ.cases_cons m) [
        | inl same ↦ subst (λ l. Memᴰ x l) (sym split) (Memᴰ.append_right b (Memᴰ.head same))
        | inr later ↦ e.complete x later fine
      ];
    }

learn_all-IsLearned : (b addrs : List Bytes) → IsLearned b (learn_all b addrs) addrs
unfolding learn_all learn
learn_all-IsLearned b [] = record {
  learned = [];
  split = sym (append-nil b);
  sound = λ x m. elim m [ ];
  distinct = tt;
  complete = λ x m good. elim m [ ];
}
learn_all-IsLearned b (a ∷ addrs) = elim (Bool-cases (is_advertisable a)) [
  | inr useless ↦ rw useless (
      unchanged b a addrs (learn_all b addrs) (λ good. absurd (cc (good, useless)))
        (learn_all-IsLearned b addrs))
  | inl good ↦ elim (Bool-cases (holds a b)) [
    | inl there ↦
        rw (good, there)
          (unchanged b a addrs (learn_all b addrs) (λ g. mem_of_holds a b there)
            (learn_all-IsLearned b addrs))
    | inr new ↦
        rw (good, new)
          (added b a addrs (learn_all (b ++ (a ∷ [])) addrs) good new
            (learn_all-IsLearned (b ++ (a ∷ [])) addrs))
  ]
]

holds_of_mem : (x : Bytes) (l : List Bytes) → Memᴰ x l → holds x l ≡ true
unfolding any
holds_of_mem x [] m = elim m [ ]
holds_of_mem x (y ∷ l) m = elim (Bool-cases (y == x)) [
  | inl same ↦ rw same refl
  | inr other ↦ elim (Memᴰ.cases_cons m) [
    | inl here ↦ absurd (cc ((==_iff y x).1 (sym here), other))
    | inr later ↦ rw other (holds_of_mem x l later)
  ]
]

IsLearned-IsExtended :
    (start now heard : List Bytes) → IsLearned start now heard → IsExtended start now heard
IsLearned-IsExtended start now heard e = record {
  learned = e.learned;
  split = e.split;
  sound = λ x m.
      let (good, there, new) = e.sound x m in
      (advertisable_apart x good, there, λ old. absurd (cc (holds_of_mem x start old, new)));
  distinct = e.distinct;
  complete = λ x m. elim (marked_or_advertisable x) [
    | inl marked ↦ inl marked
    | inr good ↦ inr (e.complete x m good)
  ];
}

regroup3 : (a b d e : Bytes) → a ++ (b ++ (d ++ e)) ≡ (a ++ (b ++ d)) ++ e
regroup3 a b d e = sym (append_assoc a (b ++ d) e ∙ ap (λ l. a ++ l) (append_assoc b d e))

regroup4 : (a b d e f : Bytes) → a ++ (b ++ (d ++ (e ++ f))) ≡ (a ++ (b ++ (d ++ e))) ++ f
regroup4 a b d e f = ap (λ l. a ++ l) (regroup3 b d e f) ∙ sym (append_assoc a (b ++ (d ++ e)) f)

module _ (parse_ip : Bytes → Option IpAddr) (quic_port tcp_port : ℕ) (peer_id : Bytes) where
  announce-IsNamed :
      (host x : Bytes)
      → Memᴰ x (announce parse_ip quic_port tcp_port peer_id host)
      → IsEndingIn peer_id x ⊎ ((x ≡ host) × (has_text p2p_part host ≡ true))
  unfolding announce
  announce-IsNamed host x m = elim (Bool-cases (starts_with_slash host)) [
    | inl whole ↦ elim (Bool-cases (has_text p2p_part host)) [
      | inl named ↦ inr (Memᴰ.eq_of_singleton (rw (whole, named) at m), named)
      | inr bare ↦ inl (host, Memᴰ.eq_of_singleton (rw (whole, bare) at m))
    ]
    | inr name ↦
        let prefix = prefix_of host (parse_ip host) in
        elim (Memᴰ.cases_cons (rw name at m)) [
          | inl quic ↦ inl (
            prefix ++ (codes "/udp/" ++ (print_nat quic_port ++ codes "/quic-v1")),
            quic
                ∙ regroup4 prefix (codes "/udp/") (print_nat quic_port) (codes "/quic-v1")
                    (p2p_part ++ peer_id),
          )
          | inr rest ↦ inl (
            prefix ++ (codes "/tcp/" ++ print_nat tcp_port),
            Memᴰ.eq_of_singleton rest
                ∙ regroup3 prefix (codes "/tcp/") (print_nat tcp_port) (p2p_part ++ peer_id),
          )
        ]
  ]

  announce_addrs-IsNamed :
      (hosts : List Bytes) (x : Bytes)
      → Memᴰ x (announce_addrs parse_ip quic_port tcp_port peer_id hosts)
      → IsNamed hosts peer_id x
  unfolding announce_addrs
  announce_addrs-IsNamed [] x m = elim m [ ]
  announce_addrs-IsNamed (host ∷ hosts) x m =
      elim (Memᴰ.append_cases (announce parse_ip quic_port tcp_port peer_id host) m) [
        | inl here ↦ elim (announce-IsNamed host x here) [
          | inl ends ↦ inl ends
          | inr (same, named) ↦ inr (Memᴰ.head same, ap (has_text p2p_part) same ∙ named)
        ]
        | inr there ↦ elim (announce_addrs-IsNamed hosts x there) [
          | inl ends ↦ inl ends
          | inr (given, named) ↦ inr (Memᴰ.tail given, named)
        ]
      ]

  -- Whatever addresses the node listens on, each with its own peer id at the end: the addresses that
  -- the server hands out are the announced ones and behind them, each once, just those it has heard
  -- of that were not announced and that have none of "/ip4/127.", "/ip6/::1" and "/ip4/0.0.0.0" in
  -- them; and each of the addresses ends in the server's peer id, unless the operator has given it whole with a peer id in it.
  pub bootstrap_lem :
      (hosts heard : List Bytes)
      → ((x : Bytes) → Memᴰ x heard → IsEndingIn peer_id x)
      → let announced = announce_addrs parse_ip quic_port tcp_port peer_id hosts in
        IsExtended announced (learn_all announced heard) heard
        × ((x : Bytes) → Memᴰ x (learn_all announced heard) → IsNamed hosts peer_id x)
  bootstrap_lem hosts heard own =
      let announced = announce_addrs parse_ip quic_port tcp_port peer_id hosts in
      let e = learn_all-IsLearned announced heard in
      (
        IsLearned-IsExtended announced (learn_all announced heard) heard e,
        λ x m. elim (Memᴰ.append_cases announced (subst (λ l. Memᴰ x l) e.split m)) [
          | inl first ↦ announce_addrs-IsNamed hosts x first
          | inr later ↦ let (good, there, new) = e.sound x later in inl (own x there)
        ],
      )
