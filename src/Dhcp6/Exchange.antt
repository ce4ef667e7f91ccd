-- ===== src/Dhcp6/Exchange.antt =====
-- What `ObtainOrRenew` accepts, and what it leaves behind.
use rout.Base.{
  ℕ, ◌==◌, ◌≡◌, ◌≢◌, ◌⊎◌, inl, inr, refl, ap, Bool-cases, Option-cases, true, false, List, [], ◌∷◌,
  ◌++◌, some, All, arith,
}
use rout.Dhcp6.Client.{
  MessageType, Message, DhcpLibrary, Client, Read, read_error, non_dhcp, received, Network,
  expected_type, is_expected, await, send_receive, take_id, add_iapd, empty_iapd, one_iapd,
  Exchanged, solicit_server, with_iapd, request_lease,
}

module _ (xid : ℕ) (expected : MessageType) where
  -- What `sendReceive` passes over: no DHCPv6, another transaction, or another type.
  abbrev pub Skipped : Read → Type 0
  Skipped (read_error e) = ⊥
  Skipped non_dhcp = Unit
  Skipped (received m) = (m.transaction_id ≢ xid) ⊎ (is_expected expected m ≡ false)

  -- The message is the first of the reads that is not passed over.
  abbrev pub FirstReply : List Read → Message → Type 0
  FirstReply reads m =
      (before : List Read) × (after : List Read) × (reads ≡ before ++ (received m ∷ after))
      × All Skipped before
      × (m.transaction_id ≡ xid)
      × (is_expected expected m ≡ true)

  pass :
      (r : Read) (rest : List Read) (m : Message)
      → Skipped r
      → FirstReply rest m
      → FirstReply (r ∷ rest) m
  pass r rest m skip (before, after, e, all, x, t) =
      (r ∷ before, after, ap (◌∷◌ r) e, (skip, all), x, t)

  await-first :
      (reads : List Read) (m : Message) → await xid expected reads ≡ inl m → FirstReply reads m
  unfolding await
  await-first [] m e = cc
  await-first (read_error x ∷ rest) m e = cc
  await-first (non_dhcp ∷ rest) m e = pass non_dhcp rest m tt (await-first rest m e)
  await-first (received q ∷ rest) m e =
      let next = await-first rest m in
      elim (Bool-cases (xid == q.transaction_id)) [
        | inr other ↦ pass (received q) rest m (inl (ground arith)) (next (ground arith))
        | inl mine ↦ elim (Bool-cases (is_expected expected q)) [
          | inr another ↦ pass (received q) rest m (inr another) (next (rw (mine, another) at e))
          | inl good ↦
              let same : q ≡ m = cc in
              ([], rest, rw same refl, tt, rw (← same) (ground arith), rw (← same) good)
        ]
      ]

pub Sum-cases {ℓ κ} :
    {A : Type ℓ} {B : Type κ} (s : A ⊎ B) → ((a : A) × (s ≡ inl a)) ⊎ ((b : B) × (s ≡ inr b))
Sum-cases (inl a) = inl (a, refl)
Sum-cases (inr b) = inr (b, refl)

List-cases {ℓ} :
    {A : Type ℓ} (xs : List A) → (xs ≡ []) ⊎ ((a : A) × (rest : List A) × (xs ≡ a ∷ rest))
List-cases [] = inl refl
List-cases (a ∷ rest) = inr (a, rest, refl)

send_receive-first :
    (packet m : Message) (n : Network)
    → send_receive packet n ≡ inl m
    → FirstReply packet.transaction_id (expected_type packet.message_type) n.arriving m
unfolding send_receive
send_receive-first packet m n e = elim (Option-cases n.write_error) [
  | inr (x, bad) ↦ absurd (ground arith)
  | inl fine ↦
      await-first packet.transaction_id (expected_type packet.message_type) n.arriving m
        (rw fine at e)
]

-- The message `m` is the first answer to what the exchange `x` sent.
abbrev pub Answers : Exchanged → Network → Message → Type 0
Answers x n m =
    (p : Message) × (x.sent ≡ some p)
    × FirstReply p.transaction_id (expected_type p.message_type) n.arriving m

-- An exchange changes no field of the client but its transaction ids.
abbrev pub Keeps : Client → Client → Type 0
Keeps c c' = (c'.cfg ≡ c.cfg) × (c'.err ≡ c.err) × (c'.advertise ≡ c.advertise)

take_id-Keeps : (c : Client) (m : Message) → Keeps c (take_id c m).0
unfolding take_id
take_id-Keeps c m = elim (List-cases c.transaction_ids) [
  | inl empty ↦ rw (empty, take_id) (refl, refl, refl)
  | inr (id, ids, more) ↦ rw (more, take_id) (refl, refl, refl)
]

module _ (lib : DhcpLibrary) where
  pub solicit_server-Keeps : (c : Client) (n : Network) → Keeps c (solicit_server lib c n).client
  unfolding solicit_server
  solicit_server-Keeps c n = elim (Sum-cases lib.new_solicit) [
    | inr (e, bad) ↦ rw bad (refl, refl, refl)
    | inl (m, made) ↦ rw made (take_id-Keeps c m)
  ]

  pub request_lease-Keeps :
      (c : Client) (adv : Message) (n : Network) → Keeps c (request_lease lib c adv n).client
  unfolding request_lease
  request_lease-Keeps c adv n = elim (Sum-cases (lib.new_request_from_advertise (some adv))) [
    | inr (e, bad) ↦ rw (bad, request_lease) (refl, refl, refl)
    | inl (m, made) ↦ rw (made, request_lease) (take_id-Keeps c (with_iapd lib m (one_iapd adv)))
  ]

  pub solicit_server-Answers :
      (c : Client) (n : Network) (m : Message)
      → (solicit_server lib c n).result ≡ inl m
      → Answers (solicit_server lib c n) n m
  unfolding solicit_server
  solicit_server-Answers c n m e = elim (Sum-cases lib.new_solicit) [
    | inr (x, bad) ↦ absurd (ground arith)
    | inl (p, made) ↦
        let q = add_iapd (take_id c p).1 empty_iapd in
        rw made (q, refl, send_receive-first q m n (rw made at e))
  ]

  pub request_lease-Answers :
      (c : Client) (adv : Message) (n : Network) (m : Message)
      → (request_lease lib c adv n).result ≡ inl m
      → Answers (request_lease lib c adv n) n m
  unfolding request_lease
  request_lease-Answers c adv n m e = elim (Sum-cases (lib.new_request_from_advertise (some adv))) [
    | inr (x, bad) ↦ absurd (ground arith)
    | inl (p, made) ↦
        let q = (take_id c (with_iapd lib p (one_iapd adv))).1 in
        rw (made, request_lease) (q, refl, send_receive-first q m n (rw (made, request_lease) at e))
  ]
