-- ===== src/Dhcp4/FirstAck.antt =====
-- Which packet the loop of dhcpRequest for the DHCPACK takes.
use rout.Base.{
  ℕ, ◌==◌, ◌≡◌, ◌≢◌, ◌⊎◌, inl, inr, refl, ap, Bool-cases, true, false, List, [], ◌∷◌, ◌++◌, All,
  arith,
}
use rout.Dhcp4.Client.{
  DhcpLibrary, Error, Packet, Read, Result, ack, await_ack, err, nak, not_dhcp, ok, read_error,
  received,
}

module _ (lib : DhcpLibrary) (xid : ℕ) where
  -- What the loop for an ACK passes over: no DHCPv4, another transaction, or neither ACK nor NAK.
  abbrev pub Ignored : Read → Type 0
  Ignored (read_error e) = ⊥
  Ignored not_dhcp = Unit
  Ignored (received p) =
      (p.xid ≢ xid)
      ⊎ ((lib.has_message_type p.options ack ≡ false)
          × (lib.has_message_type p.options nak ≡ false))

  -- The statement of the next lemma, for one list of reads.
  abbrev pub FirstAck : List Read → Packet → Type 0
  FirstAck reads p =
      (before : List Read) × (after : List Read) × (reads ≡ before ++ (received p ∷ after))
      × All Ignored before
      × (p.xid ≡ xid)
      × (lib.has_message_type p.options ack ≡ true)

  pass :
      (r : Read) (rest : List Read) (p : Packet)
      → Ignored r
      → FirstAck rest p
      → FirstAck (r ∷ rest) p
  pass r rest p skip (before, after, e, all, x, t) =
      (r ∷ before, after, ap (◌∷◌ r) e, (skip, all), x, t)

  -- An accepted ACK is the first read that is not passed over.
  pub await_ack-first :
      (reads : List Read) (p : Packet) → await_ack lib xid reads ≡ ok p → FirstAck reads p
  unfolding await_ack
  await_ack-first [] p e = cc
  await_ack-first (read_error x ∷ rest) p e = cc
  await_ack-first (not_dhcp ∷ rest) p e = pass not_dhcp rest p tt (await_ack-first rest p e)
  await_ack-first (received q ∷ rest) p e =
      let next = await_ack-first rest p in
      elim (Bool-cases (q.xid == xid)) [
        | inr other ↦ pass (received q) rest p (inl (ground arith)) (next (ground arith))
        | inl mine ↦ elim (Bool-cases (lib.has_message_type q.options ack)) [
          | inl good ↦
              let same : q ≡ p = ground arith in
              ([], rest, rw same, tt, ground arith, rw (← same) good)
          | inr no_ack ↦ elim (Bool-cases (lib.has_message_type q.options nak)) [
            | inl refused ↦ absurd (ground arith)
            | inr neither ↦ pass (received q) rest p (inr (no_ack, neither)) (next (ground arith))
          ]
        ]
      ]

pub Result-cases {ℓ} :
    {A : Type ℓ} (r : Result A) → ((a : A) × (r ≡ ok a)) ⊎ ((e : Error) × (r ≡ err e))
Result-cases (ok a) = inl (a, refl)
Result-cases (err e) = inr (e, refl)
