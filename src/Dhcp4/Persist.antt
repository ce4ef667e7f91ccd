-- ===== src/Dhcp4/Persist.antt =====
-- What a round of cmd/dhcp4/dhcp4.go leaves on disk.
use rout.Base.{
  ◌≡◌, inl, inr, refl, Bool-cases, Option-cases, true, List, [], ◌∷◌, none, some, arith,
}
use rout.Dhcp4.Client.{Packet, DhcpLibrary, Client, Network, ok, obtain_or_renew, last_packet, once}
use rout.Dhcp4.FirstAck.{FirstAck}
use rout.Dhcp4.Acquire.{obtain_acks}
use rout.Dhcp4.Daemon.{
  Daemon, Storage, Effect, wrote_lease, wrote_ack, notified, settles, persist, settle, round,
}

pub settle-settles :
    (c : Client) (s : Storage) (d : Daemon) (effects : List Effect)
    → settle c s ≡ settles d effects
    → (d ≡ record { client = c; unhealthy_cycles = 0 })
      × (effects ≡ wrote_lease c.cfg ∷ wrote_ack c.ack ∷ notified ∷ [])
unfolding settle persist
settle-settles c s d effects e = elim (Option-cases s.marshal_error) [
  | inr (x, bad) ↦ absurd (ground arith)
  | inl fine ↦ elim (Option-cases s.lease_error) [
    | inr (x, bad) ↦ absurd (ground arith)
    | inl fine' ↦ elim (Option-cases s.ack_error) [
      | inr (x, bad) ↦ absurd (ground arith)
      | inl fine'' ↦ (ground arith, ground arith)
    ]
  ]
]

pub round-settles :
    (lib : DhcpLibrary) (c : Client) (n : Network) (s : Storage) (d : Daemon)
    (effects : List Effect)
    → round lib c n s ≡ settles d effects
    → (c' : Client) × (obtain_or_renew lib c n ≡ some (c', true))
      × (c'.err ≡ none)
      × (settle c' s ≡ settles d effects)
unfolding round
round-settles lib c n s d effects e = elim (Option-cases (obtain_or_renew lib c n)) [
  | inl panics ↦ absurd (ground arith)
  | inr (r, got) ↦ elim (Bool-cases r.1) [
    | inr permanent ↦ absurd (ground arith)
    | inl goes_on ↦ elim (Option-cases r.0.err) [
      | inr (x, bad) ↦ absurd (ground arith)
      | inl fine ↦ (r.0, ground arith, fine, ground arith)
    ]
  ]
]

-- A round that reaches the inner loop has written the client's configuration, then the ACK that
-- answers the request of this round, and then notified netconfigd; it starts the loop with that
-- client and no unhealthy minutes.
pub round-persists :
    (lib : DhcpLibrary) (c : Client) (n : Network) (s : Storage) (d : Daemon)
    (effects : List Effect)
    → round lib c n s ≡ settles d effects
    → (c0 : Client) × (last : Packet) × (p : Packet) × (once c n ≡ some c0)
      × (last_packet lib c0 n ≡ ok last)
      × FirstAck lib last.xid n.after_request p
      × (d.unhealthy_cycles ≡ 0)
      × (d.client.err ≡ none)
      × (d.client.ack ≡ some p)
      × (effects ≡ wrote_lease d.client.cfg ∷ wrote_ack (some p) ∷ notified ∷ [])
round-persists lib c n s d effects e =
    let (c', got, fine, settled) = round-settles lib c n s d effects e in
    let (same, done) = settle-settles c' s d effects settled in
    let (c0, last, p, ready, held, found, first, made) = obtain_acks lib c c' n got fine in
    (
      c0,
      last,
      p,
      ready,
      found,
      first,
      rw same refl,
      rw same fine,
      rw same held,
      rw (same, ← held) done,
    )
