-- ===== src/Dhcp4/Ending.antt =====
-- How `logic` of cmd/dhcp4 ends, and what it stores until then.
use rout.Base.{false, ◌≢◌, subst, true, ◌≡◌, inl, inr, refl, List, [], ◌∷◌, none, some, Bytes}
use rout.Dhcp4.Client.{
  Packet, DhcpLibrary, Client, configure, hardware_addr_or_nil, err, obtain_or_renew, once,
  last_packet, ok,
}
use rout.Dhcp4.FirstAck.{FirstAck, Result-cases}
use rout.Dhcp4.Acquire.{obtain_acks}
use rout.Dhcp4.Daemon.{
  Daemon, Outcome, waiting, renewing, fails, exits, panics, wait_run, Effect, wrote_lease,
  wrote_ack, notified, Round, backs_off, settles, stops, stops_with, crashes, round,
}
use rout.Dhcp4.Persist.{settle-settles, round-settles}
use rout.Dhcp4.Rounds.{round-stops, round-stops_with, round-backs_off, round-crashes, Unstored}
use rout.Dhcp4.Logic.{
  failed, ends, Host, client_hw_addr, previous_ack, new_client, Turn, Progress, returned, Log,
  after_wait, after_round, run, logic,
}

-- The call of the turn left the client `c'`, whose ACK is the first answer to the request of this call
-- among the packets that it read, and whose configuration is made from that ACK.
abbrev pub Acked : DhcpLibrary → Client → Turn → Client → Packet → Type 0
Acked lib c t c' p =
    (obtain_or_renew lib c t.network ≡ some (c', true))
    × (c'.err ≡ none)
    × (c'.ack ≡ some p)
    × ((c0 : Client) × (last : Packet) × (once c t.network ≡ some c0)
        × (last_packet lib c0 t.network ≡ ok last)
        × FirstAck lib last.xid t.network.after_request p
        × (configure lib c0.cfg p t.network.now ≡ some c'.cfg))

-- What the turns that begin with the client `c` store. A turn stores the lease and the ACK of its own
-- call, unless that has none or a step of storing fails, which is then the last; the next one goes on
-- with the client that this one leaves.
pub data InOrder (lib : DhcpLibrary) : Client → List Turn → List Effect → Type 0 where
  no_turn : (c : Client) → InOrder lib c [] []
  crashed :
      (c : Client) (t : Turn) (rest : List Turn)
      → obtain_or_renew lib c t.network ≡ none
      → InOrder lib c (t ∷ rest) []
  gave_up :
      (c : Client) (t : Turn) (rest : List Turn) (c' : Client)
      → obtain_or_renew lib c t.network ≡ some (c', false)
      → InOrder lib c (t ∷ rest) []
  retried :
      (c : Client) (t : Turn) (rest : List Turn) (c' : Client) (later : List Effect)
      → obtain_or_renew lib c t.network ≡ some (c', true)
      → c'.err ≢ none
      → InOrder lib c' rest later
      → InOrder lib c (t ∷ rest) later
  unfinished :
      (c : Client) (t : Turn) (rest : List Turn) (c' : Client) (ack : Packet)
      (effects : List Effect)
      → Acked lib c t c' ack
      → Unstored c' t.storage effects
      → InOrder lib c (t ∷ rest) effects
  stored_last :
      (c : Client) (t : Turn) (rest : List Turn) (c' : Client) (ack : Packet)
      → Acked lib c t c' ack
      → InOrder lib c (t ∷ rest) (wrote_lease c'.cfg ∷ wrote_ack (some ack) ∷ notified ∷ [])
  stored :
      (c : Client) (t : Turn) (rest : List Turn) (c' c'' : Client) (ack : Packet)
      (later : List Effect)
      → Acked lib c t c' ack
      → wait_run lib (record { client = c'; unhealthy_cycles = 0 }) t.events ≡ renewing c''
      → InOrder lib c'' rest later
      → InOrder lib c (t ∷ rest) (wrote_lease c'.cfg ∷ wrote_ack (some ack) ∷ notified ∷ later)

-- `logic` has not returned nil.
unfoldable pub Fails : Progress → Type 0
Fails (returned none) = ⊥
Fails _ = Unit

-- What is known of a call that ended without an error.
Acked_lem :
    (lib : DhcpLibrary) (c : Client) (t : Turn) (c' : Client)
    → obtain_or_renew lib c t.network ≡ some (c', true)
    → c'.err ≡ none
    → (p : Packet) × Acked lib c t c' p
Acked_lem lib c t c' got fine =
    let (c0, last, p, ready, held, found, first, made) = obtain_acks lib c c' t.network got fine in
    (p, (got, fine, held, (c0, last, ready, found, first, made)))

-- A round that reaches the inner loop has stored the lease and the ACK of its call.
round-stored :
    (lib : DhcpLibrary) (c : Client) (t : Turn) (d : Daemon) (effects : List Effect)
    → round lib c t.network t.storage ≡ settles d effects
    → (c' : Client) × (ack : Packet) × Acked lib c t c' ack
      × (d ≡ record { client = c'; unhealthy_cycles = 0 })
      × (effects ≡ wrote_lease c'.cfg ∷ wrote_ack (some ack) ∷ notified ∷ [])
round-stored lib c t d effects is =
    let (c', got, fine, settled) = round-settles lib c t.network t.storage d effects is in
    let (same, done) = settle-settles c' t.storage d effects settled in
    let (p, acked) = Acked_lem lib c t c' got fine in
    let held : c'.ack ≡ some p = acked.2 in (c', p, acked, same, rw (← held) done)

module _ (lib : DhcpLibrary) (rest : List Turn) where
  abbrev Good : Client → List Turn → Log → Type 0
  Good c turns l = InOrder lib c turns l.effects × Fails l.progress

  after_wait-Good :
      (c : Client) (t : Turn) (c' : Client) (ack : Packet) (again : Client → Log) (o : Outcome)
      → Acked lib c t c' ack
      → wait_run lib (record { client = c'; unhealthy_cycles = 0 }) t.events ≡ o
      → ((x : Client) → Good x rest (again x))
      → Good c
          (t ∷ rest)
          (after_wait (wrote_lease c'.cfg ∷ wrote_ack (some ack) ∷ notified ∷ []) again o)
  unfolding after_wait Fails
  after_wait-Good c t c' ack again (waiting d) got is good = (stored_last c t rest c' ack got, tt)
  after_wait-Good c t c' ack again (renewing x) got is good =
      (stored c t rest c' x ack (again x).effects got is (good x).0, (good x).1)
  after_wait-Good c t c' ack again (fails e) got is good = (stored_last c t rest c' ack got, tt)
  after_wait-Good c t c' ack again exits got is good = (stored_last c t rest c' ack got, tt)
  after_wait-Good c t c' ack again panics got is good = (stored_last c t rest c' ack got, tt)

  after_round-Good :
      (c : Client) (t : Turn) (again : Client → Log) (r : Round)
      → round lib c t.network t.storage ≡ r
      → ((c' : Client) → Good c' rest (again c'))
      → Good c (t ∷ rest) (after_round lib t.events again r)
  unfolding after_round Fails
  after_round-Good c t again (backs_off c') is good =
      let (got, bad) = round-backs_off lib c t.network t.storage c' is in
      (retried c t rest c' (again c').effects got bad (good c').0, (good c').1)
  after_round-Good c t again (settles d effects) is good =
      let (c', ack, got, at, same) = round-stored lib c t d effects is in
      rw (same, at) (after_wait-Good c t c' ack again _ got refl good)
  after_round-Good c t again (stops e) is good =
      let (x, c', same, got) = round-stops lib c t.network t.storage e is in
      rw same (gave_up c t rest c' got, tt)
  after_round-Good c t again (stops_with e effects) is good =
      let (c', got, fine, why) = round-stops_with lib c t.network t.storage e effects is in
      let (ack, acked) = Acked_lem lib c t c' got fine in
      (unfinished c t rest c' ack effects acked why, tt)
  after_round-Good c t again crashes is good =
      (crashed c t rest (round-crashes lib c t.network t.storage is), tt)

run-Good :
    (lib : DhcpLibrary) (c : Client) (turns : List Turn)
    → InOrder lib c turns (run lib c turns).effects × Fails (run lib c turns).progress
unfolding run Fails
run-Good lib c [] = (no_turn c, tt)
run-Good lib c (t ∷ rest) =
    after_round-Good lib rest c t (λ c'. run lib c' rest) (round lib c t.network t.storage) refl
      (λ c'. run-Good lib c' rest)

-- What is stored for the first of the interfaces, from its client on; nothing without one.
abbrev pub StoresFrom : DhcpLibrary → Host → List Bytes → List Turn → List Effect → Type 0
StoresFrom lib host [] turns effects = effects ≡ []
StoresFrom lib host (ifname ∷ interfaces) turns effects = elim (host.interface_by_name ifname) [
  | err e ↦ effects ≡ []
  | ok hwaddr ↦
      InOrder lib
        (new_client (hardware_addr_or_nil hwaddr) (client_hw_addr host ifname hwaddr)
          (previous_ack host))
        turns effects
]

-- Whatever cmd/dhcp4 meets, a turn of its loop writes the lease that its own call made from the first
-- answer to its request, then that ACK, and then netconfigd is notified. A turn whose call has no lease
-- writes nothing, and one that cannot write the lease or the ACK is the last. The next turn goes on with
-- the client that this one leaves. `logic` never returns nil: it goes on, returns an error, exits or
-- panics.
pub logic-InOrder :
    (lib : DhcpLibrary) (host : Host) (interfaces : List Bytes) (turns : List Turn)
    → StoresFrom lib host interfaces turns (logic lib host interfaces turns).effects
      × Fails (logic lib host interfaces turns).progress
unfolding logic Fails
logic-InOrder lib host [] turns = (refl, tt)
logic-InOrder lib host (ifname ∷ interfaces) turns =
    let Holds : Log → Type 0 =
      λ (l : Log). StoresFrom lib host (ifname ∷ interfaces) turns l.effects × Fails l.progress in
    elim (Result-cases (host.interface_by_name ifname)) [
      | inl (hwaddr, found) ↦
          let c =
            new_client (hardware_addr_or_nil hwaddr) (client_hw_addr host ifname hwaddr)
              (previous_ack host) in
          let is : run lib c turns ≡ logic lib host (ifname ∷ interfaces) turns =
            rw (found, logic) refl in
          let (stores, goes_on) = run-Good lib c turns in
          subst Holds is (rw (StoresFrom, found) stores, goes_on)
      | inr (e, unknown) ↦
          let is : ends [] (failed e) ≡ logic lib host (ifname ∷ interfaces) turns =
            rw (unknown, logic) refl in
          subst Holds is (rw (StoresFrom, unknown) refl, tt)
    ]
