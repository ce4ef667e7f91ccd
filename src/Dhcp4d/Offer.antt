-- ===== src/Dhcp4d/Offer.antt =====
-- The exchange of DISCOVER, OFFER, REQUEST and ACK.
use rout.Base.{
  ℕ, ◌+◌, ◌<◌, ◌≤◌, ◌≡◌, inl, inr, refl, sym, ap, ◌∙◌, Bool-cases, true, false, [], ◌∷◌, some,
  Bytes, ℤ, pos, negsuc, pred_ℤ, in_range, length, replicate, arith,
}
use rout.Net.{mac_string, to4, copy, ip_equal, ipv4_zero}
use rout.Dhcp4d.Handler.{Lease, Options, Handler, can_lease, lease_hw, owned_by}
use rout.Dhcp4d.Serve.{
  DhcpLibrary, Ambient, Packet, Reply, discover, request, offer, ack, option, requested_ip,
  for_other_server, is_minus_one, choose_offer, offer_reply, ack_reply, new_lease, acknowledge,
  serve_request, serve_discover, dispatch, serve_dhcp,
}
use rout.Dhcp4d.Invariant.{Inv}
use rout.Dhcp4d.Availability.{Leasable, Leasable-can_lease}
use rout.Dhcp4d.Preserve.{inherit_from-same}
use rout.Dhcp4d.Replace.{find_ip-replaced, find_hw-replaced}
use rout.Dhcp4d.Serving.{granted, acknowledge-replaced}
use rout.Dhcp4d.Exchange.{choose_offer-Leasable, choose_offer_some}

-- `IPAdd` counts addresses up from the start, and `IPRange` counts them inclusively.
pub record AddressLaws (lib : DhcpLibrary) (start : Bytes) (range : ℕ) : Type 0 where
  pub counted : (i : ℕ) → i < range → lib.ip_range start (lib.ip_add start (pos i)) ≡ pos (i + 1)
  pub four : (i : ℕ) → i < range → length (lib.ip_add start (pos i)) ≡ 4
  pub nonzero : (i : ℕ) → i < range → ip_equal (lib.ip_add start (pos i)) ipv4_zero ≡ false

-- The bytes of an address are copied whole.
copy_four : (ip : Bytes) → length ip ≡ 4 → copy (replicate 4 0) (to4 ip) ≡ ip
unfolding copy to4
copy_four (a ∷ b ∷ c ∷ d ∷ []) h = refl
copy_four (a ∷ b ∷ c ∷ d ∷ e ∷ rest) h = absurd (omega arith)
copy_four [] h = absurd (omega arith)
copy_four (a ∷ []) h = absurd (omega arith)
copy_four (a ∷ b ∷ []) h = absurd (omega arith)
copy_four (a ∷ b ∷ c ∷ []) h = absurd (omega arith)

module _ (lib : DhcpLibrary) (h : Handler) (a : Ambient) (p : Packet) (options : Options) where
  abbrev client_hw : Bytes
  client_hw = mac_string p.ch_addr

  abbrev wanted_ip : Bytes
  wanted_ip = requested_ip p (option 50 options)

  -- Under the invariant, with fewer entries in the database than addresses in the range and a random
  -- number in the range, every DISCOVER is answered by an OFFER, of an address in the range that is unused, the client's own or expired by `t`, no earlier
  -- than the server's readings of its clock; the state does not change.
  pub discover_answered :
      (t : ℕ)
      → Inv h
      → a.can_lease_now ≤ t
      → a.find_now ≤ t
      → a.random < h.lease_range
      → length h.leases_ip < h.lease_range
      → (r : Reply) × (n : ℤ) × (serve_dhcp lib h a p discover options ≡ (h, some r))
        × (r.message_type ≡ offer)
        × (r.your_ip ≡ lib.ip_add h.start n)
        × Leasable h t client_hw n
  unfolding serve_dhcp dispatch serve_discover
  discover_answered t v after after' chance room =
      let chosen = choose_offer_some lib h a wanted_ip client_hw v t after after' chance room in
      (
        offer_reply lib h client_hw options (choose_offer lib h a wanted_ip client_hw),
        choose_offer lib h a wanted_ip client_hw,
        rw chosen,
        refl,
        refl,
        choose_offer-Leasable lib h a wanted_ip client_hw v t after after' chance chosen,
      )

  -- Of an OFFER: the number whose address it names.
  offer-Leasable :
      (t : ℕ) (r : Reply)
      → Inv h
      → a.can_lease_now ≤ t
      → a.find_now ≤ t
      → a.random < h.lease_range
      → (serve_dhcp lib h a p discover options).1 ≡ some r
      → (n : ℤ) × (r.your_ip ≡ lib.ip_add h.start n)
        × Leasable h t client_hw n
        × ((serve_dhcp lib h a p discover options).0 ≡ h)
  unfolding serve_dhcp dispatch serve_discover
  offer-Leasable t r v after after' chance e =
      elim (Bool-cases (is_minus_one (choose_offer lib h a wanted_ip client_hw))) [
        | inl refused ↦ absurd (ground arith)
        | inr chosen ↦ (
          choose_offer lib h a wanted_ip client_hw,
          ground arith,
          choose_offer-Leasable lib h a wanted_ip client_hw v t after after' chance chosen,
          ground arith,
        )
      ]

in_range_not_minus_one : (n : ℤ) (range : ℕ) → in_range n range ≡ true → is_minus_one n ≡ false
in_range_not_minus_one (pos n) range r = refl
in_range_not_minus_one (negsuc n) range r = cc

in_range-pos : (n : ℤ) (range : ℕ) → in_range n range ≡ true → (i : ℕ) × (n ≡ pos i) × (i < range)
in_range-pos (pos i) range r = (i, refl, ground arith)
in_range-pos (negsuc i) range r = cc

module _ (lib : DhcpLibrary) (h : Handler) (a : Ambient) (req_ip hw : Bytes)
    (options : Options) where
  -- The client's lease after an acknowledgement.
  pub acknowledged_lease :
      (n : ℤ)
      → lease_hw (acknowledge lib h a req_ip hw options n).0 hw
        ≡ some (granted lib h a req_ip hw options n)
  unfolding lease_hw owned_by new_lease
  acknowledged_lease n =
      let l = granted lib h a req_ip hw options n in
      let same = inherit_from-same (new_lease lib h a req_ip hw options n) (lease_hw h hw) in
      rw (acknowledge-replaced lib h a req_ip hw options n)
        (ground (arith, find_hw-replaced h n l hw, find_ip-replaced h n l n))

  -- A request for an address that may be leased is acknowledged, unless it names another server.
  serve_request-ack :
      for_other_server h (option 54 options) ≡ false
      → length req_ip ≡ 4
      → ip_equal req_ip ipv4_zero ≡ false
      → Leasable h a.can_lease_now hw (pred_ℤ (lib.ip_range h.start req_ip))
      → serve_request lib h a req_ip hw options
        ≡ acknowledge lib h a req_ip hw options (pred_ℤ (lib.ip_range h.start req_ip))
  unfolding serve_request
  serve_request-ack ours four nonzero l =
      let n = pred_ℤ (lib.ip_range h.start req_ip) in
      let given : can_lease lib.ip_range h a.can_lease_now req_ip hw ≡ n =
        Leasable-can_lease lib.ip_range h a.can_lease_now req_ip hw four nonzero l in
      rw (ours, given) (rw (in_range_not_minus_one n h.lease_range l.within))

-- The number that the server reads back from an address of the range.
offered_number :
    (lib : DhcpLibrary) (h : Handler) (n : ℤ)
    → AddressLaws lib h.start h.lease_range
    → in_range n h.lease_range ≡ true
    → (pred_ℤ (lib.ip_range h.start (lib.ip_add h.start n)) ≡ n)
      × (length (lib.ip_add h.start n) ≡ 4)
      × (ip_equal (lib.ip_add h.start n) ipv4_zero ≡ false)
offered_number lib h n laws r =
    let (i, e, lt) = in_range-pos n h.lease_range r in
    rw e (rw (laws.counted i lt) (ground arith), laws.four i lt, laws.nonzero i lt)

-- A request for the address of a number that may be leased.
request_granted :
    (lib : DhcpLibrary) (h : Handler) (a : Ambient) (hw : Bytes) (options : Options) (n : ℤ)
    → AddressLaws lib h.start h.lease_range
    → for_other_server h (option 54 options) ≡ false
    → Leasable h a.can_lease_now hw n
    → serve_request lib h a (lib.ip_add h.start n) hw options
      ≡ acknowledge lib h a (lib.ip_add h.start n) hw options n
request_granted lib h a hw options n laws ours l =
    let (back, four, nonzero) = offered_number lib h n laws l.within in
    serve_request-ack lib h a (lib.ip_add h.start n) hw options ours four nonzero (rw back l)
    ∙ ap (acknowledge lib h a (lib.ip_add h.start n) hw options) back

-- The address in a granted lease.
granted_addr :
    (lib : DhcpLibrary) (h : Handler) (a : Ambient) (req_ip hw : Bytes) (options : Options) (n : ℤ)
    → length req_ip ≡ 4
    → (granted lib h a req_ip hw options n).addr ≡ req_ip
unfolding new_lease
granted_addr lib h a req_ip hw options n four =
    (inherit_from-same (new_lease lib h a req_ip hw options n) (lease_hw h hw)).1
    ∙ copy_four req_ip four

-- An offer is honoured if no other message comes in between: under the invariant, where `IPAdd` and `IPRange` count addresses as they are
-- documented to and the random number is in the range, when the client of a DISCOVER that was answered requests the offered address
-- as the very next message that the server handles, at a time no earlier than the server's readings of its clock and without naming another server, the
-- answer is an ACK for that address, and the database then holds it as the lease of the client.
pub offer_honoured :
    (lib : DhcpLibrary) (h : Handler) (a a' : Ambient) (p p' : Packet) (options options' : Options)
    (r : Reply)
    → AddressLaws lib h.start h.lease_range
    → Inv h
    → a.random < h.lease_range
    → a.can_lease_now ≤ a'.can_lease_now
    → a.find_now ≤ a'.can_lease_now
    → (serve_dhcp lib h a p discover options).1 ≡ some r
    → p'.ch_addr ≡ p.ch_addr
    → option 50 options' ≡ some r.your_ip
    → for_other_server h (option 54 options') ≡ false
    → let after = serve_dhcp lib (serve_dhcp lib h a p discover options).0 a' p' request options' in
      (r' : Reply) × (l : Lease) × (after.1 ≡ some r')
      × (r'.message_type ≡ ack)
      × (r'.your_ip ≡ r.your_ip)
      × (lease_hw after.0 (mac_string p.ch_addr) ≡ some l)
      × (l.addr ≡ r.your_ip)
unfolding serve_dhcp dispatch acknowledge
offer_honoured lib h a a' p p' options options' r laws v chance t t' e client asked ours =
    let hw = mac_string p.ch_addr in
    let (n, named, leasable, unchanged) =
      offer-Leasable lib h a p options a'.can_lease_now r v t t' chance e in
    let ip = lib.ip_add h.start n in
    let (_, four, _) = offered_number lib h n laws leasable.within in
    let same : serve_dhcp lib (serve_dhcp lib h a p discover options).0 a' p' request options'
        ≡ acknowledge lib h a' ip hw options' n =
      rw (unchanged, asked, client, named)
        (request_granted lib h a' hw options' n laws ours leasable) in
    (
      ack_reply lib h ip hw options',
      granted lib h a' ip hw options' n,
      rw same,
      refl,
      sym named,
      rw same (acknowledged_lease lib h a' ip hw options' n),
      rw named (granted_addr lib h a' ip hw options' n four),
    )
