-- ===== src/Dhcp4d/Serving.antt =====
-- `serveDHCP` as a whole: the invariant, and the leases of other clients.
use rout.Base.{
  ℕ, ◌≡◌, ◌≢◌, ◌⊎◌, inl, inr, Bool-cases, true, false, some, Bytes, ℤ, ℤ-discrete, in_range,
  lookup-insert, arith,
}
use rout.Net.{mac_string}
use rout.Dhcp4d.Handler.{
  Lease, Options, Handler, find_ip, expired, can_lease, lease_hw, expire_lease,
}
use rout.Dhcp4d.Serve.{
  DhcpLibrary, Ambient, Packet, MessageType, discover, request, decline, option, for_other_server,
  is_minus_one, inherit_from, new_lease, acknowledge, serve_request, serve_discover, dispatch,
  serve_dhcp,
}
use rout.Dhcp4d.Invariant.{Inv, lease_hw-some}
use rout.Dhcp4d.Availability.{Leasable, can_lease-Leasable}
use rout.Dhcp4d.Preserve.{expire_lease-Inv, expire_lease-cases, inherit_from-same}
use rout.Dhcp4d.Replace.{replaced, replaced-Inv, find_ip-replaced_other}

module _ (lib : DhcpLibrary) (h : Handler) (a : Ambient) (req_ip hw : Bytes)
    (options : Options) where
  -- The lease that an acknowledgement stores.
  abbrev pub granted : ℤ → Lease
  granted n = inherit_from (new_lease lib h a req_ip hw options n) (lease_hw h hw)

  granted-fields : (n : ℤ) → ((granted n).num ≡ n) × ((granted n).hardware_addr ≡ hw)
  unfolding new_lease
  granted-fields n =
      let (a, b, c) = inherit_from-same (new_lease lib h a req_ip hw options n) (lease_hw h hw) in
      (a, c)

  pub acknowledge-replaced :
      (n : ℤ) → (acknowledge lib h a req_ip hw options n).0 ≡ replaced h n (granted n)
  unfolding acknowledge
  acknowledge-replaced n = rw (granted-fields n).1

  acknowledge-Inv :
      (n : ℤ)
      → Inv h
      → in_range n h.lease_range ≡ true
      → Inv (acknowledge lib h a req_ip hw options n).0
  acknowledge-Inv n v r =
      rw (acknowledge-replaced n) (replaced-Inv h n (granted n) v (granted-fields n).0 r)

  -- The two ways a request ends: the state is left alone, or an address that may be leased to the
  -- client is acknowledged.
  pub serve_request-cases :
      ((serve_request lib h a req_ip hw options).0 ≡ h)
      ⊎ ((n : ℤ) × Leasable h a.can_lease_now hw n
          × (serve_request lib h a req_ip hw options ≡ acknowledge lib h a req_ip hw options n))
  unfolding serve_request
  serve_request-cases = elim (Bool-cases (for_other_server h (option 54 options))) [
    | inl other ↦ inl (ground arith)
    | inr ours ↦
        elim (Bool-cases (is_minus_one (can_lease lib.ip_range h a.can_lease_now req_ip hw))) [
          | inl refused ↦ inl (ground arith)
          | inr given ↦
              let (same, _, leasable) =
                can_lease-Leasable lib.ip_range h a.can_lease_now req_ip hw given in
              inr
                (can_lease lib.ip_range h a.can_lease_now req_ip hw, rw same leasable, ground arith)
        ]
  ]

  serve_request-Inv : Inv h → Inv (serve_request lib h a req_ip hw options).0
  serve_request-Inv v = elim serve_request-cases [
    | inl same ↦ rw same v
    | inr (n, leasable, e) ↦ rw e (acknowledge-Inv n v leasable.within)
  ]

  -- A lease of somebody else that has not run out survives a request.
  serve_request-keeps_other :
      (m : ℤ) (k : Lease)
      → Inv h
      → find_ip h m ≡ some k
      → k.hardware_addr ≢ hw
      → expired k a.can_lease_now ≡ false
      → find_ip (serve_request lib h a req_ip hw options).0 m ≡ some k
  serve_request-keeps_other m k v there other live = elim serve_request-cases [
    | inl same ↦ rw same there
    | inr (n, leasable, e) ↦
        let apart : n ≢ m = ground (arith, leasable.available) in
        rw (e, acknowledge-replaced n)
          (find_ip-replaced_other h n (granted n) v m k apart (rw (granted-fields n).1 other) there)
  ]

-- `DHCPDECLINE` changes the client's own lease only.
expire_lease-keeps_other :
    (h : Handler) (now : ℕ) (hw : Bytes) (m : ℤ) (k : Lease)
    → Inv h
    → find_ip h m ≡ some k
    → k.hardware_addr ≢ hw
    → find_ip (expire_lease h now hw).0 m ≡ some k
expire_lease-keeps_other h now hw m k v there other = elim (expire_lease-cases h now hw v) [
  | inl (_, e) ↦ rw e there
  | inr (l, found, e) ↦
      let (_, at_l, own) = lease_hw-some h hw l v found in
      let l' = record l { expiry = now } in
      rw e (ground (arith, lookup-insert ℤ-discrete m l.num l' h.leases_ip))
]

serve_discover_state :
    (lib : DhcpLibrary) (h : Handler) (a : Ambient) (p : Packet) (req_ip hw : Bytes)
    (options : Options)
    → (serve_discover lib h a p req_ip hw options).0 ≡ h
unfolding serve_discover
serve_discover_state lib h a p req_ip hw options = ground arith

module _ (lib : DhcpLibrary) (h : Handler) (a : Ambient) (p : Packet) where
  dispatch-Inv :
      (req_ip hw : Bytes) (t : MessageType) (options : Options)
      → Inv h
      → Inv (dispatch lib h a p req_ip hw t options).0
  unfolding dispatch
  dispatch-Inv req_ip hw discover options v =
      rw (serve_discover_state lib h a p req_ip hw options) v
  dispatch-Inv req_ip hw request options v = serve_request-Inv lib h a req_ip hw options v
  dispatch-Inv req_ip hw decline options v = expire_lease-Inv h a.lease_now hw v
  dispatch-Inv req_ip hw _ options v = v

  -- Every message, of whatever type and content, keeps the invariant of the lease database: each lease
  -- stands under its own number within the range, and no hardware address has two leases.
  pub serve_dhcp-Inv :
      (t : MessageType) (options : Options) → Inv h → Inv (serve_dhcp lib h a p t options).0
  unfolding serve_dhcp
  serve_dhcp-Inv t options v = dispatch-Inv _ _ t options v

  dispatch-keeps_other :
      (req_ip hw : Bytes) (t : MessageType) (options : Options) (m : ℤ) (k : Lease)
      → Inv h
      → find_ip h m ≡ some k
      → k.hardware_addr ≢ hw
      → expired k a.can_lease_now ≡ false
      → find_ip (dispatch lib h a p req_ip hw t options).0 m ≡ some k
  unfolding dispatch
  dispatch-keeps_other req_ip hw discover options m k v there other live =
      rw (serve_discover_state lib h a p req_ip hw options) there
  dispatch-keeps_other req_ip hw request options m k v there other live =
      serve_request-keeps_other lib h a req_ip hw options m k v there other live
  dispatch-keeps_other req_ip hw decline options m k v there other live =
      expire_lease-keeps_other h a.lease_now hw m k v there other
  dispatch-keeps_other req_ip hw _ options m k v there other live = there

  -- In a database that meets the invariant no message of one client removes or changes the lease of
  -- another client that has not run out when `canLease` reads the clock.
  pub serve_dhcp-keeps_other :
      (t : MessageType) (options : Options) (m : ℤ) (k : Lease)
      → Inv h
      → find_ip h m ≡ some k
      → k.hardware_addr ≢ mac_string p.ch_addr
      → expired k a.can_lease_now ≡ false
      → find_ip (serve_dhcp lib h a p t options).0 m ≡ some k
  unfolding serve_dhcp
  serve_dhcp-keeps_other t options m k v there other live =
      dispatch-keeps_other _ _ t options m k v there other live
