-- ===== src/Dhcp4d/Renewal.antt =====
-- What a client's lease keeps across renewals, renaming and declining.
use rout.Base.{
  List, ◌∷◌, All, ℕ, ◌<◌, ◌≡◌, ◌≢◌, inl, inr, refl, subst, ◌∙◌, [], some, Bytes, ℤ, ℤ-discrete,
  lookup-insert, arith,
}
use rout.Net.{mac_string}
use rout.Dhcp4d.Handler.{
  Lease, Options, Handler, find_ip, expired, lease_hw, set_hostname, HostnameResult,
}
use rout.Dhcp4d.Serve.{
  DhcpLibrary, Ambient, Packet, request, decline, option, requested_ip, inherit, inherit_from,
  serve_request, dispatch, serve_dhcp,
}
use rout.Dhcp4d.Invariant.{Inv, lease_hw-some, lease_hw_complete}
use rout.Dhcp4d.Availability.{Leasable}
use rout.Dhcp4d.Preserve.{
  updated, renamed, set_hostname-cases, set_hostname-Inv, expire_lease-cases, call_leases-maps,
}
use rout.Dhcp4d.Serving.{granted, serve_request-cases}
use rout.Dhcp4d.Offer.{acknowledged_lease}

module _ (lib : DhcpLibrary) (h : Handler) (a : Ambient) (req_ip hw : Bytes)
    (options : Options) where
  granted_override :
      (n : ℤ) (old : Lease)
      → lease_hw h hw ≡ some old
      → old.hostname_override ≢ []
      → ((granted lib h a req_ip hw options n).hostname ≡ old.hostname_override)
        × ((granted lib h a req_ip hw options n).hostname_override ≡ old.hostname_override)
  unfolding inherit_from inherit
  granted_override n old e named = rw (e, inherit_from) (ground arith, ground arith)

  granted_permanent :
      (n : ℤ) (old : Lease)
      → lease_hw h hw ≡ some old
      → old.expiry ≡ 0
      → (granted lib h a req_ip hw options n).expiry ≡ 0
  unfolding inherit_from inherit
  granted_permanent n old e permanent = rw (e, inherit_from) (ground arith)

  -- After a request the client's lease is the old one or the granted one.
  request_lease :
      (old : Lease) (P : Lease → Type 0)
      → lease_hw h hw ≡ some old
      → P old
      → ((n : ℤ) → P (granted lib h a req_ip hw options n))
      → (l : Lease) × (lease_hw (serve_request lib h a req_ip hw options).0 hw ≡ some l) × P l
  request_lease old P e was will = elim (serve_request-cases lib h a req_ip hw options) [
    | inl same ↦ (old, rw same e, was)
    | inr (n, _, same) ↦ (
      granted lib h a req_ip hw options n,
      rw same (acknowledged_lease lib h a req_ip hw options n),
      will n,
    )
  ]

-- A permanent lease stays one: whatever a client that has one requests, it has a lease afterwards that does not
-- expire.
permanent_stays :
    (lib : DhcpLibrary) (h : Handler) (a : Ambient) (p : Packet) (options : Options) (old : Lease)
    → lease_hw h (mac_string p.ch_addr) ≡ some old
    → old.expiry ≡ 0
    → (l : Lease) × (lease_hw (serve_dhcp lib h a p request options).0 (mac_string p.ch_addr)
        ≡ some l)
      × (l.expiry ≡ 0)
unfolding serve_dhcp dispatch
permanent_stays lib h a p options old e permanent =
    let req_ip = requested_ip p (option 50 options) in
    let hw = mac_string p.ch_addr in
    request_lease lib h a req_ip hw options old (λ l. l.expiry ≡ 0) e permanent
      (λ n. granted_permanent lib h a req_ip hw options n old e permanent)

-- The client's lease after it is renamed.
renamed_lease :
    (h : Handler) (now : ℕ) (hw hostname : Bytes)
    → Inv h
    → (set_hostname h now hw hostname).1 ≡ HostnameResult.hostname_set
    → (l : Lease) × (lease_hw (set_hostname h now hw hostname).0 hw ≡ some l)
      × (l.hostname ≡ hostname)
      × (l.hostname_override ≡ hostname)
renamed_lease h now hw hostname v done = elim (set_hostname-cases h now hw hostname v) [
  | inr (_, failed, _) ↦ absurd (failed done)
  | inl (old, found, _, e) ↦
      let (_, _, own) = lease_hw-some h hw old v found in
      let l = renamed old hostname in
      let h' = (set_hostname h now hw hostname).0 in
      let there : find_ip h' old.num ≡ some l =
        rw (e, (call_leases-maps (updated h old.num l) l).0)
          (ground (arith, lookup-insert ℤ-discrete old.num old.num l h.leases_ip)) in
      let complete = lease_hw_complete h' old.num l (set_hostname-Inv h now hw hostname v) there in
      (l, subst (λ x. lease_hw h' x ≡ some l) own complete, refl, refl)
]

abbrev IsNamed : Bytes → Lease → Type 0
IsNamed hostname l = (l.hostname ≡ hostname) × (l.hostname_override ≡ hostname)

-- The server's database behind REQUEST messages, the first of the list first.
abbrev pub requested : DhcpLibrary → Handler → List (Ambient × Packet × Options) → Handler
requested lib h [] = h
requested lib h ((a, p, options) ∷ rest) =
    requested lib (serve_dhcp lib h a p request options).0 rest

abbrev pub FromClient : Bytes → List (Ambient × Packet × Options) → Type 0
FromClient hw = All (λ (m : Ambient × Packet × Options). mac_string m.1.ch_addr ≡ hw)

requested-IsNamed :
    (lib : DhcpLibrary) (h : Handler) (hw hostname : Bytes) (old : Lease)
    (messages : List (Ambient × Packet × Options))
    → hostname ≢ []
    → FromClient hw messages
    → lease_hw h hw ≡ some old
    → IsNamed hostname old
    → (l : Lease) × (lease_hw (requested lib h messages) hw ≡ some l) × IsNamed hostname l
unfolding serve_dhcp dispatch
requested-IsNamed lib h hw hostname old [] named own found is = (old, found, is)
requested-IsNamed lib h hw hostname old ((a, p, options) ∷ rest) named (same, own) found
      (name, override) =
    let req_ip = requested_ip p (option 50 options) in
    let h' = (serve_request lib h a req_ip hw options).0 in
    let (l, lease, kept) =
      request_lease lib h a req_ip hw options old (IsNamed hostname) found (name, override)
        (λ n.
          let (x, y) = granted_override lib h a req_ip hw options n old found (rw override named) in
          (x ∙ override, y ∙ override)) in
    rw same (requested-IsNamed lib h' hw hostname l rest named own lease kept)

-- A hostname set by the administrator survives any number of the client's requests: in a database that
-- meets the invariant, if the messages handled directly behind a `SetHostname` that succeeded with a name
-- that is not empty are REQUESTs of that client, then, whatever they request and whatever hostname they
-- send, the client has a lease behind them that carries that name.
pub rename_survives_requests :
    (lib : DhcpLibrary) (h : Handler) (hw hostname : Bytes) (now : ℕ)
    (messages : List (Ambient × Packet × Options))
    → Inv h
    → hostname ≢ []
    → FromClient hw messages
    → (set_hostname h now hw hostname).1 ≡ HostnameResult.hostname_set
    → (l : Lease) × (lease_hw (requested lib (set_hostname h now hw hostname).0 messages) hw
        ≡ some l)
      × (l.hostname ≡ hostname)
      × (l.hostname_override ≡ hostname)
rename_survives_requests lib h hw hostname now messages v named own done =
    let (old, found, name, override) = renamed_lease h now hw hostname v done in
    let (l, lease, (kept, kept')) =
      requested-IsNamed lib (set_hostname h now hw hostname).0 hw hostname old messages named own
        found (name, override) in
    (l, lease, kept, kept')

-- A declined address is free at once: under the invariant, after a DECLINE at a time that is not zero, of
-- a client that has a lease, at any later time, any client may lease that number.
pub declined_is_Leasable :
    (lib : DhcpLibrary) (h : Handler) (a : Ambient) (p : Packet) (options : Options) (l : Lease)
    (t : ℕ) (hw : Bytes)
    → Inv h
    → lease_hw h (mac_string p.ch_addr) ≡ some l
    → 0 < a.lease_now
    → a.lease_now < t
    → Leasable (serve_dhcp lib h a p decline options).0 t hw l.num
unfolding serve_dhcp dispatch expired
declined_is_Leasable lib h a p options l t hw v found nonzero later =
    let own = mac_string p.ch_addr in
    elim (expire_lease-cases h a.lease_now own v) [
      | inl (fresh, _) ↦ absurd (ground arith)
      | inr (k, found', e) ↦
          let same : k ≡ l = ground arith in
          let l' = record l { expiry = a.lease_now } in
          rw (e, same)
            (record {
              within = v.ranged l.num l (lease_hw-some h own l v found).1;
              available = inr (
                l',
                ground (arith, lookup-insert ℤ-discrete l.num l.num l' h.leases_ip),
                inr (ground arith),
              );
            })
    ]
