-- ===== src/Listeners/Private.antt =====
-- The router's daemons listen at private addresses only.
use rout.Base.{
  ℕ, ◌≡◌, ◌⊎◌, inl, inr, refl, true, false, Bool-cases, List, [], ◌∷◌, ◌++◌, append-nil, Option,
  none, some, Bytes, Bytes-discrete, Distinct, arith,
}
use rout.Netmask.{IpNet}
use rout.Netconfig.Firewall.{File, missing, unreadable, malformed, contents}
use rout.Netconfig.Lease.{first_address}
use rout.Networking.{IpLibrary, Interface, private_interface_addrs}
use rout.Multilisten.Pool.{Pool, listen_and_serve}
use rout.Multilisten.Hosts.{listener_of, listed}
use rout.Multilisten.Serving.{Served, listen_and_serve-Served}
use rout.Listeners.{
  Net1, net1, no_net1, net1_panics, ipv6_net1, Updated, updated, listened, update_listeners,
  update_listeners_net1, with_net1,
}
use rout.Listeners.Hosts.{
  PrivateHost, interface_addrs-PrivateHost, interface_addrs_complete, listed-append, listed-left,
  listed-right,
}

first_address-snoc :
    (front : Bytes) (last : ℕ) → first_address (front ++ (last ∷ [])) ≡ some (front ++ (1 ∷ []))
unfolding first_address
first_address-snoc [] last = refl
first_address-snoc (b ∷ []) last = refl
first_address-snoc (b ∷ c ∷ front) last = rw (first_address-snoc (c ∷ front) last) refl

module _ (lib : IpLibrary) where
  -- The host `h` after an update with the further hosts `extra`: it has a listener exactly if it is a
  -- private address or one of those.
  abbrev pub Serves : List Interface → List Bytes → Pool → Bytes → Type 0
  Serves ifaces extra q h =
      ((ln : ℕ) × (listener_of q h ≡ some ln)
        × (PrivateHost lib ifaces h ⊎ (listed h extra ≡ true)))
      ⊎ ((listener_of q h ≡ none) × (¬ PrivateHost lib ifaces h) × (listed h extra ≡ false))

  which :
      (ifaces : List Interface) (hosts extra : List Bytes) (h : Bytes)
      → private_interface_addrs lib ifaces ≡ some hosts
      → listed h (hosts ++ extra) ≡ true
      → PrivateHost lib ifaces h ⊎ (listed h extra ≡ true)
  unfolding private_interface_addrs
  which ifaces hosts extra h read is = elim (listed-append h hosts extra is) [
    | inl here ↦ inl (interface_addrs-PrivateHost lib ifaces hosts h read here)
    | inr there ↦ inr there
  ]

  neither :
      (ifaces : List Interface) (hosts extra : List Bytes) (h : Bytes)
      → private_interface_addrs lib ifaces ≡ some hosts
      → listed h (hosts ++ extra) ≡ false
      → (¬ PrivateHost lib ifaces h) × (listed h extra ≡ false)
  unfolding private_interface_addrs
  neither ifaces hosts extra h read out = (
    λ p.
        let here =
          interface_addrs_complete lib ifaces hosts h p.iface p.addrs read p.known p.is_up p.read
            (p.ip, p.has, p.no_uplink, p.is_private, p.same) in
        let there = listed-left lib h hosts extra here in absurd (ground arith),
    elim (Bool-cases (listed h extra)) [
      | inl there ↦ let in_all = listed-right lib h hosts extra there in absurd (ground arith)
      | inr outside ↦ outside
    ],
  )

  Served-Serves :
      (ifaces : List Interface) (hosts extra : List Bytes) (p q : Pool) (h : Bytes)
      → private_interface_addrs lib ifaces ≡ some hosts
      → Served p (hosts ++ extra) q h
      → Serves ifaces extra q h
  Served-Serves ifaces hosts extra p q h read s = elim s [
    | inl (ln, is, had, has) ↦ inl (ln, has, which ifaces hosts extra h read is)
    | inr (inl (ln, is, had, has, ge, lt)) ↦ inl (ln, has, which ifaces hosts extra h read is)
    | inr (inr (out, none_left, closed)) ↦
        let (foreign, other) = neither ifaces hosts extra h read out in
        inr (none_left, foreign, other)
  ]

  -- A success that leaves one listener at each of the hosts.
  abbrev pub Listens : List Interface → List Bytes → Updated → Type 0
  Listens ifaces extra result =
      (q : Pool) × (result ≡ updated q)
      × Distinct Bytes-discrete q.listeners
      × ((h : Bytes) → Serves ifaces extra q h)

  -- The hosts that IPv6Net1 adds.
  abbrev pub net1_hosts : Net1 → Option (List Bytes)
  net1_hosts (net1 h) = some (h ∷ [])
  net1_hosts no_net1 = some []
  net1_hosts net1_panics = none

  listened-Serves :
      (ifaces : List Interface) (hosts extra : List Bytes) (p : Pool)
      → private_interface_addrs lib ifaces ≡ some hosts
      → Distinct Bytes-discrete p.listeners
      → Listens ifaces extra (listened (listen_and_serve p (hosts ++ extra)))
  listened-Serves ifaces hosts extra p read once =
      let (q, made, once', at) = listen_and_serve-Served p (hosts ++ extra) once in
      (q, rw made refl, once', λ h. Served-Serves ifaces hosts extra p q h read (at h))

  -- The hosts of the router's addresses in the DHCPv6 lease: the first prefix with 1 for its last byte.
  abbrev pub RouterHosts : File (List IpNet) → List Bytes → Type 0
  RouterHosts (contents (prefix ∷ rest)) extra =
      (front : Bytes) × (last : ℕ) × (prefix.ip ≡ front ++ (last ∷ []))
      × (extra ≡ lib.ip_string (front ++ (1 ∷ [])) ∷ [])
  RouterHosts (contents []) extra = extra ≡ []
  RouterHosts missing extra = extra ≡ []
  RouterHosts unreadable extra = extra ≡ []
  RouterHosts malformed extra = extra ≡ []

  net1_hosts-RouterHosts :
      (file : File (List IpNet)) (extra : List Bytes)
      → RouterHosts file extra
      → net1_hosts (ipv6_net1 lib.ip_string file) ≡ some extra
  unfolding ipv6_net1
  net1_hosts-RouterHosts (contents (prefix ∷ rest)) extra (front, last, is, hosts) =
      let ends : first_address prefix.ip ≡ some (front ++ (1 ∷ [])) =
        rw is (first_address-snoc front last) in
      rw (hosts, ends, ipv6_net1) refl
  net1_hosts-RouterHosts (contents []) extra is = rw is refl
  net1_hosts-RouterHosts missing extra is = rw is refl
  net1_hosts-RouterHosts unreadable extra is = rw is refl
  net1_hosts-RouterHosts malformed extra is = rw is refl

  with_net1_lem :
      (p : Pool) (hosts extra : List Bytes) (n : Net1)
      → net1_hosts n ≡ some extra
      → with_net1 lib p hosts n ≡ listened (listen_and_serve p (hosts ++ extra))
  with_net1_lem p hosts extra (net1 h) e = let is : extra ≡ h ∷ [] = cc in rw is refl
  with_net1_lem p hosts extra no_net1 e = let is : extra ≡ [] = cc in rw (is, append-nil hosts) refl
  with_net1_lem p hosts extra net1_panics e = absurd (ground arith)

  update_listeners-Listens :
      (ifaces : List Interface) (hosts : List Bytes) (p : Pool)
      → private_interface_addrs lib ifaces ≡ some hosts
      → Distinct Bytes-discrete p.listeners
      → Listens ifaces [] (update_listeners lib (some ifaces) p)
  unfolding update_listeners
  update_listeners-Listens ifaces hosts p read once =
      rw (read, update_listeners, ← append-nil hosts) (listened-Serves ifaces hosts [] p read once)

  -- If the addresses of the interfaces can be read, and the first prefix of the DHCPv6 lease, if there is
  -- one, has an address, no daemon's `updateListeners` panics. That of diagd and captured leaves a
  -- listener at exactly the private, loopback, link-local and multicast addresses of the interfaces that
  -- are up and whose names do not begin with `uplink`, link-local ones with their zone; that of netconfigd
  -- and dhcp4d at these and, if there is such a prefix, at its address with 1 for the last byte.
  pub update_listeners-Serves :
      (file : File (List IpNet)) (ifaces : List Interface) (hosts extra : List Bytes) (p : Pool)
      → private_interface_addrs lib ifaces ≡ some hosts
      → RouterHosts file extra
      → Distinct Bytes-discrete p.listeners
      → Listens ifaces [] (update_listeners lib (some ifaces) p)
        × Listens ifaces extra (update_listeners_net1 lib file (some ifaces) p)
  unfolding update_listeners_net1
  update_listeners-Serves file ifaces hosts extra p read prefix once = (
    update_listeners-Listens ifaces hosts p read once,
    rw
        (
          read,
          update_listeners_net1,
          with_net1_lem p hosts extra (ipv6_net1 lib.ip_string file)
              (net1_hosts-RouterHosts file extra prefix),
        )
        (listened-Serves ifaces hosts extra p read once),
  )
