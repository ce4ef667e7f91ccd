-- ===== src/Netconfig/Tunnels.antt =====
-- What `applyWireGuard` makes of the devices.
use rout.Base.{
  ◌≡◌, ◌∙◌, sym, ap, inl, inr, if◌then◌else◌, Bool, Bool-cases, Option-cases, true, List, [], ◌∷◌,
  Option, some, Bytes, Bytes-discrete, insert, lookup, lookup-insert, All, arith, ◌||◌,
}
use rout.Net.{bytes_eq}
use rout.Netconfig.Firewall.{contents}
use rout.Netconfig.Links.{PeerConfig, DeviceConfig, World, Op, perform, ◌>>◌, call}
use rout.Netconfig.WireGuard.{
  WireguardPeer, WireguardInterface, WireguardLibrary, parse_ips, read_key, read_endpoint,
  read_peer, read_peers, read_device, add_device, configure_interface, configure_interfaces,
  apply_wireguard,
}
use rout.Netconfig.Moves.{seq-cases}

module _ (lib : WireguardLibrary) where
  -- A peer's configuration has its key, its endpoint, and its networks in place of any old ones.
  abbrev pub PeerOf : WireguardPeer → PeerConfig → Type 0
  PeerOf p c =
      (read_key lib p.public_key ≡ some c.public_key)
      × (read_endpoint lib p.endpoint ≡ some c.endpoint)
      × (c.replace_allowed_ips ≡ true)
      × (parse_ips lib p.allowed_ips ≡ some c.allowed_ips)

  abbrev pub PeersOf : List WireguardPeer → List PeerConfig → Type 0
  PeersOf [] [] = Unit
  PeersOf [] (c ∷ cs) = ⊥
  PeersOf (p ∷ ps) [] = ⊥
  PeersOf (p ∷ ps) (c ∷ cs) = PeerOf p c × PeersOf ps cs

  abbrev pub DeviceOf : WireguardInterface → DeviceConfig → Type 0
  DeviceOf iface c =
      (read_key lib iface.private_key ≡ some c.private_key)
      × (c.listen_port ≡ iface.port)
      × (c.replace_peers ≡ true)
      × PeersOf iface.peers c.peers

  read_peer-PeerOf : (p : WireguardPeer) (c : PeerConfig) → read_peer lib p ≡ some c → PeerOf p c
  unfolding read_peer
  read_peer-PeerOf p c e = elim (Option-cases (parse_ips lib p.allowed_ips)) [
    | inl bad ↦ absurd (ground arith)
    | inr (ips, parsed) ↦ elim (Option-cases (read_key lib p.public_key)) [
      | inl bad ↦ absurd (ground arith)
      | inr (key, decoded) ↦ elim (Option-cases (read_endpoint lib p.endpoint)) [
        | inl bad ↦ absurd (ground arith)
        | inr (addr, resolved) ↦ (ground arith, ground arith, ground arith, ground arith)
      ]
    ]
  ]

  read_peers-PeersOf :
      (ps : List WireguardPeer) (cs : List PeerConfig) → read_peers lib ps ≡ some cs → PeersOf ps cs
  unfolding read_peers
  read_peers-PeersOf [] [] e = tt
  read_peers-PeersOf [] (c ∷ cs) e = cc
  read_peers-PeersOf (p ∷ ps) cs e = elim (Option-cases (read_peer lib p)) [
    | inl bad ↦ absurd (ground arith)
    | inr (c, read) ↦ elim (Option-cases (read_peers lib ps)) [
      | inl bad ↦ absurd (ground arith)
      | inr (more, read_more) ↦
          let is : c ∷ more ≡ cs = ground arith in
          rw (← is) (read_peer-PeerOf p c read, read_peers-PeersOf ps more read_more)
    ]
  ]

  read_device-DeviceOf :
      (iface : WireguardInterface) (c : DeviceConfig)
      → read_device lib iface ≡ some c
      → DeviceOf iface c
  unfolding read_device
  read_device-DeviceOf iface c e = elim (Option-cases (read_peers lib iface.peers)) [
    | inl bad ↦ absurd (ground arith)
    | inr (peers, read) ↦ elim (Option-cases (read_key lib iface.private_key)) [
      | inl bad ↦ absurd (ground arith)
      | inr (key, decoded) ↦
          let is : peers ≡ c.peers = ground arith in
          (
            ground arith,
            ground arith,
            ground arith,
            rw (← is) (read_peers-PeersOf iface.peers peers read),
          )
    ]
  ]

  -- The configuration of the device `name` behind the loop, from an old one: that of the last interface
  -- with this name.
  abbrev pub wanted : Bytes → List WireguardInterface → Option DeviceConfig → Option DeviceConfig
  wanted name [] old = old
  wanted name (iface ∷ rest) old =
      wanted name rest (if bytes_eq iface.name name then read_device lib iface else old)

  -- Every interface is read as what the kernel is to make of it.
  abbrev pub Readable : WireguardInterface → Type 0
  Readable iface = (c : DeviceConfig) × (read_device lib iface ≡ some c) × DeviceOf iface c

  module _ (fails : Op → Bool) where
    add_device-devices :
        (name : Bytes) (w w' : World)
        → add_device lib fails name w ≡ (w', true)
        → w'.devices ≡ w.devices
    unfolding add_device call perform
    add_device-devices name w w' e = ground arith

    configure_interface-devices :
        (iface : WireguardInterface) (w w' : World)
        → configure_interface lib fails iface w ≡ (w', true)
        → (c : DeviceConfig) × (read_device lib iface ≡ some c)
          × (w'.devices ≡ insert Bytes-discrete iface.name c w.devices)
    unfolding configure_interface call perform
    configure_interface-devices iface w w' e = elim (Option-cases (read_device lib iface)) [
      | inl bad ↦ absurd (ground arith)
      | inr (c, read) ↦ (c, read, ground arith)
    ]

    configure_interfaces-wanted :
        (ifaces : List WireguardInterface) (w w' : World)
        → configure_interfaces lib fails ifaces w ≡ (w', true)
        → All Readable ifaces
          × ((name : Bytes)
              → lookup Bytes-discrete name w'.devices
                ≡ wanted name ifaces (lookup Bytes-discrete name w.devices))
    unfolding configure_interfaces
    configure_interfaces-wanted [] w w' e =
        (tt, λ name. ap (λ (r : World × Bool). lookup Bytes-discrete name r.0.devices) (sym e))
    configure_interfaces-wanted (iface ∷ rest) w w' e =
        let (w2, e12, e3) =
          seq-cases (add_device lib fails iface.name >> configure_interface lib fails iface)
            (configure_interfaces lib fails rest) w w' e in
        let (w1, e1, e2) =
          seq-cases (add_device lib fails iface.name) (configure_interface lib fails iface) w w2
            e12 in
        let (c, read, made) = configure_interface-devices iface w1 w2 e2 in
        let same = add_device-devices iface.name w w1 e1 in
        let (all, law) = configure_interfaces-wanted rest w2 w' e3 in
        let found : (name : Bytes)
            → lookup Bytes-discrete name w2.devices ≡ (
                if bytes_eq iface.name name
                then read_device lib iface
                else lookup Bytes-discrete name w.devices) =
          λ name.
            rw (made, same, read)
              (lookup-insert Bytes-discrete name iface.name c w.devices ∙ ground arith) in
        (
          ((c, read, read_device-DeviceOf iface c read), all),
          λ name. law name ∙ ap (wanted name rest) (found name),
        )

    -- If `applyWireGuard` succeeds on interfaces that it can read, then each of them is well formed:
    -- its device's configuration has its private key and port, and in place of any old peers exactly
    -- its own, each with its key, endpoint and networks; each device has last been given that of the
    -- last interface with its name, and a device that no interface names is as before.
    pub apply_wireguard-wanted :
        (handle_fails client_fails : Bool) (ifaces : List WireguardInterface) (w w' : World)
        → apply_wireguard lib fails handle_fails client_fails (contents ifaces) w ≡ (w', true)
        → All Readable ifaces
          × ((name : Bytes)
              → lookup Bytes-discrete name w'.devices
                ≡ wanted name ifaces (lookup Bytes-discrete name w.devices))
    unfolding apply_wireguard
    apply_wireguard-wanted handle_fails client_fails ifaces w w' e =
        elim (Bool-cases (handle_fails || client_fails)) [
          | inl bad ↦ absurd (ground arith)
          | inr fine ↦ configure_interfaces-wanted ifaces w w' (rw (fine, apply_wireguard) at e)
        ]
