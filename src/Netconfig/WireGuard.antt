-- ===== src/Netconfig/WireGuard.antt =====
-- netconfig/wireguard.go: `applyWireGuard`.
use rout.Base.{
  ◌>>=◌, if◌then◌else◌, Bool, true, List, [], ◌∷◌, Option, none, some, Bytes, ℤ, ◌||◌, false,
}
use rout.Netconfig.Firewall.{File, missing, unreadable, malformed, contents}
use rout.Netconfig.Links.{
  Link, PeerConfig, DeviceConfig, Op, link_add, configure_device, Action, skip, give_up, ◌>>◌, call,
}
use rout.Netconfig.Bridges.{link_by_name}

pub record WireguardPeer : Type 0 where
  pub public_key : Bytes
  pub endpoint : Bytes
  pub allowed_ips : List Bytes

pub record WireguardInterface : Type 0 where
  pub name : Bytes
  pub private_key : Bytes
  pub port : ℤ
  pub peers : List WireguardPeer

-- What the code calls: the network of `net.ParseCIDR`, `base64.StdEncoding.DecodeString`,
-- `wgtypes.NewKey`, `net.ResolveUDPAddr`, and the link that the kernel makes for a new device among the
-- given ones.
pub record WireguardLibrary : Type 0 where
  pub parse_cidr : Bytes → Option Bytes
  pub decode_string : Bytes → Option Bytes
  pub new_key : Bytes → Option Bytes
  pub resolve_udp_addr : Bytes → Option Bytes
  pub new_device : List Link → Bytes → Link

module _ (lib : WireguardLibrary) where
  unfoldable pub parse_ips : List Bytes → Option (List Bytes)
  parse_ips [] = some []
  parse_ips (ip ∷ ips) = do ipnet ← lib.parse_cidr ip; rest ← parse_ips ips; some (ipnet ∷ rest)

  unfoldable pub read_key : Bytes → Option Bytes
  read_key s = do b ← lib.decode_string s; lib.new_key b

  -- `addr`, which stays nil without an endpoint.
  unfoldable pub read_endpoint : Bytes → Option (Option Bytes)
  read_endpoint [] = some none
  read_endpoint (c ∷ rest) = do addr ← lib.resolve_udp_addr (c ∷ rest); some (some addr)

  unfoldable pub read_peer : WireguardPeer → Option PeerConfig
  read_peer p = do
    ips ← parse_ips p.allowed_ips
    key ← read_key p.public_key
    addr ← read_endpoint p.endpoint
    some (record {
      public_key = key;
      endpoint = addr;
      replace_allowed_ips = true;
      allowed_ips = ips;
    })

  unfoldable pub read_peers : List WireguardPeer → Option (List PeerConfig)
  read_peers [] = some []
  read_peers (p ∷ ps) = do peer ← read_peer p; peers ← read_peers ps; some (peer ∷ peers)

  unfoldable pub read_device : WireguardInterface → Option DeviceConfig
  read_device iface = do
    peers ← read_peers iface.peers
    key ← read_key iface.private_key
    some (record {
      private_key = key;
      listen_port = iface.port;
      replace_peers = true;
      peers = peers;
    })

  module _ (fails : Op → Bool) where
    -- `LinkAdd`, whose error EEXIST is passed over.
    unfoldable pub add_device : Bytes → Action
    add_device name w = elim (link_by_name name w.links) [
      | some _ ↦ (w, true)
      | none ↦ call fails (link_add (lib.new_device w.links name)) w
    ]

    unfoldable pub configure_interface : WireguardInterface → Action
    configure_interface iface = elim (read_device iface) [
      | none ↦ give_up
      | some c ↦ call fails (configure_device iface.name c)
    ]

    -- The loop over the interfaces.
    unfoldable pub configure_interfaces : List WireguardInterface → Action
    configure_interfaces [] = skip
    configure_interfaces (iface ∷ rest) =
        add_device iface.name >> configure_interface iface >> configure_interfaces rest

    -- `handle_fails` is an error of `NewHandle`, and `client_fails` one of `wgctrl.New`.
    unfoldable pub apply_wireguard : Bool → Bool → File (List WireguardInterface) → Action
    apply_wireguard handle_fails client_fails missing w = (w, true)
    apply_wireguard handle_fails client_fails unreadable w = (w, false)
    apply_wireguard handle_fails client_fails malformed w = (w, false)
    apply_wireguard handle_fails client_fails (contents ifaces) w =
        if handle_fails || client_fails then (w, false) else configure_interfaces ifaces w
