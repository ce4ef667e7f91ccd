-- ===== src/Listeners.antt =====
-- `updateListeners` of cmd/diagd, cmd/captured, cmd/dhcp4d and cmd/netconfigd, and IPv6Net1.
pub mod Hosts
pub mod Private
use rout.Base.{◌≡◌, ◌≢◌, ◌⊎◌, inl, inr, refl, List, [], ◌∷◌, ◌++◌, Option, none, some, Bytes}
use rout.Netmask.{IpNet}
use rout.Netconfig.Firewall.{File, contents}
use rout.Netconfig.Lease.{first_address}
use rout.Networking.{IpLibrary, Interface, private_interface_addrs}
use rout.Multilisten.Pool.{Pool, listen_and_serve}

-- The address of `IPv6Net1`, its error, or the index out of range for a prefix without an address.
pub data Net1 : Type 0 where
  net1 : Bytes → Net1
  no_net1 : Net1
  net1_panics : Net1

unfoldable pub ipv6_net1 : (Bytes → Bytes) → File (List IpNet) → Net1
ipv6_net1 ip_string (contents (prefix ∷ _)) = elim (first_address prefix.ip) [
  | none ↦ net1_panics
  | some ip ↦ net1 (ip_string ip)
]
ipv6_net1 ip_string _ = no_net1

-- An error leaves the pool as it was.
pub data Updated : Type 0 where
  updated : Pool → Updated
  failed : Pool → Updated
  panics : Updated

abbrev pub listened : Option Pool → Updated
listened none = panics
listened (some p) = updated p

module _ (lib : IpLibrary) where
  -- The function of cmd/diagd and cmd/captured; `none` is an error of `net.Interfaces`.
  unfoldable pub update_listeners : Option (List Interface) → Pool → Updated
  update_listeners none p = failed p
  update_listeners (some ifaces) p = elim (private_interface_addrs lib ifaces) [
    | none ↦ failed p
    | some hosts ↦ listened (listen_and_serve p hosts)
  ]

  abbrev pub with_net1 : Pool → List Bytes → Net1 → Updated
  with_net1 p hosts (net1 h) = listened (listen_and_serve p (hosts ++ (h ∷ [])))
  with_net1 p hosts no_net1 = listened (listen_and_serve p hosts)
  with_net1 p hosts net1_panics = panics

  -- The function of cmd/dhcp4d and cmd/netconfigd.
  unfoldable pub update_listeners_net1 :
      File (List IpNet) → Option (List Interface) → Pool → Updated
  update_listeners_net1 file none p = failed p
  update_listeners_net1 file (some ifaces) p = elim (private_interface_addrs lib ifaces) [
    | none ↦ failed p
    | some hosts ↦ with_net1 p hosts (ipv6_net1 lib.ip_string file)
  ]
