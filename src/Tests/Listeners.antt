-- ===== src/Tests/Listeners.antt =====
-- The listeners of a router with one uplink, one LAN interface and one DHCPv6 prefix.
use rout.Base.{◌≡◌, refl, [], ◌∷◌, some, Bytes-discrete, lookup, insert, delete, text}
use rout.Netmask.{IpNet}
use rout.Netconfig.Firewall.{contents}
use rout.Netconfig.Lease.{first_address}
use rout.Networking.{
  has_prefix, is_private_addr, host, hosts_of, interface_addrs, private_interface_addrs,
}
use rout.Multilisten.Pool.{
  new_pool, all_hosts, add_listener, confirm, close_vanished, listen_and_serve,
}
use rout.Listeners.{net1, updated, panics, ipv6_net1, update_listeners, update_listeners_net1}
use rout.Listeners.Private.{Listens, update_listeners-Serves}
use rout.Tests.Networking.{ip_library, two_interfaces}

abbrev prefix : IpNet
prefix = record { ip = 42 ∷ 2 ∷ 0 ∷ []; mask = [] }

private_hosts : private_interface_addrs ip_library two_interfaces ≡ some (text "lo" ∷ [])
unfolding private_interface_addrs interface_addrs hosts_of is_private_addr has_prefix host
    Bytes-discrete
private_hosts = refl

only_lan :
    update_listeners ip_library (some two_interfaces) new_pool
    ≡ updated (record {
      listeners = (text "lo", 0) ∷ [];
      made = 1;
      serving = (0, text "lo") ∷ [];
      closed = [];
    })
unfolding update_listeners private_interface_addrs interface_addrs hosts_of is_private_addr
    has_prefix host Bytes-discrete listen_and_serve confirm all_hosts add_listener close_vanished
    lookup insert delete
only_lan = refl

-- A prefix of the lease without an address.
no_address :
    update_listeners_net1 ip_library (contents (record prefix { ip = [] } ∷ [])) (some []) new_pool
    ≡ panics
unfolding update_listeners_net1 ipv6_net1 first_address private_interface_addrs interface_addrs
no_address = refl

prefix_address : ipv6_net1 (λ ip. ip) (contents (prefix ∷ [])) ≡ net1 (42 ∷ 2 ∷ 1 ∷ [])
unfolding ipv6_net1 first_address
prefix_address = refl

update_listeners-Serves_example :
    Listens ip_library two_interfaces []
      (update_listeners ip_library (some two_interfaces) new_pool)
    × Listens ip_library two_interfaces
        ((42 ∷ 2 ∷ 1 ∷ []) ∷ [])
        (update_listeners_net1 ip_library (contents (prefix ∷ [])) (some two_interfaces) new_pool)
update_listeners-Serves_example =
    update_listeners-Serves ip_library (contents (prefix ∷ [])) two_interfaces (text "lo" ∷ [])
      ((42 ∷ 2 ∷ 1 ∷ []) ∷ []) new_pool private_hosts (42 ∷ 2 ∷ [], 0, refl, refl) tt
