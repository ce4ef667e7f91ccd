-- ===== src/Tests/Apply.antt =====
-- `Apply` on a router with a DHCPv4 lease, a delegated prefix and a tunnel.
use rout.Base.{
  ℕ, ◌≡◌, refl, arith, Bool, true, false, ◌||◌, List, [], ◌∷◌, ◌++◌, none, some, Bytes,
  Bytes-discrete, text, lookup, insert, delete, pos, All,
}
use rout.Net.{mac_string, hex_digit, octets, copy, to4}
use rout.Netmask.{
  IpNet, leading_ones, all_zero, simple_mask_length, mask_size, mask_bytes, cidr_mask,
}
use rout.Strings.{split, cut, replace_all, decimal_digits, format_decimal}
use rout.Strconv.{
  digit_of, split_base, parse_digits, has_underscore, underscores_separate, underscore_ok,
  parse_uint,
}
use rout.Dhcp4.Client.{Config}
use rout.Netconfig.Forward.{nfifname, forward_rules}
use rout.Netconfig.Firewall.{
  missing, contents, CounterObj, ipv4, same_table, get_counter_obj, filter_commands, forwardings,
  batch, apply_firewall, filter_table,
}
use rout.Netconfig.Links.{
  Link, World, Op, write_sysctl, update, contains, remove, same_dst, put_route, perform, ◌>>◌, call,
}
use rout.Netconfig.Bridges.{
  link_by_name, create_bridge, up_unless, add_ports, fill_bridge, apply_bridges,
}
use rout.Netconfig.Interfaces.{
  NetLibrary, index_by_name, index_by_hardware_addr, choose_details, rename, spoof, bring_up,
  point_resolver, set_addr, configure_link, apply_details, configure_links, apply_interfaces,
}
use rout.Netconfig.Lease.{
  parse_parts, subnet_mask_size, v4_addrs, addrs_of, delete_addrs, delete_old, replace_lease,
  configure_uplink, apply_dhcp4, succeeded, first_address, narrow_mask, lan_prefix, add_prefixes,
  apply_dhcp6,
}
use rout.Netconfig.Moves.{Unlike}
use rout.Netconfig.Leased.{Leased, apply_dhcp4-Leased}
use rout.Netconfig.Subnet.{dotted, subnet_mask_size-cidr_mask}
use rout.Netconfig.Delegated.{Given, apply_dhcp6-Given}
use rout.Netconfig.WireGuard.{
  WireguardInterface, WireguardLibrary, parse_ips, read_key, read_endpoint, read_peer, read_peers,
  read_device, add_device, configure_interface, configure_interfaces, apply_wireguard,
}
use rout.Netconfig.Tunnels.{Readable, wanted, apply_wireguard-wanted}
use rout.Netconfig.Apply.{
  first_link, uplink_interface, write_sysctls, apply_sysctl, notify, Files, Reads, errors, sysctl,
  send_batch, ifname_or_empty, apply_filters, apply_forwarding, apply_routing, apply_leases, apply,
}
use rout.Netconfig.Sysctls.{Forwards}
use rout.Netconfig.Filtering.{leased, apply-firewall}
use rout.Netconfig.Applied.{Filtered, apply-nil}

unfoldable pub program : Unit {0}
unfolding mac_string hex_digit octets copy to4 leading_ones all_zero simple_mask_length mask_size
    mask_bytes cidr_mask split cut replace_all decimal_digits format_decimal digit_of split_base
    parse_digits has_underscore underscores_separate underscore_ok parse_uint nfifname forward_rules
    same_table get_counter_obj filter_commands forwardings apply_firewall update contains remove
    same_dst put_route perform ◌>>◌ call link_by_name create_bridge up_unless add_ports fill_bridge
    apply_bridges index_by_name index_by_hardware_addr choose_details rename spoof bring_up
    point_resolver set_addr configure_link apply_details configure_links apply_interfaces
    parse_parts subnet_mask_size v4_addrs addrs_of delete_addrs delete_old replace_lease
    configure_uplink apply_dhcp4 first_address narrow_mask lan_prefix add_prefixes apply_dhcp6
    parse_ips read_key read_endpoint read_peer read_peers read_device add_device configure_interface
    configure_interfaces apply_wireguard first_link uplink_interface write_sysctls apply_sysctl
    notify send_batch apply_filters apply_forwarding apply_routing apply_leases apply Unlike lookup
    insert delete Bytes-discrete
program = tt

abbrev link : ℕ → Bytes → List Bytes → Link
link index name addrs = record {
  index = index;
  name = name;
  hardware_addr = [];
  up = true;
  master = none;
  addrs = addrs;
}

-- An address with a dot is one of IPv4.
abbrev pub lib : NetLibrary
lib = record {
  parse_mac = λ s. none;
  parse_addr = λ s. some s;
  addr_ip = λ a. a;
  is_v4 = λ a. elim (cut b'.' a) [ none ↦ false | some _ ↦ true ];
  parse_ip = λ s. s;
  ipnet_string = λ n. n.ip;
  new_bridge = λ links name. link 100 name [];
}

abbrev pub wg : WireguardLibrary
wg = record {
  parse_cidr = λ s. some s;
  decode_string = λ s. some s;
  new_key = λ b. some b;
  resolve_udp_addr = λ s. some s;
  new_device = λ links name. link 200 name [];
}

abbrev pub no_failure : Op → Bool
no_failure op = false

-- Nothing can be written under /proc/sys.
abbrev sysctl_failure : Op → Bool
sysctl_failure (write_sysctl path val) = true
sysctl_failure op = false

abbrev lo : Link
lo = link 1 (text "lo") []

abbrev uplink : Link
uplink = link 2 (text "uplink0") (text "9.9.9.9/24" ∷ text "fe80::1/64" ∷ [])

abbrev lan : Link
lan = link 3 (text "lan0") (text "192.168.42.1/24" ∷ [])

abbrev pub world : World
world = record {
  links = lo ∷ uplink ∷ lan ∷ [];
  resolv_conf = none;
  routes = [];
  devices = [];
  sysctls = [];
  firewall = [];
  signalled = [];
}

abbrev lease : Config
lease = record {
  renew_after = 0;
  client_ip = text "10.0.0.2";
  subnet_mask = text "255.255.255.0";
  router = text "10.0.0.1";
  dns = [];
}

abbrev prefixes : List IpNet
prefixes = record { ip = 42 ∷ 0 ∷ 0 ∷ []; mask = cidr_mask 48 128 } ∷ []

abbrev tunnel : WireguardInterface
tunnel = record {
  name = text "wg0";
  private_key = text "secret";
  port = pos 51820;
  peers =
      record { public_key = text "key"; endpoint = []; allowed_ips = text "10.0.137.0/24" ∷ [] }
      ∷ [];
}

abbrev pub files : Files
files = record {
  interfaces = missing;
  dhcp4_lease = contents lease;
  dhcp6_lease = contents prefixes;
  portforwardings = contents [];
  wireguard = contents (tunnel ∷ []);
}

abbrev pub reads : Reads
reads = record {
  list_fails = false;
  handle_fails = false;
  addr_list_fails = false;
  wg_handle_fails = false;
  client_fails = false;
  kernel = record { objects = λ family. none; flush_fails = false };
}

abbrev pub zero_counter : CounterObj
zero_counter = record { table = filter_table ipv4; name = text "fwded"; bytes = 0; packets = 0 }

abbrev behind_dhcp4 : World
behind_dhcp4 = (apply_dhcp4 lib no_failure false false (contents lease) world).0

leases : apply_dhcp4 lib no_failure false false (contents lease) world ≡ (behind_dhcp4, true)
unfolding program
leases = refl

-- The old address of IPv4 is gone.
leased_addresses : addrs_of 2 behind_dhcp4.links ≡ text "10.0.0.2/24" ∷ text "fe80::1/64" ∷ []
unfolding program
leased_addresses = refl

apply_dhcp4-Leased_example :
    Leased lib no_failure lease world behind_dhcp4 (lo ∷ []) uplink (lan ∷ [])
unfolding program
apply_dhcp4-Leased_example =
    apply_dhcp4-Leased lib no_failure false false lease world behind_dhcp4 (lo ∷ []) uplink
      (lan ∷ []) (λ size addr e. ground arith) refl refl (refl, tt) leases

subnet_mask_size-cidr_mask_example : subnet_mask_size (dotted (cidr_mask 23 32)) ≡ some 23
subnet_mask_size-cidr_mask_example = subnet_mask_size-cidr_mask 23 (omega arith)

abbrev behind_dhcp6 : World
behind_dhcp6 = (apply_dhcp6 lib no_failure (contents prefixes) world).0

delegates : apply_dhcp6 lib no_failure (contents prefixes) world ≡ (behind_dhcp6, succeeded)
unfolding program
delegates = refl

apply_dhcp6-Given_example :
    (xs : List Bytes) × (addrs : List Bytes) × Given lib no_failure prefixes xs
    × (behind_dhcp6.links ≡ (lo ∷ uplink ∷ []) ++ (record lan { addrs = addrs } ∷ []))
    × ((a : Bytes) → contains addrs a ≡ (contains lan.addrs a || contains xs a))
unfolding program
apply_dhcp6-Given_example =
    apply_dhcp6-Given lib no_failure prefixes world behind_dhcp6 (lo ∷ uplink ∷ []) lan [] refl refl
      (refl, (refl, tt)) delegates

abbrev behind_wireguard : World
behind_wireguard = (apply_wireguard wg no_failure false false (contents (tunnel ∷ [])) world).0

configures :
    apply_wireguard wg no_failure false false (contents (tunnel ∷ [])) world
    ≡ (behind_wireguard, true)
unfolding program
configures = refl

apply_wireguard-wanted_example :
    All (Readable wg) (tunnel ∷ [])
    × ((name : Bytes)
        → lookup Bytes-discrete name behind_wireguard.devices
          ≡ wanted wg name (tunnel ∷ []) (lookup Bytes-discrete name world.devices))
apply_wireguard-wanted_example =
    apply_wireguard-wanted wg no_failure false false (tunnel ∷ []) world behind_wireguard configures

-- `Apply` where nothing can be written under /proc/sys, and where all goes well.
abbrev without_sysctls : World
without_sysctls = (apply lib wg zero_counter sysctl_failure files reads world).0

abbrev pub applied : World
applied = (apply lib wg zero_counter no_failure files reads world).0

sysctls_fail :
    apply lib wg zero_counter sysctl_failure files reads world
    ≡ (without_sysctls, errors (sysctl ∷ []))
unfolding program
sysctls_fail = refl

all_well : apply lib wg zero_counter no_failure files reads world ≡ (applied, errors [])
unfolding program
all_well = refl

up : apply_interfaces lib sysctl_failure false missing world ≡ (world, true)
unfolding program
up = refl

uplink_found :
    text "uplink0"
    ≡ ifname_or_empty
        (uplink_interface (leased lib wg zero_counter sysctl_failure files reads world).links)
unfolding program
uplink_found = refl

no_rules : forwardings lib.parse_ip (text "uplink0") (contents []) ≡ some []
unfolding program
no_rules = refl

apply-firewall_example :
    without_sysctls.firewall ≡ batch (text "uplink0") zero_counter reads.kernel []
apply-firewall_example =
    apply-firewall lib wg zero_counter sysctl_failure files reads (text "uplink0") [] no_rules refl
      world world without_sysctls (sysctl ∷ []) up uplink_found sysctls_fail

apply-nil_example :
    (w1 : World) × (apply_interfaces lib no_failure false missing world ≡ (w1, true))
    × (w2 : World) × (apply_dhcp4 lib no_failure false false (contents lease) w1 ≡ (w2, true))
    × (w3 : World) × (apply_dhcp6 lib no_failure (contents prefixes) w2 ≡ (w3, succeeded))
    × Filtered lib wg zero_counter no_failure files reads
        (ifname_or_empty (uplink_interface w3.links))
        applied
    × Forwards applied.sysctls
apply-nil_example = apply-nil lib wg zero_counter no_failure files reads world applied all_well
