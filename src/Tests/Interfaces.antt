-- ===== src/Tests/Interfaces.antt =====
-- `applyInterfaces` on a router with two links and a bridge.
use rout.Base.{
  ℕ, ◌≡◌, refl, Bool, true, false, [], ◌∷◌, ◌++◌, map, none, some, Bytes, Bytes-discrete, text,
  lookup, insert, delete,
}
use rout.Net.{mac_string, hex_digit, octets}
use rout.Netconfig.Firewall.{contents}
use rout.Netconfig.Links.{
  Link, World, Op, contains, update, has_port, hardware_addr_of, take_address, perform, ◌>>◌, call,
}
use rout.Netconfig.Bridges.{
  link_by_name, create_bridge, up_unless, add_ports, fill_bridge, apply_bridges,
}
use rout.Netconfig.Interfaces.{
  InterfaceConfig, NetLibrary, index_by_name, index_by_hardware_addr, choose_details, rename, spoof,
  bring_up, point_resolver, set_addr, configure_link, apply_details, configure_links,
  apply_interfaces,
}
use rout.Netconfig.Configured.{described, apply_interfaces-described}

program : Unit {0}
unfolding update has_port hardware_addr_of take_address perform ◌>>◌ call link_by_name contains
    create_bridge up_unless add_ports fill_bridge apply_bridges index_by_name index_by_hardware_addr
    choose_details rename spoof bring_up point_resolver set_addr configure_link apply_details
    configure_links apply_interfaces mac_string hex_digit octets lookup insert delete Bytes-discrete
program = tt

abbrev lib : NetLibrary
lib = record {
  parse_mac = λ s. some (2 ∷ 3 ∷ []);
  parse_addr = λ s. some s;
  addr_ip = λ a. a;
  is_v4 = λ a. true;
  parse_ip = λ s. s;
  ipnet_string = λ n. n.ip;
  new_bridge = λ links name. record {
    index = 100;
    name = name;
    hardware_addr = [];
    up = false;
    master = none;
    addrs = [];
  };
}

abbrev no_failure : Op → Bool
no_failure op = false

abbrev link : ℕ → Bytes → Bytes → Link
link index name hw = record {
  index = index;
  name = name;
  hardware_addr = hw;
  up = false;
  master = none;
  addrs = [];
}

abbrev found : World
found = record {
  links =
      link 1 (text "lo") []
      ∷ link 2 (text "eth0") (text "aa")
      ∷ link 3 (text "eth1") (text "bb")
      ∷ [];
  resolv_conf = none;
  routes = [];
  devices = [];
  sysctls = [];
  firewall = [];
  signalled = [];
}

abbrev cfg : InterfaceConfig
cfg = record {
  interfaces =
      record {
        hardware_addr = text "aa";
        spoof_hardware_addr = text "02:03";
        name = text "uplink0";
        addr = [];
      }
      ∷ record {
        hardware_addr = [];
        spoof_hardware_addr = [];
        name = text "lan0";
        addr = text "10.0.0.1/24";
      }
      ∷ [];
  bridges = record { name = text "lan0"; interface_hardware_addrs = text "bb" ∷ [] } ∷ [];
}

abbrev configured_world : World
configured_world = record {
  links =
      link 1 (text "lo") []
      ∷ record (link 2 (text "uplink0") (text "02:03")) { up = true }
      ∷ record (link 3 (text "eth1") (text "bb")) { up = true; master = some 100 }
      ∷ record (link 100 (text "lan0") (text "bb")) { up = true; addrs = text "10.0.0.1/24" ∷ [] }
      ∷ [];
  resolv_conf = some (text "nameserver 10.0.0.1/24" ++ (10 ∷ []));
  routes = [];
  devices = [];
  sysctls = [];
  firewall = [];
  signalled = [];
}

applies : apply_interfaces lib no_failure false (contents cfg) found ≡ (configured_world, true)
unfolding program
applies = refl

apply_interfaces-described_example :
    configured_world.links
    ≡ map
        (described lib (index_by_name [] cfg.interfaces) (index_by_hardware_addr [] cfg.interfaces))
        (apply_bridges lib.new_bridge no_failure false cfg.bridges found).0.links
unfolding program
apply_interfaces-described_example =
    apply_interfaces-described lib no_failure cfg found configured_world
      (tt, ((refl, tt), ((refl, (refl, tt)), ((refl, (refl, (refl, tt))), tt)))) applies
