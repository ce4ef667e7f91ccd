-- ===== src/Tests/Networking.antt =====
-- The address lists' theorem at an uplink and a LAN interface.
use rout.Base.{true, false, List, [], ◌∷◌, some, text}
use rout.Net.{bytes_eq}
use rout.Networking.{
  Interface, IpLibrary, Splits, interface_addrs, private_interface_addrs, public_interface_addrs,
  addrs-Splits,
}

-- A library of addresses in which a text that is `lo` is private.
abbrev pub ip_library : IpLibrary
ip_library = record {
  is_private = λ ip. bytes_eq ip (text "lo");
  is_loopback = λ ip. false;
  is_link_local_unicast = λ ip. false;
  is_multicast = λ ip. false;
  ip_string = λ ip. ip;
}

abbrev pub two_interfaces : List Interface
two_interfaces =
    record { name = text "uplink0"; is_up = true; addrs = some (some (text "hi") ∷ []) }
    ∷ record { name = text "lan0"; is_up = true; addrs = some (some (text "lo") ∷ []) }
    ∷ []

two_lists :
    Splits ip_library
      (private_interface_addrs ip_library two_interfaces)
      (public_interface_addrs ip_library two_interfaces)
      (interface_addrs ip_library (λ iface addr. true) two_interfaces)
two_lists = addrs-Splits ip_library two_interfaces
