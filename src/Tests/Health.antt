-- ===== src/Tests/Health.antt =====
-- The checks on a host where all is well, and on one without a gateway.
use rout.Base.{
  ◌≡◌, refl, true, List, [], ◌∷◌, ◌++◌, none, some, Bytes, Bytes-discrete, All, text, if◌then◌else◌,
}
use rout.Net.{to4, bytes_eq}
use rout.Netmask.{IpNet, mask_size, simple_mask_length, leading_ones, all_zero}
use rout.Strings.{format_decimal, decimal_digits}
use rout.Networking.{has_prefix}
use rout.Diag.Monitor.{
  own_result, evaluate, evaluate_all, append, then_node, first_error, first_error_in,
}
use rout.Diag.Surroundings.{Try, ok, RouteTo, Surroundings}
use rout.Diag.Checks.{
  global_contains, is_eui64, default_ipv4_gateway, default_ipv6_gateway, evaluate_ping4gw,
  evaluate_ping4, evaluate_ping6gw, bind_address, bind6, is_local, first_reply, ping_all,
  evaluate_ping6, slaac_address, evaluate_ra6, evaluate_tcp, evaluate_link, lease_valid, ping4gw,
  check_name, evaluate_check, leaf,
}
use rout.Diag.Health.{tree, health, Succeeds, checks, health-Succeeds}

abbrev uplink : Bytes
uplink = text "uplink0"

-- 2a02:168:4a00::2cf:5fff:fe53:45f, an address that the host has given itself
abbrev slaac : IpNet
slaac = record {
  ip = 42 ∷ 2 ∷ 1 ∷ 104 ∷ 74 ∷ 0 ∷ 0 ∷ 0 ∷ 2 ∷ 207 ∷ 95 ∷ 255 ∷ 254 ∷ 83 ∷ 4 ∷ 95 ∷ [];
  mask = 255 ∷ 255 ∷ 255 ∷ 255 ∷ 255 ∷ 255 ∷ 255 ∷ 255 ∷ 0 ∷ 0 ∷ 0 ∷ 0 ∷ 0 ∷ 0 ∷ 0 ∷ 0 ∷ [];
}

abbrev print_ip : Bytes → Bytes
print_ip ip = text "2a02:168:4a00::2cf:5fff:fe53:45f"

abbrev gateway : Try (List RouteTo)
gateway = ok (record { gw = text "fe80::1"; link_index = 2 } ∷ [])

abbrev resolve : Bytes → Bytes → Try Bytes
resolve network host =
    if bytes_eq host (text "ff02::2%uplink0") then ok host else ok (text "142.250.203.99")

-- The router and this host itself answer a multicast ping.
abbrev pub well : Surroundings
well = record {
  route_get = λ dst. gateway;
  interface_by_index = λ i. ok uplink;
  addrs_of = λ ifname. ok (none ∷ some slaac ∷ []);
  all_addrs = ok (some slaac ∷ []);
  resolve_ip_addr = resolve;
  new_pinger = λ bind4 bind6. ok tt;
  ping = λ bind4 bind6 addr. ok 3;
  ping_multicast = λ source addr. ok ((print_ip [], 1) ∷ (text "fe80::1%uplink0", 2) ∷ []);
  dial = λ network addr. ok tt;
  link_by_name = λ ifname. ok (record { is_up = true; rx_packets = 5; tx_packets = 3 });
  lease_file = λ fn. ok 1000;
  now = 1000;
  time_string = format_decimal;
  format_rtt = λ rtt. format_decimal rtt ++ text "ms";
  ip_string = print_ip;
  ipnet_string = λ n. print_ip n.ip ++ text "/64";
}

router_answers :
    evaluate_ping6 well [] (text "ff02::2%uplink0") ≡ ok (text "2ms from fe80::1%uplink0")
unfolding evaluate_ping6 bind6 ping_all first_reply is_local Bytes-discrete has_prefix
    format_decimal decimal_digits
router_answers = refl

address_found : evaluate_ra6 well uplink ≡ ok (text "2a02:168:4a00::2cf:5fff:fe53:45f/64")
unfolding evaluate_ra6 slaac_address global_contains is_eui64 mask_size simple_mask_length
    leading_ones all_zero to4 Bytes-discrete
address_found = refl

-- A route that no gateway can be read from does not fail the check of the gateway.
no_gateway_no_error : evaluate_check (record well { route_get = λ dst. ok [] }) ping4gw ≡ ok []
unfolding evaluate_check evaluate_ping4gw default_ipv4_gateway
no_gateway_no_error = refl

no_error : health well uplink ≡ []
unfolding health tree leaf then_node append evaluate evaluate_all own_result first_error
    first_error_in evaluate_check evaluate_ping4gw default_ipv4_gateway default_ipv6_gateway
    evaluate_ping4 evaluate_ping6gw bind_address bind6 is_local first_reply ping_all evaluate_ping6
    slaac_address evaluate_ra6 evaluate_tcp evaluate_link lease_valid global_contains is_eui64
    check_name Bytes-discrete has_prefix mask_size simple_mask_length leading_ones all_zero to4
no_error = refl

every_check_passes : All (Succeeds well) (checks uplink)
every_check_passes = (health-Succeeds well uplink).0 no_error
