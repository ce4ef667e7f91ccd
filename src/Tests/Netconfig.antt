-- ===== src/Tests/Netconfig.antt =====
-- The firewall's theorems at one configuration.
use rout.Base.{
  ◌≡◌, refl, arith, false, ◌&&◌, leb, if◌then◌else◌, List, [], ◌∷◌, ◌++◌, none, some, Bytes,
  Bytes-discrete, text,
}
use rout.Net.{copy, to4, bytes_eq}
use rout.Strconv.{
  digit_of, split_base, parse_digits, has_underscore, underscores_separate, underscore_ok,
  parse_uint,
}
use rout.Netconfig.Port.{
  span_digits, upper_group, groups, match_range, upper_port, read_ports, parse_port,
}
use rout.Netconfig.Decimal.{IsDecimal, value, parse_port-decimal}
use rout.Netconfig.Forward.{
  Expr, nfifname, port_cmp, dest_nat, port_forward_expr, PortForwarding, split_comma, protocol,
  forward_rule, protocol_rules, forward_rules,
}
use rout.Netconfig.Rule.{in_ports}
use rout.Netconfig.Nft.{Packet, run_chain}
use rout.Netconfig.Forwarding.{target_of}
use rout.Netconfig.Firewall.{
  contents, Family, ipv4, ipv6, CounterObj, counter_obj, Command, flush_ruleset, same_table,
  get_counter_obj, filter_table, Kernel, filter_commands, forwardings, batch, apply_firewall,
}
use rout.Netconfig.Ruleset.{
  configured, redirects, counters, apply_firewall-redirects, apply_firewall-counters,
}

program : Unit {0}
unfolding copy to4 digit_of split_base parse_digits has_underscore underscores_separate
    underscore_ok parse_uint span_digits upper_group groups match_range upper_port read_ports
    parse_port nfifname port_cmp dest_nat port_forward_expr split_comma protocol forward_rule
    protocol_rules forward_rules same_table get_counter_obj filter_commands forwardings
    apply_firewall Bytes-discrete
program = tt

-- Octal, hexadecimal and a range.
octal_port : parse_port (text "010") ≡ some (8, 8)
unfolding program
octal_port = refl

no_octal_port : parse_port (text "0080") ≡ none
unfolding program
no_octal_port = refl

range_port : parse_port (text "8040-8060") ≡ some (8040, 8060)
unfolding program
range_port = refl

port_80 : IsDecimal (text "80")
port_80 = ((λ e. ground arith), ((omega arith, omega arith), ((omega arith, omega arith), tt)))

port_99999 : IsDecimal (text "99999")
port_99999 = (
  (λ e. ground arith),
  (
    (omega arith, omega arith),
    (
      (omega arith, omega arith),
      ((omega arith, omega arith), ((omega arith, omega arith), ((omega arith, omega arith), tt))),
    ),
  ),
)

parse_port-decimal_example :
    (parse_port (text "80") ≡ (
      if leb (value 0 (text "80")) 65535
      then some (value 0 (text "80"), value 0 (text "80"))
      else none))
    × (parse_port (text "80" ++ (b'-' ∷ text "99999")) ≡ (
        if leb (value 0 (text "80")) 65535 && leb (value 0 (text "99999")) 65535
        then some (value 0 (text "80"), value 0 (text "99999"))
        else none))
parse_port-decimal_example = parse_port-decimal (text "80") (text "99999") port_80 port_99999

parse_ip : Bytes → Bytes
parse_ip s = 192 ∷ 168 ∷ 42 ∷ 23 ∷ []

abbrev web : PortForwarding
web = record {
  proto = text "tcp,udp";
  port = text "8080-8090";
  dest_addr = text "192.168.42.23";
  dest_port = text "80-90";
}

abbrev zero_counter : CounterObj
zero_counter = record { table = filter_table ipv4; name = text "fwded"; bytes = 0; packets = 0 }

abbrev counted : Family → CounterObj
counted family = record {
  table = filter_table family;
  name = text "fwded";
  bytes = 1500;
  packets = 3;
}

abbrev kernel : Kernel
kernel = record {
  objects = λ family. some (counter_obj (counted family) ∷ []);
  flush_fails = false;
}

abbrev incoming : Packet
incoming = record {
  iifname = nfifname (text "uplink0");
  oifname = [];
  l4proto = 17;
  transport = 200 ∷ 1 ∷ 31 ∷ 149 ∷ [];
}

abbrev rules : List (List Expr)
rules =
    port_forward_expr (text "uplink0") 6 8080 8090 (192 ∷ 168 ∷ 42 ∷ 23 ∷ []) 80 90
    ∷ port_forward_expr (text "uplink0") 17 8080 8090 (192 ∷ 168 ∷ 42 ∷ 23 ∷ []) 80 90
    ∷ []

abbrev sent : List Command
sent = batch (text "uplink0") zero_counter kernel rules

sends :
    (apply_firewall parse_ip zero_counter (contents (web ∷ [])) (text "uplink0") kernel).0
    ≡ some sent
unfolding program parse_ip
sends = refl

forwarded :
    target_of parse_ip (web ∷ []) 17 8085
    ≡ some
        (record { addr = 192 ∷ 168 ∷ 42 ∷ 23 ∷ []; port_min = 0 ∷ 80 ∷ []; port_max = 0 ∷ 90 ∷ [] })
unfolding program parse_ip in_ports
forwarded = refl

apply_firewall-redirects_example :
    (rest : List Command) × (fws : List PortForwarding) × (sent ≡ flush_ruleset ∷ rest)
    × (configured (contents (web ∷ [])) ≡ some fws)
    × (run_chain incoming (redirects sent) ≡ (
        if bytes_eq incoming.iifname (nfifname (text "uplink0"))
        then target_of parse_ip fws incoming.l4proto 8085
        else none))
apply_firewall-redirects_example =
    apply_firewall-redirects parse_ip zero_counter (contents (web ∷ [])) (text "uplink0") kernel
      incoming 8085 sent refl sends

apply_firewall-counters_example : counters sent ≡ counted ipv4 ∷ counted ipv6 ∷ []
apply_firewall-counters_example =
    apply_firewall-counters parse_ip zero_counter (contents (web ∷ [])) (text "uplink0") kernel
      (counted ipv4) (counted ipv6) sent refl refl refl refl sends
