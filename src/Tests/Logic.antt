-- ===== src/Tests/Logic.antt =====
-- Runs of the DHCPv4 client's daemon, and of its view of the router's health.
use rout.Base.{
  true, false, ◌≡◌, ◌↔◌, refl, Bytes-discrete, List, [], ◌∷◌, ◌++◌, All, none, some, Bytes, text,
}
use rout.Netconfig.Firewall.{contents}
use rout.Netconfig.Interfaces.{InterfaceConfig, find_interface, interface}
use rout.Diag.Surroundings.{Try, ok, err}
use rout.Diag.Health.{health_json, Succeeds, checks}
use rout.Dhcp4.Client
use rout.Dhcp4.Daemon.{Effect, wrote_lease, wrote_ack, notified, renew_due, minute, usr2}
use rout.Dhcp4.Healthy.{healthy, EncodesTexts, delivered, healthy-Succeeds}
use rout.Dhcp4.Logic.{
  Host, client_hw_addr, previous_ack, Turn, exited, panicked, after_wait, after_round, run, logic,
}
use rout.Dhcp4.Ending.{StoresFrom, Fails, logic-InOrder}
use rout.Tests.Dhcp4.{program, has_type, type_code, lib, uplink, disk, leased, answer}
use rout.Tests.Health.{well}

abbrev ifname : Bytes
ifname = text "uplink0"

abbrev spoofed : InterfaceConfig
spoofed = record {
  interfaces =
      record {
        hardware_addr = text "02:00:00:00:00:09";
        spoof_hardware_addr = text "02:00:00:00:00:01";
        name = ifname;
        addr = [];
      }
      ∷ [];
  bridges = [];
}

-- The interface still has its own hardware address.
abbrev host : Host
host = record {
  interface_by_name = λ name. Client.ok (some (2 ∷ 0 ∷ 0 ∷ 0 ∷ 0 ∷ 9 ∷ []));
  interfaces_file = contents spoofed;
  parse_mac = λ mac. some (2 ∷ 0 ∷ 0 ∷ 0 ∷ 0 ∷ 1 ∷ []);
  dhcp_messages = none;
  decode = λ b. none;
}

takes_spoofed_address :
    client_hw_addr host ifname (some (2 ∷ 0 ∷ 0 ∷ 0 ∷ 0 ∷ 9 ∷ []))
    ≡ some (2 ∷ 0 ∷ 0 ∷ 0 ∷ 0 ∷ 1 ∷ [])
unfolding client_hw_addr interface find_interface Bytes-discrete
takes_spoofed_address = refl

abbrev turns : List Turn
turns =
    record { network = uplink 5; storage = disk; events = minute false ∷ renew_due ∷ [] }
    ∷ record {
      network = uplink 5;
      storage = disk;
      events = minute true ∷ usr2 (uplink 5) none ∷ [];
    }
    ∷ []

abbrev one_lease : List Effect
one_lease =
    wrote_lease (record leased.cfg { router = [] }) ∷ wrote_ack (some (answer 77 5)) ∷ notified ∷ []

renews_and_stops :
    logic lib host (ifname ∷ []) turns
    ≡ record { effects = one_lease ++ one_lease; progress = exited }
unfolding logic run after_round after_wait client_hw_addr previous_ack interface find_interface
    Bytes-discrete program has_type type_code
renews_and_stops = refl

-- No code fills `config.DHCPInterfaces`.
no_interfaces : logic lib host [] turns ≡ record { effects = []; progress = panicked }
unfolding logic
no_interfaces = refl

logic-InOrder_example :
    StoresFrom lib host (ifname ∷ []) turns (logic lib host (ifname ∷ []) turns).effects
    × Fails (logic lib host (ifname ∷ []) turns).progress
logic-InOrder_example = logic-InOrder lib host (ifname ∷ []) turns

-- Texts between quotes.
abbrev unquote : Bytes → Try Bytes
unquote (q ∷ s) = ok s
unquote [] = err (text "unexpected end of JSON input")

quotes : EncodesTexts (λ s. ok ((34 ∷ []) ++ s)) unquote
quotes s = (34 ∷ s, s, refl, refl, refl)

healthy-Succeeds_example :
    (healthy unquote none (
        ok (
          delivered (health_json (λ s. ok ((34 ∷ []) ++ s)) well (text "uplink0")) (text "200 OK")))
      ≡ none)
    ↔ All (Succeeds well) (checks (text "uplink0"))
healthy-Succeeds_example =
    healthy-Succeeds (λ s. ok ((34 ∷ []) ++ s)) unquote well (text "uplink0") (text "200 OK") quotes
