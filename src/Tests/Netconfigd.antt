-- ===== src/Tests/Netconfigd.antt =====
-- netconfigd with a router on which all goes well.
use rout.Base.{ℕ, Option, List, ◌∷◌, ◌≡◌, refl, [], some, none, text}
use rout.Multilisten.Pool.{new_pool, all_hosts, confirm, close_vanished, listen_and_serve}
use rout.Networking.{interface_addrs, private_interface_addrs}
use rout.Listeners.{update_listeners_net1, ipv6_net1}
use rout.Netconfig.Firewall.{missing}
use rout.Netconfig.Links.{signal, call}
use rout.Netconfig.Counters.{Metric, Obj, counter, update_counter, collect, scrape, scrapes}
use rout.Netconfig.Daemon.{
  Libraries, Turn, State, waiting, no_listeners, update, after_apply, run, logic,
}
use rout.Netconfig.Waiting.{Settled, InPlace, logic-InPlace}
use rout.Tests.Networking.{ip_library}
use rout.Tests.Apply.{program, lib, wg, zero_counter, no_failure, files, reads, world, applied}

abbrev libs : Libraries
libs = record { ip = ip_library; net = lib; wg = wg; default_obj = zero_counter }

abbrev turn : Turn
turn = record {
  interfaces = some [];
  dhcp6_lease = missing;
  fails = no_failure;
  files = files;
  reads = reads;
}

abbrev settled : State
settled = record {
  world = (call no_failure (signal (text "/user/dhcp4d")) applied).0;
  pool = new_pool;
  notified_all = 1;
}

waits : logic libs turn [] world ≡ waiting settled
unfolding program logic run after_apply update update_listeners_net1 ipv6_net1
    private_interface_addrs interface_addrs listen_and_serve confirm all_hosts close_vanished
waits = refl

logic-InPlace_example : Settled libs turn settled × InPlace libs turn settled.world
logic-InPlace_example = logic-InPlace libs turn [] world settled waits

without_interfaces : logic libs (record turn { interfaces = none }) [] world ≡ no_listeners
unfolding logic update update_listeners_net1
without_interfaces = refl

-- A counter near its end, with a reading of it that fails; the test's float64 keeps every number.
abbrev metric : Metric
metric = record { packets = 18446744073709551610; bytes = 0 }

abbrev done : List (Option (List Obj) × Option (List Obj))
done = (some (counter 4 400 ∷ []), none) ∷ []

abbrev float64 : ℕ → ℕ
float64 n = n

wraps_around :
    scrape float64 (scrapes float64 metric done) (some (counter 5 500 ∷ [])) none
    ≡ (record { packets = 3; bytes = 900 }, 3, 900)
unfolding scrapes scrape collect update_counter
wraps_around = refl
