-- ===== src/Dhcp4/Logic.antt =====
-- cmd/dhcp4/dhcp4.go: `logic` from its start to its end.
use rout.Base.{false, List, [], ◌∷◌, ◌++◌, Option, none, some, Bytes, is_empty, if◌then◌else◌}
use rout.Netconfig.Firewall.{File}
use rout.Netconfig.Interfaces.{InterfaceConfig, interface}
use rout.Dhcp4.Client.{
  Error, Packet, DhcpLibrary, Config, Client, Network, Result, ok, err, ClientError,
  hardware_addr_or_nil,
}
use rout.Dhcp4.Daemon.{
  Daemon, Event, Outcome, waiting, renewing, fails, exits, panics, wait_run, Storage, Effect, Round,
  backs_off, settles, stops, stops_with, crashes, round,
}

-- What the start reads: the interface's hardware address, interfaces.json, and the ACK of the database,
-- with `net.ParseMAC` and the decoding of a packet.
pub record Host : Type 0 where
  pub interface_by_name : Bytes → Result (Option Bytes)
  pub interfaces_file : File InterfaceConfig
  pub parse_mac : Bytes → Option Bytes
  pub dhcp_messages : Option Bytes
  pub decode : Bytes → Option Packet

-- The hardware address of the client: the one that netconfigd is going to set, if there is one.
unfoldable pub client_hw_addr : Host → Bytes → Option Bytes → Option Bytes
client_hw_addr host ifname hwaddr = elim (interface host.interfaces_file ifname) [
  | none ↦ hwaddr
  | some details ↦
      if is_empty details.spoof_hardware_addr
      then hwaddr
      else elim (host.parse_mac details.spoof_hardware_addr) [
        | none ↦ hwaddr
        | some addr ↦ some addr
      ]
]

unfoldable pub previous_ack : Host → Option Packet
previous_ack host = elim host.dhcp_messages [ none ↦ none | some b ↦ host.decode b ]

abbrev pub no_config : Config
no_config = record { renew_after = 0; client_ip = []; subnet_mask = []; router = []; dns = [] }

abbrev pub new_client : Bytes → Option Bytes → Option Packet → Client
new_client interface hwaddr ack = record {
  interface = some interface;
  hw_addr = hwaddr;
  err = none;
  once_done = false;
  once_err = none;
  connected = false;
  hardware_addr = none;
  hostname = [];
  cfg = no_config;
  ack = ack;
}

-- A turn of the outer loop: what `ObtainOrRenew` and the writes meet, and the inner loop's events.
pub record Turn : Type 0 where
  pub network : Network
  pub storage : Storage
  pub events : List Event

-- Where `logic` is: in a call or between two, in the inner loop, or at an end.
pub data Progress : Type 0 where
  trying : Client → Progress
  in_wait : Daemon → Progress
  returned : Option ClientError → Progress
  failed : Error → Progress
  exited : Progress
  panicked : Progress

pub record Log : Type 0 where
  pub effects : List Effect
  pub progress : Progress

abbrev pub behind : List Effect → Log → Log
behind effects l = record l { effects = effects ++ l.effects }

abbrev pub ends : List Effect → Progress → Log
ends effects p = record { effects = effects; progress = p }

-- What follows the inner loop, before which the effects were made, and `again` the next turn.
unfoldable pub after_wait : List Effect → (Client → Log) → Outcome → Log
after_wait effects again (waiting d) = ends effects (in_wait d)
after_wait effects again (renewing c) = behind effects (again c)
after_wait effects again (fails e) = ends effects (failed e)
after_wait effects again exits = ends effects exited
after_wait effects again panics = ends effects panicked

-- What follows a round up to the inner loop.
unfoldable pub after_round : DhcpLibrary → List Event → (Client → Log) → Round → Log
after_round lib events again (backs_off c) = again c
after_round lib events again (settles d effects) = after_wait effects again (wait_run lib d events)
after_round lib events again (stops e) = ends [] (returned e)
after_round lib events again (stops_with e effects) = ends effects (failed e)
after_round lib events again crashes = ends [] panicked

-- The outer loop, for as many turns as there are.
unfoldable pub run : DhcpLibrary → Client → List Turn → Log
run lib c [] = ends [] (trying c)
run lib c (t ∷ rest) =
    after_round lib t.events (λ c'. run lib c' rest) (round lib c t.network t.storage)

-- `interfaces` is `config.DHCPInterfaces`.
unfoldable pub logic : DhcpLibrary → Host → List Bytes → List Turn → Log
logic lib host [] turns = ends [] panicked
logic lib host (ifname ∷ interfaces) turns = elim (host.interface_by_name ifname) [
  | err e ↦ ends [] (failed e)
  | ok hwaddr ↦
      run lib
        (new_client (hardware_addr_or_nil hwaddr) (client_hw_addr host ifname hwaddr)
          (previous_ack host))
        turns
]
