-- ===== src/Tests/Dhcp4.antt =====
-- Runs of the DHCPv4 client, and its theorems at concrete inputs.
use rout.Base.{
  ℕ, ◌==◌, ◌≡◌, refl, arith, Bool, true, false, if◌then◌else◌, List, [], ◌∷◌, ◌++◌, none, some,
  replicate,
}
use rout.Dhcp4.Client.{
  no_interface, DhcpOption, Packet, MessageType, discover, offer, request, ack, nak, release,
  DhcpLibrary, permanent, Client, received, not_dhcp, Network, ok, set_up, once, await_offer,
  await_ack, last_packet, dhcp_request, server_id, sent_packets, new_subnet_mask, configure, fail,
  conclude, attempt, obtain_or_renew, release_packet, release_lease,
}
use rout.Dhcp4.FirstAck.{FirstAck}
use rout.Dhcp4.Acquire.{Opens, obtain_acks, next_exchange}
use rout.Dhcp4.Daemon.{
  Daemon, Storage, Effect, wrote_lease, wrote_ack, notified, settles, persist, settle, round,
  minute, usr2, panics, minute_passed, stop, wait_step, wait_run,
}
use rout.Dhcp4.Persist.{round-persists}
use rout.Dhcp4.Health.{release_after_drop}

unfoldable pub program : Unit {0}
unfolding set_up once await_offer await_ack last_packet dhcp_request server_id sent_packets
    new_subnet_mask configure fail conclude attempt obtain_or_renew release_packet release_lease
    minute_passed stop wait_step wait_run persist settle round
program = tt

unfoldable pub type_code : MessageType → ℕ
type_code discover = 1
type_code offer = 2
type_code request = 3
type_code ack = 5
type_code nak = 6
type_code release = 7

unfoldable pub has_type : List DhcpOption → MessageType → Bool
unfolding type_code
has_type [] t = false
has_type (o ∷ rest) t =
    let later = has_type rest t in
    if o.kind == 53 then (elim o.content [ [] ↦ false | c ∷ _ ↦ c == type_code t ]) else later

abbrev pub lib : DhcpLibrary
lib = record {
  message_type_opt = λ t. record { kind = 53; content = type_code t ∷ [] };
  hostname_opt = λ h. record { kind = 12; content = h };
  client_id_opt = λ h. record { kind = 61; content = 1 ∷ h };
  params_request_opt = λ ps. record { kind = 55; content = ps };
  request_ip_opt = λ ip. record { kind = 50; content = ip };
  has_message_type = has_type;
  lease_from_ack = λ p. record {
    netmask = 255 ∷ 255 ∷ 255 ∷ 0 ∷ [];
    router = [];
    dns = (8 ∷ 8 ∷ 8 ∷ 8 ∷ []) ∷ [];
    renewal_time = 1800;
  };
  ip_string = λ ip. ip;
  mask_string = λ a b c d. a ∷ b ∷ c ∷ d ∷ [];
}

abbrev fresh : Client
fresh = record {
  interface = some (2 ∷ 0 ∷ 0 ∷ 0 ∷ 0 ∷ 1 ∷ []);
  hw_addr = none;
  err = none;
  once_done = false;
  once_err = none;
  connected = false;
  hardware_addr = none;
  hostname = [];
  cfg = record { renew_after = 0; client_ip = []; subnet_mask = []; router = 10 ∷ []; dns = [] };
  ack = none;
}

abbrev pub answer : ℕ → ℕ → Packet
answer xid code = record {
  xid = xid;
  client_ip = [];
  your_client_ip = 100 ∷ 64 ∷ 0 ∷ 9 ∷ [];
  client_hw_addr = 2 ∷ 0 ∷ 0 ∷ 0 ∷ 0 ∷ 1 ∷ [];
  options =
      record { kind = 53; content = code ∷ [] } ∷ record { kind = 54; content = 100 ∷ [] } ∷ [];
}

-- The answer for another client arrives before each of the two answers.
abbrev pub uplink : ℕ → Network
uplink code = record {
  listen_error = none;
  uname_error = none;
  nodename = 114 ∷ [];
  new_xid = 77;
  discover_error = none;
  after_discover = received (answer 5 2) ∷ received (answer 77 2) ∷ [];
  request_error = none;
  after_request = not_dhcp ∷ received (answer 5 5) ∷ received (answer 77 code) ∷ [];
  now = 1000;
}

abbrev started : Client
started = record fresh {
  once_done = true;
  connected = true;
  hardware_addr = fresh.interface;
  hostname = 114 ∷ [];
}

abbrev pub leased : Client
leased = record started {
  cfg = record {
    renew_after = 2800;
    client_ip = 100 ∷ 64 ∷ 0 ∷ 9 ∷ [];
    subnet_mask = 255 ∷ 255 ∷ 255 ∷ 0 ∷ [];
    router = 10 ∷ [];
    dns = (8 ∷ 8 ∷ 8 ∷ 8 ∷ []) ∷ [];
  };
  ack = some (answer 77 5);
}

obtains : obtain_or_renew lib fresh (uplink 5) ≡ some (leased, true)
unfolding program has_type type_code
obtains = refl

obtain_acks_example :
    (c0 : Client) × (last : Packet) × (p : Packet) × (once fresh (uplink 5) ≡ some c0)
    × (leased.ack ≡ some p)
    × (last_packet lib c0 (uplink 5) ≡ ok last)
    × FirstAck lib last.xid (uplink 5).after_request p
    × (configure lib c0.cfg p (uplink 5).now ≡ some leased.cfg)
obtain_acks_example = obtain_acks lib fresh leased (uplink 5) obtains refl

next_exchange_example :
    (c0 : Client) × (once fresh (uplink 5) ≡ some c0)
    × (once leased (uplink 6) ≡ some leased)
    × Opens lib fresh leased (uplink 5) c0 (uplink 6)
next_exchange_example = next_exchange lib fresh leased (uplink 5) (uplink 6) obtains

-- A client without an interface or a connection.
abbrev no_link : Client
no_link = record fresh { interface = none }

abbrev gave_up : Client
gave_up = record no_link {
  err = some (permanent no_interface);
  once_done = true;
  once_err = some no_interface;
}

gives_up : obtain_or_renew lib no_link (uplink 5) ≡ some (gave_up, false)
unfolding program
gives_up = refl

release_after_drop_example :
    wait_run lib
      (record { client = leased; unhealthy_cycles = 0 })
      (replicate 20 (minute false) ++ (usr2 (uplink 5) none ∷ []))
    ≡ panics
release_after_drop_example = release_after_drop lib 20 leased (uplink 5) none (omega arith)

abbrev pub disk : Storage
disk = record { marshal_error = none; lease_error = none; ack_error = none }

abbrev stored : List Effect
stored = wrote_lease leased.cfg ∷ wrote_ack (some (answer 77 5)) ∷ notified ∷ []

abbrev running : Daemon
running = record { client = leased; unhealthy_cycles = 0 }

settled : round lib fresh (uplink 5) disk ≡ settles running stored
unfolding program has_type type_code
settled = refl

persists :
    (c0 : Client) × (last : Packet) × (p : Packet) × (once fresh (uplink 5) ≡ some c0)
    × (last_packet lib c0 (uplink 5) ≡ ok last)
    × FirstAck lib last.xid (uplink 5).after_request p
    × (running.unhealthy_cycles ≡ 0)
    × (leased.err ≡ none)
    × (leased.ack ≡ some p)
    × (stored ≡ wrote_lease leased.cfg ∷ wrote_ack (some p) ∷ notified ∷ [])
persists = round-persists lib fresh (uplink 5) disk running stored settled
