-- ===== src/Tests/Dhcp6.antt =====
-- The DHCPv6 client's theorems at one exchange.
use rout.Base.{ℕ, ◌+◌, text, ◌≡◌, inl, inr, refl, true, [], ◌∷◌, none, some}
use rout.Dhcp6.Client.{
  solicit, advertise, request, reply, Iapd, Message, failed, DhcpLibrary, Client, received,
  non_dhcp, Network, expected_type, await, send_receive, take_id, solicit_server, request_lease,
  sooner, add_iapds, configure, conclude, accept, obtain_or_renew, release_lease,
}
use rout.Dhcp6.Setup.{ok, duid_llt, Host, NewClient}
use rout.Dhcp6.Daemon.{usr2, Turn, exited, stored, after_event, store, after_call, run}
use rout.Dhcp6.Renew.{Ends, obtain_or_renew-Ends}

program : Unit {0}
unfolding expected_type await send_receive take_id solicit_server request_lease sooner add_iapds
    configure conclude accept obtain_or_renew
program = tt

abbrev prefix : Iapd
prefix = record { t1 = 1800; status = some 0; prefixes = (42 ∷ 2 ∷ []) ∷ [] }

abbrev second_prefix : Iapd
second_prefix = record { t1 = 900; status = none; prefixes = [] }

abbrev blank : Message
blank = record { message_type = solicit; transaction_id = 9; iapds = []; dns = []; rest = [] }

abbrev lib : DhcpLibrary
lib = record {
  new_solicit = inl blank;
  new_request_from_advertise = λ o. (elim o [
    | none ↦ inr (failed [])
    | some adv ↦ inl (record adv { message_type = request; iapds = [] })
  ]);
  ip_string = λ ip. ip;
}

abbrev fresh : Client
fresh = record {
  advertise = none;
  cfg = record { renew_after = 0; prefixes = []; dns = [] };
  err = none;
  transaction_ids = [];
}

abbrev advertised : Message
advertised = record blank { message_type = advertise; iapds = prefix ∷ [] }

abbrev answer : Message
answer = record blank {
  message_type = reply;
  iapds = prefix ∷ second_prefix ∷ [];
  dns = (32 ∷ []) ∷ [];
}

abbrev soliciting : Network
soliciting = record {
  write_error = none;
  arriving =
      non_dhcp ∷ received (record advertised { transaction_id = 8 }) ∷ received advertised ∷ [];
}

abbrev requesting : Network
requesting = record { write_error = none; arriving = received advertised ∷ received answer ∷ [] }

abbrev clock : ℕ → ℕ
clock i = 1000 + i

obtained : obtain_or_renew lib fresh soliciting requesting clock ≡ (
  record {
    advertise = some advertised;
    cfg = record { renew_after = 1901; prefixes = (42 ∷ 2 ∷ []) ∷ []; dns = (32 ∷ []) ∷ [] };
    err = none;
    transaction_ids = [];
  },
  true,
)
unfolding program
obtained = refl

obtain_or_renew-Ends_example :
    Ends lib fresh soliciting requesting clock
      (obtain_or_renew lib fresh soliciting requesting clock)
obtain_or_renew-Ends_example = obtain_or_renew-Ends lib fresh soliciting requesting clock

-- The daemon sets itself up, obtains a lease, and is stopped while it waits.
abbrev host : Host
host = record {
  interface_by_name = λ name. ok (3, 2 ∷ 0 ∷ 0 ∷ 0 ∷ 0 ∷ 1 ∷ []);
  get_link_local_addr = λ name. ok (254 ∷ 128 ∷ []);
  duid_from_bytes = λ b. none;
  get_time = 5;
  all_relays_and_servers = 255 ∷ 2 ∷ [];
  client_port = 546;
  server_port = 547;
  listen = λ laddr. none;
}

abbrev set_up : NewClient
set_up = record {
  name = text "uplink0";
  hardware_addr = 2 ∷ 0 ∷ 0 ∷ 0 ∷ 0 ∷ 1 ∷ [];
  raddr = record { ip = 255 ∷ 2 ∷ []; port = 547; zone = [] };
  conn = record { ip = 254 ∷ 128 ∷ []; port = 546; zone = text "3" };
  duid = duid_llt 5 (2 ∷ 0 ∷ 0 ∷ 0 ∷ 0 ∷ 1 ∷ []);
  client = fresh;
}

abbrev turn : Turn
turn = record {
  soliciting = soliciting;
  requesting = requesting;
  clock = clock;
  marshal_error = none;
  write_error = none;
  event = some (usr2 (record { write_error = none; arriving = received answer ∷ [] }));
}

stores_and_stops : run lib fresh (turn ∷ []) ≡ record {
  effects =
      stored (record { renew_after = 1901; prefixes = (42 ∷ 2 ∷ []) ∷ []; dns = (32 ∷ []) ∷ [] });
  progress = exited;
}
unfolding program run after_call store after_event release_lease
stores_and_stops = refl
