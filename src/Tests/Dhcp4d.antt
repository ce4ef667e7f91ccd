-- ===== src/Tests/Dhcp4d.antt =====
-- Runs of the DHCPv4 server, and its theorems at concrete inputs.
use mathlib.Core.Path.{◌≡◌}
use rout.Base.{
  List, ℕ, ◌+◌, ◌-◌, ◌*◌, ◌==◌, refl, ap, if◌then◌else◌, true, false, ◌&&◌, ◌⊎◌, List, [], ◌∷◌,
  some, Bytes, Bytes-discrete, ℤ, pos, negsuc, ℤ-discrete, lookup, insert, delete, ℕ_discrete,
  length, values, take, arith,
}
use rout.Net.{to4, ip_equal, copy, hex_digit, octets, mac_string}
use rout.Hex.{digit_value, decode, remove_colons}
use rout.Sort.{ge, search_sorted}
use rout.Dhcp4d.Quirks.{lease_period_for_device, minute, hour, nintendo_mac_prefixes}
use rout.Dhcp4d.Quirks.Period.{member, lease_period-mac_string}
use rout.Dhcp4d.Handler.{
  Options, Lease, Handler, find_ip, lease_hw, owned_by, expired, next_address, new_handler,
  put_lease, put_leases, set_leases, call_leases, set_hostname, nil_dereference, is_free,
  first_free, find_lease, lease_available, can_lease, expire_lease,
}
use rout.Dhcp4d.Serve.{
  DhcpLibrary, Packet, Ambient, Reply, discover, request, offer, ack, nak, inherit, inherit_from,
  release_old, store_lease, prefer_previous, choose_offer, serve_discover, new_lease, acknowledge,
  serve_request, dispatch, serve_dhcp, serve,
}
use rout.Dhcp4d.Invariant.{Inv}
use rout.Dhcp4d.Availability.{Leasable}
use rout.Dhcp4d.Serving.{serve_dhcp-Inv, serve_dhcp-keeps_other}
use rout.Dhcp4d.Offer.{AddressLaws, discover_answered, offer_honoured}
use rout.Dhcp4d.Preserve.{Renames, Refuses, set_hostname-cases}
use rout.Dhcp4d.Renewal.{requested, rename_survives_requests}
use rout.Dhcp4d.Restore.{set_leases_restores}

-- Everything that a run of the server computes with.
program : Unit {0}
unfolding to4 ip_equal copy hex_digit octets mac_string digit_value decode remove_colons ge
    search_sorted lease_period_for_device expired next_address new_handler put_lease put_leases
    set_leases call_leases set_hostname is_free first_free find_lease lease_available can_lease
    lease_hw owned_by expire_lease inherit inherit_from release_old store_lease prefer_previous
    choose_offer serve_discover new_lease acknowledge serve_request dispatch serve_dhcp serve lookup
    insert delete Bytes-discrete ℤ-discrete ℕ_discrete
program = tt

-- The addresses of one /24 network.
last_byte : Bytes → ℕ
last_byte (a ∷ b ∷ c ∷ d ∷ []) = d
last_byte _ = 0

with_last : Bytes → ℕ → Bytes
with_last (a ∷ b ∷ c ∷ d ∷ []) n = a ∷ b ∷ c ∷ n ∷ []
with_last ip n = ip

add_to : Bytes → ℤ → Bytes
unfolding with_last last_byte
add_to ip (pos n) = with_last ip (last_byte ip + n)
add_to ip (negsuc n) = ip

abbrev lan : DhcpLibrary
lan = record {
  ip_range = λ start ip. pos (last_byte ip + 1 - last_byte start);
  ip_add = add_to;
  select_order_or_all = λ options order. options;
  reply_yi_addr = λ p r. r.your_ip;
}

abbrev alice : Bytes
alice = 2 ∷ 0 ∷ 0 ∷ 0 ∷ 0 ∷ 10 ∷ []

abbrev bob : Bytes
bob = 2 ∷ 0 ∷ 0 ∷ 0 ∷ 0 ∷ 11 ∷ []

abbrev alice_lease : Lease
alice_lease = record {
  num = pos 3;
  addr = 192 ∷ 168 ∷ 42 ∷ 5 ∷ [];
  hardware_addr =
      b'0' ∷ b'2' ∷ b':' ∷ b'0' ∷ b'0' ∷ b':' ∷ b'0' ∷ b'0' ∷ b':' ∷ b'0' ∷ b'0' ∷ b':' ∷ b'0'
      ∷ b'0' ∷ b':' ∷ b'0' ∷ b'a' ∷ [];
  hostname = [];
  hostname_override = [];
  expiry = 5000;
}

abbrev one_lease : Handler
one_lease = record {
  server_ip = 192 ∷ 168 ∷ 42 ∷ 1 ∷ [];
  start = 192 ∷ 168 ∷ 42 ∷ 2 ∷ [];
  lease_range = 230;
  lease_period = 20 * minute;
  options = [];
  iface_hardware_addr = [];
  has_callback = true;
  published = [];
  leases_hw = (alice_lease.hardware_addr, pos 3) ∷ [];
  leases_ip = (pos 3, alice_lease) ∷ [];
}

one_lease-Inv : Inv one_lease
unfolding lookup
one_lease-Inv = record {
  hw_distinct = (refl, tt);
  ip_distinct = (refl, tt);
  numbered = λ n l e. ground arith;
  indexed = λ n l e. ground arith;
  ranged = λ n l e. ground arith;
}

lan-AddressLaws : AddressLaws lan (192 ∷ 168 ∷ 42 ∷ 2 ∷ []) 230
unfolding add_to ip_equal
lan-AddressLaws = record {
  counted = λ i lt. ap pos (omega arith);
  four = λ i lt. refl;
  nonzero = λ i lt. ground arith;
}

abbrev packet : Bytes → Packet
packet mac = record { ci_addr = 0 ∷ 0 ∷ 0 ∷ 0 ∷ []; ch_addr = mac; broadcast = false }

abbrev at_time : ℕ → Ambient
at_time t = record { can_lease_now = t; lease_now = t; find_now = t; random = 7 }

abbrev asking_for : Bytes → List (ℕ × Bytes)
asking_for ip = (50, ip) ∷ []

abbrev alices_ip : Bytes
alices_ip = 192 ∷ 168 ∷ 42 ∷ 5 ∷ []

-- Bob asks for the address of Alice while her lease is live, and is refused.
bob_refused :
    (serve_dhcp lan one_lease (at_time 4000) (packet bob) request (asking_for alices_ip)).1
    ≡ some (record {
      message_type = nak;
      server_id = 192 ∷ 168 ∷ 42 ∷ 1 ∷ [];
      your_ip = [];
      lease_duration = 0;
      options = [];
    })
unfolding program add_to
bob_refused = refl

bob_served :
    length
      (serve_dhcp lan one_lease
        (at_time 6000)
        (packet bob)
        request
        (asking_for alices_ip)).0.leases_ip
    ≡ 1
unfolding program add_to
bob_served = refl

lease_period-mac_string_example : lease_period_for_device (20 * minute) (mac_string alice) ≡ (
    if length alice == 6 && member (take 3 alice) nintendo_mac_prefixes then hour else 20 * minute)
lease_period-mac_string_example = lease_period-mac_string (20 * minute) alice (omega arith)

serve_dhcp-Inv_example :
    Inv (serve_dhcp lan one_lease (at_time 6000) (packet bob) request (asking_for alices_ip)).0
serve_dhcp-Inv_example =
    serve_dhcp-Inv lan one_lease (at_time 6000) (packet bob) request (asking_for alices_ip)
      one_lease-Inv

serve_dhcp-keeps_other_example :
    find_ip
      (serve_dhcp lan one_lease (at_time 4000) (packet bob) request (asking_for alices_ip)).0
      (pos 3)
    ≡ some alice_lease
unfolding program
serve_dhcp-keeps_other_example =
    serve_dhcp-keeps_other lan one_lease (at_time 4000) (packet bob) request (asking_for alices_ip)
      (pos 3) alice_lease one_lease-Inv refl (λ e. ground arith) refl

discover_answered_example :
    (r : Reply) × (n : ℤ) × (serve_dhcp lan one_lease (at_time 10) (packet bob) discover []
      ≡ (one_lease, some r))
    × (r.message_type ≡ offer)
    × (r.your_ip ≡ lan.ip_add one_lease.start n)
    × Leasable one_lease 10 (mac_string bob) n
discover_answered_example =
    discover_answered lan one_lease (at_time 10) (packet bob) [] 10 one_lease-Inv (omega arith)
      (omega arith) (omega arith) (omega arith)

abbrev bobs_offer : Reply
bobs_offer = record {
  message_type = offer;
  server_id = 192 ∷ 168 ∷ 42 ∷ 1 ∷ [];
  your_ip = 192 ∷ 168 ∷ 42 ∷ 9 ∷ [];
  lease_duration = 20 * minute;
  options = [];
}

bobs_offer_made :
    (serve_dhcp lan one_lease (at_time 10) (packet bob) discover []).1 ≡ some bobs_offer
unfolding program add_to
bobs_offer_made = refl

offer_honoured_example :
    let after =
      serve_dhcp lan
        (serve_dhcp lan one_lease (at_time 10) (packet bob) discover []).0
        (at_time 20)
        (packet bob)
        request
        (asking_for bobs_offer.your_ip) in
    (r' : Reply) × (l : Lease) × (after.1 ≡ some r')
    × (r'.message_type ≡ ack)
    × (r'.your_ip ≡ bobs_offer.your_ip)
    × (lease_hw after.0 (mac_string bob) ≡ some l)
    × (l.addr ≡ bobs_offer.your_ip)
unfolding lookup ℕ_discrete
offer_honoured_example =
    offer_honoured lan one_lease (at_time 10) (at_time 20) (packet bob) (packet bob) []
      (asking_for bobs_offer.your_ip) bobs_offer lan-AddressLaws one_lease-Inv (omega arith)
      (omega arith) (omega arith) bobs_offer_made refl refl refl

-- A range of one address, taken by a lease that has run out.
abbrev laptop : Bytes
laptop = b'p' ∷ b'c' ∷ []

set_hostname-cases_example :
    Renames one_lease 100 alice_lease.hardware_addr laptop
      (set_hostname one_lease 100 alice_lease.hardware_addr laptop)
    ⊎ Refuses one_lease 100 alice_lease.hardware_addr
        (set_hostname one_lease 100 alice_lease.hardware_addr laptop)
set_hostname-cases_example =
    set_hostname-cases one_lease 100 alice_lease.hardware_addr laptop one_lease-Inv

-- Two requests of the client, the first for its own address.
abbrev renewals : List (Ambient × Packet × Options)
renewals =
    (at_time 200, packet alice, asking_for alices_ip)
    ∷ (at_time 300, packet alice, asking_for bobs_offer.your_ip)
    ∷ []

rename_survives_requests_example :
    (l : Lease) × (lease_hw
        (requested lan (set_hostname one_lease 100 (mac_string alice) laptop).0 renewals)
        (mac_string alice)
      ≡ some l)
    × (l.hostname ≡ laptop)
    × (l.hostname_override ≡ laptop)
unfolding program
rename_survives_requests_example =
    rename_survives_requests lan one_lease (mac_string alice) laptop 100 renewals one_lease-Inv
      (λ e. ground arith) (refl, (refl, tt)) refl

-- Nobody has the number 0, so a name for an unknown address meets a nil pointer.
nobodys_name : (set_hostname one_lease 100 bob laptop).1 ≡ nil_dereference
unfolding program set_hostname
nobodys_name = refl

abbrev fresh_range : Handler
fresh_range = record one_lease { leases_hw = []; leases_ip = [] }

set_leases_restores_example :
    Inv (set_leases fresh_range (values one_lease.leases_ip))
    × ((n : ℤ)
        → find_ip (set_leases fresh_range (values one_lease.leases_ip)) n ≡ find_ip one_lease n)
    × ((hw : Bytes)
        → lease_hw (set_leases fresh_range (values one_lease.leases_ip)) hw ≡ lease_hw one_lease hw)
unfolding lookup
set_leases_restores_example =
    set_leases_restores one_lease fresh_range one_lease.leases_ip one_lease-Inv (refl, tt)
      (λ n. refl) refl
