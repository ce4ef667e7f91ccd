-- ===== src/Tests/LeaseServer.antt =====
-- cmd/dhcp4d with one client, and its page.
use rout.Base.{
  ℕ, ◌+◌, ◌-◌, ◌≡◌, refl, arith, true, false, List, [], ◌∷◌, Option, none, some, Bytes,
  Bytes-discrete, ℤ-discrete, ℕ_discrete, pos, text, lookup, insert, delete, length,
}
use rout.Net.{to4, ip_equal, copy, hex_digit, octets, mac_string, bytes_eq}
use rout.Hex.{digit_value, decode, remove_colons}
use rout.Sort.{ge, search_sorted}
use rout.Sort.Slice.{turn, move_down, insert_all, sort_slice, sort_slice-SortLaws}
use rout.Networking.{has_prefix, is_private_addr}
use rout.Oui.Database.{Db, lookup_org}
use rout.Dhcp4d.Quirks.{lease_period_for_device}
use rout.Dhcp4d.Handler.{
  Lease, expired, next_address, new_handler, call_leases, is_free, lease_available, can_lease,
  owned_by, lease_hw,
}
use rout.Dhcp4d.Serve.{
  request, ack, Packet, DhcpLibrary, Ambient, Frame, inherit, inherit_from, release_old,
  store_lease, new_lease, acknowledge, serve_request, dispatch, serve_dhcp, serve,
}
use rout.Dhcp4d.Invariant.{Inv}
use rout.LeaseServer.Store.{
  JsonLibrary, Server, new_srv, count_non_expired, shared, write_leases, on_leases, call_back,
  take_over, serve_message,
}
use rout.LeaseServer.Stored.{Stores, serve_message-Stores}
use rout.LeaseServer.Web.{
  HttpRequest, TmplLease, Response, home_page, aborted, HostLibrary, tmpl_lease, split_leases,
  client_addr, show_leases, handle_home,
}
use rout.LeaseServer.Listed.{HasAccess, Lists, handle_home-Lists, handle_home_panics}

program : Unit {0}
unfolding to4 ip_equal copy hex_digit octets mac_string digit_value decode remove_colons ge
    search_sorted turn move_down insert_all sort_slice has_prefix is_private_addr lookup_org
    lease_period_for_device expired next_address new_handler call_leases is_free lease_available
    can_lease owned_by lease_hw inherit inherit_from release_old store_lease new_lease acknowledge
    serve_request dispatch serve_dhcp serve new_srv count_non_expired shared write_leases on_leases
    call_back take_over serve_message tmpl_lease split_leases client_addr show_leases handle_home
    lookup insert delete Bytes-discrete ℤ-discrete ℕ_discrete
program = tt

abbrev last_byte : Bytes → ℕ
last_byte (a ∷ b ∷ c ∷ d ∷ []) = d
last_byte ip = 0

abbrev lan : DhcpLibrary
lan = record {
  ip_range = λ start ip. pos (last_byte ip + 1 - last_byte start);
  ip_add = λ ip n. ip;
  select_order_or_all = λ options order. options;
  reply_yi_addr = λ p r. r.your_ip;
}

-- The encoding has one byte for each lease.
abbrev json : JsonLibrary
json = record {
  marshal_leases = λ ls. some (length ls ∷ []);
  marshal_lease = λ l. some l.hostname;
  indent = λ b. some (9 ∷ b);
}

abbrev fresh : Server
fresh = new_srv (192 ∷ 168 ∷ 42 ∷ 1 ∷ []) [] none

fresh-Inv : Inv fresh.handler
unfolding program
fresh-Inv = record {
  hw_distinct = tt;
  ip_distinct = tt;
  numbered = λ n l e. ground arith;
  indexed = λ n l e. ground arith;
  ranged = λ n l e. ground arith;
}

abbrev now_500 : Ambient
now_500 = record { can_lease_now = 500; lease_now = 500; find_now = 500; random = 7 }

abbrev from : Bytes → Packet
from mac = record { ci_addr = 0 ∷ 0 ∷ 0 ∷ 0 ∷ []; ch_addr = mac; broadcast = false }

abbrev asking : List (ℕ × Bytes)
asking = (50, 192 ∷ 168 ∷ 42 ∷ 5 ∷ []) ∷ []

abbrev mac : Bytes
mac = 2 ∷ 0 ∷ 0 ∷ 0 ∷ 0 ∷ 10 ∷ []

abbrev answered : Server × Option Frame
answered = serve_message json false 500 lan now_500 (from mac) request asking fresh

abbrev no_frame : Frame
no_frame = record {
  dst_mac = [];
  src_mac = [];
  src_ip = [];
  dst_ip = [];
  ttl = 0;
  src_port = 0;
  dst_port = 0;
  payload = record {
    message_type = ack;
    server_id = [];
    your_ip = [];
    lease_duration = 0;
    options = [];
  };
}

abbrev frame_of : Option Frame → Frame
frame_of (some f) = f
frame_of none = no_frame

abbrev sent : Frame
sent = frame_of answered.1

answers :
    serve_message json false 500 lan now_500 (from mac) request asking fresh
    ≡ (answered.0, some sent)
unfolding program
answers = refl

one_stored : answered.0.file ≡ some (9 ∷ 1 ∷ [])
unfolding program
one_stored = refl

serve_message-Stores_example : Stores json false 500 refl (1 ∷ []) fresh answered.0
unfolding program
serve_message-Stores_example =
    serve_message-Stores json false 500 refl lan now_500 (from mac) request asking fresh answered.0
      sent (1 ∷ []) fresh-Inv refl answers refl refl

-- Addresses that begin with `10` are private, and `lo` is the loopback address.
abbrev net : HostLibrary
net = record {
  split_host_port = λ s. some s;
  parse_ip = λ s. s;
  ip = record {
    is_private = λ ip. has_prefix ip (text "10");
    is_loopback = λ ip. bytes_eq ip (text "lo");
    is_link_local_unicast = λ ip. false;
    is_multicast = λ ip. false;
    ip_string = λ ip. ip;
  };
}

abbrev db : Db
db = record { orgs = (text "02:00:00", text "Vendor") ∷ []; loaded = true; err = false }

abbrev visit : HttpRequest
visit = record {
  method = text "GET";
  path = text "/";
  remote_addr = text "10.0.0.9";
  forwarded_for = [];
  hardwareaddr = [];
  hostname = [];
}

abbrev static_rows : Response → List TmplLease
static_rows (home_page static dynamic) = static
static_rows _ = []

abbrev dynamic_rows : Response → List TmplLease
dynamic_rows (home_page static dynamic) = dynamic
dynamic_rows _ = []

abbrev page : Response
page = handle_home sort_slice net db 600 answered.0 visit

paged :
    handle_home sort_slice net db 600 answered.0 visit
    ≡ home_page (static_rows page) (dynamic_rows page)
unfolding program
paged = refl

handle_home-Lists_example :
    (host : Bytes) × (net.split_host_port visit.remote_addr ≡ some host)
    × HasAccess net visit host
    × Lists db 600
        (shared answered.0.handler answered.0.leases)
        (static_rows page)
        (dynamic_rows page)
handle_home-Lists_example =
    handle_home-Lists sort_slice sort_slice-SortLaws net db 600 answered.0 visit (static_rows page)
      (dynamic_rows page) paged

-- A client whose hardware address has two bytes.
abbrev short_answered : Server
short_answered =
    (serve_message json false 500 lan now_500 (from (171 ∷ 205 ∷ [])) request asking fresh).0

abbrev short_lease : Lease
short_lease = record {
  num = pos 3;
  addr = 192 ∷ 168 ∷ 42 ∷ 5 ∷ [];
  hardware_addr = text "ab:cd";
  hostname = [];
  hostname_override = [];
  expiry = 1200000000500;
}

short_listed : shared short_answered.handler short_answered.leases ≡ short_lease ∷ []
unfolding program
short_listed = refl

page_panics : handle_home sort_slice net db 600 short_answered visit ≡ aborted
unfolding program
page_panics =
    handle_home_panics sort_slice net db 600 short_answered visit (text "10.0.0.9") [] short_lease
      [] refl refl short_listed (omega arith)
