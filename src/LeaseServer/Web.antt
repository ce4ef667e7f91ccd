-- ===== src/LeaseServer/Web.antt =====
-- cmd/dhcp4d/http.go and the page /lease/ of cmd/dhcp4d/dhcp4d.go.
use rout.Base.{
  ℕ, ◌+◌, ◌*◌, ◌/◌, ltb, ◌>>=◌, if◌then◌else◌, Bool, true, false, not, ◌&&◌, List, [], ◌∷◌, ◌++◌,
  Option, none, some, Bytes, ℤ, pos, negsuc, is_empty, length, take, drop, text,
}
use rout.Net.{bytes_eq}
use rout.Networking.{IpLibrary, has_prefix, is_private_addr}
use rout.Oui.Database.{Db, lookup_org}
use rout.Dhcp4d.Handler.{
  Lease, Handler, is_zero, expired, hostname_set, no_valid_lease, nil_dereference,
}
use rout.LeaseServer.Store.{JsonLibrary, Server, shared, change_hostname}

-- What the handlers read of a request: `hardwareaddr` and `hostname` are form values.
pub record HttpRequest : Type 0 where
  pub method : Bytes
  pub path : Bytes
  pub remote_addr : Bytes
  pub forwarded_for : Bytes
  pub hardwareaddr : Bytes
  pub hostname : Bytes

pub record TmplLease : Type 0 where
  pub lease : Lease
  pub vendor : Bytes
  pub is_expired : Bool
  pub static : Bool

-- What is answered: an error with its status, a lease with its header X-Lease-Active, the page with its
-- two tables, or a redirection to it; `aborted` is a panic.
pub data Response : Type 0 where
  http_error : ℕ → Bytes → Response
  lease_page : Bytes → Bool → Response
  home_page : List TmplLease → List TmplLease → Response
  redirect_home : Response
  aborted : Response

-- The host of `net.SplitHostPort`, `net.ParseIP`, and the tests of `net.IP`.
pub record HostLibrary : Type 0 where
  pub split_host_port : Bytes → Option Bytes
  pub parse_ip : Bytes → Bytes
  pub ip : IpLibrary

-- `strings.TrimPrefix`
abbrev pub trim_prefix : Bytes → Bytes → Bytes
trim_prefix s prefix = if has_prefix s prefix then drop (length prefix) s else s

-- The loop over the leases in the handler of /lease/.
unfoldable pub lease_named : Bytes → List Lease → Option Lease
lease_named hostname [] = none
lease_named hostname (l ∷ ls) =
    let later = lease_named hostname ls in
    if not (bytes_eq l.hostname hostname) then later else some l

-- `lease.Expiry.After(time.Now().Add(handler.LeasePeriod*2/3))`
unfoldable pub is_active : Handler → ℕ → Lease → Bool
is_active h now l = ltb (now + h.lease_period * 2 / 3) l.expiry

unfoldable pub handle_lease : JsonLibrary → ℕ → Server → HttpRequest → Response
handle_lease json now s r =
    let hostname = trim_prefix r.path (text "/lease/") in
    if is_empty hostname
    then http_error 400 (text "syntax: /lease/<hostname>")
    else elim (lease_named hostname (shared s.handler s.leases)) [
      | none ↦ http_error 404 (text "no lease found")
      | some l ↦ elim (json.marshal_lease l) [
        | none ↦ http_error 500 []
        | some b ↦ lease_page b (is_active s.handler now l)
      ]
    ]

-- `handleSetHostname`, whose `handler` is that of the server.
unfoldable pub handle_set_hostname :
    JsonLibrary → Bool → ℕ → Server → HttpRequest → Server × Response
handle_set_hostname json write_fails now s r =
    let (s', result) = change_hostname json write_fails now r.hardwareaddr r.hostname s in
    if not (bytes_eq r.method (text "POST"))
    then (s, http_error 405 (text "want POST"))
    else if is_empty r.hardwareaddr
    then (s, http_error 400 (text "missing hardwareaddr parameter"))
    else if is_empty r.hostname
    then (s, http_error 400 (text "missing hostname parameter"))
    else elim result [
      | hostname_set ↦ (s', redirect_home)
      | no_valid_lease ↦ (s', http_error 400 [])
      | nil_dereference ↦ (s', aborted)
    ]

-- `tl`; `none` is the slice `l.HardwareAddr[:8]` of a shorter text.
unfoldable pub tmpl_lease : Db → ℕ → Lease → Option TmplLease
tmpl_lease db now l =
    if ltb (length l.hardware_addr) 8
    then none
    else some (record {
      lease = l;
      vendor = lookup_org db (take 8 l.hardware_addr);
      is_expired = expired l now;
      static = is_zero l.expiry;
    })

-- The loop over the leases: the static and the dynamic ones.
unfoldable pub split_leases : Db → ℕ → List Lease → Option (List TmplLease × List TmplLease)
split_leases db now [] = some ([], [])
split_leases db now (l ∷ ls) = do
  row ← tmpl_lease db now l
  rest ← split_leases db now ls
  some (if is_zero l.expiry then (row ∷ rest.0, rest.1) else (rest.0, row ∷ rest.1))

abbrev pub int_less : ℤ → ℤ → Bool
int_less (pos m) (pos n) = ltb m n
int_less (pos m) (negsuc n) = false
int_less (negsuc m) (pos n) = true
int_less (negsuc m) (negsuc n) = ltb n m

abbrev pub num_less : TmplLease → TmplLease → Bool
num_less a b = int_less a.lease.num b.lease.num

-- `!dynamic[i].Expiry.Before(dynamic[j].Expiry)`
abbrev pub not_before : TmplLease → TmplLease → Bool
not_before a b = not (ltb a.lease.expiry b.lease.expiry)

-- The address that the access is decided by.
unfoldable pub client_addr : HostLibrary → HttpRequest → Bytes → Bytes
client_addr net r host =
    let ip = net.parse_ip host in
    let from_loopback = net.ip.is_loopback ip in
    if from_loopback && not (is_empty r.forwarded_for) then net.parse_ip r.forwarded_for else ip

-- `sort.Slice` on the rows of a table.
abbrev pub SortSlice : Type 0
SortSlice = (TmplLease → TmplLease → Bool) → List TmplLease → List TmplLease

unfoldable pub show_leases : SortSlice → Db → ℕ → List Lease → Response
show_leases sort_slice db now leases = elim (split_leases db now leases) [
  | none ↦ aborted
  | some (static, dynamic) ↦ home_page (sort_slice num_less static) (sort_slice not_before dynamic)
]

unfoldable pub handle_home : SortSlice → HostLibrary → Db → ℕ → Server → HttpRequest → Response
handle_home sort_slice net db now s r = elim (net.split_host_port r.remote_addr) [
  | none ↦ http_error 400 (text "bad request")
  | some host ↦
      let ip = client_addr net r host in
      if not (is_private_addr net.ip [] ip)
      then http_error 403 (text "access from " ++ net.ip.ip_string ip ++ text " forbidden")
      else show_leases sort_slice db now (shared s.handler s.leases)
]
