-- ===== src/Dhcp4d/Handler.antt =====
-- dhcp/dhcp4d/dhcp4d.go: the lease database of `Handler` and the operations on it. Each operation
-- takes the mutex for its whole run, so it is one function of the state. A time is a count of
-- nanoseconds since Go's zero time, and what `h.timeNow()` returns is an argument.
use rout.Base.{
  ℕ, zero, suc, ◌+◌, ◌*◌, ◌==◌, ltb, if◌then◌else◌, Bool, true, false, not, ◌&&◌, ◌||◌, List, [],
  ◌∷◌, Option, none, some, Bytes, Bytes-discrete, ℤ, pos, negsuc, ℤ-discrete, pred_ℤ, in_range,
  length, lookup, insert, values,
}
use rout.Net.{bytes_eq, to4, ip_equal, ipv4_zero}
use rout.Dhcp4d.Quirks.{minute}

pub record Lease : Type 0 where
  pub num : ℤ
  pub addr : Bytes
  pub hardware_addr : Bytes
  pub hostname : Bytes
  pub hostname_override : Bytes
  pub expiry : ℕ

-- `Time.IsZero`
abbrev pub is_zero : ℕ → Bool
is_zero t = t == 0

-- `(l *Lease) Expired(at)`
unfoldable pub expired : Lease → ℕ → Bool
expired l at = not (is_zero l.expiry) && ltb l.expiry at

-- `dhcp4.Options`: option codes with their values.
abbrev pub Options : Type 0
Options = List (ℕ × Bytes)

-- The fields that the operations use, and in `published` the calls of the callback `Leases`, the
-- newest first; `has_callback` is `h.Leases != nil`.
pub record Handler : Type 0 where
  pub server_ip : Bytes
  pub start : Bytes
  pub lease_range : ℕ
  pub lease_period : ℕ
  pub options : Options
  pub iface_hardware_addr : Bytes
  pub has_callback : Bool
  pub published : List (List Lease × Lease)
  pub leases_hw : List (Bytes × ℤ)
  pub leases_ip : List (ℤ × Lease)

abbrev pub find_hw : Handler → Bytes → Option ℤ
find_hw h hw = lookup Bytes-discrete hw h.leases_hw

abbrev pub find_ip : Handler → ℤ → Option Lease
find_ip h n = lookup ℤ-discrete n h.leases_ip

-- `start[len(start)-1] += 1`, on a byte.
unfoldable pub next_address : Bytes → Bytes
next_address [] = []
next_address (b ∷ []) = (if b == 255 then 0 else b + 1) ∷ []
next_address (b ∷ c ∷ rest) = b ∷ next_address (c ∷ rest)

-- `NewHandler` once the interface, its address and the connection are there.
unfoldable pub new_handler : Bytes → Bytes → Handler
new_handler link_address iface_hardware_addr =
    let server_ip = to4 link_address in
    record {
      server_ip = server_ip;
      start = next_address server_ip;
      lease_range = 230;
      lease_period = 20 * minute;
      options =
          (1, 255 ∷ 255 ∷ 255 ∷ 0 ∷ [])
          ∷ (3, server_ip)
          ∷ (6, server_ip)
          ∷ (15, b'l' ∷ b'a' ∷ b'n' ∷ [])
          ∷ (119, 3 ∷ b'l' ∷ b'a' ∷ b'n' ∷ 0 ∷ [])
          ∷ [];
      iface_hardware_addr = iface_hardware_addr;
      has_callback = false;
      published = [];
      leases_hw = [];
      leases_ip = [];
    }

-- One round of the loop of `SetLeases`.
unfoldable pub put_lease : Handler → Lease → Handler
put_lease h l = record h {
  leases_hw = insert Bytes-discrete l.hardware_addr l.num h.leases_hw;
  leases_ip = insert ℤ-discrete l.num l h.leases_ip;
}

unfoldable pub put_leases : Handler → List Lease → Handler
put_leases h [] = h
put_leases h (l ∷ ls) = put_leases (put_lease h l) ls

unfoldable pub set_leases : Handler → List Lease → Handler
set_leases h leases = put_leases (record h { leases_hw = []; leases_ip = [] }) leases

-- `callLeasesLocked`. Go visits the map in no fixed order; here it is that of the list.
unfoldable pub call_leases : Handler → Lease → Handler
call_leases h lease =
    if h.has_callback then record h { published = (values h.leases_ip, lease) ∷ h.published } else h

-- `nil_dereference` is the panic of a field read through a nil pointer.
pub data HostnameResult : Type 0 where
  hostname_set no_valid_lease nil_dereference : HostnameResult

-- A missing key of `h.leasesHW` reads as 0.
abbrev pub num_or_zero : Option ℤ → ℤ
num_or_zero none = pos 0
num_or_zero (some n) = n

-- The rest of `SetHostname`, once the lease is read from the map.
rename_lease : Handler → ℕ → Bytes → Bytes → ℤ → Option Lease → Handler × HostnameResult
rename_lease h now hwaddr hostname lease_num none = (h, nil_dereference)
rename_lease h now hwaddr hostname lease_num (some lease) =
    let renamed = record lease { hostname = hostname; hostname_override = hostname } in
    if not (bytes_eq lease.hardware_addr hwaddr) || expired lease now
    then (h, no_valid_lease)
    else (
      call_leases (record h { leases_ip = insert ℤ-discrete lease_num renamed h.leases_ip })
          renamed,
      hostname_set,
    )

unfoldable pub set_hostname : Handler → ℕ → Bytes → Bytes → Handler × HostnameResult
unfolding rename_lease
set_hostname h now hwaddr hostname =
    let lease_num = num_or_zero (find_hw h hwaddr) in
    rename_lease h now hwaddr hostname lease_num (find_ip h lease_num)

-- `l, ok := h.leasesIP[i]; !ok || l.Expired(now)`
unfoldable pub is_free : Handler → ℕ → ℤ → Bool
is_free h now i = elim (find_ip h i) [ none ↦ true | some l ↦ expired l now ]

-- The loop of `findLease`, with the number of rounds left.
unfoldable pub first_free : Handler → ℕ → ℕ → ℕ → ℤ
first_free h now zero i = negsuc 0
first_free h now (suc rounds) i =
    let rest = first_free h now rounds (i + 1) in if is_free h now (pos i) then pos i else rest

-- `random` is what `rand.Intn(h.leaseRange)` returns.
unfoldable pub find_lease : Handler → ℕ → ℕ → ℤ
find_lease h now random =
    if ltb (length h.leases_ip) h.lease_range
    then if is_free h now (pos random) then pos random else first_free h now h.lease_range 0
    else negsuc 0

-- The case of `h.leasesIP[leaseNum]` in `canLease`.
unfoldable pub lease_available : Handler → ℕ → Bytes → ℤ → Option Lease → ℤ
lease_available h now hwaddr lease_num none = lease_num
lease_available h now hwaddr lease_num (some l) =
    if bytes_eq l.hardware_addr hwaddr
    then lease_num
    else if expired l now
    then lease_num
    else negsuc 0

-- `ip_range` is `dhcp4.IPRange`.
unfoldable pub can_lease : (Bytes → Bytes → ℤ) → Handler → ℕ → Bytes → Bytes → ℤ
can_lease ip_range h now req_ip hwaddr =
    let lease_num = pred_ℤ (ip_range h.start req_ip) in
    if not (length req_ip == 4) || ip_equal req_ip ipv4_zero
    then negsuc 0
    else if not (in_range lease_num h.lease_range)
    then negsuc 0
    else lease_available h now hwaddr lease_num (find_ip h lease_num)

-- `l, ok && l.HardwareAddr == hwAddr`, as an optional value.
unfoldable pub owned_by : Bytes → Option Lease → Option Lease
owned_by hw_addr none = none
owned_by hw_addr (some l) = if bytes_eq l.hardware_addr hw_addr then some l else none

unfoldable pub lease_hw : Handler → Bytes → Option Lease
lease_hw h hw_addr = elim (find_hw h hw_addr) [
  | none ↦ none
  | some num ↦ owned_by hw_addr (find_ip h num)
]

-- `expireLease`; `now` is what `time.Now()` returns.
unfoldable pub expire_lease : Handler → ℕ → Bytes → Handler × Bool
expire_lease h now hw_addr = elim (find_hw h hw_addr) [
  | none ↦ (h, false)
  | some num ↦ elim (owned_by hw_addr (find_ip h num)) [
    | none ↦ (h, false)
    | some l ↦ (
      record h { leases_ip = insert ℤ-discrete num (record l { expiry = now }) h.leases_ip },
      true,
    )
  ]
]
