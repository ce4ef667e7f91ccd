-- ===== src/Diag/Checks.antt =====
-- diag/ping.go, ra6.go, tcp.go, link.go, dhcp.go and ipv6.go: the `Evaluate` and `String` of each node.
use rout.Base.{
  ℕ, ◌/◌, ◌==◌, ltb, if◌then◌else◌, Bool, false, not, ◌&&◌, ◌||◌, List, [], ◌∷◌, ◌++◌, Option, none,
  some, Bytes, is_empty, length, get_or, text,
}
use rout.Net.{bytes_eq, to4, v4_in_v6_prefix}
use rout.Netmask.{IpNet, mask_size}
use rout.Networking.{has_prefix}
use rout.Strings.{format_decimal}
use rout.Diag.Surroundings.{Try, ok, err, ◌>>=◌, wrap, check, RouteTo, Surroundings}
use rout.Diag.Monitor.{Outcome, success, failure, Node, nil, node}

-- `global.Contains`, for 2000::/3.
unfoldable pub global_contains : Bytes → Bool
global_contains ip = is_empty (to4 ip) && length ip == 16 && get_or ip 0 0 / 32 == 1

-- `To16`; the empty list is `nil`.
abbrev pub to16 : Bytes → Bytes
to16 ip = if length ip == 4 then v4_in_v6_prefix ++ ip else if length ip == 16 then ip else []

unfoldable pub is_eui64 : Bytes → Bool
is_eui64 ip =
    if is_empty (to16 ip)
    then false
    else get_or (to16 ip) 11 0 == 255 && get_or (to16 ip) 12 0 == 254

abbrev pub expect_one : List RouteTo → Try RouteTo
expect_one (r ∷ []) = ok r
expect_one rl = err (
    text "unexpected number of default routes: got "
    ++ format_decimal (length rl)
    ++ text ", want 1")

module _ (env : Surroundings) where
  unfoldable pub default_ipv4_gateway : Try Bytes
  default_ipv4_gateway = do rl ← env.route_get (text "9.9.9.9"); r ← expect_one rl; ok r.gw

  unfoldable pub default_ipv6_gateway : Try Bytes
  default_ipv6_gateway = do
    rl ← env.route_get (text "::")
    r ← expect_one rl
    name ← env.interface_by_index r.link_index
    ok (r.gw ++ text "%" ++ name)

  -- The part of a ping behind the address.
  abbrev pub ping_from : Bytes → Bytes → Bytes → Try ℕ
  ping_from bind4 bind6 addr = do _ ← env.new_pinger bind4 bind6; env.ping bind4 bind6 addr

  -- `ping4gw`; without a gateway it returns no error.
  unfoldable pub evaluate_ping4gw : Try Bytes
  evaluate_ping4gw = elim default_ipv4_gateway [
    | err e ↦ ok []
    | ok gw ↦ do
      addr ← env.resolve_ip_addr (text "ip4") gw
      rtt ← ping_from (text "0.0.0.0") [] addr
      ok (env.format_rtt rtt ++ text " from " ++ gw)
  ]

  unfoldable pub evaluate_ping4 : Bytes → Try Bytes
  evaluate_ping4 address = do
    addr ← env.resolve_ip_addr (text "ip4") address
    rtt ← ping_from (text "0.0.0.0") [] addr
    ok (env.format_rtt rtt)

  unfoldable pub evaluate_ping6gw : Try Bytes
  evaluate_ping6gw = do
    gw ← default_ipv6_gateway
    addr ←
        wrap (λ e. text "net.ResolveIPAddr(" ++ gw ++ text "): " ++ e)
          (env.resolve_ip_addr (text "ip6") gw)
    _ ← wrap (λ e. text "ping.New(::): " ++ e) (env.new_pinger [] (text "::"))
    rtt ← wrap (λ e. text "ping6(" ++ addr ++ text ", 1s): " ++ e) (env.ping [] (text "::") addr)
    ok (env.format_rtt rtt ++ text " from " ++ gw)

  -- The loop over the interface's addresses: the first global one of IPv6.
  unfoldable pub bind_address : List (Option IpNet) → Bytes
  bind_address [] = text "::"
  bind_address (none ∷ addrs) = bind_address addrs
  bind_address (some n ∷ addrs) =
      let later = bind_address addrs in
      if not (is_empty (to4 n.ip)) || not (global_contains n.ip) then later else env.ip_string n.ip

  unfoldable pub bind6 : Bytes → Try Bytes
  bind6 [] = ok (text "::")
  bind6 (c ∷ ifname) = do addrs ← env.addrs_of (c ∷ ifname); ok (bind_address addrs)

  -- `localAddr[s]`
  unfoldable pub is_local : List (Option IpNet) → Bytes → Bool
  is_local [] s = false
  is_local (none ∷ addrs) s = is_local addrs s
  is_local (some n ∷ addrs) s = bytes_eq (env.ip_string n.ip) s || is_local addrs s

  -- The loop over the replies: the first that is not from this host.
  unfoldable pub first_reply : List (Option IpNet) → List (Bytes × ℕ) → Option (Bytes × ℕ)
  first_reply local [] = none
  first_reply local ((address, duration) ∷ replies) =
      let later = first_reply local replies in
      if is_local local address then later else some (address, duration)

  unfoldable pub ping_all : Bytes → Bytes → Try Bytes
  ping_all source addr = do
    replies ← env.ping_multicast source addr
    local ← env.all_addrs
    elim (first_reply local replies) [
      | none ↦ err (text "no responses to " ++ addr ++ text " within 1s")
      | some reply ↦ ok (env.format_rtt reply.1 ++ text " from " ++ reply.0)
    ]

  unfoldable pub evaluate_ping6 : Bytes → Bytes → Try Bytes
  evaluate_ping6 ifname address = do
    addr ← env.resolve_ip_addr (text "ip6") address
    source ← bind6 ifname
    _ ← env.new_pinger [] source
    let unicast = (do rtt ← env.ping [] source addr; ok (env.format_rtt rtt))
    if has_prefix addr (text "ff02::") then ping_all source addr else unicast

  -- The loop of `ra6`, which keeps the last address that qualifies.
  abbrev pub qualifies : IpNet → Bool
  qualifies n = (mask_size n.mask).0 == 64 && global_contains n.ip && is_eui64 n.ip

  unfoldable pub slaac_address : Bytes → List (Option IpNet) → Bytes
  slaac_address first [] = first
  slaac_address first (none ∷ addrs) = slaac_address first addrs
  slaac_address first (some n ∷ addrs) =
      slaac_address (if qualifies n then env.ipnet_string n else first) addrs

  unfoldable pub evaluate_ra6 : Bytes → Try Bytes
  evaluate_ra6 ifname = do
    addrs ← env.addrs_of ifname
    let first = slaac_address [] addrs
    if is_empty first then err (text "no SLAAC address found") else ok first

  unfoldable pub evaluate_tcp : Bytes → Bytes → Try Bytes
  evaluate_tcp network addr = do _ ← env.dial network addr; ok (text "connection established")

  unfoldable pub evaluate_link : Bytes → Try Bytes
  evaluate_link ifname = do
    l ← env.link_by_name ifname
    _ ← check l.is_up (text "link " ++ ifname ++ text " not UP")
    ok (format_decimal l.rx_packets ++ text " rx, " ++ format_decimal l.tx_packets ++ text " tx")

  unfoldable pub lease_valid : Bytes → Try Bytes
  lease_valid fn = do
    valid_until ← env.lease_file fn
    _ ←
        check (not (ltb valid_until env.now))
          (text "lease expired at " ++ env.time_string valid_until)
    ok (text "lease valid until " ++ env.time_string valid_until)

abbrev pub outcome : Try Bytes → Outcome
outcome (ok status) = success status
outcome (err e) = failure e

-- The kinds of nodes, as their constructors make them.
pub data Check : Type 0 where
  ping4gw ping6gw dhcpv4 dhcpv6 : Check
  ping4 tcp4 tcp6 ra6 link : Bytes → Check
  ping6 : Bytes → Bytes → Check

-- `String`
unfoldable pub check_name : Check → Bytes
check_name ping4gw = text "ping4: $default-gateway"
check_name ping6gw = text "ping6gw: $default-gateway"
check_name dhcpv4 = text "dhcp4"
check_name dhcpv6 = text "dhcp6"
check_name (ping4 addr) = text "ping4: " ++ addr
check_name (tcp4 addr) = text "tcp4: " ++ addr
check_name (tcp6 addr) = text "tcp6: " ++ addr
check_name (ra6 ifname) = text "ra6/" ++ ifname
check_name (link ifname) = text "link/" ++ ifname
check_name (ping6 ifname addr) =
    if is_empty ifname
    then text "ping6: " ++ addr
    else text "ping6: " ++ ifname ++ (32 ∷ 226 ∷ 134 ∷ 146 ∷ 32 ∷ []) ++ addr

unfoldable pub evaluate_check : Surroundings → Check → Try Bytes
evaluate_check env ping4gw = evaluate_ping4gw env
evaluate_check env ping6gw = evaluate_ping6gw env
evaluate_check env dhcpv4 = lease_valid env (text "/perm/dhcp4/wire/lease.json")
evaluate_check env dhcpv6 = lease_valid env (text "/perm/dhcp6/wire/lease.json")
evaluate_check env (ping4 addr) = evaluate_ping4 env addr
evaluate_check env (tcp4 addr) = evaluate_tcp env (text "tcp4") addr
evaluate_check env (tcp6 addr) = evaluate_tcp env (text "tcp6") addr
evaluate_check env (ra6 ifname) = evaluate_ra6 env ifname
evaluate_check env (link ifname) = evaluate_link env ifname
evaluate_check env (ping6 ifname addr) = evaluate_ping6 env ifname addr

-- A node without children.
unfoldable pub leaf : Surroundings → Check → Node
leaf env c = node (check_name c) (outcome (evaluate_check env c)) nil
