-- ===== src/Diag/Surroundings.antt =====
-- What the checks of diag/ ask of the host: sockets, netlink, the lease files and the clock.
use rout.Base.{ℕ, Bool, true, false, List, Option, Bytes}
use rout.Netmask.{IpNet}

-- A value, or an error with its text.
pub data Try {ℓ} (A : Type ℓ) : Type ℓ where
  ok : A → Try A
  err : Bytes → Try A

infixl 5 ◌>>=◌
abbrev pub ◌>>=◌ {ℓ κ} : {A : Type ℓ} {B : Type κ} → Try A → (A → Try B) → Try B
ok a >>= f = f a
err e >>= f = err e

-- `fmt.Errorf` around another error.
abbrev pub wrap {ℓ} : {A : Type ℓ} → (Bytes → Bytes) → Try A → Try A
wrap f (ok a) = ok a
wrap f (err e) = err (f e)

abbrev pub check : Bool → Bytes → Try (Unit {0})
check true e = ok tt
check false e = err e

-- A result of `netlink.RouteGet`: the text of its gateway, and its link.
pub record RouteTo : Type 0 where
  pub gw : Bytes
  pub link_index : ℕ

pub record LinkStats : Type 0 where
  pub is_up : Bool
  pub rx_packets : ℕ
  pub tx_packets : ℕ

-- What the nodes call. A pinger is bound to the addresses that it was made with; the replies to a
-- multicast ping are those that come before the timeout; `addrs_of` is `InterfaceByName` and
-- then `Addrs`, of which `none` is an address of another kind than `*net.IPNet`; `lease_file` is the
-- field `valid_until` of the file.
pub record Surroundings : Type 0 where
  pub route_get : Bytes → Try (List RouteTo)
  pub interface_by_index : ℕ → Try Bytes
  pub addrs_of : Bytes → Try (List (Option IpNet))
  pub all_addrs : Try (List (Option IpNet))
  pub resolve_ip_addr : Bytes → Bytes → Try Bytes
  pub new_pinger : Bytes → Bytes → Try (Unit {0})
  pub ping : Bytes → Bytes → Bytes → Try ℕ
  pub ping_multicast : Bytes → Bytes → Try (List (Bytes × ℕ))
  pub dial : Bytes → Bytes → Try (Unit {0})
  pub link_by_name : Bytes → Try LinkStats
  pub lease_file : Bytes → Try ℕ
  pub now : ℕ
  pub time_string : ℕ → Bytes
  pub format_rtt : ℕ → Bytes
  pub ip_string : Bytes → Bytes
  pub ipnet_string : IpNet → Bytes
