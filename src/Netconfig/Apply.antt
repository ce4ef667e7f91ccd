-- ===== src/Netconfig/Apply.antt =====
-- netconfig/netconfig.go: `uplinkInterface`, `applySysctl` and `Apply`.
use rout.Base.{
  if◌then◌else◌, Bool, true, false, List, [], ◌∷◌, ◌++◌, Option, none, some, Bytes, is_empty, text,
}
use rout.Netmask.{IpNet}
use rout.Strings.{cut, replace_all}
use rout.Dhcp4.Client.{Config}
use rout.Netconfig.Forward.{PortForwarding}
use rout.Netconfig.Firewall.{File, CounterObj, Kernel, apply_firewall, Command}
use rout.Netconfig.Links.{Link, World, Op, write_sysctl, flush_batch, signal, perform, call}
use rout.Netconfig.Bridges.{link_by_name}
use rout.Netconfig.Interfaces.{InterfaceConfig, NetLibrary, apply_interfaces}
use rout.Netconfig.Lease.{Outcome, succeeded, failed, panicked, apply_dhcp4, apply_dhcp6}
use rout.Netconfig.WireGuard.{WireguardInterface, WireguardLibrary, apply_wireguard}

-- The loop of `uplinkInterface`, over the links that there are.
unfoldable pub first_link : List Link → List Bytes → Option Bytes
first_link links [] = none
first_link links (ifname ∷ names) = elim (link_by_name ifname links) [
  | none ↦ first_link links names
  | some _ ↦ some ifname
]

unfoldable pub uplink_interface : List Link → Option Bytes
uplink_interface links = first_link links (text "uplink0" ∷ text "eth0" ∷ text "ens3" ∷ [])

abbrev pub sysctls_for : Bytes → List Bytes
sysctls_for ifname =
    (text "net.ipv4.ip_forward=1" ∷ text "net.ipv6.conf.all.forwarding=1" ∷ [])
    ++ (if is_empty ifname
        then []
        else (text "net.ipv6.conf." ++ (ifname ++ text ".accept_ra=2")) ∷ [])

abbrev pub sysctl_path : Bytes → Bytes
sysctl_path key = text "/proc/sys/" ++ replace_all b'.' b'/' key

abbrev pub processes : List Bytes
processes = text "dyndns" ∷ text "dnsd" ∷ text "diagd" ∷ text "backupd" ∷ text "captured" ∷ []

module _ (fails : Op → Bool) where
  -- The loop of `applySysctl`; a text without `=` makes the slice panic.
  unfoldable pub write_sysctls : List Bytes → World → World × Outcome
  write_sysctls [] w = (w, succeeded)
  write_sysctls (ctl ∷ ctls) w = elim (cut b'=' ctl) [
    | none ↦ (w, panicked)
    | some (key, val) ↦
        let (w', ok) = call fails (write_sysctl (sysctl_path key) val) w in
        let rest = write_sysctls ctls w' in if ok then rest else (w', failed)
  ]

  unfoldable pub apply_sysctl : Bytes → World → World × Outcome
  apply_sysctl ifname w = write_sysctls (sysctls_for ifname) w

  -- The loop that notifies the processes; its errors are logged.
  unfoldable pub notify : List Bytes → World → World
  notify [] w = w
  notify (process ∷ rest) w = notify rest (call fails (signal (text "/user/" ++ process)) w).0

-- The files under `dir`.
pub record Files : Type 0 where
  pub interfaces : File InterfaceConfig
  pub dhcp4_lease : File Config
  pub dhcp6_lease : File (List IpNet)
  pub portforwardings : File (List PortForwarding)
  pub wireguard : File (List WireguardInterface)

-- The errors of the calls that only read, and what `GetObj` returns.
pub record Reads : Type 0 where
  pub list_fails : Bool
  pub handle_fails : Bool
  pub addr_list_fails : Bool
  pub wg_handle_fails : Bool
  pub client_fails : Bool
  pub kernel : Kernel

-- The parts of `Apply` that return an error.
pub data Stage : Type 0 where
  interfaces dhcp4 dhcp6 sysctl firewall wireguard : Stage

-- The errors that `Apply` returns, none for `nil`; or a panic.
pub data Result : Type 0 where
  errors : List Stage → Result
  crashed : Result

abbrev pub error_unless : Bool → Stage → List Stage
error_unless ok stage = if ok then [] else stage ∷ []

-- What the batch of `applyFirewall` makes of the state, if it is sent.
unfoldable pub send_batch : Option (List Command) × Bool → World → World × Bool
send_batch (none, ok) w = (w, ok)
send_batch (some commands, true) w = (perform (flush_batch commands) w, true)
send_batch (some commands, false) w = (w, false)

abbrev pub ifname_or_empty : Option Bytes → Bytes
ifname_or_empty none = []
ifname_or_empty (some ifname) = ifname

module _ (lib : NetLibrary) (wg : WireguardLibrary) (default_obj : CounterObj) (fails : Op → Bool)
    (files : Files) (reads : Reads) where
  -- The part from `applyFirewall` on, with the errors before it.
  unfoldable pub apply_filters : Bytes → List Stage → World → World × Result
  apply_filters ifname before w =
      let (w1, ok1) =
        send_batch
          (apply_firewall lib.parse_ip default_obj files.portforwardings ifname reads.kernel) w in
      let (w2, ok2) =
        apply_wireguard wg fails reads.wg_handle_fails reads.client_fails files.wireguard w1 in
      (w2, errors (before ++ (error_unless ok1 firewall ++ error_unless ok2 wireguard)))

  -- The part from `applySysctl` on.
  unfoldable pub apply_forwarding : Bytes → List Stage → World → World × Result
  apply_forwarding ifname before w =
      let (w1, outcome) = apply_sysctl fails ifname w in
      elim outcome [
        | succeeded ↦ apply_filters ifname before w1
        | failed ↦ apply_filters ifname (before ++ (sysctl ∷ [])) w1
        | panicked ↦ (w1, crashed)
      ]

  -- The part from the notifications on.
  unfoldable pub apply_routing : List Stage → World → World × Result
  apply_routing before w =
      let w1 = notify fails processes w in
      apply_forwarding (ifname_or_empty (uplink_interface w1.links)) before w1

  -- The part behind the interfaces.
  unfoldable pub apply_leases : World → World × Result
  apply_leases w =
      let (w1, ok1) =
        apply_dhcp4 lib fails reads.handle_fails reads.addr_list_fails files.dhcp4_lease w in
      let (w2, outcome) = apply_dhcp6 lib fails files.dhcp6_lease w1 in
      elim outcome [
        | succeeded ↦ apply_routing (error_unless ok1 dhcp4) w2
        | failed ↦ apply_routing (error_unless ok1 dhcp4 ++ (dhcp6 ∷ [])) w2
        | panicked ↦ (w2, crashed)
      ]

  unfoldable pub apply : World → World × Result
  apply w =
      let (w1, ok) = apply_interfaces lib fails reads.list_fails files.interfaces w in
      let rest = apply_leases w1 in if ok then rest else (w1, errors (interfaces ∷ []))
