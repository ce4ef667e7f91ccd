-- ===== src/Netconfig/Interfaces.antt =====
-- netconfig/netconfig.go: `applyInterfaces`, `Interface` and `LinkAddress`.
use rout.Base.{
  ◌>>=◌, if◌then◌else◌, Bool, true, false, not, List, [], ◌∷◌, ◌++◌, Option, none, some, Bytes,
  Bytes-discrete, is_empty, insert, lookup, text,
}
use rout.Net.{bytes_eq, mac_string}
use rout.Netmask.{IpNet}
use rout.Netconfig.Firewall.{File, missing, unreadable, malformed, contents}
use rout.Netconfig.Links.{
  Link, Op, set_name, set_hardware_addr, set_up, addr_replace, write_resolv_conf, Action, skip,
  give_up, ◌>>◌, call,
}
use rout.Netconfig.Bridges.{BridgeDetails, apply_bridges}

pub record InterfaceDetails : Type 0 where
  pub hardware_addr : Bytes
  pub spoof_hardware_addr : Bytes
  pub name : Bytes
  pub addr : Bytes

pub record InterfaceConfig : Type 0 where
  pub interfaces : List InterfaceDetails
  pub bridges : List BridgeDetails

-- What the code calls: `net.ParseMAC`, `netlink.ParseAddr` with the text of the address, the text of its
-- IP, whether it is one of FAMILY_V4, `net.ParseIP`, the text of a network, and the link that the
-- kernel makes for a new bridge among the given ones.
pub record NetLibrary : Type 0 where
  pub parse_mac : Bytes → Option Bytes
  pub parse_addr : Bytes → Option Bytes
  pub addr_ip : Bytes → Bytes
  pub is_v4 : Bytes → Bool
  pub parse_ip : Bytes → Bytes
  pub ipnet_string : IpNet → Bytes
  pub new_bridge : List Link → Bytes → Link

abbrev pub Details : Type 0
Details = List (Bytes × InterfaceDetails)

unfoldable pub index_by_name : Details → List InterfaceDetails → Details
index_by_name m [] = m
index_by_name m (d ∷ ds) = index_by_name (insert Bytes-discrete d.name d m) ds

unfoldable pub index_by_hardware_addr : Details → List InterfaceDetails → Details
index_by_hardware_addr m [] = m
index_by_hardware_addr m (d ∷ ds) =
    let own = insert Bytes-discrete d.hardware_addr d m in
    index_by_hardware_addr
      (if is_empty d.spoof_hardware_addr
        then own
        else insert Bytes-discrete d.spoof_hardware_addr d own)
      ds

-- The details for a link; `none` passes it over.
unfoldable pub choose_details : Details → Details → Link → Option InterfaceDetails
choose_details by_name by_hardware_addr l =
    let named = lookup Bytes-discrete l.name by_name in
    if is_empty l.hardware_addr
    then named
    else elim (lookup Bytes-discrete l.hardware_addr by_hardware_addr) [
      | none ↦ named
      | some d ↦ some d
    ]

module _ (lib : NetLibrary) (fails : Op → Bool) where
  unfoldable pub rename : Link → InterfaceDetails → Action
  rename l d = if bytes_eq l.name d.name then skip else call fails (set_name l.index d.name)

  unfoldable pub spoof : Link → InterfaceDetails → Action
  spoof l d =
      if is_empty d.spoof_hardware_addr then skip else elim (lib.parse_mac d.spoof_hardware_addr) [
        | none ↦ give_up
        | some hwaddr ↦ call fails (set_hardware_addr l.index (mac_string hwaddr))
      ]

  unfoldable pub bring_up : Link → Action
  bring_up l = if l.up then skip else call fails (set_up l.index)

  -- The resolver's file, for lan0 only.
  unfoldable pub point_resolver : InterfaceDetails → Bytes → Action
  point_resolver d a =
      if bytes_eq d.name (text "lan0")
      then call fails (write_resolv_conf (text "nameserver " ++ lib.addr_ip a ++ (10 ∷ [])))
      else skip

  unfoldable pub set_addr : Link → InterfaceDetails → Action
  set_addr l d = if is_empty d.addr then skip else elim (lib.parse_addr d.addr) [
    | none ↦ give_up
    | some a ↦ call fails (addr_replace l.index a) >> point_resolver d a
  ]

  -- The body of the loop for a link and its details.
  unfoldable pub configure_link : Link → InterfaceDetails → Action
  configure_link l d = rename l d >> spoof l d >> bring_up l >> set_addr l d

  unfoldable pub apply_details : Option InterfaceDetails → Link → Action
  apply_details none l = skip
  apply_details (some d) l = configure_link l d

  -- The loop over the links that `LinkList` returned.
  unfoldable pub configure_links : Details → Details → List Link → Action
  configure_links by_name by_hardware_addr [] = skip
  configure_links by_name by_hardware_addr (l ∷ ls) =
      apply_details (choose_details by_name by_hardware_addr l) l
      >> configure_links by_name by_hardware_addr ls

  -- `applyInterfaces`; `list_fails` is an error of `LinkList`. An error of `applyBridges` is logged.
  unfoldable pub apply_interfaces : Bool → File InterfaceConfig → Action
  apply_interfaces list_fails missing w = (w, true)
  apply_interfaces list_fails unreadable w = (w, false)
  apply_interfaces list_fails malformed w = (w, false)
  apply_interfaces list_fails (contents cfg) w =
      let (w', _) = apply_bridges lib.new_bridge fails list_fails cfg.bridges w in
      let r =
        configure_links (index_by_name [] cfg.interfaces) (index_by_hardware_addr [] cfg.interfaces)
          w'.links w' in
      if list_fails then (w', false) else r

-- `Interface`, over interfaces.json; `none` is an error.
unfoldable pub find_interface : List InterfaceDetails → Bytes → Option InterfaceDetails
find_interface [] ifname = none
find_interface (d ∷ ds) ifname =
    let later = find_interface ds ifname in if not (bytes_eq d.name ifname) then later else some d

unfoldable pub interface : File InterfaceConfig → Bytes → Option InterfaceDetails
interface (contents cfg) ifname = find_interface cfg.interfaces ifname
interface _ ifname = none

-- `LinkAddress`; `parse_cidr` is the address that `net.ParseCIDR` returns.
unfoldable pub link_address : (Bytes → Option Bytes) → File InterfaceConfig → Bytes → Option Bytes
link_address parse_cidr file ifname = interface file ifname >>= λ iface. parse_cidr iface.addr
