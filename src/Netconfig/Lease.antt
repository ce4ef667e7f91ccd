-- ===== src/Netconfig/Lease.antt =====
-- netconfig/netconfig.go: `subnetMaskSize`, `applyDhcp4` and `applyDhcp6`.
use rout.Base.{
  ℕ, ◌==◌, ltb, if◌then◌else◌, Bool, true, false, not, List, [], ◌∷◌, ◌++◌, Option, none, some,
  Bytes, is_empty, text, ◌>>=◌, length,
}
use rout.Net.{bytes_eq}
use rout.Netmask.{IpNet, mask_size, cidr_mask}
use rout.Strings.{split, format_decimal}
use rout.Strconv.{parse_uint}
use rout.Dhcp4.Client.{Config}
use rout.Netconfig.Firewall.{File, missing, unreadable, malformed, contents}
use rout.Netconfig.Links.{
  Link, Route, World, Op, addr_replace, addr_del, route_replace, Action, skip, give_up, ◌>>◌, call,
}
use rout.Netconfig.Bridges.{link_by_name}
use rout.Netconfig.Interfaces.{NetLibrary}

-- The bytes of the parts; `none` is an error of `ParseUint`.
unfoldable pub parse_parts : List Bytes → Option Bytes
parse_parts [] = some []
parse_parts (part ∷ parts) = do
  i ← parse_uint 255 part
  numeric ← parse_parts parts
  some (i ∷ numeric)

unfoldable pub subnet_mask_size : Bytes → Option ℕ
subnet_mask_size mask =
    let parts = split b'.' mask in
    if not (length parts == 4)
    then none
    else elim (parse_parts parts) [ none ↦ none | some numeric ↦ some (mask_size numeric).0 ]

-- What `AddrList` returns for FAMILY_V4 among the addresses.
unfoldable pub v4_addrs : (Bytes → Bool) → List Bytes → List Bytes
v4_addrs is_v4 [] = []
v4_addrs is_v4 (a ∷ addrs) = let rest = v4_addrs is_v4 addrs in if is_v4 a then a ∷ rest else rest

-- The addresses of the link with the given index.
unfoldable pub addrs_of : ℕ → List Link → List Bytes
addrs_of i [] = []
addrs_of i (l ∷ ls) = let later = addrs_of i ls in if l.index == i then l.addrs else later

module _ (lib : NetLibrary) (fails : Op → Bool) where
  -- The loop that removes old addresses.
  unfoldable pub delete_addrs : ℕ → Bytes → List Bytes → Action
  delete_addrs i got_addr [] = skip
  delete_addrs i got_addr (a ∷ addrs) =
      let rest = delete_addrs i got_addr addrs in
      if bytes_eq a got_addr then rest else call fails (addr_del i a) >> rest

  -- The loop behind `AddrList`, which may fail.
  unfoldable pub delete_old : Bool → ℕ → Bytes → Action
  delete_old list_fails i got_addr w =
      if list_fails
      then (w, false)
      else delete_addrs i got_addr (v4_addrs lib.is_v4 (addrs_of i w.links)) w

  -- The route to the router, and the one by it to everywhere. RTPROT_DHCP is 16.
  abbrev pub router_route : Config → ℕ → Route
  router_route got i = record {
    link_index = i;
    dst = (lib.parse_ip got.router, 32);
    gw = [];
    src = lib.parse_ip got.client_ip;
    scope_link = true;
    protocol = 16;
  }

  abbrev pub default_route : Config → ℕ → Route
  default_route got i = record {
    link_index = i;
    dst = (lib.parse_ip (text "0.0.0.0"), 0);
    gw = lib.parse_ip got.router;
    src = lib.parse_ip got.client_ip;
    scope_link = false;
    protocol = 16;
  }

  -- `gotAddr`
  abbrev pub lease_addr : Config → ℕ → Bytes
  lease_addr got size = got.client_ip ++ text "/" ++ format_decimal size

  -- The part from `AddrReplace` on.
  unfoldable pub replace_lease : Bool → Config → ℕ → Bytes → Bytes → Action
  replace_lease list_fails got i got_addr addr =
      call fails (addr_replace i addr)
      >> delete_old list_fails i got_addr
      >> call fails (route_replace (router_route got i))
      >> call fails (route_replace (default_route got i))

  -- The part behind `LinkByName`; `handle_fails` is an error of `NewHandle`.
  unfoldable pub configure_uplink : Bool → Bool → Config → Link → Action
  configure_uplink handle_fails list_fails got link =
      if is_empty got.subnet_mask then give_up else elim (subnet_mask_size got.subnet_mask) [
        | none ↦ give_up
        | some size ↦ elim (lib.parse_addr (lease_addr got size)) [
          | none ↦ give_up
          | some addr ↦
              if handle_fails
              then give_up
              else replace_lease list_fails got link.index (lease_addr got size) addr
        ]
      ]

  unfoldable pub apply_dhcp4 : Bool → Bool → File Config → Action
  apply_dhcp4 handle_fails list_fails missing w = (w, true)
  apply_dhcp4 handle_fails list_fails unreadable w = (w, false)
  apply_dhcp4 handle_fails list_fails malformed w = (w, false)
  apply_dhcp4 handle_fails list_fails (contents got) w =
      elim (link_by_name (text "uplink0") w.links) [
        | none ↦ (w, false)
        | some link ↦ configure_uplink handle_fails list_fails got link w
      ]

-- How `applyDhcp6` ends: without an error, with one, or with an index out of range.
pub data Outcome : Type 0 where
  succeeded failed panicked : Outcome

-- `prefix.IP[len(prefix.IP)-1] = 1`; `none` is the index -1.
unfoldable pub first_address : Bytes → Option Bytes
first_address [] = none
first_address (b ∷ []) = some (1 ∷ [])
first_address (b ∷ c ∷ rest) = elim (first_address (c ∷ rest)) [
  | none ↦ none
  | some ip ↦ some (b ∷ ip)
]

-- The first /64 of a larger prefix.
unfoldable pub narrow_mask : Bytes → Bytes
narrow_mask mask =
    let (ones, bits) = mask_size mask in if ltb ones 64 then cidr_mask 64 bits else mask

unfoldable pub lan_prefix : IpNet → Option IpNet
lan_prefix prefix = elim (first_address prefix.ip) [
  | none ↦ none
  | some ip ↦ some (record { ip = ip; mask = narrow_mask prefix.mask })
]

module _ (lib : NetLibrary) (fails : Op → Bool) where
  -- The loop over the prefixes, for the link with the given index.
  unfoldable pub add_prefixes : ℕ → List IpNet → World → World × Outcome
  add_prefixes i [] w = (w, succeeded)
  add_prefixes i (prefix ∷ prefixes) w = elim (lan_prefix prefix) [
    | none ↦ (w, panicked)
    | some p ↦ elim (lib.parse_addr (lib.ipnet_string p)) [
      | none ↦ (w, failed)
      | some addr ↦
          let (w', ok) = call fails (addr_replace i addr) w in
          let rest = add_prefixes i prefixes w' in if ok then rest else (w', failed)
    ]
  ]

  -- `applyDhcp6`, over the prefixes of the lease.
  unfoldable pub apply_dhcp6 : File (List IpNet) → World → World × Outcome
  apply_dhcp6 missing w = (w, succeeded)
  apply_dhcp6 unreadable w = (w, failed)
  apply_dhcp6 malformed w = (w, failed)
  apply_dhcp6 (contents prefixes) w = elim (link_by_name (text "lan0") w.links) [
    | none ↦ (w, failed)
    | some link ↦ add_prefixes link.index prefixes w
  ]
