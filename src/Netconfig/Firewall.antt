-- ===== src/Netconfig/Firewall.antt =====
-- netconfig/netconfig.go: `getCounterObj` and `applyFirewall`.
use rout.Base.{
  ℕ, if◌then◌else◌, Bool, false, not, List, [], ◌∷◌, ◌++◌, map, Option, none, some, Bytes, text,
}
use rout.Net.{bytes_eq}
use rout.Netconfig.Forward.{
  Expr, meta, cmp, payload, masq, bitwise, tcpmss, byteorder, tcpopt, counter, oifname, l4proto, eq,
  neq, nfifname, PortForwarding, forward_rules,
}

-- A configuration file, read and decoded.
pub data File {ℓ} (A : Type ℓ) : Type ℓ where
  missing unreadable malformed : File A
  contents : A → File A

pub data Family : Type 0 where
  ipv4 ipv6 : Family

pub record Table : Type 0 where
  pub family : Family
  pub name : Bytes

pub record CounterObj : Type 0 where
  pub table : Table
  pub name : Bytes
  pub bytes : ℕ
  pub packets : ℕ

-- What `GetObj` returns: a counter, or an object of another kind.
pub data Obj : Type 0 where
  counter_obj : CounterObj → Obj
  other_obj : Obj

pub data Hook : Type 0 where
  prerouting postrouting forward : Hook

-- What is queued on the connection; a chain has the name of its hook.
pub data Command : Type 0 where
  flush_ruleset : Command
  add_table : Table → Command
  add_chain : Table → Hook → Command
  add_rule : Table → Hook → List Expr → Command
  add_obj : CounterObj → Command

-- The workaround's loop: the counters of a table with the name of the counter's own.
unfoldable pub same_table : CounterObj → List Obj → List CounterObj
same_table o [] = []
same_table o (other_obj ∷ objs) = same_table o objs
same_table o (counter_obj co ∷ objs) =
    let rest = same_table o objs in if bytes_eq co.table.name o.table.name then co ∷ rest else rest

-- `getCounterObj`, over what `GetObj` returns (`none` for an error) and the default object.
unfoldable pub get_counter_obj : CounterObj → Option (List Obj) → CounterObj → CounterObj
get_counter_obj default none o = record o { bytes = default.bytes; packets = default.packets }
get_counter_obj default (some objs) o = elim (same_table o objs) [
  | [] ↦ record o { bytes = default.bytes; packets = default.packets }
  | co ∷ more ↦ elim more [
    | [] ↦ co
    | _ ∷ _ ↦ record o { bytes = default.bytes; packets = default.packets }
  ]
]

abbrev pub nat_table : Table
nat_table = record { family = ipv4; name = text "nat" }

abbrev pub filter_table : Family → Table
filter_table family = record { family = family; name = text "filter" }

abbrev pub masquerade : Bytes → List Expr
masquerade ifname = meta oifname 1 ∷ cmp eq 1 (nfifname ifname) ∷ masq ∷ []

-- The rule that clamps the segment size of TCP connections that leave by the interface.
abbrev pub clamp_mss : Bytes → List Expr
clamp_mss ifname =
    meta oifname 1
    ∷ cmp eq 1 (nfifname ifname)
    ∷ meta l4proto 1
    ∷ cmp eq 1 (6 ∷ [])
    ∷ payload 1 13 1
    ∷ bitwise 1 1 1 (2 ∷ []) (0 ∷ [])
    ∷ cmp neq 1 (0 ∷ [])
    ∷ tcpmss 1
    ∷ byteorder 1 1 2 2
    ∷ tcpopt 1 2 2 2
    ∷ []

-- What the firewall reads: the forwardings, and the objects that `GetObj` returns for each table.
pub record Kernel : Type 0 where
  pub objects : Family → Option (List Obj)
  pub flush_fails : Bool

-- The body of the loop over the two filter tables.
unfoldable pub filter_commands : Bytes → CounterObj → Kernel → Family → List Command
filter_commands ifname default k family =
    let table = filter_table family in
    let o : CounterObj = record { table = table; name = text "fwded"; bytes = 0; packets = 0 } in
    let co = get_counter_obj default (k.objects family) o in
    add_chain table forward
    ∷ add_rule table forward (clamp_mss ifname)
    ∷ add_obj co
    ∷ add_rule table forward (counter co.name ∷ [])
    ∷ []

-- The rules for portforwardings.json; `none` is an error.
unfoldable pub forwardings :
    (Bytes → Bytes) → Bytes → File (List PortForwarding) → Option (List (List Expr))
forwardings parse_ip ifname missing = some []
forwardings parse_ip ifname unreadable = none
forwardings parse_ip ifname malformed = none
forwardings parse_ip ifname (contents fws) = forward_rules parse_ip ifname fws

abbrev pub batch : Bytes → CounterObj → Kernel → List (List Expr) → List Command
batch ifname default k rules =
    (flush_ruleset
      ∷ add_table nat_table
      ∷ add_chain nat_table prerouting
      ∷ add_chain nat_table postrouting
      ∷ add_rule nat_table postrouting (masquerade ifname)
      ∷ [])
    ++ (map (add_rule nat_table prerouting) rules
        ++ (add_table (filter_table ipv4)
            ∷ add_table (filter_table ipv6)
            ∷ (filter_commands ifname default k ipv4 ++ filter_commands ifname default k ipv6)))

-- `applyFirewall`: the batch that `Flush` sends, if it comes to that, and whether it succeeds.
unfoldable pub apply_firewall :
    (Bytes → Bytes)
    → CounterObj
    → File (List PortForwarding)
    → Bytes
    → Kernel
    → Option (List Command) × Bool
apply_firewall parse_ip default file ifname k = elim (forwardings parse_ip ifname file) [
  | none ↦ (none, false)
  | some rules ↦ (some (batch ifname default k rules), not k.flush_fails)
]
