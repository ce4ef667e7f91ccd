-- ===== src/Netconfig/Forward.antt =====
-- netconfig/netconfig.go: `portForwardExpr` and `applyPortForwardings`.
use rout.Base.{
  ℕ, ◌/◌, ◌%◌, ◌==◌, ◌>>=◌, ◌||◌, if◌then◌else◌, List, [], ◌∷◌, ◌++◌, Option, none, some, Bytes,
  replicate, text,
}
use rout.Net.{copy, to4, bytes_eq}
use rout.Netconfig.Port.{parse_port}

pub data MetaKey : Type 0 where
  iifname oifname l4proto : MetaKey

pub data CmpOp : Type 0 where
  eq neq gte lte : CmpOp

-- The expressions of github.com/google/nftables that the code uses, with the fields that it sets: `nat`
-- is a destination NAT for IPv4, with the registers of the address and of the two ports, 0 for none;
-- `bitwise` has the length, mask and xor, `tcpmss` is an `Rt` load, `byteorder` is `hton` with length
-- and size, `tcpopt` is an `Exthdr` write with type, offset and length, `counter` is an `Objref`.
pub data Expr : Type 0 where
  meta : MetaKey → ℕ → Expr
  cmp : CmpOp → ℕ → Bytes → Expr
  payload : ℕ → ℕ → ℕ → Expr
  immediate : ℕ → Bytes → Expr
  nat : ℕ → ℕ → ℕ → Expr
  masq : Expr
  bitwise : ℕ → ℕ → ℕ → Bytes → Bytes → Expr
  tcpmss : ℕ → Expr
  byteorder : ℕ → ℕ → ℕ → ℕ → Expr
  tcpopt : ℕ → ℕ → ℕ → ℕ → Expr
  counter : Bytes → Expr

-- `binaryutil.BigEndian.PutUint16`
abbrev pub put_uint16 : ℕ → Bytes
put_uint16 n = n / 256 ∷ n % 256 ∷ []

unfoldable pub nfifname : Bytes → Bytes
nfifname n = copy (replicate 16 0) (n ++ (0 ∷ []))

unfoldable pub port_cmp : ℕ → ℕ → List Expr
port_cmp port_min port_max =
    if port_min == port_max
    then cmp eq 1 (put_uint16 port_min) ∷ []
    else cmp gte 1 (put_uint16 port_min) ∷ cmp lte 1 (put_uint16 port_max) ∷ []

unfoldable pub dest_nat : ℕ → ℕ → List Expr
dest_nat dport_min dport_max =
    if dport_min == dport_max
    then immediate 2 (put_uint16 dport_min) ∷ nat 1 2 0 ∷ []
    else immediate 2 (put_uint16 dport_min) ∷ immediate 3 (put_uint16 dport_max) ∷ nat 1 2 3 ∷ []

unfoldable pub port_forward_expr : Bytes → ℕ → ℕ → ℕ → Bytes → ℕ → ℕ → List Expr
port_forward_expr ifname proto port_min port_max dest dport_min dport_max =
    meta iifname 1
    ∷ cmp eq 1 (nfifname ifname)
    ∷ meta l4proto 1
    ∷ cmp eq 1 (proto ∷ [])
    ∷ payload 1 2 2
    ∷ (port_cmp port_min port_max ++ (immediate 1 (to4 dest) ∷ dest_nat dport_min dport_max))

pub record PortForwarding : Type 0 where
  pub proto : Bytes
  pub port : Bytes
  pub dest_addr : Bytes
  pub dest_port : Bytes

-- `strings.Split(s, ",")`
unfoldable pub split_comma : Bytes → List Bytes
split_comma [] = [] ∷ []
split_comma (c ∷ rest) =
    let parts = split_comma rest in
    if c == b',' then [] ∷ parts else elim parts [ [] ↦ (c ∷ []) ∷ [] | p ∷ more ↦ (c ∷ p) ∷ more ]

-- The switch over the protocol; `none` is the error of an unknown one.
unfoldable pub protocol : Bytes → Option ℕ
protocol proto =
    if bytes_eq proto [] || bytes_eq proto (text "tcp")
    then some 6
    else if bytes_eq proto (text "udp")
    then some 17
    else none

-- `parse_ip` is `net.ParseIP`, with the empty list for nil.
module _ (parse_ip : Bytes → Bytes) (ifname : Bytes) where
  -- The rule for one protocol of a forwarding.
  unfoldable pub forward_rule : PortForwarding → Bytes → Option (List Expr)
  forward_rule fw proto = do
    p ← protocol proto
    (min, max) ← parse_port fw.port
    (dmin, dmax) ← parse_port fw.dest_port
    some (port_forward_expr ifname p min max (parse_ip fw.dest_addr) dmin dmax)

  unfoldable pub protocol_rules : PortForwarding → List Bytes → Option (List (List Expr))
  protocol_rules fw [] = some []
  protocol_rules fw (proto ∷ rest) = do
    rule ← forward_rule fw proto
    rules ← protocol_rules fw rest
    some (rule ∷ rules)

  -- The loop of `applyPortForwardings`: the rules that it adds to the chain, or `none` for an error.
  unfoldable pub forward_rules : List PortForwarding → Option (List (List Expr))
  forward_rules [] = some []
  forward_rules (fw ∷ rest) = do
    rules ← protocol_rules fw (split_comma fw.proto)
    more ← forward_rules rest
    some (rules ++ more)
