-- ===== src/Netconfig/Rule.antt =====
-- Where one rule of `portForwardExpr` sends a packet.
use rout.Base.{
  ℕ, ◌==◌, ◌≡◌, inl, inr, refl, sym, ltb, if◌then◌else◌, Bool, Bool-cases, true, false, not, ◌&&◌,
  List, [], ◌∷◌, ◌++◌, Option, none, some, Bytes, take, drop, arith,
}
use rout.Net.{bytes_eq, to4}
use rout.Netconfig.Forward.{
  Expr, immediate, put_uint16, nfifname, port_cmp, dest_nat, port_forward_expr,
}
use rout.Netconfig.Nft.{Packet, Registers, load, bytes_lt, Target, run_rule}

put_uint16-bytes_lt : (a b : ℕ) → bytes_lt (put_uint16 a) (put_uint16 b) ≡ ltb a b
put_uint16-bytes_lt a b = ground arith

put_uint16-bytes_eq : (a b : ℕ) → bytes_eq (put_uint16 a) (put_uint16 b) ≡ (a == b)
put_uint16-bytes_eq a b = ground arith

byte-bytes_eq : (a b : ℕ) → bytes_eq (a ∷ []) (b ∷ []) ≡ (a == b)
byte-bytes_eq a b = ground arith

-- The port number in the transport header, as it is compared.
unfoldable pub in_ports : ℕ → ℕ → ℕ → Bool
in_ports lo hi port = not (ltb port lo) && not (ltb hi port)

abbrev pub forward_to : Bytes → ℕ → ℕ → Target
forward_to dest dlo dhi = record {
  addr = to4 dest;
  port_min = put_uint16 dlo;
  port_max = put_uint16 dhi;
}

run_dest_nat :
    (p : Packet) (regs : Registers) (dest : Bytes) (dlo dhi : ℕ)
    → run_rule p (load 1 dest regs) (dest_nat dlo dhi)
      ≡ some (record { addr = dest; port_min = put_uint16 dlo; port_max = put_uint16 dhi })
unfolding dest_nat
run_dest_nat p regs dest dlo dhi = elim (Bool-cases (dlo == dhi)) [
  | inl same ↦ rw same (let e : dlo ≡ dhi = ground arith in rw e refl)
  | inr other ↦ rw other refl
]

-- The bytes of the destination port in a transport header.
abbrev pub HasPort : Packet → ℕ → Type 0
HasPort p port = take 2 (drop 2 p.transport) ≡ put_uint16 port

run_port_cmp :
    (p : Packet) (regs : Registers) (lo hi port : ℕ) (rest : List Expr)
    → regs 1 ≡ put_uint16 port
    → run_rule p regs (port_cmp lo hi ++ rest)
      ≡ (if in_ports lo hi port then run_rule p regs rest else none)
unfolding port_cmp in_ports
run_port_cmp p regs lo hi port rest at = elim (Bool-cases (lo == hi)) [
  | inl same ↦
      rw (same, at, put_uint16-bytes_eq port lo)
        (let whole : (port == lo) ≡ (not (ltb port lo) && not (ltb hi port)) = ground arith in
          rw whole refl)
  | inr other ↦
      rw (other, at, put_uint16-bytes_lt port lo, put_uint16-bytes_lt hi port) (ground arith)
]

three_tests {ℓ} :
    {A : Type ℓ} (a b c : Bool) (x : Option A)
    → (if a then if b then if c then x else none else none else none)
      ≡ (if a && b && c then x else none)
three_tests true true c x = refl
three_tests true false c x = refl
three_tests false b c x = refl

pub run_port_forward :
    (p : Packet) (ifname : Bytes) (proto lo hi : ℕ) (dest : Bytes) (dlo dhi port : ℕ)
    → HasPort p port
    → run_rule p (λ r. []) (port_forward_expr ifname proto lo hi dest dlo dhi) ≡ (
        if bytes_eq p.iifname (nfifname ifname) && (p.l4proto == proto) && in_ports lo hi port
        then some (forward_to dest dlo dhi)
        else none)
unfolding port_forward_expr
run_port_forward p ifname proto lo hi dest dlo dhi port at =
    let regs : Registers =
      load 1 (take 2 (drop 2 p.transport)) (load 1 (p.l4proto ∷ []) (load 1 p.iifname (λ r. []))) in
    rw
      (
        byte-bytes_eq p.l4proto proto,
        run_port_cmp p regs lo hi port (immediate 1 (to4 dest) ∷ dest_nat dlo dhi) at,
        run_dest_nat p regs (to4 dest) dlo dhi,
      )
      (three_tests (bytes_eq p.iifname (nfifname ifname)) (p.l4proto == proto) (in_ports lo hi port)
        _)

pub tests_apart {ℓ} :
    {A : Type ℓ} (a b c : Bool) (x : Option A)
    → (if a && b && c then x else none)
      ≡ (if a then if b then if c then x else none else none else none)
tests_apart a b c x = sym (three_tests a b c x)
