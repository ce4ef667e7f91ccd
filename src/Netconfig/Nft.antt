-- ===== src/Netconfig/Nft.antt =====
-- What nftables documents of the expressions of a forwarding: a rule runs over one packet, with
-- registers, and stops at the first comparison that fails.
use rout.Base.{
  ℕ, ◌==◌, ltb, if◌then◌else◌, Bool, false, not, List, [], ◌∷◌, Option, none, some, Bytes, take,
  drop,
}
use rout.Net.{bytes_eq}
use rout.Netconfig.Forward.{
  Expr, meta, cmp, payload, immediate, nat, MetaKey, iifname, oifname, l4proto, CmpOp, eq, neq, gte,
  lte,
}

-- A packet that comes in: the two interface names in 16 bytes, the protocol, the transport header.
pub record Packet : Type 0 where
  pub iifname : Bytes
  pub oifname : Bytes
  pub l4proto : ℕ
  pub transport : Bytes

abbrev pub Registers : Type 0
Registers = ℕ → Bytes

abbrev pub load : ℕ → Bytes → Registers → Registers
load r bytes regs = λ k. if k == r then bytes else regs k

-- The order of byte strings of one length, from the first byte that differs.
abbrev pub bytes_lt : Bytes → Bytes → Bool
bytes_lt [] b = false
bytes_lt (x ∷ xs) [] = false
bytes_lt (x ∷ xs) (y ∷ ys) = let rest = bytes_lt xs ys in if x == y then rest else ltb x y

abbrev pub compares : CmpOp → Bytes → Bytes → Bool
compares eq a b = bytes_eq a b
compares neq a b = not (bytes_eq a b)
compares gte a b = not (bytes_lt a b)
compares lte a b = not (bytes_lt b a)

abbrev pub meta_value : Packet → MetaKey → Bytes
meta_value p iifname = p.iifname
meta_value p oifname = p.oifname
meta_value p l4proto = p.l4proto ∷ []

-- Where a packet is sent: the address, and the first and last port.
pub record Target : Type 0 where
  pub addr : Bytes
  pub port_min : Bytes
  pub port_max : Bytes

-- A rule over one packet: `none` if it does not apply, or ends without a destination. The expressions
-- that no forwarding has end it.
abbrev pub run_rule : Packet → Registers → List Expr → Option Target
run_rule p regs [] = none
run_rule p regs (meta key r ∷ rest) = run_rule p (load r (meta_value p key) regs) rest
run_rule p regs (cmp op r bytes ∷ rest) =
    let go = run_rule p regs rest in if compares op (regs r) bytes then go else none
run_rule p regs (payload r offset len ∷ rest) =
    run_rule p (load r (take len (drop offset p.transport)) regs) rest
run_rule p regs (immediate r bytes ∷ rest) = run_rule p (load r bytes regs) rest
run_rule p regs (nat addr port_min port_max ∷ rest) = some (record {
  addr = regs addr;
  port_min = regs port_min;
  port_max = if port_max == 0 then regs port_min else regs port_max;
})
run_rule p regs (_ ∷ rest) = none

-- A chain: the first rule that applies decides.
abbrev pub run_chain : Packet → List (List Expr) → Option Target
run_chain p [] = none
run_chain p (rule ∷ rest) =
    let later = run_chain p rest in
    elim (run_rule p (λ r. []) rule) [ none ↦ later | some t ↦ some t ]
