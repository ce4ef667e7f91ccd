-- ===== src/Netconfig/Forwarding.antt =====
-- Where the rules of `applyPortForwardings` send a packet.
use rout.Base.{
  ℕ, ◌==◌, ◌≡◌, inl, inr, ◌∙◌, refl, ◌>>=◌, if◌then◌else◌, Bool, Option-cases, true, false, List,
  [], ◌∷◌, ◌++◌, Option, none, some, Bytes, arith,
}
use rout.Net.{bytes_eq}
use rout.Netconfig.Port.{parse_port}
use rout.Netconfig.Forward.{
  Expr, nfifname, port_forward_expr, PortForwarding, split_comma, protocol, forward_rule,
  protocol_rules, forward_rules,
}
use rout.Netconfig.Nft.{Packet, Target, run_rule, run_chain}
use rout.Netconfig.Rule.{in_ports, forward_to, HasPort, run_port_forward, tests_apart}

-- The protocols of a forwarding, as numbers.
abbrev pub has_protocol : ℕ → List Bytes → Bool
has_protocol n [] = false
has_protocol n (proto ∷ rest) =
    let later = has_protocol n rest in
    elim (protocol proto) [ none ↦ later | some k ↦ if n == k then true else later ]

module _ (parse_ip : Bytes → Bytes) where
  -- Where a forwarding sends a port, whatever the protocol.
  abbrev pub only_ports : PortForwarding → ℕ → Option Target
  only_ports fw port = do
    (lo, hi) ← parse_port fw.port
    (dlo, dhi) ← parse_port fw.dest_port
    if in_ports lo hi port then some (forward_to (parse_ip fw.dest_addr) dlo dhi) else none

  abbrev pub forward_target : PortForwarding → ℕ → ℕ → Option Target
  forward_target fw proto port =
      if has_protocol proto (split_comma fw.proto) then only_ports fw port else none

  -- The first forwarding that has the protocol and the port.
  abbrev pub target_of : List PortForwarding → ℕ → ℕ → Option Target
  target_of [] proto port = none
  target_of (fw ∷ rest) proto port =
      let later = target_of rest proto port in
      elim (forward_target fw proto port) [ none ↦ later | some t ↦ some t ]

  module _ (ifname : Bytes) where
    or_else : Option Target → Option Target → Option Target
    or_else none b = b
    or_else (some t) b = some t

    run_chain-append :
        (p : Packet) (a b : List (List Expr))
        → run_chain p (a ++ b) ≡ or_else (run_chain p a) (run_chain p b)
    unfolding or_else
    run_chain-append p [] b = refl
    run_chain-append p (rule ∷ a) b = elim (Option-cases (run_rule p (λ r. []) rule)) [
      | inl skipped ↦ rw (skipped, run_chain) (run_chain-append p a b)
      | inr (t, applies) ↦ rw (applies, run_chain) refl
    ]

    run_chain-one :
        (p : Packet) (rule : List Expr) → run_chain p (rule ∷ []) ≡ run_rule p (λ r. []) rule
    run_chain-one p rule = elim (Option-cases (run_rule p (λ r. []) rule)) [
      | inl skipped ↦ rw (skipped, run_chain) refl
      | inr (t, applies) ↦ rw (applies, run_chain) refl
    ]

    pick :
        (here : Bool) (k : Option ℕ) (n : ℕ) (later : Bool) (x : Option Target)
        → or_else
            (if here then elim k [ none ↦ none | some j ↦ if n == j then x else none ] else none)
            (if here then if later then x else none else none)
          ≡ (if here
              then if (elim k [ none ↦ later | some j ↦ if n == j then true else later ])
                then x
                else none
              else none)
    unfolding or_else
    pick false k n later x = refl
    pick true none n later x = refl
    pick true (some j) n true none = ground arith
    pick true (some j) n true (some t) = ground arith
    pick true (some j) n false none = ground arith
    pick true (some j) n false (some t) = ground arith

    -- What the rule of one protocol does with the packet of the protocol `k`.
    run_forward_rule :
        (p : Packet) (fw : PortForwarding) (proto : Bytes) (rule : List Expr) (port : ℕ)
        → HasPort p port
        → forward_rule parse_ip ifname fw proto ≡ some rule
        → run_rule p (λ r. []) rule ≡ (
            if bytes_eq p.iifname (nfifname ifname)
            then (elim (protocol proto) [
              | none ↦ none
              | some k ↦ if p.l4proto == k then only_ports fw port else none
            ])
            else none)
    unfolding forward_rule
    run_forward_rule p fw proto rule port at e = elim (Option-cases (protocol proto)) [
      | inl unknown ↦ absurd (ground arith)
      | inr (k, known) ↦ elim (Option-cases (parse_port fw.port)) [
        | inl bad ↦ absurd (ground arith)
        | inr (ports, read) ↦ elim (Option-cases (parse_port fw.dest_port)) [
          | inl bad ↦ absurd (ground arith)
          | inr (dports, read') ↦
              let made : port_forward_expr ifname k ports.0 ports.1 (parse_ip fw.dest_addr) dports.0
                    dports.1
                  ≡ rule =
                ground arith in
              rw (← made, known, read, read')
                (run_port_forward p ifname k ports.0 ports.1 (parse_ip fw.dest_addr) dports.0
                    dports.1 port at
                  ∙ tests_apart (bytes_eq p.iifname (nfifname ifname)) (p.l4proto == k)
                      (in_ports ports.0 ports.1 port) _)
        ]
      ]
    ]

    -- The rules of a forwarding, over the protocols that are left.
    run_protocol_rules :
        (p : Packet) (fw : PortForwarding) (protos : List Bytes) (rules : List (List Expr))
        (port : ℕ)
        → HasPort p port
        → protocol_rules parse_ip ifname fw protos ≡ some rules
        → run_chain p rules ≡ (
            if bytes_eq p.iifname (nfifname ifname)
            then if has_protocol p.l4proto protos then only_ports fw port else none
            else none)
    unfolding protocol_rules
    run_protocol_rules p fw [] rules port at e =
        rw (let empty : rules ≡ [] = ground arith in empty) (ground arith)
    run_protocol_rules p fw (proto ∷ protos) rules port at e =
        elim (Option-cases (forward_rule parse_ip ifname fw proto)) [
          | inl bad ↦ absurd (ground arith)
          | inr (rule, made) ↦ elim (Option-cases (protocol_rules parse_ip ifname fw protos)) [
            | inl bad ↦ absurd (ground arith)
            | inr (more, made') ↦
                let whole : rules ≡ rule ∷ more = ground arith in
                let first = run_forward_rule p fw proto rule port at made in
                let later = run_protocol_rules p fw protos more port at made' in
                rw whole (
                  run_chain-append p (rule ∷ []) more
                  ∙ rw (run_chain-one p rule, first, later)
                      (pick (bytes_eq p.iifname (nfifname ifname)) (protocol proto) p.l4proto
                        (has_protocol p.l4proto protos) (only_ports fw port)))
          ]
        ]

    if_none : (here : Bool) → ◌≡◌ {A = Option Target} none (if here then none else none)
    if_none true = refl
    if_none false = refl

    pick_next :
        (here : Bool) (x y : Option Target)
        → or_else (if here then x else none) (if here then y else none)
          ≡ (if here then elim x [ none ↦ y | some t ↦ some t ] else none)
    unfolding or_else
    pick_next false x y = refl
    pick_next true none y = refl
    pick_next true (some t) y = refl

    -- If all forwardings are read, the rules that are added send a packet with the port `port` in its
    -- transport header to the address and ports of the first forwarding that names its protocol and
    -- whose ports hold `port`; they do so for packets from the uplink only, and no other packet is
    -- redirected.
    pub run_forward_rules :
        (p : Packet) (fws : List PortForwarding) (rules : List (List Expr)) (port : ℕ)
        → HasPort p port
        → forward_rules parse_ip ifname fws ≡ some rules
        → run_chain p rules
          ≡ (if bytes_eq p.iifname (nfifname ifname) then target_of fws p.l4proto port else none)
    unfolding forward_rules
    run_forward_rules p [] rules port at e =
        rw (let empty : rules ≡ [] = ground arith in empty) (if_none _)
    run_forward_rules p (fw ∷ fws) rules port at e =
        elim (Option-cases (protocol_rules parse_ip ifname fw (split_comma fw.proto))) [
          | inl bad ↦ absurd (ground arith)
          | inr (own, made) ↦ elim (Option-cases (forward_rules parse_ip ifname fws)) [
            | inl bad ↦ absurd (ground arith)
            | inr (more, made') ↦
                let whole : rules ≡ own ++ more = ground arith in
                rw whole (
                  run_chain-append p own more
                  ∙ rw
                      (
                        run_protocol_rules p fw (split_comma fw.proto) own port at made,
                        run_forward_rules p fws more port at made',
                      )
                      (pick_next (bytes_eq p.iifname (nfifname ifname))
                        (forward_target fw p.l4proto port) (target_of fws p.l4proto port)))
          ]
        ]
