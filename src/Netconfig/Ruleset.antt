-- ===== src/Netconfig/Ruleset.antt =====
-- What a batch of `applyFirewall` does.
use rout.Base.{
  ℕ, ◌≡◌, inl, inr, ◌∙◌, refl, ap, if◌then◌else◌, Option-cases, List, [], ◌∷◌, ◌++◌, map,
  append-nil, Option, none, some, Bytes, text, arith,
}
use rout.Net.{bytes_eq}
use rout.Netconfig.Forward.{Expr, nfifname, PortForwarding, forward_rules}
use rout.Netconfig.Nft.{Packet, run_chain}
use rout.Netconfig.Rule.{HasPort}
use rout.Netconfig.Forwarding.{target_of, run_forward_rules}
use rout.Netconfig.Firewall.{
  File, missing, unreadable, malformed, contents, Family, ipv4, ipv6, CounterObj, counter_obj,
  prerouting, Command, flush_ruleset, add_rule, add_obj, same_table, get_counter_obj, filter_table,
  nat_table, Kernel, filter_commands, forwardings, batch, apply_firewall,
}

-- The rules that a batch adds to a prerouting chain.
abbrev pub redirects : List Command → List (List Expr)
redirects [] = []
redirects (add_rule table prerouting exprs ∷ rest) = exprs ∷ redirects rest
redirects (_ ∷ rest) = redirects rest

-- The counters that a batch adds.
abbrev pub counters : List Command → List CounterObj
counters [] = []
counters (add_obj co ∷ rest) = co ∷ counters rest
counters (_ ∷ rest) = counters rest

-- The counter that is looked for.
abbrev fwded : Family → CounterObj
fwded family = record { table = filter_table family; name = text "fwded"; bytes = 0; packets = 0 }

get_counter_obj-one :
    (default co o : CounterObj)
    → co.table.name ≡ o.table.name
    → get_counter_obj default (some (counter_obj co ∷ [])) o ≡ co
unfolding get_counter_obj same_table
get_counter_obj-one default co o same = ground arith

redirects-rules :
    (rules : List (List Expr)) (rest : List Command)
    → redirects (map (add_rule nat_table prerouting) rules ++ rest) ≡ rules ++ redirects rest
redirects-rules [] rest = refl
redirects-rules (r ∷ rules) rest = ap (◌∷◌ r) (redirects-rules rules rest)

counters-rules :
    (rules : List (List Expr)) (rest : List Command)
    → counters (map (add_rule nat_table prerouting) rules ++ rest) ≡ counters rest
counters-rules [] rest = refl
counters-rules (r ∷ rules) rest = counters-rules rules rest

redirects-batch :
    (ifname : Bytes) (default : CounterObj) (k : Kernel) (rules : List (List Expr))
    → redirects (batch ifname default k rules) ≡ rules
unfolding filter_commands
redirects-batch ifname default k rules = redirects-rules rules _ ∙ append-nil rules

-- The forwardings that a file configures, if it can be read.
abbrev pub configured : File (List PortForwarding) → Option (List PortForwarding)
configured missing = some []
configured unreadable = none
configured malformed = none
configured (contents fws) = some fws

forwardings-run :
    (parse_ip : Bytes → Bytes) (ifname : Bytes) (file : File (List PortForwarding))
    (rules : List (List Expr)) (p : Packet) (port : ℕ)
    → HasPort p port
    → forwardings parse_ip ifname file ≡ some rules
    → (fws : List PortForwarding) × (configured file ≡ some fws)
      × (run_chain p rules ≡ (
          if bytes_eq p.iifname (nfifname ifname)
          then target_of parse_ip fws p.l4proto port
          else none))
unfolding forwardings forward_rules
forwardings-run parse_ip ifname missing rules p port at e =
    ([], refl, run_forward_rules parse_ip ifname p [] rules port at e)
forwardings-run parse_ip ifname unreadable rules p port at e = cc
forwardings-run parse_ip ifname malformed rules p port at e = cc
forwardings-run parse_ip ifname (contents fws) rules p port at e =
    (fws, refl, run_forward_rules parse_ip ifname p fws rules port at e)

module _ (parse_ip : Bytes → Bytes) (default : CounterObj) (file : File (List PortForwarding))
    (ifname : Bytes) (k : Kernel) where
  -- A batch that is sent starts with the flush of the whole ruleset, and its prerouting rules send a
  -- packet with a port in its transport header to the target of the first configured forwarding that
  -- has its protocol and port if it comes from the uplink, and nowhere otherwise. If the file is there
  -- but cannot be read, nothing is sent.
  pub apply_firewall-redirects :
      (p : Packet) (port : ℕ) (cmds : List Command)
      → HasPort p port
      → (apply_firewall parse_ip default file ifname k).0 ≡ some cmds
      → (rest : List Command) × (fws : List PortForwarding) × (cmds ≡ flush_ruleset ∷ rest)
        × (configured file ≡ some fws)
        × (run_chain p (redirects cmds) ≡ (
            if bytes_eq p.iifname (nfifname ifname)
            then target_of parse_ip fws p.l4proto port
            else none))
  unfolding apply_firewall
  apply_firewall-redirects p port cmds at e =
      elim (Option-cases (forwardings parse_ip ifname file)) [
        | inl bad ↦ absurd (ground arith)
        | inr (rules, made) ↦
            let same : cmds ≡ batch ifname default k rules = ground arith in
            let (fws, is, runs) = forwardings-run parse_ip ifname file rules p port at made in
            (_, fws, same, is, rw (same, redirects-batch ifname default k rules) runs)
      ]

  -- If the kernel has one counter in each of the two filter tables, every batch that is sent adds these
  -- two counters with their values, so that they outlive the flush.
  pub apply_firewall-counters :
      (co4 co6 : CounterObj) (cmds : List Command)
      → co4.table.name ≡ text "filter"
      → co6.table.name ≡ text "filter"
      → k.objects ipv4 ≡ some (counter_obj co4 ∷ [])
      → k.objects ipv6 ≡ some (counter_obj co6 ∷ [])
      → (apply_firewall parse_ip default file ifname k).0 ≡ some cmds
      → counters cmds ≡ co4 ∷ co6 ∷ []
  unfolding apply_firewall filter_commands
  apply_firewall-counters co4 co6 cmds in4 in6 has4 has6 e =
      elim (Option-cases (forwardings parse_ip ifname file)) [
        | inl bad ↦ absurd (ground arith)
        | inr (rules, made) ↦
            let same : cmds ≡ batch ifname default k rules = ground arith in
            rw same (
              counters-rules rules _
              ∙ rw
                  (
                    has4,
                    has6,
                    get_counter_obj-one default co4 (fwded ipv4) in4,
                    get_counter_obj-one default co6 (fwded ipv6) in6,
                  )
                  refl)
      ]
