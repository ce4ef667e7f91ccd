-- ===== src/Netconfig/Applied.antt =====
-- What `Apply` guarantees.
use rout.Base.{
  ◌≡◌, ◌∙◌, refl, sym, ap, subst, inl, inr, Bool, Bool-cases, Option-cases, true, false, List, [],
  ◌∷◌, ◌++◌, some, Bytes, Bytes-discrete, lookup,
}
use rout.Netconfig.Forward.{Expr}
use rout.Netconfig.Firewall.{CounterObj, forwardings, batch, apply_firewall}
use rout.Netconfig.Links.{Link, World, Op}
use rout.Netconfig.Interfaces.{NetLibrary, apply_interfaces}
use rout.Netconfig.Lease.{Outcome, succeeded, apply_dhcp4, apply_dhcp6}
use rout.Netconfig.WireGuard.{WireguardLibrary, apply_wireguard}
use rout.Netconfig.Apply.{
  uplink_interface, sysctls_for, processes, write_sysctls, apply_sysctl, notify, Files, Reads,
  Stage, Result, errors, crashed, interfaces, dhcp4, dhcp6, sysctl, firewall, wireguard,
  error_unless, send_batch, ifname_or_empty, apply_filters, apply_forwarding, apply_routing,
  apply_leases, apply,
}
use rout.Netconfig.Filtering.{
  Outcome-cases, not_crashed, notify-links, apply_filters-sysctls, apply_filters-firewall,
}
use rout.Netconfig.Sysctls.{
  written, write_sysctls-written, ip_forward, ip6_forwarding, Forwards, written-Forwards,
}

errors_of : Result → List Stage
errors_of (errors errs) = errs
errors_of crashed = []

no_errors :
    (before : List Stage) (a b : Bool)
    → before ++ (error_unless a firewall ++ error_unless b wireguard) ≡ []
    → (before ≡ []) × (a ≡ true) × (b ≡ true)
no_errors [] true true e = (refl, refl, refl)
no_errors [] true false e = cc
no_errors [] false b e = cc
no_errors (s ∷ before) a b e = cc

no_error : (a : Bool) (s : Stage) → error_unless a s ≡ [] → a ≡ true
no_error true s e = refl
no_error false s e = cc

one_error : (s : Stage) → errors (s ∷ []) ≡ errors [] → ⊥
one_error s e = cc

snoc_nonempty : (before : List Stage) (s : Stage) → before ++ (s ∷ []) ≡ [] → ⊥
snoc_nonempty [] s e = cc
snoc_nonempty (x ∷ before) s e = cc

module _ (lib : NetLibrary) (wg : WireguardLibrary) (default_obj : CounterObj) (fails : Op → Bool)
    (files : Files) (reads : Reads) where
  -- The firewall has the batch for `ifname`, and then WireGuard was configured without an error.
  abbrev pub Filtered : Bytes → World → Type 0
  Filtered ifname w' =
      (rules : List (List Expr)) × (forwardings lib.parse_ip ifname files.portforwardings
        ≡ some rules)
      × (w'.firewall ≡ batch ifname default_obj reads.kernel rules)
      × (w : World) × (apply_wireguard wg fails reads.wg_handle_fails reads.client_fails
            files.wireguard w
          ≡ (w', true))

  sent_ok :
      (ifname : Bytes) (w : World)
      → (send_batch
          (apply_firewall lib.parse_ip default_obj files.portforwardings ifname reads.kernel)
          w).1
        ≡ true
      → (rules : List (List Expr)) × (forwardings lib.parse_ip ifname files.portforwardings
          ≡ some rules)
        × (reads.kernel.flush_fails ≡ false)
  unfolding apply_firewall send_batch
  sent_ok ifname w e = elim (Option-cases (forwardings lib.parse_ip ifname files.portforwardings)) [
    | inl bad ↦ cc (rw (bad, apply_firewall, send_batch) at e)
    | inr (rules, made) ↦ elim (Bool-cases reads.kernel.flush_fails) [
      | inl bad ↦ cc (rw (made, bad, apply_firewall, send_batch) at e)
      | inr fine ↦ (rules, made, fine)
    ]
  ]

  apply_filters-nil :
      (ifname : Bytes) (before : List Stage) (w w' : World)
      → apply_filters lib wg default_obj fails files reads ifname before w ≡ (w', errors [])
      → (before ≡ []) × (w'.sysctls ≡ w.sysctls) × Filtered ifname w'
  unfolding apply_filters errors_of
  apply_filters-nil ifname before w w' e =
      let sent =
        apply_firewall lib.parse_ip default_obj files.portforwardings ifname reads.kernel in
      let w1 = (send_batch sent w).0 in
      let tunnels =
        apply_wireguard wg fails reads.wg_handle_fails reads.client_fails files.wireguard in
      let same : (tunnels w1).0 ≡ w' = ap (λ (r : World × Result). r.0) e in
      let (none_before, ok1, ok2) =
        no_errors before (send_batch sent w).1 (tunnels w1).1
          (ap (λ (r : World × Result). errors_of r.1) e) in
      let (rules, made, flushes) = sent_ok ifname w ok1 in
      (
        none_before,
        ap (λ (x : World). x.sysctls) (sym same)
            ∙ apply_filters-sysctls lib wg default_obj fails files reads ifname before w,
        (
          rules,
          made,
          ap (λ (x : World). x.firewall) (sym same)
              ∙ apply_filters-firewall lib wg default_obj fails files reads ifname rules made
                  flushes before w,
          w1,
          ap (λ (x : World). (x, (tunnels w1).1)) same ∙ ap (λ (ok : Bool). (w', ok)) ok2,
        ),
      )

  apply_forwarding-nil :
      (ifname : Bytes) (before : List Stage) (w w' : World)
      → apply_forwarding lib wg default_obj fails files reads ifname before w ≡ (w', errors [])
      → (before ≡ [])
        × Filtered ifname w'
        × ((path : Bytes)
            → lookup Bytes-discrete path w'.sysctls
              ≡ written (sysctls_for ifname) path (lookup Bytes-discrete path w.sysctls))
  unfolding apply_forwarding apply_sysctl
  apply_forwarding-nil ifname before w w' e =
      let (w1, outcome) = write_sysctls fails (sysctls_for ifname) w in
      elim (Outcome-cases (write_sysctls fails (sysctls_for ifname) w).1) [
        | inl fine ↦
            let (none_before, kept, filtered) =
              apply_filters-nil ifname before w1 w'
                (rw (fine, apply_forwarding, apply_sysctl) at e) in
            (
              none_before,
              filtered,
              λ path.
                  ap (lookup Bytes-discrete path) kept
                  ∙ write_sysctls-written fails (sysctls_for ifname) w w1 path
                      (ap (λ (o : Outcome). (w1, o)) fine),
            )
        | inr (inl bad) ↦
            let (none_before, kept, filtered) =
              apply_filters-nil ifname (before ++ (sysctl ∷ [])) w1 w'
                (rw (bad, apply_forwarding, apply_sysctl) at e) in
            absurd (snoc_nonempty before sysctl none_before)
        | inr (inr panic) ↦ absurd (
            not_crashed []
              (ap (λ (r : World × Result). r.1) (rw (panic, apply_forwarding, apply_sysctl) at e)))
      ]

  apply_routing-nil :
      (before : List Stage) (w w' : World)
      → apply_routing lib wg default_obj fails files reads before w ≡ (w', errors [])
      → (before ≡ [])
        × Filtered (ifname_or_empty (uplink_interface w.links)) w'
        × Forwards w'.sysctls
  unfolding apply_routing
  apply_routing-nil before w w' e =
      let w1 = notify fails processes w in
      let (none_before, filtered, law) =
        apply_forwarding-nil (ifname_or_empty (uplink_interface w1.links)) before w1 w' e in
      let same = notify-links fails processes w in
      (
        none_before,
        subst (λ (ls : List Link). Filtered (ifname_or_empty (uplink_interface ls)) w') same
            filtered,
        (
          law ip_forward
              ∙ (written-Forwards w1.links (lookup Bytes-discrete ip_forward w1.sysctls)).0,
          law ip6_forwarding
              ∙ (written-Forwards w1.links (lookup Bytes-discrete ip6_forwarding w1.sysctls)).1,
        ),
      )

  -- If `Apply` returns no error then every part has succeeded, one behind the other: the interfaces, the
  -- two leases, the firewall with the batch of all forwardings for the uplink, and WireGuard; and the
  -- kernel forwards IPv4 and IPv6.
  pub apply-nil :
      (w w' : World)
      → apply lib wg default_obj fails files reads w ≡ (w', errors [])
      → (w1 : World) × (apply_interfaces lib fails reads.list_fails files.interfaces w ≡ (w1, true))
        × (w2 : World) × (apply_dhcp4 lib fails reads.handle_fails reads.addr_list_fails
              files.dhcp4_lease w1
            ≡ (w2, true))
        × (w3 : World) × (apply_dhcp6 lib fails files.dhcp6_lease w2 ≡ (w3, succeeded))
        × Filtered (ifname_or_empty (uplink_interface w3.links)) w'
        × Forwards w'.sysctls
  unfolding apply apply_leases
  apply-nil w w' e =
      let w1 = (apply_interfaces lib fails reads.list_fails files.interfaces w).0 in
      elim (Bool-cases (apply_interfaces lib fails reads.list_fails files.interfaces w).1) [
        | inr down ↦
            absurd (one_error interfaces (ap (λ (r : World × Result). r.1) (rw (down, apply) at e)))
        | inl up ↦
            let e1 : apply_leases lib wg default_obj fails files reads w1 ≡ (w', errors []) =
              rw (up, apply) at e in
            let stage4 =
              apply_dhcp4 lib fails reads.handle_fails reads.addr_list_fails files.dhcp4_lease in
            let w2 = (stage4 w1).0 in
            let w3 = (apply_dhcp6 lib fails files.dhcp6_lease w2).0 in
            elim (Outcome-cases (apply_dhcp6 lib fails files.dhcp6_lease w2).1) [
              | inl fine ↦
                  let (none_before, filtered, forwards) =
                    apply_routing-nil (error_unless (stage4 w1).1 dhcp4) w3 w'
                      (rw (fine, apply_leases) at e1) in
                  (
                    w1,
                    ap (λ (ok : Bool). (w1, ok)) up,
                    w2,
                    ap (λ (ok : Bool). (w2, ok)) (no_error (stage4 w1).1 dhcp4 none_before),
                    w3,
                    ap (λ (o : Outcome). (w3, o)) fine,
                    filtered,
                    forwards,
                  )
              | inr (inl bad) ↦
                  let (none_before, filtered, forwards) =
                    apply_routing-nil (error_unless (stage4 w1).1 dhcp4 ++ (dhcp6 ∷ [])) w3 w'
                      (rw (bad, apply_leases) at e1) in
                  absurd (snoc_nonempty (error_unless (stage4 w1).1 dhcp4) dhcp6 none_before)
              | inr (inr panic) ↦ absurd (
                  not_crashed []
                    (ap (λ (r : World × Result). r.1) (rw (panic, apply_leases) at e1)))
            ]
      ]
