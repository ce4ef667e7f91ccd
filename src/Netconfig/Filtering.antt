-- ===== src/Netconfig/Filtering.antt =====
-- netconfig/netconfig.go: `Apply` puts the firewall in place whatever else fails.
use rout.Base.{
  ◌≡◌, ◌∙◌, refl, sym, ap, inl, inr, ◌⊎◌, not, Bool, true, false, List, [], ◌∷◌, ◌++◌, Option, some,
  Bytes, text, arith,
}
use rout.Netconfig.Forward.{Expr}
use rout.Netconfig.Firewall.{CounterObj, forwardings, batch, apply_firewall, Command}
use rout.Netconfig.Links.{Link, World, Op, signal, perform, call}
use rout.Netconfig.Interfaces.{NetLibrary, apply_interfaces}
use rout.Netconfig.Lease.{Outcome, succeeded, failed, panicked, apply_dhcp4, apply_dhcp6}
use rout.Netconfig.WireGuard.{WireguardLibrary, apply_wireguard}
use rout.Netconfig.Apply.{
  uplink_interface, processes, apply_sysctl, notify, Files, Reads, Stage, Result, errors, crashed,
  dhcp4, dhcp6, sysctl, error_unless, send_batch, ifname_or_empty, apply_filters, apply_forwarding,
  apply_routing, apply_leases, apply,
}
use rout.Netconfig.Quiet.{apply_wireguard-Quiet, Quiet-run, send_batch-sysctls}

pub Outcome-cases : (o : Outcome) → (o ≡ succeeded) ⊎ (o ≡ failed) ⊎ (o ≡ panicked)
Outcome-cases succeeded = inl refl
Outcome-cases failed = inr (inl refl)
Outcome-cases panicked = inr (inr refl)

pub not_crashed : (errs : List Stage) → crashed ≡ errors errs → ⊥
not_crashed errs e = cc

pub notify-links :
    (fails : Op → Bool) (ps : List Bytes) (w : World) → (notify fails ps w).links ≡ w.links
unfolding notify call perform
notify-links fails [] w = refl
notify-links fails (p ∷ ps) w =
    notify-links fails ps (call fails (signal (text "/user/" ++ p)) w).0 ∙ ground arith

module _ (lib : NetLibrary) (wg : WireguardLibrary) (default_obj : CounterObj) (fails : Op → Bool)
    (files : Files) (reads : Reads) where
  pub apply_filters-sysctls :
      (ifname : Bytes) (before : List Stage) (w : World)
      → (apply_filters lib wg default_obj fails files reads ifname before w).0.sysctls ≡ w.sysctls
  unfolding apply_filters
  apply_filters-sysctls ifname before w =
      let sent =
        apply_firewall lib.parse_ip default_obj files.portforwardings ifname reads.kernel in
      let quiet =
        apply_wireguard-Quiet wg fails reads.wg_handle_fails reads.client_fails files.wireguard in
      (Quiet-run (apply_wireguard wg fails reads.wg_handle_fails reads.client_fails files.wireguard)
        quiet (send_batch sent w).0).0
      ∙ send_batch-sysctls sent w

  -- The state behind the two leases.
  abbrev pub leased : World → World
  leased w =
      (apply_dhcp6 lib fails files.dhcp6_lease
        (apply_dhcp4 lib fails reads.handle_fails reads.addr_list_fails files.dhcp4_lease w).0).0

  module _ (ifname : Bytes) (rules : List (List Expr))
      (made : forwardings lib.parse_ip ifname files.portforwardings ≡ some rules)
      (flushes : reads.kernel.flush_fails ≡ false) where
    apply_firewall-batch :
        apply_firewall lib.parse_ip default_obj files.portforwardings ifname reads.kernel
        ≡ (some (batch ifname default_obj reads.kernel rules), true)
    unfolding apply_firewall
    apply_firewall-batch =
        rw (made, apply_firewall)
          (ap (λ (b : Bool). (some (batch ifname default_obj reads.kernel rules), not b)) flushes)

    pub apply_filters-firewall :
        (before : List Stage) (w : World)
        → (apply_filters lib wg default_obj fails files reads ifname before w).0.firewall
          ≡ batch ifname default_obj reads.kernel rules
    unfolding apply_filters send_batch perform
    apply_filters-firewall before w =
        let sent =
          apply_firewall lib.parse_ip default_obj files.portforwardings ifname reads.kernel in
        let quiet =
          apply_wireguard-Quiet wg fails reads.wg_handle_fails reads.client_fails files.wireguard in
        (Quiet-run
          (apply_wireguard wg fails reads.wg_handle_fails reads.client_fails files.wireguard) quiet
          (send_batch sent w).0).1
        ∙ ap (λ (r : Option (List Command) × Bool). (send_batch r w).0.firewall)
            apply_firewall-batch

    apply_forwarding-firewall :
        (before : List Stage) (w w' : World) (errs : List Stage)
        → apply_forwarding lib wg default_obj fails files reads ifname before w ≡ (w', errors errs)
        → w'.firewall ≡ batch ifname default_obj reads.kernel rules
    unfolding apply_forwarding
    apply_forwarding-firewall before w w' errs e =
        let w1 = (apply_sysctl fails ifname w).0 in
        elim (Outcome-cases (apply_sysctl fails ifname w).1) [
          | inl fine ↦
              ap (λ (r : World × Result). r.0.firewall) (sym (rw (fine, apply_forwarding) at e))
              ∙ apply_filters-firewall before w1
          | inr (inl bad) ↦
              ap (λ (r : World × Result). r.0.firewall) (sym (rw (bad, apply_forwarding) at e))
              ∙ apply_filters-firewall (before ++ (sysctl ∷ [])) w1
          | inr (inr panic) ↦ absurd (
              not_crashed errs
                (ap (λ (r : World × Result). r.1) (rw (panic, apply_forwarding) at e)))
        ]

    apply_routing-firewall :
        (before : List Stage) (w w' : World) (errs : List Stage)
        → ifname ≡ ifname_or_empty (uplink_interface w.links)
        → apply_routing lib wg default_obj fails files reads before w ≡ (w', errors errs)
        → w'.firewall ≡ batch ifname default_obj reads.kernel rules
    unfolding apply_routing
    apply_routing-firewall before w w' errs is e =
        let w1 = notify fails processes w in
        let same : ifname_or_empty (uplink_interface w1.links) ≡ ifname =
          ap (λ (ls : List Link). ifname_or_empty (uplink_interface ls))
            (notify-links fails processes w)
          ∙ sym is in
        apply_forwarding-firewall before w1 w' errs (
          ap
            (λ (name : Bytes). apply_forwarding lib wg default_obj fails files reads name before w1)
            (sym same)
          ∙ e)

    -- If `applyInterfaces` succeeds and no step panics, the forwardings can be read and the batch can be
    -- sent, then `Apply` leaves the firewall's whole batch for the uplink in place, whichever of the
    -- other parts return an error; the uplink is the first of its three names that is a link behind the
    -- leases.
    pub apply-firewall :
        (w w1 w' : World) (errs : List Stage)
        → apply_interfaces lib fails reads.list_fails files.interfaces w ≡ (w1, true)
        → ifname ≡ ifname_or_empty (uplink_interface (leased w1).links)
        → apply lib wg default_obj fails files reads w ≡ (w', errors errs)
        → w'.firewall ≡ batch ifname default_obj reads.kernel rules
    unfolding apply apply_leases
    apply-firewall w w1 w' errs up is e =
        let ok1 =
          (apply_dhcp4 lib fails reads.handle_fails reads.addr_list_fails files.dhcp4_lease w1).1 in
        let e1 : apply_leases lib wg default_obj fails files reads w1 ≡ (w', errors errs) =
          rw (up, apply) at e in
        let w2 =
          (apply_dhcp4 lib fails reads.handle_fails reads.addr_list_fails files.dhcp4_lease w1).0 in
        elim (Outcome-cases (apply_dhcp6 lib fails files.dhcp6_lease w2).1) [
          | inl fine ↦
              apply_routing-firewall (error_unless ok1 dhcp4) (leased w1) w' errs is
                (rw (fine, apply_leases) at e1)
          | inr (inl bad) ↦
              apply_routing-firewall (error_unless ok1 dhcp4 ++ (dhcp6 ∷ [])) (leased w1) w' errs is
                (rw (bad, apply_leases) at e1)
          | inr (inr panic) ↦
              absurd (
                not_crashed errs
                  (ap (λ (r : World × Result). r.1) (rw (panic, apply_leases) at e1)))
        ]
