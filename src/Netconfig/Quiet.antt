-- ===== src/Netconfig/Quiet.antt =====
-- The parts of `Apply` that write neither under /proc/sys nor to the firewall.
use rout.Base.{
  ◌≡◌, ◌∙◌, refl, inl, inr, Bool, Bool-cases, Option-cases, true, false, ◌||◌, List, [], ◌∷◌,
  Option, none, some, Bytes, arith,
}
use rout.Netconfig.Firewall.{File, missing, unreadable, malformed, contents, Command}
use rout.Netconfig.Links.{World, Op, perform, Action, ◌>>◌, call}
use rout.Netconfig.WireGuard.{
  WireguardInterface, WireguardLibrary, read_device, add_device, configure_interface,
  configure_interfaces, apply_wireguard,
}
use rout.Netconfig.Apply.{send_batch}

-- An action that writes neither under /proc/sys nor to the firewall, however it ends.
pub Quiet : Action → Type 0
Quiet a = (w : World) → ((a w).0.sysctls ≡ w.sysctls) × ((a w).0.firewall ≡ w.firewall)

Quiet-seq : (a b : Action) → Quiet a → Quiet b → Quiet (a >> b)
unfolding Quiet ◌>>◌
Quiet-seq a b first second w = elim (Bool-cases (a w).1) [
  | inl fine ↦ rw fine ((second (a w).0).0 ∙ (first w).0, (second (a w).0).1 ∙ (first w).1)
  | inr bad ↦ rw bad (first w)
]

module _ (lib : WireguardLibrary) (fails : Op → Bool) where
  add_device-Quiet : (name : Bytes) → Quiet (add_device lib fails name)
  unfolding Quiet add_device call perform
  add_device-Quiet name w = (ground arith, ground arith)

  configure_interface-Quiet :
      (iface : WireguardInterface) → Quiet (configure_interface lib fails iface)
  unfolding Quiet configure_interface call perform
  configure_interface-Quiet iface w = elim (Option-cases (read_device lib iface)) [
    | inl bad ↦ (ground arith, ground arith)
    | inr (c, read) ↦ (ground arith, ground arith)
  ]

  configure_interfaces-Quiet :
      (ifaces : List WireguardInterface) → Quiet (configure_interfaces lib fails ifaces)
  unfolding configure_interfaces
  configure_interfaces-Quiet [] = unfold Quiet in λ w. (refl, refl)
  configure_interfaces-Quiet (iface ∷ rest) =
      Quiet-seq (add_device lib fails iface.name >> configure_interface lib fails iface)
        (configure_interfaces lib fails rest)
        (Quiet-seq (add_device lib fails iface.name) (configure_interface lib fails iface)
          (add_device-Quiet iface.name) (configure_interface-Quiet iface))
        (configure_interfaces-Quiet rest)

  pub apply_wireguard-Quiet :
      (handle_fails client_fails : Bool) (file : File (List WireguardInterface))
      → Quiet (apply_wireguard lib fails handle_fails client_fails file)
  unfolding apply_wireguard Quiet
  apply_wireguard-Quiet handle_fails client_fails missing w = (refl, refl)
  apply_wireguard-Quiet handle_fails client_fails unreadable w = (refl, refl)
  apply_wireguard-Quiet handle_fails client_fails malformed w = (refl, refl)
  apply_wireguard-Quiet handle_fails client_fails (contents ifaces) w =
      elim (Bool-cases (handle_fails || client_fails)) [
        | inl bad ↦ rw (bad, apply_wireguard) (refl, refl)
        | inr fine ↦ rw (fine, apply_wireguard) (configure_interfaces-Quiet ifaces w)
      ]

pub Quiet-run :
    (a : Action)
    → Quiet a
    → (w : World) → ((a w).0.sysctls ≡ w.sysctls) × ((a w).0.firewall ≡ w.firewall)
unfolding Quiet
Quiet-run a q w = q w

pub send_batch-sysctls :
    (sent : Option (List Command) × Bool) (w : World) → (send_batch sent w).0.sysctls ≡ w.sysctls
unfolding send_batch perform
send_batch-sysctls (none, ok) w = refl
send_batch-sysctls (some commands, true) w = refl
send_batch-sysctls (some commands, false) w = refl
