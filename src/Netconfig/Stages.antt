-- ===== src/Netconfig/Stages.antt =====
-- What `applyInterfaces` does to one link.
use rout.Base.{
  ◌≡◌, inl, inr, ◌∙◌, refl, ap, subst, if◌then◌else◌, Bool, Bool-cases, Option-cases, true, List,
  [], ◌∷◌, ◌++◌, none, some, Bytes, is_empty, text, arith,
}
use rout.Net.{bytes_eq, mac_string}
use rout.Netconfig.Links.{
  Link, World, Op, set_name, set_hardware_addr, set_up, addr_replace, write_resolv_conf, perform,
  put_addr, add_addr, skip, ◌>>◌, call,
}
use rout.Netconfig.Interfaces.{
  InterfaceDetails, NetLibrary, rename, spoof, bring_up, point_resolver, set_addr, configure_link,
}
use rout.Netconfig.Moves.{Unlike, Moves, Moves-seq, Moves-skip, Moves-give_up, Moves-call}

Moves-same :
    (done : List Link) (l l' : Link) (rest : List Link) → l ≡ l' → Moves skip done l l' rest
Moves-same done l l' rest e =
    subst (λ (x : Link). Moves skip done l x rest) e (Moves-skip done l rest)

module _ (lib : NetLibrary) where
  -- The hardware address and the addresses that the details ask for.
  abbrev pub wanted_hardware_addr : InterfaceDetails → Bytes → Bytes
  wanted_hardware_addr d old =
      if is_empty d.spoof_hardware_addr
      then old
      else elim (lib.parse_mac d.spoof_hardware_addr) [ none ↦ old | some a ↦ mac_string a ]

  abbrev pub wanted_addrs : InterfaceDetails → List Bytes → List Bytes
  wanted_addrs d old =
      if is_empty d.addr
      then old
      else elim (lib.parse_addr d.addr) [ none ↦ old | some a ↦ put_addr a old ]

  -- A link as its details describe it.
  abbrev pub configured : InterfaceDetails → Link → Link
  configured d l = record l {
    name = d.name;
    hardware_addr = wanted_hardware_addr d l.hardware_addr;
    up = true;
    addrs = wanted_addrs d l.addrs;
  }

  module _ (fails : Op → Bool) (done rest : List Link) (d : InterfaceDetails) where
    rename-Moves :
        (l : Link)
        → Unlike l.index done
        → Moves (rename lib fails l d) done l (record l { name = d.name }) rest
    unfolding rename perform
    rename-Moves l no_other = elim (Bool-cases (bytes_eq l.name d.name)) [
      | inl same ↦
          let e : l.name ≡ d.name = ground arith in
          rw same (Moves-same done l _ rest (ap (λ (n : Bytes). record l { name = n }) e))
      | inr other ↦ rw other (
          Moves-call fails (set_name l.index d.name) l.index (λ x. record x { name = d.name }) done
            l rest (λ w. refl) no_other refl)
    ]

    spoof-Moves :
        (l l1 : Link)
        → Unlike l.index done
        → l1.index ≡ l.index
        → Moves
            (spoof lib fails l d)
            done
            l1
            (record l1 { hardware_addr = wanted_hardware_addr d l1.hardware_addr })
            rest
    unfolding spoof perform
    spoof-Moves l l1 no_other is = elim (Bool-cases (is_empty d.spoof_hardware_addr)) [
      | inl none_asked ↦ rw none_asked (Moves-skip done l1 rest)
      | inr asked ↦ elim (Option-cases (lib.parse_mac d.spoof_hardware_addr)) [
        | inl bad ↦ rw (asked, bad) (Moves-give_up done l1 _ rest)
        | inr (a, read) ↦
            rw (asked, read)
              (Moves-call fails (set_hardware_addr l.index (mac_string a)) l.index
                (λ x. record x { hardware_addr = mac_string a }) done l1 rest (λ w. refl) no_other
                is)
      ]
    ]

    bring_up-Moves :
        (l l1 : Link)
        → Unlike l.index done
        → l1.index ≡ l.index
        → l1.up ≡ l.up
        → Moves (bring_up lib fails l) done l1 (record l1 { up = true }) rest
    unfolding bring_up perform
    bring_up-Moves l l1 no_other is as_before = elim (Bool-cases l.up) [
      | inl was_up ↦
          rw was_up (
            Moves-same done l1 _ rest
              (ap (λ (u : Bool). record l1 { up = u }) (as_before ∙ was_up)))
      | inr down ↦ rw down (
          Moves-call fails (set_up l.index) l.index (λ x. record x { up = true }) done l1 rest
            (λ w. refl) no_other is)
    ]

    point_resolver-Moves :
        (a : Bytes) (l : Link) → Moves (point_resolver lib fails d a) done l l rest
    unfolding point_resolver Moves call perform
    point_resolver-Moves a l w w' at e = elim (Bool-cases (bytes_eq d.name (text "lan0"))) [
      | inr other ↦ rw (← (let same : w ≡ w' = ground arith in same)) at
      | inl lan0 ↦
          elim (Bool-cases
            (fails (write_resolv_conf (text "nameserver " ++ lib.addr_ip a ++ (10 ∷ []))))) [
              | inl bad ↦ absurd (ground arith)
              | inr fine ↦
                  let b = text "nameserver " ++ lib.addr_ip a ++ (10 ∷ []) in
                  let same : record w { resolv_conf = some b } ≡ w' = ground arith in
                  subst (λ (x : World). x.links ≡ done ++ (l ∷ rest)) same at
            ]
    ]

    set_addr-Moves :
        (l l1 : Link)
        → Unlike l.index done
        → l1.index ≡ l.index
        → Moves
            (set_addr lib fails l d)
            done
            l1
            (record l1 { addrs = wanted_addrs d l1.addrs })
            rest
    unfolding set_addr perform
    set_addr-Moves l l1 no_other is = elim (Bool-cases (is_empty d.addr)) [
      | inl none_asked ↦ rw none_asked (Moves-skip done l1 rest)
      | inr asked ↦ elim (Option-cases (lib.parse_addr d.addr)) [
        | inl bad ↦ rw (asked, bad) (Moves-give_up done l1 _ rest)
        | inr (a, read) ↦
            rw (asked, read)
              (Moves-seq (call fails (addr_replace l.index a)) (point_resolver lib fails d a) done
                l1 (add_addr a l1) (add_addr a l1) rest
                (Moves-call fails (addr_replace l.index a) l.index (add_addr a) done l1 rest
                  (λ w. refl) no_other is)
                (point_resolver-Moves a (add_addr a l1)))
      ]
    ]

    pub configure_link-Moves :
        (l : Link)
        → Unlike l.index done
        → Moves (configure_link lib fails l d) done l (configured d l) rest
    unfolding configure_link
    configure_link-Moves l no_other =
        let l1 = record l { name = d.name } in
        let l2 = record l1 { hardware_addr = wanted_hardware_addr d l.hardware_addr } in
        let l3 = record l2 { up = true } in
        Moves-seq (rename lib fails l d >> spoof lib fails l d >> bring_up lib fails l)
          (set_addr lib fails l d) done l l3 (configured d l) rest
          (Moves-seq (rename lib fails l d >> spoof lib fails l d) (bring_up lib fails l) done l l2
            l3 rest
            (Moves-seq (rename lib fails l d) (spoof lib fails l d) done l l1 l2 rest
              (rename-Moves l no_other) (spoof-Moves l l1 no_other refl))
            (bring_up-Moves l l2 no_other refl refl))
          (set_addr-Moves l l3 no_other refl)
