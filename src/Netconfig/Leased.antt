-- ===== src/Netconfig/Leased.antt =====
-- What `applyDhcp4` makes of the uplink.
use rout.Base.{
  sym, ◌∙◌, Bytes-discrete, ℕ, ◌≡◌, refl, inl, inr, Bool, Bool-cases, Option-cases, true, false,
  not, ◌&&◌, ◌||◌, List, [], ◌∷◌, ◌++◌, some, Bytes, is_empty, text, arith,
}
use rout.Net.{bytes_eq}
use rout.Strings.{format_decimal}
use rout.Dhcp4.Client.{Config}
use rout.Netconfig.Firewall.{contents}
use rout.Netconfig.Links.{Link, Route, World, Op, contains, put_route}
use rout.Netconfig.Bridges.{link_by_name}
use rout.Netconfig.Interfaces.{NetLibrary}
use rout.Netconfig.Lease.{
  subnet_mask_size, router_route, default_route, lease_addr, replace_lease, configure_uplink,
  apply_dhcp4,
}
use rout.Netconfig.Reroutes.{Reroutes}
use rout.Netconfig.Moves.{Unlike, Moves}
use rout.Netconfig.Replaced.{
  leased_addrs, contains-leased_addrs, replace_lease-Moves, replace_lease-Reroutes,
}

bytes_eq_refl : (a : Bytes) → bytes_eq a a ≡ true
bytes_eq_refl a = elim (Bytes-discrete a a) [
  | yes _ ↦ ground arith
  | no other ↦ absurd (other refl)
]

bytes_eq_apart : (a b : Bytes) → ¬ (a ≡ b) → bytes_eq a b ≡ false
bytes_eq_apart a b other = elim (Bytes-discrete a b) [
  | yes is ↦ absurd (other is)
  | no _ ↦ ground arith
]

module _ (lib : NetLibrary) (fails : Op → Bool) where
  -- The text of an address of the lease with a mask of the size, such as 10.0.0.2/24.
  abbrev pub addr_text : Config → ℕ → Bytes
  addr_text got size = got.client_ip ++ text "/" ++ format_decimal size

  -- `ParseAddr` reads the lease's address as the address with that text.
  abbrev pub ParsesLease : Config → Type 0
  ParsesLease got =
      (size : ℕ) (addr : Bytes)
      → lib.parse_addr (addr_text got size) ≡ some addr
      → addr ≡ addr_text got size

  -- The host route on the link, without a gateway.
  abbrev pub ToRouter : Config → Link → Route → Type 0
  ToRouter got l r =
      (r.dst ≡ (lib.parse_ip got.router, 32))
      × (r.gw ≡ [])
      × (r.scope_link ≡ true)
      × (r.link_index ≡ l.index)
      × (r.src ≡ lib.parse_ip got.client_ip)
      × (r.protocol ≡ 16)

  -- The route to everywhere by the router.
  abbrev pub ByRouter : Config → Link → Route → Type 0
  ByRouter got l r =
      (r.dst ≡ (lib.parse_ip (text "0.0.0.0"), 0))
      × (r.gw ≡ lib.parse_ip got.router)
      × (r.scope_link ≡ false)
      × (r.link_index ≡ l.index)
      × (r.src ≡ lib.parse_ip got.client_ip)
      × (r.protocol ≡ 16)

  abbrev pub Routed : Config → Link → List Route → List Route → Type 0
  Routed got l before after =
      (r : Route) × (r' : Route) × ToRouter got l r
      × ByRouter got l r'
      × (after ≡ put_route r' (put_route r before))

  -- What a success of `applyDhcp4` means for the uplink `l` between `done` and `rest`.
  abbrev pub Leased : Config → World → World → List Link → Link → List Link → Type 0
  Leased got w w' done l rest =
      (size : ℕ) × (addrs : List Bytes) × (subnet_mask_size got.subnet_mask ≡ some size)
      × (w'.links ≡ done ++ (record l { addrs = addrs } ∷ rest))
      × (contains addrs (addr_text got size) ≡ true)
      × ((a : Bytes)
          → contains addrs a
            ≡ (bytes_eq a (addr_text got size) || (contains l.addrs a && not (lib.is_v4 a))))
      × Routed got l w.routes w'.routes

  contains-lease :
      (t : Bytes) (addr : Bytes) (addrs : List Bytes) (a : Bytes)
      → addr ≡ t
      → contains (leased_addrs lib fails t addr addrs) a
        ≡ (bytes_eq a t || (contains addrs a && not (lib.is_v4 a)))
  contains-lease t addr addrs a same =
      contains-leased_addrs lib fails t addr addrs a ∙ elim (Bytes-discrete a t) [
        | yes is ↦
            rw (same, is)
              (elim (Bool-cases (lib.is_v4 t)) [
                | inl v4 ↦ let self = bytes_eq_refl t in ground arith
                | inr v6 ↦ let self = bytes_eq_refl t in ground arith
              ])
        | no other ↦
            let apart = bytes_eq_apart addr a (λ e. other (sym e ∙ same)) in
            let apart' = bytes_eq_apart a t other in rw (apart, apart') (ground arith)
      ]

  configure_uplink-Leased :
      (handle_fails list_fails : Bool) (got : Config) (w w' : World) (done : List Link) (l : Link)
      (rest : List Link)
      → ParsesLease got
      → w.links ≡ done ++ (l ∷ rest)
      → Unlike l.index done
      → configure_uplink lib fails handle_fails list_fails got l w ≡ (w', true)
      → Leased got w w' done l rest
  unfolding configure_uplink
  configure_uplink-Leased handle_fails list_fails got w w' done l rest parses at no_other e =
      elim (Bool-cases (is_empty got.subnet_mask)) [
        | inl absent ↦ absurd (ground arith)
        | inr present ↦ elim (Option-cases (subnet_mask_size got.subnet_mask)) [
          | inl bad ↦ absurd (ground arith)
          | inr (size, sized) ↦
              elim (Option-cases (lib.parse_addr (lease_addr lib fails got size))) [
                | inl bad ↦ absurd (ground arith)
                | inr (addr, read) ↦ elim (Bool-cases handle_fails) [
                  | inl bad ↦ absurd (ground arith)
                  | inr fine ↦
                      let got_addr = lease_addr lib fails got size in
                      let is : addr ≡ got_addr = parses size addr read in
                      let e' : replace_lease lib fails list_fails got l.index got_addr addr w
                          ≡ (w', true) =
                        rw (present, sized, read, fine) at e in
                      (
                        size,
                        leased_addrs lib fails got_addr addr l.addrs,
                        sized,
                        unfold Moves in
                            replace_lease-Moves lib fails list_fails got got_addr addr done l rest
                              no_other w w' at e',
                        contains-lease got_addr addr l.addrs got_addr is
                            ∙ let self = bytes_eq_refl got_addr in ground arith,
                        λ a. contains-lease got_addr addr l.addrs a is,
                        (
                          router_route lib fails got l.index,
                          default_route lib fails got l.index,
                          (refl, refl, refl, refl, refl, refl),
                          (refl, refl, refl, refl, refl, refl),
                          unfold Reroutes in
                              replace_lease-Reroutes lib fails list_fails got got_addr addr l.index
                                w w' e',
                        ),
                      )
                ]
              ]
        ]
      ]

  -- If `applyDhcp4` succeeds on a lease that it can read, no link in front of the uplink has its index,
  -- and `ParseAddr` reads the lease's address `ip/size` as the address of that text, then the lease's
  -- mask has a size; the uplink has that address, its old addresses that are not of IPv4, and no others;
  -- all else of the links is as before; and a link-scope host route to the lease's router and the
  -- default route by that router, both from the lease's address, have replaced the routes to the same
  -- destinations.
  pub apply_dhcp4-Leased :
      (handle_fails list_fails : Bool) (got : Config) (w w' : World) (done : List Link) (l : Link)
      (rest : List Link)
      → ParsesLease got
      → w.links ≡ done ++ (l ∷ rest)
      → link_by_name (text "uplink0") w.links ≡ some l
      → Unlike l.index done
      → apply_dhcp4 lib fails handle_fails list_fails (contents got) w ≡ (w', true)
      → Leased got w w' done l rest
  unfolding apply_dhcp4
  apply_dhcp4-Leased handle_fails list_fails got w w' done l rest parses at named no_other e =
      configure_uplink-Leased handle_fails list_fails got w w' done l rest parses at no_other
        (rw (named, apply_dhcp4) at e)
