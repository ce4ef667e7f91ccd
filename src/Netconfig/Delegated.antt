-- ===== src/Netconfig/Delegated.antt =====
-- What `applyDhcp6` makes of lan0.
use rout.Base.{
  ℕ, ◌≤◌, ◌<◌, ltb, ◌⊎◌, subst, ◌≡◌, refl, ap, inl, inr, Bool, Bool-cases, Option-cases, true, ◌||◌,
  List, [], ◌∷◌, ◌++◌, some, Bytes, text, arith,
}
use rout.Netmask.{IpNet, mask_size, cidr_mask}
use rout.Netconfig.Firewall.{contents}
use rout.Netconfig.Links.{
  Link, World, Op, addr_replace, contains, put_addr, add_addr, perform, call,
}
use rout.Netconfig.Bridges.{link_by_name}
use rout.Netconfig.Interfaces.{NetLibrary}
use rout.Netconfig.Lease.{
  succeeded, first_address, narrow_mask, lan_prefix, add_prefixes, apply_dhcp6,
}
use rout.Netconfig.Addrs.{contains-put_addr}
use rout.Netconfig.Moves.{Unlike, Moves, Moves-call}

abbrev add_all : List Bytes → List Bytes → List Bytes
add_all [] addrs = addrs
add_all (x ∷ xs) addrs = add_all xs (put_addr x addrs)

-- `q` is the router's address in `p`: its last byte is 1, and its mask that of the first /64, unless `p`
-- is no larger than that.
abbrev pub RouterAddr : IpNet → IpNet → Type 0
RouterAddr p q =
    ((front : Bytes) × (last : ℕ) × (p.ip ≡ front ++ (last ∷ [])) × (q.ip ≡ front ++ (1 ∷ [])))
    × (((64 ≤ (mask_size p.mask).0) × (q.mask ≡ p.mask))
        ⊎ (((mask_size p.mask).0 < 64) × (q.mask ≡ cidr_mask 64 (mask_size p.mask).1)))

first_address-last :
    (ip ip' : Bytes)
    → first_address ip ≡ some ip'
    → (front : Bytes) × (last : ℕ) × (ip ≡ front ++ (last ∷ [])) × (ip' ≡ front ++ (1 ∷ []))
unfolding first_address
first_address-last [] ip' e = absurd (ground arith)
first_address-last (b ∷ []) ip' e = ([], b, refl, ground arith)
first_address-last (b ∷ c ∷ rest) ip' e = elim (Option-cases (first_address (c ∷ rest))) [
  | inl bad ↦ absurd (ground arith)
  | inr (tail, read) ↦
      let (front, last, was, is) = first_address-last (c ∷ rest) tail read in
      let made : ip' ≡ b ∷ tail = ground arith in
      (b ∷ front, last, ap (λ (x : Bytes). b ∷ x) was, rw (made, is) refl)
]

lan_prefix-RouterAddr : (p q : IpNet) → lan_prefix p ≡ some q → RouterAddr p q
unfolding lan_prefix narrow_mask
lan_prefix-RouterAddr p q e = elim (Option-cases (first_address p.ip)) [
  | inl bad ↦ absurd (ground arith)
  | inr (ip, read) ↦
      let made : record { ip = ip; mask = narrow_mask p.mask } ≡ q = ground arith in
      let address = first_address-last p.ip ip read in
      subst (λ (x : IpNet). RouterAddr p x) made
        (
          address,
          elim (Bool-cases (ltb (mask_size p.mask).0 64)) [
            | inl large ↦ inr (ground arith, rw (large, narrow_mask) refl)
            | inr small ↦ inl (ground arith, rw (small, narrow_mask) refl)
          ],
        )
]

module _ (lib : NetLibrary) (fails : Op → Bool) where
  contains-add_all :
      (xs addrs : List Bytes) (a : Bytes)
      → contains (add_all xs addrs) a ≡ (contains addrs a || contains xs a)
  unfolding contains
  contains-add_all [] addrs a = ground arith
  contains-add_all (x ∷ xs) addrs a =
      ground (arith, contains-add_all xs (put_addr x addrs) a, contains-put_addr x addrs a)

  -- The router's addresses in the prefixes, as the library reads them.
  abbrev pub Given : List IpNet → List Bytes → Type 0
  Given [] [] = Unit
  Given [] (x ∷ xs) = ⊥
  Given (p ∷ ps) [] = ⊥
  Given (p ∷ ps) (x ∷ xs) =
      ((q : IpNet) × RouterAddr p q × (lib.parse_addr (lib.ipnet_string q) ≡ some x)) × Given ps xs

  add_prefixes-Given :
      (prefixes : List IpNet) (w w' : World) (done : List Link) (l : Link) (rest : List Link)
      → w.links ≡ done ++ (l ∷ rest)
      → Unlike l.index done
      → add_prefixes lib fails l.index prefixes w ≡ (w', succeeded)
      → (xs : List Bytes) × Given prefixes xs
        × (w'.links ≡ done ++ (record l { addrs = add_all xs l.addrs } ∷ rest))
  unfolding add_prefixes perform
  add_prefixes-Given [] w w' done l rest at no_other e =
      ([], tt, rw (← let same : w ≡ w' = ground arith in same) at)
  add_prefixes-Given (p ∷ ps) w w' done l rest at no_other e = elim (Option-cases (lan_prefix p)) [
    | inl bad ↦ absurd (ground arith)
    | inr (q, narrowed) ↦ elim (Option-cases (lib.parse_addr (lib.ipnet_string q))) [
      | inl bad ↦ absurd (ground arith)
      | inr (x, read) ↦ elim (Bool-cases (call fails (addr_replace l.index x) w).1) [
        | inr bad ↦ absurd (ground arith)
        | inl fine ↦
            let w1 = (call fails (addr_replace l.index x) w).0 in
            let step : call fails (addr_replace l.index x) w ≡ (w1, true) =
              ap (λ (ok : Bool). (w1, ok)) fine in
            let l1 = add_addr x l in
            let at1 : w1.links ≡ done ++ (l1 ∷ rest) =
              unfold Moves in
              Moves-call fails (addr_replace l.index x) l.index (add_addr x) done l rest (λ w. refl)
                no_other refl w w1 at step in
            let (xs, given, stands) =
              add_prefixes-Given ps w1 w' done l1 rest at1 no_other
                (rw (narrowed, read, fine, add_prefixes) at e) in
            (x ∷ xs, ((q, lan_prefix-RouterAddr p q narrowed, read), given), stands)
      ]
    ]
  ]

  -- If `applyDhcp6` succeeds on prefixes that it can read, and no link in front of lan0 has its index,
  -- then lan0 has its old addresses and one for every prefix, and no others: the prefix's bytes with 1
  -- for the last one, under the mask of a /64 where the prefix is larger than that and under its own
  -- mask otherwise; all else of the links is as before.
  pub apply_dhcp6-Given :
      (prefixes : List IpNet) (w w' : World) (done : List Link) (l : Link) (rest : List Link)
      → w.links ≡ done ++ (l ∷ rest)
      → link_by_name (text "lan0") w.links ≡ some l
      → Unlike l.index done
      → apply_dhcp6 lib fails (contents prefixes) w ≡ (w', succeeded)
      → (xs : List Bytes) × (addrs : List Bytes) × Given prefixes xs
        × (w'.links ≡ done ++ (record l { addrs = addrs } ∷ rest))
        × ((a : Bytes) → contains addrs a ≡ (contains l.addrs a || contains xs a))
  unfolding apply_dhcp6
  apply_dhcp6-Given prefixes w w' done l rest at named no_other e =
      let (xs, given, stands) =
        add_prefixes-Given prefixes w w' done l rest at no_other (rw (named, apply_dhcp6) at e) in
      (xs, add_all xs l.addrs, given, stands, contains-add_all xs l.addrs)
