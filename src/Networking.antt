-- ===== src/Networking.antt =====
-- networking/netinfo.go: the host addresses of the router, private and public.
pub mod Scope
use rout.Base.{
  ◌==◌, ◌≡◌, ◌⊎◌, inl, inr, refl, if◌then◌else◌, Bool, Bool-cases, Option-cases, true, false, not,
  ◌||◌, List, [], ◌∷◌, ◌++◌, Option, none, some, Bytes, text,
}

-- One address of an interface: `none` is an error of `ParseCIDR`.
pub record Interface : Type 0 where
  pub name : Bytes
  pub is_up : Bool
  pub addrs : Option (List (Option Bytes))

-- The tests of `net.IP`, and its text.
pub record IpLibrary : Type 0 where
  pub is_private : Bytes → Bool
  pub is_loopback : Bytes → Bool
  pub is_link_local_unicast : Bytes → Bool
  pub is_multicast : Bytes → Bool
  pub ip_string : Bytes → Bytes

-- `strings.HasPrefix`
unfoldable pub has_prefix : Bytes → Bytes → Bool
has_prefix s [] = true
has_prefix [] (p ∷ ps) = false
has_prefix (c ∷ s) (p ∷ ps) = let rest = has_prefix s ps in if c == p then rest else false

-- The elements of two lists, each in its order, in one list.
pub data Merged : List Bytes → List Bytes → List Bytes → Type 0 where
  merged_nil : Merged [] [] []
  merged_left : {x : Bytes} {xs ys zs : List Bytes} → Merged xs ys zs → Merged (x ∷ xs) ys (x ∷ zs)
  merged_right : {y : Bytes} {xs ys zs : List Bytes} → Merged xs ys zs → Merged xs (y ∷ ys) (y ∷ zs)

Merged-append :
    {xs ys zs xs' ys' zs' : List Bytes}
    → Merged xs ys zs
    → Merged xs' ys' zs'
    → Merged (xs ++ xs') (ys ++ ys') (zs ++ zs')
Merged-append merged_nil m' = m'
Merged-append (merged_left m) m' = merged_left (Merged-append m m')
Merged-append (merged_right m) m' = merged_right (Merged-append m m')

module _ (lib : IpLibrary) where
  unfoldable pub is_private_addr : Bytes → Bytes → Bool
  is_private_addr iface ip =
      if has_prefix iface (text "uplink")
      then false
      else lib.is_private ip
        || lib.is_loopback ip
        || lib.is_link_local_unicast ip
        || lib.is_multicast ip

  unfoldable pub host : Bytes → Bytes → Bytes
  host iface ip =
      if lib.is_link_local_unicast ip
      then lib.ip_string ip ++ text "%" ++ iface
      else lib.ip_string ip

  module _ (keep : Bytes → Bytes → Bool) where
    -- The loop over one interface's addresses.
    unfoldable pub hosts_of : Bytes → List (Option Bytes) → Option (List Bytes)
    hosts_of iface [] = some []
    hosts_of iface (none ∷ rest) = none
    hosts_of iface (some ip ∷ rest) = elim (hosts_of iface rest) [
      | none ↦ none
      | some hosts ↦ some (if not (keep iface ip) then hosts else host iface ip ∷ hosts)
    ]

    -- `interfaceAddrs`, behind `net.Interfaces`.
    unfoldable pub interface_addrs : List Interface → Option (List Bytes)
    interface_addrs [] = some []
    interface_addrs (i ∷ rest) =
        let others = interface_addrs rest in
        if not i.is_up then others else elim i.addrs [
          | none ↦ none
          | some addrs ↦ elim (hosts_of i.name addrs) [
            | none ↦ none
            | some hosts ↦ elim others [ none ↦ none | some more ↦ some (hosts ++ more) ]
          ]
        ]

  unfoldable pub private_interface_addrs : List Interface → Option (List Bytes)
  private_interface_addrs ifaces = interface_addrs is_private_addr ifaces

  unfoldable pub public_interface_addrs : List Interface → Option (List Bytes)
  public_interface_addrs ifaces =
      interface_addrs (λ iface addr. not (is_private_addr iface addr)) ifaces

  -- Both lists fail, or they share out the list of all addresses in its order.
  abbrev pub Splits : Option (List Bytes) → Option (List Bytes) → Option (List Bytes) → Type 0
  Splits a b all =
      ((a ≡ none) × (b ≡ none) × (all ≡ none))
      ⊎ ((xs : List Bytes) × (ys : List Bytes) × (zs : List Bytes) × (a ≡ some xs)
          × (b ≡ some ys)
          × (all ≡ some zs)
          × Merged xs ys zs)

  module _ (keep : Bytes → Bytes → Bool) where
    hosts_of-Splits :
        (iface : Bytes) (addrs : List (Option Bytes))
        → Splits
            (hosts_of keep iface addrs)
            (hosts_of (λ i a. not (keep i a)) iface addrs)
            (hosts_of (λ i a. true) iface addrs)
    unfolding hosts_of
    hosts_of-Splits iface [] = inr ([], [], [], refl, refl, refl, merged_nil)
    hosts_of-Splits iface (none ∷ rest) = inl (refl, refl, refl)
    hosts_of-Splits iface (some ip ∷ rest) = elim (hosts_of-Splits iface rest) [
      | inl (a, b, c) ↦ rw (a, b, c, hosts_of) (inl (refl, refl, refl))
      | inr (xs, ys, zs, a, b, c, m) ↦ elim (Bool-cases (keep iface ip)) [
        | inl kept ↦
            rw (a, b, c, hosts_of, kept)
              (inr (host iface ip ∷ xs, ys, host iface ip ∷ zs, refl, refl, refl, merged_left m))
        | inr dropped ↦
            rw (a, b, c, hosts_of, dropped)
              (inr (xs, host iface ip ∷ ys, host iface ip ∷ zs, refl, refl, refl, merged_right m))
      ]
    ]

    interface_addrs-Splits :
        (ifaces : List Interface)
        → Splits
            (interface_addrs keep ifaces)
            (interface_addrs (λ i a. not (keep i a)) ifaces)
            (interface_addrs (λ i a. true) ifaces)
    unfolding interface_addrs
    interface_addrs-Splits [] = inr ([], [], [], refl, refl, refl, merged_nil)
    interface_addrs-Splits (i ∷ rest) = elim (Bool-cases i.is_up) [
      | inr down ↦ rw (down, interface_addrs) (interface_addrs-Splits rest)
      | inl is_up ↦ elim (Option-cases i.addrs) [
        | inl bad ↦ rw (is_up, bad, interface_addrs) (inl (refl, refl, refl))
        | inr (addrs, read) ↦ elim (hosts_of-Splits i.name addrs) [
          | inl (a, b, c) ↦ rw (is_up, read, a, b, c, interface_addrs) (inl (refl, refl, refl))
          | inr (xs, ys, zs, a, b, c, m) ↦ elim (interface_addrs-Splits rest) [
            | inl (a', b', c') ↦
                rw (is_up, read, a, b, c, a', b', c', interface_addrs) (inl (refl, refl, refl))
            | inr (xs', ys', zs', a', b', c', m') ↦
                rw (is_up, read, a, b, c, a', b', c', interface_addrs)
                  (inr (xs ++ xs', ys ++ ys', zs ++ zs', refl, refl, refl, Merged-append m m'))
          ]
        ]
      ]
    ]

  -- The private and the public addresses are refused together, and then so are all addresses; else the
  -- hosts of the interfaces that are up are shared out over the two lists, each in its order.
  pub addrs-Splits :
      (ifaces : List Interface)
      → Splits
          (private_interface_addrs ifaces)
          (public_interface_addrs ifaces)
          (interface_addrs (λ i a. true) ifaces)
  unfolding private_interface_addrs public_interface_addrs
  addrs-Splits ifaces = interface_addrs-Splits is_private_addr ifaces
