-- ===== src/Listeners/Hosts.antt =====
-- The private addresses of networking/netinfo.go, as the daemons' pools see them.
use rout.Base.{
  ◌≡◌, ◌⊎◌, inl, inr, refl, sym, subst, true, Bool-cases, Option-cases, List, [], ◌∷◌, ◌++◌, Option,
  none, some, Bytes, Bytes-discrete, arith,
}
use rout.Networking.{IpLibrary, Interface, is_private_addr, host, hosts_of, interface_addrs}
use rout.Networking.Scope.{
  IsUplink, IsPrivate, IsHost, is_private_addr-true, is_private_addr-false, host-IsHost,
  IsHost-host,
}
use rout.Multilisten.Hosts.{listed}

-- `x` is one of the elements.
abbrev Among : {A : Type 0} → A → List A → Type 0
Among x [] = ⊥
Among x (y ∷ ys) = (x ≡ y) ⊎ Among x ys

-- `h` is an address of one of the interfaces, which is up and no uplink, and a private one.
pub record PrivateHost (lib : IpLibrary) (ifaces : List Interface) (h : Bytes) : Type 0 where
  pub iface : Interface
  pub addrs : List (Option Bytes)
  pub ip : Bytes
  pub known : Among iface ifaces
  pub is_up : iface.is_up ≡ true
  pub read : iface.addrs ≡ some addrs
  pub has : Among (some ip) addrs
  pub no_uplink : ¬ IsUplink iface.name
  pub is_private : IsPrivate lib ip
  pub same : IsHost lib iface.name ip h

pub listed-append :
    (h : Bytes) (xs ys : List Bytes)
    → listed h (xs ++ ys) ≡ true
    → (listed h xs ≡ true) ⊎ (listed h ys ≡ true)
listed-append h [] ys e = inr e
listed-append h (x ∷ xs) ys e = elim (Bytes-discrete x h) [
  | yes same ↦ inl (ground arith)
  | no other ↦ elim (listed-append h xs ys (ground arith)) [
    | inl first ↦ inl (ground arith)
    | inr second ↦ inr second
  ]
]

listed-cons :
    (h x : Bytes) (xs : List Bytes) → listed h (x ∷ xs) ≡ true → (h ≡ x) ⊎ (listed h xs ≡ true)
listed-cons h x xs e = elim (Bytes-discrete x h) [
  | yes same ↦ inl (sym same)
  | no other ↦ inr (ground arith)
]

module _ (lib : IpLibrary) where
  abbrev PrivateAddr : Interface → List (Option Bytes) → Bytes → Type 0
  PrivateAddr i addrs h =
      (ip : Bytes) × Among (some ip) addrs
      × (¬ IsUplink i.name)
      × IsPrivate lib ip
      × IsHost lib i.name ip h

  hosts_of-PrivateAddr :
      (i : Interface) (addrs : List (Option Bytes)) (hosts : List Bytes) (h : Bytes)
      → hosts_of lib (is_private_addr lib) i.name addrs ≡ some hosts
      → listed h hosts ≡ true
      → PrivateAddr i addrs h
  unfolding hosts_of
  hosts_of-PrivateAddr i [] hosts h e has = absurd (ground arith)
  hosts_of-PrivateAddr i (none ∷ rest) hosts h e has = cc
  hosts_of-PrivateAddr i (some ip ∷ rest) hosts h e has =
      elim (Option-cases (hosts_of lib (is_private_addr lib) i.name rest)) [
        | inl bad ↦ absurd (ground arith)
        | inr (more, read) ↦ elim (Bool-cases (is_private_addr lib i.name ip)) [
          | inr public ↦
              let (ip', m, off, p, same) = hosts_of-PrivateAddr i rest hosts h (ground arith) has in
              (ip', inr m, off, p, same)
          | inl private ↦
              let is : hosts ≡ host lib i.name ip ∷ more = ground arith in
              let had = subst (λ (l : List Bytes). listed h l ≡ true) is has in
              elim (listed-cons h (host lib i.name ip) more had) [
                | inl same ↦
                    let (off, p) = is_private_addr-true lib i.name ip private in
                    (ip, inl refl, off, p, rw same (host-IsHost lib i.name ip))
                | inr later ↦
                    let (ip', m, off, p, same) = hosts_of-PrivateAddr i rest more h read later in
                    (ip', inr m, off, p, same)
              ]
        ]
      ]

  deeper :
      (i : Interface) (ifaces : List Interface) (h : Bytes)
      → PrivateHost lib ifaces h
      → PrivateHost lib (i ∷ ifaces) h
  deeper i ifaces h p = record {
    iface = p.iface;
    addrs = p.addrs;
    ip = p.ip;
    known = inr p.known;
    is_up = p.is_up;
    read = p.read;
    has = p.has;
    no_uplink = p.no_uplink;
    is_private = p.is_private;
    same = p.same;
  }

  pub interface_addrs-PrivateHost :
      (ifaces : List Interface) (hosts : List Bytes) (h : Bytes)
      → interface_addrs lib (is_private_addr lib) ifaces ≡ some hosts
      → listed h hosts ≡ true
      → PrivateHost lib ifaces h
  unfolding interface_addrs
  interface_addrs-PrivateHost [] hosts h e has = absurd (ground arith)
  interface_addrs-PrivateHost (i ∷ rest) hosts h e has = elim (Bool-cases i.is_up) [
    | inr down ↦ deeper i rest h (interface_addrs-PrivateHost rest hosts h (ground arith) has)
    | inl up ↦ elim (Option-cases i.addrs) [
      | inl bad ↦ absurd (ground arith)
      | inr (addrs, known) ↦ elim (Option-cases (hosts_of lib (is_private_addr lib) i.name addrs)) [
        | inl bad ↦ absurd (ground arith)
        | inr (own, read) ↦ elim (Option-cases (interface_addrs lib (is_private_addr lib) rest)) [
          | inl bad ↦ absurd (ground arith)
          | inr (more, read') ↦
              let is : hosts ≡ own ++ more = ground arith in
              elim (listed-append h own more (rw (← is) has)) [
                | inl here ↦
                    let (ip, m, off, p, same) = hosts_of-PrivateAddr i addrs own h read here in
                    record {
                      iface = i;
                      addrs = addrs;
                      ip = ip;
                      known = inl refl;
                      is_up = up;
                      read = known;
                      has = m;
                      no_uplink = off;
                      is_private = p;
                      same = same;
                    }
                | inr later ↦ deeper i rest h (interface_addrs-PrivateHost rest more h read' later)
              ]
        ]
      ]
    ]
  ]

  hosts_of_complete :
      (i : Interface) (addrs : List (Option Bytes)) (hosts : List Bytes) (h : Bytes)
      → hosts_of lib (is_private_addr lib) i.name addrs ≡ some hosts
      → PrivateAddr i addrs h
      → listed h hosts ≡ true
  unfolding hosts_of
  hosts_of_complete i [] hosts h e (ip, m, off, p, same) = absurd m
  hosts_of_complete i (none ∷ rest) hosts h e p = absurd (ground arith)
  hosts_of_complete i (some x ∷ rest) hosts h e (ip, m, off, p, same) =
      elim (Option-cases (hosts_of lib (is_private_addr lib) i.name rest)) [
        | inl bad ↦ absurd (ground arith)
        | inr (more, read) ↦ elim (Bool-cases (is_private_addr lib i.name x)) [
          | inr public ↦ elim m [
            | inl here ↦
                let is : x ≡ ip = ground arith in
                absurd (is_private_addr-false lib i.name x public off (rw is p))
            | inr later ↦ hosts_of_complete i rest hosts h (ground arith) (ip, later, off, p, same)
          ]
          | inl private ↦
              let is : host lib i.name x ∷ more ≡ hosts = ground arith in
              elim m [
                | inl here ↦
                    let at : h ≡ host lib i.name ip = IsHost-host lib i.name ip h same in
                    let is' : x ≡ ip = ground arith in
                    subst (λ (l : List Bytes). listed h l ≡ true) is (rw (at, is') (ground arith))
                | inr later ↦
                    let had = hosts_of_complete i rest more h read (ip, later, off, p, same) in
                    subst (λ (l : List Bytes). listed h l ≡ true) is (ground arith)
              ]
        ]
      ]

  pub listed-right :
      (h : Bytes) (xs ys : List Bytes) → listed h ys ≡ true → listed h (xs ++ ys) ≡ true
  listed-right h [] ys e = e
  listed-right h (x ∷ xs) ys e = let rest = listed-right h xs ys e in ground arith

  pub listed-left :
      (h : Bytes) (xs ys : List Bytes) → listed h xs ≡ true → listed h (xs ++ ys) ≡ true
  listed-left h [] ys e = absurd (ground arith)
  listed-left h (x ∷ xs) ys e = elim (listed-cons h x xs e) [
    | inl same ↦ ground arith
    | inr later ↦ let rest = listed-left h xs ys later in ground arith
  ]

  pub interface_addrs_complete :
      (ifaces : List Interface) (hosts : List Bytes) (h : Bytes) (i : Interface)
      (addrs : List (Option Bytes))
      → interface_addrs lib (is_private_addr lib) ifaces ≡ some hosts
      → Among i ifaces
      → i.is_up ≡ true
      → i.addrs ≡ some addrs
      → PrivateAddr i addrs h
      → listed h hosts ≡ true
  unfolding interface_addrs
  interface_addrs_complete [] hosts h i addrs e m up known p = absurd m
  interface_addrs_complete (x ∷ rest) hosts h i addrs e m up known p = elim (Bool-cases x.is_up) [
    | inr down ↦ elim m [
      | inl here ↦ let is : x.is_up ≡ true = rw (← here) up in absurd (ground arith)
      | inr later ↦ interface_addrs_complete rest hosts h i addrs (ground arith) later up known p
    ]
    | inl up' ↦ elim (Option-cases x.addrs) [
      | inl bad ↦ absurd (ground arith)
      | inr (addrs', known') ↦
          elim (Option-cases (hosts_of lib (is_private_addr lib) x.name addrs')) [
            | inl bad ↦ absurd (ground arith)
            | inr (own, read) ↦
                elim (Option-cases (interface_addrs lib (is_private_addr lib) rest)) [
                  | inl bad ↦ absurd (ground arith)
                  | inr (more, read') ↦
                      let is : own ++ more ≡ hosts = ground arith in
                      subst (λ (l : List Bytes). listed h l ≡ true) is
                        (elim m [
                          | inr later ↦
                              listed-right h own more (
                                interface_addrs_complete rest more h i addrs read' later up known p)
                          | inl here ↦
                              let known2 : i.addrs ≡ some addrs' = rw here known' in
                              let same : addrs ≡ addrs' = cc in
                              listed-left h own more
                                (hosts_of_complete i addrs own h (rw (here, same) read) p)
                        ])
                ]
          ]
    ]
  ]
