-- ===== src/Networking/Scope.antt =====
-- Which addresses networking/netinfo.go takes for private ones, and the hosts it makes of them.
use rout.Base.{
  ◌≡◌, ◌⊎◌, inl, inr, refl, true, false, Bool-cases, [], ◌∷◌, ◌++◌, Bytes, arith, ◌==◌, text,
}
use rout.Networking.{IpLibrary, is_private_addr, host, has_prefix}

abbrev pub IsUplink : Bytes → Type 0
IsUplink name = (rest : Bytes) × (name ≡ text "uplink" ++ rest)

-- The private addresses: of those networks, loopback, link-local or multicast.
abbrev pub IsPrivate : IpLibrary → Bytes → Type 0
IsPrivate lib ip =
    (lib.is_private ip ≡ true)
    ⊎ (lib.is_loopback ip ≡ true)
    ⊎ (lib.is_link_local_unicast ip ≡ true)
    ⊎ (lib.is_multicast ip ≡ true)

-- The text of an address, with the interface as its zone where it is link-local.
abbrev pub IsHost : IpLibrary → Bytes → Bytes → Bytes → Type 0
IsHost lib name ip h =
    ((lib.is_link_local_unicast ip ≡ false) × (h ≡ lib.ip_string ip))
    ⊎ ((lib.is_link_local_unicast ip ≡ true) × (h ≡ lib.ip_string ip ++ text "%" ++ name))

has_prefix-append : (p rest : Bytes) → has_prefix (p ++ rest) p ≡ true
unfolding has_prefix
has_prefix-append [] rest = refl
has_prefix-append (x ∷ p) rest = ground (arith, has_prefix-append p rest)

has_prefix-rest : (s p : Bytes) → has_prefix s p ≡ true → (rest : Bytes) × (s ≡ p ++ rest)
unfolding has_prefix
has_prefix-rest s [] e = (s, refl)
has_prefix-rest [] (x ∷ p) e = absurd (ground arith)
has_prefix-rest (c ∷ s) (x ∷ p) e = elim (Bool-cases (c == x)) [
  | inr other ↦ absurd (ground arith)
  | inl same ↦ let (rest, is) = has_prefix-rest s p (ground arith) in (rest, ground (arith, is))
]

-- `isPrivate` is as described.
pub is_private_addr-true :
    (lib : IpLibrary) (name ip : Bytes)
    → is_private_addr lib name ip ≡ true
    → (¬ IsUplink name) × IsPrivate lib ip
unfolding is_private_addr
is_private_addr-true lib name ip e = elim (Bool-cases (has_prefix name (text "uplink"))) [
  | inl uplink ↦ absurd (ground arith)
  | inr fine ↦ (
    λ u. absurd (
        let is = has_prefix-append (text "uplink") u.0 in
        let same : name ≡ text "uplink" ++ u.0 = u.1 in
        let yes : has_prefix name (text "uplink") ≡ true = rw same is in ground arith),
    elim (Bool-cases (lib.is_private ip)) [
      | inl a ↦ inl a
      | inr na ↦ elim (Bool-cases (lib.is_loopback ip)) [
        | inl b ↦ inr (inl b)
        | inr nb ↦ elim (Bool-cases (lib.is_link_local_unicast ip)) [
          | inl c ↦ inr (inr (inl c))
          | inr nc ↦ inr (inr (inr (ground arith)))
        ]
      ]
    ],
  )
]

pub is_private_addr-false :
    (lib : IpLibrary) (name ip : Bytes)
    → is_private_addr lib name ip ≡ false
    → ¬ IsUplink name
    → ¬ IsPrivate lib ip
unfolding is_private_addr
is_private_addr-false lib name ip e off p = elim (Bool-cases (has_prefix name (text "uplink"))) [
  | inl uplink ↦ off (has_prefix-rest name (text "uplink") uplink)
  | inr fine ↦ elim p [
    | inl a ↦ ground arith
    | inr (inl b) ↦ ground arith
    | inr (inr (inl c)) ↦ ground arith
    | inr (inr (inr d)) ↦ ground arith
  ]
]

pub host-IsHost : (lib : IpLibrary) (name ip : Bytes) → IsHost lib name ip (host lib name ip)
unfolding host
host-IsHost lib name ip = elim (Bool-cases (lib.is_link_local_unicast ip)) [
  | inl zone ↦ inr (zone, rw (zone, host) refl)
  | inr none_here ↦ inl (none_here, rw (none_here, host) refl)
]

pub IsHost-host :
    (lib : IpLibrary) (name ip h : Bytes) → IsHost lib name ip h → h ≡ host lib name ip
unfolding host
IsHost-host lib name ip h (inl (plain, same)) = rw (plain, host) same
IsHost-host lib name ip h (inr (zone, same)) = rw (zone, host) same
