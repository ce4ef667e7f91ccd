-- ===== src/Dhcp4d/Preserve.antt =====
-- Every operation keeps the invariant of the lease database.
use rout.Base.{
  ℕ, ◌≡◌, ◌≢◌, ◌⊎◌, inl, inr, refl, Bool-cases, Option-cases, true, false, Option, none, some,
  Bytes, Bytes-discrete, ℤ, pos, ℤ-discrete, insert, lookup-insert, insert-Distinct, arith,
}
use rout.Dhcp4d.Handler.{
  Lease, Handler, find_hw, find_ip, expired, lease_hw, owned_by, call_leases, set_hostname,
  expire_lease, HostnameResult,
}
use rout.Dhcp4d.Serve.{inherit, inherit_from}
use rout.Dhcp4d.Invariant.{owned_by-some, Inv, lease_hw-some}

-- `callLeasesLocked` touches neither map.
pub call_leases-maps :
    (h : Handler) (l : Lease)
    → ((call_leases h l).leases_ip ≡ h.leases_ip)
      × ((call_leases h l).leases_hw ≡ h.leases_hw)
      × ((call_leases h l).lease_range ≡ h.lease_range)
unfolding call_leases
call_leases-maps h l = ground arith

Inv-of_maps :
    (h h' : Handler)
    → h'.leases_ip ≡ h.leases_ip
    → h'.leases_hw ≡ h.leases_hw
    → h'.lease_range ≡ h.lease_range
    → Inv h
    → Inv h'
Inv-of_maps h h' a b c v = record {
  hw_distinct = rw b v.hw_distinct;
  ip_distinct = rw a v.ip_distinct;
  numbered = λ n l e. v.numbered n l (rw a at e);
  indexed = λ n l e. rw b (v.indexed n l (rw a at e));
  ranged = λ n l e. rw c (v.ranged n l (rw a at e));
}

pub call_leases-Inv : (h : Handler) (l : Lease) → Inv h → Inv (call_leases h l)
call_leases-Inv h l = let (a, b, c) = call_leases-maps h l in Inv-of_maps h (call_leases h l) a b c

-- A lease changed in place, its number and owner kept.
abbrev pub updated : Handler → ℤ → Lease → Handler
updated h n l = record h { leases_ip = insert ℤ-discrete n l h.leases_ip }

module _ (h : Handler) (n : ℤ) (old l : Lease) (v : Inv h) (there : find_ip h n ≡ some old) where
  find_updated :
      (m : ℤ) (k : Lease)
      → find_ip (updated h n l) m ≡ some k
      → ((m ≡ n) × (k ≡ l)) ⊎ (find_ip h m ≡ some k)
  find_updated m k e = elim (ℤ-discrete n m) [
    | yes p ↦ inl (ground arith, ground (arith, lookup-insert ℤ-discrete m n l h.leases_ip))
    | no p ↦ inr (ground (arith, lookup-insert ℤ-discrete m n l h.leases_ip))
  ]

  updated-Inv : l.num ≡ old.num → l.hardware_addr ≡ old.hardware_addr → Inv (updated h n l)
  updated-Inv same_num same_hw = record {
    hw_distinct = v.hw_distinct;
    ip_distinct = insert-Distinct ℤ-discrete n l h.leases_ip v.ip_distinct;
    numbered = λ m k e. elim (find_updated m k e) [
      | inl (p, q) ↦ ground (arith, v.numbered n old there)
      | inr e' ↦ v.numbered m k e'
    ];
    indexed = λ m k e. elim (find_updated m k e) [
      | inl (p, q) ↦ ground (arith, v.indexed n old there)
      | inr e' ↦ v.indexed m k e'
    ];
    ranged = λ m k e. elim (find_updated m k e) [
      | inl (p, q) ↦ ground (arith, v.ranged n old there)
      | inr e' ↦ v.ranged m k e'
    ];
  }

-- `expireLease` finds its lease as `leaseHW` does.
pub expire_lease-cases :
    (h : Handler) (now : ℕ) (hw : Bytes)
    → Inv h
    → ((lease_hw h hw ≡ none) × (expire_lease h now hw ≡ (h, false)))
      ⊎ ((l : Lease) × (lease_hw h hw ≡ some l)
          × (expire_lease h now hw ≡ (updated h l.num (record l { expiry = now }), true)))
unfolding expire_lease lease_hw
expire_lease-cases h now hw v = elim (Option-cases (find_hw h hw)) [
  | inl missing ↦ inl (ground arith, ground arith)
  | inr (n, found) ↦ elim (Option-cases (owned_by hw (find_ip h n))) [
    | inl stale ↦ inl (ground arith, ground arith)
    | inr (l, own) ↦
        let same = v.numbered n l (owned_by-some hw (find_ip h n) l own).0 in
        inr (l, ground arith, ground arith)
  ]
]

pub expire_lease-Inv : (h : Handler) (now : ℕ) (hw : Bytes) → Inv h → Inv (expire_lease h now hw).0
expire_lease-Inv h now hw v = elim (expire_lease-cases h now hw v) [
  | inl (_, e) ↦ rw e v
  | inr (l, found, e) ↦ rw e (
      updated-Inv h l.num l (record l { expiry = now }) v (lease_hw-some h hw l v found).1 refl
        refl)
]

abbrev pub renamed : Lease → Bytes → Lease
renamed l hostname = record l { hostname = hostname; hostname_override = hostname }

-- `SetHostname` renames the client's own live lease, under the number that the lease has.
abbrev pub Renames : Handler → ℕ → Bytes → Bytes → Handler × HostnameResult → Type 0
Renames h now hw hostname r =
    (l : Lease) × (lease_hw h hw ≡ some l)
    × (expired l now ≡ false)
    × (r ≡ (
      call_leases (updated h l.num (renamed l hostname)) (renamed l hostname),
      HostnameResult.hostname_set,
    ))

-- Otherwise it changes nothing and does not succeed.
abbrev pub Refuses : Handler → ℕ → Bytes → Handler × HostnameResult → Type 0
Refuses h now hw r =
    (r.0 ≡ h)
    × (r.1 ≢ HostnameResult.hostname_set)
    × ((l : Lease) → lease_hw h hw ≡ some l → expired l now ≡ true)

-- A client with no entry in the index has no lease at the number 0 either.
set_hostname_unindexed :
    (h : Handler) (now : ℕ) (hw hostname : Bytes)
    → Inv h
    → find_hw h hw ≡ none
    → Refuses h now hw (set_hostname h now hw hostname)
unfolding set_hostname lease_hw
set_hostname_unindexed h now hw hostname v missing = elim (Option-cases (find_ip h (pos 0))) [
  | inl free ↦ (ground arith, ground arith, λ l e. ground arith)
  | inr (l, taken) ↦
      let other : l.hardware_addr ≢ hw = λ own. ground (arith, v.indexed (pos 0) l taken) in
      (ground arith, ground arith, λ k e. ground arith)
]

set_hostname_indexed :
    (h : Handler) (now : ℕ) (hw hostname : Bytes) (n : ℤ)
    → Inv h
    → find_hw h hw ≡ some n
    → Renames h now hw hostname (set_hostname h now hw hostname)
      ⊎ Refuses h now hw (set_hostname h now hw hostname)
unfolding set_hostname lease_hw owned_by
set_hostname_indexed h now hw hostname n v found = elim (Option-cases (find_ip h n)) [
  | inl free ↦ inr (ground arith, ground arith, λ l e. ground arith)
  | inr (l, taken) ↦ elim (Bytes-discrete l.hardware_addr hw) [
    | no other ↦ inr (ground arith, ground arith, λ k e. ground arith)
    | yes own ↦ elim (Bool-cases (expired l now)) [
      | inl old ↦ inr (ground arith, ground arith, λ k e. ground arith)
      | inr live ↦ let same = v.numbered n l taken in inl (l, ground arith, live, ground arith)
    ]
  ]
]

-- In a database that meets the invariant `SetHostname` either renames the client's own live lease, and
-- publishes it, or leaves the state as it was and reports no success, and then the client has no live
-- lease.
pub set_hostname-cases :
    (h : Handler) (now : ℕ) (hw hostname : Bytes)
    → Inv h
    → Renames h now hw hostname (set_hostname h now hw hostname)
      ⊎ Refuses h now hw (set_hostname h now hw hostname)
set_hostname-cases h now hw hostname v = elim (Option-cases (find_hw h hw)) [
  | inl missing ↦ inr (set_hostname_unindexed h now hw hostname v missing)
  | inr (n, found) ↦ set_hostname_indexed h now hw hostname n v found
]

pub set_hostname-Inv :
    (h : Handler) (now : ℕ) (hw hostname : Bytes) → Inv h → Inv (set_hostname h now hw hostname).0
set_hostname-Inv h now hw hostname v = elim (set_hostname-cases h now hw hostname v) [
  | inr (same, _, _) ↦ rw same v
  | inl (l, found, _, e) ↦ rw e (
      call_leases-Inv _ _
        (updated-Inv h l.num l (renamed l hostname) v (lease_hw-some h hw l v found).1 refl refl))
]

-- What `inherit` leaves alone.
pub inherit_from-same :
    (lease : Lease) (previous : Option Lease)
    → ((inherit_from lease previous).num ≡ lease.num)
      × ((inherit_from lease previous).addr ≡ lease.addr)
      × ((inherit_from lease previous).hardware_addr ≡ lease.hardware_addr)
unfolding inherit_from inherit
inherit_from-same lease previous = ground arith
