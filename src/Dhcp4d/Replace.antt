-- ===== src/Dhcp4d/Replace.antt =====
-- The database once a lease is stored in place of the client's previous one.
use rout.Base.{
  ◌≡◌, ◌≢◌, ◌⊎◌, inl, inr, refl, Option-cases, true, Option, none, some, Bytes, Bytes-discrete, ℤ,
  ℤ-discrete, ite, if_neg, in_range, insert, Distinct, lookup-insert, lookup-delete,
  insert-Distinct, delete-Distinct, arith,
}
use rout.Dhcp4d.Handler.{Lease, Handler, find_hw, find_ip, lease_hw}
use rout.Dhcp4d.Serve.{release_old, store_lease}
use rout.Dhcp4d.Invariant.{Inv, lease_hw-some, lease_hw_complete}
use rout.Dhcp4d.Preserve.{call_leases-maps}

pub store_lease-maps :
    (h : Handler) (n : ℤ) (l : Lease)
    → ((store_lease h n l).leases_ip ≡ insert ℤ-discrete n l h.leases_ip)
      × ((store_lease h n l).leases_hw ≡ insert Bytes-discrete l.hardware_addr n h.leases_hw)
      × ((store_lease h n l).lease_range ≡ h.lease_range)
unfolding store_lease
store_lease-maps h n l = call_leases-maps _ l

release_old-hw :
    (h : Handler) (p : Option Lease)
    → ((release_old h p).leases_hw ≡ h.leases_hw) × ((release_old h p).lease_range ≡ h.lease_range)
unfolding release_old
release_old-hw h none = (refl, refl)
release_old-hw h (some o) = (refl, refl)

release_old-Distinct :
    (h : Handler) (p : Option Lease)
    → Distinct ℤ-discrete h.leases_ip
    → Distinct ℤ-discrete (release_old h p).leases_ip
unfolding release_old
release_old-Distinct h none d = d
release_old-Distinct h (some o) d = delete-Distinct ℤ-discrete o.num h.leases_ip d

find_ip-release_old :
    (h : Handler) (p : Option Lease) (m : ℤ)
    → find_ip (release_old h p) m
      ≡ elim p [ none ↦ find_ip h m | some o ↦ ite (ℤ-discrete o.num m) none (find_ip h m) ]
unfolding release_old
find_ip-release_old h none m = refl
find_ip-release_old h (some o) m = lookup-delete ℤ-discrete m o.num h.leases_ip

module _ (h : Handler) (n : ℤ) (l : Lease) where
  abbrev pub replaced : Handler
  replaced = store_lease (release_old h (lease_hw h l.hardware_addr)) n l

  pub find_ip-replaced :
      (m : ℤ)
      → find_ip replaced m
        ≡ ite (ℤ-discrete n m) (some l) (find_ip (release_old h (lease_hw h l.hardware_addr)) m)
  find_ip-replaced m =
      let old = release_old h (lease_hw h l.hardware_addr) in
      rw (store_lease-maps old n l).0 (lookup-insert ℤ-discrete m n l old.leases_ip)

  pub find_hw-replaced :
      (hw : Bytes)
      → find_hw replaced hw ≡ ite (Bytes-discrete l.hardware_addr hw) (some n) (find_hw h hw)
  find_hw-replaced hw =
      let p = lease_hw h l.hardware_addr in
      rw ((store_lease-maps (release_old h p) n l).1, (release_old-hw h p).0)
        (lookup-insert Bytes-discrete hw l.hardware_addr n h.leases_hw)

  module _ (v : Inv h) where
    abbrev released : Handler
    released = release_old h (lease_hw h l.hardware_addr)

    -- The lease found for a client is the only one of that client.
    owner_unique :
        (m : ℤ) (k : Lease)
        → find_ip h m ≡ some k
        → k.hardware_addr ≡ l.hardware_addr
        → lease_hw h l.hardware_addr ≡ some k
    owner_unique m k there own = rw (← own) (lease_hw_complete h m k v there)

    released_other :
        (m : ℤ) (k : Lease)
        → k.hardware_addr ≢ l.hardware_addr
        → find_ip h m ≡ some k
        → find_ip released m ≡ some k
    released_other m k other there = elim (Option-cases (lease_hw h l.hardware_addr)) [
      | inl fresh ↦ rw (fresh, find_ip-release_old h none m) there
      | inr (o, found) ↦
          let (_, at_o, own) = lease_hw-some h l.hardware_addr o v found in
          rw found (ground (arith, find_ip-release_old h (some o) m))
    ]

    released-some :
        (m : ℤ) (k : Lease)
        → find_ip released m ≡ some k
        → (find_ip h m ≡ some k) × (k.hardware_addr ≢ l.hardware_addr)
    released-some m k e = elim (Option-cases (lease_hw h l.hardware_addr)) [
      | inl fresh ↦
          let there : find_ip h m ≡ some k = rw (fresh, find_ip-release_old h none m) at e in
          (there, λ own. ground (arith, owner_unique m k there own))
      | inr (o, found) ↦
          let e' : find_ip (release_old h (some o)) m ≡ some k = rw found at e in
          let apart : o.num ≢ m = ground (arith, find_ip-release_old h (some o) m) in
          let there : find_ip h m ≡ some k = ground (arith, find_ip-release_old h (some o) m) in
          (there, λ own. ground (arith, owner_unique m k there own, v.numbered m k there))
    ]

    -- Another client's lease stays, unless its number is the one given out.
    pub find_ip-replaced_other :
        (m : ℤ) (k : Lease)
        → n ≢ m
        → k.hardware_addr ≢ l.hardware_addr
        → find_ip h m ≡ some k
        → find_ip replaced m ≡ some k
    find_ip-replaced_other m k apart other there =
        rw (find_ip-replaced m, if_neg _ apart) (released_other m k other there)

    -- What is stored afterwards: the lease, and those of other clients.
    pub find_ip-replaced-some :
        (m : ℤ) (k : Lease)
        → find_ip replaced m ≡ some k
        → ((n ≡ m) × (k ≡ l))
          ⊎ ((n ≢ m) × (find_ip h m ≡ some k) × (k.hardware_addr ≢ l.hardware_addr))
    find_ip-replaced-some m k e = elim (ℤ-discrete n m) [
      | yes p ↦ inl (p, ground (arith, find_ip-replaced m))
      | no p ↦
          let (there, other) = released-some m k (rw (find_ip-replaced m, if_neg _ p) at e) in
          inr (p, there, other)
    ]

    pub replaced-Inv : l.num ≡ n → in_range n h.lease_range ≡ true → Inv replaced
    replaced-Inv number r =
        let p = lease_hw h l.hardware_addr in
        let (ip, hw, range) = store_lease-maps released n l in
        let (hw', range') = release_old-hw h p in
        record {
          hw_distinct =
              rw (hw, hw')
                (insert-Distinct Bytes-discrete l.hardware_addr n h.leases_hw v.hw_distinct);
          ip_distinct = rw ip (
              insert-Distinct ℤ-discrete n l released.leases_ip
                (release_old-Distinct h p v.ip_distinct));
          numbered = λ m k e. elim (find_ip-replaced-some m k e) [
            | inl (at_n, same) ↦ ground arith
            | inr (_, there, _) ↦ v.numbered m k there
          ];
          indexed = λ m k e. elim (find_ip-replaced-some m k e) [
            | inl (at_n, same) ↦ ground (arith, find_hw-replaced k.hardware_addr)
            | inr (_, there, other) ↦
                ground (arith, find_hw-replaced k.hardware_addr, v.indexed m k there)
          ];
          ranged = λ m k e. elim (find_ip-replaced-some m k e) [
            | inl (at_n, same) ↦ rw (range, range', ← at_n) r
            | inr (_, there, _) ↦ rw (range, range') (v.ranged m k there)
          ];
        }
