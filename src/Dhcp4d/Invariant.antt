-- ===== src/Dhcp4d/Invariant.antt =====
-- The invariant of the lease database, and what the two maps say of one another.
use rout.Base.{
  ◌≡◌, inl, inr, Option-cases, true, Option, none, some, Bytes, Bytes-discrete, ℤ, ℤ-discrete,
  in_range, Distinct, arith,
}
use rout.Dhcp4d.Handler.{Lease, Handler, find_hw, find_ip, lease_hw, owned_by}

-- Each lease stands under its own number, within the range, and the index by hardware address
-- leads to it; so no client has two leases.
pub record Inv (h : Handler) : Type 0 where
  pub hw_distinct : Distinct Bytes-discrete h.leases_hw
  pub ip_distinct : Distinct ℤ-discrete h.leases_ip
  pub numbered : (n : ℤ) (l : Lease) → find_ip h n ≡ some l → l.num ≡ n
  pub indexed : (n : ℤ) (l : Lease) → find_ip h n ≡ some l → find_hw h l.hardware_addr ≡ some n
  pub ranged : (n : ℤ) (l : Lease) → find_ip h n ≡ some l → in_range n h.lease_range ≡ true

pub owned_by-some :
    (hw : Bytes) (o : Option Lease) (l : Lease)
    → owned_by hw o ≡ some l
    → (o ≡ some l) × (l.hardware_addr ≡ hw)
unfolding owned_by
owned_by-some hw none l e = cc
owned_by-some hw (some l') l e = ground arith

pub lease_hw-some :
    (h : Handler) (hw : Bytes) (l : Lease)
    → Inv h
    → lease_hw h hw ≡ some l
    → (find_hw h hw ≡ some l.num) × (find_ip h l.num ≡ some l) × (l.hardware_addr ≡ hw)
unfolding lease_hw
lease_hw-some h hw l v e = elim (Option-cases (find_hw h hw)) [
  | inl missing ↦ absurd (ground arith)
  | inr (n, found) ↦
      let (at_n, own) = owned_by-some hw (find_ip h n) l (ground arith) in
      let same = v.numbered n l at_n in ground arith
]

pub lease_hw_complete :
    (h : Handler) (n : ℤ) (l : Lease)
    → Inv h
    → find_ip h n ≡ some l
    → lease_hw h l.hardware_addr ≡ some l
unfolding lease_hw owned_by
lease_hw_complete h n l v e = ground (arith, v.indexed n l e)
