-- ===== src/Dhcp4d/Restore.antt =====
-- `SetLeases` of the list that `callLeasesLocked` hands out restores the database.
use rout.Base.{
  ◌≡◌, ◌≢◌, inl, inr, refl, sym, ap, ◌∙◌, subst, if_neg, if_pos, Option-cases, List, [], ◌∷◌,
  Option, none, some, Bytes, Bytes-discrete, ℤ, ℤ-discrete, lookup, values, Distinct, lookup-insert,
  insert-Distinct, arith,
}
use rout.Dhcp4d.Handler.{
  Lease, Handler, find_hw, find_ip, lease_hw, put_lease, put_leases, set_leases,
}
use rout.Dhcp4d.Invariant.{Inv, lease_hw-some, lease_hw_complete}

abbrev LeaseMap : Type 0
LeaseMap = List (ℤ × Lease)

abbrev find : ℤ → LeaseMap → Option Lease
find n m = lookup ℤ-discrete n m

-- What the invariant says of a part of the map.
record IsCoherent (m : LeaseMap) : Type 0 where
  distinct : Distinct ℤ-discrete m
  numbered : (n : ℤ) (l : Lease) → find n m ≡ some l → l.num ≡ n
  owners :
      (n k : ℤ) (l l' : Lease)
      → find n m ≡ some l
      → find k m ≡ some l'
      → l.hardware_addr ≡ l'.hardware_addr
      → n ≡ k

find-tail :
    (k n : ℤ) (l l' : Lease) (m : LeaseMap)
    → find k m ≡ none
    → find n m ≡ some l'
    → find n ((k, l) ∷ m) ≡ some l'
unfolding lookup
find-tail k n l l' m fresh e = ground arith

find-in-tail :
    (k n : ℤ) (l l' : Lease) (m : LeaseMap)
    → n ≢ k
    → find n ((k, l) ∷ m) ≡ some l'
    → find n m ≡ some l'
unfolding lookup
find-in-tail k n l l' m apart e = ground arith

find-head : (k : ℤ) (l : Lease) (m : LeaseMap) → find k ((k, l) ∷ m) ≡ some l
unfolding lookup
find-head k l m = ground arith

tail-IsCoherent : (k : ℤ) (l : Lease) (m : LeaseMap) → IsCoherent ((k, l) ∷ m) → IsCoherent m
tail-IsCoherent k l m c = record {
  distinct = c.distinct.1;
  numbered = λ n l' e. c.numbered n l' (find-tail k n l l' m c.distinct.0 e);
  owners = λ n j l' l'' e e' same.
      c.owners n j l' l'' (find-tail k n l l' m c.distinct.0 e)
        (find-tail k j l l'' m c.distinct.0 e') same;
}

find_ip-put_leases :
    (g : Handler) (m : LeaseMap) (n : ℤ)
    → IsCoherent m
    → find_ip (put_leases g (values m)) n ≡ elim (find n m) [ none ↦ find_ip g n | some l ↦ some l ]
unfolding put_leases put_lease lookup
find_ip-put_leases g [] n c = refl
find_ip-put_leases g ((k, l) ∷ m) n c =
    let number = c.numbered k l (find-head k l m) in
    ground (
      arith,
      find_ip-put_leases (put_lease g l) m n (tail-IsCoherent k l m c),
      lookup-insert ℤ-discrete n l.num l g.leases_ip,
      c.distinct.0,
    )

-- The index entry of an address that no lease of the rest has is left alone.
find_hw-put_leases_other :
    (g : Handler) (m : LeaseMap) (hw : Bytes)
    → IsCoherent m
    → ((n : ℤ) (l : Lease) → find n m ≡ some l → l.hardware_addr ≢ hw)
    → find_hw (put_leases g (values m)) hw ≡ find_hw g hw
unfolding put_leases put_lease
find_hw-put_leases_other g [] hw c other = refl
find_hw-put_leases_other g ((k, l) ∷ m) hw c other =
    find_hw-put_leases_other (put_lease g l) m hw (tail-IsCoherent k l m c)
      (λ n l' e. other n l' (find-tail k n l l' m c.distinct.0 e))
    ∙ (lookup-insert Bytes-discrete hw l.hardware_addr l.num g.leases_hw
        ∙ if_neg (Bytes-discrete l.hardware_addr hw) (other k l (find-head k l m)) _ _)

find_hw-put_leases :
    (g : Handler) (m : LeaseMap) (n : ℤ) (l : Lease)
    → IsCoherent m
    → find n m ≡ some l
    → find_hw (put_leases g (values m)) l.hardware_addr ≡ some n
unfolding put_leases put_lease lookup
find_hw-put_leases g [] n l c e = cc
find_hw-put_leases g ((k, l0) ∷ m) n l c e = elim (ℤ-discrete n k) [
  | yes p ↦
      let same : l ≡ l0 = ground (arith, find-head k l0 m) in
      let number = c.numbered k l0 (find-head k l0 m) in
      let rest =
        find_hw-put_leases_other (put_lease g l0) m l0.hardware_addr (tail-IsCoherent k l0 m c)
          (λ j l' there own.
            let at_k =
              c.owners j k l' l0 (find-tail k j l0 l' m c.distinct.0 there) (find-head k l0 m)
                own in
            ground (arith, c.distinct.0)) in
      rw (p, same)
        (rest
          ∙ (lookup-insert Bytes-discrete l0.hardware_addr l0.hardware_addr l0.num g.leases_hw
              ∙ (if_pos (Bytes-discrete l0.hardware_addr l0.hardware_addr) refl _ _
                  ∙ ap some number)))
  | no p ↦
      find_hw-put_leases (put_lease g l0) m n l (tail-IsCoherent k l0 m c)
        (find-in-tail k n l0 l m p e)
]

put_leases-Distinct :
    (g : Handler) (ls : List Lease)
    → Distinct Bytes-discrete g.leases_hw
    → Distinct ℤ-discrete g.leases_ip
    → Distinct Bytes-discrete (put_leases g ls).leases_hw
      × Distinct ℤ-discrete (put_leases g ls).leases_ip
      × ((put_leases g ls).lease_range ≡ g.lease_range)
unfolding put_leases put_lease
put_leases-Distinct g [] d d' = (d, d', refl)
put_leases-Distinct g (l ∷ ls) d d' =
    put_leases-Distinct (put_lease g l) ls
      (insert-Distinct Bytes-discrete l.hardware_addr l.num g.leases_hw d)
      (insert-Distinct ℤ-discrete l.num l g.leases_ip d')

-- Any listing of the map is coherent, in whatever order Go visits it.
listing-IsCoherent :
    (h : Handler) (m : LeaseMap)
    → Inv h
    → Distinct ℤ-discrete m
    → ((n : ℤ) → find n m ≡ find_ip h n)
    → IsCoherent m
listing-IsCoherent h m v d same = record {
  distinct = d;
  numbered = λ n l e. v.numbered n l (sym (same n) ∙ e);
  owners = λ n k l l' e e' own.
      ground (arith, v.indexed n l (sym (same n) ∙ e), v.indexed k l' (sym (same k) ∙ e'));
}

module _ (h g : Handler) (m : LeaseMap) (v : Inv h) (d : Distinct ℤ-discrete m)
    (same : (n : ℤ) → find n m ≡ find_ip h n) (range : g.lease_range ≡ h.lease_range) where
  restored_ip : (n : ℤ) → find_ip (set_leases g (values m)) n ≡ find_ip h n
  unfolding set_leases lookup
  restored_ip n =
      let empty = record g { leases_hw = []; leases_ip = [] } in
      ground (arith, find_ip-put_leases empty m n (listing-IsCoherent h m v d same), same n)

  restored-Inv : Inv (set_leases g (values m))
  unfolding set_leases
  restored-Inv =
      let empty = record g { leases_hw = []; leases_ip = [] } in
      let (hw, ip, kept) = put_leases-Distinct empty (values m) tt tt in
      let c = listing-IsCoherent h m v d same in
      record {
        hw_distinct = hw;
        ip_distinct = ip;
        numbered = λ n l e. v.numbered n l (sym (restored_ip n) ∙ e);
        indexed = λ n l e. find_hw-put_leases empty m n l c (same n ∙ (sym (restored_ip n) ∙ e));
        ranged = λ n l e. rw (kept, range) (v.ranged n l (sym (restored_ip n) ∙ e));
      }

  restored_hw_some :
      (hw : Bytes) (l : Lease)
      → lease_hw h hw ≡ some l
      → lease_hw (set_leases g (values m)) hw ≡ some l
  restored_hw_some hw l e =
      let (_, there, own) = lease_hw-some h hw l v e in
      subst (λ x. lease_hw (set_leases g (values m)) x ≡ some l) own
        (lease_hw_complete (set_leases g (values m)) l.num l restored-Inv
          (restored_ip l.num ∙ there))

  restored_hw_back :
      (hw : Bytes) (l : Lease)
      → lease_hw (set_leases g (values m)) hw ≡ some l
      → lease_hw h hw ≡ some l
  restored_hw_back hw l e =
      let (_, there, own) = lease_hw-some (set_leases g (values m)) hw l restored-Inv e in
      subst (λ x. lease_hw h x ≡ some l) own
        (lease_hw_complete h l.num l v (sym (restored_ip l.num) ∙ there))

  -- Loading what was handed out for storage restores a database that meets the invariant: if `m` lists
  -- the leases of `h`, each once and in whatever order, then after `SetLeases` on a handler with the same range every number has the lease
  -- that it has in `h`, every client too, and the invariant holds.
  pub set_leases_restores :
      Inv (set_leases g (values m))
      × ((n : ℤ) → find_ip (set_leases g (values m)) n ≡ find_ip h n)
      × ((hw : Bytes) → lease_hw (set_leases g (values m)) hw ≡ lease_hw h hw)
  set_leases_restores = (
    restored-Inv,
    restored_ip,
    λ hw. elim (Option-cases (lease_hw h hw)) [
      | inr (l, e) ↦ restored_hw_some hw l e ∙ sym e
      | inl e ↦ elim (Option-cases (lease_hw (set_leases g (values m)) hw)) [
        | inl e' ↦ e' ∙ sym e
        | inr (l, e') ↦ absurd (ground (arith, restored_hw_back hw l e'))
      ]
    ],
  )
