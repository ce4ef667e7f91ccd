-- ===== src/Dhcp4d/Exchange.antt =====
-- Offers and acknowledgements: when they are given, and that an offer is honoured.
use rout.Base.{
  ℕ, ◌<◌, ◌≤◌, ◌≡◌, inl, inr, refl, if◌then◌else◌, Bool, Bool-cases, Option-cases, true, false, not,
  ltb, ltb→lt, Bytes, ℤ, pos, negsuc, length, arith,
}
use rout.Net.{to4, ip_equal, ipv4_zero}
use rout.Dhcp4d.Handler.{Lease, Handler, find_ip, expired, can_lease, lease_hw, is_free, find_lease}
use rout.Dhcp4d.Serve.{DhcpLibrary, Ambient, is_minus_one, prefer_previous, choose_offer}
use rout.Dhcp4d.Invariant.{Inv, lease_hw-some}
use rout.Dhcp4d.Availability.{
  Leasable, can_lease-Leasable, find_lease-free, find_lease_full, IsFreeBelow,
}

-- What has run out stays so.
expired_later : (l : Lease) (t t' : ℕ) → t ≤ t' → expired l t ≡ true → expired l t' ≡ true
unfolding expired
expired_later l t t' le e = ground arith

Leasable-mono :
    (h : Handler) (t t' : ℕ) (hw : Bytes) (n : ℤ) → t ≤ t' → Leasable h t hw n → Leasable h t' hw n
Leasable-mono h t t' hw n le v = record {
  within = v.within;
  available = elim v.available [
    | inl free ↦ inl free
    | inr (l, there, inl own) ↦ inr (l, there, inl own)
    | inr (l, there, inr old) ↦ inr (l, there, inr (expired_later l t t' le old))
  ];
}

is_free-Leasable :
    (h : Handler) (t : ℕ) (hw : Bytes) (r : ℤ) → IsFreeBelow h t h.lease_range r → Leasable h t hw r
unfolding is_free
is_free-Leasable h t hw r (k, e, lt, free) = rw e (record {
  within = ground arith;
  available = elim (Option-cases (find_ip h (pos k))) [
    | inl absent ↦ inl absent
    | inr (l, there) ↦ inr (l, there, inr (ground arith))
  ];
})

module _ (lib : DhcpLibrary) (h : Handler) (a : Ambient) (req_ip hw : Bytes) (v : Inv h) where
  -- `t` is no earlier than any reading of the clock.
  module _ (t : ℕ) (after : a.can_lease_now ≤ t) (after' : a.find_now ≤ t)
      (chance : a.random < h.lease_range) where
    find_lease-Leasable :
        is_minus_one (find_lease h a.find_now a.random) ≡ false
        → Leasable h t hw (find_lease h a.find_now a.random)
    find_lease-Leasable e = elim (Bool-cases (ltb (length h.leases_ip) h.lease_range)) [
      | inl room ↦ Leasable-mono h a.find_now t hw (find_lease h a.find_now a.random) after' (
          is_free-Leasable h a.find_now hw (find_lease h a.find_now a.random)
            (find_lease-free h a.find_now a.random v.ip_distinct chance (ltb→lt _ _ room)))
      | inr full ↦ absurd (ground (arith, find_lease_full h a.find_now a.random))
    ]

    prefer_previous-Leasable :
        (now : ℕ) (n : ℤ)
        → (is_minus_one n ≡ false → Leasable h t hw n)
        → is_minus_one (prefer_previous (lease_hw h hw) now n) ≡ false
        → Leasable h t hw (prefer_previous (lease_hw h hw) now n)
    unfolding prefer_previous
    prefer_previous-Leasable now n other e = elim (Option-cases (lease_hw h hw)) [
      | inl fresh ↦ rw (fresh, prefer_previous) (other (rw (fresh, prefer_previous) at e))
      | inr (l, found) ↦
          let (_, there, own) = lease_hw-some h hw l v found in
          elim (Bool-cases (expired l now)) [
            | inl old ↦ rw (found, prefer_previous) (rw old (other (ground arith)))
            | inr live ↦
                rw (found, prefer_previous)
                  (rw live (record {
                    within = v.ranged l.num l there;
                    available = inr (l, there, inl own);
                  }))
          ]
    ]

    requested-Leasable :
        (b : Bool) (n : ℤ)
        → n ≡ (if not b then can_lease lib.ip_range h a.can_lease_now req_ip hw else negsuc 0)
        → is_minus_one n ≡ false
        → Leasable h t hw n
    requested-Leasable true n same e = absurd (ground arith)
    requested-Leasable false n same e =
        let given : is_minus_one (can_lease lib.ip_range h a.can_lease_now req_ip hw) ≡ false =
          rw same at e in
        let (num, _, leasable) =
          can_lease-Leasable lib.ip_range h a.can_lease_now req_ip hw given in
        rw (same, num) (Leasable-mono h a.can_lease_now t hw _ after leasable)

    offered-Leasable :
        (n r : ℤ)
        → (is_minus_one n ≡ false → Leasable h t hw n)
        → r ≡ (if is_minus_one n then find_lease h a.find_now a.random else n)
        → is_minus_one r ≡ false
        → Leasable h t hw r
    offered-Leasable n r first same e = elim (Bool-cases (is_minus_one n)) [
      | inl none_yet ↦
          let searched : r ≡ find_lease h a.find_now a.random = rw none_yet at same in
          rw searched (find_lease-Leasable (rw searched at e))
      | inr chosen ↦ let kept : r ≡ n = rw chosen at same in rw kept (first chosen)
    ]

    -- What is offered may be leased to the client, at any time from then on.
    pub choose_offer-Leasable :
        is_minus_one (choose_offer lib h a req_ip hw) ≡ false
        → Leasable h t hw (choose_offer lib h a req_ip hw)
    unfolding choose_offer
    choose_offer-Leasable e =
        offered-Leasable _ _
          (prefer_previous-Leasable a.lease_now _
            (requested-Leasable (ip_equal (to4 req_ip) ipv4_zero) _ refl))
          refl e

    -- With fewer entries than addresses something is offered.
    pub choose_offer_some :
        length h.leases_ip < h.lease_range → is_minus_one (choose_offer lib h a req_ip hw) ≡ false
    unfolding choose_offer
    choose_offer_some room =
        let (k, e, _, _) = find_lease-free h a.find_now a.random v.ip_distinct chance room in
        ground arith
