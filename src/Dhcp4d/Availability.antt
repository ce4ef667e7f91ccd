-- ===== src/Dhcp4d/Availability.antt =====
-- Which addresses `canLease` and `findLease` give out.
use rout.Base.{
  ℕ, zero, suc, ◌+◌, ◌≤◌, ◌<◌, ◌==◌, ◌≡◌, ◌≢◌, ◌⊎◌, inl, inr, refl, Bool-cases, Option-cases, true,
  false, not, lt→ltb, ◌||◌, ℕ_discrete, none, some, Bytes, Bytes-discrete, ℤ, pos, negsuc,
  ℤ-discrete, pred_ℤ, in_range, Distinct, le_length_of_keys, length, arith,
}
use rout.Net.{ip_equal, ipv4_zero}
use rout.Dhcp4d.Handler.{
  Lease, Handler, find_ip, expired, can_lease, lease_available, is_free, first_free, find_lease,
}
use rout.Dhcp4d.Serve.{is_minus_one}

-- What a number other than -1 from `canLease` means.
pub record Leasable (h : Handler) (now : ℕ) (hw : Bytes) (n : ℤ) : Type 0 where
  pub within : in_range n h.lease_range ≡ true
  pub available :
      (find_ip h n ≡ none)
      ⊎ ((l : Lease) × (find_ip h n ≡ some l) × ((l.hardware_addr ≡ hw) ⊎ (expired l now ≡ true)))

lease_available-Leasable :
    (h : Handler) (now : ℕ) (hw : Bytes) (n : ℤ)
    → in_range n h.lease_range ≡ true
    → is_minus_one (lease_available h now hw n (find_ip h n)) ≡ false
    → (lease_available h now hw n (find_ip h n) ≡ n) × Leasable h now hw n
unfolding lease_available
lease_available-Leasable h now hw n r e = elim (Option-cases (find_ip h n)) [
  | inl free ↦ rw (free, lease_available) (refl, record { within = r; available = inl free })
  | inr (l, taken) ↦ elim (Bytes-discrete l.hardware_addr hw) [
    | yes own ↦ (ground arith, record { within = r; available = inr (l, taken, inl own) })
    | no other ↦ elim (Bool-cases (expired l now)) [
      | inl old ↦ (ground arith, record { within = r; available = inr (l, taken, inr old) })
      | inr live ↦ absurd (ground arith)
    ]
  ]
]

module _ (ip_range : Bytes → Bytes → ℤ) (h : Handler) (now : ℕ) (req_ip hw : Bytes) where
  -- Any number but -1 is that of the address, in the range, and free, the client's own or expired.
  pub can_lease-Leasable :
      is_minus_one (can_lease ip_range h now req_ip hw) ≡ false
      → (can_lease ip_range h now req_ip hw ≡ pred_ℤ (ip_range h.start req_ip))
        × (length req_ip ≡ 4)
        × Leasable h now hw (pred_ℤ (ip_range h.start req_ip))
  unfolding can_lease
  can_lease-Leasable e =
      let n = pred_ℤ (ip_range h.start req_ip) in
      elim (Bool-cases (not (length req_ip == 4) || ip_equal req_ip ipv4_zero)) [
        | inl bad ↦ absurd (ground arith)
        | inr good ↦ elim (Bool-cases (in_range n h.lease_range)) [
          | inr out ↦ absurd (ground arith)
          | inl r ↦
              let (same, leasable) = lease_available-Leasable h now hw n r (ground arith) in
              (ground arith, ground arith, leasable)
        ]
      ]

  -- Conversely such a number is not refused.
  pub Leasable-can_lease :
      length req_ip ≡ 4
      → ip_equal req_ip ipv4_zero ≡ false
      → Leasable h now hw (pred_ℤ (ip_range h.start req_ip))
      → can_lease ip_range h now req_ip hw ≡ pred_ℤ (ip_range h.start req_ip)
  unfolding can_lease lease_available
  Leasable-can_lease four nonzero l = ground arith

module _ (h : Handler) (now : ℕ) where
  -- A number of a slot that is free, below `n`.
  abbrev pub IsFreeBelow : ℕ → ℤ → Type 0
  IsFreeBelow n r = (k : ℕ) × (r ≡ pos k) × (k < n) × (is_free h now (pos k) ≡ true)

  first_free-cases :
      (rounds i : ℕ)
      → ((first_free h now rounds i ≡ negsuc 0)
          × ((k : ℕ) → i ≤ k → k < i + rounds → is_free h now (pos k) ≡ false))
        ⊎ IsFreeBelow (i + rounds) (first_free h now rounds i)
  unfolding first_free
  first_free-cases zero i = inl (refl, λ k a b. absurd (omega arith))
  first_free-cases (suc rounds) i = elim (Bool-cases (is_free h now (pos i))) [
    | inl free ↦ inr (i, rw free, omega arith, free)
    | inr busy ↦ elim (first_free-cases rounds (i + 1)) [
      | inl (e, all) ↦ inl (
        rw busy e,
        λ k a b. elim (ℕ_discrete k i) [
          | yes p ↦ rw p busy
          | no p ↦ all k (omega arith) (omega arith)
        ],
      )
      | inr (k, e, lt, free) ↦ inr (k, rw busy e, omega arith, free)
    ]
  ]

  busy_taken : (n : ℤ) → is_free h now n ≡ false → find_ip h n ≢ none
  unfolding is_free
  busy_taken n e = ground arith

  pos_inj : (i j : ℕ) → pos i ≡ pos j → i ≡ j
  pos_inj i j e = cc

  -- While the map, its keys distinct, has fewer entries than the range, and the random number is in the
  -- range, `findLease` returns a number of the range that has no lease or an expired one.
  pub find_lease-free :
      (random : ℕ)
      → Distinct ℤ-discrete h.leases_ip
      → random < h.lease_range
      → length h.leases_ip < h.lease_range
      → IsFreeBelow h.lease_range (find_lease h now random)
  unfolding find_lease
  find_lease-free random d lt room = elim (Bool-cases (is_free h now (pos random))) [
    | inl free ↦ (random, rw (lt→ltb _ _ room, free), lt, free)
    | inr busy ↦ elim (first_free-cases h.lease_range 0) [
      | inr (k, e, below, free) ↦ (k, rw (lt→ltb _ _ room, busy) e, omega arith, free)
      | inl (e, all) ↦ absurd (
          omega (
            arith,
            le_length_of_keys ℤ-discrete pos pos_inj h.lease_range h.leases_ip d
                (λ i below. busy_taken (pos i) (all i (omega arith) (omega arith))),
          ))
    ]
  ]

  -- With at least as many entries as the range has numbers `findLease` returns -1, whatever has expired.
  pub find_lease_full :
      (random : ℕ) → h.lease_range ≤ length h.leases_ip → find_lease h now random ≡ negsuc 0
  unfolding find_lease
  find_lease_full random full = ground arith
