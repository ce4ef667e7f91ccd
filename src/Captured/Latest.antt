-- ===== src/Captured/Latest.antt =====
-- The buffer holds the latest packets.
use rout.Base.{
  ℕ, zero, suc, ◌+◌, ◌-◌, ◌≡◌, ◌<◌, ◌∙◌, refl, ap, subst, List, [], ◌∷◌, ◌++◌, map, append_assoc,
  append-nil, Option, none, some, length, drop, replicate, length-append, arith,
}
use rout.Captured.Buffer.{
  PacketRingBuffer, new_packet_ring_buffer, write_packet, write_packets, collect, packets_locked,
}

module _ {ℓ} {P : Type ℓ} where
  -- A ring with `k` free slots, and then the packets `qs`.
  abbrev ring : ℕ → List P → PacketRingBuffer P
  ring k qs = record { r = replicate k none ++ map some qs }

  collect-map : (qs : List P) → collect (map some qs) ≡ qs
  unfolding collect
  collect-map [] = refl
  collect-map (q ∷ qs) = ap (◌∷◌ q) (collect-map qs)

  packets-ring : (k : ℕ) (qs : List P) → packets_locked (ring k qs) ≡ qs
  unfolding packets_locked collect
  packets-ring zero qs = collect-map qs
  packets-ring (suc k) qs = packets-ring k qs

  map-snoc : (qs : List P) (p : P) → map some qs ++ (some p ∷ []) ≡ map some (qs ++ (p ∷ []))
  map-snoc [] p = refl
  map-snoc (q ∷ qs) p = ap (◌∷◌ (some q)) (map-snoc qs p)

  write-free :
      (k : ℕ) (qs : List P) (p : P)
      → write_packet (ring (suc k) qs) p ≡ some (ring k (qs ++ (p ∷ [])))
  unfolding write_packet
  write-free k qs p =
      ap (λ (s : List (Option P)). some (record { r = s }))
        (append_assoc (replicate k none) (map some qs) (some p ∷ [])
          ∙ ap (λ (s : List (Option P)). replicate k none ++ s) (map-snoc qs p))

  write-full :
      (q : P) (qs : List P) (p : P)
      → write_packet (ring zero (q ∷ qs)) p ≡ some (ring zero (qs ++ (p ∷ [])))
  unfolding write_packet
  write-full q qs p = ap (λ (s : List (Option P)). some (record { r = s })) (map-snoc qs p)

  -- What a ring of `n` slots holds after the packets `all`.
  abbrev pub Holds : Option (PacketRingBuffer P) → ℕ → List P → Type ℓ
  Holds o n all =
      (prb : PacketRingBuffer P) × (o ≡ some prb) × (packets_locked prb ≡ drop (length all - n) all)

  write_packets-cons :
      (prb prb' : PacketRingBuffer P) (p : P) (ps : List P)
      → write_packet prb p ≡ some prb'
      → write_packets prb (p ∷ ps) ≡ write_packets prb' ps
  unfolding write_packets
  write_packets-cons prb prb' p ps e = rw (e, write_packets) refl

  dropped-full :
      (q : P) (qs : List P) (p : P) (ps : List P)
      → drop
          (length ((qs ++ (p ∷ [])) ++ ps) - (0 + length (qs ++ (p ∷ []))))
          ((qs ++ (p ∷ [])) ++ ps)
        ≡ drop (suc (length (qs ++ (p ∷ ps))) - (0 + suc (length qs))) (q ∷ (qs ++ (p ∷ ps)))
  dropped-full q qs p ps =
      let rest = qs ++ (p ∷ ps) in
      let more : suc (length rest) - (0 + suc (length qs))
          ≡ suc (length rest - (0 + length (qs ++ (p ∷ [])))) =
        omega (arith, length-append qs (p ∷ []), length-append qs (p ∷ ps)) in
      rw (append_assoc qs (p ∷ []) ps, more) refl

  dropped-free :
      (k : ℕ) (qs : List P) (p : P) (ps : List P)
      → drop
          (length ((qs ++ (p ∷ [])) ++ ps) - (k + length (qs ++ (p ∷ []))))
          ((qs ++ (p ∷ [])) ++ ps)
        ≡ drop (length (qs ++ (p ∷ ps)) - (suc k + length qs)) (qs ++ (p ∷ ps))
  dropped-free k qs p ps =
      let rest = qs ++ (p ∷ ps) in
      let same : length rest - (suc k + length qs) ≡ length rest - (k + length (qs ++ (p ∷ []))) =
        omega (arith, length-append qs (p ∷ [])) in
      rw (append_assoc qs (p ∷ []) ps, same) refl

  Holds-from :
      (k : ℕ) (qs ps : List P)
      → 0 < k + length qs
      → Holds (write_packets (ring k qs) ps) (k + length qs) (qs ++ ps)
  unfolding write_packets
  Holds-from k qs [] pos = (
    ring k qs,
    refl,
    packets-ring k qs
        ∙ rw (append-nil qs)
            (let none_over : length qs - (k + length qs) ≡ 0 = omega arith in rw none_over refl),
  )
  Holds-from zero [] (p ∷ ps) pos = absurd (omega arith)
  Holds-from zero (q ∷ qs) (p ∷ ps) pos =
      let (prb, wrote, is) =
        Holds-from zero (qs ++ (p ∷ [])) ps (omega (arith, length-append qs (p ∷ []))) in
      (prb, write_packets-cons _ _ p ps (write-full q qs p) ∙ wrote, is ∙ dropped-full q qs p ps)
  Holds-from (suc k) qs (p ∷ ps) pos =
      let (prb, wrote, is) =
        Holds-from k (qs ++ (p ∷ [])) ps (omega (arith, length-append qs (p ∷ []))) in
      (prb, write_packets-cons _ _ p ps (write-free k qs p) ∙ wrote, is ∙ dropped-free k qs p ps)

  -- After any number of packets the buffer of `size` slots, at least one, holds the latest `size` of
  -- them, or all if there were fewer, oldest first.
  pub packets-latest :
      (size : ℕ) (ps : List P)
      → 0 < size
      → Holds (write_packets (new_packet_ring_buffer size) ps) size ps
  unfolding new_packet_ring_buffer
  packets-latest size ps pos =
      let (prb, wrote, is) = Holds-from size [] ps (omega arith) in
      (
        prb,
        subst (λ (s : List (Option P)). write_packets (record { r = s }) ps ≡ some prb)
            (append-nil (replicate size none)) wrote,
        is ∙ (let whole : length ps - (size + 0) ≡ length ps - size = omega arith in rw whole refl),
      )
