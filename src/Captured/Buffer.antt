-- ===== src/Captured/Buffer.antt =====
-- cmd/captured/captured.go: `packetRingBuffer`.
use rout.Base.{ℕ, List, [], ◌∷◌, ◌++◌, Option, none, some, replicate}

-- A ring of container/ring, from the element that `r` points to; the empty list is the nil ring of size
-- 0, and `none` the nil value of a slot.
pub record PacketRingBuffer {ℓ} (P : Type ℓ) : Type ℓ where
  pub r : List (Option P)

module _ {ℓ} {P : Type ℓ} where
  unfoldable pub new_packet_ring_buffer : ℕ → PacketRingBuffer P
  new_packet_ring_buffer size = record { r = replicate size none }

  -- `writePacket`: `none` is the nil dereference of an empty ring.
  unfoldable pub write_packet : PacketRingBuffer P → P → Option (PacketRingBuffer P)
  write_packet prb p = elim prb.r [
    | [] ↦ none
    | _ ∷ rest ↦ some (record { r = rest ++ (some p ∷ []) })
  ]

  -- The loop of `logic` over the packets.
  unfoldable pub write_packets : PacketRingBuffer P → List P → Option (PacketRingBuffer P)
  write_packets prb [] = some prb
  write_packets prb (p ∷ ps) = elim (write_packet prb p) [
    | none ↦ none
    | some prb' ↦ write_packets prb' ps
  ]

  -- The function that `Do` calls for each slot.
  unfoldable pub collect : List (Option P) → List P
  collect [] = []
  collect (none ∷ slots) = collect slots
  collect (some p ∷ slots) = p ∷ collect slots

  unfoldable pub packets_locked : PacketRingBuffer P → List P
  packets_locked prb = collect prb.r
