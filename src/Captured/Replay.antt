-- ===== src/Captured/Replay.antt =====
-- What a session sends to its client.
use rout.Base.{
  ℕ, ◌≡◌, ◌<◌, ◌≤◌, refl, sym, ap, ◌∙◌, inl, inr, Bool, true, false, Bool-cases, Option-cases, List,
  [], ◌∷◌, ◌++◌, subst, append_assoc, append-nil, none, some, Bytes, Bytes-discrete, length, drop,
  text, map, arith, ◌-◌, ltb,
}
use rout.Captured.Buffer.{PacketRingBuffer, new_packet_ring_buffer, write_packets, packets_locked}
use rout.Captured.Latest.{packets-latest}
use rout.Net.{bytes_eq}
use rout.Captured.Session.{
  Written, header, packet, Channel, Request, Outside, Progress, streaming, failed, put, reply,
  capture_packets, send_packets, then_send, exec, request,
}

module _ {ℓ} {P : Type ℓ} where
  -- A session that still streams has sent all of `frames` behind `before`, and one that has failed a
  -- beginning of them.
  unfoldable pub Sends : List (Written P) → List (Written P) → Progress P → Type ℓ
  Sends before frames (streaming c) = c.sent ≡ before ++ frames
  Sends before frames (failed c e) = (rest : List (Written P)) × (c.sent ++ rest ≡ before ++ frames)

  Sends-append :
      (before fs gs : List (Written P)) (p : Progress P)
      → Sends (before ++ fs) gs p
      → Sends before (fs ++ gs) p
  unfolding Sends
  Sends-append before fs gs (streaming c) s = s ∙ append_assoc before fs gs
  Sends-append before fs gs (failed c e) (rest, s) = (rest, s ∙ append_assoc before fs gs)

  Sends-all :
      (before fs : List (Written P)) (c : Channel P)
      → Sends before fs (streaming c)
      → c.sent ≡ before ++ fs
  unfolding Sends
  Sends-all before fs c s = s

  -- A failure within `fs` is one within all that was to follow.
  Sends-fewer :
      (before fs gs : List (Written P)) (c : Channel P) (e : Bytes)
      → Sends before fs (failed c e)
      → Sends before (fs ++ gs) (failed c e)
  unfolding Sends
  Sends-fewer before fs gs c e (rest, s) = (
    rest ++ gs,
    sym (append_assoc c.sent rest gs) ∙ ap (λ l. l ++ gs) s ∙ append_assoc before fs gs,
  )

  module _ (o : Outside P) where
    send_packets-refused :
        (c : Channel P) (p : P) (ps : List P) (e : Bytes)
        → o.refuses c ≡ some e
        → send_packets o c (p ∷ ps) ≡ failed c (text "pcap.WritePacket(): " ++ e)
    unfolding send_packets
    send_packets-refused c p ps e bad = rw (bad, send_packets) refl

    send_packets-sent :
        (c : Channel P) (p : P) (ps : List P)
        → o.refuses c ≡ none
        → send_packets o c (p ∷ ps) ≡ send_packets o (put c (packet p)) ps
    unfolding send_packets
    send_packets-sent c p ps fine = rw (fine, send_packets) refl

    send_packets-Sends :
        (c : Channel P) (ps : List P) → Sends c.sent (map packet ps) (send_packets o c ps)
    unfolding send_packets Sends
    send_packets-Sends c [] = sym (append-nil c.sent)
    send_packets-Sends c (p ∷ ps) = elim (Option-cases (o.refuses c)) [
      | inr (e, bad) ↦ rw (send_packets-refused c p ps e bad) (map packet (p ∷ ps), refl)
      | inl fine ↦ rw (send_packets-sent c p ps fine) (
          Sends-append c.sent (packet p ∷ []) (map packet ps) (send_packets o (put c (packet p)) ps)
            (send_packets-Sends (put c (packet p)) ps))
    ]

    then_send-Sends :
        (before fs : List (Written P)) (q : Progress P) (ps : List P)
        → Sends before fs q
        → Sends before (fs ++ map packet ps) (then_send o q ps)
    unfolding then_send
    then_send-Sends before fs (failed c e) ps s = Sends-fewer before fs (map packet ps) c e s
    then_send-Sends before fs (streaming c) ps s =
        Sends-append before fs (map packet ps) (send_packets o c ps) (
          subst (λ (b : List (Written P)). Sends b (map packet ps) (send_packets o c ps))
            (Sends-all before fs c s) (send_packets-Sends c ps))

    reply-sent :
        (c : Channel P) (req : Request) (ok : Bool) (a : Bytes) → (reply o c req ok a).sent ≡ c.sent
    unfolding reply
    reply-sent c req ok a = elim (Bool-cases req.want_reply) [
      | inl wanted ↦ rw wanted refl
      | inr unwanted ↦ rw unwanted refl
    ]

    -- What a session shows: the file header, the packets of the buffer, and those that come later.
    abbrev pub shown : PacketRingBuffer P → List (Written P)
    shown prb = header ∷ (map packet (packets_locked prb) ++ map packet o.live)

    replay-Sends :
        (c : Channel P) (req : Request) (prb : PacketRingBuffer P)
        → Sends c.sent (shown prb) (
            then_send o
              (send_packets o (reply o (put c header) req true []) (packets_locked prb))
              o.live)
    replay-Sends c req prb =
        let start = reply o (put c header) req true [] in
        let buffered = packets_locked prb in
        let all = then_send o (send_packets o start buffered) o.live in
        Sends-append c.sent (header ∷ []) (map packet buffered ++ map packet o.live) all (
          then_send-Sends (c.sent ++ (header ∷ [])) (map packet buffered)
            (send_packets o start buffered) o.live
            (subst
              (λ (b : List (Written P)).
                Sends b (map packet buffered) (send_packets o start buffered))
              (reply-sent (put c header) req true []) (send_packets-Sends start buffered)))

    exec-Sends :
        (c : Channel P) (req : Request) (prb : PacketRingBuffer P)
        → Sends c.sent (shown prb) (exec o c req prb)
    unfolding Sends exec
    exec-Sends c req prb = elim (Option-cases (o.refuses c)) [
      | inr (e, bad) ↦ rw (bad, exec) (shown prb, refl)
      | inl fine ↦ elim (Option-cases (capture_packets o (text "uplink0" ∷ text "lan0" ∷ []))) [
        | inr (e, bad) ↦
            rw (fine, bad, exec)
              (
                map packet (packets_locked prb) ++ map packet o.live,
                append_assoc c.sent (header ∷ []) _,
              )
        | inl captures ↦ rw (fine, captures, exec) (replay-Sends c req prb)
      ]
    ]

    request-exec :
        (c : Channel P) (req : Request) (prb : PacketRingBuffer P)
        → req.kind ≡ text "exec"
        → 4 ≤ length req.payload
        → request o c req prb ≡ exec o c req prb
    unfolding request Bytes-discrete
    request-exec c req prb kind long =
        let known : bytes_eq req.kind (text "exec") ≡ true = rw kind refl in
        let enough : ltb (length req.payload) 4 ≡ false = ground arith in rw (known, enough) refl

    -- An exec request with at least four bytes of payload sends the file header, then the latest packets of
    -- all that were written to the buffer of `size` slots, oldest first, then those that have been captured
    -- since: all of them while it streams, and if a write or the capture fails, a beginning of them.
    pub request-Sends :
        (size : ℕ) (ps : List P) (prb : PacketRingBuffer P) (c : Channel P) (req : Request)
        → 0 < size
        → write_packets (new_packet_ring_buffer size) ps ≡ some prb
        → req.kind ≡ text "exec"
        → 4 ≤ length req.payload
        → Sends c.sent
            (header ∷ (map packet (drop (length ps - size) ps) ++ map packet o.live))
            (request o c req prb)
    request-Sends size ps prb c req pos wrote kind long =
        let (prb', wrote', latest) = packets-latest size ps pos in
        let same : prb ≡ prb' = cc in
        let held : packets_locked prb ≡ drop (length ps - size) ps =
          ap packets_locked same ∙ latest in
        rw (request-exec c req prb kind long) (
          subst
            (λ (l : List P).
              Sends c.sent (header ∷ (map packet l ++ map packet o.live)) (exec o c req prb))
            held (exec-Sends c req prb))

    -- Neither the channel nor the capture fails.
    abbrev pub Works : Type ℓ
    Works =
        ((c : Channel P) → o.refuses c ≡ none)
        × (capture_packets o (text "uplink0" ∷ text "lan0" ∷ []) ≡ none)

    send_packets-streams :
        (c : Channel P) (ps : List P)
        → Works
        → (c' : Channel P) × (send_packets o c ps ≡ streaming c')
    unfolding send_packets
    send_packets-streams c [] works = (c, refl)
    send_packets-streams c (p ∷ ps) works =
        rw (send_packets-sent c p ps (works.0 c)) (send_packets-streams (put c (packet p)) ps works)

    exec-streams :
        (c : Channel P) (req : Request) (prb : PacketRingBuffer P)
        → Works
        → (c' : Channel P) × (exec o c req prb ≡ streaming c')
    unfolding exec then_send
    exec-streams c req prb works =
        let (c', buffered) =
          send_packets-streams (reply o (put c header) req true []) (packets_locked prb) works in
        rw (works.0 c, works.1, buffered, exec, then_send) (send_packets-streams c' o.live works)

    -- If neither the channel nor the capture fails, an exec request with at least four bytes of payload
    -- goes on to stream.
    pub request-streams :
        (c : Channel P) (req : Request) (prb : PacketRingBuffer P)
        → Works
        → req.kind ≡ text "exec"
        → 4 ≤ length req.payload
        → (c' : Channel P) × (request o c req prb ≡ streaming c')
    request-streams c req prb works kind long =
        rw (request-exec c req prb kind long) (exec-streams c req prb works)
