-- ===== src/Captured/Session.antt =====
-- cmd/captured/ssh.go: `handleChannel` and `session.request`, with `capturePackets` of captured.go.
use rout.Base.{
  ℕ, ◌==◌, ltb, if◌then◌else◌, Bool, true, false, not, List, [], ◌∷◌, ◌++◌, Option, none, some,
  Bytes, length, text,
}
use rout.Net.{bytes_eq}
use rout.Strings.{format_decimal}
use rout.Captured.Buffer.{PacketRingBuffer, packets_locked}

-- What is written to a channel: the header of a pcap file, a packet, or text.
pub data Written {ℓ} (P : Type ℓ) : Type ℓ where
  header : Written P
  packet : P → Written P
  message : Bytes → Written P

-- An `ssh.Channel`: what was written, the replies to requests that want one, and whether it is closed.
pub record Channel {ℓ} (P : Type ℓ) : Type ℓ where
  pub sent : List (Written P)
  pub replies : List (Bool × Bytes)
  pub closed : Bool

pub record Request : Type 0 where
  pub kind : Bytes
  pub want_reply : Bool
  pub payload : Bytes

-- What the session calls: whether a write fails, `%q`, and the capture on the interfaces, with its
-- errors and the packets that have come so far.
pub record Outside {ℓ} (P : Type ℓ) : Type ℓ where
  pub refuses : Channel P → Option Bytes
  pub quote : Bytes → Bytes
  pub new_ethernet_handle : Bytes → Option Bytes
  pub set_bpf : Bytes → Option Bytes
  pub live : List P

-- How `request` goes on: it waits for the next packet, or it has returned an error.
pub data Progress {ℓ} (P : Type ℓ) : Type ℓ where
  streaming : Channel P → Progress P
  failed : Channel P → Bytes → Progress P

abbrev pub put {ℓ} : {P : Type ℓ} → Channel P → Written P → Channel P
put c f = record c { sent = c.sent ++ (f ∷ []) }

module _ {ℓ} {P : Type ℓ} (o : Outside P) where
  -- `req.Reply`
  unfoldable pub reply : Channel P → Request → Bool → Bytes → Channel P
  reply c req ok answer =
      if req.want_reply then record c { replies = c.replies ++ ((ok, answer) ∷ []) } else c

  -- The loop over the interfaces: the error that ends it.
  unfoldable pub capture_packets : List Bytes → Option Bytes
  capture_packets [] = none
  capture_packets (ifname ∷ rest) = elim (o.new_ethernet_handle ifname) [
    | some e ↦ some (text "pcapgo.NewEthernetHandle(" ++ ifname ++ text "): " ++ e)
    | none ↦ elim (o.set_bpf ifname) [
      | some e ↦ some (text "SetBPF: " ++ e)
      | none ↦ capture_packets rest
    ]
  ]

  -- The loops over `buffered` and `packets`; the channel of packets is never closed.
  unfoldable pub send_packets : Channel P → List P → Progress P
  send_packets c [] = streaming c
  send_packets c (p ∷ rest) = elim (o.refuses c) [
    | some e ↦ failed c (text "pcap.WritePacket(): " ++ e)
    | none ↦ send_packets (put c (packet p)) rest
  ]

  unfoldable pub then_send : Progress P → List P → Progress P
  then_send (streaming c) ps = send_packets c ps
  then_send (failed c e) ps = failed c e

  -- The capture starts and the buffer is read under one lock.
  unfoldable pub exec : Channel P → Request → PacketRingBuffer P → Progress P
  exec c req prb = elim (o.refuses c) [
    | some e ↦ failed c (text "pcapw.WriteFileHeader: " ++ e)
    | none ↦ elim (capture_packets (text "uplink0" ∷ text "lan0" ∷ [])) [
      | some e ↦ failed (put c header) (text "capturePackets: " ++ e)
      | none ↦
          then_send (send_packets (reply (put c header) req true []) (packets_locked prb)) o.live
    ]
  ]

  unfoldable pub request : Channel P → Request → PacketRingBuffer P → Progress P
  request c req prb =
      if not (bytes_eq req.kind (text "exec"))
      then failed c (text "unknown request type: " ++ o.quote req.kind)
      else if ltb (length req.payload) 4
      then failed c (
          text "exec request payload too short: got "
          ++ format_decimal (length req.payload)
          ++ text ", want >= 4")
      else exec c req prb

-- The last byte of an error's text; `none` is the index out of range for an empty one.
unfoldable pub last_byte : Bytes → Option ℕ
last_byte [] = none
last_byte (b ∷ []) = some b
last_byte (b ∷ c ∷ rest) = last_byte (c ∷ rest)

-- `errmsg`, which ends with a newline.
unfoldable pub terminated : Bytes → Option Bytes
terminated e = elim (last_byte e) [
  | none ↦ none
  | some b ↦ some (if b == 10 then e else e ++ (10 ∷ []))
]

-- Where a channel's goroutine is: waiting for a request, in one that streams, or at a panic.
pub data Session {ℓ} (P : Type ℓ) : Type ℓ where
  waiting : Channel P → Session P
  busy : Channel P → Session P
  panics : Session P

module _ {ℓ} {P : Type ℓ} (o : Outside P) where
  -- What follows an error of `request`; a failing write of its text is not looked at.
  unfoldable pub refuse : Channel P → Request → Bytes → Session P
  refuse c req e = elim (terminated e) [
    | none ↦ panics
    | some errmsg ↦
        let c' = reply o c req false errmsg in
        let written : Channel P = elim (o.refuses c') [
          | some _ ↦ c'
          | none ↦ put c' (message errmsg)
        ] in
        waiting (record written { closed = true })
  ]

  unfoldable pub respond : Channel P → Request → PacketRingBuffer P → Session P
  respond c req prb = elim (request o c req prb) [
    | streaming c' ↦ busy c'
    | failed c' e ↦ refuse c' req e
  ]

  -- The loop over the requests, with the buffer as each finds it.
  unfoldable pub serve_requests : Channel P → List (Request × PacketRingBuffer P) → Session P
  serve_requests c [] = waiting c
  serve_requests c ((req, prb) ∷ rest) = elim (respond c req prb) [
    | waiting c' ↦ serve_requests c' rest
    | busy c' ↦ busy c'
    | panics ↦ panics
  ]

-- An `ssh.NewChannel`: its type, and the error of `Accept`.
pub record NewChannel : Type 0 where
  pub channel_type : Bytes
  pub accept_error : Option Bytes

pub data Handled {ℓ} (P : Type ℓ) : Type ℓ where
  rejected : Bytes → Handled P
  not_accepted : Handled P
  accepted : Session P → Handled P

abbrev pub new_channel {ℓ} : {P : Type ℓ} → Channel P
new_channel = record { sent = []; replies = []; closed = false }

unfoldable pub handle_channel {ℓ} :
    {P : Type ℓ} → Outside P → NewChannel → List (Request × PacketRingBuffer P) → Handled P
handle_channel o ch requests =
    if not (bytes_eq ch.channel_type (text "session"))
    then rejected (text "unknown channel type: " ++ o.quote ch.channel_type)
    else elim ch.accept_error [
      | some e ↦ not_accepted
      | none ↦ accepted (serve_requests o new_channel requests)
    ]
