-- ===== src/Tests/Captured.antt =====
-- The packet buffer's theorems at a buffer that has gone round, and sessions that read it.
use rout.Base.{
  ℕ, ◌≡◌, ◌++◌, refl, arith, true, false, [], ◌∷◌, none, some, Bytes-discrete, text, if◌then◌else◌,
  length, ltb,
}
use rout.Captured.Buffer.{
  PacketRingBuffer, new_packet_ring_buffer, write_packet, write_packets, collect, packets_locked,
}
use rout.Captured.Session.{
  header, packet, message, Channel, Request, Outside, streaming, reply, capture_packets,
  send_packets, then_send, exec, request, last_byte, terminated, waiting, busy, refuse, respond,
  serve_requests, NewChannel, rejected, accepted, new_channel, handle_channel,
}
use rout.Captured.Replay.{Sends, Works, request-Sends, request-streams}

abbrev gone_round : PacketRingBuffer ℕ
gone_round = record { r = some 3 ∷ some 4 ∷ some 5 ∷ [] }

abbrev wire : Outside ℕ
wire = record {
  refuses = λ c. if c.closed then some (text "EOF") else none;
  quote = λ s. (34 ∷ []) ++ s ++ (34 ∷ []);
  new_ethernet_handle = λ ifname. none;
  set_bpf = λ ifname. none;
  live = 6 ∷ 7 ∷ [];
}

-- The channel breaks behind the second packet.
abbrev broken : Outside ℕ
broken = record wire { refuses = λ c. if ltb (length c.sent) 3 then none else some (text "EOF") }

abbrev capture : Request
capture = record { kind = text "exec"; want_reply = true; payload = 0 ∷ 0 ∷ 0 ∷ 0 ∷ [] }

abbrev shell : Request
shell = record { kind = text "shell"; want_reply = true; payload = [] }

abbrev session : NewChannel
session = record { channel_type = text "session"; accept_error = none }

streams_all :
    handle_channel wire session ((capture, gone_round) ∷ (shell, gone_round) ∷ [])
    ≡ accepted (
        busy (record {
          sent = header ∷ packet 3 ∷ packet 4 ∷ packet 5 ∷ packet 6 ∷ packet 7 ∷ [];
          replies = (true, []) ∷ [];
          closed = false;
        }))
unfolding handle_channel serve_requests respond request exec then_send send_packets capture_packets
    reply packets_locked collect Bytes-discrete
streams_all = refl

-- A request behind a refused one finds the channel closed, and fails as well.
refused_twice :
    serve_requests wire new_channel ((shell, gone_round) ∷ (capture, gone_round) ∷ [])
    ≡ waiting (record {
      sent = message (text "unknown request type: \"shell\"" ++ (10 ∷ [])) ∷ [];
      replies =
          (false, text "unknown request type: \"shell\"" ++ (10 ∷ []))
          ∷ (false, text "pcapw.WriteFileHeader: EOF" ++ (10 ∷ []))
          ∷ [];
      closed = true;
    })
unfolding serve_requests respond request exec refuse terminated last_byte reply Bytes-discrete
refused_twice = refl

port_forwarding_rejected :
    handle_channel wire (record session { channel_type = text "direct-tcpip" }) []
    ≡ rejected (text "unknown channel type: \"direct-tcpip\"")
unfolding handle_channel Bytes-discrete
port_forwarding_rejected = refl

request-Sends_example :
    Sends {P = ℕ} []
      (header ∷ packet 3 ∷ packet 4 ∷ packet 5 ∷ packet 6 ∷ packet 7 ∷ [])
      (request broken new_channel capture gone_round)
unfolding new_packet_ring_buffer write_packets write_packet
request-Sends_example =
    request-Sends broken 3 (1 ∷ 2 ∷ 3 ∷ 4 ∷ 5 ∷ []) gone_round new_channel capture (omega arith)
      refl refl (omega arith)

wire-Works : Works {P = ℕ} (record wire { refuses = λ c. none })
unfolding capture_packets
wire-Works = (λ c. refl, refl)

it_streams :
    (c : Channel ℕ) × (request (record wire { refuses = λ c. none }) new_channel capture gone_round
      ≡ streaming c)
it_streams =
    request-streams (record wire { refuses = λ c. none }) new_channel capture gone_round wire-Works
      refl (omega arith)
