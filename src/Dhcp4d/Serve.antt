-- ===== src/Dhcp4d/Serve.antt =====
-- dhcp/dhcp4d/dhcp4d.go: `serveDHCP` and `ServeDHCP`.
use rout.Base.{
  ℕ, ◌+◌, ◌==◌, if◌then◌else◌, Bool, false, not, [], ◌∷◌, Option, none, some, Bytes, Bytes-discrete,
  ℤ, pos, negsuc, ℤ-discrete, lookup, insert, delete, ℕ_discrete, replicate,
}
use rout.Net.{bytes_eq, to4, ip_equal, ipv4_zero, ipv4_bcast, copy, mac_string}
use rout.Dhcp4d.Quirks.{lease_period_for_device}
use rout.Dhcp4d.Handler.{
  Lease, Options, Handler, is_zero, expired, call_leases, find_lease, can_lease, lease_hw,
  expire_lease,
}

-- `dhcp4.MessageType`
pub data MessageType : Type 0 where
  discover offer request decline ack nak release inform : MessageType
  other : ℕ → MessageType

-- What the accessors of a `dhcp4.Packet` return.
pub record Packet : Type 0 where
  pub ci_addr : Bytes
  pub ch_addr : Bytes
  pub broadcast : Bool

-- The arguments of a call of `dhcp4.ReplyPacket` behind the packet; `[]` is a nil address.
pub record Reply : Type 0 where
  pub message_type : MessageType
  pub server_id : Bytes
  pub your_ip : Bytes
  pub lease_duration : ℕ
  pub options : Options

-- What the code calls of github.com/krolaw/dhcp4.
pub record DhcpLibrary : Type 0 where
  pub ip_range : Bytes → Bytes → ℤ
  pub ip_add : Bytes → ℤ → Bytes
  pub select_order_or_all : Options → Option Bytes → Options
  pub reply_yi_addr : Packet → Reply → Bytes

-- What one call of `serveDHCP` reads from its surroundings: the clock at each of its readings, and
-- the random number.
pub record Ambient : Type 0 where
  pub can_lease_now : ℕ
  pub lease_now : ℕ
  pub find_now : ℕ
  pub random : ℕ

-- `options[code]`
abbrev pub option : ℕ → Options → Option Bytes
option code options = lookup ℕ_discrete code options

abbrev option_or_nil : Option Bytes → Bytes
option_or_nil none = []
option_or_nil (some b) = b

abbrev pub requested_ip : Packet → Option Bytes → Bytes
requested_ip p none = p.ci_addr
requested_ip p (some ip) = ip

-- `ok && !net.IP(server).Equal(h.serverIP)`
abbrev pub for_other_server : Handler → Option Bytes → Bool
for_other_server h none = false
for_other_server h (some server) = not (ip_equal server h.server_ip)

abbrev pub is_minus_one : ℤ → Bool
is_minus_one (pos n) = false
is_minus_one (negsuc n) = n == 0

-- What a new lease takes over from the client's previous one.
unfoldable pub inherit : Lease → Lease → Lease
inherit lease l =
    let kept =
      if is_zero l.expiry then record lease { expiry = 0; hostname = l.hostname } else lease in
    if not (bytes_eq l.hostname_override [])
    then record kept { hostname = l.hostname_override; hostname_override = l.hostname_override }
    else kept

-- The two cases of `h.leaseHW(lease.HardwareAddr)` on the way to an acknowledgement: the lease to
-- store, and the database without the client's previous lease.
unfoldable pub inherit_from : Lease → Option Lease → Lease
inherit_from lease none = lease
inherit_from lease (some l) = inherit lease l

unfoldable pub release_old : Handler → Option Lease → Handler
release_old h none = h
release_old h (some l) = record h { leases_ip = delete ℤ-discrete l.num h.leases_ip }

unfoldable pub store_lease : Handler → ℤ → Lease → Handler
store_lease h lease_num lease =
    call_leases
      (record h {
        leases_ip = insert ℤ-discrete lease_num lease h.leases_ip;
        leases_hw = insert Bytes-discrete lease.hardware_addr lease_num h.leases_hw;
      })
      lease

-- "offer previous lease for this HardwareAddr, if any", over the number chosen so far.
unfoldable pub prefer_previous : Option Lease → ℕ → ℤ → ℤ
prefer_previous none now free = free
prefer_previous (some lease) now free = if not (expired lease now) then lease.num else free

-- The Ethernet frame of `ServeDHCP`, with the fields that the code sets.
pub record Frame : Type 0 where
  pub dst_mac : Bytes
  pub src_mac : Bytes
  pub src_ip : Bytes
  pub dst_ip : Bytes
  pub ttl : ℕ
  pub src_port : ℕ
  pub dst_port : ℕ
  pub payload : Reply

module _ (lib : DhcpLibrary) where
  -- The lease that is offered: the requested address, then overridden by a previous lease of the
  -- client, or any free one.
  unfoldable pub choose_offer : Handler → Ambient → Bytes → Bytes → ℤ
  choose_offer h a req_ip hw_addr =
      let requested =
        if not (ip_equal (to4 req_ip) ipv4_zero)
        then can_lease lib.ip_range h a.can_lease_now req_ip hw_addr
        else negsuc 0 in
      let free = prefer_previous (lease_hw h hw_addr) a.lease_now requested in
      if is_minus_one free then find_lease h a.find_now a.random else free

  abbrev pub offer_reply : Handler → Bytes → Options → ℤ → Reply
  offer_reply h hw_addr options free = record {
    message_type = offer;
    server_id = h.server_ip;
    your_ip = lib.ip_add h.start free;
    lease_duration = lease_period_for_device h.lease_period hw_addr;
    options = lib.select_order_or_all h.options (option 55 options);
  }

  unfoldable pub serve_discover :
      Handler → Ambient → Packet → Bytes → Bytes → Options → Handler × Option Reply
  serve_discover h a p req_ip hw_addr options =
      let free = choose_offer h a req_ip hw_addr in
      if is_minus_one free then (h, none) else (h, some (offer_reply h hw_addr options free))

  -- The lease of a `DHCPREQUEST`, before it takes over from the previous one.
  unfoldable pub new_lease : Handler → Ambient → Bytes → Bytes → Options → ℤ → Lease
  new_lease h a req_ip hw_addr options lease_num = record {
    num = lease_num;
    addr = copy (replicate 4 0) (to4 req_ip);
    hardware_addr = hw_addr;
    hostname = option_or_nil (option 12 options);
    hostname_override = [];
    expiry = a.lease_now + lease_period_for_device h.lease_period hw_addr;
  }

  abbrev pub ack_reply : Handler → Bytes → Bytes → Options → Reply
  ack_reply h req_ip hw_addr options = record {
    message_type = ack;
    server_id = h.server_ip;
    your_ip = req_ip;
    lease_duration = lease_period_for_device h.lease_period hw_addr;
    options = lib.select_order_or_all h.options (option 55 options);
  }

  -- The tail of the case of `dhcp4.Request`, once an address is found.
  unfoldable pub acknowledge :
      Handler → Ambient → Bytes → Bytes → Options → ℤ → Handler × Option Reply
  acknowledge h a req_ip hw_addr options lease_num =
      let previous = lease_hw h hw_addr in
      let lease = inherit_from (new_lease h a req_ip hw_addr options lease_num) previous in
      (
        store_lease (release_old h previous) lease_num lease,
        some (ack_reply h req_ip hw_addr options),
      )

  abbrev pub refusal : Handler → Reply
  refusal h = record {
    message_type = nak;
    server_id = h.server_ip;
    your_ip = [];
    lease_duration = 0;
    options = [];
  }

  unfoldable pub serve_request :
      Handler → Ambient → Bytes → Bytes → Options → Handler × Option Reply
  serve_request h a req_ip hw_addr options =
      let lease_num = can_lease lib.ip_range h a.can_lease_now req_ip hw_addr in
      if for_other_server h (option 54 options)
      then (h, none)
      else if is_minus_one lease_num
      then (h, some (refusal h))
      else acknowledge h a req_ip hw_addr options lease_num

  -- The switch of `serveDHCP` over the message type.
  unfoldable pub dispatch :
      Handler → Ambient → Packet → Bytes → Bytes → MessageType → Options → Handler × Option Reply
  dispatch h a p req_ip hw_addr discover options = serve_discover h a p req_ip hw_addr options
  dispatch h a p req_ip hw_addr request options = serve_request h a req_ip hw_addr options
  dispatch h a p req_ip hw_addr decline options = ((expire_lease h a.lease_now hw_addr).0, none)
  dispatch h a p req_ip hw_addr _ options = (h, none)

  unfoldable pub serve_dhcp :
      Handler → Ambient → Packet → MessageType → Options → Handler × Option Reply
  serve_dhcp h a p msg_type options =
      dispatch h a p (requested_ip p (option 50 options)) (mac_string p.ch_addr) msg_type options

  abbrev pub frame_for : Handler → Packet → Reply → Frame
  frame_for h p reply = record {
    dst_mac = if p.broadcast then 255 ∷ 255 ∷ 255 ∷ 255 ∷ 255 ∷ 255 ∷ [] else p.ch_addr;
    src_mac = h.iface_hardware_addr;
    src_ip = h.server_ip;
    dst_ip = if p.broadcast then ipv4_bcast else lib.reply_yi_addr p reply;
    ttl = 255;
    src_port = 67;
    dst_port = 68;
    payload = reply;
  }

  -- `ServeDHCP`: the new state and the frame that is written, if any.
  unfoldable pub serve : Handler → Ambient → Packet → MessageType → Options → Handler × Option Frame
  serve h a p msg_type options =
      let (h', reply) = serve_dhcp h a p msg_type options in
      (h', elim reply [ none ↦ none | some r ↦ some (frame_for h p r) ])
