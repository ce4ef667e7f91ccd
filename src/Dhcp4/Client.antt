-- ===== src/Dhcp4/Client.antt =====
-- dhcp/dhcp4/dhcp4.go: `Client` and its methods.
use rout.Base.{
  ℕ, ◌+◌, ◌==◌, if◌then◌else◌, Bool, true, false, not, List, [], ◌∷◌, ◌++◌, Option, none, some,
  Bytes, length, map,
}

-- An error value: the `EAGAIN` of a deadline, `errNAK`, the missing interface, or another one.
pub data Error : Type 0 where
  again err_nak no_interface : Error
  failed : Bytes → Error

pub record DhcpOption : Type 0 where
  pub kind : ℕ
  pub content : Bytes

-- The fields of `layers.DHCPv4` that the client reads or sets to anything but a constant.
pub record Packet : Type 0 where
  pub xid : ℕ
  pub client_ip : Bytes
  pub your_client_ip : Bytes
  pub client_hw_addr : Bytes
  pub options : List DhcpOption

-- What `dhcp4.LeaseFromACK` returns.
pub record AckLease : Type 0 where
  pub netmask : Bytes
  pub router : Bytes
  pub dns : List Bytes
  pub renewal_time : ℕ

pub data MessageType : Type 0 where
  discover offer request ack nak release : MessageType

-- What the code calls of github.com/rtr7/dhcp4 and gopacket; `ip_string` is `net.IP.String`, and
-- `mask_string` the format "%d.%d.%d.%d".
pub record DhcpLibrary : Type 0 where
  pub message_type_opt : MessageType → DhcpOption
  pub hostname_opt : Bytes → DhcpOption
  pub client_id_opt : Bytes → DhcpOption
  pub params_request_opt : List ℕ → DhcpOption
  pub request_ip_opt : Bytes → DhcpOption
  pub has_message_type : List DhcpOption → MessageType → Bool
  pub lease_from_ack : Packet → AckLease
  pub ip_string : Bytes → Bytes
  pub mask_string : ℕ → ℕ → ℕ → ℕ → Bytes

pub record Config : Type 0 where
  pub renew_after : ℕ
  pub client_ip : Bytes
  pub subnet_mask : Bytes
  pub router : Bytes
  pub dns : List Bytes

-- `c.err`: the error of the setup, the timeout text, or "DHCP: %v".
pub data ClientError : Type 0 where
  permanent : Error → ClientError
  unreachable : ClientError
  dhcp_error : Error → ClientError

-- `interface` holds the hardware address of `c.Interface`; `none` is a nil pointer or slice.
pub record Client : Type 0 where
  pub interface : Option Bytes
  pub hw_addr : Option Bytes
  pub err : Option ClientError
  pub once_done : Bool
  pub once_err : Option Error
  pub connected : Bool
  pub hardware_addr : Option Bytes
  pub hostname : Bytes
  pub cfg : Config
  pub ack : Option Packet

-- One return of `dhcp4.Read`: an error, nothing for a packet that is not DHCPv4, or a packet.
pub data Read : Type 0 where
  read_error : Error → Read
  not_dhcp : Read
  received : Packet → Read

-- What one call meets: the setup's system calls, the transaction id, the results of the two writes,
-- and what arrives before each deadline, after which `Read` returns `EAGAIN`.
pub record Network : Type 0 where
  pub listen_error : Option Error
  pub uname_error : Option Error
  pub nodename : Bytes
  pub new_xid : ℕ
  pub discover_error : Option Error
  pub after_discover : List Read
  pub request_error : Option Error
  pub after_request : List Read
  pub now : ℕ

pub data Result {ℓ} (A : Type ℓ) : Type ℓ where
  ok : A → Result A
  err : Error → Result A

infixl 5 ◌>>=◌
abbrev pub ◌>>=◌ {ℓ κ} : {A : Type ℓ} {B : Type κ} → Result A → (A → Result B) → Result B
ok a >>= f = f a
err e >>= f = err e

-- The error of a call that returns only an error.
abbrev pub check : Option Error → Result (Unit {0})
check none = ok tt
check (some e) = err e

infixl 5 ◌>>◌
abbrev pub ◌>>◌ {ℓ} : {B : Type ℓ} → Result (Unit {0}) → Result B → Result B
m >> k = m >>= λ _. k

-- `serverID`: the first server identifier, option 54.
unfoldable pub server_id : List DhcpOption → List DhcpOption
server_id [] = []
server_id (o ∷ rest) = if o.kind == 54 then o ∷ [] else server_id rest

abbrev pub hardware_addr_or_nil : Option Bytes → Bytes
hardware_addr_or_nil none = []
hardware_addr_or_nil (some hw) = hw

-- `c.packet`
abbrev pub packet : Client → ℕ → List DhcpOption → Packet
packet c xid opts = record {
  xid = xid;
  client_ip = [];
  your_client_ip = [];
  client_hw_addr = hardware_addr_or_nil c.hardware_addr;
  options = opts;
}

-- The connection: opened on the interface unless there is one, and the error if there is neither.
open_connection : Client → Network → Result Client
open_connection c n = if c.connected then ok c else elim c.interface [
  | none ↦ err no_interface
  | some _ ↦ check n.listen_error >> ok (record c { connected = true })
]

abbrev first_some : Option Bytes → Option Bytes → Option Bytes
first_some none b = b
first_some (some a) b = some a

-- The hardware address: kept, or that of the configuration, or that of the interface; `none` is the
-- nil dereference of `c.Interface` where a connection was given without an interface.
choose_hardware_addr : Client → Option Client
choose_hardware_addr c = elim (first_some c.hardware_addr (first_some c.hw_addr c.interface)) [
  | none ↦ none
  | some hw ↦ some (record c { hardware_addr = some hw })
]

read_hostname : Client → Network → Result Client
read_hostname c n =
    if length c.hostname == 0
    then check n.uname_error >> ok (record c { hostname = n.nodename })
    else ok c

-- The end of the setup, which stores the error of the hostname's system call.
finish_set_up : Client → Network → Client
unfolding read_hostname
finish_set_up c n = elim (read_hostname c n) [ err e ↦ record c { once_err = some e } | ok c' ↦ c' ]

-- The function of `c.once.Do`; what was set before an error stays set. `none` is a panic.
unfoldable pub set_up : Client → Network → Option Client
unfolding open_connection choose_hardware_addr finish_set_up
set_up c n = elim (open_connection c n) [
  | err e ↦ some (record c { once_err = some e })
  | ok c' ↦ elim (choose_hardware_addr c') [ none ↦ none | some c'' ↦ some (finish_set_up c'' n) ]
]

unfoldable pub once : Client → Network → Option Client
once c n =
    if c.once_done
    then some c
    else elim (set_up c n) [ none ↦ none | some c' ↦ some (record c' { once_done = true }) ]

module _ (lib : DhcpLibrary) where
  -- The loop for a DHCPOFFER. With nothing left to read the deadline passes.
  unfoldable pub await_offer : ℕ → List Read → Result Packet
  await_offer xid [] = err again
  await_offer xid (read_error e ∷ rest) = err e
  await_offer xid (not_dhcp ∷ rest) = await_offer xid rest
  await_offer xid (received offered ∷ rest) =
      let continue = await_offer xid rest in
      if not (offered.xid == xid)
      then continue
      else if not (lib.has_message_type offered.options offer)
      then continue
      else ok offered

  -- The loop for a DHCPACK or DHCPNAK.
  unfoldable pub await_ack : ℕ → List Read → Result Packet
  await_ack xid [] = err again
  await_ack xid (read_error e ∷ rest) = err e
  await_ack xid (not_dhcp ∷ rest) = await_ack xid rest
  await_ack xid (received p ∷ rest) =
      let continue = await_ack xid rest in
      if not (p.xid == xid)
      then continue
      else if not (lib.has_message_type p.options ack)
      then if lib.has_message_type p.options nak then err err_nak else continue
      else ok p

  abbrev pub requested_params : DhcpOption
  requested_params = lib.params_request_opt (6 ∷ 3 ∷ 1 ∷ [])

  abbrev pub discover_packet : Client → ℕ → Packet
  discover_packet c xid = packet c xid (
      lib.message_type_opt discover
      ∷ lib.hostname_opt c.hostname
      ∷ lib.client_id_opt (hardware_addr_or_nil c.hardware_addr)
      ∷ requested_params
      ∷ [])

  abbrev pub request_packet : Client → Packet → Packet
  request_packet c last = packet c last.xid (
      (lib.message_type_opt request
        ∷ lib.request_ip_opt last.your_client_ip
        ∷ lib.hostname_opt c.hostname
        ∷ lib.client_id_opt (hardware_addr_or_nil c.hardware_addr)
        ∷ requested_params
        ∷ [])
      ++ server_id last.options)

  -- The first half of `dhcpRequest`: the last ACK, or the OFFER that answers a DISCOVER.
  unfoldable pub last_packet : Client → Network → Result Packet
  last_packet c n = elim c.ack [
    | some last ↦ ok last
    | none ↦ check n.discover_error >> await_offer n.new_xid n.after_discover
  ]

  unfoldable pub dhcp_request : Client → Network → Result Packet
  dhcp_request c n = do
    last ← last_packet c n
    check n.request_error >> await_ack last.xid n.after_request

  -- The packets that a call of `dhcpRequest` hands to `dhcp4.Write`, in order.
  unfoldable pub sent_packets : Client → Network → List Packet
  sent_packets c n =
      (elim c.ack [ some _ ↦ [] | none ↦ discover_packet c n.new_xid ∷ [] ])
      ++ (elim (last_packet c n) [ ok last ↦ request_packet c last ∷ [] | err _ ↦ [] ])

  -- The new subnet mask: the old one without a mask in the ACK; `none` is the index out of range of a
  -- mask with less than four bytes.
  unfoldable pub new_subnet_mask : Bytes → Bytes → Option Bytes
  new_subnet_mask old [] = some old
  new_subnet_mask old (m0 ∷ m1 ∷ m2 ∷ m3 ∷ _) = some (lib.mask_string m0 m1 m2 m3)
  new_subnet_mask old _ = none

  -- The new configuration; what the ACK does not carry keeps its old value.
  unfoldable pub configure : Config → Packet → ℕ → Option Config
  configure cfg acked now =
      let lease = lib.lease_from_ack acked in
      elim (new_subnet_mask cfg.subnet_mask lease.netmask) [
        | none ↦ none
        | some mask ↦ some (record {
          renew_after = now + lease.renewal_time;
          client_ip = lib.ip_string acked.your_client_ip;
          subnet_mask = mask;
          router = if length lease.router == 0 then cfg.router else lib.ip_string lease.router;
          dns = if length lease.dns == 0 then cfg.dns else map lib.ip_string lease.dns;
        })
      ]

  -- What `ObtainOrRenew` does with the error of `dhcpRequest`.
  unfoldable pub fail : Client → Error → Client
  fail c again = record c { err = some unreachable }
  fail c err_nak = record c { err = some (dhcp_error err_nak); ack = none }
  fail c e = record c { err = some (dhcp_error e) }

  -- The tail of `ObtainOrRenew`, over the result of `dhcpRequest`; `none` is a panic.
  unfoldable pub conclude : Client → Network → Result Packet → Option Client
  conclude c n (ok acked) = elim (configure c.cfg acked n.now) [
    | none ↦ none
    | some cfg ↦ some (record c { err = none; ack = some acked; cfg = cfg })
  ]
  conclude c n (err e) = some (fail c e)

  -- `ObtainOrRenew` behind its setup.
  unfoldable pub attempt : Client → Network → Option (Client × Bool)
  attempt c n = elim c.once_err [
    | some e ↦ some (record c { err = some (permanent e) }, false)
    | none ↦ elim (conclude c n (dhcp_request c n)) [ none ↦ none | some c' ↦ some (c', true) ]
  ]

  -- `ObtainOrRenew`; `none` is a panic.
  unfoldable pub obtain_or_renew : Client → Network → Option (Client × Bool)
  obtain_or_renew c n = elim (once c n) [ none ↦ none | some c' ↦ attempt c' n ]

  -- `Release`: `none` is the nil dereference of `serverID(c.Ack)` without an ACK.
  unfoldable pub release_packet : Client → ℕ → Option Packet
  release_packet c xid = elim c.ack [
    | none ↦ none
    | some acked ↦
        some (record (packet c xid (lib.message_type_opt release ∷ server_id acked.options)) {
          client_ip = acked.your_client_ip;
        })
  ]

  unfoldable pub release_lease : Client → Network → Option (Client × Result (Unit {0}))
  release_lease c n = elim (release_packet c n.new_xid) [
    | none ↦ none
    | some p ↦ elim n.request_error [
      | some e ↦ some (c, err e)
      | none ↦ some (record c { ack = none }, ok tt)
    ]
  ]
