-- ===== src/Dhcp6/Client.antt =====
-- dhcp/dhcp6/dhcp6.go: `Client`, its exchanges, `ObtainOrRenew` and `Release`.
use rout.Base.{
  ℕ, ◌+◌, ◌==◌, ◌⊎◌, inl, inr, ltb, if◌then◌else◌, Bool, true, false, not, ◌||◌, List, [], ◌∷◌,
  ◌++◌, map, Option, none, some, Bytes,
}

-- The message types that `sendReceive` names; `message_type_none` stands for every other one.
pub data MessageType : Type 0 where
  solicit advertise request reply release relay_forward relay_reply lease_query lease_query_reply
        message_type_none :
      MessageType

-- An option of kind IA_PD: its T1, the code of its status if it has one, and its prefixes.
pub record Iapd : Type 0 where
  pub t1 : ℕ
  pub status : Option ℕ
  pub prefixes : List Bytes

pub record Message : Type 0 where
  pub message_type : MessageType
  pub transaction_id : ℕ
  pub iapds : List Iapd
  pub dns : List Bytes
  pub rest : Bytes

-- `c.err`: an error of a call, the time limit of a read, or the status of an IA_PD option.
pub data Error : Type 0 where
  failed : Bytes → Error
  timeout : Error
  iapd_error : ℕ → Error

-- What the code calls of github.com/insomniacslk/dhcp with the client's hardware address and DUID:
-- `NewSolicit`, and `NewRequestFromAdvertise`, whose argument may be nil, each a message or an error;
-- `ip_string` is `net.IP.String`.
pub record DhcpLibrary : Type 0 where
  pub new_solicit : Message ⊎ Error
  pub new_request_from_advertise : Option Message → Message ⊎ Error
  pub ip_string : Bytes → Bytes

pub record Config : Type 0 where
  pub renew_after : ℕ
  pub prefixes : List Bytes
  pub dns : List Bytes

pub record Client : Type 0 where
  pub advertise : Option Message
  pub cfg : Config
  pub err : Option Error
  pub transaction_ids : List ℕ

-- One return of `ReadFrom`, decoded: an error, no DHCPv6, or a message.
pub data Read : Type 0 where
  read_error : Error → Read
  non_dhcp : Read
  received : Message → Read

-- What one exchange meets: the error of the write, and what arrives before the deadline.
pub record Network : Type 0 where
  pub write_error : Option Error
  pub arriving : List Read

unfoldable pub expected_type : MessageType → MessageType
expected_type solicit = advertise
expected_type request = reply
expected_type relay_forward = relay_reply
expected_type lease_query = lease_query_reply
expected_type _ = message_type_none

abbrev pub code : MessageType → ℕ
code solicit = 1
code advertise = 2
code request = 3
code reply = 7
code release = 8
code relay_forward = 12
code relay_reply = 13
code lease_query = 14
code lease_query_reply = 15
code message_type_none = 0

-- The test behind the transaction id; any message will do if none is expected.
abbrev pub is_expected : MessageType → Message → Bool
is_expected expected adv = code expected == 0 || code adv.message_type == code expected

-- The loop of `sendReceive`. With nothing left to read the deadline passes.
unfoldable pub await : ℕ → MessageType → List Read → Message ⊎ Error
await xid expected [] = inr timeout
await xid expected (read_error e ∷ rest) = inr e
await xid expected (non_dhcp ∷ rest) = await xid expected rest
await xid expected (received adv ∷ rest) =
    let continue = await xid expected rest in
    if not (xid == adv.transaction_id)
    then continue
    else if is_expected expected adv
    then inl adv
    else continue

-- `sendReceive` with `MessageTypeNone`, which infers the expected type.
unfoldable pub send_receive : Message → Network → Message ⊎ Error
send_receive packet n = elim n.write_error [
  | some e ↦ inr e
  | none ↦ await packet.transaction_id (expected_type packet.message_type) n.arriving
]

-- A message takes the next of the client's transaction ids, if it has one.
unfoldable pub take_id : Client → Message → Client × Message
take_id c m = elim c.transaction_ids [
  | [] ↦ (c, m)
  | id ∷ ids ↦ (record c { transaction_ids = ids }, record m { transaction_id = id })
]

abbrev pub add_iapd : Message → Iapd → Message
add_iapd m iapd = record m { iapds = m.iapds ++ (iapd ∷ []) }

-- `OneIAPD`
abbrev pub one_iapd : Message → Option Iapd
one_iapd m = elim m.iapds [ [] ↦ none | iapd ∷ _ ↦ some iapd ]

abbrev pub empty_iapd : Iapd
empty_iapd = record { t1 = 0; status = none; prefixes = [] }

-- The messages that an exchange hands to the network, and its result.
pub record Exchanged : Type 0 where
  pub client : Client
  pub sent : Option Message
  pub result : Message ⊎ Error

abbrev pub exchange : Client → Message → Network → Exchanged
exchange c m n = record { client = c; sent = some m; result = send_receive m n }

module _ (lib : DhcpLibrary) where
  -- `solicit(nil)`
  unfoldable pub solicit_server : Client → Network → Exchanged
  solicit_server c n = elim lib.new_solicit [
    | inr e ↦ record { client = c; sent = none; result = inr e }
    | inl m ↦ let (c', m') = take_id c m in exchange c' (add_iapd m' empty_iapd) n
  ]

  abbrev pub with_iapd : Message → Option Iapd → Message
  with_iapd m none = m
  with_iapd m (some iapd) = add_iapd m iapd

  -- `request(advertise)`
  unfoldable pub request_lease : Client → Message → Network → Exchanged
  request_lease c adv n = elim (lib.new_request_from_advertise (some adv)) [
    | inr e ↦ record { client = c; sent = none; result = inr e }
    | inl m ↦ let (c', m') = take_id c (with_iapd m (one_iapd adv)) in exchange c' m' n
  ]

  -- The renewal time after an option with the time `t1`; 0 is the zero time.
  unfoldable pub sooner : ℕ → ℕ → ℕ
  sooner t1 renew_after = if ltb t1 renew_after || renew_after == 0 then t1 else renew_after

  -- The loop over the IA_PD options of the reply; `clock i` is what the clock shows at its reading `i`
  -- from here on, of which there is one for each option.
  unfoldable pub add_iapds : Config → (ℕ → ℕ) → List Iapd → Config
  add_iapds cfg clock [] = cfg
  add_iapds cfg clock (iapd ∷ iapds) =
      add_iapds
        (record cfg {
          renew_after = sooner (clock 0 + iapd.t1) cfg.renew_after;
          prefixes = cfg.prefixes ++ iapd.prefixes;
        })
        (λ i. clock (i + 1)) iapds

  abbrev pub no_config : Config
  no_config = record { renew_after = 0; prefixes = []; dns = [] }

  unfoldable pub configure : (ℕ → ℕ) → Message → Config
  configure clock answer = record (add_iapds no_config clock answer.iapds) {
    dns = map lib.ip_string answer.dns;
  }

  -- The status of the advertised IA_PD option, if it is not success.
  abbrev pub bad_status : Option Iapd → Option ℕ
  bad_status none = none
  bad_status (some iapd) = elim iapd.status [
    | none ↦ none
    | some s ↦ if s == 0 then none else some s
  ]

  -- The end of `ObtainOrRenew`, over the exchange for the reply.
  unfoldable pub conclude : (ℕ → ℕ) → Exchanged → Client × Bool
  conclude clock x = elim x.result [
    | inr e ↦ (record x.client { err = some e }, true)
    | inl answer ↦ (record x.client { cfg = configure clock answer }, true)
  ]

  -- The part behind the advertisement.
  unfoldable pub accept : Client → Message → Network → (ℕ → ℕ) → Client × Bool
  accept c adv n clock = elim (bad_status (one_iapd adv)) [
    | some s ↦ (record c { advertise = some adv; err = some (iapd_error s) }, false)
    | none ↦ conclude clock (request_lease (record c { advertise = some adv }) adv n)
  ]

  unfoldable pub obtain_or_renew : Client → Network → Network → (ℕ → ℕ) → Client × Bool
  obtain_or_renew c n n' clock =
      let x = solicit_server (record c { err = none }) n in
      elim x.result [
        | inr e ↦ (record x.client { err = some e }, true)
        | inl adv ↦ accept x.client adv n' clock
      ]

  unfoldable pub release_lease : Client → Network → Exchanged
  release_lease c n = elim (lib.new_request_from_advertise c.advertise) [
    | inr e ↦ record { client = c; sent = none; result = inr e }
    | inl m ↦ let (c', m') = take_id c (record m { message_type = release }) in exchange c' m' n
  ]
