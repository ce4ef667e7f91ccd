-- ===== src/Dhcp6/Daemon.antt =====
-- cmd/dhcp6/dhcp6.go: `logic`.
use rout.Base.{ℕ, Bool, true, false, List, [], ◌∷◌, ◌++◌, inl, inr, Option, none, some, Bytes, text}
use rout.Dhcp6.Client.{
  Error, failed, DhcpLibrary, Config, Client, Network, obtain_or_renew, release_lease,
}
use rout.Dhcp6.Setup.{ok, err, ClientConfig, NewClient, Host, new_client}

-- What the select behind a stored lease meets, if anything yet.
pub data Event : Type 0 where
  renew_due : Event
  usr2 : Network → Event

-- A turn of the loop: what `ObtainOrRenew` meets, the errors of encoding and writing the lease, and
-- the event.
pub record Turn : Type 0 where
  pub soliciting : Network
  pub requesting : Network
  pub clock : ℕ → ℕ
  pub marshal_error : Option Error
  pub write_error : Option Error
  pub event : Option Event

pub data Effect : Type 0 where
  wrote_lease : Config → Effect
  notified : Bytes → Effect

-- Where `logic` is: between two calls, in the select, or at an end.
pub data Progress : Type 0 where
  trying : Client → Progress
  in_wait : Client → Progress
  returned : Option Error → Progress
  exited : Progress

pub record Log : Type 0 where
  pub effects : List Effect
  pub progress : Progress

abbrev pub ends : List Effect → Progress → Log
ends effects p = record { effects = effects; progress = p }

-- Both processes are told; an error of that is only logged.
abbrev pub stored : Config → List Effect
stored cfg =
    wrote_lease cfg ∷ notified (text "/user/netconfigd") ∷ notified (text "/user/radvd") ∷ []

module _ (lib : DhcpLibrary) where
  -- The select, and `again` for the next turn.
  unfoldable pub after_event : Client → (Client → Log) → Option Event → Log
  after_event c again none = ends (stored c.cfg) (in_wait c)
  after_event c again (some renew_due) =
      let l = again c in record l { effects = stored c.cfg ++ l.effects }
  after_event c again (some (usr2 n)) = elim (release_lease lib c n).result [
    | inr e ↦ ends (stored c.cfg) (returned (some e))
    | inl answer ↦ ends (stored c.cfg) exited
  ]

  -- The part of the loop's body behind a call without an error.
  unfoldable pub store : Client → Turn → (Client → Log) → Log
  store c t again = elim t.marshal_error [
    | some e ↦ ends [] (returned (some e))
    | none ↦ elim t.write_error [
      | some e ↦ ends [] (returned (some e))
      | none ↦ after_event c again t.event
    ]
  ]

  unfoldable pub after_call : Turn → (Client → Log) → Client × Bool → Log
  after_call t again (c, false) = ends [] (returned c.err)
  after_call t again (c, true) = elim c.err [ some e ↦ again c | none ↦ store c t again ]

  -- The loop, for as many turns as there are.
  unfoldable pub run : Client → List Turn → Log
  run c [] = ends [] (trying c)
  run c (t ∷ rest) =
      after_call t (λ c'. run c' rest) (obtain_or_renew lib c t.soliciting t.requesting t.clock)

abbrev pub client_config : Option Bytes → ClientConfig
client_config duid = record {
  interface_name = text "uplink0";
  local_addr = none;
  remote_addr = none;
  duid = duid;
  conn = none;
  transaction_ids = [];
  hardware_addr = none;
}

-- `mkdir_error` is that of the lease's directory, and `duid` the content of /perm/dhcp6/duid, `none` if
-- it cannot be read. The library's messages depend on the client that was set up.
unfoldable pub logic :
    (NewClient → DhcpLibrary) → Host → Option Bytes → Option Bytes → List Turn → Log
logic lib host (some mkdir_error) duid turns = ends [] (returned (some (failed mkdir_error)))
logic lib host none duid turns = elim (new_client host (client_config duid)) [
  | err e ↦ ends [] (returned (some (failed e)))
  | ok new ↦ run (lib new) new.client turns
]
