-- ===== src/Dhcp4/Daemon.antt =====
-- cmd/dhcp4/dhcp4.go: the loops of `logic` around the client.
use rout.Base.{ℕ, ◌+◌, ltb, if◌then◌else◌, Bool, true, false, List, [], ◌∷◌, Option, none, some}
use rout.Dhcp4.Client.{
  Error, Packet, DhcpLibrary, Config, Client, Network, Result, ok, err, ClientError,
  obtain_or_renew, release_lease,
}

-- The inner loop's variables: the client, and `unhealthyCycles`.
pub record Daemon : Type 0 where
  pub client : Client
  pub unhealthy_cycles : ℕ

-- What the `select` of the inner loop meets: the renewal time, a minute's end with whether `healthy()`
-- returned nil, or SIGUSR2 with what the release meets and the error of removing the ACK file.
pub data Event : Type 0 where
  renew_due : Event
  minute : Bool → Event
  usr2 : Network → Option Error → Event

-- Where a round of the inner loop leads: on in the loop, to the next `ObtainOrRenew`, out of `logic`
-- with an error, to `os.Exit(125)`, or to a panic.
pub data Outcome : Type 0 where
  waiting : Daemon → Outcome
  renewing : Client → Outcome
  fails : Error → Outcome
  exits : Outcome
  panics : Outcome

abbrev pub drop_ack : Client → Client
drop_ack c = record c { ack = none }

-- The case of the minute; after the drop the loop goes on.
unfoldable pub minute_passed : Daemon → Bool → Outcome
minute_passed d true = waiting (record d { unhealthy_cycles = 0 })
minute_passed d false =
    let cycles = d.unhealthy_cycles + 1 in
    if ltb cycles 20
    then waiting (record d { unhealthy_cycles = cycles })
    else waiting (record { client = drop_ack d.client; unhealthy_cycles = cycles })

-- The case of SIGUSR2; the removal's error is one other than `IsNotExist`.
unfoldable pub stop : Option Error → Option (Client × Result (Unit {0})) → Outcome
stop remove_error none = panics
stop remove_error (some (c, err e)) = fails e
stop remove_error (some (c, ok _)) = elim remove_error [ some e ↦ fails e | none ↦ exits ]

module _ (lib : DhcpLibrary) where
  unfoldable pub wait_step : Daemon → Event → Outcome
  wait_step d renew_due = renewing d.client
  wait_step d (minute is_healthy) = minute_passed d is_healthy
  wait_step d (usr2 n remove_error) = stop remove_error (release_lease lib d.client n)

  -- The inner loop over the events that come, until it is left.
  unfoldable pub wait_run : Daemon → List Event → Outcome
  wait_run d [] = waiting d
  wait_run d (e ∷ rest) = elim (wait_step d e) [
    | waiting d' ↦ wait_run d' rest
    | renewing c ↦ renewing c
    | fails x ↦ fails x
    | exits ↦ exits
    | panics ↦ panics
  ]

-- The errors of the steps that follow a lease: encoding it, and writing the two files.
pub record Storage : Type 0 where
  pub marshal_error : Option Error
  pub lease_error : Option Error
  pub ack_error : Option Error

-- What a round of the outer loop does: it stores the configuration and the ACK, and notifies
-- netconfigd.
pub data Effect : Type 0 where
  wrote_lease : Config → Effect
  wrote_ack : Option Packet → Effect
  notified : Effect

pub data Round : Type 0 where
  backs_off : Client → Round
  settles : Daemon → List Effect → Round
  stops : Option ClientError → Round
  stops_with : Error → List Effect → Round
  crashes : Round

-- The steps from `json.Marshal` to the notification: what is done, and the error that ends them.
unfoldable pub persist : Client → Storage → List Effect × Option Error
persist c s = elim s.marshal_error [
  | some e ↦ ([], some e)
  | none ↦ elim s.lease_error [
    | some e ↦ ([], some e)
    | none ↦ elim s.ack_error [
      | some e ↦ (wrote_lease c.cfg ∷ [], some e)
      | none ↦ (wrote_lease c.cfg ∷ wrote_ack c.ack ∷ notified ∷ [], none)
    ]
  ]
]

unfoldable pub settle : Client → Storage → Round
settle c s =
    let (effects, failure) = persist c s in
    elim failure [
      | some e ↦ stops_with e effects
      | none ↦ settles (record { client = c; unhealthy_cycles = 0 }) effects
    ]

-- One round of the outer loop, up to the inner one.
unfoldable pub round : DhcpLibrary → Client → Network → Storage → Round
round lib c n s = elim (obtain_or_renew lib c n) [
  | none ↦ crashes
  | some (c', false) ↦ stops c'.err
  | some (c', true) ↦ elim c'.err [ some _ ↦ backs_off c' | none ↦ settle c' s ]
]
