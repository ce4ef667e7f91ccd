-- ===== src/Dhcp6/Stores.antt =====
-- What cmd/dhcp6 stores, and how it ends.
use rout.Base.{◌⊎◌, ◌≢◌, ◌≡◌, true, false, List, [], ◌∷◌, ◌++◌, none, some}
use rout.Dhcp6.Client.{DhcpLibrary, Client, obtain_or_renew}
use rout.Dhcp6.Renew.{Obtains}
use rout.Dhcp6.Daemon.{renew_due, Turn, Effect, Progress, returned, Log, stored}

-- `logic` has not returned nil.
unfoldable pub Fails : Progress → Type 0
Fails (returned none) = ⊥
Fails _ = Unit

module _ (lib : DhcpLibrary) where
  -- The call of the turn left the client `c'` without an error: its configuration is that of the first
  -- reply that answers the REQUEST of this call, which follows the first advertisement that answers its
  -- SOLICIT.
  abbrev pub Obtained : Client → Turn → Client → Type 0
  Obtained c t c' =
      (obtain_or_renew lib c t.soliciting t.requesting t.clock ≡ (c', true))
      × Obtains lib c t.soliciting t.requesting t.clock c'

  -- What the turns that begin with the client `c` do. A turn writes the lease of its own call and tells
  -- netconfigd and radvd, unless the call ends in an error or the lease cannot be written; the next one goes on with the client that this one leaves,
  -- and behind a lease only when it is due.
  pub data Renews : Client → List Turn → List Effect → Type 0 where
    no_turn : (c : Client) → Renews c [] []
    gave_up :
        (c : Client) (t : Turn) (rest : List Turn) (c' : Client)
        → obtain_or_renew lib c t.soliciting t.requesting t.clock ≡ (c', false)
        → Renews c (t ∷ rest) []
    unstored :
        (c : Client) (t : Turn) (rest : List Turn) (c' : Client)
        → Obtained c t c'
        → (t.marshal_error ≢ none) ⊎ (t.write_error ≢ none)
        → Renews c (t ∷ rest) []
    retried :
        (c : Client) (t : Turn) (rest : List Turn) (c' : Client) (later : List Effect)
        → obtain_or_renew lib c t.soliciting t.requesting t.clock ≡ (c', true)
        → c'.err ≢ none
        → Renews c' rest later
        → Renews c (t ∷ rest) later
    last_lease :
        (c : Client) (t : Turn) (rest : List Turn) (c' : Client)
        → Obtained c t c'
        → t.marshal_error ≡ none
        → t.write_error ≡ none
        → t.event ≢ some renew_due
        → Renews c (t ∷ rest) (stored c'.cfg)
    lease :
        (c : Client) (t : Turn) (rest : List Turn) (c' : Client) (later : List Effect)
        → Obtained c t c'
        → t.marshal_error ≡ none
        → t.write_error ≡ none
        → t.event ≡ some renew_due
        → Renews c' rest later
        → Renews c (t ∷ rest) (stored c'.cfg ++ later)

  abbrev Good : Client → List Turn → Log → Type 0
  Good c turns l = Renews c turns l.effects × Fails l.progress
