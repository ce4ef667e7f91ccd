-- ===== src/Dhcp4/Health.antt =====
-- The health check of cmd/dhcp4/dhcp4.go over time.
use rout.Base.{
  ℕ, zero, suc, ◌+◌, ◌≤◌, ◌≡◌, ◌∙◌, ◌==◌, refl, ltb, if◌then◌else◌, false, List, [], ◌∷◌, ◌++◌,
  Option, replicate, arith,
}
use rout.Dhcp4.Client.{DhcpLibrary, Client, Error, Network, release_lease, release_packet}
use rout.Dhcp4.Daemon.{
  Daemon, Event, minute, usr2, Outcome, waiting, renewing, fails, exits, panics, drop_ack,
  minute_passed, stop, wait_step, wait_run,
}

-- The client after `k` unhealthy minutes on top of `m`.
after_unhealthy : Client → ℕ → ℕ → Client
after_unhealthy c m k = if k == 0 then c else if ltb (m + k) 20 then c else drop_ack c

unhealthy_from :
    (lib : DhcpLibrary) (k m : ℕ) (c : Client)
    → wait_run lib (record { client = c; unhealthy_cycles = m }) (replicate k (minute false))
      ≡ waiting (record { client = after_unhealthy c m k; unhealthy_cycles = m + k })
unfolding wait_run wait_step minute_passed after_unhealthy
unhealthy_from lib zero m c = ground arith
unhealthy_from lib (suc k) m c =
    ground (arith, unhealthy_from lib k (m + 1) c, unhealthy_from lib k (m + 1) (drop_ack c))

-- From a lease on, `k` unhealthy minutes in a row leave the daemon waiting in the same loop: below 20
-- with its ACK, and from 20 on without it.
pub unhealthy_minutes :
    (lib : DhcpLibrary) (k : ℕ) (c : Client)
    → wait_run lib (record { client = c; unhealthy_cycles = 0 }) (replicate k (minute false))
      ≡ waiting (record { client = if ltb k 20 then c else drop_ack c; unhealthy_cycles = k })
unfolding after_unhealthy
unhealthy_minutes lib k c = ground (arith, unhealthy_from lib k 0 c)

Outcome-cases :
    (o : Outcome) (d' : Daemon) (f : Daemon → Outcome)
    → (elim o [
      | waiting d ↦ f d
      | renewing c ↦ renewing c
      | fails x ↦ fails x
      | exits ↦ exits
      | panics ↦ panics
    ]
        ≡ waiting d')
    → (d : Daemon) × (o ≡ waiting d) × (f d ≡ waiting d')
Outcome-cases (waiting d) d' f e = (d, refl, e)
Outcome-cases (renewing c) d' f e = cc
Outcome-cases (fails x) d' f e = cc
Outcome-cases exits d' f e = cc
Outcome-cases panics d' f e = cc

wait_run-append :
    (lib : DhcpLibrary) (d d' : Daemon) (es fs : List Event)
    → wait_run lib d es ≡ waiting d'
    → wait_run lib d (es ++ fs) ≡ wait_run lib d' fs
unfolding wait_run
wait_run-append lib d d' [] fs e = ground arith
wait_run-append lib d d' (x ∷ es) fs e =
    let (k, stepped, rest) = Outcome-cases (wait_step lib d x) d' (λ d1. wait_run lib d1 es) e in
    rw (stepped, wait_run) (wait_run-append lib k d' es fs rest)

-- After 20 or more unhealthy minutes in a row a SIGUSR2 makes the daemon dereference a nil ACK.
pub release_after_drop :
    (lib : DhcpLibrary) (k : ℕ) (c : Client) (n : Network) (remove_error : Option Error)
    → 20 ≤ k
    → wait_run lib
        (record { client = c; unhealthy_cycles = 0 })
        (replicate k (minute false) ++ (usr2 n remove_error ∷ []))
      ≡ panics
unfolding wait_run wait_step stop release_lease release_packet
release_after_drop lib k c n remove_error enough =
    wait_run-append lib _ _ (replicate k (minute false)) (usr2 n remove_error ∷ [])
      (unhealthy_minutes lib k c)
    ∙ (let dropped : ltb k 20 ≡ false = ground arith in rw dropped refl)
