-- ===== src/Tests/Multilisten.antt =====
-- The pool's theorems at the addresses of one network.
use rout.Base.{
  ℕ, ◌≡◌, ◌≢◌, refl, [], ◌∷◌, none, some, Bytes, Bytes-discrete, ℕ_discrete, text, Distinct, lookup,
  insert, delete,
}
use rout.Multilisten.Pool.{
  Pool, new_pool, all_hosts, add_listener, confirm, close_vanished, listen_and_serve, died,
  Reachable, start, step, listen,
}
use rout.Multilisten.Hosts.{listener_of}
use rout.Multilisten.Close.{In}
use rout.Multilisten.Serving.{Served, listen_and_serve-Served}
use rout.Multilisten.Trace.{host_of, Inv, Reachable-Inv}
use rout.Multilisten.Lost.{listener_lost}

program : Unit {0}
unfolding all_hosts add_listener confirm close_vanished listen_and_serve died lookup insert delete
    Bytes-discrete ℕ_discrete
program = tt

abbrev lan : Bytes
lan = text "10.0.0.1"

abbrev local : Bytes
local = text "::1"

abbrev one_host : Pool
one_host = record { listeners = (lan, 0) ∷ []; made = 1; serving = (0, lan) ∷ []; closed = [] }

first_call : listen_and_serve new_pool (lan ∷ lan ∷ []) ≡ some one_host
unfolding program
first_call = refl

one_host-Reachable : Reachable one_host
one_host-Reachable = step start (listen (lan ∷ lan ∷ []) first_call)

listen_and_serve-Served_example :
    (q : Pool) × (listen_and_serve one_host (local ∷ []) ≡ some q)
    × Distinct Bytes-discrete q.listeners
    × ((h : Bytes) → Served one_host (local ∷ []) q h)
unfolding lookup
listen_and_serve-Served_example = listen_and_serve-Served one_host (local ∷ []) (refl, tt)

Reachable-Inv_example : Inv one_host
Reachable-Inv_example = Reachable-Inv one_host one_host-Reachable

abbrev no_host : Pool
no_host = record { listeners = []; made = 1; serving = (0, lan) ∷ []; closed = 0 ∷ [] }

abbrev back_again : Pool
back_again = record {
  listeners = (lan, 1) ∷ [];
  made = 2;
  serving = (1, lan) ∷ (0, lan) ∷ [];
  closed = 0 ∷ [];
}

vanishes : listen_and_serve one_host [] ≡ some no_host
unfolding program
vanishes = refl

comes_back : listen_and_serve no_host (lan ∷ []) ≡ some back_again
unfolding program
comes_back = refl

lan_listed : listener_of one_host lan ≡ some 0
unfolding program
lan_listed = refl

listener_lost_example :
    Reachable (died back_again 0 lan)
    × (listener_of (died back_again 0 lan) lan ≡ none)
    × (new : ℕ) × (new ≢ 0)
    × (listener_of back_again lan ≡ some new)
    × (host_of (died back_again 0 lan) new ≡ some lan)
    × ¬ In new (died back_again 0 lan).closed
unfolding program
listener_lost_example =
    listener_lost one_host no_host back_again [] (lan ∷ []) lan 0 one_host-Reachable lan_listed refl
      refl vanishes comes_back
