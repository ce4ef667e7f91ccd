-- ===== src/Multilisten/Pool.antt =====
-- multilisten/multilisten.go: `Pool`, its `ListenAndServe`, and the goroutines that it starts.
use rout.Base.{
  ℕ, ◌+◌, ◌≡◌, List, [], ◌∷◌, Option, none, some, Bytes, Bytes-discrete, ℕ_discrete, lookup, delete,
  insert,
}

-- The pool and what it has caused: a listener is the number of the call of `listenerFor` that made it;
-- `serving` holds the goroutines that have not deleted their host yet, and `closed` the listeners that
-- the pool has closed.
pub record Pool : Type 0 where
  pub listeners : List (Bytes × ℕ)
  pub made : ℕ
  pub serving : List (ℕ × Bytes)
  pub closed : List ℕ

abbrev pub new_pool : Pool
new_pool = record { listeners = []; made = 0; serving = []; closed = [] }

-- The set `vanished`, at first every host of the pool.
unfoldable pub all_hosts : List (Bytes × ℕ) → List (Bytes × ℕ)
all_hosts [] = []
all_hosts ((host, ln) ∷ rest) = (host, 0) ∷ all_hosts rest

-- The branch that adds a listener and starts its goroutine.
unfoldable pub add_listener : Pool → Bytes → Pool
add_listener p host =
    let ln = p.made in
    record p {
      listeners = insert Bytes-discrete host ln p.listeners;
      made = p.made + 1;
      serving = (ln, host) ∷ p.serving;
    }

-- The loop over `hosts`, with the set `vanished`.
unfoldable pub confirm : Pool → List (Bytes × ℕ) → List Bytes → Pool × List (Bytes × ℕ)
confirm p vanished [] = (p, vanished)
confirm p vanished (host ∷ hosts) = elim (lookup Bytes-discrete host p.listeners) [
  | some ln ↦ confirm p (delete Bytes-discrete host vanished) hosts
  | none ↦ confirm (add_listener p host) vanished hosts
]

-- The loop over `vanished`. `none` is the call of `Close` on a nil listener.
unfoldable pub close_vanished : Pool → List (Bytes × ℕ) → Option Pool
close_vanished p [] = some p
close_vanished p ((host, _) ∷ rest) = elim (lookup Bytes-discrete host p.listeners) [
  | none ↦ none
  | some ln ↦
      close_vanished
        (record p { listeners = delete Bytes-discrete host p.listeners; closed = ln ∷ p.closed })
        rest
]

unfoldable pub listen_and_serve : Pool → List Bytes → Option Pool
listen_and_serve p hosts =
    let (q, vanished) = confirm p (all_hosts p.listeners) hosts in close_vanished q vanished

-- The end of the goroutine of the listener `ln`, once its `ListenAndServe` has returned.
unfoldable pub died : Pool → ℕ → Bytes → Pool
died p ln host = record p {
  listeners = delete Bytes-discrete host p.listeners;
  serving = delete ℕ_discrete ln p.serving;
}

-- What can happen to a pool: a call of `ListenAndServe`, or the end of a goroutine.
pub data Step : Pool → Pool → Type 0 where
  listen : {p q : Pool} (hosts : List Bytes) → listen_and_serve p hosts ≡ some q → Step p q
  die :
      {p : Pool} (ln : ℕ) (host : Bytes)
      → lookup ℕ_discrete ln p.serving ≡ some host
      → Step p (died p ln host)

pub data Reachable : Pool → Type 0 where
  start : Reachable new_pool
  step : {p q : Pool} → Reachable p → Step p q → Reachable q
