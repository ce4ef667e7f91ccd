-- ===== src/Multilisten/Trace.antt =====
-- What holds of a pool after any sequence of calls and of goroutines that end.
use rout.Base.{
  ℕ, ◌≤◌, ◌≡◌, ◌≢◌, ◌⊎◌, inl, inr, refl, subst, Option-cases, List, [], ◌∷◌, Option, none, some,
  Bytes, Bytes-discrete, ℕ_discrete, lookup, delete, lookup-delete, lookup-insert, Distinct,
  delete-Distinct, insert-Distinct, arith,
}
use rout.Multilisten.Pool.{
  Pool, new_pool, all_hosts, add_listener, confirm, close_vanished, listen_and_serve, died, listen,
  die, Reachable, start, step,
}
use rout.Multilisten.Hosts.{listener_of}
use rout.Multilisten.Close.{In, close_one}

-- The host of the goroutine of a listener, while it runs.
abbrev pub host_of : Pool → ℕ → Option Bytes
host_of p ln = lookup ℕ_discrete ln p.serving

-- Every listener of the pool is served and open, and the numbers of later listeners are unused.
pub record Inv (p : Pool) : Type 0 where
  pub distinct : Distinct Bytes-discrete p.listeners
  pub is_served : (h : Bytes) (ln : ℕ) → listener_of p h ≡ some ln → host_of p ln ≡ some h
  pub is_open : (h : Bytes) (ln : ℕ) → listener_of p h ≡ some ln → ¬ In ln p.closed
  pub unused : (ln : ℕ) → p.made ≤ ln → host_of p ln ≡ none
  pub unclosed : (ln : ℕ) → p.made ≤ ln → ¬ In ln p.closed

new_pool-Inv : Inv new_pool
unfolding lookup
new_pool-Inv = record {
  distinct = tt;
  is_served = λ h ln e. ground arith;
  is_open = λ h ln e i. i;
  unused = λ ln ge. refl;
  unclosed = λ ln ge i. i;
}

added-cases :
    (p : Pool) (x h : Bytes) (ln : ℕ)
    → listener_of (add_listener p x) h ≡ some ln
    → ((x ≡ h) × (ln ≡ p.made)) ⊎ ((x ≢ h) × (listener_of p h ≡ some ln))
unfolding add_listener
added-cases p x h ln e =
    let new = lookup-insert Bytes-discrete h x p.made p.listeners in
    elim (Bytes-discrete x h) [
      | yes same ↦ inl (same, ground arith)
      | no other ↦ inr (other, ground arith)
    ]

add_listener-Inv : (p : Pool) (x : Bytes) → Inv p → Inv (add_listener p x)
unfolding add_listener lookup
add_listener-Inv p x inv = record {
  distinct = insert-Distinct Bytes-discrete x p.made p.listeners inv.distinct;
  is_served = λ h ln e. elim (added-cases p x h ln e) [
    | inl (same, new) ↦ ground arith
    | inr (other, old) ↦ ground (arith, inv.is_served h ln old, inv.unused ln)
  ];
  is_open = λ h ln e i. elim (added-cases p x h ln e) [
    | inl (same, new) ↦ inv.unclosed ln (omega (arith, new)) i
    | inr (other, old) ↦ inv.is_open h ln old i
  ];
  unused = λ ln ge. ground (arith, inv.unused ln);
  unclosed = λ ln ge i. inv.unclosed ln (omega arith) i;
}

removed-cases :
    (m : List (Bytes × ℕ)) (x h : Bytes) (ln : ℕ)
    → lookup Bytes-discrete h (delete Bytes-discrete x m) ≡ some ln
    → (x ≢ h) × (lookup Bytes-discrete h m ≡ some ln)
removed-cases m x h ln e =
    let gone = lookup-delete Bytes-discrete h x m in
    elim (Bytes-discrete x h) [
      | yes same ↦ absurd (ground arith)
      | no other ↦ (other, ground arith)
    ]

close_one-Inv :
    (p : Pool) (x : Bytes) (ln : ℕ) → Inv p → listener_of p x ≡ some ln → Inv (close_one p x ln)
unfolding close_one
close_one-Inv p x ln inv found = record {
  distinct = delete-Distinct Bytes-discrete x p.listeners inv.distinct;
  is_served = λ h k e. inv.is_served h k (removed-cases p.listeners x h k e).1;
  is_open = λ h k e i.
      (let (other, old) = removed-cases p.listeners x h k e in
        elim i [
          | inl same ↦ other (ground (arith, inv.is_served h k old, inv.is_served x ln found))
          | inr before ↦ inv.is_open h k old before
        ]);
  unused = inv.unused;
  unclosed = λ k ge i. elim i [
    | inl same ↦ ground (arith, inv.is_served x ln found, inv.unused k)
    | inr before ↦ inv.unclosed k ge before
  ];
}

died-Inv :
    (p : Pool) (ln : ℕ) (host : Bytes) → Inv p → host_of p ln ≡ some host → Inv (died p ln host)
unfolding died
died-Inv p ln host inv found = record {
  distinct = delete-Distinct Bytes-discrete host p.listeners inv.distinct;
  is_served = λ h k e.
      (let (other, old) = removed-cases p.listeners host h k e in
        ground (arith, inv.is_served h k old, lookup-delete ℕ_discrete k ln p.serving));
  is_open = λ h k e i. inv.is_open h k (removed-cases p.listeners host h k e).1 i;
  unused = λ k ge. ground (arith, inv.unused k, lookup-delete ℕ_discrete k ln p.serving);
  unclosed = inv.unclosed;
}

-- The goroutine of `ln` runs in `q` if it runs in `p`.
abbrev pub RunsOn : Pool → Pool → ℕ → Type 0
RunsOn p q ln = (h : Bytes) → host_of p ln ≡ some h → host_of q ln ≡ some h

added-runs : (p : Pool) (x : Bytes) → Inv p → (ln : ℕ) → RunsOn p (add_listener p x) ln
unfolding add_listener lookup
added-runs p x inv ln h e = ground (arith, inv.unused ln)

confirm-Inv :
    (p : Pool) (v : List (Bytes × ℕ)) (hosts : List Bytes)
    → Inv p
    → Inv (confirm p v hosts).0 × ((ln : ℕ) → RunsOn p (confirm p v hosts).0 ln)
unfolding confirm
confirm-Inv p v [] inv = (inv, λ ln h e. e)
confirm-Inv p v (x ∷ hosts) inv = elim (Option-cases (listener_of p x)) [
  | inr (k, found) ↦ rw (found, confirm) (confirm-Inv p (delete Bytes-discrete x v) hosts inv)
  | inl absent ↦
      let (inv', runs) = confirm-Inv (add_listener p x) v hosts (add_listener-Inv p x inv) in
      rw (absent, confirm) (inv', λ ln h e. runs ln h (added-runs p x inv ln h e))
]

close_vanished-Inv :
    (p q : Pool) (w : List (Bytes × ℕ))
    → Inv p
    → close_vanished p w ≡ some q
    → Inv q × (q.serving ≡ p.serving)
unfolding close_vanished close_one
close_vanished-Inv p q [] inv e = (subst Inv (ground arith) inv, ground arith)
close_vanished-Inv p q ((x, k) ∷ w) inv e = elim (Option-cases (listener_of p x)) [
  | inl absent ↦ absurd (ground arith)
  | inr (ln, found) ↦
      close_vanished-Inv (close_one p x ln) q w (close_one-Inv p x ln inv found)
        (rw (found, close_vanished) at e)
]

pub listen_and_serve-Inv :
    (p q : Pool) (hosts : List Bytes)
    → Inv p
    → listen_and_serve p hosts ≡ some q
    → Inv q × ((ln : ℕ) → RunsOn p q ln)
unfolding listen_and_serve
listen_and_serve-Inv p q hosts inv e =
    let (inv', runs) = confirm-Inv p (all_hosts p.listeners) hosts inv in
    let (r, w) = confirm p (all_hosts p.listeners) hosts in
    let (inv'', same) = close_vanished-Inv r q w inv' e in (inv'', λ ln h e. rw same (runs ln h e))

-- In every reachable pool each host has one listener, whose goroutine runs and which the pool has not
-- closed.
pub Reachable-Inv : (p : Pool) → Reachable p → Inv p
Reachable-Inv p start = new_pool-Inv
Reachable-Inv q (step {p = p} before (listen hosts e)) =
    (listen_and_serve-Inv p q hosts (Reachable-Inv p before) e).0
Reachable-Inv q (step {p = p} before (die ln host e)) =
    died-Inv p ln host (Reachable-Inv p before) e
