-- ===== src/Multilisten/Lost.antt =====
-- The end of a closed listener's goroutine, after its host has come back.
use rout.Base.{
  ℕ, ◌≤◌, ◌≡◌, ◌≢◌, inl, inr, subst, true, false, List, none, some, Bytes, Bytes-discrete,
  ℕ_discrete, lookup-delete, arith,
}
use rout.Multilisten.Pool.{Pool, listen_and_serve, died, listen, die, Reachable, step}
use rout.Multilisten.Hosts.{listener_of, listed}
use rout.Multilisten.Close.{In}
use rout.Multilisten.Serving.{Served, listen_and_serve-Served}
use rout.Multilisten.Trace.{host_of, Inv, Reachable-Inv, listen_and_serve-Inv}

result-Served :
    (p q : Pool) (hosts : List Bytes) (h : Bytes)
    → Inv p
    → listen_and_serve p hosts ≡ some q
    → Served p hosts q h
result-Served p q hosts h inv e =
    let (r, e', distinct, at) = listen_and_serve-Served p hosts inv.distinct in
    let same : r ≡ q = ground arith in subst (λ x. Served p hosts x h) same (at h)

dropped :
    (p q : Pool) (hosts : List Bytes) (h : Bytes)
    → Served p hosts q h
    → listed h hosts ≡ false
    → listener_of q h ≡ none
dropped p q hosts h (inl (ln, is, had, has)) out = absurd (ground arith)
dropped p q hosts h (inr (inl (ln, is, had, has, ge, lt))) out = absurd (ground arith)
dropped p q hosts h (inr (inr (out', gone, closed))) out = gone

fresh_listener :
    (p q : Pool) (hosts : List Bytes) (h : Bytes)
    → Served p hosts q h
    → listed h hosts ≡ true
    → listener_of p h ≡ none
    → (ln : ℕ) × (listener_of q h ≡ some ln) × (p.made ≤ ln)
fresh_listener p q hosts h (inl (ln, is, had, has)) i absent = absurd (ground arith)
fresh_listener p q hosts h (inr (inl (ln, is, had, has, ge, lt))) i absent = (ln, has, ge)
fresh_listener p q hosts h (inr (inr (out', gone, closed))) i absent = absurd (ground arith)

-- In a reachable pool, let a host with the listener `ln` vanish in one call and come back in a later
-- one, before the goroutine of `ln` has ended. Then the host gets a new listener, and when the
-- goroutine of `ln` does end the pool forgets the new one: it is open and its goroutine runs, but the
-- pool has no listener for the host.
pub listener_lost :
    (p q r : Pool) (first second : List Bytes) (h : Bytes) (ln : ℕ)
    → Reachable p
    → listener_of p h ≡ some ln
    → listed h first ≡ false
    → listed h second ≡ true
    → listen_and_serve p first ≡ some q
    → listen_and_serve q second ≡ some r
    → Reachable (died r ln h)
      × (listener_of (died r ln h) h ≡ none)
      × (new : ℕ) × (new ≢ ln)
      × (listener_of r h ≡ some new)
      × (host_of (died r ln h) new ≡ some h)
      × ¬ In new (died r ln h).closed
unfolding died
listener_lost p q r first second h ln reach has out back e e' =
    let inv = Reachable-Inv p reach in
    let (inv_q, runs) = listen_and_serve-Inv p q first inv e in
    let (inv_r, runs') = listen_and_serve-Inv q r second inv_q e' in
    let gone = dropped p q first h (result-Served p q first h inv e) out in
    let (new, has', ge) =
      fresh_listener q r second h (result-Served q r second h inv_q e') back gone in
    let at_q = runs ln h (inv.is_served h ln has) in
    let at_r = runs' ln h at_q in
    let other : new ≢ ln = λ same. ground (arith, inv_q.unused ln) in
    (
      step (step (step reach (listen first e)) (listen second e')) (die ln h at_r),
      ground (arith, lookup-delete Bytes-discrete h h r.listeners),
      new,
      other,
      has',
      ground (arith, inv_r.is_served h new has', lookup-delete ℕ_discrete new ln r.serving),
      inv_r.is_open h new has',
    )
