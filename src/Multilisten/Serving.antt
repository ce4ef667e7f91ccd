-- ===== src/Multilisten/Serving.antt =====
-- What a call of `ListenAndServe` leaves, and what the end of an old listener undoes.
use rout.Base.{
  ℕ, ◌≤◌, ◌<◌, ◌≡◌, ◌≢◌, ◌⊎◌, inl, inr, refl, sym, subst, Bool-cases, true, false, List, [], ◌∷◌,
  none, some, Bytes, Bytes-discrete, lookup, Distinct, arith,
}
use rout.Multilisten.Pool.{Pool, all_hosts, confirm, listen_and_serve}
use rout.Multilisten.Hosts.{
  listener_of, in_set, listed, Confirmed, Covers, confirm-Confirmed, confirm-Distinct,
}
use rout.Multilisten.Close.{In, Closes, Registered, close_vanished-Closed}

in_set-all_hosts :
    (h : Bytes) (m : List (Bytes × ℕ))
    → ((lookup Bytes-discrete h m ≡ none) × (in_set h (all_hosts m) ≡ none))
      ⊎ ((lookup Bytes-discrete h m ≢ none) × (in_set h (all_hosts m) ≢ none))
unfolding all_hosts lookup
in_set-all_hosts h [] = inl (refl, refl)
in_set-all_hosts h ((x, ln) ∷ m) = elim (in_set-all_hosts h m) [
  | inl (a, b) ↦ elim (Bytes-discrete h x) [
    | yes same ↦ inr ((λ e. ground arith), λ e. ground arith)
    | no other ↦ inl (ground arith, ground arith)
  ]
  | inr (a, b) ↦ inr ((λ e. ground arith), λ e. ground arith)
]

all_hosts-Distinct :
    (m : List (Bytes × ℕ)) → Distinct Bytes-discrete m → Distinct Bytes-discrete (all_hosts m)
unfolding all_hosts
all_hosts-Distinct [] d = d
all_hosts-Distinct ((x, ln) ∷ m) d = (
  elim (in_set-all_hosts x m) [ inl (a, b) ↦ b | inr (a, b) ↦ absurd (a d.0) ],
  all_hosts-Distinct m d.1,
)

-- The host `h` after a call with the list `hosts`: a listed host keeps its listener, or gets a new one;
-- another host has none, and the listener that it had is closed.
abbrev pub Served : Pool → List Bytes → Pool → Bytes → Type 0
Served p hosts q h =
    ((ln : ℕ) × (listed h hosts ≡ true) × (listener_of p h ≡ some ln) × (listener_of q h ≡ some ln))
    ⊎ ((ln : ℕ) × (listed h hosts ≡ true)
        × (listener_of p h ≡ none)
        × (listener_of q h ≡ some ln)
        × (p.made ≤ ln)
        × (ln < q.made))
    ⊎ ((listed h hosts ≡ false)
        × (listener_of q h ≡ none)
        × ((ln : ℕ) → listener_of p h ≡ some ln → In ln q.closed))

served :
    (p q r : Pool) (w : List (Bytes × ℕ)) (hosts : List Bytes) (h : Bytes)
    → r.made ≡ q.made
    → Confirmed p (all_hosts p.listeners) hosts q w h
    → Closes q w r h
    → Served p hosts r h
served p q r w hosts h made (inl (ln, had, has, set)) (inl (k, was, here, gone, closed)) =
    elim (Bool-cases (listed h hosts)) [
      | inl is ↦ absurd (here (ground arith))
      | inr out ↦ inr (
          inr (
            out,
            gone,
            λ j e.
                (let same : j ≡ k = ground arith in subst (λ x. In x r.closed) (sym same) closed),
          ))
    ]
served p q r w hosts h made (inl (ln, had, has, set)) (inr (unset, kept)) =
    elim (Bool-cases (listed h hosts)) [
      | inl is ↦ inl (ln, is, had, ground arith)
      | inr out ↦ elim (in_set-all_hosts h p.listeners) [
        | inl (a, b) ↦ absurd (ground arith)
        | inr (a, b) ↦ absurd (b (ground arith))
      ]
    ]
served p q r w hosts h made (inr (inl (ln, had, is, has, ge, lt, unset)))
      (inl (k, was, here, gone, closed)) =
    absurd (here unset)
served p q r w hosts h made (inr (inl (ln, had, is, has, ge, lt, unset))) (inr (unset', kept)) =
    inr (inl (ln, is, had, ground arith, ge, omega (arith, made)))
served p q r w hosts h made (inr (inr (had, out, has, unset))) (inl (k, was, here, gone, closed)) =
    absurd (here unset)
served p q r w hosts h made (inr (inr (had, out, has, unset))) (inr (unset', kept)) =
    inr (inr (out, ground arith, λ j e. absurd (ground arith)))

all_hosts-Covers : (p : Pool) → Covers p (all_hosts p.listeners)
all_hosts-Covers p h absent = elim (in_set-all_hosts h p.listeners) [
  | inl (a, b) ↦ b
  | inr (a, b) ↦ absurd (a absent)
]

Confirmed-Registered :
    (p q : Pool) (v w : List (Bytes × ℕ)) (hosts : List Bytes)
    → ((h : Bytes) → Confirmed p v hosts q w h)
    → Registered q w
Confirmed-Registered p q v w hosts at h set = elim (at h) [
  | inl (ln, had, has, e) ↦ λ gone. ground arith
  | inr (inl (ln, had, is, has, ge, lt, unset)) ↦ λ gone. ground arith
  | inr (inr (had, out, has, unset)) ↦ absurd (set unset)
]

-- `ListenAndServe` on a pool with each host once never panics and leaves a pool with each host once,
-- in which every host that was given has a listener, the one that it had, or a new one if it had none;
-- no other host has one, and the listeners of those hosts are closed.
pub listen_and_serve-Served :
    (p : Pool) (hosts : List Bytes)
    → Distinct Bytes-discrete p.listeners
    → (q : Pool) × (listen_and_serve p hosts ≡ some q)
      × Distinct Bytes-discrete q.listeners
      × ((h : Bytes) → Served p hosts q h)
unfolding listen_and_serve
listen_and_serve-Served p hosts distinct =
    let v = all_hosts p.listeners in
    let (q, w) = confirm p v hosts in
    let at : (h : Bytes) → Confirmed p v hosts q w h =
      λ h. confirm-Confirmed p v hosts h (all_hosts-Covers p) in
    let (dq, dw) = confirm-Distinct p v hosts distinct (all_hosts-Distinct p.listeners distinct) in
    let (r, closes, made, dr, kept, at') =
      close_vanished-Closed q w dq dw (Confirmed-Registered p q v w hosts at) in
    (r, closes, dr, λ h. served p q r w hosts h made (at h) (at' h))
