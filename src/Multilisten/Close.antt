-- ===== src/Multilisten/Close.antt =====
-- The end of a call of `ListenAndServe`: the hosts that have vanished.
use rout.Base.{
  ℕ, ◌≡◌, ◌≢◌, ◌⊎◌, inl, inr, refl, Option-cases, List, [], ◌∷◌, none, some, Bytes, Bytes-discrete,
  lookup, delete, lookup-delete, Distinct, delete-Distinct, arith,
}
use rout.Multilisten.Pool.{Pool, close_vanished}
use rout.Multilisten.Hosts.{listener_of, in_set}

abbrev pub In : ℕ → List ℕ → Type 0
In a [] = ⊥
In a (b ∷ bs) = (a ≡ b) ⊎ In a bs

-- The pool `q` after the loop over the set `w`, at the host `h`.
abbrev pub Closes : Pool → List (Bytes × ℕ) → Pool → Bytes → Type 0
Closes p w q h =
    ((ln : ℕ) × (listener_of p h ≡ some ln)
      × (in_set h w ≢ none)
      × (listener_of q h ≡ none)
      × In ln q.closed)
    ⊎ ((in_set h w ≡ none) × (listener_of q h ≡ listener_of p h))

abbrev pub Closed : Pool → List (Bytes × ℕ) → Type 0
Closed p w =
    (q : Pool) × (close_vanished p w ≡ some q)
    × (q.made ≡ p.made)
    × Distinct Bytes-discrete q.listeners
    × ((a : ℕ) → In a p.closed → In a q.closed)
    × ((h : Bytes) → Closes p w q h)

abbrev pub Registered : Pool → List (Bytes × ℕ) → Type 0
Registered p w = (h : Bytes) → in_set h w ≢ none → listener_of p h ≢ none

unfoldable pub close_one : Pool → Bytes → ℕ → Pool
close_one p x ln = record p {
  listeners = delete Bytes-discrete x p.listeners;
  closed = ln ∷ p.closed;
}

Registered-close_one :
    (p : Pool) (x : Bytes) (k ln : ℕ) (rest : List (Bytes × ℕ))
    → Distinct Bytes-discrete ((x, k) ∷ rest)
    → Registered p ((x, k) ∷ rest)
    → Registered (close_one p x ln) rest
unfolding close_one lookup
Registered-close_one p x k ln rest distinct reg h here gone =
    ground (arith, reg h, lookup-delete Bytes-discrete h x p.listeners)

Closes-one :
    (p q : Pool) (x : Bytes) (k ln : ℕ) (rest : List (Bytes × ℕ)) (h : Bytes)
    → Distinct Bytes-discrete ((x, k) ∷ rest)
    → listener_of p x ≡ some ln
    → In ln q.closed
    → Closes (close_one p x ln) rest q h
    → Closes p ((x, k) ∷ rest) q h
unfolding close_one lookup
Closes-one p q x k ln rest h distinct found closed later =
    let gone = lookup-delete Bytes-discrete h x p.listeners in
    elim (Bytes-discrete x h) [
      | yes same ↦ elim later [
        | inl (j, had, set, has, is) ↦ absurd (ground arith)
        | inr (unset, has) ↦ inl (ln, ground arith, ground arith, ground arith, closed)
      ]
      | no other ↦ elim later [
        | inl (j, had, set, has, is) ↦ inl (j, ground arith, ground arith, has, is)
        | inr (unset, has) ↦ inr (ground arith, ground arith)
      ]
    ]

pub close_vanished-Closed :
    (p : Pool) (w : List (Bytes × ℕ))
    → Distinct Bytes-discrete p.listeners
    → Distinct Bytes-discrete w
    → Registered p w
    → Closed p w
unfolding close_vanished close_one lookup
close_vanished-Closed p [] dp dw reg = (p, refl, refl, dp, (λ a i. i), λ h. inr (refl, refl))
close_vanished-Closed p ((x, k) ∷ rest) dp dw reg = elim (Option-cases (listener_of p x)) [
  | inl absent ↦ absurd (reg x (ground arith) absent)
  | inr (ln, found) ↦
      let p' = close_one p x ln in
      let (q, closes, made, dq, kept, at) =
        close_vanished-Closed p' rest (delete-Distinct Bytes-discrete x p.listeners dp) dw.1
          (Registered-close_one p x k ln rest dw reg) in
      (
        q,
        rw (found, close_vanished) closes,
        made,
        dq,
        (λ a i. kept a (inr i)),
        λ h. Closes-one p q x k ln rest h dw found (kept ln (inl refl)) (at h),
      )
]
