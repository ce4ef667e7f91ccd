-- ===== src/Multilisten/Hosts.antt =====
-- A call of `ListenAndServe` leaves exactly the hosts that it was given.
use rout.Base.{
  ℕ, ◌≤◌, ◌<◌, ◌≡◌, ◌⊎◌, inl, inr, refl, ite, if◌then◌else◌, Bool, Option-cases, true, false, List,
  [], ◌∷◌, Option, none, some, Bytes, Bytes-discrete, lookup, delete, lookup-delete, lookup-insert,
  Distinct, delete-Distinct, insert-Distinct, arith,
}
use rout.Multilisten.Pool.{Pool, add_listener, confirm}

abbrev pub listener_of : Pool → Bytes → Option ℕ
listener_of p h = lookup Bytes-discrete h p.listeners

abbrev pub listed : Bytes → List Bytes → Bool
listed h [] = false
listed h (x ∷ xs) = ite (Bytes-discrete x h) true (listed h xs)

abbrev pub in_set : Bytes → List (Bytes × ℕ) → Option ℕ
in_set h v = lookup Bytes-discrete h v

-- Every host of the set has a listener.
abbrev pub Covers : Pool → List (Bytes × ℕ) → Type 0
Covers p v = (h : Bytes) → listener_of p h ≡ none → in_set h v ≡ none

-- The pool `q` and the set `w` after the loop over the hosts, at the host `h`: it had a listener, or it
-- gets one, or it is not listed.
abbrev pub Confirmed :
    Pool → List (Bytes × ℕ) → List Bytes → Pool → List (Bytes × ℕ) → Bytes → Type 0
Confirmed p v hosts q w h =
    ((ln : ℕ) × (listener_of p h ≡ some ln)
      × (listener_of q h ≡ some ln)
      × (in_set h w ≡ (if listed h hosts then none else in_set h v)))
    ⊎ ((ln : ℕ) × (listener_of p h ≡ none)
        × (listed h hosts ≡ true)
        × (listener_of q h ≡ some ln)
        × (p.made ≤ ln)
        × (ln < q.made)
        × (in_set h w ≡ none))
    ⊎ ((listener_of p h ≡ none)
        × (listed h hosts ≡ false)
        × (listener_of q h ≡ none)
        × (in_set h w ≡ none))

Covers-delete :
    (p : Pool) (v : List (Bytes × ℕ)) (x : Bytes)
    → Covers p v
    → Covers p (delete Bytes-discrete x v)
Covers-delete p v x covers h none_here =
    ground (arith, covers h none_here, lookup-delete Bytes-discrete h x v)

Covers-add :
    (p : Pool) (v : List (Bytes × ℕ)) (x : Bytes) → Covers p v → Covers (add_listener p x) v
unfolding add_listener
Covers-add p v x covers h none_here =
    covers h (ground (arith, lookup-insert Bytes-discrete h x p.made p.listeners))

pub confirm-made :
    (p : Pool) (v : List (Bytes × ℕ)) (hosts : List Bytes) → p.made ≤ (confirm p v hosts).0.made
unfolding confirm add_listener
confirm-made p v [] = omega arith
confirm-made p v (x ∷ hosts) = elim (Option-cases (listener_of p x)) [
  | inr (ln, found) ↦ rw (found, confirm) (confirm-made p (delete Bytes-discrete x v) hosts)
  | inl absent ↦ rw (absent, confirm) (omega (arith, confirm-made (add_listener p x) v hosts))
]

-- The loop over the rest of the hosts, after a listener was added for `x`.
added :
    (p : Pool) (v : List (Bytes × ℕ)) (x : Bytes) (hosts : List Bytes) (h : Bytes)
    → Covers p v
    → listener_of p x ≡ none
    → Confirmed
        (add_listener p x)
        v
        hosts
        (confirm (add_listener p x) v hosts).0
        (confirm (add_listener p x) v hosts).1
        h
    → Confirmed p v
        (x ∷ hosts)
        (confirm (add_listener p x) v hosts).0
        (confirm (add_listener p x) v hosts).1
        h
unfolding add_listener
added p v x hosts h covers absent later =
    let new = lookup-insert Bytes-discrete h x p.made p.listeners in
    let grows = confirm-made (add_listener p x) v hosts in
    elim (Bytes-discrete x h) [
      | yes same ↦
          let absent' : listener_of p h ≡ none = cc in
          let unset = covers h absent' in
          elim later [
            | inl (k, had, has, set) ↦
                let first : k ≡ p.made = ground arith in
                inr (
                  inl (
                    k,
                    absent',
                    ground arith,
                    has,
                    omega (arith, first),
                    omega (arith, first, grows),
                    ground arith,
                  ))
            | inr (inl (k, had, is, has, ge, lt, set)) ↦ absurd (ground arith)
            | inr (inr (had, is, has, set)) ↦ absurd (ground arith)
          ]
      | no other ↦ elim later [
        | inl (k, had, has, set) ↦ inl (k, ground arith, has, ground arith)
        | inr (inl (k, had, is, has, ge, lt, set)) ↦
            inr (inl (k, ground arith, ground arith, has, omega arith, lt, set))
        | inr (inr (had, is, has, set)) ↦ inr (inr (ground arith, ground arith, has, set))
      ]
    ]

pub confirm-Confirmed :
    (p : Pool) (v : List (Bytes × ℕ)) (hosts : List Bytes) (h : Bytes)
    → Covers p v
    → Confirmed p v hosts (confirm p v hosts).0 (confirm p v hosts).1 h
unfolding confirm add_listener
confirm-Confirmed p v [] h covers = elim (Option-cases (listener_of p h)) [
  | inr (ln, found) ↦ inl (ln, found, found, refl)
  | inl absent ↦ inr (inr (absent, refl, absent, covers h absent))
]
confirm-Confirmed p v (x ∷ hosts) h covers = elim (Option-cases (listener_of p x)) [
  | inr (ln, found) ↦
      let w = delete Bytes-discrete x v in
      let out = lookup-delete Bytes-discrete h x v in
      rw (found, confirm)
        (elim (confirm-Confirmed p w hosts h (Covers-delete p v x covers)) [
          | inl (k, had, has, set) ↦ inl (k, had, has, ground arith)
          | inr (inl (k, had, is, has, ge, lt, set)) ↦
              inr (inl (k, had, ground arith, has, ge, lt, set))
          | inr (inr (had, is, has, set)) ↦ inr (
              inr (
                had,
                elim (Bytes-discrete x h) [ yes same ↦ absurd cc | no other ↦ ground arith ],
                has,
                set,
              ))
        ])
  | inl absent ↦
      let q = add_listener p x in
      rw (absent, confirm)
        (added p v x hosts h covers absent
          (confirm-Confirmed q v hosts h (Covers-add p v x covers)))
]

pub confirm-Distinct :
    (p : Pool) (v : List (Bytes × ℕ)) (hosts : List Bytes)
    → Distinct Bytes-discrete p.listeners
    → Distinct Bytes-discrete v
    → Distinct Bytes-discrete (confirm p v hosts).0.listeners
      × Distinct Bytes-discrete (confirm p v hosts).1
unfolding confirm add_listener
confirm-Distinct p v [] dp dv = (dp, dv)
confirm-Distinct p v (x ∷ hosts) dp dv = elim (Option-cases (listener_of p x)) [
  | inr (ln, found) ↦
      rw (found, confirm)
        (confirm-Distinct p (delete Bytes-discrete x v) hosts dp
          (delete-Distinct Bytes-discrete x v dv))
  | inl absent ↦
      rw (absent, confirm)
        (confirm-Distinct (add_listener p x) v hosts
          (insert-Distinct Bytes-discrete x p.made p.listeners dp) dv)
]
