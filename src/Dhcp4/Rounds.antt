-- ===== src/Dhcp4/Rounds.antt =====
-- How a round of cmd/dhcp4 ends where it does not reach the inner loop.
use rout.Base.{
  false, refl, subst, ◌≢◌, ◌⊎◌, true, ◌≡◌, inl, inr, Bool-cases, Option-cases, List, [], ◌∷◌,
  Option, none, some, arith,
}
use rout.Dhcp4.Client.{Error, DhcpLibrary, Client, Network, ClientError, obtain_or_renew}
use rout.Dhcp4.Acquire.{obtain-permanent}
use rout.Dhcp4.Daemon.{
  Daemon, Round, settles, crashes, wrote_ack, notified, Storage, Effect, wrote_lease, backs_off,
  stops, stops_with, persist, settle, round,
}

-- What a lease that is not stored, or not as a whole, leaves.
abbrev pub Unstored : Client → Storage → List Effect → Type 0
Unstored c s effects =
    ((effects ≡ []) × ((s.marshal_error ≢ none) ⊎ (s.lease_error ≢ none)))
    ⊎ ((effects ≡ wrote_lease c.cfg ∷ []) × (s.ack_error ≢ none))

settle-cases :
    (c : Client) (s : Storage)
    → ((e : Error) × (effects : List Effect) × (settle c s ≡ stops_with e effects)
        × Unstored c s effects)
      ⊎ ((d : Daemon) × (effects : List Effect) × (settle c s ≡ settles d effects))
unfolding settle persist
settle-cases c s = elim (Option-cases s.marshal_error) [
  | inr (x, bad) ↦ inl (x, [], ground arith, inl (refl, inl (λ z. absurd (ground arith))))
  | inl fine ↦ elim (Option-cases s.lease_error) [
    | inr (x, bad) ↦ inl (x, [], ground arith, inl (refl, inr (λ z. absurd (ground arith))))
    | inl fine' ↦ elim (Option-cases s.ack_error) [
      | inr (x, bad) ↦
          inl (x, wrote_lease c.cfg ∷ [], ground arith, inr (refl, λ z. absurd (ground arith)))
      | inl fine'' ↦ inr (
        record { client = c; unhealthy_cycles = 0 },
        wrote_lease c.cfg ∷ wrote_ack c.ack ∷ notified ∷ [],
        ground arith,
      )
    ]
  ]
]

settle-stops_with :
    (c : Client) (s : Storage) (e : Error) (effects : List Effect)
    → settle c s ≡ stops_with e effects
    → Unstored c s effects
settle-stops_with c s e effects is = elim (settle-cases c s) [
  | inl (x, written, stopped, why) ↦
      let same : written ≡ effects = ground arith in
      subst (λ (l : List Effect). Unstored c s l) same why
  | inr (d, written, settled) ↦ absurd (ground arith)
]

settle-goes_on :
    (c : Client) (s : Storage) (r : Round)
    → settle c s ≡ r
    → (r ≢ crashes) × ((e : Option ClientError) → r ≢ stops e) × ((c' : Client) → r ≢ backs_off c')
settle-goes_on c s r is = elim (settle-cases c s) [
  | inl (x, written, stopped, why) ↦
      (λ z. absurd (ground arith), λ e z. absurd (ground arith), λ c' z. absurd (ground arith))
  | inr (d, written, settled) ↦
      (λ z. absurd (ground arith), λ e z. absurd (ground arith), λ c' z. absurd (ground arith))
]

-- The round's end, if `ObtainOrRenew` returned without an error.
module _ (lib : DhcpLibrary) (c : Client) (n : Network) (s : Storage) where
  pub round-stops :
      (e : Option ClientError)
      → round lib c n s ≡ stops e
      → (x : ClientError) × (c' : Client) × (e ≡ some x)
        × (obtain_or_renew lib c n ≡ some (c', false))
  unfolding round
  round-stops e is = elim (Option-cases (obtain_or_renew lib c n)) [
    | inl crash ↦ absurd (ground arith)
    | inr (r, got) ↦ elim (Bool-cases r.1) [
      | inr permanent ↦
          let (x, bad) = obtain-permanent lib c r.0 n (ground arith) in
          (x, r.0, ground arith, ground arith)
      | inl goes_on ↦ elim (Option-cases r.0.err) [
        | inr (x, bad) ↦ absurd (ground arith)
        | inl fine ↦
            let settled : settle r.0 s ≡ stops e = ground arith in
            absurd ((settle-goes_on r.0 s (stops e) settled).1 e refl)
      ]
    ]
  ]

  pub round-stops_with :
      (e : Error) (effects : List Effect)
      → round lib c n s ≡ stops_with e effects
      → (c' : Client) × (obtain_or_renew lib c n ≡ some (c', true))
        × (c'.err ≡ none)
        × Unstored c' s effects
  unfolding round
  round-stops_with e effects is = elim (Option-cases (obtain_or_renew lib c n)) [
    | inl crash ↦ absurd (ground arith)
    | inr (r, got) ↦ elim (Bool-cases r.1) [
      | inr permanent ↦ absurd (ground arith)
      | inl goes_on ↦ elim (Option-cases r.0.err) [
        | inr (x, bad) ↦ absurd (ground arith)
        | inl fine ↦ (r.0, ground arith, fine, settle-stops_with r.0 s e effects (ground arith))
      ]
    ]
  ]

  pub round-crashes : round lib c n s ≡ crashes → obtain_or_renew lib c n ≡ none
  unfolding round
  round-crashes is = elim (Option-cases (obtain_or_renew lib c n)) [
    | inl crash ↦ crash
    | inr (r, got) ↦ elim (Bool-cases r.1) [
      | inr permanent ↦ absurd (ground arith)
      | inl goes_on ↦ elim (Option-cases r.0.err) [
        | inr (x, bad) ↦ absurd (ground arith)
        | inl fine ↦
            let settled : settle r.0 s ≡ crashes = ground arith in
            absurd ((settle-goes_on r.0 s crashes settled).0 refl)
      ]
    ]
  ]

  pub round-backs_off :
      (c' : Client)
      → round lib c n s ≡ backs_off c'
      → (obtain_or_renew lib c n ≡ some (c', true)) × (c'.err ≢ none)
  unfolding round settle persist
  round-backs_off c' is = elim (Option-cases (obtain_or_renew lib c n)) [
    | inl crash ↦ absurd (ground arith)
    | inr (r, got) ↦ elim (Bool-cases r.1) [
      | inr permanent ↦ absurd (ground arith)
      | inl goes_on ↦ elim (Option-cases r.0.err) [
        | inr (x, bad) ↦
            let same : r.0 ≡ c' = ground arith in
            let failed : c'.err ≡ some x = rw (← same) bad in
            (ground arith, λ fine. absurd (ground arith))
        | inl fine ↦
            let is' : settle r.0 s ≡ backs_off c' = ground arith in
            absurd ((settle-goes_on r.0 s (backs_off c') is').2 c' refl)
      ]
    ]
  ]
