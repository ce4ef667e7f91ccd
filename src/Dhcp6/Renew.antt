-- ===== src/Dhcp6/Renew.antt =====
-- `ObtainOrRenew` as a whole, and when the lease is renewed.
use rout.Base.{
  ℕ, ◌+◌, ◌≡◌, ◌≢◌, ◌≤◌, ◌<◌, ◌⊎◌, inl, inr, ◌∙◌, refl, sym, subst, ltb, Bool, Bool-cases,
  Option-cases, true, false, List, [], ◌∷◌, ◌++◌, Option, none, some, All, arith,
}
use rout.Dhcp6.Client.{
  Iapd, Message, iapd_error, DhcpLibrary, Config, Client, Network, one_iapd, Exchanged,
  solicit_server, request_lease, sooner, add_iapds, configure, bad_status, conclude, accept,
  obtain_or_renew,
}
use rout.Dhcp6.Exchange.{
  Answers, Sum-cases, solicit_server-Keeps, request_lease-Keeps, solicit_server-Answers,
  request_lease-Answers,
}

module _ (lib : DhcpLibrary) where
  -- The exchanges of one call, the second for an advertisement.
  abbrev pub first_exchange : Client → Network → Exchanged
  first_exchange c n = solicit_server lib (record c { err = none }) n

  abbrev pub second_exchange : Client → Network → Message → Network → Exchanged
  second_exchange c n adv n' =
      request_lease lib (record (first_exchange c n).client { advertise = some adv }) adv n'

  -- A call that obtains a lease.
  abbrev pub Obtains : Client → Network → Network → (ℕ → ℕ) → Client → Type 0
  Obtains c n n' clock c' =
      (adv : Message) × (answer : Message) × (c'.err ≡ none)
      × (c'.advertise ≡ some adv)
      × (c'.cfg ≡ configure lib clock answer)
      × (bad_status lib (one_iapd adv) ≡ none)
      × Answers (first_exchange c n) n adv
      × Answers (second_exchange c n adv n') n' answer

  bad_status-nonzero : (o : Option Iapd) (s : ℕ) → bad_status lib o ≡ some s → s ≢ 0
  bad_status-nonzero none s e = cc
  bad_status-nonzero (some iapd) s e = elim (Option-cases iapd.status) [
    | inl absent ↦ absurd (ground arith)
    | inr (k, has) ↦ λ z. ground arith
  ]

  -- The three ways in which a call ends with the client and the Boolean of `r`.
  abbrev pub Ends : Client → Network → Network → (ℕ → ℕ) → Client × Bool → Type 0
  Ends c n n' clock r =
      ((r.1 ≡ true) × Obtains c n n' clock r.0)
      ⊎ ((r.1 ≡ true) × (r.0.err ≢ none) × (r.0.cfg ≡ c.cfg))
      ⊎ ((s : ℕ) × (r.1 ≡ false) × (r.0.err ≡ some (iapd_error s)) × (s ≢ 0) × (r.0.cfg ≡ c.cfg))

  -- Every call of `ObtainOrRenew` ends in one of three ways. It returns `true` without an error: then
  -- it holds the first advertisement that answers its SOLICIT, without a bad status, and its
  -- configuration is that of the first reply that answers its REQUEST. Or it returns `true` with an
  -- error, or `false` with the bad status of the advertised prefix option: then it keeps its old
  -- configuration.
  pub obtain_or_renew-Ends :
      (c : Client) (n n' : Network) (clock : ℕ → ℕ)
      → Ends c n n' clock (obtain_or_renew lib c n n' clock)
  unfolding obtain_or_renew accept conclude
  obtain_or_renew-Ends c n n' clock =
      let x = first_exchange c n in
      let (cfg, err, held) = solicit_server-Keeps lib (record c { err = none }) n in
      elim (Sum-cases x.result) [
        | inr (f, bad) ↦ rw (bad, obtain_or_renew) (inr (inl (refl, (λ z. cc), cfg)))
        | inl (adv, got) ↦ elim (Option-cases (bad_status lib (one_iapd adv))) [
          | inr (s, bad) ↦
              rw (got, obtain_or_renew, bad, accept)
                (inr (inr (s, refl, refl, bad_status-nonzero (one_iapd adv) s bad, cfg)))
          | inl fine ↦
              let y = second_exchange c n adv n' in
              let (cfg', err', held') =
                request_lease-Keeps lib (record x.client { advertise = some adv }) adv n' in
              elim (Sum-cases y.result) [
                | inr (f, bad) ↦
                    rw (got, obtain_or_renew, fine, accept, bad, conclude)
                      (inr (inl (refl, (λ z. cc), cfg' ∙ cfg)))
                | inl (answer, got') ↦
                    rw (got, obtain_or_renew, fine, accept, got', conclude)
                      (inl (
                        refl,
                        (
                          adv,
                          answer,
                          err' ∙ err,
                          held',
                          refl,
                          fine,
                          solicit_server-Answers lib (record c { err = none }) n adv got,
                          request_lease-Answers lib (record x.client { advertise = some adv }) adv
                              n' answer got',
                        ),
                      ))
              ]
        ]
      ]

-- The renewal times of the prefix options, each from its own reading of the clock.
abbrev pub deadlines : (ℕ → ℕ) → List Iapd → List ℕ
deadlines clock [] = []
deadlines clock (iapd ∷ iapds) = (clock 0 + iapd.t1) ∷ deadlines (λ i. clock (i + 1)) iapds

abbrev pub In : ℕ → List ℕ → Type 0
In a [] = ⊥
In a (b ∷ bs) = (a ≡ b) ⊎ In a bs

sooner_lem :
    (lib : DhcpLibrary) (t1 old : ℕ)
    → 0 < t1
    → 0 < old
    → (0 < sooner lib t1 old)
      × (sooner lib t1 old ≤ t1)
      × (sooner lib t1 old ≤ old)
      × ((sooner lib t1 old ≡ t1) ⊎ (sooner lib t1 old ≡ old))
unfolding sooner
sooner_lem lib t1 old pos pos' = elim (Bool-cases (ltb t1 old)) [
  | inl earlier ↦ (ground arith, ground arith, ground arith, inl (ground arith))
  | inr later ↦ (ground arith, ground arith, ground arith, inr (ground arith))
]

sooner_zero : (lib : DhcpLibrary) (t1 : ℕ) → sooner lib t1 0 ≡ t1
unfolding sooner
sooner_zero lib t1 = ground arith

module _ (lib : DhcpLibrary) where
  -- `r` is the first of the renewal times and `old`.
  abbrev Earliest : ℕ → ℕ → List ℕ → Type 0
  Earliest r old ts = (r ≤ old) × All (λ t. r ≤ t) ts × ((r ≡ old) ⊎ In r ts)

  add_iapds-Earliest :
      (cfg : Config) (clock : ℕ → ℕ) (iapds : List Iapd)
      → ((i : ℕ) → 0 < clock i)
      → 0 < cfg.renew_after
      → Earliest (add_iapds lib cfg clock iapds).renew_after cfg.renew_after (deadlines clock iapds)
  unfolding add_iapds
  add_iapds-Earliest cfg clock [] pos set = (omega arith, tt, inl refl)
  add_iapds-Earliest cfg clock (iapd ∷ iapds) pos set =
      let first = pos 0 in
      let t1 = clock 0 + iapd.t1 in
      let (above, le_t1, le_old, which) = sooner_lem lib t1 cfg.renew_after (omega arith) set in
      let next : Config = record cfg {
        renew_after = sooner lib t1 cfg.renew_after;
        prefixes = cfg.prefixes ++ iapd.prefixes;
      } in
      let (le, all, is) =
        add_iapds-Earliest next (λ i. clock (i + 1)) iapds (λ i. pos (i + 1)) above in
      (
        omega (arith, le, le_old),
        (omega (arith, le, le_t1), all),
        elim is [
          | inr later ↦ inr (inr later)
          | inl same ↦ elim which [ inl new ↦ inr (inl (same ∙ new)) | inr old ↦ inl (same ∙ old) ]
        ],
      )

  -- If the reply has a prefix option and the clock shows times past Go's zero time, the renewal time is
  -- the earliest of the options' renewal times.
  pub configure-earliest :
      (clock : ℕ → ℕ) (iapd : Iapd) (iapds : List Iapd) (answer : Message)
      → answer.iapds ≡ iapd ∷ iapds
      → ((i : ℕ) → 0 < clock i)
      → All (λ t. (configure lib clock answer).renew_after ≤ t) (deadlines clock answer.iapds)
        × In (configure lib clock answer).renew_after (deadlines clock answer.iapds)
  unfolding configure add_iapds
  configure-earliest clock iapd iapds answer has pos =
      let t1 = clock 0 + iapd.t1 in
      let later : ℕ → ℕ = λ i. clock (i + 1) in
      let first = pos 0 in
      let start : ℕ → Config =
        λ k. record { renew_after = k; prefixes = iapd.prefixes; dns = [] } in
      let (le, all, is) =
        add_iapds-Earliest (start t1) later iapds (λ i. pos (i + 1)) (omega (arith, first)) in
      rw has (
        subst
          (λ (k : ℕ).
            let r = (add_iapds lib (start k) later iapds).renew_after in
            All (λ t. r ≤ t) (t1 ∷ deadlines later iapds) × In r (t1 ∷ deadlines later iapds))
          (sym (sooner_zero lib t1)) ((le, all), is))
