-- ===== src/Dhcp4/Acquire.antt =====
-- What `ObtainOrRenew` accepts, and what the next call does.
use rout.Base.{
  ◌≡◌, ◌≢◌, ◌⊎◌, inl, inr, refl, ◌∙◌, Bool, Bool-cases, Option-cases, true, false, List, [], ◌∷◌,
  none, some, arith,
}
use rout.Dhcp4.Client.{
  ClientError, Client, Config, DhcpLibrary, Error, Network, Packet, Result, again, attempt,
  await_ack, conclude, configure, dhcp_error, dhcp_request, discover_packet, err, err_nak, fail,
  failed, last_packet, no_interface, obtain_or_renew, ok, once, permanent, request_packet,
  sent_packets, set_up,
}
use rout.Dhcp4.FirstAck.{Result-cases, FirstAck, await_ack-first}

-- The errors that a failed exchange leaves, and the ACK that it keeps or drops.
abbrev pub Failed : Client → Error → Client → Type 0
Failed c e c' =
    (c'.err ≢ none)
    × ((e ≡ err_nak) × (c'.ack ≡ none) × (c'.err ≡ some (dhcp_error err_nak))
        ⊎ (e ≢ err_nak) × (c'.ack ≡ c.ack) × (c'.err ≢ some (dhcp_error err_nak)))

fail_lem : (lib : DhcpLibrary) (c : Client) (e : Error) → Failed c e (fail lib c e)
unfolding fail
fail_lem lib c again = ((λ x. cc), inr ((λ x. cc), refl, λ x. cc))
fail_lem lib c err_nak = ((λ x. cc), inl (refl, refl, refl))
fail_lem lib c no_interface = ((λ x. cc), inr ((λ x. cc), refl, λ x. cc))
fail_lem lib c (failed t) = ((λ x. cc), inr ((λ x. cc), refl, λ x. cc))

fail-once_done :
    (lib : DhcpLibrary) (c : Client) (e : Error) → (fail lib c e).once_done ≡ c.once_done
unfolding fail
fail-once_done lib c again = refl
fail-once_done lib c err_nak = refl
fail-once_done lib c e = refl

sent_renewal :
    (lib : DhcpLibrary) (c : Client) (n : Network) (p : Packet)
    → c.ack ≡ some p
    → sent_packets lib c n ≡ request_packet lib c p ∷ []
unfolding sent_packets last_packet
sent_renewal lib c n p held = ground arith

sent_discover :
    (lib : DhcpLibrary) (c : Client) (n : Network)
    → c.ack ≡ none
    → (rest : List Packet) × (sent_packets lib c n ≡ discover_packet lib c n.new_xid ∷ rest)
unfolding sent_packets
sent_discover lib c n fresh = (
  elim (last_packet lib c n) [ ok last ↦ request_packet lib c last ∷ [] | err _ ↦ [] ],
  ground arith,
)

once_done_after : (c c' : Client) (n : Network) → once c n ≡ some c' → c'.once_done ≡ true
unfolding once
once_done_after c c' n e = elim (Bool-cases c.once_done) [
  | inl done ↦ ground arith
  | inr first ↦ elim (Option-cases (set_up c n)) [
    | inl panics ↦ absurd (ground arith)
    | inr (k, ready) ↦ ground arith
  ]
]

once_again : (c : Client) (n : Network) → c.once_done ≡ true → once c n ≡ some c
unfolding once
once_again c n done = rw done

-- The two ways the tail returns.
conclude-cases :
    (lib : DhcpLibrary) (c c' : Client) (n : Network) (r : Result Packet)
    → conclude lib c n r ≡ some c'
    → ((p : Packet) × (cfg : Config) × (r ≡ ok p)
        × (configure lib c.cfg p n.now ≡ some cfg)
        × (c' ≡ record c { err = none; ack = some p; cfg = cfg }))
      ⊎ ((e : Error) × (r ≡ err e) × (c' ≡ fail lib c e))
unfolding conclude
conclude-cases lib c c' n (err e) got = inr (e, refl, ground arith)
conclude-cases lib c c' n (ok p) got = elim (Option-cases (configure lib c.cfg p n.now)) [
  | inl panics ↦ absurd (ground arith)
  | inr (cfg, made) ↦ inl (p, cfg, refl, made, ground arith)
]

-- A call that returns went through the setup, and then through the exchange or an error of the setup.
obtain-cases :
    (lib : DhcpLibrary) (c c' : Client) (n : Network) (b : Bool)
    → obtain_or_renew lib c n ≡ some (c', b)
    → (c0 : Client) × (once c n ≡ some c0) × (attempt lib c0 n ≡ some (c', b))
unfolding obtain_or_renew
obtain-cases lib c c' n b e = elim (Option-cases (once c n)) [
  | inl panics ↦ absurd (ground arith)
  | inr (c0, ready) ↦ (c0, ready, ground arith)
]

-- The result of a call that met no permanent error.
attempt-true :
    (lib : DhcpLibrary) (c c' : Client) (n : Network)
    → attempt lib c n ≡ some (c', true)
    → conclude lib c n (dhcp_request lib c n) ≡ some c'
unfolding attempt
attempt-true lib c c' n e = elim (Option-cases c.once_err) [
  | inr (x, stuck) ↦ absurd (ground arith)
  | inl fine ↦ elim (Option-cases (conclude lib c n (dhcp_request lib c n))) [
    | inl panics ↦ absurd (ground arith)
    | inr (c1, made) ↦ ground arith
  ]
]

dhcp_request-ok :
    (lib : DhcpLibrary) (c : Client) (n : Network) (p : Packet)
    → dhcp_request lib c n ≡ ok p
    → (last : Packet) × (last_packet lib c n ≡ ok last)
      × (await_ack lib last.xid n.after_request ≡ ok p)
unfolding dhcp_request
dhcp_request-ok lib c n p e = elim (Result-cases (last_packet lib c n)) [
  | inr (x, gone) ↦ absurd (ground arith)
  | inl (last, found) ↦ (last, found, ground arith)
]

module _ (lib : DhcpLibrary) (c c' : Client) (n : Network) where
  -- A call that returned `true` without an error holds an ACK that answers the request which it sent:
  -- it is the first packet read that has the request's transaction id and is an ACK or NAK, and the
  -- configuration is made from it.
  pub obtain_acks :
      obtain_or_renew lib c n ≡ some (c', true)
      → c'.err ≡ none
      → (c0 : Client) × (last : Packet) × (p : Packet) × (once c n ≡ some c0)
        × (c'.ack ≡ some p)
        × (last_packet lib c0 n ≡ ok last)
        × FirstAck lib last.xid n.after_request p
        × (configure lib c0.cfg p n.now ≡ some c'.cfg)
  obtain_acks e fine =
      let (c0, ready, tried) = obtain-cases lib c c' n true e in
      elim (conclude-cases lib c0 c' n (dhcp_request lib c0 n) (attempt-true lib c0 c' n tried)) [
        | inr (x, gone, after) ↦ absurd ((fail_lem lib c0 x).0 (rw (← after) fine))
        | inl (p, cfg, got, made, after) ↦
            let (last, found, acked) = dhcp_request-ok lib c0 n p got in
            (
              c0,
              last,
              p,
              ready,
              rw after refl,
              found,
              await_ack-first lib last.xid n.after_request p acked,
              rw after made,
            )
      ]

  -- How the next call opens the exchange.
  abbrev pub Opens : Client → Network → Type 0
  Opens c0 n' =
      ((p : Packet) × (c'.err ≡ none)
        × (c'.ack ≡ some p)
        × (sent_packets lib c' n' ≡ request_packet lib c' p ∷ []))
      ⊎ ((rest : List Packet) × (c'.err ≡ some (dhcp_error err_nak))
          × (sent_packets lib c' n' ≡ discover_packet lib c' n'.new_xid ∷ rest))
      ⊎ ((c'.err ≢ none) × (c'.err ≢ some (dhcp_error err_nak)) × (c'.ack ≡ c0.ack))

  -- After a call that returned `true` the next call sends, if there was no error, only a request that
  -- renews the ACK; if the server refused, a DISCOVER first; and after any other error it still has
  -- the ACK that it had before, if any.
  pub next_exchange :
      (n' : Network)
      → obtain_or_renew lib c n ≡ some (c', true)
      → (c0 : Client) × (once c n ≡ some c0) × (once c' n' ≡ some c') × Opens c0 n'
  next_exchange n' e =
      let (c0, ready, tried) = obtain-cases lib c c' n true e in
      let kept = once_done_after c c0 n ready in
      elim (conclude-cases lib c0 c' n (dhcp_request lib c0 n) (attempt-true lib c0 c' n tried)) [
        | inl (p, cfg, got, made, after) ↦
            let held : c'.ack ≡ some p = rw after refl in
            (
              c0,
              ready,
              once_again c' n' (rw after kept),
              inl (p, rw after refl, held, sent_renewal lib c' n' p held),
            )
        | inr (x, gone, after) ↦
            let (unfit, how) = fail_lem lib c0 x in
            (
              c0,
              ready,
              once_again c' n' (rw after (fail-once_done lib c0 x ∙ kept)),
              elim how [
                | inl (_, dropped, refused) ↦
                    let (rest, opens) = sent_discover lib c' n' (rw after dropped) in
                    inr (inl (rest, rw after refused, opens))
                | inr (_, same, other) ↦ inr (inr (rw after unfit, rw after other, rw after same))
              ],
            )
      ]

-- A permanent error is permanent: after a call that returned `false` every later call returns `false`
-- and leaves the client as it is.
pub permanent_error :
    (lib : DhcpLibrary) (c c' : Client) (n n' : Network)
    → obtain_or_renew lib c n ≡ some (c', false)
    → obtain_or_renew lib c' n' ≡ some (c', false)
unfolding obtain_or_renew attempt
permanent_error lib c c' n n' e =
    let (c0, ready, tried) = obtain-cases lib c c' n false e in
    elim (Option-cases c0.once_err) [
      | inl fine ↦ elim (Option-cases (conclude lib c0 n (dhcp_request lib c0 n))) [
        | inl panics ↦ absurd (ground arith)
        | inr (c1, made) ↦ absurd (ground arith)
      ]
      | inr (x, stuck) ↦
          let done = once_done_after c c0 n ready in
          let after : c' ≡ record c0 { err = some (permanent x) } = ground arith in
          let again' : once c' n' ≡ some c' = once_again c' n' (rw after done) in ground arith
    ]

pub obtain-permanent :
    (lib : DhcpLibrary) (c c' : Client) (n : Network)
    → obtain_or_renew lib c n ≡ some (c', false)
    → (x : ClientError) × (c'.err ≡ some x)
unfolding attempt
obtain-permanent lib c c' n e =
    let (c0, ready, tried) = obtain-cases lib c c' n false e in
    elim (Option-cases c0.once_err) [
      | inl fine ↦ elim (Option-cases (conclude lib c0 n (dhcp_request lib c0 n))) [
        | inl panics ↦ absurd (ground arith)
        | inr (c1, made) ↦ absurd (ground arith)
      ]
      | inr (x, stuck) ↦
          let after : c' ≡ record c0 { err = some (permanent x) } = ground arith in
          (permanent x, rw after refl)
    ]
