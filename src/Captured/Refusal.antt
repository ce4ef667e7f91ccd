-- ===== src/Captured/Refusal.antt =====
-- What a session does with a request that it cannot respond.
use rout.Base.{
  none, ℕ, ◌≡◌, Bool, true, false, List, [], ◌∷◌, ◌++◌, ◌⊎◌, if◌then◌else◌, some, Bytes,
}
use rout.Captured.Buffer.{PacketRingBuffer}
use rout.Captured.Session.{
  message, Channel, Request, Outside, Progress, streaming, failed, put, request, last_byte, waiting,
  busy, respond,
}

-- The text `m` of an error is `e`, with a newline behind it if it does not end with one.
abbrev pub Terminates : Bytes → Bytes → Type 0
Terminates e m = ((m ≡ e) ⊎ (m ≡ e ++ (10 ∷ []))) × (last_byte m ≡ some 10)

module _ {ℓ} {P : Type ℓ} where
  -- The text of an error is not empty.
  unfoldable Named : Progress P → Type 0
  Named (streaming c) = Unit
  Named (failed c e) = (z : ℕ) × (last_byte e ≡ some z)

  module _ (o : Outside P) where
    -- The reply to a refused request, if it wants one.
    abbrev pub refusal : Request → Bytes → List (Bool × Bytes)
    refusal req m = if req.want_reply then (false, m) ∷ [] else []

    abbrev pub told : Channel P → Request → Bytes → Channel P
    told c req m = record c { replies = c.replies ++ refusal req m }

    -- The client of the channel `c` was told that the request failed, in the reply that it may want and,
    -- unless the channel does not take it, on the channel itself, which is then closed.
    abbrev pub Told : Channel P → Request → Bytes → Channel P → Type ℓ
    Told c req m last =
        (last.closed ≡ true)
        × (last.replies ≡ c.replies ++ refusal req m)
        × (((o.refuses (told c req m) ≡ none) × (last.sent ≡ c.sent ++ (message m ∷ [])))
            ⊎ ((x : Bytes) × (o.refuses (told c req m) ≡ some x) × (last.sent ≡ c.sent)))

    -- The request streams; or it has failed, and the client was told its error.
    abbrev pub Answers : Channel P → Request → PacketRingBuffer P → Type ℓ
    Answers c req prb =
        ((c' : Channel P) × (request o c req prb ≡ streaming c') × (respond o c req prb ≡ busy c'))
        ⊎ ((c' : Channel P) × (e : Bytes) × (m : Bytes) × (last : Channel P) × (request o c req prb
              ≡ failed c' e)
            × Terminates e m
            × (respond o c req prb ≡ waiting last)
            × Told c' req m last)

    -- The channel behind the write of the error's text.
    abbrev closing : Channel P → Bytes → Channel P
    closing c m = record (elim (o.refuses c) [ some _ ↦ c | none ↦ put c (message m) ]) {
      closed = true;
    }
