-- ===== src/Netconfig/Reroutes.antt =====
-- What the calls of applyDhcp4 do to the routes.
use rout.Base.{◌≡◌, ◌∙◌, ap, inl, inr, Bool, Bool-cases, true, List, arith}
use rout.Netconfig.Links.{Route, World, Op, perform, Action, skip, ◌>>◌, call}
use rout.Netconfig.Moves.{seq-cases}

-- An action that goes well changes the routes by `f`.
unfoldable pub Reroutes : Action → (List Route → List Route) → Type 0
Reroutes a f = (w w' : World) → a w ≡ (w', true) → w'.routes ≡ f w.routes

pub Reroutes-seq :
    (a b : Action) (f g : List Route → List Route)
    → Reroutes a f
    → Reroutes b g
    → Reroutes (a >> b) (λ r. g (f r))
unfolding Reroutes
Reroutes-seq a b f g first second w w'' e =
    let (w', e1, e2) = seq-cases a b w w'' e in second w' w'' e2 ∙ ap g (first w w' e1)

pub Reroutes-call :
    (fails : Op → Bool) (op : Op) (f : List Route → List Route)
    → ((w : World) → (perform op w).routes ≡ f w.routes)
    → Reroutes (call fails op) f
unfolding Reroutes call
Reroutes-call fails op f does w w' e = elim (Bool-cases (fails op)) [
  | inl bad ↦ absurd (ground arith)
  | inr fine ↦ let after : perform op w ≡ w' = ground arith in rw (← after) (does w)
]

pub Reroutes-skip : Reroutes skip (λ r. r)
unfolding Reroutes
Reroutes-skip w w' e = ground arith
