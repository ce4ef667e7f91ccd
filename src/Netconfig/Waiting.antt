-- ===== src/Netconfig/Waiting.antt =====
-- When netconfigd waits for the next signal.
use rout.Base.{
  ◌≡◌, ◌⊎◌, inl, inr, refl, sym, subst, Bool-cases, ◌∙◌, Bool, List, [], ◌∷◌, some, Bytes, text,
  arith,
}
use rout.Multilisten.Pool.{Pool, new_pool}
use rout.Listeners.{Updated, updated, failed, panics}
use rout.Netconfig.Forward.{Expr}
use rout.Netconfig.Firewall.{forwardings, batch}
use rout.Netconfig.Links.{World, Op, signal, perform, call}
use rout.Netconfig.Apply.{uplink_interface, ifname_or_empty, Result, errors, crashed}
use rout.Netconfig.Sysctls.{Forwards}
use rout.Netconfig.Applied.{apply-nil}
use rout.Netconfig.Daemon.{
  Libraries, Turn, State, Progress, waiting, apply_turn, notify_others, update, after_apply,
  after_update, run, logic,
}

Updated-cases :
    (u : Updated) → ((p : Pool) × (u ≡ updated p)) ⊎ ((p : Pool) × (u ≡ failed p)) ⊎ (u ≡ panics)
Updated-cases (updated p) = inl (p, refl)
Updated-cases (failed p) = inr (inl (p, refl))
Updated-cases panics = inr (inr refl)

-- The last turn of the loop.
abbrev pub last_turn : Turn → List Turn → Turn
last_turn t [] = t
last_turn t (u ∷ rest) = last_turn u rest

waiting-state : (a b : State) → waiting a ≡ waiting b → b ≡ a
waiting-state a b e = cc

-- The notification of a process touches neither the firewall nor the settings of the kernel.
call-signal :
    (fails : Op → Bool) (process : Bytes) (w : World)
    → ((call fails (signal process) w).0.firewall ≡ w.firewall)
      × ((call fails (signal process) w).0.sysctls ≡ w.sysctls)
unfolding call perform
call-signal fails process w = elim (Bool-cases (fails (signal process))) [
  | inl bad ↦ (rw bad refl, rw bad refl)
  | inr fine ↦ (rw fine refl, rw fine refl)
]

module _ (libs : Libraries) where
  -- The state behind an `Apply` of the turn without an error, and the notifications.
  abbrev pub Settled : Turn → State → Type 0
  Settled t s =
      (before : State) × (w : World) × (apply_turn libs t before.world ≡ (w, errors []))
      × (s ≡ notify_others libs t w before)

  after_apply-waiting :
      (t : Turn) (s s' : State) (again : State → Progress) (r : World × Result)
      → after_apply libs t s again r ≡ waiting s'
      → (w : World) × (r ≡ (w, errors [])) × (again (notify_others libs t w s) ≡ waiting s')
  unfolding after_apply
  after_apply-waiting t s s' again (w, crashed) e = absurd (ground arith)
  after_apply-waiting t s s' again (w, errors (x ∷ xs)) e = absurd (ground arith)
  after_apply-waiting t s s' again (w, errors []) e = (w, refl, e)

  after_update-waiting :
      (next : Pool → Progress) (u : Updated) (s' : State)
      → after_update libs next u ≡ waiting s'
      → (p : Pool) × (next p ≡ waiting s')
  unfolding after_update
  after_update-waiting next (updated p) s' e = (p, e)
  after_update-waiting next (failed p) s' e = (p, e)
  after_update-waiting next panics s' e = absurd (ground arith)

  run-Settled :
      (t : Turn) (rest : List Turn) (s s' : State)
      → run libs t rest s ≡ waiting s'
      → Settled (last_turn t rest) s'
  unfolding run
  run-Settled t [] s s' e =
      let (w, applied, same) = after_apply-waiting t s s' waiting (apply_turn libs t s.world) e in
      (s, w, applied, waiting-state (notify_others libs t w s) s' same)
  run-Settled t (u ∷ rest) s s' e =
      let (w, applied, next) = after_apply-waiting t s s' _ (apply_turn libs t s.world) e in
      let (p, goes_on) = after_update-waiting _ _ s' next in
      run-Settled u rest (record (notify_others libs t w s) { pool = p }) s' goes_on

  -- The firewall of the turn's files is in place, and the kernel forwards.
  abbrev pub InPlace : Turn → World → Type 0
  InPlace t w =
      (ifname : Bytes) × (rules : List (List Expr)) × (forwardings libs.net.parse_ip ifname
          t.files.portforwardings
        ≡ some rules)
      × (w.firewall ≡ batch ifname libs.default_obj t.reads.kernel rules)
      × Forwards w.sysctls

  Settled-InPlace : (t : Turn) (s : State) → Settled t s → InPlace t s.world
  Settled-InPlace t s (before, w, applied, same) =
      let (w1, _, w2, _, w3, _, (rules, made, fw, _, _), forwards) =
        apply-nil libs.net libs.wg libs.default_obj t.fails t.files t.reads before.world w
          applied in
      let (kept_fw, kept) = call-signal t.fails (text "/user/dhcp4d") w in
      rw same (
        ifname_or_empty (uplink_interface w3.links),
        rules,
        made,
        kept_fw ∙ fw,
        subst (λ (l : List (Bytes × Bytes)). Forwards l) (sym kept) forwards,
      )

  -- Whenever netconfigd waits for a signal, the last `Apply` returned no error, the call that is to notify
  -- dhcp4d was made behind it, whether or not it failed, the firewall for the port forwardings of its turn is in place, and the kernel forwards.
  pub logic-InPlace :
      (t : Turn) (rest : List Turn) (w : World) (s : State)
      → logic libs t rest w ≡ waiting s
      → Settled (last_turn t rest) s × InPlace (last_turn t rest) s.world
  unfolding logic
  logic-InPlace t rest w s e = elim (Updated-cases (update libs t new_pool)) [
    | inl (p, is) ↦
        let settled : Settled (last_turn t rest) s =
          run-Settled t rest (record { world = w; pool = p; notified_all = 0 }) s
            (rw (is, logic) at e) in
        (settled, Settled-InPlace (last_turn t rest) s settled)
    | inr (inl (p, is)) ↦ absurd (ground arith)
    | inr (inr is) ↦ absurd (ground arith)
  ]
