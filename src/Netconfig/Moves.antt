-- ===== src/Netconfig/Moves.antt =====
-- Actions that change one link.
use rout.Base.{
  ℕ, ◌==◌, ◌≡◌, inl, inr, ◌∙◌, ap, Bool, Bool-cases, true, false, List, [], ◌∷◌, ◌++◌, All, arith,
}
use rout.Netconfig.Links.{Link, World, Op, update, perform, Action, skip, give_up, ◌>>◌, call}

unfoldable pub Unlike : ℕ → List Link → Type 0
Unlike i done = All (λ l. (l.index == i) ≡ false) done

update-focus :
    (f : Link → Link) (done : List Link) (l : Link) (rest : List Link) (i : ℕ)
    → Unlike i done
    → l.index ≡ i
    → update i f (done ++ (l ∷ rest)) ≡ done ++ (f l ∷ rest)
unfolding update Unlike
update-focus f [] l rest i no_other is = ground arith
update-focus f (x ∷ done) l rest i (other, more) is =
    rw (other, update) (ap (◌∷◌ x) (update-focus f done l rest i more is))

-- An action that goes well turns the link `l` between `done` and `rest` into `l'`.
unfoldable pub Moves : Action → List Link → Link → Link → List Link → Type 0
Moves a done l l' rest =
    (w w' : World)
    → w.links ≡ done ++ (l ∷ rest)
    → a w ≡ (w', true)
    → w'.links ≡ done ++ (l' ∷ rest)

pub seq-cases :
    (a b : Action) (w w'' : World)
    → (a >> b) w ≡ (w'', true)
    → (w' : World) × (a w ≡ (w', true)) × (b w' ≡ (w'', true))
unfolding ◌>>◌
seq-cases a b w w'' e = elim (Bool-cases (a w).1) [
  | inl fine ↦ ((a w).0, ap (λ (ok : Bool). ((a w).0, ok)) fine, rw fine at e)
  | inr bad ↦ absurd (ground arith)
]

pub Moves-seq :
    (a b : Action) (done : List Link) (l l1 l2 : Link) (rest : List Link)
    → Moves a done l l1 rest
    → Moves b done l1 l2 rest
    → Moves (a >> b) done l l2 rest
unfolding Moves
Moves-seq a b done l l1 l2 rest first second w w'' at e =
    let (w', e1, e2) = seq-cases a b w w'' e in second w' w'' (first w w' at e1) e2

pub Moves-skip : (done : List Link) (l : Link) (rest : List Link) → Moves skip done l l rest
unfolding Moves
Moves-skip done l rest w w' at e = rw (← ap (λ (r : World × Bool). r.0) e) at

pub Moves-give_up :
    (done : List Link) (l l' : Link) (rest : List Link) → Moves give_up done l l' rest
unfolding Moves
Moves-give_up done l l' rest w w' at e = absurd (ground arith)

-- A call whose success changes the link with the index `i` by `f`.
pub Moves-call :
    (fails : Op → Bool) (op : Op) (i : ℕ) (f : Link → Link) (done : List Link) (l : Link)
    (rest : List Link)
    → ((w : World) → (perform op w).links ≡ update i f w.links)
    → Unlike i done
    → l.index ≡ i
    → Moves (call fails op) done l (f l) rest
unfolding Moves call
Moves-call fails op i f done l rest does no_other is w w' at e = elim (Bool-cases (fails op)) [
  | inl bad ↦ absurd (ground arith)
  | inr fine ↦
      let after : perform op w ≡ w' = ground arith in
      rw (← after) (does w ∙ rw at (update-focus f done l rest i no_other is))
]
