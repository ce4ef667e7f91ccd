-- ===== src/Sort/Slice.antt =====
-- Go's `sort.Slice`: what it promises, and the insertion sort that it is on short slices.
use rout.Base.{
  ◌≡◌, inl, inr, subst, sym, append-nil, if◌then◌else◌, Bool, Bool-cases, true, false, List, All,
  [], ◌∷◌, ◌++◌,
}
use mathlib.Core.List.{Perm}
use mathlib.Core.List.Perm

-- One list is the other in another order, with the swaps that lead there.
pub data Rearranges {ℓ} {A : Type ℓ} : List A → List A → Type ℓ where
  same : (xs : List A) → Rearranges xs xs
  behind : (x : A) {xs ys : List A} → Rearranges xs ys → Rearranges (x ∷ xs) (x ∷ ys)
  swapped : (x y : A) (xs : List A) → Rearranges (x ∷ y ∷ xs) (y ∷ x ∷ xs)
  after : {xs ys zs : List A} → Rearranges xs ys → Rearranges ys zs → Rearranges xs zs

pub Rearranges-Perm {ℓ} : {A : Type ℓ} {xs ys : List A} → Rearranges xs ys → Perm xs ys
Rearranges-Perm (same xs) = Perm.refl xs
Rearranges-Perm (behind x r) = Perm.cons x (Rearranges-Perm r)
Rearranges-Perm (swapped x y xs) = Perm.swap y x xs
Rearranges-Perm (after r r') = Perm.trans (Rearranges-Perm r) (Rearranges-Perm r')

-- What holds of every element still does behind a rearrangement.
pub Rearranges-All {ℓ κ} :
    {A : Type ℓ} (P : A → Type κ) {xs ys : List A} → Rearranges xs ys → All P ys → All P xs
Rearranges-All P (same xs) all = all
Rearranges-All P (behind x r) (here, rest) = (here, Rearranges-All P r rest)
Rearranges-All P (swapped x y xs) (first, (second, rest)) = (second, (first, rest))
Rearranges-All P (after r r') all = Rearranges-All P r (Rearranges-All P r' all)

to_front {ℓ} : {A : Type ℓ} (x : A) (xs ys : List A) → Rearranges (xs ++ (x ∷ ys)) (x ∷ (xs ++ ys))
to_front x [] ys = same (x ∷ ys)
to_front x (z ∷ xs) ys = after (behind z (to_front x xs ys)) (swapped z x (xs ++ ys))

below {ℓ} :
    {A : Type ℓ} (xs : List A) {ys zs : List A}
    → Rearranges ys zs
    → Rearranges (xs ++ ys) (xs ++ zs)
below [] r = r
below (x ∷ xs) r = behind x (below xs r)

module _ {ℓ} {A : Type ℓ} where
  unfoldable pub turn : List A → List A → List A
  turn done [] = done
  turn done (x ∷ xs) = turn (x ∷ done) xs

  turn-perm : (done xs : List A) → Rearranges (turn done xs) (xs ++ done)
  unfolding turn
  turn-perm done [] = same done
  turn-perm done (x ∷ xs) = after (turn-perm (x ∷ done) xs) (to_front x xs done)

module _ {ℓ} {A : Type ℓ} (less : A → A → Bool) where
  -- The swaps that move `x` in front of those behind it; the sorted part stands in reverse.
  unfoldable pub move_down : A → List A → List A
  move_down x [] = x ∷ []
  move_down x (y ∷ sorted) =
      let more = move_down x sorted in if less x y then y ∷ more else x ∷ y ∷ sorted

  unfoldable pub insert_all : List A → List A → List A
  insert_all sorted [] = sorted
  insert_all sorted (x ∷ xs) = insert_all (move_down x sorted) xs

  unfoldable pub sort_slice : List A → List A
  sort_slice xs = turn [] (insert_all [] xs)

  move_down-perm : (x : A) (sorted : List A) → Rearranges (move_down x sorted) (x ∷ sorted)
  unfolding move_down
  move_down-perm x [] = same (x ∷ [])
  move_down-perm x (y ∷ sorted) = elim (Bool-cases (less x y)) [
    | inl before ↦
        rw (before, move_down) (after (behind y (move_down-perm x sorted)) (swapped y x sorted))
    | inr fine ↦ rw (fine, move_down) (same (x ∷ y ∷ sorted))
  ]

  insert_all-perm : (sorted xs : List A) → Rearranges (insert_all sorted xs) (xs ++ sorted)
  unfolding insert_all
  insert_all-perm sorted [] = same sorted
  insert_all-perm sorted (x ∷ xs) =
      after (insert_all-perm (move_down x sorted) xs)
        (after (below xs (move_down-perm x sorted)) (to_front x xs sorted))

  pub sort_slice-perm : (xs : List A) → Rearranges (sort_slice xs) xs
  unfolding sort_slice
  sort_slice-perm xs = after (turn-perm [] (insert_all [] xs)) (
      subst (λ (ys : List A). Rearranges ys xs) (sym (append-nil (insert_all [] xs)))
        (subst (λ (ys : List A). Rearranges (insert_all [] xs) ys) (append-nil xs)
          (insert_all-perm [] xs)))

-- Neighbours are in order.
abbrev pub Ascends {ℓ} : {A : Type ℓ} → (A → A → Type ℓ) → List A → Type ℓ
Ascends Le [] = Unit
Ascends Le (x ∷ []) = Unit
Ascends Le (x ∷ y ∷ xs) = Le x y × Ascends Le (y ∷ xs)

-- The order `Le` that `less` stands for.
module _ {ℓ} {A : Type ℓ} (less : A → A → Bool) (Le : A → A → Type ℓ)
    (lt : (x y : A) → less x y ≡ true → Le x y) (ge : (x y : A) → less x y ≡ false → Le y x) where
  abbrev Descends : List A → Type ℓ
  Descends [] = Unit
  Descends (x ∷ []) = Unit
  Descends (x ∷ y ∷ xs) = Le y x × Descends (y ∷ xs)

  Descends-tail : (x : A) (xs : List A) → Descends (x ∷ xs) → Descends xs
  Descends-tail x [] d = tt
  Descends-tail x (y ∷ xs) d = d.1

  move_down-head :
      (x z : A) (sorted : List A)
      → Le x z
      → Descends (z ∷ sorted)
      → Descends (z ∷ move_down less x sorted)
  unfolding move_down
  move_down-head x z [] le d = (le, tt)
  move_down-head x z (y ∷ sorted) le d = elim (Bool-cases (less x y)) [
    | inl before ↦ rw (before, move_down) (d.0, move_down-head x y sorted (lt x y before) d.1)
    | inr fine ↦ rw (fine, move_down) (le, (ge x y fine, d.1))
  ]

  move_down-Descends :
      (x : A) (sorted : List A) → Descends sorted → Descends (move_down less x sorted)
  unfolding move_down
  move_down-Descends x [] d = tt
  move_down-Descends x (y ∷ sorted) d = elim (Bool-cases (less x y)) [
    | inl before ↦ rw (before, move_down) (move_down-head x y sorted (lt x y before) d)
    | inr fine ↦ rw (fine, move_down) (ge x y fine, d)
  ]

  insert_all-Descends :
      (sorted xs : List A) → Descends sorted → Descends (insert_all less sorted xs)
  unfolding insert_all
  insert_all-Descends sorted [] d = d
  insert_all-Descends sorted (x ∷ xs) d =
      insert_all-Descends (move_down less x sorted) xs (move_down-Descends x sorted d)

  turn-Ascends :
      (done : List A) (x : A) (xs : List A)
      → Ascends Le (x ∷ done)
      → Descends (x ∷ xs)
      → Ascends Le (turn (x ∷ done) xs)
  unfolding turn
  turn-Ascends done x [] a d = a
  turn-Ascends done x (y ∷ xs) a d = turn-Ascends (x ∷ done) y xs (d.0, a) d.1

  turn_all-Ascends : (xs : List A) → Descends xs → Ascends Le (turn [] xs)
  unfolding turn
  turn_all-Ascends [] d = tt
  turn_all-Ascends (x ∷ xs) d = turn-Ascends [] x xs tt d

  pub sort_slice-Ascends : (xs : List A) → Ascends Le (sort_slice less xs)
  unfolding sort_slice
  sort_slice-Ascends xs = turn_all-Ascends (insert_all less [] xs) (insert_all-Descends [] xs tt)

-- `less` is a strict weak order, as `sort.Slice` asks for.
pub record StrictWeak {A : Type 0} (less : A → A → Bool) : Type 0 where
  pub asymmetric : (x y : A) → less x y ≡ true → less y x ≡ false
  pub transitive : (x y z : A) → less x y ≡ false → less y z ≡ false → less x z ≡ false

-- What `sort.Slice` promises: a rearrangement, and one in order if `less` is a strict weak order.
pub record SortLaws {A : Type 0} (sort : (A → A → Bool) → List A → List A) : Type 0 where
  pub rearranges : (less : A → A → Bool) (xs : List A) → Rearranges (sort less xs) xs
  pub orders :
      (less : A → A → Bool) (xs : List A)
      → StrictWeak less
      → Ascends (λ (x y : A). less y x ≡ false) (sort less xs)

pub sort_slice-SortLaws : {A : Type 0} → SortLaws {A = A} sort_slice
sort_slice-SortLaws = record {
  rearranges = sort_slice-perm;
  orders = λ less xs weak.
      sort_slice-Ascends less (λ x y. less y x ≡ false) weak.asymmetric (λ x y e. e) xs;
}
