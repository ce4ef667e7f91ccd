-- ===== src/Sort/Order.antt =====
-- `bytes.Compare` is a linear order, and what an adjacent comparison says of a whole list.
use rout.Base.{
  ℕ, zero, suc, ◌≤◌, ◌<◌, ◌≡◌, refl, Bool, true, ◌&&◌, List, [], ◌∷◌, Bytes, arith, length, get_or,
}
use rout.Sort.{ge}

pub ge_refl : (x : Bytes) → ge x x ≡ true
unfolding ge
ge_refl [] = refl
ge_refl (x ∷ xs) = ground (arith, ge_refl xs)

pub ge_trans : (x y z : Bytes) → ge x y ≡ true → ge y z ≡ true → ge x z ≡ true
unfolding ge
ge_trans [] [] z p q = q
ge_trans [] (y ∷ ys) z p q = cc
ge_trans (x ∷ xs) y [] p q = refl
ge_trans (x ∷ xs) [] (z ∷ zs) p q = cc
ge_trans (x ∷ xs) (y ∷ ys) (z ∷ zs) p q = ground (arith, ge_trans xs ys zs)

pub ge_antisymm : (x y : Bytes) → ge x y ≡ true → ge y x ≡ true → x ≡ y
unfolding ge
ge_antisymm [] [] p q = refl
ge_antisymm [] (y ∷ ys) p q = cc
ge_antisymm (x ∷ xs) [] p q = cc
ge_antisymm (x ∷ xs) (y ∷ ys) p q = ground (arith, ge_antisymm xs ys)

-- Each entry is at least the one before it.
unfoldable pub ascending : List Bytes → Bool
unfolding ge
ascending [] = true
ascending (x ∷ []) = true
ascending (x ∷ y ∷ rest) = ge y x && ascending (y ∷ rest)

ascending-head :
    (x : Bytes) (rest : List Bytes) (j : ℕ)
    → ascending (x ∷ rest) ≡ true
    → j < length (x ∷ rest)
    → ge (get_or (x ∷ rest) j []) x ≡ true
unfolding ascending
ascending-head x rest zero a h = ge_refl x
ascending-head x [] (suc j) a h = absurd (omega arith)
ascending-head x (y ∷ rest) (suc j) a h =
    ge_trans (get_or (y ∷ rest) j []) y x (ascending-head y rest j (ground arith) (omega arith))
      (ground arith)

pub ascending-get_or :
    (xs : List Bytes) (i j : ℕ)
    → ascending xs ≡ true
    → i ≤ j
    → j < length xs
    → ge (get_or xs j []) (get_or xs i []) ≡ true
unfolding ascending
ascending-get_or [] i j a h lt = absurd (omega arith)
ascending-get_or (x ∷ rest) zero j a h lt = ascending-head x rest j a lt
ascending-get_or (x ∷ []) (suc i) j a h lt = absurd (omega arith)
ascending-get_or (x ∷ y ∷ rest) (suc i) zero a h lt = absurd (omega arith)
ascending-get_or (x ∷ y ∷ rest) (suc i) (suc j) a h lt =
    ascending-get_or (y ∷ rest) i j (ground arith) (omega arith) (omega arith)
