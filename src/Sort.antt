-- ===== src/Sort.antt =====
-- Go's `sort.Search` and `bytes.Compare`.
pub mod Search
pub mod Order
pub mod Slice
use rout.Base.{ℕ, zero, suc, ◌+◌, ◌/◌, ltb, if◌then◌else◌, Bool, true, false, [], ◌∷◌, Bytes}

-- The loop of `sort.Search` between `i` and `j`, on fuel.
search_loop : ℕ → (ℕ → Bool) → ℕ → ℕ → ℕ
search_loop zero f i j = i
search_loop (suc fuel) f i j =
    let h = (i + j) / 2 in
    let right = search_loop fuel f (h + 1) j in
    let left = search_loop fuel f i h in
    let next = if f h then left else right in if ltb i j then next else i

-- `sort.Search(n, f)`
unfoldable pub search_sorted : ℕ → (ℕ → Bool) → ℕ
unfolding search_loop
search_sorted n f = search_loop n f 0 n

-- `bytes.Compare(x, y) >= 0`
unfoldable pub ge : Bytes → Bytes → Bool
ge [] [] = true
ge [] (y ∷ ys) = false
ge (x ∷ xs) [] = true
ge (x ∷ xs) (y ∷ ys) =
    let rest = ge xs ys in if ltb y x then true else if ltb x y then false else rest
