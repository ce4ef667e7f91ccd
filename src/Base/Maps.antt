-- ===== src/Base/Maps.antt =====
-- Go's maps, as association lists with each key once. `lookup` is the library's.
use Prim.Native.Nat.{ℕ, zero, suc, ◌+◌, ◌≤◌, ◌<◌}
use mathlib.Core.Path.{◌≡◌, refl}
use mathlib.Core.Logic.{◌≢◌, ite}
use mathlib.Core.Option.{none, some}
use mathlib.Core.List.{List, [], ◌∷◌, lookup}
use native.Mathlib.Omega.{arith}
use rout.Base.Lists.{length}

module _ {ℓ} {K V : Type ℓ} where
  abbrev pub values : List (K × V) → List V
  values [] = []
  values ((k, v) ∷ m) = v ∷ values m

module _ {ℓ} {K V : Type ℓ} (dec : Discrete K) where
  -- `delete(m, k)`
  unfoldable pub delete : K → List (K × V) → List (K × V)
  delete k [] = []
  delete k ((j, v) ∷ m) = let rest = delete k m in ite (dec k j) rest ((j, v) ∷ rest)

  -- `m[k] = v`
  unfoldable pub insert : K → V → List (K × V) → List (K × V)
  insert k v m = (k, v) ∷ delete k m

  -- No key occurs twice, so the length is Go's `len(m)`.
  abbrev pub Distinct : List (K × V) → Type ℓ
  Distinct [] = Unit
  Distinct ((k, v) ∷ m) = (lookup dec k m ≡ none) × Distinct m

  pub lookup-delete :
      (j k : K) (m : List (K × V)) → lookup dec j (delete k m) ≡ ite (dec k j) none (lookup dec j m)
  unfolding lookup delete
  lookup-delete j k [] = ground arith
  lookup-delete j k ((i, v) ∷ m) = ground (arith, lookup-delete j k m)

  pub lookup-insert :
      (j k : K) (v : V) (m : List (K × V))
      → lookup dec j (insert k v m) ≡ ite (dec k j) (some v) (lookup dec j m)
  unfolding lookup insert
  lookup-insert j k v m = ground (arith, lookup-delete j k m)

  pub delete-Distinct : (k : K) (m : List (K × V)) → Distinct m → Distinct (delete k m)
  unfolding delete
  delete-Distinct k [] d = d
  delete-Distinct k ((i, v) ∷ m) d = ground (arith, delete-Distinct k m d.1, lookup-delete i k m)

  pub insert-Distinct : (k : K) (v : V) (m : List (K × V)) → Distinct m → Distinct (insert k v m)
  unfolding insert
  insert-Distinct k v m d = (ground (arith, lookup-delete k k m), delete-Distinct k m d)

  delete_absent : (k : K) (m : List (K × V)) → lookup dec k m ≡ none → delete k m ≡ m
  unfolding lookup delete
  delete_absent k [] h = refl
  delete_absent k ((i, v) ∷ m) h = ground (arith, delete_absent k m)

  -- Deleting a key that is there shortens the map by one.
  pub length-delete :
      (k : K) (m : List (K × V))
      → Distinct m
      → lookup dec k m ≢ none
      → length (delete k m) + 1 ≡ length m
  unfolding lookup delete
  length-delete k [] d h = absurd (h refl)
  length-delete k ((i, v) ∷ m) d h = ground (arith, delete_absent k m, length-delete k m d.1)

-- Pigeonhole: a map that has the keys `f 0, ..., f (n - 1)` has at least `n` entries.
module _ {ℓ} {K V : Type ℓ} (dec : Discrete K) (f : ℕ → K) where
  pub le_length_of_keys :
      (inj : (i j : ℕ) → f i ≡ f j → i ≡ j) (n : ℕ) (m : List (K × V))
      → Distinct dec m
      → ((i : ℕ) → i < n → lookup dec (f i) m ≢ none)
      → n ≤ length m
  le_length_of_keys inj zero m d h = omega arith
  le_length_of_keys inj (suc n) m d h = omega (
    arith,
    length-delete dec (f n) m d (h n (omega arith)),
    le_length_of_keys inj n (delete dec (f n) m) (delete-Distinct dec (f n) m d)
        (λ i lt e. h i (omega arith) (ground (arith, lookup-delete dec (f i) (f n) m, inj n i))),
  )
