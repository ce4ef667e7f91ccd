-- ===== src/Dhcp4d/Quirks/Period.antt =====
-- The binary search decides membership in the table of prefixes.
use mathlib.Core.Path.{◌≡◌}
use rout.Base.{
  ℕ, zero, suc, ◌≤◌, ◌<◌, ◌==◌, refl, ltb, if◌then◌else◌, Bool, Bool-cases, true, false, inl, inr,
  ◌&&◌, ◌||◌, List, [], ◌∷◌, Bytes, Bytes-discrete, arith, length, take, get_or,
}
use rout.Net.{bytes_eq, mac_string}
use rout.Hex.RoundTrip.{IsBytes, decode-mac_string}
use rout.Sort.{ge, search_sorted}
use rout.Sort.Search.{IsMonotone, IsBorder, search_sorted-IsBorder}
use rout.Sort.Order.{ge_refl, ge_trans, ge_antisymm, ascending, ascending-get_or}
use rout.Dhcp4d.Quirks.{
  hour, nintendo_mac_prefixes, period_for_prefix, period_for_decoded, lease_period_for_device,
}

-- Plain membership, the independent description of the search.
unfoldable pub member : Bytes → List Bytes → Bool
unfolding Bytes-discrete
member x [] = false
member x (y ∷ ys) = bytes_eq y x || member x ys

member-index :
    (x : Bytes) (ys : List Bytes)
    → member x ys ≡ true
    → (i : ℕ) × (i < length ys) × (get_or ys i [] ≡ x)
unfolding member
member-index x [] h = cc
member-index x (y ∷ ys) h = elim (Bytes-discrete y x) [
  | yes p ↦ (0, omega arith, p)
  | no p ↦ let (i, lt, e) = member-index x ys (ground arith) in (suc i, omega arith, e)
]

index-member : (ys : List Bytes) (i : ℕ) → i < length ys → member (get_or ys i []) ys ≡ true
unfolding member
index-member [] i h = absurd (omega arith)
index-member (y ∷ ys) zero h = ground arith
index-member (y ∷ ys) (suc i) h = ground (arith, index-member ys i)

-- On an ascending list, the entry at the border is the one looked for, if any is.
search-member :
    (xs : List Bytes) (x : Bytes) (r : ℕ)
    → ascending xs ≡ true
    → IsBorder (length xs) (λ i. ge (get_or xs i []) x) r
    → (ltb r (length xs) && bytes_eq (get_or xs r []) x) ≡ member x xs
search-member xs x r a b = elim (Bool-cases (member x xs)) [
  | inl found ↦
      let (i, lt, e) = member-index x xs found in
      let border : r ≤ i = grind (arith, b.before i, ge_refl x) in
      let above : ge (get_or xs r []) x ≡ true = b.from r (omega arith) (omega arith) in
      let below : ge x (get_or xs r []) ≡ true = rw (← e) (ascending-get_or xs r i a border lt) in
      let same : get_or xs r [] ≡ x = ge_antisymm (get_or xs r []) x above below in ground arith
  | inr absent ↦ ground (arith, index-member xs r)
]

prefixes_ascending : ascending nintendo_mac_prefixes ≡ true
unfolding ascending
prefixes_ascending = refl

-- A test that passes at an entry passes at every later one.
ge-IsMonotone :
    (xs : List Bytes) (x : Bytes)
    → ascending xs ≡ true
    → IsMonotone (length xs) (λ i. ge (get_or xs i []) x)
ge-IsMonotone xs x a i j le lt h =
    ge_trans (get_or xs j []) (get_or xs i []) x (ascending-get_or xs i j a le lt) h

-- The search for a prefix is membership in the table.
period_for_prefix-member :
    (period : ℕ) (prefix : Bytes)
    → period_for_prefix period prefix
      ≡ (if member prefix nintendo_mac_prefixes then hour else period)
unfolding period_for_prefix
period_for_prefix-member period prefix =
    let test : ℕ → Bool = λ i. ge (get_or nintendo_mac_prefixes i []) prefix in
    rw (
      search-member nintendo_mac_prefixes prefix (search_sorted (length nintendo_mac_prefixes) test)
        prefixes_ascending
        (search_sorted-IsBorder (length nintendo_mac_prefixes) test
          (ge-IsMonotone nintendo_mac_prefixes prefix prefixes_ascending)))

-- For every hardware address, given as bytes below 256, the server grants one hour exactly if the address has six bytes and its
-- first three are in the table, and the configured period otherwise.
pub lease_period-mac_string :
    (period : ℕ) (bs : Bytes)
    → IsBytes bs
    → lease_period_for_device period (mac_string bs)
      ≡ (if length bs == 6 && member (take 3 bs) nintendo_mac_prefixes then hour else period)
unfolding lease_period_for_device period_for_decoded
lease_period-mac_string period bs h =
    rw (decode-mac_string bs h) (ground (arith, period_for_prefix-member period (take 3 bs)))
