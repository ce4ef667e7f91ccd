-- ===== src/Sort/Search.antt =====
-- Binary search finds the border of a monotone test, with fuel to spare.
use rout.Base.{
  ℕ, zero, suc, ◌+◌, ◌-◌, ◌/◌, ◌≤◌, ◌<◌, ◌≡◌, ltb, Bool, Bool-cases, true, false, inl, inr, arith,
  ltb→lt,
}
use rout.Sort.{search_loop, search_sorted}

-- Once the test passes, it passes from there on.
abbrev pub IsMonotone : ℕ → (ℕ → Bool) → Type 0
IsMonotone n f = (i j : ℕ) → i ≤ j → j < n → f i ≡ true → f j ≡ true

-- `r` is the first index below `n` at which the test passes, or `n`.
pub record IsBorder (n : ℕ) (f : ℕ → Bool) (r : ℕ) : Type 0 where
  pub bound : r ≤ n
  pub before : (k : ℕ) → k < r → f k ≡ false
  pub from : (k : ℕ) → r ≤ k → k < n → f k ≡ true

module _ (n : ℕ) (f : ℕ → Bool) (mono : IsMonotone n f) where
  not_before : (h : ℕ) → h < n → f h ≡ false → (k : ℕ) → k < h + 1 → f k ≡ false
  not_before h hn miss k lt = elim (Bool-cases (f k)) [
    | inl hit ↦ absurd (ground (arith, mono k h (omega arith) hn hit))
    | inr e ↦ e
  ]

  search_loop-IsBorder :
      (fuel i j : ℕ)
      → j - i ≤ fuel
      → i ≤ j
      → j ≤ n
      → ((k : ℕ) → k < i → f k ≡ false)
      → ((k : ℕ) → j ≤ k → k < n → f k ≡ true)
      → IsBorder n f (search_loop fuel f i j)
  unfolding search_loop
  search_loop-IsBorder zero i j d ij jn b a = record {
    bound = omega arith;
    before = b;
    from = λ k ik kn. a k (omega arith) kn;
  }
  search_loop-IsBorder (suc fuel) i j d ij jn b a = elim (Bool-cases (ltb i j)) [
    | inr stop ↦
        rw stop
          (record { bound = omega arith; before = b; from = λ k ik kn. a k (ground arith) kn })
    | inl go ↦
        let lt = ltb→lt i j go in
        elim (Bool-cases (f ((i + j) / 2))) [
          | inl hit ↦
              rw (go, hit)
                (search_loop-IsBorder fuel i ((i + j) / 2) (omega arith) (omega arith) (omega arith)
                  b (λ k hk kn. mono ((i + j) / 2) k hk kn hit))
          | inr miss ↦
              rw (go, miss)
                (search_loop-IsBorder fuel ((i + j) / 2 + 1) j (omega arith) (omega arith) jn
                  (not_before ((i + j) / 2) (omega arith) miss) a)
        ]
  ]

  pub search_sorted-IsBorder : IsBorder n f (search_sorted n f)
  unfolding search_sorted
  search_sorted-IsBorder =
      search_loop-IsBorder n 0 n (omega arith) (omega arith) (omega arith) (λ k h. elim h [ ])
        (λ k h kn. absurd (omega arith))
