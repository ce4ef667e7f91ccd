-- ===== src/Strings.antt =====
-- Parts of Go's `strings` and `fmt`, for separators of one byte and unsigned numbers.
use rout.Base.{
  ℕ, zero, suc, ◌+◌, ◌/◌, ◌%◌, ◌==◌, ltb, if◌then◌else◌, List, [], ◌∷◌, Option, none, some, Bytes,
}

-- `strings.Split`
unfoldable pub split : ℕ → Bytes → List Bytes
split sep [] = [] ∷ []
split sep (c ∷ rest) =
    let parts = split sep rest in
    if c == sep
    then [] ∷ parts
    else elim parts [ [] ↦ (c ∷ []) ∷ [] | part ∷ more ↦ (c ∷ part) ∷ more ]

-- The parts in front of and behind the first separator, `ctl[:idx]` and `ctl[idx+1:]` for its index;
-- `none` where there is none.
unfoldable pub cut : ℕ → Bytes → Option (Bytes × Bytes)
cut sep [] = none
cut sep (c ∷ rest) =
    let later = cut sep rest in
    if c == sep
    then some ([], rest)
    else elim later [ none ↦ none | some (front, behind) ↦ some (c ∷ front, behind) ]

-- `strings.Replace` of each occurrence.
unfoldable pub replace_all : ℕ → ℕ → Bytes → Bytes
replace_all old new [] = []
replace_all old new (c ∷ rest) = (if c == old then new else c) ∷ replace_all old new rest

-- The digits of a number in front of others; as many rounds as the number suffice.
unfoldable pub decimal_digits : ℕ → ℕ → Bytes → Bytes
decimal_digits zero n behind = behind
decimal_digits (suc rounds) n behind =
    let digits = (48 + n % 10) ∷ behind in
    let more = decimal_digits rounds (n / 10) digits in if ltb n 10 then digits else more

-- The verb `%d`.
unfoldable pub format_decimal : ℕ → Bytes
format_decimal n = decimal_digits (suc n) n []
