-- ===== src/Diag/Page.antt =====
-- The page that cmd/diagd serves.
use rout.Base.{
  ℕ, suc, ◌+◌, ◌*◌, ◌==◌, ◌≡◌, ◌∙◌, refl, zero, if◌then◌else◌, Bool, Bool-cases, inl, inr, true,
  false, [], ◌∷◌, ◌++◌, Bytes, arith, replicate,
}
use rout.Diag.Monitor.{
  EvalResult, EvalResults, result, end, entry, escape_char, escape_string, symbol, dump, dump_all,
}

-- How often `<` stands in a text.
abbrev pub count_lt : Bytes → ℕ
count_lt [] = 0
count_lt (c ∷ rest) = let n = count_lt rest in if c == b'<' then suc n else n

abbrev mutual
  pub count_results : EvalResult → ℕ
  count_results (result name is_error status children) = suc (count_results_in children)

  pub count_results_in : EvalResults → ℕ
  count_results_in end = 0
  count_results_in (entry r rest) = count_results r + count_results_in rest

count_lt-append : (xs ys : Bytes) → count_lt (xs ++ ys) ≡ count_lt xs + count_lt ys
count_lt-append [] ys = omega arith
count_lt-append (c ∷ xs) ys = elim (Bool-cases (c == b'<')) [
  | inl e ↦ ground (arith, count_lt-append xs ys)
  | inr e ↦ ground (arith, count_lt-append xs ys)
]

count_lt-escape_char : (c : ℕ) → count_lt (escape_char c) ≡ 0
unfolding escape_char
count_lt-escape_char c = ground arith

count_lt-escape_string : (s : Bytes) → count_lt (escape_string s) ≡ 0
unfolding escape_string
count_lt-escape_string [] = refl
count_lt-escape_string (c ∷ s) =
    count_lt-append (escape_char c) (escape_string s)
    ∙ rw (count_lt-escape_char c, count_lt-escape_string s) refl

count_lt-blanks : (k : ℕ) → count_lt (replicate k b' ') ≡ 0
count_lt-blanks zero = refl
count_lt-blanks (suc k) = ground (arith, count_lt-blanks k)

count_lt-symbol : (b : Bool) → count_lt (symbol b) ≡ 0
count_lt-symbol true = refl
count_lt-symbol false = refl

mutual
  unfolding dump

  count_lt-dump : (indent : ℕ) (r : EvalResult) → count_lt (dump indent r) ≡ 4 * count_results r
  count_lt-dump indent (result name is_error status children) =
      simp
        (
          count_lt-append,
          count_lt-blanks (indent + indent),
          count_lt-symbol is_error,
          count_lt-escape_string name,
          count_lt-escape_string status,
          count_lt-dump_all (indent + 1) children,
        )
        (omega arith)

  count_lt-dump_all :
      (indent : ℕ) (rs : EvalResults) → count_lt (dump_all indent rs) ≡ 4 * count_results_in rs
  count_lt-dump_all indent end = refl
  count_lt-dump_all indent (entry r rest) =
      count_lt-append (dump indent r) (dump_all indent rest)
      ∙ omega (arith, count_lt-dump indent r, count_lt-dump_all indent rest)

-- The page has four `<` for each result, those of its own tags: no name and no status adds markup.
pub dump-lt : (r : EvalResult) → count_lt (dump 0 r) ≡ 4 * count_results r
dump-lt r = count_lt-dump 0 r
