-- ===== src/Diag/Dependency.antt =====
-- How a failure reaches the nodes below it.
use rout.Base.{
  ℕ, zero, suc, ◌≡◌, ◌⊎◌, inl, inr, ◌∙◌, ap, refl, Bool, Bool-cases, Option-cases, true, false,
  List, [], ◌∷◌, ◌++◌, Option, none, some, Bytes, text, arith,
}
use rout.Diag.Monitor.{
  failure, Node, Nodes, node, nil, cons, EvalResult, EvalResults, result, end, entry, own_result,
  child_error, evaluate, evaluate_all,
}
use rout.Diag.Cause.{child_at, children_of, node_name, node_at}

abbrev pub entry_at : EvalResults → ℕ → Option EvalResult
entry_at end i = none
entry_at (entry r rest) zero = some r
entry_at (entry r rest) (suc i) = entry_at rest i

abbrev pub entries_of : EvalResult → EvalResults
entries_of (result name is_error status children) = children

abbrev pub result_name : EvalResult → Bytes
result_name (result name is_error status children) = name

abbrev pub has_error : EvalResult → Bool
has_error (result name is_error status children) = is_error

abbrev pub status_of : EvalResult → Bytes
status_of (result name is_error status children) = status

abbrev pub result_at : EvalResult → List ℕ → Option EvalResult
result_at r [] = some r
result_at r (i ∷ path) = elim (entry_at (entries_of r) i) [
  | none ↦ none
  | some s ↦ result_at s path
]

result_at-append :
    (r s : EvalResult) (path : List ℕ) (i : ℕ)
    → result_at r path ≡ some s
    → result_at r (path ++ (i ∷ [])) ≡ entry_at (entries_of s) i
result_at-append r s [] i e = elim (Option-cases (entry_at (entries_of s) i)) [
  | inl out ↦ ground arith
  | inr (t, found) ↦ ground arith
]
result_at-append r s (j ∷ path) i e = elim (Option-cases (entry_at (entries_of r) j)) [
  | inl out ↦ absurd (ground arith)
  | inr (t, found) ↦
      rw (found, result_at) (result_at-append t s path i (rw (found, result_at) at e))
]

entry_at-evaluate_all :
    (ns : Nodes) (i : ℕ) (c : Node) (err : Bytes)
    → child_at ns i ≡ some c
    → entry_at (evaluate_all ns err).0 i ≡ some (evaluate c err).0
unfolding evaluate
entry_at-evaluate_all nil i c err e = cc
entry_at-evaluate_all (cons n rest) zero c err e = ground arith
entry_at-evaluate_all (cons n rest) (suc i) c err e = entry_at-evaluate_all rest i c err e

entry_at-evaluate :
    (m c : Node) (i : ℕ) (err : Bytes)
    → child_at (children_of m) i ≡ some c
    → entry_at (entries_of (evaluate m err).0) i
      ≡ some (evaluate c (child_error (node_name m) (has_error (evaluate m err).0))).0
unfolding evaluate
entry_at-evaluate (node name outcome children) c i err e =
    entry_at-evaluate_all children i c (child_error name (own_result name outcome err).is_error) e

result_at-evaluate :
    (n m : Node) (path : List ℕ) (err : Bytes)
    → node_at n path ≡ some m
    → (err' : Bytes) × (result_at (evaluate n err).0 path ≡ some (evaluate m err').0)
result_at-evaluate n m [] err e = (err, ground arith)
result_at-evaluate n m (i ∷ path) err e = elim (Option-cases (child_at (children_of n) i)) [
  | inl out ↦ absurd (ground arith)
  | inr (c, found) ↦
      let below = child_error (node_name n) (has_error (evaluate n err).0) in
      let (err', at) = result_at-evaluate c m path below (rw (found, node_at) at e) in
      (err', rw (entry_at-evaluate n c i err found, result_at) at)
]

evaluate-name : (n : Node) (err : Bytes) → result_name (evaluate n err).0 ≡ node_name n
unfolding evaluate
evaluate-name (node name outcome children) err = refl

blocked :
    (n : Node) (b : ℕ) (err : Bytes)
    → (has_error (evaluate n (b ∷ err)).0 ≡ true) × (status_of (evaluate n (b ∷ err)).0 ≡ b ∷ err)
unfolding evaluate own_result
blocked (node name outcome children) b err = (ground arith, ground arith)

-- What the result `rc` of the child `c` of `m` says, over the result `r` of `m`.
abbrev pub Follows : Node → EvalResult → Node → EvalResult → Type 0
Follows m r c rc =
    (result_name rc ≡ node_name c)
    × (((has_error r ≡ true)
          × (has_error rc ≡ true)
          × (status_of rc ≡ text "dependency " ++ node_name m ++ text " failed"))
        ⊎ ((has_error r ≡ false) × (rc ≡ (evaluate c []).0)))

follows :
    (m c : Node) (r : EvalResult)
    → Follows m r c (evaluate c (child_error (node_name m) (has_error r))).0
follows m c r = elim (Bool-cases (has_error r)) [
  | inl failed ↦
      let (bad, why) = blocked c b'd' (text "ependency " ++ node_name m ++ text " failed") in
      rw failed (evaluate-name c _, inl (refl, bad, why))
  | inr fine ↦ rw fine (evaluate-name c _, inr (refl, refl))
]

-- Wherever the tree has a node `m` with a child `c`, the results have one for `m` and, as its child,
-- one for `c`: if the result of `m` is an error, so is that of `c`, with the text that `m` failed; if
-- not, it is the result that `c` has when it is evaluated alone.
pub evaluate-child :
    (n m c : Node) (path : List ℕ) (i : ℕ)
    → node_at n path ≡ some m
    → child_at (children_of m) i ≡ some c
    → (r : EvalResult) × (rc : EvalResult) × (result_at (evaluate n []).0 path ≡ some r)
      × (result_at (evaluate n []).0 (path ++ (i ∷ [])) ≡ some rc)
      × Follows m r c rc
evaluate-child n m c path i at_m at_c =
    let (err, at_r) = result_at-evaluate n m path [] at_m in
    let r = (evaluate m err).0 in
    (
      r,
      (evaluate c (child_error (node_name m) (has_error r))).0,
      at_r,
      result_at-append (evaluate n []).0 r path i at_r ∙ entry_at-evaluate m c i err at_c,
      follows m c r,
    )

mutual
  unfolding evaluate own_result

  silent : (n : Node) (b : ℕ) (err : Bytes) → (evaluate n (b ∷ err)).1 ≡ []
  silent (node name outcome children) b err =
      silent_all children b'd' (text "ependency " ++ name ++ text " failed")

  silent_all : (ns : Nodes) (b : ℕ) (err : Bytes) → (evaluate_all ns (b ∷ err)).1 ≡ []
  silent_all nil b err = refl
  silent_all (cons n rest) b err = rw (silent n b err, silent_all rest b err) refl

-- No node below a failed one is evaluated.
pub failure_stops :
    (name e : Bytes) (children : Nodes)
    → (evaluate (node name (failure e) children) []).1 ≡ name ∷ []
unfolding evaluate own_result
failure_stops name e children =
    ap (◌∷◌ name) (silent_all children b'd' (text "ependency " ++ name ++ text " failed"))
