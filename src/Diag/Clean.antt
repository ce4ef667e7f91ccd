-- ===== src/Diag/Clean.antt =====
-- diag/diag.go: a tree in which every check has succeeded, and the first error that cmd/diagd finds in it.
use rout.Base.{◌≡◌, refl, inl, inr, [], ◌∷◌, Bytes, is_empty, arith, Bool-cases}
use rout.Diag.Monitor.{
  success, failure, Node, node, Nodes, nil, cons, own_result, evaluate, evaluate_all, first_error,
  first_error_in, message,
}

-- Every node's own check has succeeded.
unfoldable mutual
  pub AllOk : Node → Type 0
  AllOk (node name o children) = ((s : Bytes) × (o ≡ success s)) × AllOks children

  pub AllOks : Nodes → Type 0
  AllOks nil = Unit
  AllOks (cons n rest) = AllOk n × AllOks rest

message-ne-nil : (name status : Bytes) → message name status ≡ [] → ⊥
message-ne-nil [] status e = cc
message-ne-nil (c ∷ name) status e = cc

mutual
  unfolding evaluate evaluate_all first_error first_error_in own_result AllOk AllOks

  pub first_error-AllOk : (n : Node) → first_error (evaluate n []).0 ≡ [] → AllOk n
  first_error-AllOk (node name (failure x) children) e = absurd (message-ne-nil name x e)
  first_error-AllOk (node name (success s) children) e =
      ((s, refl), first_error_in-AllOks children e)

  first_error_in-AllOks : (ns : Nodes) → first_error_in (evaluate_all ns []).0 ≡ [] → AllOks ns
  first_error_in-AllOks nil e = tt
  first_error_in-AllOks (cons n rest) e =
      elim (Bool-cases (is_empty (first_error (evaluate n []).0))) [
        | inl fine ↦ (first_error-AllOk n (ground arith), first_error_in-AllOks rest (ground arith))
        | inr bad ↦ absurd (ground arith)
      ]

mutual
  unfolding evaluate evaluate_all first_error first_error_in own_result AllOk AllOks

  pub AllOk-first_error : (n : Node) → AllOk n → first_error (evaluate n []).0 ≡ []
  AllOk-first_error (node name (failure x) children) ((s, e), _) = cc
  AllOk-first_error (node name (success x) children) (_, below) =
      AllOks-first_error_in children below

  AllOks-first_error_in : (ns : Nodes) → AllOks ns → first_error_in (evaluate_all ns []).0 ≡ []
  AllOks-first_error_in nil all = refl
  AllOks-first_error_in (cons n rest) (first, later) =
      let fine = AllOk-first_error n first in
      let others = AllOks-first_error_in rest later in ground arith
