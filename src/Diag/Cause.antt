-- ===== src/Diag/Cause.antt =====
-- What `evaluate` and `firstError` say of a tree of nodes.
use rout.Base.{
  ℕ, zero, suc, ◌≡◌, refl, if◌then◌else◌, false, not, List, [], ◌∷◌, ◌++◌, Option, none, some,
  Bytes, is_empty,
}
use rout.Diag.Monitor.{
  success, failure, Node, Nodes, node, nil, cons, own_result, evaluate, evaluate_all, message,
  first_error, first_error_in,
}

-- The failures among the nodes that no ancestor's failure hides, in the order of the tree.
unfoldable mutual
  pub causes : Node → List (Bytes × Bytes)
  causes (node name (success s) children) = causes_in children
  causes (node name (failure e) children) = (name, e) ∷ []

  pub causes_in : Nodes → List (Bytes × Bytes)
  causes_in nil = []
  causes_in (cons n rest) = causes n ++ causes_in rest

abbrev pub first_message : List (Bytes × Bytes) → Bytes
first_message [] = []
first_message ((name, e) ∷ rest) = message name e

message-is_empty : (name e : Bytes) → is_empty (message name e) ≡ false
message-is_empty [] e = refl
message-is_empty (c ∷ name) e = refl

first_message-append :
    (xs ys : List (Bytes × Bytes))
    → first_message (xs ++ ys)
      ≡ (if not (is_empty (first_message xs)) then first_message xs else first_message ys)
first_message-append [] ys = refl
first_message-append ((name, e) ∷ xs) ys = rw (message-is_empty name e) refl

mutual
  unfolding evaluate first_error causes own_result

  first_error_lem : (n : Node) → first_error (evaluate n []).0 ≡ first_message (causes n)
  first_error_lem (node name (success s) children) = first_error_in_lem children
  first_error_lem (node name (failure e) children) = refl

  first_error_in_lem :
      (ns : Nodes) → first_error_in (evaluate_all ns []).0 ≡ first_message (causes_in ns)
  first_error_in_lem nil = refl
  first_error_in_lem (cons n rest) =
      rw
        (
          first_error_lem n,
          first_error_in_lem rest,
          first_message-append (causes n) (causes_in rest),
        )
        refl

-- `firstError` of a whole evaluation is the message of the first node that itself failed, in the order
-- of the tree, and empty if no node's evaluation failed.
pub first_error-causes : (n : Node) → first_error (evaluate n []).0 ≡ first_message (causes n)
first_error-causes n = first_error_lem n

-- The nodes and the results at a path of child numbers.
abbrev pub child_at : Nodes → ℕ → Option Node
child_at nil i = none
child_at (cons n rest) zero = some n
child_at (cons n rest) (suc i) = child_at rest i

abbrev pub children_of : Node → Nodes
children_of (node name outcome children) = children

abbrev pub node_name : Node → Bytes
node_name (node name outcome children) = name

abbrev pub node_at : Node → List ℕ → Option Node
node_at n [] = some n
node_at n (i ∷ path) = elim (child_at (children_of n) i) [ none ↦ none | some m ↦ node_at m path ]
