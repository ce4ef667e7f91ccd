-- ===== src/Diag/Monitor.antt =====
-- diag/diag.go: the tree of nodes and `evaluate`; cmd/diagd/diagd.go: `firstError` and `dump`.
use rout.Base.{
  ℕ, ◌+◌, ◌==◌, if◌then◌else◌, Bool, true, false, not, List, [], ◌∷◌, ◌++◌, Bytes, is_empty,
  replicate, text,
}

-- What `Evaluate` of one node returns.
pub data Outcome : Type 0 where
  success : Bytes → Outcome
  failure : Bytes → Outcome

-- A node with its `String`, what its `Evaluate` returns when it is called, and its children.
mutual
  pub data Node : Type 0 where
    node : Bytes → Outcome → Nodes → Node

  pub data Nodes : Type 0 where
    nil : Nodes
    cons : Node → Nodes → Nodes

-- `Name`, `Error`, `Status` and `Children`.
mutual
  pub data EvalResult : Type 0 where
    result : Bytes → Bool → Bytes → EvalResults → EvalResult

  pub data EvalResults : Type 0 where
    end : EvalResults
    entry : EvalResult → EvalResults → EvalResults

-- `Then`, the same code in every kind of node.
unfoldable pub append : Nodes → Node → Nodes
append nil t = cons t nil
append (cons n rest) t = cons n (append rest t)

unfoldable pub then_node : Node → Node → Node
then_node (node name outcome children) t = node name outcome (append children t)

pub record Own : Type 0 where
  pub is_error : Bool
  pub status : Bytes
  pub called : List Bytes

-- The node's own fields, and its name if its `Evaluate` is called.
unfoldable pub own_result : Bytes → Outcome → Bytes → Own
own_result name outcome err =
    if not (is_empty err)
    then record { is_error = true; status = err; called = [] }
    else elim outcome [
      | success s ↦ record { is_error = false; status = s; called = name ∷ [] }
      | failure e ↦ record { is_error = true; status = e; called = name ∷ [] }
    ]

abbrev pub child_error : Bytes → Bool → Bytes
child_error name is_error = if is_error then text "dependency " ++ name ++ text " failed" else []

-- `evaluate`, with the names of the nodes whose `Evaluate` it calls, in order.
unfoldable mutual
  pub evaluate : Node → Bytes → EvalResult × List Bytes
  evaluate (node name outcome children) err =
      let own = own_result name outcome err in
      let (results, called) = evaluate_all children (child_error name own.is_error) in
      (result name own.is_error own.status results, own.called ++ called)

  pub evaluate_all : Nodes → Bytes → EvalResults × List Bytes
  evaluate_all nil err = (end, [])
  evaluate_all (cons n rest) err =
      let (r, called) = evaluate n err in
      let (results, later) = evaluate_all rest err in (entry r results, called ++ later)

abbrev pub message : Bytes → Bytes → Bytes
message name status = name ++ text ": " ++ status

-- `firstError`; "" is the empty list.
unfoldable mutual
  pub first_error : EvalResult → Bytes
  first_error (result name is_error status children) =
      let rest = first_error_in children in if is_error then message name status else rest

  pub first_error_in : EvalResults → Bytes
  first_error_in end = []
  first_error_in (entry ch rest) =
      let msg = first_error ch in
      let later = first_error_in rest in if not (is_empty msg) then msg else later

-- `html.EscapeString`
unfoldable pub escape_char : ℕ → Bytes
escape_char c =
    if c == b'&'
    then text "&amp;"
    else if c == b'\''
    then text "&#39;"
    else if c == b'<'
    then text "&lt;"
    else if c == b'>'
    then text "&gt;"
    else if c == b'"'
    then text "&#34;"
    else c ∷ []

unfoldable pub escape_string : Bytes → Bytes
escape_string [] = []
escape_string (c ∷ rest) = escape_char c ++ escape_string rest

-- `strings.Repeat("  ", indent)`
abbrev pub indentation : ℕ → Bytes
indentation indent = replicate (indent + indent) b' '

-- The UTF-8 of the two symbols.
abbrev pub symbol : Bool → Bytes
symbol true = 226 ∷ 156 ∷ 152 ∷ []
symbol false = 226 ∷ 156 ∷ 148 ∷ []

-- `dump`, as the text that it writes.
unfoldable mutual
  pub dump : ℕ → EvalResult → Bytes
  dump indent (result name is_error status children) =
      text "<li>"
      ++ (10 ∷ [])
      ++ indentation indent
      ++ symbol is_error
      ++ text " "
      ++ escape_string name
      ++ text ": "
      ++ escape_string status
      ++ text "<ul>"
      ++ dump_all (indent + 1) children
      ++ text "</ul></li>"

  pub dump_all : ℕ → EvalResults → Bytes
  dump_all indent end = []
  dump_all indent (entry ch rest) = dump indent ch ++ dump_all indent rest
