-- ===== src/Tests/Diag.antt =====
-- The monitor's theorems at the tree of a broken uplink.
use rout.Base.{◌≡◌, refl, [], ◌∷◌, ◌++◌, some, text}
use rout.Diag.Monitor.{
  success, failure, Node, node, nil, cons, EvalResult, then_node, append, own_result, evaluate,
  first_error,
}
use rout.Diag.Cause.{causes, first_message, first_error-causes}
use rout.Diag.Dependency.{result_at, Follows, evaluate-child}

abbrev dhcp4 : Node
dhcp4 = node (text "dhcp4") (failure (text "lease expired")) nil

abbrev ping4 : Node
ping4 = node (text "ping4/gateway") (success (text "1ms")) nil

abbrev ra6 : Node
ra6 = node (text "ra6/uplink0") (success (text "<ok>")) nil

abbrev uplink : Node
uplink = node (text "link/uplink0") (success (text "5 rx, 3 tx")) nil

unfoldable tree : Node
unfolding then_node append
tree = then_node (then_node uplink (then_node dhcp4 ping4)) ra6

first_error_of_tree : first_error (evaluate tree []).0 ≡ text "dhcp4: lease expired"
unfolding tree then_node evaluate own_result first_error
first_error_of_tree = refl

names_called : (evaluate tree []).1 ≡ text "link/uplink0" ∷ text "dhcp4" ∷ text "ra6/uplink0" ∷ []
unfolding tree then_node evaluate own_result
names_called = refl

names_its_cause : first_error (evaluate tree []).0 ≡ first_message (causes tree)
names_its_cause = first_error-causes tree

abbrev dhcp4_tree : Node
dhcp4_tree = node (text "dhcp4") (failure (text "lease expired")) (cons ping4 nil)

evaluate-child_example :
    (r : EvalResult) × (rc : EvalResult) × (result_at (evaluate tree []).0 (0 ∷ []) ≡ some r)
    × (result_at (evaluate tree []).0 ((0 ∷ []) ++ (0 ∷ [])) ≡ some rc)
    × Follows dhcp4_tree r ping4 rc
unfolding tree then_node
evaluate-child_example = evaluate-child tree dhcp4_tree ping4 (0 ∷ []) 0 refl refl
