-- ===== src/Diag/Health.antt =====
-- cmd/diagd/diagd.go: the tree of checks of `logic`, and the reply of /health.json.
use rout.Base.{ℕ, ◌↔◌, ◌≡◌, List, [], ◌∷◌, ◌++◌, Bytes, All, text, arith}
use rout.Diag.Monitor.{success, Node, append, then_node, evaluate, first_error}
use rout.Diag.Clean.{AllOk, AllOks, first_error-AllOk, AllOk-first_error}
use rout.Diag.Surroundings.{Try, ok, err, Surroundings}
use rout.Diag.Checks.{
  outcome, Check, ping4gw, ping6gw, dhcpv4, dhcpv6, ping4, tcp4, tcp6, ra6, link, ping6,
  evaluate_check, leaf,
}

unfoldable pub tree : Surroundings → Bytes → Node
unfolding then_node append leaf
tree env uplink =
    then_node
      (then_node
        (then_node
          (then_node (leaf env (link uplink)) (
            then_node (leaf env dhcpv4) (
              then_node (leaf env ping4gw) (
                then_node (leaf env (ping4 (text "google.ch")))
                  (leaf env (tcp4 (text "www.google.ch:80")))))))
          (then_node (leaf env dhcpv6) (leaf env (ping6 (text "lan0") (text "google.ch")))))
        (then_node (leaf env (ra6 uplink)) (
          then_node (leaf env ping6gw) (
            then_node (leaf env (ping6 uplink (text "google.ch")))
              (leaf env (tcp6 (text "www.google.ch:80")))))))
      (leaf env (ping6 [] (text "ff02::2%" ++ uplink)))

-- The field `first_error` of /health.json.
unfoldable pub health : Surroundings → Bytes → Bytes
health env uplink = first_error (evaluate (tree env uplink) []).0

-- A reply of the HTTP server.
pub record HttpReply : Type 0 where
  pub status : ℕ
  pub content : Bytes

-- The handler of /health.json; `marshal` is `json.Marshal` of a reply with that field.
unfoldable pub health_json : (Bytes → Try Bytes) → Surroundings → Bytes → HttpReply
health_json marshal env uplink = elim (marshal (health env uplink)) [
  | err e ↦ record { status = 500; content = e ++ (10 ∷ []) }
  | ok b ↦ record { status = 200; content = b }
]

abbrev pub Succeeds : Surroundings → Check → Type 0
Succeeds env c = (s : Bytes) × (evaluate_check env c ≡ ok s)

ok_of_success : (t : Try Bytes) (s : Bytes) → outcome t ≡ success s → t ≡ ok s
ok_of_success (ok x) s e = ground arith
ok_of_success (err x) s e = cc

outcome-Succeeds :
    (env : Surroundings) (c : Check)
    → (s : Bytes) × (outcome (evaluate_check env c) ≡ success s)
    → Succeeds env c
outcome-Succeeds env c (s, e) = (s, ok_of_success (evaluate_check env c) s e)

success_of_ok : (t : Try Bytes) (s : Bytes) → t ≡ ok s → outcome t ≡ success s
success_of_ok (ok x) s e = ground arith
success_of_ok (err x) s e = cc

Succeeds-outcome :
    (env : Surroundings) (c : Check)
    → Succeeds env c
    → (s : Bytes) × (outcome (evaluate_check env c) ≡ success s)
Succeeds-outcome env c (s, e) = (s, success_of_ok (evaluate_check env c) s e)

-- The checks of the tree, each behind those that it depends on.
abbrev pub checks : Bytes → List Check
checks uplink =
    link uplink
    ∷ dhcpv4
    ∷ ping4gw
    ∷ ping4 (text "google.ch")
    ∷ tcp4 (text "www.google.ch:80")
    ∷ dhcpv6
    ∷ ping6 (text "lan0") (text "google.ch")
    ∷ ra6 uplink
    ∷ ping6gw
    ∷ ping6 uplink (text "google.ch")
    ∷ tcp6 (text "www.google.ch:80")
    ∷ ping6 [] (text "ff02::2%" ++ uplink)
    ∷ []

tree-Succeeds :
    (env : Surroundings) (uplink : Bytes)
    → AllOk (tree env uplink)
    → All (Succeeds env) (checks uplink)
unfolding tree AllOk AllOks
tree-Succeeds env uplink t =
    let v4 = t.1.0 in
    let v6 = t.1.1.0 in
    let ra = t.1.1.1.0 in
    let found = outcome-Succeeds env in
    (
      found (link uplink) t.0,
      (
        found dhcpv4 v4.0,
        (
          found ping4gw v4.1.0.0,
          (
            found (ping4 (text "google.ch")) v4.1.0.1.0.0,
            (
              found (tcp4 (text "www.google.ch:80")) v4.1.0.1.0.1.0.0,
              (
                found dhcpv6 v6.0,
                (
                  found (ping6 (text "lan0") (text "google.ch")) v6.1.0.0,
                  (
                    found (ra6 uplink) ra.0,
                    (
                      found ping6gw ra.1.0.0,
                      (
                        found (ping6 uplink (text "google.ch")) ra.1.0.1.0.0,
                        (
                          found (tcp6 (text "www.google.ch:80")) ra.1.0.1.0.1.0.0,
                          (found (ping6 [] (text "ff02::2%" ++ uplink)) t.1.1.1.1.0.0, tt),
                        ),
                      ),
                    ),
                  ),
                ),
              ),
            ),
          ),
        ),
      ),
    )

Succeeds-tree :
    (env : Surroundings) (uplink : Bytes)
    → All (Succeeds env) (checks uplink)
    → AllOk (tree env uplink)
unfolding tree AllOk AllOks
Succeeds-tree env uplink
      (c0, (c1, (c2, (c3, (c4, (c5, (c6, (c7, (c8, (c9, (c10, (c11, _)))))))))))) =
    let own = Succeeds-outcome env in
    let google4 = own (ping4 (text "google.ch")) c3 in
    let google6 = own (ping6 uplink (text "google.ch")) c9 in
    let web4 = own (tcp4 (text "www.google.ch:80")) c4 in
    let web6 = own (tcp6 (text "www.google.ch:80")) c10 in
    (
      own (link uplink) c0,
      (
        (own dhcpv4 c1, ((own ping4gw c2, ((google4, ((web4, tt), tt)), tt)), tt)),
        (
          (own dhcpv6 c5, ((own (ping6 (text "lan0") (text "google.ch")) c6, tt), tt)),
          (
            (own (ra6 uplink) c7, ((own ping6gw c8, ((google6, ((web6, tt), tt)), tt)), tt)),
            ((own (ping6 [] (text "ff02::2%" ++ uplink)) c11, tt), tt),
          ),
        ),
      ),
    )

-- /health.json reports no error exactly if each of the twelve checks has succeeded.
pub health-Succeeds :
    (env : Surroundings) (uplink : Bytes)
    → (health env uplink ≡ []) ↔ All (Succeeds env) (checks uplink)
unfolding health
health-Succeeds env uplink = (
  λ e. tree-Succeeds env uplink (first_error-AllOk (tree env uplink) e),
  λ all. AllOk-first_error (tree env uplink) (Succeeds-tree env uplink all),
)
