-- ===== src/Dhcp4/Healthy.antt =====
-- cmd/dhcp4/dhcp4.go: `healthy`, and what it finds out from cmd/diagd.
use rout.Base.{
  ℕ, ◌==◌, ◌≡◌, ◌↔◌, refl, inl, inr, if◌then◌else◌, true, not, Bool-cases, [], ◌∷◌, ◌++◌, Option,
  none, some, Bytes, All, is_empty, text, arith,
}
use rout.Diag.Surroundings.{Try, ok, err, Surroundings}
use rout.Diag.Health.{HttpReply, health, health_json, Succeeds, checks, health-Succeeds}

-- A response: its body is what was read, and the error that ended the reading.
pub record Response : Type 0 where
  pub status_code : ℕ
  pub status_line : Bytes
  pub body : Bytes
  pub body_error : Option Bytes

-- The error of `healthy`. Its arguments are the error of `NewRequest`, what the server at port 7733
-- answers within 30s, and the field `first_error` that `json.Unmarshal` reads.
unfoldable pub healthy : (Bytes → Try Bytes) → Option Bytes → Try Response → Option Bytes
healthy unmarshal (some e) answer = some e
healthy unmarshal none (err e) = some e
healthy unmarshal none (ok resp) =
    if not (resp.status_code == 200)
    then some (
        text "http://localhost:7733/health.json: got HTTP "
        ++ resp.status_line
        ++ text " ("
        ++ resp.body
        ++ text "), want HTTP status 200")
    else elim resp.body_error [
      | some e ↦ some e
      | none ↦ elim (unmarshal resp.body) [
        | err e ↦ some e
        | ok reported ↦ if not (is_empty reported) then some reported else none
      ]
    ]

-- encoding/json encodes every text; read back, one is empty exactly if it was.
abbrev pub EncodesTexts : (Bytes → Try Bytes) → (Bytes → Try Bytes) → Type 0
EncodesTexts marshal unmarshal =
    (s : Bytes)
    → (b : Bytes) × (r : Bytes) × (marshal s ≡ ok b)
      × (unmarshal b ≡ ok r)
      × (is_empty r ≡ is_empty s)

-- The reply of diagd as it arrives.
abbrev pub delivered : HttpReply → Bytes → Response
delivered r line = record {
  status_code = r.status;
  status_line = line;
  body = r.content;
  body_error = none;
}

empty_iff : (s : Bytes) → (is_empty s ≡ true) ↔ (s ≡ [])
empty_iff [] = (λ e. refl, λ e. refl)
empty_iff (c ∷ s) = (λ e. cc, λ e. cc)

healthy-reported :
    (marshal unmarshal : Bytes → Try Bytes) (env : Surroundings) (uplink line : Bytes)
    → EncodesTexts marshal unmarshal
    → (healthy unmarshal none (ok (delivered (health_json marshal env uplink) line)) ≡ none)
      ↔ (health env uplink ≡ [])
unfolding healthy health_json
healthy-reported marshal unmarshal env uplink line laws =
    let (b, r, encoded, decoded, same) = laws (health env uplink) in
    let empty = empty_iff (health env uplink) in
    rw (encoded, decoded, same, health_json, healthy)
      (elim (Bool-cases (is_empty (health env uplink))) [
        | inl is ↦ rw is (λ e. empty.0 is, λ e. refl)
        | inr is ↦ rw is (λ e. cc, λ e. absurd (ground arith))
      ])

-- With the server of diagd reached, `healthy` returns nil exactly if each of diagd's twelve checks
-- succeeds.
pub healthy-Succeeds :
    (marshal unmarshal : Bytes → Try Bytes) (env : Surroundings) (uplink line : Bytes)
    → EncodesTexts marshal unmarshal
    → (healthy unmarshal none (ok (delivered (health_json marshal env uplink) line)) ≡ none)
      ↔ All (Succeeds env) (checks uplink)
healthy-Succeeds marshal unmarshal env uplink line laws =
    let reported = healthy-reported marshal unmarshal env uplink line laws in
    let found = health-Succeeds env uplink in
    (λ e. found.0 (reported.0 e), λ all. reported.1 (found.1 all))
