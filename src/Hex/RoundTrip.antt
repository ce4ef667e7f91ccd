-- ===== src/Hex/RoundTrip.antt =====
-- The text of a hardware address decodes to its bytes.
use rout.Base.{ℕ, ◌/◌, ◌%◌, ◌<◌, ◌≡◌, ◌==◌, refl, ap, false, [], ◌∷◌, some, Bytes, All, arith}
use rout.Net.{hex_digit, octets, mac_string}
use rout.Hex.{digit_value, decode, remove_colons}

digit_value-hex_digit : (d : ℕ) → d < 16 → digit_value (hex_digit d) ≡ some d
unfolding digit_value hex_digit
digit_value-hex_digit d h = ground arith

hex_digit_no_colon : (d : ℕ) → d < 16 → (hex_digit d == b':') ≡ false
unfolding hex_digit
hex_digit_no_colon d h = ground arith

abbrev pub IsBytes : Bytes → Type 0
IsBytes = All (λ b. b < 256)

-- Two digits and what follows them, read back.
decode-digits :
    (b : ℕ) (rest : Bytes) {bs : Bytes}
    → b < 256
    → decode (remove_colons rest) ≡ some bs
    → decode (remove_colons (hex_digit (b / 16) ∷ hex_digit (b % 16) ∷ rest)) ≡ some (b ∷ bs)
unfolding decode remove_colons
decode-digits b rest {bs} h e =
    let hi : b / 16 < 16 = omega arith in
    let lo : b % 16 < 16 = omega arith in
    rw
      (
        hex_digit_no_colon (b / 16) hi,
        hex_digit_no_colon (b % 16) lo,
        digit_value-hex_digit (b / 16) hi,
        digit_value-hex_digit (b % 16) lo,
        e,
      )
      (ap (λ (n : ℕ). some (n ∷ bs)) (omega arith))

decode-octets : (bs : Bytes) → IsBytes bs → decode (remove_colons (octets bs)) ≡ some bs
unfolding decode remove_colons octets
decode-octets [] h = refl
decode-octets (b ∷ bs) h = decode-digits b (octets bs) h.0 (decode-octets bs h.1)

-- Whatever its length, a hardware address is recovered from its text.
pub decode-mac_string : (bs : Bytes) → IsBytes bs → decode (remove_colons (mac_string bs)) ≡ some bs
unfolding decode remove_colons mac_string
decode-mac_string [] h = refl
decode-mac_string (b ∷ bs) h = decode-digits b (octets bs) h.0 (decode-octets bs h.1)
