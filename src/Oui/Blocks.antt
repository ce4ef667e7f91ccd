-- ===== src/Oui/Blocks.antt =====
-- util/oui/oui.go: which block a record of the file is for.
use rout.Base.{
  ℕ, suc, ◌+◌, ◌*◌, ◌⊎◌, ◌/◌, ◌%◌, ◌<◌, ◌≡◌, ◌&&◌, leb, if◌then◌else◌, inl, inr, refl, Option-cases,
  List, [], ◌∷◌, Option, none, some, Bytes, arith,
}
use rout.Net.{mac_string, hex_digit, octets}
use rout.Hex.{digit_value}
use rout.Oui.Database.{Outcome, done, fails, panics, hex_decode, record_entry}

abbrev lower : ℕ → ℕ
lower c = if leb b'A' c && leb c b'F' then c + 32 else c

-- The block of an assignment of six digits, in the form in which hardware addresses begin with it: in
-- lower case, and with colons.
abbrev pub block_of : Bytes → Option Bytes
block_of (a ∷ b ∷ c ∷ d ∷ e ∷ f ∷ []) =
    some (lower a ∷ lower b ∷ b':' ∷ lower c ∷ lower d ∷ b':' ∷ lower e ∷ lower f ∷ [])
block_of _ = none

pub Outcome-cases {ℓ} :
    {A : Type ℓ} (o : Outcome A) → ((a : A) × (o ≡ done a)) ⊎ (o ≡ fails) ⊎ (o ≡ panics)
Outcome-cases (done a) = inl (a, refl)
Outcome-cases fails = inr (inl refl)
Outcome-cases panics = inr (inr refl)

digit_value-lower : (c v : ℕ) → digit_value c ≡ some v → (v < 16) × (hex_digit v ≡ lower c)
unfolding digit_value hex_digit
digit_value-lower c v e = (ground arith, ground arith)

nibbles : (hi lo : ℕ) → hi < 16 → lo < 16 → ((hi * 16 + lo) / 16 ≡ hi) × ((hi * 16 + lo) % 16 ≡ lo)
nibbles hi lo h l = (omega arith, omega arith)

hex_pair :
    (room a b : ℕ) (rest : Bytes) (x : ℕ) (xs : Bytes)
    → hex_decode (suc room) (a ∷ b ∷ rest) ≡ done (x ∷ xs)
    → (hex_digit (x / 16) ≡ lower a)
      × (hex_digit (x % 16) ≡ lower b)
      × (hex_decode room rest ≡ done xs)
unfolding hex_decode
hex_pair room a b rest x xs e = elim (Option-cases (digit_value a)) [
  | inl bad ↦ absurd (ground arith)
  | inr (hi, high) ↦ elim (Option-cases (digit_value b)) [
    | inl bad ↦ absurd (ground arith)
    | inr (lo, low) ↦
        let (h, is_high) = digit_value-lower a hi high in
        let (l, is_low) = digit_value-lower b lo low in
        let (q, r) = nibbles hi lo h l in
        elim (Outcome-cases (hex_decode room rest)) [
          | inr (inl bad) ↦ absurd (ground arith)
          | inr (inr bad) ↦ absurd (ground arith)
          | inl (ys, later) ↦
              let same : x ≡ hi * 16 + lo = ground arith in
              let tail : ys ≡ xs = ground arith in
              (rw (same, q) is_high, rw (same, r) is_low, rw (← tail) later)
        ]
  ]
]

no_room : (s : Bytes) → hex_decode 0 s ≡ done [] → s ≡ []
unfolding hex_decode
no_room [] e = refl
no_room (a ∷ []) e = absurd (ground arith)
no_room (a ∷ b ∷ rest) e = elim (Option-cases (digit_value a)) [
  | inl bad ↦ absurd (ground arith)
  | inr (hi, high) ↦ elim (Option-cases (digit_value b)) [
    | inl bad ↦ absurd (ground arith)
    | inr (lo, low) ↦ absurd (ground arith)
  ]
]

last_pair :
    (a b c d : ℕ) (s : Bytes) (x y z : ℕ)
    → hex_digit (x / 16) ≡ lower a
    → hex_digit (x % 16) ≡ lower b
    → hex_digit (y / 16) ≡ lower c
    → hex_digit (y % 16) ≡ lower d
    → hex_decode 1 s ≡ done (z ∷ [])
    → block_of (a ∷ b ∷ c ∷ d ∷ s) ≡ some (mac_string (x ∷ y ∷ z ∷ []))
unfolding hex_decode mac_string octets
last_pair a b c d [] x y z x1 x2 y1 y2 more = absurd (ground arith)
last_pair a b c d (e ∷ []) x y z x1 x2 y1 y2 more = absurd (ground arith)
last_pair a b c d (e ∷ f ∷ s) x y z x1 x2 y1 y2 more =
    let (z1, z2, end) = hex_pair 0 e f s z [] more in
    let is = no_room s end in rw (is, x1, x2, y1, y2, z1, z2) refl

hex_decode-block_of :
    (s : Bytes) (x y z : ℕ)
    → hex_decode 3 s ≡ done (x ∷ y ∷ z ∷ [])
    → block_of s ≡ some (mac_string (x ∷ y ∷ z ∷ []))
unfolding hex_decode mac_string octets
hex_decode-block_of [] x y z e = absurd (ground arith)
hex_decode-block_of (a ∷ []) x y z e = absurd (ground arith)
hex_decode-block_of (a ∷ b ∷ []) x y z e =
    let (_, _, more) = hex_pair 2 a b [] x (y ∷ z ∷ []) e in absurd (ground arith)
hex_decode-block_of (a ∷ b ∷ c ∷ []) x y z e =
    let (_, _, more) = hex_pair 2 a b (c ∷ []) x (y ∷ z ∷ []) e in absurd (ground arith)
hex_decode-block_of (a ∷ b ∷ c ∷ d ∷ s) x y z e =
    let (x1, x2, more) = hex_pair 2 a b (c ∷ d ∷ s) x (y ∷ z ∷ []) e in
    let (y1, y2, more') = hex_pair 1 c d s y (z ∷ []) more in
    last_pair a b c d s x y z x1 x2 y1 y2 more'

-- A record that `load` takes has its block in the second column and its organization in the third.
pub record_entry-done :
    (r : List Bytes) (key org : Bytes)
    → record_entry r ≡ done (key, org)
    → (registry : Bytes) × (assignment : Bytes) × (rest : List Bytes) × (r
        ≡ registry ∷ assignment ∷ org ∷ rest)
      × (block_of assignment ≡ some key)
unfolding record_entry
record_entry-done [] key org e = absurd (ground arith)
record_entry-done (a ∷ []) key org e = absurd (ground arith)
record_entry-done (a ∷ b ∷ []) key org e = absurd (ground arith)
record_entry-done (a ∷ b ∷ c ∷ rest) key org e = elim (Outcome-cases (hex_decode 3 b)) [
  | inr (inl bad) ↦ absurd (ground arith)
  | inr (inr bad) ↦ absurd (ground arith)
  | inl ([], is) ↦ absurd (ground arith)
  | inl (x ∷ [], is) ↦ absurd (ground arith)
  | inl (x ∷ y ∷ [], is) ↦ absurd (ground arith)
  | inl (x ∷ y ∷ z ∷ w ∷ more, is) ↦ absurd (ground arith)
  | inl (x ∷ y ∷ z ∷ [], is) ↦
      let same : c ≡ org = ground arith in
      let block : mac_string (x ∷ y ∷ z ∷ []) ≡ key = ground arith in
      (a, b, rest, rw same refl, rw (← block) (hex_decode-block_of b x y z is))
]
