-- ===== src/Strconv.antt =====
-- Go's `strconv.ParseUint` with base 0, which reads the base from a prefix.
use rout.Base.{
  ℕ, ◌+◌, ◌-◌, ◌*◌, ◌==◌, ltb, leb, if◌then◌else◌, Bool, true, false, not, ◌&&◌, ◌||◌, [], ◌∷◌,
  Option, none, some, Bytes,
}

abbrev pub is_digit : ℕ → Bool
is_digit c = leb b'0' c && leb c b'9'

-- `lower`, which the code compares with letters only.
abbrev pub lower : ℕ → ℕ
lower c = if leb b'A' c && leb c b'Z' then c + 32 else c

unfoldable pub digit_of : ℕ → Option ℕ
digit_of c =
    if is_digit c
    then some (c - b'0')
    else if leb b'a' (lower c) && leb (lower c) b'z'
    then some (lower c - b'a' + 10)
    else none

-- The base of a text and its digits: octal after a 0, unless a letter and a digit follow.
unfoldable pub split_base : Bytes → ℕ × Bytes
split_base [] = (10, [])
split_base (c ∷ []) = if c == b'0' then (8, []) else (10, c ∷ [])
split_base (c ∷ x ∷ []) = if c == b'0' then (8, x ∷ []) else (10, c ∷ x ∷ [])
split_base (c ∷ x ∷ rest) =
    if not (c == b'0')
    then (10, c ∷ x ∷ rest)
    else if lower x == b'b'
    then (2, rest)
    else if lower x == b'o'
    then (8, rest)
    else if lower x == b'x'
    then (16, rest)
    else (8, x ∷ rest)

-- The loop over the digits, from the value `n` on; `none` is a syntax or a range error.
unfoldable pub parse_digits : ℕ → ℕ → ℕ → Bytes → Option ℕ
parse_digits base max n [] = some n
parse_digits base max n (c ∷ rest) =
    let skip = parse_digits base max n rest in
    if c == b'_' then skip else elim (digit_of c) [
      | none ↦ none
      | some d ↦
          let next = parse_digits base max (n * base + d) rest in
          if not (ltb d base) || ltb max (n * base + d) then none else next
    ]

unfoldable pub has_underscore : Bytes → Bool
has_underscore [] = false
has_underscore (c ∷ rest) = let later = has_underscore rest in if c == b'_' then true else later

-- The loop of `underscoreOK`; `saw` is what the last character was.
unfoldable pub underscores_separate : Bool → ℕ → Bytes → Bool
underscores_separate is_hex saw [] = not (saw == b'_')
underscores_separate is_hex saw (c ∷ rest) =
    let digit = underscores_separate is_hex b'0' rest in
    let underscore = underscores_separate is_hex b'_' rest in
    let other = underscores_separate is_hex b'!' rest in
    if is_digit c || (is_hex && leb b'a' (lower c) && leb (lower c) b'f')
    then digit
    else if c == b'_'
    then if saw == b'0' then underscore else false
    else if saw == b'_'
    then false
    else other

abbrev is_base_letter : ℕ → Bool
is_base_letter x = lower x == b'b' || lower x == b'o' || lower x == b'x'

-- `underscoreOK` of a text without a sign, since a sign is no digit.
unfoldable pub underscore_ok : Bytes → Bool
underscore_ok (c ∷ x ∷ rest) =
    if c == b'0' && is_base_letter x
    then underscores_separate (lower x == b'x') b'0' rest
    else underscores_separate false b'^' (c ∷ x ∷ rest)
underscore_ok s = underscores_separate false b'^' s

-- `strconv.ParseUint(s, 0, bits)` for numbers up to `max`, `none` for an error.
unfoldable pub parse_uint : ℕ → Bytes → Option ℕ
parse_uint max [] = none
parse_uint max (c ∷ rest) =
    let s = c ∷ rest in
    let (base, digits) = split_base s in
    elim (parse_digits base max 0 digits) [
      | none ↦ none
      | some n ↦ if has_underscore s && not (underscore_ok s) then none else some n
    ]
