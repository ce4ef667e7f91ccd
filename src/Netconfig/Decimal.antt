-- ===== src/Netconfig/Decimal.antt =====
-- What `parsePort` reads.
use rout.Base.{
  ℕ, ◌+◌, ◌-◌, ◌*◌, ◌≡◌, ◌≢◌, ◌≤◌, ◌<◌, inl, inr, ◌∙◌, refl, ap, subst, append-nil, ◌>>=◌, ltb, leb,
  if◌then◌else◌, Bool, Bool-cases, Option-cases, true, false, not, ◌&&◌, [], ◌∷◌, ◌++◌, Option,
  none, some, Bytes, All, arith,
}
use rout.Strconv.{digit_of, split_base, parse_digits, has_underscore, underscore_ok, parse_uint}
use rout.Netconfig.Port.{
  span_digits, upper_group, groups, read_ports, match_range, upper_port, parse_port,
}

abbrev pub IsDigit : ℕ → Type 0
IsDigit c = (48 ≤ c) × (c ≤ 57)

-- The decimal number of a text, after the digits of `n`.
abbrev pub value : ℕ → Bytes → ℕ
value n [] = n
value n (c ∷ rest) = value (n * 10 + (c - 48)) rest

digit_of-IsDigit : (c : ℕ) → IsDigit c → digit_of c ≡ some (c - 48)
unfolding digit_of
digit_of-IsDigit c d = ground arith

value-le : (n : ℕ) (ds : Bytes) → n ≤ value n ds
value-le n [] = omega arith
value-le n (c ∷ ds) = omega (arith, value-le (n * 10 + (c - 48)) ds)

parse_digits-value :
    (max n : ℕ) (ds : Bytes)
    → All IsDigit ds
    → n ≤ max
    → parse_digits 10 max n ds ≡ (if leb (value n ds) max then some (value n ds) else none)
unfolding parse_digits
parse_digits-value max n [] all le = ground arith
parse_digits-value max n (c ∷ ds) (d, all) le = elim (Bool-cases (ltb max (n * 10 + (c - 48)))) [
  | inl above ↦
      rw (digit_of-IsDigit c d, parse_digits) (ground (arith, value-le (n * 10 + (c - 48)) ds))
  | inr fits ↦
      rw (digit_of-IsDigit c d, parse_digits)
        (ground (arith, parse_digits-value max (n * 10 + (c - 48)) ds all))
]

digits-has_underscore : (ds : Bytes) → All IsDigit ds → has_underscore ds ≡ false
unfolding has_underscore
digits-has_underscore [] all = refl
digits-has_underscore (c ∷ ds) (d, all) = ground (arith, digits-has_underscore ds all)

split_base-decimal : (c : ℕ) (ds : Bytes) → c ≢ 48 → split_base (c ∷ ds) ≡ (10, c ∷ ds)
unfolding split_base
split_base-decimal c [] nz = ground arith
split_base-decimal c (x ∷ []) nz = ground arith
split_base-decimal c (x ∷ y ∷ ds) nz = ground arith

-- A decimal number has digits only, and no 0 in front.
abbrev pub IsDecimal : Bytes → Type 0
IsDecimal [] = ⊥
IsDecimal (c ∷ ds) = (c ≢ 48) × All IsDigit (c ∷ ds)

no_underscore :
    (o : Option ℕ) (s : Bytes)
    → has_underscore s ≡ false
    → (elim o [
      | none ↦ none
      | some n ↦ if has_underscore s && not (underscore_ok s) then none else some n
    ])
      ≡ o
no_underscore none s clean = refl
no_underscore (some n) s clean = rw clean refl

parse_uint-decimal :
    (max : ℕ) (ds : Bytes)
    → IsDecimal ds
    → parse_uint max ds ≡ (if leb (value 0 ds) max then some (value 0 ds) else none)
unfolding parse_uint
parse_uint-decimal max [] d = absurd d
parse_uint-decimal max (c ∷ ds) (nz, all) =
    let split = split_base-decimal c ds nz in
    no_underscore (parse_digits (split_base (c ∷ ds)).0 max 0 (split_base (c ∷ ds)).1) (c ∷ ds)
      (digits-has_underscore (c ∷ ds) all)
    ∙ ap (λ (b : ℕ × Bytes). parse_digits b.0 max 0 b.1) split
    ∙ parse_digits-value max 0 (c ∷ ds) all (omega arith)

span_nil : span_digits [] ≡ ([], [])
unfolding span_digits
span_nil = refl

span_dash : (rest : Bytes) → span_digits (b'-' ∷ rest) ≡ ([], b'-' ∷ rest)
unfolding span_digits
span_dash rest = refl

span_digits-append :
    (ds rest : Bytes)
    → All IsDigit ds
    → span_digits rest ≡ ([], rest)
    → span_digits (ds ++ rest) ≡ (ds, rest)
unfolding span_digits
span_digits-append [] rest all stop = stop
span_digits-append (c ∷ ds) rest (d, all) stop =
    rw (span_digits-append ds rest all stop) (ground arith)

parse_digits-le :
    (base max n : ℕ) (ds : Bytes) (m : ℕ) → n ≤ max → parse_digits base max n ds ≡ some m → m ≤ max
unfolding parse_digits
parse_digits-le base max n [] m le e = ground arith
parse_digits-le base max n (c ∷ ds) m le e = elim (Option-cases (digit_of c)) [
  | inl bad ↦ ground (arith, parse_digits-le base max n ds m le)
  | inr (d, is) ↦
      ground
        (arith, parse_digits-le base max n ds m le, parse_digits-le base max (n * base + d) ds m)
]

parse_uint-le : (max : ℕ) (s : Bytes) (n : ℕ) → parse_uint max s ≡ some n → n ≤ max
unfolding parse_uint
parse_uint-le max [] n e = cc
parse_uint-le max (c ∷ rest) n e =
    let (base, digits) = split_base (c ∷ rest) in
    elim (Option-cases (parse_digits base max 0 digits)) [
      | inl bad ↦ absurd (ground arith)
      | inr (m, is) ↦
          let same : m ≡ n = ground arith in
          omega (arith, same, parse_digits-le base max 0 digits m (omega arith) is)
    ]

upper_port-le : (a : ℕ) (s : Bytes) (b : ℕ) → a ≤ 65535 → upper_port a s ≡ some b → b ≤ 65535
unfolding upper_port
upper_port-le a [] b le e = ground arith
upper_port-le a (c ∷ s) b le e = parse_uint-le 65535 (c ∷ s) b e

-- Both ports that `parsePort` reads fit 16 bits.
pub parse_port-le :
    (p : Bytes) (lo hi : ℕ) → parse_port p ≡ some (lo, hi) → (lo < 65536) × (hi < 65536)
unfolding parse_port read_ports
parse_port-le p lo hi e = elim (Option-cases (match_range p)) [
  | inl bad ↦ absurd (ground arith)
  | inr (m, is) ↦ elim (Option-cases (parse_uint 65535 m.0)) [
    | inl bad ↦ absurd (ground arith)
    | inr (a, read) ↦ elim (Option-cases (upper_port a m.1)) [
      | inl bad ↦ absurd (ground arith)
      | inr (b, read') ↦
          let le = parse_uint-le 65535 m.0 a read in
          let le' = upper_port-le a m.1 b le read' in
          let first : a ≡ lo = ground arith in
          let second : b ≡ hi = ground arith in
          (omega (arith, le, first), omega (arith, le', second))
    ]
  ]
]

span_whole : (ds : Bytes) → All IsDigit ds → span_digits ds ≡ (ds, [])
span_whole ds all =
    subst (λ (s : Bytes). span_digits s ≡ (ds, [])) (append-nil ds)
      (span_digits-append ds [] all span_nil)

match_range-two :
    (ds es : Bytes) → IsDecimal ds → IsDecimal es → match_range (ds ++ (b'-' ∷ es)) ≡ some (ds, es)
unfolding match_range groups upper_group
match_range-two [] es d d' = absurd d
match_range-two (c ∷ ds) [] d d' = absurd d'
match_range-two (c ∷ ds) (x ∷ es) (nz, all) (nz', all') =
    ap groups (span_digits-append (c ∷ ds) (b'-' ∷ (x ∷ es)) all (span_dash (x ∷ es)))
    ∙ ap (upper_group (c ∷ ds) b'-') (span_whole (x ∷ es) all')

match_range-one : (ds : Bytes) → IsDecimal ds → match_range ds ≡ some (ds, [])
unfolding match_range groups
match_range-one [] d = absurd d
match_range-one (c ∷ ds) (nz, all) = ap groups (span_whole (c ∷ ds) all)

if_bind {ℓ κ} :
    {A : Type ℓ} {B : Type κ} (b : Bool) (a : A) (f : A → Option B)
    → ((if b then some a else none) >>= f) ≡ (if b then f a else none)
if_bind true a f = refl
if_bind false a f = refl

both {ℓ κ} :
    {A : Type ℓ} {B : Type κ} (a b : Bool) (x : A) (f : A → B)
    → (if a then ((if b then some x else none) >>= λ y. some (f y)) else none)
      ≡ (if a && b then some (f x) else none)
both true true x f = refl
both true false x f = refl
both false b x f = refl

read_one :
    (ds : Bytes)
    → IsDecimal ds
    → read_ports (ds, []) ≡ (if leb (value 0 ds) 65535 then some (value 0 ds, value 0 ds) else none)
unfolding read_ports upper_port
read_one ds d = rw (parse_uint-decimal 65535 ds d) (if_bind (leb (value 0 ds) 65535) (value 0 ds) _)

read_two :
    (ds es : Bytes)
    → IsDecimal ds
    → IsDecimal es
    → read_ports (ds, es) ≡ (
        if leb (value 0 ds) 65535 && leb (value 0 es) 65535
        then some (value 0 ds, value 0 es)
        else none)
unfolding read_ports upper_port
read_two ds [] d d' = absurd d'
read_two ds (x ∷ es) d d' = rw (parse_uint-decimal 65535 ds d) (
    if_bind (leb (value 0 ds) 65535) (value 0 ds) _
    ∙ rw (parse_uint-decimal 65535 (x ∷ es) d') (
        both (leb (value 0 ds) 65535) (leb (value 0 (x ∷ es)) 65535) (value 0 (x ∷ es))
          (λ y. (value 0 ds, y))))

-- A port in decimal, without a 0 in front, is read as its number, and two with a dash between them as
-- the two numbers, if they fit 16 bits, and refused if not.
pub parse_port-decimal :
    (ds es : Bytes)
    → IsDecimal ds
    → IsDecimal es
    → (parse_port ds ≡ (if leb (value 0 ds) 65535 then some (value 0 ds, value 0 ds) else none))
      × (parse_port (ds ++ (b'-' ∷ es)) ≡ (
          if leb (value 0 ds) 65535 && leb (value 0 es) 65535
          then some (value 0 ds, value 0 es)
          else none))
unfolding parse_port
parse_port-decimal ds es d d' = (
  rw (match_range-one ds d) (read_one ds d),
  rw (match_range-two ds es d d') (read_two ds es d d'),
)
