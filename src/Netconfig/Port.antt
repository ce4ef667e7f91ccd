-- ===== src/Netconfig/Port.antt =====
-- netconfig/netconfig.go: `parsePort`.
use rout.Base.{
  ℕ, ◌==◌, ◌>>=◌, if◌then◌else◌, not, ◌&&◌, [], ◌∷◌, Option, none, some, Bytes, is_empty,
}
use rout.Strconv.{is_digit, parse_uint}

-- The longest prefix of digits, and the rest.
unfoldable pub span_digits : Bytes → Bytes × Bytes
span_digits [] = ([], [])
span_digits (c ∷ rest) =
    let (digits, more) = span_digits rest in
    if is_digit c then (c ∷ digits, more) else ([], c ∷ rest)

-- The second group, after the character `c` that follows the first.
unfoldable pub upper_group : Bytes → ℕ → Bytes × Bytes → Option (Bytes × Bytes)
upper_group digits c (upper, after) =
    if c == b'-' && not (is_empty upper) && is_empty after then some (digits, upper) else none

unfoldable pub groups : Bytes × Bytes → Option (Bytes × Bytes)
groups ([], more) = none
groups (c ∷ digits, []) = some (c ∷ digits, [])
groups (c ∷ digits, x ∷ rest) = upper_group (c ∷ digits) x (span_digits rest)

-- `rangeRe.FindStringSubmatch`: the two groups, the second empty where it does not take part.
unfoldable pub match_range : Bytes → Option (Bytes × Bytes)
match_range p = groups (span_digits p)

unfoldable pub upper_port : ℕ → Bytes → Option ℕ
upper_port min [] = some min
upper_port min (c ∷ rest) = parse_uint 65535 (c ∷ rest)

unfoldable pub read_ports : Bytes × Bytes → Option (ℕ × ℕ)
read_ports (lo, hi) = do min ← parse_uint 65535 lo; max ← upper_port min hi; some (min, max)

-- `parsePort`; `none` is an error.
unfoldable pub parse_port : Bytes → Option (ℕ × ℕ)
parse_port p = match_range p >>= read_ports
