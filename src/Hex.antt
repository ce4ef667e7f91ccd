-- ===== src/Hex.antt =====
-- Go's `encoding/hex` and the colon-free form of a hardware address.
pub mod RoundTrip
use rout.Base.{
  ℕ, ◌+◌, ◌-◌, ◌*◌, ◌==◌, leb, if◌then◌else◌, ◌&&◌, List, [], ◌∷◌, Option, none, some, Bytes,
}

infixl 5 ◌>>=◌
abbrev pub ◌>>=◌ {ℓ κ} : {A : Type ℓ} {B : Type κ} → Option A → (A → Option B) → Option B
none >>= f = none
some a >>= f = f a

-- The table of `hex.Decode`: a digit's value.
unfoldable pub digit_value : ℕ → Option ℕ
digit_value c =
    if leb b'0' c && leb c b'9'
    then some (c - 48)
    else if leb b'a' c && leb c b'f'
    then some (c - 87)
    else if leb b'A' c && leb c b'F'
    then some (c - 55)
    else none

-- `hex.DecodeString`; `none` is its error, for a bad digit or an odd length.
unfoldable pub decode : Bytes → Option Bytes
unfolding digit_value
decode [] = some []
decode (a ∷ []) = none
decode (a ∷ b ∷ rest) = do
  hi ← digit_value a
  lo ← digit_value b
  bytes ← decode rest
  some ((hi * 16 + lo) ∷ bytes)

-- `strings.ReplaceAll(s, ":", "")`
unfoldable pub remove_colons : Bytes → Bytes
remove_colons [] = []
remove_colons (c ∷ s) = let rest = remove_colons s in if c == b':' then rest else c ∷ rest
