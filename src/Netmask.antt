-- ===== src/Netmask.antt =====
-- Go's `net.IPMask`: its size, and the mask of a size; and `net.IPNet`.
use rout.Base.{
  ℕ, zero, suc, ◌-◌, ◌+◌, ◌*◌, ◌/◌, ◌%◌, ◌^◌, ◌==◌, leb, if◌then◌else◌, Bool, true, ◌&&◌, ◌||◌, [],
  ◌∷◌, Option, none, some, Bytes, length,
}

pub record IpNet : Type 0 where
  pub ip : Bytes
  pub mask : Bytes

-- The ones in front in a byte, and what is left of it; a byte has 8 bits.
unfoldable pub leading_ones : ℕ → ℕ → ℕ × ℕ
leading_ones zero v = (0, v)
leading_ones (suc bits) v =
    let (n, rest) = leading_ones bits (v * 2 % 256) in if leb 128 v then (suc n, rest) else (0, v)

unfoldable pub all_zero : Bytes → Bool
all_zero [] = true
all_zero (v ∷ mask) = v == 0 && all_zero mask

-- `simpleMaskLength`; `none` stands for -1.
unfoldable pub simple_mask_length : Bytes → Option ℕ
simple_mask_length [] = some 0
simple_mask_length (v ∷ mask) =
    let more = simple_mask_length mask in
    let (n, rest) = leading_ones 8 v in
    if v == 255
    then elim more [ none ↦ none | some m ↦ some (8 + m) ]
    else if rest == 0 && all_zero mask
    then some n
    else none

-- `IPMask.Size`
unfoldable pub mask_size : Bytes → ℕ × ℕ
mask_size mask = elim (simple_mask_length mask) [ none ↦ (0, 0) | some n ↦ (n, length mask * 8) ]

-- The bytes of `CIDRMask`.
unfoldable pub mask_bytes : ℕ → ℕ → Bytes
mask_bytes zero n = []
mask_bytes (suc l) n =
    let full = mask_bytes l (n - 8) in
    let last = mask_bytes l 0 in if leb 8 n then 255 ∷ full else (255 - 255 / 2 ^ n) ∷ last

-- `CIDRMask`; the empty list is `nil`.
unfoldable pub cidr_mask : ℕ → ℕ → Bytes
cidr_mask ones bits =
    if (bits == 32 || bits == 128) && leb ones bits then mask_bytes (bits / 8) ones else []
