-- ===== src/Netconfig/Subnet.antt =====
-- The sizes of masks in netconfig/netconfig.go.
use rout.Base.{
  ℕ, ◌==◌, ◌≡◌, ◌≤◌, refl, if◌then◌else◌, Bool, true, false, ltb, all_below, all_below-true, [],
  ◌∷◌, ◌++◌, Option, none, some, Bytes, arith, ◌&&◌,
}
use rout.Netmask.{mask_size, cidr_mask, leading_ones, simple_mask_length, all_zero, mask_bytes}
use rout.Strings.{split, format_decimal, decimal_digits}
use rout.Strconv.{
  parse_uint, split_base, parse_digits, has_underscore, underscore_ok, digit_of,
  underscores_separate,
}
use rout.Netconfig.Lease.{parse_parts, subnet_mask_size, narrow_mask}

-- The text of an IPv4 mask, as `IP.String` writes it.
abbrev pub dotted : Bytes → Bytes
dotted [] = []
dotted (b ∷ []) = format_decimal b
dotted (b ∷ c ∷ mask) = format_decimal b ++ (b'.' ∷ dotted (c ∷ mask))

has_size : ℕ → Option ℕ → Bool
has_size n none = false
has_size n (some m) = m == n

has_size→some : (n : ℕ) (o : Option ℕ) → has_size n o ≡ true → o ≡ some n
unfolding has_size
has_size→some n none h = ground arith
has_size→some n (some m) h = ground arith

subnet_table : all_below 33 (λ n. has_size n (subnet_mask_size (dotted (cidr_mask n 32)))) ≡ true
unfolding all_below has_size subnet_mask_size parse_parts split format_decimal decimal_digits
    parse_uint split_base parse_digits has_underscore underscore_ok digit_of underscores_separate
    mask_size cidr_mask leading_ones simple_mask_length all_zero mask_bytes
subnet_table = refl

-- The mask of each size from 0 to 32, written with dots, is read as its size.
pub subnet_mask_size-cidr_mask :
    (n : ℕ) → n ≤ 32 → subnet_mask_size (dotted (cidr_mask n 32)) ≡ some n
subnet_mask_size-cidr_mask n le = has_size→some n (subnet_mask_size (dotted (cidr_mask n 32))) (
    all_below-true 33 (λ m. has_size m (subnet_mask_size (dotted (cidr_mask m 32)))) n subnet_table
      (omega arith))

narrow_ok : ℕ → ℕ × ℕ → Bool
narrow_ok n (ones, bits) = (ones == (if ltb n 64 then 64 else n)) && bits == 128

narrow_table : all_below 129 (λ n. narrow_ok n (mask_size (narrow_mask (cidr_mask n 128)))) ≡ true
unfolding all_below narrow_ok narrow_mask mask_size cidr_mask leading_ones simple_mask_length
    all_zero mask_bytes
narrow_table = refl

narrow_ok→eq : (n : ℕ) (r : ℕ × ℕ) → narrow_ok n r ≡ true → r ≡ ((if ltb n 64 then 64 else n), 128)
unfolding narrow_ok
narrow_ok→eq n (ones, bits) h = ground arith

-- The mask of a prefix of IPv6 is made one of at least 64 bits, and kept where it is one.
pub narrow_mask-size :
    (n : ℕ)
    → n ≤ 128
    → mask_size (narrow_mask (cidr_mask n 128)) ≡ ((if ltb n 64 then 64 else n), 128)
narrow_mask-size n le = narrow_ok→eq n (mask_size (narrow_mask (cidr_mask n 128))) (
    all_below-true 129 (λ m. narrow_ok m (mask_size (narrow_mask (cidr_mask m 128)))) n narrow_table
      (omega arith))
