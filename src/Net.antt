-- ===== src/Net.antt =====
-- The parts of Go's `net` package that the program's decisions rest on: IP addresses as byte
-- slices and the text of a hardware address.
use rout.Base.{
  ℕ, ◌+◌, ◌/◌, ◌%◌, ◌==◌, ltb, if◌then◌else◌, Bool, false, ◌&&◌, [], ◌∷◌, ◌++◌, Bytes,
  Bytes-discrete, holds, take, drop, length, replicate,
}

-- `==` on strings and `bytes.Equal`.
abbrev pub bytes_eq : Bytes → Bytes → Bool
bytes_eq a b = holds (Bytes-discrete a b)

abbrev pub v4_in_v6_prefix : Bytes
v4_in_v6_prefix = 0 ∷ 0 ∷ 0 ∷ 0 ∷ 0 ∷ 0 ∷ 0 ∷ 0 ∷ 0 ∷ 0 ∷ 255 ∷ 255 ∷ []

-- `net.IPv4zero`, in its 16-byte form.
abbrev pub ipv4_zero : Bytes
ipv4_zero = v4_in_v6_prefix ++ replicate 4 0

abbrev pub ipv4_bcast : Bytes
ipv4_bcast = v4_in_v6_prefix ++ replicate 4 255

-- `IP.To4`; the empty list is `nil`.
unfoldable pub to4 : Bytes → Bytes
to4 ip =
    if length ip == 4
    then ip
    else if length ip == 16 && bytes_eq (take 12 ip) v4_in_v6_prefix
    then drop 12 ip
    else []

-- `IP.Equal`: an IPv4 address equals its IPv6 form.
unfoldable pub ip_equal : Bytes → Bytes → Bool
ip_equal ip x =
    if length ip == length x
    then bytes_eq ip x
    else if length ip == 4 && length x == 16
    then bytes_eq (take 12 x) v4_in_v6_prefix && bytes_eq ip (drop 12 x)
    else if length ip == 16 && length x == 4
    then bytes_eq (take 12 ip) v4_in_v6_prefix && bytes_eq (drop 12 ip) x
    else false

-- `copy(dst, src)`: as many bytes as the shorter holds.
unfoldable pub copy : Bytes → Bytes → Bytes
copy [] src = []
copy (d ∷ dst) [] = d ∷ dst
copy (d ∷ dst) (s ∷ src) = s ∷ copy dst src

unfoldable pub hex_digit : ℕ → ℕ
hex_digit d = if ltb d 10 then 48 + d else 87 + d

unfoldable pub octets : Bytes → Bytes
octets [] = []
octets (b ∷ bs) = b':' ∷ hex_digit (b / 16) ∷ hex_digit (b % 16) ∷ octets bs

-- `HardwareAddr.String`
unfoldable pub mac_string : Bytes → Bytes
mac_string [] = []
mac_string (b ∷ bs) = hex_digit (b / 16) ∷ hex_digit (b % 16) ∷ octets bs
