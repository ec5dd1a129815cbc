-- ===== src/Util/Ports.antt =====
-- `check_port` and `check_ip` of util.c: which texts of the command line are ports and addresses.
pub mod Zeros
use gnutella.Base.{
  ℕ, zero, suc, ◌+◌, ◌-◌, ◌*◌, ◌^◌, min, Bool, true, false, not, ◌&&◌, ◌||◌, Bytes, List, [], ◌∷◌,
  Option, none, some, if◌then◌else◌, ◌==◌, ltb, leb,
}
use gnutella.Base.Int.{ℤ, pos, negsuc, neg_ℕ}

-- `isspace` in the C locale.
abbrev pub is_space : ℕ → Bool
is_space c = c == 32 || (leb 9 c && leb c 13)

abbrev pub is_digit : ℕ → Bool
is_digit c = leb b'0' c && leb c b'9'

-- The value of the digits at the front, on top of `acc`, and what follows them.
unfoldable pub scan_digits : ℕ → Bytes → ℕ × Bytes
scan_digits acc [] = (acc, [])
scan_digits acc (c ∷ s) =
    let rest = scan_digits (acc * 10 + (c - b'0')) s in if is_digit c then rest else (acc, c ∷ s)

unfoldable pub skip_blanks : Bytes → Bytes
skip_blanks [] = []
skip_blanks (c ∷ s) = let rest = skip_blanks s in if is_space c then rest else c ∷ s

-- An optional sign: whether it is a minus, and what follows it.
unfoldable pub scan_sign : Bytes → Bool × Bytes
scan_sign [] = (false, [])
scan_sign (c ∷ s) =
    if c == b'-' then (true, s) else if c == b'+' then (false, s) else (false, c ∷ s)

abbrev pub long_max : ℕ
long_max = 2 ^ 63 - 1

-- A value out of range is cut to LONG_MAX or LONG_MIN.
unfoldable pub clamp_long : Bool → ℕ → ℤ
clamp_long false n = pos (min n long_max)
clamp_long true n = neg_ℕ (min n (long_max + 1))

-- The digits of `s`, if it begins with one; else nothing is read and the end is the whole text.
unfoldable pub scan_number : (whole : Bytes) → Bool → Bytes → ℤ × Bytes
unfolding scan_digits clamp_long
scan_number whole minus [] = (pos 0, whole)
scan_number whole minus (c ∷ s) =
    if is_digit c
    then (let (n, rest) = scan_digits 0 (c ∷ s) in (clamp_long minus n, rest))
    else (pos 0, whole)

-- `strtol(text, &end, 10)`: the value and the text at `end`, for a `long` of 64 bits.
unfoldable pub strtol : Bytes → ℤ × Bytes
unfolding scan_number scan_sign skip_blanks
strtol text = let (minus, s) = scan_sign (skip_blanks text) in scan_number text minus s

abbrev pub in_port_range : ℤ → Bool
in_port_range (pos n) = ltb 1024 n && ltb n 65536
in_port_range (negsuc n) = false

abbrev pub port_of : ℤ × Bytes → Bool
port_of (value, []) = in_port_range value
port_of (value, c ∷ rest) = false

-- `check_port`
unfoldable pub check_port : Bytes → Bool
unfolding strtol
check_port port = port_of (strtol port)

-- `check_ip`, given what `inet_pton` accepts for AF_INET and for AF_INET6.
unfoldable pub check_ip : (inet_pton_v4 inet_pton_v6 : Bytes → Bool) → Bytes → Bool
check_ip v4 v6 ip = if v4 ip then true else v6 ip
