-- ===== src/Strconv.antt =====
-- Go's `strconv.ParseInt(s, 10, bits)` and `strconv.FormatInt(n, 10)`.
pub mod RoundTrip
use godinstall.Prelude.{
  ℕ, zero, suc, ◌+◌, ◌-◌, ◌*◌, ◌/◌, ◌%◌, ◌^◌, Bool, true, false, ◌&&◌, not, [], ◌∷◌, ◌++◌, Option,
  none, some, Bytes, ltb, leb, ◌==◌, if◌then◌else◌, ℤ, pos, negsuc, neg_ℤ,
}

pub data NumError : Type 0 where
  syntax range : NumError

abbrev pub max_u64 : ℕ
max_u64 = 2 ^ 64 - 1

-- `unicode.IsDigit` of a byte.
unfoldable pub is_digit : ℕ → Bool
is_digit c = leb b'0' c && leb c b'9'

-- The loop of `ParseUint`: a value that leaves 64 bits ends it at once.
pub scan_uint : ℕ → Bytes → ℕ × Option NumError
unfolding is_digit
scan_uint n [] = (n, none)
scan_uint n (c ∷ s) =
    if not (is_digit c)
    then (0, some syntax)
    else if ltb max_u64 (n * 10 + (c - b'0'))
    then (max_u64, some range)
    else scan_uint (n * 10 + (c - b'0')) s

pub parse_uint : Bytes → ℕ × Option NumError
unfolding scan_uint
parse_uint [] = (0, some syntax)
parse_uint (c ∷ s) = scan_uint 0 (c ∷ s)

-- Out of range, the nearest value comes with the error.
abbrev pub clamp_int : ℕ → Bool → ℕ × Option NumError → ℤ × Option NumError
clamp_int bits neg (un, some syntax) = (pos 0, some syntax)
clamp_int bits false (un, _) =
    if leb (2 ^ (bits - 1)) un then (pos (2 ^ (bits - 1) - 1), some range) else (pos un, none)
clamp_int bits true (un, _) =
    if ltb (2 ^ (bits - 1)) un
    then (neg_ℤ (pos (2 ^ (bits - 1))), some range)
    else (neg_ℤ (pos un), none)

unfoldable pub parse_int : Bytes → ℕ → ℤ × Option NumError
unfolding parse_uint
parse_int [] bits = (pos 0, some syntax)
parse_int (c ∷ s) bits =
    if c == b'+'
    then clamp_int bits false (parse_uint s)
    else if c == b'-'
    then clamp_int bits true (parse_uint s)
    else clamp_int bits false (parse_uint (c ∷ s))

-- The decimal digits of `n`; with `n` rounds left the fuel never runs out.
pub digits : ℕ → ℕ → Bytes
digits zero n = (b'0' + n) ∷ []
digits (suc f) n =
    let shorter = digits f (n / 10) ++ (b'0' + n % 10) ∷ [] in
    if ltb n 10 then (b'0' + n) ∷ [] else shorter

pub format_nat : ℕ → Bytes
unfolding digits
format_nat n = digits n n

unfoldable pub format_int : ℤ → Bytes
unfolding format_nat
format_int (pos n) = format_nat n
format_int (negsuc n) = b'-' ∷ format_nat (suc n)
