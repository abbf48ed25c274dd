-- ===== src/Hex.antt =====
-- Go's `encoding/hex`: two digits for a byte.
pub mod RoundTrip
mod Tests
use godinstall.Prelude.{
  ℕ, ◌+◌, ◌-◌, ◌*◌, ◌/◌, ◌%◌, Bool, true, false, ◌&&◌, List, [], ◌∷◌, Option, none, some, Bytes,
  ltb, leb, if◌then◌else◌,
}

abbrev pub digit : ℕ → ℕ
digit n = if ltb n 10 then 48 + n else 87 + n

-- `hex.EncodeToString`.
unfoldable pub encode : Bytes → Bytes
encode [] = []
encode (c ∷ s) = digit (c / 16) ∷ digit (c % 16) ∷ encode s

-- The value of a digit, in either case.
abbrev pub value : ℕ → Option ℕ
value c =
    if leb 48 c && leb c 57
    then some (c - 48)
    else if leb 97 c && leb c 102
    then some (c - 87)
    else if leb 65 c && leb c 70
    then some (c - 55)
    else none

abbrev pub with_byte : Option ℕ → Option ℕ → Option Bytes → Option Bytes
with_byte (some a) (some b) (some s) = some ((a * 16 + b) ∷ s)
with_byte _ _ _ = none

-- `hex.DecodeString`: `none` is its error, for another byte than a digit or an odd length.
unfoldable pub decode : Bytes → Option Bytes
decode [] = some []
decode (c ∷ []) = none
decode (c ∷ d ∷ s) = with_byte (value c) (value d) (decode s)
