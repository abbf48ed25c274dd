-- ===== src/Hex/Tests.antt =====
-- An id of the store as text.
use godinstall.Prelude.{◌≡◌, refl, [], ◌∷◌, some, Bytes, codes, arith}
use godinstall.Hex.{encode, decode}
use godinstall.Hex.RoundTrip.{decode-encode}

abbrev id : Bytes
id = 0 ∷ 171 ∷ 255 ∷ []

printed_text : encode id ≡ codes "00abff"
unfolding encode
printed_text = refl

read_back : decode (encode id) ≡ some id
read_back = decode-encode id (omega arith, (omega arith, (omega arith, tt)))
