-- ===== src/Hex/RoundTrip.antt =====
-- The text of a list of bytes is decoded to it.
use godinstall.Prelude.{
  ℕ, ◌+◌, ◌*◌, ◌/◌, ◌%◌, ◌<◌, ◌≡◌, refl, ◌∙◌, ap, [], ◌∷◌, some, Bytes, All, arith,
}
use godinstall.Hex.{digit, encode, value, with_byte, decode}

value-digit : (n : ℕ) → n < 16 → value (digit n) ≡ some n
value-digit n h = ground (arith, h)

byte_lem : (c : ℕ) → c < 256 → (c / 16) * 16 + c % 16 ≡ c
byte_lem c h = omega (arith, h)

-- Bytes that are printed by hex.EncodeToString, or as an id of the store, are read back.
pub decode-encode : (s : Bytes) → All (λ c. c < 256) s → decode (encode s) ≡ some s
unfolding encode decode
decode-encode [] h = refl
decode-encode (c ∷ s) (b, h) =
    ap (λ o. with_byte o (value (digit (c % 16))) (decode (encode s)))
      (value-digit (c / 16) (omega (arith, b)))
    ∙ ap (λ o. with_byte (some (c / 16)) o (decode (encode s))) (value-digit (c % 16) (omega arith))
    ∙ ap (with_byte (some (c / 16)) (some (c % 16))) (decode-encode s h)
    ∙ ap (λ d. some (d ∷ s)) (byte_lem c b)
