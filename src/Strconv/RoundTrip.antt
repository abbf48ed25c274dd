-- ===== src/Strconv/RoundTrip.antt =====
-- Every 64-bit integer is read back from its decimal print.
use godinstall.Prelude.{
  ℕ, zero, suc, ◌+◌, ◌/◌, ◌%◌, ◌^◌, ◌≤◌, ◌<◌, ◌≡◌, ◌≢◌, refl, [], ◌∷◌, ◌++◌, none, arith, Bytes,
  ltb, ◌==◌, ℤ, pos, negsuc, All, All-append, Bool-cases, inl, inr, append-nil, append_assoc, false,
}
use godinstall.Strconv.{
  max_u64, scan_uint, parse_uint, parse_int, digits, format_nat, format_int, clamp_int,
}

abbrev pub IsDigit : ℕ → Type 0
IsDigit c = (b'0' ≤ c) × (c ≤ b'9')

pub digits-IsDigit : (f n : ℕ) → n ≤ f → All IsDigit (digits f n)
unfolding digits
digits-IsDigit zero n h = (omega arith)
digits-IsDigit (suc f) n h = elim (Bool-cases (ltb n 10)) [
  | inl small ↦ rw small (ground arith)
  | inr big ↦ rw big (
      All-append IsDigit (digits f (n / 10)) _ (digits-IsDigit f (n / 10) (omega arith))
        (omega arith))
]

pub digits-ne-nil : (f n : ℕ) → digits f n ≢ []
unfolding digits
digits-ne-nil zero n = ground arith
digits-ne-nil (suc f) n = ground (arith, append_last-ne-nil (digits f (n / 10)) (b'0' + n % 10))
  where
    append_last-ne-nil : (s : Bytes) (c : ℕ) → s ++ c ∷ [] ≢ []
    append_last-ne-nil [] c = ground arith
    append_last-ne-nil (x ∷ s) c = ground arith

-- The digits of a number at most 2^64 - 1 are scanned to the number, whatever follows.
scan-digits :
    (f n : ℕ) (rest : Bytes)
    → n ≤ f
    → n ≤ max_u64
    → scan_uint 0 (digits f n ++ rest) ≡ scan_uint n rest
unfolding digits scan_uint
scan-digits zero n rest h k = ground arith
scan-digits (suc f) n rest h k = elim (Bool-cases (ltb n 10)) [
  | inl small ↦ rw small (ground arith)
  | inr big ↦
      rw
        (
          big,
          append_assoc (digits f (n / 10)) ((b'0' + n % 10) ∷ []) rest,
          scan-digits f (n / 10) ((b'0' + n % 10) ∷ rest) (omega arith) (omega arith),
        )
        (ground arith)
]

parse_uint-scan : (s : Bytes) → s ≢ [] → parse_uint s ≡ scan_uint 0 s
unfolding parse_uint
parse_uint-scan [] h = absurd (h refl)
parse_uint-scan (c ∷ s) h = refl

pub parse_uint-format_nat : (n : ℕ) → n ≤ max_u64 → parse_uint (format_nat n) ≡ (n, none)
unfolding format_nat
parse_uint-format_nat n h =
    rw (parse_uint-scan (digits n n) (digits-ne-nil n n))
      (ground (arith, scan-digits n n [] (omega arith) h, append-nil (digits n n), scan_end n))
  where
    scan_end : (m : ℕ) → scan_uint m [] ≡ (m, none)
    scan_end m = unfold scan_uint in refl

-- What `int64` holds.
abbrev pub IsInt64 : ℤ → Type 0
IsInt64 (pos n) = n < 2 ^ 63
IsInt64 (negsuc n) = n < 2 ^ 63

pub format_nat_lem : (n : ℕ) → format_nat n ≡ digits n n
unfolding format_nat
format_nat_lem n = refl

parse_int_digits :
    (bits : ℕ) (s : Bytes)
    → s ≢ []
    → All IsDigit s
    → parse_int s bits ≡ clamp_int bits false (parse_uint s)
unfolding parse_int
parse_int_digits bits [] h d = absurd (h refl)
parse_int_digits bits (c ∷ s) h d =
    let e : (c == b'+') ≡ false = ground arith in
    let e' : (c == b'-') ≡ false = ground arith in rw (e, e')

-- A number that fits 16 bits is read from its digits.
pub parse_int-format_nat : (n : ℕ) → n < 2 ^ 15 → parse_int (format_nat n) 16 ≡ (pos n, none)
parse_int-format_nat n h =
    rw
      (
        format_nat_lem n,
        parse_int_digits 16 (digits n n) (digits-ne-nil n n) (digits-IsDigit n n (omega arith)),
        ← format_nat_lem n,
        parse_uint-format_nat n (omega arith),
      )
      (ground arith)

-- Every `int64` is read back from its print.
pub parse_int-format_int : (z : ℤ) → IsInt64 z → parse_int (format_int z) 64 ≡ (z, none)
unfolding format_int format_nat
parse_int-format_int (pos n) h =
    rw
      (
        parse_int_digits 64 (digits n n) (digits-ne-nil n n) (digits-IsDigit n n (omega arith)),
        ← format_nat_lem n,
        parse_uint-format_nat n (omega arith),
      )
      (ground arith)
parse_int-format_int (negsuc n) h =
    unfold parse_int in
    rw (← format_nat_lem (suc n), parse_uint-format_nat (suc n) (omega arith)) (ground arith)
