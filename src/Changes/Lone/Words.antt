-- ===== src/Changes/Lone/Words.antt =====
-- changes.go: the words of a line that LoneChanges writes.
use godinstall.Prelude.{
  ℕ, suc, ◌/◌, ◌%◌, ◌<◌, ◌≡◌, ◌≢◌, refl, ◌∙◌, ap, ◌==◌, false, [], ◌∷◌, ◌++◌, Bytes, ℤ, pos, negsuc,
  All, if◌then◌else◌, arith,
}
use godinstall.Strings.{cons_head}
use godinstall.Strconv.{format_int, format_nat, digits}
use godinstall.Strconv.RoundTrip.{IsDigit, digits-IsDigit, digits-ne-nil, format_nat_lem}
use godinstall.Hex.{encode, digit}
use godinstall.Control.{is_space, space_width}
use godinstall.Changes.Hashes.{fields, fields_from, with_word}

-- A text without white space: none begins at any byte.
abbrev pub IsSolid : Bytes → Type 0
IsSolid [] = Unit
IsSolid (c ∷ s) = (space_width (c ∷ s) ≡ 0) × IsSolid s

abbrev pub IsWord : Bytes → Type 0
IsWord s = (s ≢ []) × IsSolid s

-- A byte of a word stays one with a space behind the word.
width_lem : (c : ℕ) (w s : Bytes) → space_width (c ∷ w) ≡ 0 → space_width ((c ∷ w) ++ (32 ∷ s)) ≡ 0
width_lem c [] [] h = ground (arith, h)
width_lem c [] (e ∷ s) h = ground (arith, h)
width_lem c (d ∷ []) s h = ground (arith, h)
width_lem c (d ∷ e ∷ w) s h = h

ascii_width : (c : ℕ) (s : Bytes) → c < 128 → is_space c ≡ false → space_width (c ∷ s) ≡ 0
ascii_width c [] l h = ground (arith, l, h)
ascii_width c (d ∷ []) l h = ground (arith, l, h)
ascii_width c (d ∷ e ∷ s) l h = ground (arith, l, h)

fields_longer :
    (c d : ℕ) (t : Bytes)
    → space_width (c ∷ d ∷ t) ≡ 0
    → space_width (d ∷ t) ≡ 0
    → fields (c ∷ d ∷ t) ≡ cons_head c (fields (d ∷ t))
unfolding fields fields_from
fields_longer c d t h h' =
    ap (λ n. with_word n c (d ∷ t) (λ k. fields_from k (d ∷ t))) h
    ∙ ap (λ n. if n == 0 then cons_head c (fields (d ∷ t)) else (c ∷ []) ∷ fields (d ∷ t)) h'

fields-solid :
    (c : ℕ) (w s : Bytes) → IsSolid (c ∷ w) → fields ((c ∷ w) ++ (32 ∷ s)) ≡ (c ∷ w) ∷ fields s
unfolding fields fields_from
fields-solid c [] s (h, k) =
    ap (λ n. with_word n c (32 ∷ s) (λ k. fields_from k (32 ∷ s))) (width_lem c [] s h)
fields-solid c (d ∷ w) s (h, (h', k)) =
    fields_longer c d (w ++ (32 ∷ s)) (width_lem c (d ∷ w) s h) (width_lem d w s h')
    ∙ ap (cons_head c) (fields-solid d w s (h', k))

fields_end : (c : ℕ) (w : Bytes) → IsSolid (c ∷ w) → fields (c ∷ w) ≡ (c ∷ w) ∷ []
unfolding fields fields_from
fields_end c [] (h, k) = ap (λ n. with_word n c [] (λ k. fields_from k [])) h
fields_end c (d ∷ w) (h, (h', k)) =
    fields_longer c d w h h' ∙ ap (cons_head c) (fields_end d w (h', k))

pub fields-word : (w s : Bytes) → IsWord w → fields (w ++ (32 ∷ s)) ≡ w ∷ fields s
fields-word [] s (n, h) = absurd (n refl)
fields-word (c ∷ w) s (n, h) = fields-solid c w s h

pub fields_word : (w : Bytes) → IsWord w → fields w ≡ w ∷ []
fields_word [] (n, h) = absurd (n refl)
fields_word (c ∷ w) (n, h) = fields_end c w h

digit-ascii : (n : ℕ) → n < 16 → digit n < 128
digit-ascii n h = ground (arith, h)

digit-not_space : (n : ℕ) → n < 16 → is_space (digit n) ≡ false
digit-not_space n h = ground (arith, h)

encode-IsSolid : (s : Bytes) → All (λ c. c < 256) s → IsSolid (encode s)
unfolding encode
encode-IsSolid [] h = tt
encode-IsSolid (c ∷ s) (b, h) = (
  ascii_width (digit (c / 16)) (digit (c % 16) ∷ encode s) (digit-ascii (c / 16) (omega (arith, b)))
      (digit-not_space (c / 16) (omega (arith, b))),
  (
    ascii_width (digit (c % 16)) (encode s) (digit-ascii (c % 16) (omega arith))
        (digit-not_space (c % 16) (omega arith)),
    encode-IsSolid s h,
  ),
)

pub encode-IsWord : (s : Bytes) → s ≢ [] → All (λ c. c < 256) s → IsWord (encode s)
unfolding encode
encode-IsWord [] n h = absurd (n refl)
encode-IsWord (c ∷ s) n h = ((λ e. cc e), encode-IsSolid (c ∷ s) h)

digits-IsSolid : (s : Bytes) → All IsDigit s → IsSolid s
digits-IsSolid [] h = tt
digits-IsSolid (c ∷ s) ((l, u), h) =
    (ascii_width c s (omega (arith, l, u)) (ground (arith, l, u)), digits-IsSolid s h)

pub format_int-IsWord : (z : ℤ) → IsWord (format_int z)
unfolding format_int
format_int-IsWord (pos n) =
    rw (format_nat_lem n)
      (digits-ne-nil n n, digits-IsSolid (digits n n) (digits-IsDigit n n (omega arith)))
format_int-IsWord (negsuc n) = (
  (λ e. cc e),
  (
    ascii_width 45 (format_nat (suc n)) (omega arith) refl,
    rw (format_nat_lem (suc n))
        (digits-IsSolid (digits (suc n) (suc n)) (digits-IsDigit (suc n) (suc n) (omega arith))),
  ),
)
