-- ===== src/DebVersion/Numbers.antt =====
-- The part of a round behind the text agrees with the keys: skipping zeros keeps the value of a
-- run of digits, and the first difference of two runs of one length decides their values.
use godinstall.Prelude.{
  ℕ, ◌+◌, ◌-◌, ◌*◌, ◌≤◌, ◌<◌, ◌≡◌, refl, ◌⊎◌, inl, inr, Bool, true, false, ◌&&◌, List, [], ◌∷◌,
  none, some, arith, Bytes, ℤ, pos, ◌==◌, if◌then◌else◌, Bool-cases,
}
use godinstall.Strconv.{is_digit}
use godinstall.DebVersion.{
  alike, Round, done, go_on, starts_text, starts_digit, skip_zeros, next_first, compare_digits,
  after_digits, after_text, char_order,
}
use godinstall.DebVersion.Key.{
  Sign, less, greater, order, sign, key, compare_keys, NoNul, compare_keys_pad_left,
  compare_keys_pad_right, compare_keys_zeros, sign_zero, sign_nonzero,
}

abbrev pub RoundAgrees : Sign → Round → Type 0
RoundAgrees s (done z) = s ≡ sign z
RoundAgrees s (go_on a b) = (s ≡ compare_keys (key none a) (key none b)) × NoNul a × NoNul b

is_digit_bounds : (c : ℕ) → is_digit c ≡ true → (48 ≤ c) × (c ≤ 57)
unfolding is_digit
is_digit_bounds c h = ground arith

skip_zeros-key : (s : Bytes) → key (some 0) (skip_zeros s) ≡ key (some 0) s
unfolding skip_zeros key is_digit
skip_zeros-key [] = refl
skip_zeros-key (c ∷ s) = ground (arith, skip_zeros-key s)

skip_zeros-NoNul : (s : Bytes) → NoNul s → NoNul (skip_zeros s)
unfolding skip_zeros
skip_zeros-NoNul [] h = tt
skip_zeros-NoNul (c ∷ s) (hc, hs) = ground (arith, skip_zeros-NoNul s hs)

abbrev starts_zero : Bytes → Bool
starts_zero [] = false
starts_zero (c ∷ s) = c == b'0'

skip_zeros-starts_zero : (s : Bytes) → starts_zero (skip_zeros s) ≡ false
unfolding skip_zeros
skip_zeros-starts_zero [] = refl
skip_zeros-starts_zero (c ∷ s) = ground (arith, skip_zeros-starts_zero s)

key_digit :
    (c : ℕ) (s : Bytes)
    → starts_text (c ∷ s) ≡ false
    → key none (c ∷ s) ≡ pos 0 ∷ key (some 0) (c ∷ s)
unfolding key
key_digit c s h = ground arith

-- At a place that is no text, a key is that of the number that starts there.
key_at_number :
    (a b : Bytes)
    → starts_text a ≡ false
    → starts_text b ≡ false
    → compare_keys (key none a) (key none b) ≡ compare_keys (key (some 0) a) (key (some 0) b)
key_at_number [] [] ha hb = unfold compare_keys order key in refl
key_at_number [] (d ∷ b) ha hb =
    rw (key_digit d b hb) (unfold key in compare_keys_pad_left (key (some 0) (d ∷ b)))
key_at_number (c ∷ a) [] ha hb =
    rw (key_digit c a ha) (unfold key in compare_keys_pad_right (key (some 0) (c ∷ a)))
key_at_number (c ∷ a) (d ∷ b) ha hb =
    rw (key_digit c a ha, key_digit d b hb)
      (compare_keys_zeros (key (some 0) (c ∷ a)) (key (some 0) (d ∷ b)))

-- The number at a place is at least its digits so far.
key_head : (v : ℕ) (s : Bytes) → (w : ℕ) × (ks : List ℤ) × (key (some v) s ≡ pos w ∷ ks) × (v ≤ w)
unfolding key
key_head v [] = (v, [], refl, omega arith)
key_head v (c ∷ s) = elim (Bool-cases (is_digit c)) [
  | inl e ↦ let (w, ks, h, le) = key_head (v * 10 + (c - b'0')) s in (w, ks, rw e h, omega arith)
  | inr e ↦ (v, char_order c ∷ key none s, rw e refl, omega arith)
]

-- `p` and `q` are the values of the digits read so far, `m` is ten to their number.
record Level (z : ℤ) (p q m : ℕ) : Type 0 where
  left_small : p < m
  right_small : q < m
  lead : ((m ≡ 1) × (p ≡ 0) × (q ≡ 0)) ⊎ ((m ≤ 10 * p) × (m ≤ 10 * q))
  decided : sign z ≡ order (pos p) (pos q)

start-Level : Level (pos 0) 0 0 1
unfolding sign order
start-Level = ground arith

digit_value : ℕ → ℕ → ℕ
digit_value v c = v * 10 + (c - b'0')

-- A first digit is not 0, since the zeros have been skipped.
abbrev Leading : ℕ → Bytes → Type 0
Leading m s = m ≡ 1 → starts_zero s ≡ false

next_first-order :
    (z : ℤ) (p q c d : ℕ)
    → 48 ≤ c
    → c ≤ 57
    → 48 ≤ d
    → d ≤ 57
    → sign z ≡ order (pos p) (pos q)
    → sign (next_first z c d) ≡ order (pos (digit_value p c)) (pos (digit_value q d))
unfolding next_first sign order digit_value
next_first-order z p q c d h1 h2 h3 h4 e = ground arith

lead_swap :
    {m p q : ℕ}
    → ((m ≡ 1) × (p ≡ 0) × (q ≡ 0)) ⊎ ((m ≤ 10 * p) × (m ≤ 10 * q))
    → ((m ≡ 1) × (q ≡ 0) × (p ≡ 0)) ⊎ ((m ≤ 10 * q) × (m ≤ 10 * p))
lead_swap (inl (hm, hp, hq)) = inl (hm, hq, hp)
lead_swap (inr (hp, hq)) = inr (hq, hp)

lead-le :
    {m p q : ℕ} (c : ℕ) (a : Bytes)
    → 48 ≤ c
    → Leading m (c ∷ a)
    → ((m ≡ 1) × (p ≡ 0) × (q ≡ 0)) ⊎ ((m ≤ 10 * p) × (m ≤ 10 * q))
    → 10 * m ≤ 10 * digit_value p c
unfolding digit_value
lead-le c a low h (inl (hm, hp, hq)) = ground (arith, h hm)
lead-le c a low h (inr (hp, hq)) = omega arith

Level-step :
    (z : ℤ) (p q m c d : ℕ) (a b : Bytes)
    → Level z p q m
    → Leading m (c ∷ a)
    → Leading m (d ∷ b)
    → is_digit c ≡ true
    → is_digit d ≡ true
    → Level (next_first z c d) (digit_value p c) (digit_value q d) (10 * m)
unfolding digit_value
Level-step z p q m c d a b l ha hb ec ed =
    let (c_low, c_high) = is_digit_bounds c ec in
    let (d_low, d_high) = is_digit_bounds d ed in
    record {
      left_small = omega (arith, l);
      right_small = omega (arith, l);
      lead = inr (lead-le c a c_low ha l.lead, lead-le d b d_low hb (lead_swap l.lead));
      decided = next_first-order z p q c d c_low c_high d_low d_high l.decided;
    }

key_ended : (v : ℕ) (s : Bytes) → starts_digit s ≡ false → key (some v) s ≡ pos v ∷ key none s
unfolding key
key_ended v [] h = refl
key_ended v (c ∷ s) h = ground arith

key_more :
    (v c : ℕ) (s : Bytes)
    → is_digit c ≡ true
    → key (some v) (c ∷ s) ≡ key (some (digit_value v c)) s
unfolding key digit_value
key_more v c s h = ground arith

-- Where only one run has a digit left, its number is the larger one.
longer_run :
    (p q m c : ℕ) (a b : Bytes)
    → q < m
    → ((m ≡ 1) × (p ≡ 0) × (q ≡ 0)) ⊎ ((m ≤ 10 * p) × (m ≤ 10 * q))
    → Leading m (c ∷ a)
    → is_digit c ≡ true
    → starts_digit b ≡ false
    → (compare_keys (key (some p) (c ∷ a)) (key (some q) b) ≡ greater)
      × (compare_keys (key (some q) b) (key (some p) (c ∷ a)) ≡ less)
longer_run p q m c a b small lead ha ec eb =
    let (w, ks, head, le) = key_head (digit_value p c) a in
    let (c_low, c_high) = is_digit_bounds c ec in
    let big : q < w = omega (arith, lead-le c a c_low ha lead, small, le) in
    rw (key_more p c a ec, head, key_ended q b eb)
      (unfold compare_keys order in (ground (arith, big), ground (arith, big)))

-- Both runs have ended.
Level-end :
    (z : ℤ) (p q m : ℕ) (a b : Bytes)
    → Level z p q m
    → NoNul a
    → NoNul b
    → starts_digit a ≡ false
    → starts_digit b ≡ false
    → RoundAgrees (compare_keys (key (some p) a) (key (some q) b)) (after_digits (z, a, b))
Level-end z p q m a b l na nb ea eb =
    rw (key_ended p a ea, key_ended q b eb, ea, eb)
      (unfold compare_keys in ground (arith, sign_zero z, sign_nonzero z, l.decided))

-- Where the digit loop stops, what follows it agrees with the keys.
digits_stop :
    (z : ℤ) (p q m : ℕ) (a b : Bytes)
    → Level z p q m
    → Leading m a
    → Leading m b
    → NoNul a
    → NoNul b
    → (starts_digit a && starts_digit b) ≡ false
    → RoundAgrees (compare_keys (key (some p) a) (key (some q) b)) (after_digits (z, a, b))
unfolding sign order
digits_stop z p q m [] [] l ha hb na nb e = Level-end z p q m [] [] l na nb refl refl
digits_stop z p q m [] (d ∷ b) l ha hb na nb e = elim (Bool-cases (is_digit d)) [
  | inl ed ↦ rw ed (longer_run q p m d b [] l.left_small (lead_swap l.lead) hb ed refl).1
  | inr ed ↦ Level-end z p q m [] (d ∷ b) l na nb refl ed
]
digits_stop z p q m (c ∷ a) [] l ha hb na nb e = elim (Bool-cases (is_digit c)) [
  | inl ec ↦ rw ec (longer_run p q m c a [] l.right_small l.lead ha ec refl).0
  | inr ec ↦ Level-end z p q m (c ∷ a) [] l na nb ec refl
]
digits_stop z p q m (c ∷ a) (d ∷ b) l ha hb na nb e = elim (Bool-cases (is_digit c)) [
  | inl ec ↦
      let ed : is_digit d ≡ false = ground (arith, e, ec) in
      rw ec (longer_run p q m c a (d ∷ b) l.right_small l.lead ha ec ed).0
  | inr ec ↦ elim (Bool-cases (is_digit d)) [
    | inl ed ↦ rw (ec, ed) (longer_run q p m d b (c ∷ a) l.left_small (lead_swap l.lead) hb ed ec).1
    | inr ed ↦ Level-end z p q m (c ∷ a) (d ∷ b) l na nb ec ed
  ]
]

no_more-Leading : (m : ℕ) (s : Bytes) → 0 < m → Leading (10 * m) s
no_more-Leading m s h e = absurd (omega arith)

compare_digits_turn :
    (z : ℤ) (c d : ℕ) (a b : Bytes)
    → compare_digits z (c ∷ a) (d ∷ b) ≡ (
        if is_digit c && is_digit d
        then compare_digits (next_first z c d) a b
        else (z, c ∷ a, d ∷ b))
unfolding compare_digits
compare_digits_turn z c d a b = refl

-- From any level on, the digit loop and what follows it agree with the keys.
compare_digits_agrees :
    (z : ℤ) (p q m : ℕ) (a b : Bytes)
    → Level z p q m
    → Leading m a
    → Leading m b
    → NoNul a
    → NoNul b
    → RoundAgrees
        (compare_keys (key (some p) a) (key (some q) b))
        (after_digits (compare_digits z a b))
compare_digits_agrees z p q m [] b l ha hb na nb =
    unfold compare_digits in digits_stop z p q m [] b l ha hb na nb refl
compare_digits_agrees z p q m (c ∷ a) [] l ha hb na nb =
    unfold compare_digits in digits_stop z p q m (c ∷ a) [] l ha hb na nb (ground arith)
compare_digits_agrees z p q m (c ∷ a) (d ∷ b) l ha hb (nc, na) (nd, nb) =
    elim (Bool-cases (is_digit c && is_digit d)) [
      | inl both ↦
          let ec : is_digit c ≡ true = ground (arith, both) in
          let ed : is_digit d ≡ true = ground (arith, both) in
          rw (compare_digits_turn z c d a b, both, key_more p c a ec, key_more q d b ed)
            (compare_digits_agrees (next_first z c d) (digit_value p c) (digit_value q d) (10 * m) a
              b (Level-step z p q m c d a b l ha hb ec ed) (no_more-Leading m a (omega arith))
              (no_more-Leading m b (omega arith)) na nb)
      | inr stop ↦
          rw (compare_digits_turn z c d a b, stop)
            (digits_stop z p q m (c ∷ a) (d ∷ b) l ha hb (nc, na) (nd, nb) stop)
    ]

-- A round behind the text agrees with the keys.
pub after_text_agrees :
    (a b : Bytes)
    → starts_text a ≡ false
    → starts_text b ≡ false
    → NoNul a
    → NoNul b
    → RoundAgrees (compare_keys (key none a) (key none b)) (after_text (alike a b))
unfolding after_text
after_text_agrees a b ha hb na nb =
    rw (key_at_number a b ha hb, ← skip_zeros-key a, ← skip_zeros-key b)
      (compare_digits_agrees (pos 0) 0 0 1 (skip_zeros a) (skip_zeros b) start-Level
        (λ _. skip_zeros-starts_zero a) (λ _. skip_zeros-starts_zero b) (skip_zeros-NoNul a na)
        (skip_zeros-NoNul b nb))
