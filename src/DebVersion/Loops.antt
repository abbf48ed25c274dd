-- ===== src/DebVersion/Loops.antt =====
-- The loops of compareComponent end: every round takes at least one byte.
use godinstall.Prelude.{
  ℕ, zero, suc, ◌+◌, ◌≤◌, ◌<◌, ◌≡◌, ◌≢◌, refl, ◌⊎◌, inl, inr, true, false, ◌||◌, [], ◌∷◌, some,
  none, arith, Bytes, ℤ, pos, length, Bool-cases, Option, ◌∙◌,
}
use godinstall.DebVersion.{
  Text, differ, alike, Round, done, go_on, starts_text, starts_digit, compare_text, skip_zeros,
  next_first, compare_digits, after_text, round, compare_loop, compare_component, or_zero,
}

-- The rests behind the text are no longer than the inputs, and start with no text.
pub record TextDone (a b a' b' : Bytes) : Type 0 where
  pub shorter_left : length a' ≤ length a
  pub shorter_right : length b' ≤ length b
  pub no_text_left : starts_text a' ≡ false
  pub no_text_right : starts_text b' ≡ false
  pub moved : (starts_text a || starts_text b) ≡ true → length a' + length b' < length a + length b

pub compare_text-alike : (a b a' b' : Bytes) → compare_text a b ≡ alike a' b' → TextDone a b a' b'
unfolding compare_text
compare_text-alike [] [] a' b' h = ground arith
compare_text-alike [] (d ∷ b) a' b' h = ground (arith, compare_text-alike [] b a' b')
compare_text-alike (c ∷ a) [] a' b' h = ground (arith, compare_text-alike a [] a' b')
compare_text-alike (c ∷ a) (d ∷ b) a' b' h = ground (arith, compare_text-alike a b a' b')

pub skip_zeros-le : (s : Bytes) → length (skip_zeros s) ≤ length s
unfolding skip_zeros
skip_zeros-le [] = omega arith
skip_zeros-le (c ∷ s) = ground (arith, skip_zeros-le s)

pub skip_zeros_moves :
    (s : Bytes)
    → starts_digit s ≡ true
    → (starts_digit (skip_zeros s) ≡ true) ⊎ (length (skip_zeros s) < length s)
unfolding skip_zeros
skip_zeros_moves [] h = ground arith
skip_zeros_moves (c ∷ s) h = ground (arith, skip_zeros-le s)

pub compare_digits-le :
    (z : ℤ) (a b : Bytes)
    → (length (compare_digits z a b).1 ≤ length a) × (length (compare_digits z a b).2 ≤ length b)
unfolding compare_digits
compare_digits-le z [] b = ground arith
compare_digits-le z (c ∷ a) [] = ground arith
compare_digits-le z (c ∷ a) (d ∷ b) = ground (arith, compare_digits-le (next_first z c d) a b)

-- Two runs of digits shrink; where only one side has a digit, it still has it afterwards.
pub compare_digits_moves :
    (z : ℤ) (a b : Bytes)
    → (starts_digit a || starts_digit b) ≡ true
    → starts_digit (compare_digits z a b).1 ≡ false
    → starts_digit (compare_digits z a b).2 ≡ false
    → length (compare_digits z a b).1 + length (compare_digits z a b).2 < length a + length b
unfolding compare_digits
compare_digits_moves z [] b h k l = ground arith
compare_digits_moves z (c ∷ a) [] h k l = ground arith
compare_digits_moves z (c ∷ a) (d ∷ b) h k l =
    ground (arith, compare_digits-le (next_first z c d) a b)

-- The part of a round behind the text.
numbers_move :
    (a b a' b' : Bytes)
    → after_text (alike a b) ≡ go_on a' b'
    → (length a' + length b' ≤ length a + length b)
      × ((starts_digit a || starts_digit b) ≡ true → length a' + length b' < length a + length b)
unfolding after_text
numbers_move a b a' b' h = ground (
  arith,
  skip_zeros-le a,
  skip_zeros-le b,
  skip_zeros_moves a,
  skip_zeros_moves b,
  compare_digits-le (pos 0) (skip_zeros a) (skip_zeros b),
  compare_digits_moves (pos 0) (skip_zeros a) (skip_zeros b),
)

starts_cases : (s : Bytes) → s ≢ [] → (starts_text s || starts_digit s) ≡ true
starts_cases [] h = absurd (h refl)
starts_cases (c ∷ s) h = ground arith

pub compare_text_stays :
    (a b : Bytes) → (starts_text a || starts_text b) ≡ false → compare_text a b ≡ alike a b
unfolding compare_text
compare_text_stays [] [] h = refl
compare_text_stays [] (d ∷ b) h = ground arith
compare_text_stays (c ∷ a) [] h = ground arith
compare_text_stays (c ∷ a) (d ∷ b) h = ground arith

digits_left :
    (a b : Bytes)
    → (a ≢ []) ⊎ (b ≢ [])
    → (starts_text a || starts_text b) ≡ false
    → (starts_digit a || starts_digit b) ≡ true
digits_left [] [] (inl h) k = absurd (h refl)
digits_left [] [] (inr h) k = absurd (h refl)
digits_left [] (d ∷ b) h k = ground arith
digits_left (c ∷ a) [] h k = ground arith
digits_left (c ∷ a) (d ∷ b) h k = ground arith

after_text_moves :
    (a b a' b' : Bytes) (t : Text)
    → (a ≢ []) ⊎ (b ≢ [])
    → compare_text a b ≡ t
    → after_text t ≡ go_on a' b'
    → length a' + length b' < length a + length b
after_text_moves a b a' b' (differ z) some_left e h = unfold after_text in cc
after_text_moves a b a' b' (alike x y) some_left e h =
    elim (Bool-cases (starts_text a || starts_text b)) [
      | inl text ↦ ground (arith, compare_text-alike a b x y e, numbers_move x y a' b' h)
      | inr still ↦ ground (
        arith,
        compare_text_stays a b still,
        digits_left a b some_left still,
        numbers_move x y a' b' h,
      )
    ]

-- A round that goes on has taken a byte.
pub round_moves :
    (a b a' b' : Bytes)
    → (a ≢ []) ⊎ (b ≢ [])
    → round a b ≡ go_on a' b'
    → length a' + length b' < length a + length b
unfolding round
round_moves a b a' b' some_left h = after_text_moves a b a' b' (compare_text a b) some_left refl h

pub Round-cases :
    (r : Round) → ((z : ℤ) × (r ≡ done z)) ⊎ ((a : Bytes) × (b : Bytes) × (r ≡ go_on a b))
Round-cases (done z) = inl (z, refl)
Round-cases (go_on a b) = inr (a, b, refl)

-- One turn of the loop, at any inputs that are not both at their ends.
pub compare_loop_turn :
    (f : ℕ) (a b : Bytes)
    → (a ≢ []) ⊎ (b ≢ [])
    → compare_loop (suc f) a b
      ≡ (elim (round a b) [ done z ↦ some z | go_on a' b' ↦ compare_loop f a' b' ])
unfolding compare_loop
compare_loop_turn f [] [] (inl h) = absurd (h refl)
compare_loop_turn f [] [] (inr h) = absurd (h refl)
compare_loop_turn f [] (d ∷ b) h = refl
compare_loop_turn f (c ∷ a) b h = refl

pub nil-cases : (a b : Bytes) → ((a ≡ []) × (b ≡ [])) ⊎ ((a ≢ []) ⊎ (b ≢ []))
nil-cases [] [] = inl (refl, refl)
nil-cases (c ∷ a) b = inr (inl (λ e. cc))
nil-cases [] (d ∷ b) = inr (inr (λ e. cc))

compare_loop_fuel :
    (f g : ℕ) (a b : Bytes)
    → length a + length b < f
    → length a + length b < g
    → (compare_loop f a b ≡ compare_loop g a b) × (compare_loop f a b ≢ none)
compare_loop_fuel zero g a b h k = absurd (omega arith)
compare_loop_fuel (suc f) zero a b h k = absurd (omega arith)
compare_loop_fuel (suc f) (suc g) a b h k = elim (nil-cases a b) [
  | inl (ea, eb) ↦ rw (ea, eb) (unfold compare_loop in (refl, ground arith))
  | inr left ↦ turn left (Round-cases (round a b)) (compare_loop_fuel f g)
]
  where
    turn :
        (a ≢ []) ⊎ (b ≢ [])
        → ((z : ℤ) × (round a b ≡ done z))
          ⊎ ((a' : Bytes) × (b' : Bytes) × (round a b ≡ go_on a' b'))
        → ((x y : Bytes)
            → length x + length y < f
            → length x + length y < g
            → (compare_loop f x y ≡ compare_loop g x y) × (compare_loop f x y ≢ none))
        → (compare_loop (suc f) a b ≡ compare_loop (suc g) a b) × (compare_loop (suc f) a b ≢ none)
    turn left (inl (z, e)) ih =
        rw (compare_loop_turn f a b left, compare_loop_turn g a b left, e) (refl, ground arith)
    turn left (inr (a', b', e)) ih =
        let less = round_moves a b a' b' left e in
        rw (compare_loop_turn f a b left, compare_loop_turn g a b left, e)
          (ih a' b' (omega arith) (omega arith))

or_zero-some : (o : Option ℤ) → o ≢ none → o ≡ some (or_zero o)
or_zero-some none h = absurd (h refl)
or_zero-some (some z) h = refl

-- The loop of compareComponent ends: with more rounds than the two texts have bytes it returns,
-- and what it returns does not depend on the rounds.
pub compare_loop_ends :
    (f : ℕ) (a b : Bytes)
    → length a + length b < f
    → compare_loop f a b ≡ some (compare_component a b)
unfolding compare_component
compare_loop_ends f a b h =
    let enough = compare_loop_fuel f (suc (length a + length b)) a b h (omega arith) in
    enough.0
    ∙ or_zero-some (compare_loop (suc (length a + length b)) a b)
        (compare_loop_fuel (suc (length a + length b)) f a b (omega arith) h).1
