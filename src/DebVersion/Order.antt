-- ===== src/DebVersion/Order.antt =====
-- DebVersionCompare and compareComponent with their arguments swapped.
use godinstall.Prelude.{
  ℕ, zero, suc, ◌+◌, ◌≡◌, ◌≢◌, refl, ◌⊎◌, inl, inr, false, ◌&&◌, [], ◌∷◌, some, none, arith, Bytes,
  ℤ, pos, neg_ℤ, length, if◌then◌else◌, Option,
}
use godinstall.DebVersion.{
  DebVersion, Text, differ, alike, Round, done, go_on, starts_digit, compare_text, skip_zeros,
  next_first, compare_digits, after_digits, after_text, round, compare_loop, compare_component,
  compare,
}
use godinstall.Strconv.{is_digit}
use godinstall.DebVersion.Loops.{compare_loop_ends, compare_loop_turn, nil-cases}

abbrev swap_text : Text → Text
swap_text (differ z) = differ (neg_ℤ z)
swap_text (alike a b) = alike b a

compare_text_swap : (a b : Bytes) → compare_text b a ≡ swap_text (compare_text a b)
unfolding compare_text
compare_text_swap [] [] = refl
compare_text_swap [] (d ∷ b) = ground (arith, compare_text_swap [] b)
compare_text_swap (c ∷ a) [] = ground (arith, compare_text_swap a [])
compare_text_swap (c ∷ a) (d ∷ b) = ground (arith, compare_text_swap a b)

next_first_swap : (z : ℤ) (c d : ℕ) → next_first (neg_ℤ z) d c ≡ neg_ℤ (next_first z c d)
unfolding next_first
next_first_swap z c d = ground arith

swap_digits : ℤ × Bytes × Bytes → ℤ × Bytes × Bytes
swap_digits (z, a, b) = (neg_ℤ z, b, a)

digits_turn :
    (z : ℤ) (c d : ℕ) (a b : Bytes)
    → compare_digits z (c ∷ a) (d ∷ b) ≡ (
        if is_digit c && is_digit d
        then compare_digits (next_first z c d) a b
        else (z, c ∷ a, d ∷ b))
unfolding compare_digits
digits_turn z c d a b = refl

compare_digits_swap :
    (z : ℤ) (a b : Bytes) → compare_digits (neg_ℤ z) b a ≡ swap_digits (compare_digits z a b)
unfolding swap_digits
compare_digits_swap z [] [] = unfold compare_digits in refl
compare_digits_swap z [] (d ∷ b) = unfold compare_digits in refl
compare_digits_swap z (c ∷ a) [] = unfold compare_digits in refl
compare_digits_swap z (c ∷ a) (d ∷ b) =
    rw
      (
        digits_turn (neg_ℤ z) d c b a,
        digits_turn z c d a b,
        next_first_swap z c d,
        compare_digits_swap (next_first z c d) a b,
      )
      (ground arith)

-- The digit loop stops where one of the runs has ended.
pub compare_digits_stops :
    (z : ℤ) (a b : Bytes)
    → (starts_digit (compare_digits z a b).1 && starts_digit (compare_digits z a b).2) ≡ false
compare_digits_stops z [] b = unfold compare_digits in refl
compare_digits_stops z (c ∷ a) [] = unfold compare_digits in ground arith
compare_digits_stops z (c ∷ a) (d ∷ b) =
    rw (digits_turn z c d a b) (ground (arith, compare_digits_stops (next_first z c d) a b))

abbrev swap_round : Round → Round
swap_round (done z) = done (neg_ℤ z)
swap_round (go_on a b) = go_on b a

after_digits_swap :
    (t : ℤ × Bytes × Bytes)
    → (starts_digit t.1 && starts_digit t.2) ≡ false
    → after_digits (swap_digits t) ≡ swap_round (after_digits t)
unfolding swap_digits
after_digits_swap (z, a, b) h = ground arith

-- A round, with the loops it calls shut.
round_of_alike :
    (a b : Bytes)
    → after_text (alike a b) ≡ after_digits (compare_digits (pos 0) (skip_zeros a) (skip_zeros b))
unfolding after_text
round_of_alike a b = refl

after_text_swap : (t : Text) → after_text (swap_text t) ≡ swap_round (after_text t)
after_text_swap (differ z) = unfold after_text in refl
after_text_swap (alike a b) =
    rw
      (
        round_of_alike b a,
        round_of_alike a b,
        compare_digits_swap (pos 0) (skip_zeros a) (skip_zeros b),
      )
      (after_digits_swap (compare_digits (pos 0) (skip_zeros a) (skip_zeros b))
        (compare_digits_stops (pos 0) (skip_zeros a) (skip_zeros b)))

round_swap : (a b : Bytes) → round b a ≡ swap_round (round a b)
unfolding round
round_swap a b = rw (compare_text_swap a b) (after_text_swap (compare_text a b))

abbrev neg_option : Option ℤ → Option ℤ
neg_option none = none
neg_option (some z) = some (neg_ℤ z)

swap_left : {a b : Bytes} → (a ≢ []) ⊎ (b ≢ []) → (b ≢ []) ⊎ (a ≢ [])
swap_left (inl h) = inr h
swap_left (inr h) = inl h

compare_loop_swap : (f : ℕ) (a b : Bytes) → compare_loop f b a ≡ neg_option (compare_loop f a b)
compare_loop_swap zero a b = unfold compare_loop in refl
compare_loop_swap (suc f) a b = elim (nil-cases a b) [
  | inl (ea, eb) ↦ rw (ea, eb) (unfold compare_loop in refl)
  | inr left ↦
      rw (compare_loop_turn f a b left, compare_loop_turn f b a (swap_left left), round_swap a b)
        (turn (round a b) (compare_loop_swap f))
]
  where
    turn :
        (r : Round)
        → ((x y : Bytes) → compare_loop f y x ≡ neg_option (compare_loop f x y))
        → (elim (swap_round r) [ done z ↦ some z | go_on x y ↦ compare_loop f x y ])
          ≡ neg_option (elim r [ done z ↦ some z | go_on x y ↦ compare_loop f x y ])
    turn (done z) ih = refl
    turn (go_on x y) ih = ih x y

compare_component_swap : (a b : Bytes) → compare_component b a ≡ neg_ℤ (compare_component a b)
compare_component_swap a b =
    let f = suc (length a + length b) in
    ground (
      arith,
      compare_loop_swap f a b,
      compare_loop_ends f a b (omega arith),
      compare_loop_ends f b a (omega arith),
    )

-- Swapping the two versions negates the result: every comparison is decided the same way from
-- both sides, and a version is equal to itself.
pub compare_swap : (a b : DebVersion) → (compare b a ≡ neg_ℤ (compare a b)) × (compare a a ≡ pos 0)
unfolding compare
compare_swap a b = (
  ground (
    arith,
    compare_component_swap a.version b.version,
    compare_component_swap a.revision b.revision,
  ),
  ground (
    arith,
    compare_component_swap a.version a.version,
    compare_component_swap a.revision a.revision,
  ),
)
