-- ===== src/DebVersion/Key.antt =====
-- The order of version components as dpkg describes it: text by rank, runs of digits by value.
-- `key` lists the ranks of a text, a 0 where a run of digits starts, and the value of the run; two
-- keys are compared place by place, and a key that has ended goes on with zeros.
use godinstall.Prelude.{
  ℕ, ◌+◌, ◌-◌, ◌*◌, ◌≡◌, ◌≢◌, refl, List, [], ◌∷◌, Option, none, some, arith, Bytes, ltb_ℤ, eqb_ℤ,
  true, false, ℤ, pos, if◌then◌else◌, All,
}
use godinstall.Strconv.{is_digit}
use godinstall.DebVersion.{char_order}

pub data Sign : Type 0 where
  less same greater : Sign

unfoldable pub order : ℤ → ℤ → Sign
order x y = if ltb_ℤ x y then less else if ltb_ℤ y x then greater else same

-- The sign of what a comparison returns.
unfoldable pub sign : ℤ → Sign
unfolding order
sign z = order z (pos 0)

pub sign_zero : (z : ℤ) → eqb_ℤ z (pos 0) ≡ true → sign z ≡ same
unfolding sign order
sign_zero z h = ground arith

pub sign_nonzero : (z : ℤ) → eqb_ℤ z (pos 0) ≡ false → sign z ≢ same
unfolding sign order
sign_nonzero z h = ground arith

abbrev pub or_else : Sign → Sign → Sign
or_else less s = less
or_else same s = s
or_else greater s = greater

-- Behind its digits so far, `some v`, a run has the value `v`; `none` is a place in the text.
unfoldable pub key : Option ℕ → Bytes → List ℤ
key none [] = []
key (some v) [] = pos v ∷ []
key none (c ∷ s) =
    let number = key (some (c - b'0')) s in
    let text = key none s in if is_digit c then pos 0 ∷ number else char_order c ∷ text
key (some v) (c ∷ s) =
    let number = key (some (v * 10 + (c - b'0'))) s in
    let text = key none s in if is_digit c then number else pos v ∷ char_order c ∷ text

unfoldable pub compare_keys : List ℤ → List ℤ → Sign
compare_keys [] [] = same
compare_keys [] (y ∷ ys) = or_else (order (pos 0) y) (compare_keys [] ys)
compare_keys (x ∷ xs) [] = or_else (order x (pos 0)) (compare_keys xs [])
compare_keys (x ∷ xs) (y ∷ ys) = or_else (order x y) (compare_keys xs ys)

-- No byte is NUL: its rank is that of a digit, and of the end.
abbrev pub NoNul : Bytes → Type 0
NoNul = All (λ c. c ≢ 0)

-- Three comparisons of a chain: at most as large is passed on, and only equals make equals.
abbrev pub Chain : Sign → Sign → Sign → Type 0
Chain s t u = s ≢ greater → t ≢ greater → (u ≢ greater) × (u ≡ same → (s ≡ same) × (t ≡ same))

pub order_trans : (x y z : ℤ) → Chain (order x y) (order y z) (order x z)
unfolding order
order_trans x y z h k = ground arith

-- First places decide, then the places behind them.
pub or_else-Chain :
    (s t u s' t' u' : Sign)
    → Chain s t u
    → Chain s' t' u'
    → Chain (or_else s s') (or_else t t') (or_else u u')
or_else-Chain s t u s' t' u' h k = ground arith

pub compare_keys_trans :
    (xs ys zs : List ℤ) → Chain (compare_keys xs ys) (compare_keys ys zs) (compare_keys xs zs)
unfolding compare_keys order
compare_keys_trans [] [] zs = λ h k. (k, λ e. (refl, e))
compare_keys_trans [] (y ∷ ys) [] =
    or_else-Chain _ _ _ _ _ _ (order_trans (pos 0) y (pos 0)) (compare_keys_trans [] ys [])
compare_keys_trans [] (y ∷ ys) (z ∷ zs) =
    or_else-Chain _ _ _ _ _ _ (order_trans (pos 0) y z) (compare_keys_trans [] ys zs)
compare_keys_trans (x ∷ xs) [] [] = λ h k. (h, λ e. (e, refl))
compare_keys_trans (x ∷ xs) [] (z ∷ zs) =
    or_else-Chain _ _ _ _ _ _ (order_trans x (pos 0) z) (compare_keys_trans xs [] zs)
compare_keys_trans (x ∷ xs) (y ∷ ys) [] =
    or_else-Chain _ _ _ _ _ _ (order_trans x y (pos 0)) (compare_keys_trans xs ys [])
compare_keys_trans (x ∷ xs) (y ∷ ys) (z ∷ zs) =
    or_else-Chain _ _ _ _ _ _ (order_trans x y z) (compare_keys_trans xs ys zs)

-- Zeros at the end of a key change nothing.
pub compare_keys_pad_left :
    (ks : List ℤ) → compare_keys [] (pos 0 ∷ ks) ≡ compare_keys (pos 0 ∷ []) ks
unfolding compare_keys order
compare_keys_pad_left [] = refl
compare_keys_pad_left (k ∷ ks) = refl

pub compare_keys_pad_right :
    (ks : List ℤ) → compare_keys (pos 0 ∷ ks) [] ≡ compare_keys ks (pos 0 ∷ [])
unfolding compare_keys order
compare_keys_pad_right [] = refl
compare_keys_pad_right (k ∷ ks) = refl

pub compare_keys_zeros :
    (ks ls : List ℤ) → compare_keys (pos 0 ∷ ks) (pos 0 ∷ ls) ≡ compare_keys ks ls
unfolding compare_keys order
compare_keys_zeros ks ls = refl
