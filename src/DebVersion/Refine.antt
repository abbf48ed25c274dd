-- ===== src/DebVersion/Refine.antt =====
-- compareComponent decides the order of the keys.
use godinstall.Prelude.{
  ℕ, zero, suc, ◌+◌, ◌≡◌, ◌≢◌, refl, sym, ◌∙◌, ◌⊎◌, inl, inr, true, false, [], ◌∷◌, none, some,
  arith, Bytes, ℤ, pos, negsuc, eqb_ℤ, eqb_ℤ_iff, sub_ℤ, length,
}
use godinstall.Strconv.{is_digit}
use godinstall.DebVersion.{
  DebVersion, Text, differ, alike, done, go_on, next_order, compare_text, after_text, round,
  compare_loop, compare_component, char_order, compare,
}
use godinstall.DebVersion.Loops.{
  compare_text-alike, compare_loop_ends, compare_loop_turn, nil-cases, Round-cases,
}
use godinstall.DebVersion.Numbers.{RoundAgrees, after_text_agrees}
use godinstall.DebVersion.Key.{
  Sign, less, same, greater, order, sign, key, compare_keys, NoNul, compare_keys_trans, order_trans,
  or_else, or_else-Chain, sign_zero, sign_nonzero,
}

char_order_digit : (c : ℕ) → is_digit c ≡ true → char_order c ≡ pos 0
unfolding char_order
char_order_digit c h = ground arith

char_order_text : (c : ℕ) → c ≢ 0 → is_digit c ≡ false → char_order c ≢ pos 0
unfolding char_order
char_order_text c n h = ground arith

-- What the text loop hands on agrees with the keys.
abbrev TextAgrees : Sign → Text → Type 0
TextAgrees s (differ z) = s ≡ sign z
TextAgrees s (alike a b) = (s ≡ compare_keys (key none a) (key none b)) × NoNul a × NoNul b

sign-sub : (x y : ℤ) → (eqb_ℤ x y ≡ false) → (sign (sub_ℤ x y) ≡ order x y) × (order x y ≢ same)
unfolding sign
sign-sub x y h = ground arith

order_eqb : (x y : ℤ) → eqb_ℤ x y ≡ true → order x y ≡ same
unfolding order
order_eqb x y h = ground arith

compare_text_agrees :
    (a b : Bytes)
    → NoNul a
    → NoNul b
    → TextAgrees (compare_keys (key none a) (key none b)) (compare_text a b)
unfolding compare_text key compare_keys next_order
compare_text_agrees [] [] na nb = ground arith
compare_text_agrees [] (d ∷ b) na (nd, nb) = ground (
  arith,
  char_order_digit d,
  char_order_text d nd,
  sign-sub (pos 0) (char_order d),
  order_eqb (pos 0) (char_order d),
  eqb_ℤ_iff (pos 0) (char_order d),
)
compare_text_agrees (c ∷ a) [] (nc, na) nb = ground (
  arith,
  char_order_digit c,
  char_order_text c nc,
  sign-sub (char_order c) (pos 0),
  order_eqb (char_order c) (pos 0),
  eqb_ℤ_iff (char_order c) (pos 0),
)
compare_text_agrees (c ∷ a) (d ∷ b) (nc, na) (nd, nb) =
    let ih = compare_text_agrees a b na nb in
    ground (
      arith,
      ih,
      char_order_digit c,
      char_order_text c nc,
      char_order_digit d,
      char_order_text d nd,
      sign-sub (char_order c) (char_order d),
      order_eqb (char_order c) (char_order d),
      eqb_ℤ_iff (char_order c) (char_order d),
    )

round_agrees :
    (a b : Bytes)
    → NoNul a
    → NoNul b
    → RoundAgrees (compare_keys (key none a) (key none b)) (round a b)
unfolding round
round_agrees a b na nb = go (compare_text a b) refl (compare_text_agrees a b na nb)
  where
    go :
        (t : Text)
        → compare_text a b ≡ t
        → TextAgrees (compare_keys (key none a) (key none b)) t
        → RoundAgrees (compare_keys (key none a) (key none b)) (after_text t)
    go (differ z) e h = unfold after_text in h
    go (alike x y) e (h, nx, ny) =
        let ends = compare_text-alike a b x y e in
        rw h (after_text_agrees x y ends.no_text_left ends.no_text_right nx ny)

empty_agrees :
    (f : ℕ) (z : ℤ)
    → compare_loop (suc f) [] [] ≡ some z
    → compare_keys (key none []) (key none []) ≡ sign z
unfolding compare_loop key compare_keys sign order
empty_agrees f z h = ground arith

compare_loop_agrees :
    (f : ℕ) (a b : Bytes) (z : ℤ)
    → NoNul a
    → NoNul b
    → compare_loop f a b ≡ some z
    → compare_keys (key none a) (key none b) ≡ sign z
compare_loop_agrees zero a b z na nb h = unfold compare_loop in cc
compare_loop_agrees (suc f) a b z na nb h = elim (nil-cases a b) [
  | inl (ea, eb) ↦ let at_ends = rw (ea, eb) at h in rw (ea, eb) (empty_agrees f z at_ends)
  | inr left ↦ go left (Round-cases (round a b)) (round_agrees a b na nb) (compare_loop_agrees f)
]
  where
    go :
        (a ≢ []) ⊎ (b ≢ [])
        → ((w : ℤ) × (round a b ≡ done w)) ⊎ ((x : Bytes) × (y : Bytes) × (round a b ≡ go_on x y))
        → RoundAgrees (compare_keys (key none a) (key none b)) (round a b)
        → ((x y : Bytes) (w : ℤ)
            → NoNul x
            → NoNul y
            → compare_loop f x y ≡ some w
            → compare_keys (key none x) (key none y) ≡ sign w)
        → compare_keys (key none a) (key none b) ≡ sign z
    go left (inl (w, e)) agrees ih =
        let turn = rw e at (compare_loop_turn f a b left) in let agrees_w = rw e at agrees in cc
    go left (inr (x, y, e)) agrees ih =
        let turn = rw e at (compare_loop_turn f a b left) in
        let (same_keys, nx, ny) = rw e at agrees in rw same_keys (ih x y z nx ny (sym turn ∙ h))

-- Without NUL bytes compareComponent decides the order of the keys: text by rank, a run of digits
-- by its value, and a text that has ended goes on with zeros.
pub compare_component-key :
    (a b : Bytes)
    → NoNul a
    → NoNul b
    → sign (compare_component a b) ≡ compare_keys (key none a) (key none b)
compare_component-key a b na nb =
    let f = suc (length a + length b) in
    sym (
      compare_loop_agrees f a b (compare_component a b) na nb
        (compare_loop_ends f a b (omega arith)))

abbrev pub VersionNoNul : DebVersion → Type 0
VersionNoNul d = NoNul d.version × NoNul d.revision

-- The order of two versions: by epoch, then the upstream version, then the revision.
pub version_order : DebVersion → DebVersion → Sign
version_order a b = or_else (order a.epoch b.epoch) (
    or_else (compare_keys (key none a.version) (key none b.version))
      (compare_keys (key none a.revision) (key none b.revision)))

-- Without NUL bytes DebVersionCompare decides that order.
pub compare-version_order :
    (a b : DebVersion) → VersionNoNul a → VersionNoNul b → sign (compare a b) ≡ version_order a b
unfolding compare version_order order
compare-version_order a b (va, ra) (vb, rb) = ground (
  arith,
  compare_component-key a.version b.version va vb,
  compare_component-key a.revision b.revision ra rb,
  sign_zero (compare_component a.version b.version),
  sign_nonzero (compare_component a.version b.version),
  sign_ends,
)
  where
    sign_ends : (sign (pos 1) ≡ greater) × (sign (negsuc 0) ≡ less)
    sign_ends = unfold sign in (refl, refl)

-- Without NUL bytes DebVersionCompare is transitive, and two versions with a third one between
-- them are equal only if all three are.
pub compare_trans :
    (a b c : DebVersion)
    → VersionNoNul a
    → VersionNoNul b
    → VersionNoNul c
    → sign (compare a b) ≢ greater
    → sign (compare b c) ≢ greater
    → (sign (compare a c) ≢ greater)
      × (sign (compare a c) ≡ same → (sign (compare a b) ≡ same) × (sign (compare b c) ≡ same))
unfolding version_order
compare_trans a b c na nb nc =
    rw
      (
        compare-version_order a b na nb,
        compare-version_order b c nb nc,
        compare-version_order a c na nc,
      )
      (or_else-Chain _ _ _ _ _ _ (order_trans a.epoch b.epoch c.epoch) (
        or_else-Chain _ _ _ _ _ _
          (compare_keys_trans (key none a.version) (key none b.version) (key none c.version))
          (compare_keys_trans (key none a.revision) (key none b.revision) (key none c.revision))))
