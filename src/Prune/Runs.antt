-- ===== src/Prune/Runs.antt =====
-- What the pruner keeps of a package, as the rule says it: of the runs of one version, newest
-- first, so many, and of each run so many revisions.
use godinstall.Prelude.{
  ℕ, zero, suc, ◌+◌, ◌-◌, ◌<◌, ◌≡◌, refl, inl, inr, Bool, true, false, ◌&&◌, List, [], ◌∷◌, ◌++◌,
  arith, bytes_beq, eqb_ℤ, if◌then◌else◌, Bool-cases, map, ltb,
}
use mathlib.Core.List.{flatten}
use godinstall.Release.Index.{Entry}

abbrev pub same_version : Entry → Entry → Bool
same_version a b =
    bytes_beq b.source_item.version.version a.source_item.version.version
    && eqb_ℤ b.source_item.version.epoch a.source_item.version.epoch

-- The rest of the run that `e` is in, and the runs behind it.
chop : Entry → List Entry → List Entry × List (List Entry)
chop e [] = ([], [])
chop e (x ∷ xs) =
    let (r, rs) = chop x xs in if same_version e x then (x ∷ r, rs) else ([], (x ∷ r) ∷ rs)

-- Neighbours of one version and epoch, together.
pub runs : List Entry → List (List Entry)
unfolding chop
runs [] = []
runs (e ∷ xs) = (e ∷ (chop e xs).0) ∷ (chop e xs).1

module _ {ℓ} {A : Type ℓ} where
  pub take : ℕ → List A → List A
  take zero xs = []
  take (suc n) [] = []
  take (suc n) (x ∷ xs) = x ∷ take n xs

  -- The first `n`, if there is a limit.
  pub take_limit : Bool → ℕ → List A → List A
  unfolding take
  take_limit limited n xs = if limited then take n xs else xs

  take-cons : (n : ℕ) (x : A) (xs : List A) → 0 < n → take n (x ∷ xs) ≡ x ∷ take (n - 1) xs
  unfolding take
  take-cons zero x xs h = absurd (omega arith)
  take-cons (suc n) x xs h = let e : suc n - 1 ≡ n = omega arith in rw e refl

  take-nil : (n : ℕ) → take n [] ≡ []
  unfolding take
  take-nil zero = refl
  take-nil (suc n) = refl

  take-zero : (n : ℕ) (xs : List A) → n ≡ 0 → take n xs ≡ []
  unfolding take
  take-zero zero xs h = refl
  take-zero (suc n) xs h = absurd (omega arith)

  take_limit-cons :
      (b : Bool) (n : ℕ) (x : A) (xs : List A)
      → (b ≡ true → 0 < n)
      → take_limit b n (x ∷ xs) ≡ x ∷ take_limit b (n - 1) xs
  unfolding take_limit
  take_limit-cons false n x xs h = refl
  take_limit-cons true n x xs h = take-cons n x xs (h refl)

  take_limit-zero : (b : Bool) (n : ℕ) (xs : List A) → b ≡ true → n ≡ 0 → take_limit b n xs ≡ []
  unfolding take_limit
  take_limit-zero false n xs h e = cc
  take_limit-zero true n xs h e = take-zero n xs e

  take_limit-nil : (b : Bool) (n : ℕ) → take_limit b n [] ≡ []
  unfolding take_limit
  take_limit-nil false n = refl
  take_limit-nil true n = take-nil n

  take_limit_free :
      (b : Bool) (n m : ℕ) (xs : List A) → b ≡ false → take_limit b n xs ≡ take_limit b m xs
  unfolding take_limit
  take_limit_free false n m xs h = refl
  take_limit_free true n m xs h = cc

-- What a rule with these limits keeps of the entries of a package.
unfoldable pub keep_runs : Bool → ℕ → Bool → ℕ → List Entry → List Entry
unfolding runs take_limit flatten
keep_runs lv v lr w es = flatten (map (take_limit lr (suc w)) (take_limit lv (suc v) (runs es)))

module _ (lv : Bool) (v : ℕ) (lr : Bool) (w : ℕ) where
  unfoldable pub over : ℕ → ℕ → Bool
  over k j = if lv && ltb (v + 1) k then true else lr && ltb (w + 1) j

  -- The same by counters: `e` is the last entry, in the `k`-th version and its `j`-th revision.
  unfoldable pub keep_from : ℕ → ℕ → Entry → List Entry → List Entry
  unfolding over
  keep_from k j e [] = []
  keep_from k j e (x ∷ xs) =
      let further = keep_from k (suc j) x xs in
      let fresh = keep_from (suc k) 1 x xs in
      if same_version e x
      then if over k (suc j) then further else x ∷ further
      else if over (suc k) 1
      then fresh
      else x ∷ fresh

  flat : ℕ → List (List Entry) → List Entry
  unfolding take_limit flatten
  flat n rs = flatten (map (take_limit lr (suc w)) (take_limit lv n rs))

  flat-cons :
      (n : ℕ) (r : List Entry) (rs : List (List Entry))
      → (lv ≡ true → 0 < n)
      → flat n (r ∷ rs) ≡ take_limit lr (suc w) r ++ flat (n - 1) rs
  unfolding flat
  flat-cons n r rs h = rw (take_limit-cons lv n r rs h) refl

  flat_over : (n : ℕ) (rs : List (List Entry)) → lv ≡ true → n ≡ 0 → flat n rs ≡ []
  unfolding flat
  flat_over n rs h e = rw (take_limit-zero lv n rs h e) refl

  flat-nil : (n : ℕ) → flat n [] ≡ []
  unfolding flat
  flat-nil n = rw (take_limit-nil {A = List Entry} lv n) refl

  flat_free : (n m : ℕ) (rs : List (List Entry)) → lv ≡ false → flat n rs ≡ flat m rs
  unfolding flat
  flat_free n m rs h = rw (take_limit_free lv n m rs h)

  keep_from-chop :
      (k j : ℕ) (e : Entry) (xs : List Entry)
      → 0 < j
      → keep_from k j e xs
        ≡ (if lv && ltb (v + 1) k then [] else take_limit lr (w + 1 - j) (chop e xs).0)
          ++ flat (v + 1 - k) (chop e xs).1
  unfolding keep_from chop over
  keep_from-chop k j e [] h =
      ground (arith, take_limit-nil {A = Entry} lr (w + 1 - j), flat-nil (v + 1 - k))
  keep_from-chop k j e (x ∷ xs) h = elim (Bool-cases (same_version e x)) [
    | inl same ↦ rw same (
        ground (
          arith,
          keep_from-chop k (suc j) x xs (omega arith),
          take_limit-cons lr (w + 1 - j) x (chop x xs).0,
          take_limit-zero lr (w + 1 - j) (x ∷ (chop x xs).0),
          take_limit-zero lr (w + 1 - suc j) (chop x xs).0,
          next_revision j,
        ))
    | inr other ↦ rw other (
        ground (
          arith,
          keep_from-chop (suc k) 1 x xs (omega arith),
          flat-cons (v + 1 - k) (x ∷ (chop x xs).0) (chop x xs).1,
          flat_over (v + 1 - k) ((x ∷ (chop x xs).0) ∷ (chop x xs).1),
          flat_over (v + 1 - suc k) (chop x xs).1,
          flat_free (v + 1 - k - 1) (v + 1 - suc k) (chop x xs).1,
          take_limit-cons lr (suc w) x (chop x xs).0,
          take_limit-nil {A = Entry} lr (w + 1 - j),
        ))
  ]
    where
      next_revision : (i : ℕ) → w + 1 - i - 1 ≡ w + 1 - suc i
      next_revision i = omega arith

  pub keep_runs-keep_from :
      (e : Entry) (xs : List Entry) → keep_runs lv v lr w (e ∷ xs) ≡ e ∷ keep_from 1 1 e xs
  unfolding keep_runs
  keep_runs-keep_from e xs = ground (
    arith,
    keep_from-chop 1 1 e xs (omega arith),
    flat_lem (runs (e ∷ xs)),
    flat-cons (suc v) (e ∷ (chop e xs).0) (chop e xs).1,
    take_limit-cons lr (suc w) e (chop e xs).0,
    add_one v,
    add_one w,
  )
    where
      add_one : (n : ℕ) → n + 1 - 1 ≡ n
      add_one n = omega arith

      flat_lem :
          (rs : List (List Entry))
          → flatten (map (take_limit lr (suc w)) (take_limit lv (suc v) rs)) ≡ flat (suc v) rs
      flat_lem rs = unfold flat in refl
