-- ===== src/Trim/Length.antt =====
-- trim.go: what TrimHistory does with the trimmer of a length.
use godinstall.Prelude.{
  ℕ, zero, suc, ◌+◌, ◌<◌, ◌≡◌, refl, ◌∙◌, ap, Bool, true, false, List, [], ◌∷◌, ◌++◌, Option, some,
  bytes_beq, ℤ, pos, negsuc, ltb_ℤ, eqb_ℤ, leb, ltb, not, ◌==◌, ◌||◌, length, arith, if◌then◌else◌,
}
use godinstall.Release.Index.{StoreId}
use godinstall.Release.Record.{Release}
use godinstall.Trim.{
  Trimmed, trims, short, lower_active, count_active, length_trimmer, trim_loop, trim_action,
  trim_history, apply_trim,
}

-- The commits that the trimmer lets pass.
abbrev pub allowance : ℤ → ℕ
allowance (pos k) = suc k
allowance (negsuc k) = 0

-- The release that is left, where the loop stopped short or let `most` commits pass.
abbrev pub trim_to : Release → ℕ → Release
trim_to release most = record release {
  actions = release.actions ++ (trim_action most ∷ []);
  trim_after = pos most;
}

module _ (get_release : StoreId → Option Release) (empty_file_id : StoreId) where
  -- The commits from an id back to the first, as the store has them.
  abbrev pub IsHistory : StoreId → List Release → Type 0
  IsHistory id [] = bytes_beq id empty_file_id ≡ true
  IsHistory id (c ∷ cs) =
      (bytes_beq id empty_file_id ≡ false) × ((get_release id ≡ some c) × IsHistory c.parent_id cs)

  active_stays :
      (after active : ℤ)
      → ltb_ℤ (pos 0) active ≡ false
      → (ltb_ℤ (pos 0) (count_active (lower_active after active)) ≡ false)
  active_stays after active h = ground (arith, h)

  not_one : (active : ℤ) → ltb_ℤ (pos 0) active ≡ false → eqb_ℤ active (pos 1) ≡ false
  not_one active h = ground (arith, h)

  -- The end of a history of some length, with so many commits counted and so many still to pass.
  abbrev pub limit : ℕ → ℕ → ℕ → Trimmed
  limit len n most = if leb len most then short else trims (n + most)

  limit-zero : (n most : ℕ) → short ≡ limit 0 n most
  limit-zero n most = ground arith

  limit-suc_none : (len n : ℕ) → trims n ≡ limit (suc len) n 0
  limit-suc_none len n = rw (leb_none len) (ap trims (omega arith))
    where
      leb_none : (len : ℕ) → leb (suc len) 0 ≡ false
      leb_none len = ground arith

  limit-suc : (len n most : ℕ) → limit len (suc n) most ≡ limit (suc len) n (suc most)
  limit-suc len n most =
      ap (λ k. if leb len most then short else trims k) (omega arith)
      ∙ ap (λ b. if b then short else trims (n + suc most)) (leb_suc len most)
    where
      leb_suc : (len most : ℕ) → leb len most ≡ leb (suc len) (suc most)
      leb_suc len most = ground arith

  length_trimmer-pass : (k : ℕ) (c : Release) → length_trimmer (pos (suc k)) c ≡ (false, pos k)
  unfolding length_trimmer
  length_trimmer-pass k c = ground arith

  length_trimmer-last : (c : Release) → length_trimmer (pos zero) c ≡ (false, negsuc 0)
  unfolding length_trimmer
  length_trimmer-last c = refl

  length_trimmer-block : (k : ℕ) (c : Release) → length_trimmer (negsuc k) c ≡ (true, negsuc k)
  unfolding length_trimmer
  length_trimmer-block k c = ground arith

  trim_loop_lem :
      (fuel : ℕ) (id : StoreId) (cs : List Release) (n : ℕ) (active count : ℤ)
      → IsHistory id cs
      → length cs < fuel
      → ltb_ℤ (pos 0) active ≡ false
      → trim_loop length_trimmer get_release empty_file_id fuel id n active count
        ≡ limit (length cs) n (allowance count)
  unfolding trim_loop
  trim_loop_lem zero id cs n active count h l a = absurd (omega (arith, l))
  trim_loop_lem (suc fuel) id [] n active count h l a = rw h (limit-zero n (allowance count))
  trim_loop_lem (suc fuel) id (c ∷ cs) n active (pos zero) (e, (g, h)) l a =
      rw (e, not_one active a, g, length_trimmer-last c)
        (trim_loop_lem fuel c.parent_id cs (suc n) (count_active (lower_active c.trim_after active))
            (negsuc 0) h (omega (arith, l)) (active_stays c.trim_after active a)
          ∙ limit-suc (length cs) n 0)
  trim_loop_lem (suc fuel) id (c ∷ cs) n active (pos (suc k)) (e, (g, h)) l a =
      rw (e, not_one active a, g, length_trimmer-pass k c)
        (trim_loop_lem fuel c.parent_id cs (suc n) (count_active (lower_active c.trim_after active))
            (pos k) h (omega (arith, l)) (active_stays c.trim_after active a)
          ∙ limit-suc (length cs) n (suc k))
  trim_loop_lem (suc fuel) id (c ∷ cs) n active (negsuc k) (e, (g, h)) l a =
      rw (e, not_one active a, g, length_trimmer-block k c) (limit-suc_none (length cs) n)

  apply_limit :
      (release : Release) (b : Bool) (most : ℕ)
      → apply_trim release (if b then short else trims (0 + most))
        ≡ (if b || (most == 0) then some release else some (trim_to release most))
  apply_limit release true most = refl
  apply_limit release false most =
      ap (λ m. apply_trim release (trims m)) (omega arith)
      ∙ ap (λ b. if b then some (trim_to release most) else some release) (positive most)
      ∙ flip (most == 0)
    where
      positive : (m : ℕ) → ltb 0 m ≡ not (m == 0)
      positive m = ground arith

      flip :
          (b : Bool)
          → (if not b then some (trim_to release most) else some release)
            ≡ (if b then some release else some (trim_to release most))
      flip true = refl
      flip false = refl

  -- What TrimHistory does with the trimmer of `count` commits: a history of at most `count` + 1 commits is
  -- left alone, and a longer one makes the release trim after `count` + 1 commits and say so; a
  -- negative `count` never trims. The trims that the commits of the history carry, whatever they
  -- are, change nothing.
  pub trim_history_lem :
      (fuel : ℕ) (release : Release) (cs : List Release) (count : ℤ)
      → IsHistory release.parent_id cs
      → length cs < fuel
      → trim_history length_trimmer get_release empty_file_id fuel release count ≡ (
          if leb (length cs) (allowance count) || (allowance count == 0)
          then some release
          else some (trim_to release (allowance count)))
  unfolding trim_history
  trim_history_lem fuel release cs count h l =
      ap (apply_trim release) (trim_loop_lem fuel release.parent_id cs 0 (pos 0) count h l refl)
      ∙ apply_limit release (leb (length cs) (allowance count)) (allowance count)
