-- ===== src/Trim.antt =====
-- trim.go: how far back the history of a release goes before it is trimmed.
pub mod Length
mod Tests
use godinstall.Prelude.{
  ℕ, zero, suc, ◌-◌, Bool, true, false, not, List, [], ◌∷◌, ◌++◌, Option, none, some, Bytes,
  bytes_beq, codes, ℤ, pos, sub_ℤ, ltb_ℤ, eqb_ℤ, ltb, if◌then◌else◌,
}
use godinstall.Strconv.{format_nat}
use godinstall.Release.Index.{StoreId}
use godinstall.Release.Merge.{Action, trim}
use godinstall.Release.Record.{Release}

-- The closure of `MakeTimeTrimmer` trims nothing.
pub time_trimmer {ℓ} : {S : Type ℓ} → S → Release → Bool × S
time_trimmer st commit = (false, st)

-- The closure of `MakeLengthTrimmer`, with its variable `count`.
pub length_trimmer : ℤ → Release → Bool × ℤ
length_trimmer count commit =
    if ltb_ℤ count (pos 0) then (true, count) else (false, sub_ℤ count (pos 1))

-- How the loop of `TrimHistory` ends: at the commit to trim, with the count of those before it; with
-- a history that is short enough; with an error of the store; or for want of fuel.
pub data Trimmed : Type 0 where
  trims : ℕ → Trimmed
  short failed out_of_fuel : Trimmed

-- What the loop makes of the trim of an earlier commit.
abbrev pub lower_active : ℤ → ℤ → ℤ
lower_active after active =
    if eqb_ℤ after (pos 0) then active else if ltb_ℤ after active then after else active

abbrev pub count_active : ℤ → ℤ
count_active active = if ltb_ℤ (pos 1) active then sub_ℤ active (pos 1) else active

abbrev pub trim_action : ℕ → Action
trim_action n = record {
  type = trim;
  description = codes "Release history trimmed to " ++ (format_nat n ++ codes " revisions");
}

-- `TrimHistory`: `none` is its error, and `some` the release it leaves.
abbrev pub apply_trim : Release → Trimmed → Option Release
apply_trim release (trims n) =
    if ltb 0 n
    then some
        (record release { actions = release.actions ++ (trim_action n ∷ []); trim_after = pos n })
    else some release
apply_trim release short = some release
apply_trim release failed = none
apply_trim release out_of_fuel = none

module _ {ℓ} {S : Type ℓ} (trimmer : S → Release → Bool × S)
    (get_release : StoreId → Option Release) (empty_file_id : StoreId) where
  abbrev pub after_trimmer : (StoreId → ℕ → ℤ → S → Trimmed) → Release → ℕ → ℤ → Bool × S → Trimmed
  after_trimmer rest c n active (true, st) = trims n
  after_trimmer rest c n active (false, st) = rest c.parent_id (suc n) (count_active active) st

  abbrev pub at_commit : (StoreId → ℕ → ℤ → S → Trimmed) → ℕ → ℤ → S → Option Release → Trimmed
  at_commit rest n active st none = failed
  at_commit rest n active st (some c) =
      after_trimmer rest c n (lower_active c.trim_after active) (trimmer st c)

  abbrev pub unless_short : Bool → Bool → Trimmed → Trimmed
  unless_short at_end trimmed more = if at_end then short else if trimmed then short else more

  -- The loop, with fuel for its rounds.
  pub trim_loop : ℕ → StoreId → ℕ → ℤ → S → Trimmed
  trim_loop zero curr n active st = out_of_fuel
  trim_loop (suc fuel) curr n active st =
      unless_short (bytes_beq curr empty_file_id) (eqb_ℤ active (pos 1))
        (at_commit (λ id m a s. trim_loop fuel id m a s) n active st (get_release curr))

  unfoldable pub trim_history : ℕ → Release → S → Option Release
  unfolding trim_loop
  trim_history fuel release st = apply_trim release (trim_loop fuel release.parent_id 0 (pos 0) st)
