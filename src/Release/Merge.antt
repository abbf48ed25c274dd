-- ===== src/Release/Merge.antt =====
-- releaseindex.go, mergeEntryIntoRelease: the walk that merges an upload into the parent's index,
-- over any pruner. The parent's entries come in the order `NextEntry` returns them; the walk ends
-- at the first error, which is the end of the index.
pub mod Walk
pub mod Laws
pub mod Insert
pub mod Written
use godinstall.Prelude.{
  ℕ, Bool, true, false, List, [], ◌∷◌, ◌++◌, Option, none, some, Bytes, ℤ, pos, eqb_ℤ, ltb_ℤ,
  if◌then◌else◌, codes,
}
use godinstall.DebVersion
use godinstall.Release.Index.{Entry, entry_order}

-- `ReleaseLogActionType` (release.go).
pub data ActionType : Type 0 where
  unknown add delete prune skip_present skip_prune trim config_change : ActionType

pub record Action : Type 0 where
  pub type : ActionType
  pub description : Bytes

-- `AddUpload` (archive.go): only some actions count as a change of the index.
abbrev pub is_real : ActionType → Bool
is_real add = true
is_real prune = true
is_real delete = true
is_real _ = false

unfoldable pub real_change : List Action → Bool
real_change [] = false
real_change (a ∷ more) = if is_real a.type then true else real_change more

-- What a merge hands on: the entries written to the new index, and the actions taken.
pub record Merged : Type 0 where
  pub written : List Entry
  pub actions : List Action

abbrev pub describe : Entry → Bytes
describe e = e.source_item.name ++ (codes " " ++ DebVersion.to_string e.source_item.version)

abbrev pub act : ActionType → Entry → List Action
act t e = record { type = t; description = describe e } ∷ []

-- The entries and actions of one round, in front of those of the later ones.
abbrev pub before : List Entry → List Action → Option Merged → Option Merged
before es acts none = none
before es acts (some m) = some (record { written = es ++ m.written; actions = acts ++ m.actions })

module _ {S : Type 0} (pruner : S → Entry → Option (Bool × S)) where
  -- Ask the pruner, write the entry unless it is pruned, log one of two lists of actions, go on.
  abbrev pub offer :
      Option (Bool × S) → Entry → List Action → List Action → (S → Option Merged) → Option Merged
  offer none e kept pruned rest = none
  offer (some (false, st)) e kept pruned rest = before (e ∷ []) kept (rest st)
  offer (some (true, st)) e kept pruned rest = before [] pruned (rest st)

  -- The items that are left when the parent's index has ended.
  pub merge_rest : S → List Entry → Option Merged
  merge_rest st [] = some (record { written = []; actions = [] })
  merge_rest st (r ∷ rs) =
      offer (pruner st r) r (act add r) (act prune r) (λ st'. merge_rest st' rs)

  -- The walk over both.
  unfoldable pub merge : S → List Entry → List Entry → Option Merged
  unfolding merge_rest
  merge st [] right = merge_rest st right
  merge st (l ∷ ls) [] = offer (pruner st l) l [] (act prune l) (λ st'. merge st' ls [])
  merge st (l ∷ ls) (r ∷ rs) = elim (ltb_ℤ (entry_order l r) (pos 0)) [
    | true ↦ offer (pruner st l) l [] (act prune l) (λ st'. merge st' ls (r ∷ rs))
    | false ↦ elim (eqb_ℤ (entry_order l r) (pos 0)) [
      | true ↦
          offer (pruner st l) l (act skip_present r) (act skip_prune l) (λ st'. merge st' ls rs)
      | false ↦ offer (pruner st r) r (act add r) (act prune r) (λ st'. merge st' (l ∷ ls) rs)
    ]
  ]
