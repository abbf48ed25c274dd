-- ===== src/Trim/Tests.antt =====
-- A history of two commits, one of which was trimmed before, and the trim of its successor.
use godinstall.Prelude.{
  ℕ, ◌≡◌, refl, [], ◌∷◌, Option, none, some, bytes_beq, codes, pos, length, leb, ◌==◌, ◌||◌, arith,
  if◌then◌else◌,
}
use godinstall.Release.Index.{StoreId}
use godinstall.Release.Record.{Release}
use godinstall.Trim.{length_trimmer, trim_loop, trim_history}
use godinstall.Trim.Length.{allowance, trim_to, trim_history_lem}

abbrev commit : ℕ → ℕ → Release
commit parent after = record {
  parent_id = parent ∷ [];
  index_id = [];
  code_name = codes "stable";
  suite = codes "stable";
  description = [];
  version = codes "1";
  date = 0;
  components = [];
  in_release = [];
  release = [];
  release_gpg = [];
  actions = [];
  trim_after = pos after;
  config_id = [];
}

abbrev commits : StoreId → Option Release
commits id =
    if bytes_beq id (2 ∷ [])
    then some (commit 1 1)
    else if bytes_beq id (1 ∷ [])
    then some (commit 0 0)
    else none

-- With a length of 0 one commit passes, though the parent had been trimmed to one already.
trimmed_again :
    trim_history length_trimmer commits (0 ∷ []) 3 (commit 2 0) (pos 0)
    ≡ some (trim_to (commit 2 0) 1)
unfolding trim_history trim_loop length_trimmer
trimmed_again = refl

trim_history_lem_example : trim_history length_trimmer commits (0 ∷ []) 3 (commit 2 0) (pos 0) ≡ (
    if leb (length (commit 1 1 ∷ commit 0 0 ∷ [])) (allowance (pos 0)) || (allowance (pos 0) == 0)
    then some (commit 2 0)
    else some (trim_to (commit 2 0) (allowance (pos 0))))
trim_history_lem_example =
    trim_history_lem commits (0 ∷ []) 3 (commit 2 0) (commit 1 1 ∷ commit 0 0 ∷ []) (pos 0)
      (refl, (refl, (refl, (refl, refl)))) (omega arith)
