-- ===== src/Prune/Unlimited.antt =====
-- prune.go: rules without limits, of which one matches every package, prune nothing.
use godinstall.Prelude.{
  ℕ, ◌≡◌, ◌≢◌, refl, ◌∙◌, inl, inr, ◌⊎◌, Bool, true, false, not, ◌||◌, List, [], Option, some,
  Bytes, bytes_beq, bytes_beq_iff, eqb_ℤ, if◌then◌else◌,
}
use godinstall.DebVersion.{DebVersion}
use godinstall.Release.Index.{Entry}
use godinstall.Prune.{
  PruneRule, Pruner, find_rule, over_limit, answer, start_package, next_version, prune,
}

-- A rule as it is found, without limits.
abbrev pub HasRule : Option PruneRule → Type 0
HasRule o =
    (r : PruneRule) × ((o ≡ some r) × ((r.limit_versions ≡ false) × (r.limit_revisions ≡ false)))

-- A pruner with such a rule, or one that has not seen a package yet.
abbrev pub IsUnlimited : Pruner → Type 0
IsUnlimited st = HasRule st.curr_rule ⊎ (st.curr_pkg ≡ [])

abbrev pub IsNamed : Entry → Type 0
IsNamed e = e.source_item.name ≢ []

-- The pruner keeps an entry and has a rule after it.
abbrev Kept : Option (Bool × Pruner) → Type 0
Kept o = (st : Pruner) × ((o ≡ some (false, st)) × HasRule st.curr_rule)

answer-Kept :
    (st : Pruner) (v r : ℕ) → HasRule st.curr_rule → Kept (answer st (over_limit st.curr_rule v r))
unfolding over_limit
answer-Kept st v r (rule, (e, (a, b))) = (st, (rw (e, a, b) refl, (rule, (e, (a, b)))))

if-Kept : (b : Bool) (x y : Option (Bool × Pruner)) → Kept x → Kept y → Kept (if b then x else y)
if-Kept true x y k l = k
if-Kept false x y k l = l

next_version-Kept : (st : Pruner) (v : DebVersion) → HasRule st.curr_rule → Kept (next_version st v)
unfolding next_version
next_version-Kept st v h =
    if-Kept (not (bytes_beq v.version st.curr_version) || not (eqb_ℤ v.epoch st.curr_epoch)) _ _
      (answer-Kept _ _ _ h)
      (if-Kept (not (bytes_beq v.revision st.curr_revision)) _ _ (answer-Kept _ _ _ h)
        (st, (refl, h)))

pub prune-IsUnlimited :
    (rules : List PruneRule)
    → ((name : Bytes) (curr : Option PruneRule) → HasRule (find_rule name rules curr))
    → (st : Pruner) (e : Entry) → IsUnlimited st
    → IsNamed e
    → (st' : Pruner) × ((prune rules st e ≡ some (false, st')) × IsUnlimited st')
unfolding prune start_package
prune-IsUnlimited rules find st e i n = by_name (bytes_beq e.source_item.name st.curr_pkg) refl
  where
    by_name :
        (b : Bool)
        → bytes_beq e.source_item.name st.curr_pkg ≡ b
        → (st' : Pruner) × (((if not b
                then some (false, start_package rules st e.source_item.name e.source_item.version)
                else next_version st e.source_item.version)
              ≡ some (false, st'))
            × IsUnlimited st')
    by_name false s = (_, (refl, inl (find e.source_item.name st.curr_rule)))
    by_name true s = elim i [
      | inl h ↦
          (let (st', (k, g)) = next_version-Kept st e.source_item.version h in (st', (k, inl g)))
      | inr z ↦ absurd (n ((bytes_beq_iff e.source_item.name st.curr_pkg).0 s ∙ z))
    ]
