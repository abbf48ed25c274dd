-- ===== src/Archive/Config/Changed.antt =====
-- config_handlers.go: a request changes just the fields that it has, and logs those that differ.
use godinstall.Prelude.{
  ℕ, suc, ◌≤◌, ◌≡◌, refl, sym, ap, ◌↔◌, inl, inr, Bool, true, false, List, [], ◌∷◌, ◌++◌, Option,
  none, some, Bytes, Eq, bytes_Eq, bool_Eq, int_Eq, codes, Bool-cases, if◌then◌else◌, length,
  length-append, arith,
}
use godinstall.Strconv.{format_int}
use godinstall.Release.Merge.{Action}
use godinstall.Release.Record.{ReleaseConfig}
use godinstall.Archive.Config.{
  ConfigUpdate, show_bool, text, differing, set_field, update_actions, update_config,
}

abbrev pub or_old : {A : Type 0} → A → Option A → A
or_old old none = old
or_old old (some new) = new

-- The configuration with the fields of the request in place of its own.
unfoldable pub applied : ReleaseConfig → ConfigUpdate → ReleaseConfig
applied cfg d = record cfg {
  prune_rules = or_old cfg.prune_rules d.prune_rules;
  verify_changes = or_old cfg.verify_changes d.verify_changes;
  accept_lone_debs = or_old cfg.accept_lone_debs d.accept_lone_debs;
  pool_pattern = or_old cfg.pool_pattern d.pool_pattern;
  verify_debs = or_old cfg.verify_debs d.verify_debs;
  auto_trim_length = or_old cfg.auto_trim_length d.auto_trim_length;
  auto_trim = or_old cfg.auto_trim d.auto_trim;
  verify_changes_sufficient = or_old cfg.verify_changes_sufficient d.verify_changes_sufficient;
}

module _ {A : Type 0} ⦃value : Eq A⦄ where
  set_field_lem : (old : A) (o : Option A) → set_field old o ≡ or_old old o
  set_field_lem old none = refl
  set_field_lem old (some new) = elim (Bool-cases (value.beq new old)) [
    | inl e ↦ rw e (sym ((value.beq_iff new old).0 e))
    | inr e ↦ rw e refl
  ]

  quiet_same :
      (show : A → Bytes) (field : Bytes) (old : A) (o : Option A)
      → differing show field old o ≡ []
      → or_old old o ≡ old
  quiet_same show field old none h = refl
  quiet_same show field old (some new) h = found _ (value.beq new old) refl h
    where
      found :
          (a : Action) (b : Bool)
          → value.beq new old ≡ b
          → (if b then [] else a ∷ []) ≡ []
          → new ≡ old
      found a true e k = (value.beq_iff new old).0 e
      found a false e k = cc k

  same_quiet :
      (show : A → Bytes) (field : Bytes) (old : A) (o : Option A)
      → or_old old o ≡ old
      → differing show field old o ≡ []
  same_quiet show field old none h = refl
  same_quiet show field old (some new) h = rw ((value.beq_iff new old).1 h) refl

  one_at_most :
      (show : A → Bytes) (field : Bytes) (old : A) (o : Option A)
      → length (differing show field old o) ≤ 1
  one_at_most show field old none = omega arith
  one_at_most show field old (some new) = elim (Bool-cases (value.beq new old)) [
    | inl e ↦ rw e (omega arith)
    | inr e ↦ rw e (omega arith)
  ]

one_more :
    {A : Type 0} (a b : List A) (n : ℕ) → length a ≤ 1 → length b ≤ n → length (a ++ b) ≤ suc n
one_more a b n h k = rw (length-append a b) (omega (arith, h, k))

append_empty : {A : Type 0} (a b : List A) → a ++ b ≡ [] → (a ≡ []) × (b ≡ [])
append_empty [] b h = (refl, h)
append_empty (x ∷ a) b h = cc h

update_config-applied :
    (cfg : ReleaseConfig) (d : ConfigUpdate) → update_config cfg d ≡ applied cfg d
unfolding update_config applied
update_config-applied cfg d =
    rw
      (
        set_field_lem cfg.prune_rules d.prune_rules,
        set_field_lem cfg.verify_changes d.verify_changes,
        set_field_lem cfg.accept_lone_debs d.accept_lone_debs,
        set_field_lem cfg.pool_pattern d.pool_pattern,
        set_field_lem cfg.verify_debs d.verify_debs,
        set_field_lem cfg.auto_trim_length d.auto_trim_length,
        set_field_lem cfg.auto_trim d.auto_trim,
        set_field_lem cfg.verify_changes_sufficient d.verify_changes_sufficient,
      )
      refl

module _ (cfg : ReleaseConfig) (d : ConfigUpdate) where
  a1 : List Action
  a1 = differing text (codes "PruneRules") cfg.prune_rules d.prune_rules

  a2 : List Action
  a2 = differing show_bool (codes "VerifyChanges") cfg.verify_changes d.verify_changes

  a3 : List Action
  a3 = differing show_bool (codes "AcceptLoneDebs") cfg.accept_lone_debs d.accept_lone_debs

  a4 : List Action
  a4 = differing text (codes "PoolPattern") cfg.pool_pattern d.pool_pattern

  a5 : List Action
  a5 = differing show_bool (codes "VerifyDebs") cfg.verify_debs d.verify_debs

  a6 : List Action
  a6 = differing format_int (codes "AutoTrimLength") cfg.auto_trim_length d.auto_trim_length

  a7 : List Action
  a7 = differing show_bool (codes "AutoTrim") cfg.auto_trim d.auto_trim

  a8 : List Action
  a8 =
      differing show_bool (codes "VerifyChangesSufficient") cfg.verify_changes_sufficient
        d.verify_changes_sufficient

  quiet-applied : update_actions cfg d ≡ [] → applied cfg d ≡ cfg
  unfolding update_actions applied a1 a2 a3 a4 a5 a6 a7 a8
  quiet-applied h =
      let (e1, h1) = append_empty a1 (a2 ++ (a3 ++ (a4 ++ (a5 ++ (a6 ++ (a7 ++ a8)))))) h in
      let (e2, h2) = append_empty a2 (a3 ++ (a4 ++ (a5 ++ (a6 ++ (a7 ++ a8))))) h1 in
      let (e3, h3) = append_empty a3 (a4 ++ (a5 ++ (a6 ++ (a7 ++ a8)))) h2 in
      let (e4, h4) = append_empty a4 (a5 ++ (a6 ++ (a7 ++ a8))) h3 in
      let (e5, h5) = append_empty a5 (a6 ++ (a7 ++ a8)) h4 in
      let (e6, h6) = append_empty a6 (a7 ++ a8) h5 in
      let (e7, e8) = append_empty a7 a8 h6 in
      rw
        (
          quiet_same text (codes "PruneRules") cfg.prune_rules d.prune_rules e1,
          quiet_same show_bool (codes "VerifyChanges") cfg.verify_changes d.verify_changes e2,
          quiet_same show_bool (codes "AcceptLoneDebs") cfg.accept_lone_debs d.accept_lone_debs e3,
          quiet_same text (codes "PoolPattern") cfg.pool_pattern d.pool_pattern e4,
          quiet_same show_bool (codes "VerifyDebs") cfg.verify_debs d.verify_debs e5,
          quiet_same format_int (codes "AutoTrimLength") cfg.auto_trim_length d.auto_trim_length e6,
          quiet_same show_bool (codes "AutoTrim") cfg.auto_trim d.auto_trim e7,
          quiet_same show_bool (codes "VerifyChangesSufficient") cfg.verify_changes_sufficient
              d.verify_changes_sufficient e8,
        )
        refl

  applied-quiet : applied cfg d ≡ cfg → update_actions cfg d ≡ []
  unfolding update_actions applied
  applied-quiet h =
      rw
        (
          same_quiet text (codes "PruneRules") cfg.prune_rules d.prune_rules
              (ap (λ c. c.prune_rules) h),
          same_quiet show_bool (codes "VerifyChanges") cfg.verify_changes d.verify_changes
              (ap (λ c. c.verify_changes) h),
          same_quiet show_bool (codes "AcceptLoneDebs") cfg.accept_lone_debs d.accept_lone_debs
              (ap (λ c. c.accept_lone_debs) h),
          same_quiet text (codes "PoolPattern") cfg.pool_pattern d.pool_pattern
              (ap (λ c. c.pool_pattern) h),
          same_quiet show_bool (codes "VerifyDebs") cfg.verify_debs d.verify_debs
              (ap (λ c. c.verify_debs) h),
          same_quiet format_int (codes "AutoTrimLength") cfg.auto_trim_length d.auto_trim_length
              (ap (λ c. c.auto_trim_length) h),
          same_quiet show_bool (codes "AutoTrim") cfg.auto_trim d.auto_trim
              (ap (λ c. c.auto_trim) h),
          same_quiet show_bool (codes "VerifyChangesSufficient") cfg.verify_changes_sufficient
              d.verify_changes_sufficient (ap (λ c. c.verify_changes_sufficient) h),
        )
        refl

  few : length (update_actions cfg d) ≤ 8
  unfolding update_actions a1 a2 a3 a4 a5 a6 a7 a8
  few =
      one_more a1 (a2 ++ (a3 ++ (a4 ++ (a5 ++ (a6 ++ (a7 ++ a8)))))) 7
        (one_at_most text (codes "PruneRules") cfg.prune_rules d.prune_rules)
        (one_more a2 (a3 ++ (a4 ++ (a5 ++ (a6 ++ (a7 ++ a8))))) 6
          (one_at_most show_bool (codes "VerifyChanges") cfg.verify_changes d.verify_changes)
          (one_more a3 (a4 ++ (a5 ++ (a6 ++ (a7 ++ a8)))) 5
            (one_at_most show_bool (codes "AcceptLoneDebs") cfg.accept_lone_debs d.accept_lone_debs)
            (one_more a4 (a5 ++ (a6 ++ (a7 ++ a8))) 4
              (one_at_most text (codes "PoolPattern") cfg.pool_pattern d.pool_pattern)
              (one_more a5 (a6 ++ (a7 ++ a8)) 3
                (one_at_most show_bool (codes "VerifyDebs") cfg.verify_debs d.verify_debs)
                (one_more a6 (a7 ++ a8) 2
                  (one_at_most format_int (codes "AutoTrimLength") cfg.auto_trim_length
                    d.auto_trim_length)
                  (one_more a7 a8 1
                    (one_at_most show_bool (codes "AutoTrim") cfg.auto_trim d.auto_trim)
                    (one_at_most show_bool (codes "VerifyChangesSufficient")
                      cfg.verify_changes_sufficient d.verify_changes_sufficient)))))))

-- The configuration after a request has the fields of the request in place of its own; at most eight changes
-- are logged, and none just where the configuration stays the same.
pub update_config_lem :
    (cfg : ReleaseConfig) (d : ConfigUpdate)
    → (update_config cfg d ≡ applied cfg d)
      × ((length (update_actions cfg d) ≤ 8)
          × ((update_actions cfg d ≡ []) ↔ (applied cfg d ≡ cfg)))
update_config_lem cfg d =
    (update_config-applied cfg d, (few cfg d, (quiet-applied cfg d, applied-quiet cfg d)))
