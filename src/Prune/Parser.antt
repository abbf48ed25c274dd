-- ===== src/Prune/Parser.antt =====
-- prune.go, ParsePruneRule and ParsePruneRules: the text of the rules.
pub mod Grammar
use godinstall.Prelude.{
  ℕ, suc, ◌≤◌, ◌<◌, ◌^◌, ◌≡◌, ◌≢◌, refl, Bool, true, false, ◌&&◌, ◌||◌, not, List, [], ◌∷◌, ◌++◌,
  Option, none, some, arith, Bytes, bytes_beq, codes, ◌==◌, if◌then◌else◌, ℤ, pos, All, Bool-cases,
  inl, inr,
}
use godinstall.Strings.{Lacks, cut, split}
use godinstall.Strings.SplitJoin.{cut-append}
use godinstall.Strconv.{is_digit, parse_int, format_nat, digits}
use godinstall.Strconv.RoundTrip.{
  IsDigit, digits-IsDigit, digits-ne-nil, format_nat_lem, parse_int-format_nat,
}
use godinstall.Prune.{PruneRule}

-- The text before and after the last `sep`.
pub cut_last : ℕ → Bytes → Option (Bytes × Bytes)
cut_last sep [] = none
cut_last sep (c ∷ s) = elim (cut_last sep s) [
  | some (a, b) ↦ some (c ∷ a, b)
  | none ↦ if c == sep then some ([], s) else none
]

pub all_bytes : (ℕ → Bool) → Bytes → Bool
all_bytes p [] = true
all_bytes p (c ∷ s) = p c && all_bytes p s

abbrev pub star : Bytes
star = b'*' ∷ []

-- `\d+|\*`.
pub is_count : Bytes → Bool
unfolding all_bytes
is_count [] = false
is_count (c ∷ s) = bytes_beq (c ∷ s) star || all_bytes is_digit (c ∷ s)

abbrev pub counts : Bytes → Option (Bytes × Bytes) → Option (Bytes × Bytes × Bytes)
counts pattern none = none
counts pattern (some (v, r)) =
    if all_bytes (λ c. not (c == b'\n')) pattern && (is_count v && is_count r)
    then some (pattern, v, r)
    else none

abbrev pub fields : Option (Bytes × Bytes) → Option (Bytes × Bytes × Bytes)
fields none = none
fields (some (pattern, rest)) = counts pattern (cut b'-' rest)

-- `ruleRegex`, ^(.*)_(\d+|\*)-(\d+|\*)$: the two counts hold no `_`, so the last one is meant.
pub rule_regex : Bytes → Option (Bytes × Bytes × Bytes)
unfolding cut_last is_count
rule_regex s = fields (cut_last b'_' s)

abbrev pub retain : Bytes → ℤ
retain s = if bytes_beq s star then pos 0 else (parse_int s 16).0

abbrev pub rule_of : Option (Bytes → Bool) → Bytes → Bytes → Option PruneRule
rule_of none v r = none
rule_of (some matches) v r = some (record {
  pkg_pattern = matches;
  limit_versions = not (bytes_beq v star);
  retain_versions = retain v;
  limit_revisions = not (bytes_beq r star);
  retain_revisions = retain r;
})

module _ (compile : Bytes → Option (Bytes → Bool)) where
  abbrev pub compile_fields : Option (Bytes × Bytes × Bytes) → Option PruneRule
  compile_fields none = none
  compile_fields (some (pattern, v, r)) = rule_of (compile pattern) v r

  -- `ParsePruneRule`; `none` is its error.
  unfoldable pub parse_rule : Bytes → Option PruneRule
  unfolding rule_regex
  parse_rule s = compile_fields (rule_regex s)

  -- The loop of `ParsePruneRules`: at an error the rules so far are returned with it.
  pub parse_parts : List Bytes → List PruneRule → List PruneRule × Bool
  parse_parts [] rules = (rules, true)
  parse_parts (p ∷ ps) rules = elim (parse_rule p) [
    | none ↦ (rules, false)
    | some r ↦ parse_parts ps (rules ++ r ∷ [])
  ]

  -- `ParsePruneRules`; `false` stands for its error.
  unfoldable pub parse_rules : Bytes → List PruneRule × Bool
  unfolding parse_parts
  parse_rules s = parse_parts (split b',' s) []
