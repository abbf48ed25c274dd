-- ===== src/Prune/Parser/Grammar.antt =====
-- The grammar of a rule, as the README gives it: a pattern, the versions and the revisions to keep.
use godinstall.Prelude.{
  ℕ, ◌<◌, ◌^◌, ◌≡◌, ◌≢◌, refl, ◌⊎◌, All-append, Bool, true, false, not, [], ◌∷◌, ◌++◌, Option, none,
  some, arith, Bytes, bytes_beq, ◌==◌, pos, All, inl, inr,
}
use godinstall.Strings.{Lacks}
use godinstall.Strings.SplitJoin.{cut-append}
use godinstall.Strconv.{is_digit, format_nat, digits}
use godinstall.Strconv.RoundTrip.{
  IsDigit, digits-IsDigit, digits-ne-nil, format_nat_lem, parse_int-format_nat,
}
use godinstall.Prune.Parser.{cut_last, all_bytes, star, is_count, retain, parse_rule}

-- A limit as it is written: a number of historical items, or a star.
abbrev pub limit_text : Option ℕ → Bytes
limit_text none = star
limit_text (some n) = format_nat n

abbrev pub rule_text : Bytes → Option ℕ → Option ℕ → Bytes
rule_text pattern v r = pattern ++ b'_' ∷ (limit_text v ++ b'-' ∷ limit_text r)

abbrev pub limited : Option ℕ → Bool
limited none = false
limited (some n) = true

abbrev pub amount : Option ℕ → ℕ
amount none = 0
amount (some n) = n

cut_last_lacking : (sep : ℕ) (s : Bytes) → Lacks sep s → cut_last sep s ≡ none
unfolding cut_last
cut_last_lacking sep [] h = refl
cut_last_lacking sep (c ∷ s) (hc, hs) = ground (arith, cut_last_lacking sep s hs)

cut_last-append : (sep : ℕ) (s t : Bytes) → Lacks sep t → cut_last sep (s ++ sep ∷ t) ≡ some (s, t)
unfolding cut_last
cut_last-append sep [] t h = ground (arith, cut_last_lacking sep t h)
cut_last-append sep (c ∷ s) t h = ground (arith, cut_last-append sep s t h)

digits-lack : (sep : ℕ) (s : Bytes) → sep < b'0' ⊎ (b'9' < sep) → All IsDigit s → Lacks sep s
digits-lack sep [] o h = tt
digits-lack sep (c ∷ s) o (hc, hs) = (ground arith, digits-lack sep s o hs)

digits-all_bytes : (s : Bytes) → All IsDigit s → all_bytes is_digit s ≡ true
unfolding all_bytes is_digit
digits-all_bytes [] h = refl
digits-all_bytes (c ∷ s) (hc, hs) = ground (arith, digits-all_bytes s hs)

digits-is_count :
    (s : Bytes) → s ≢ [] → All IsDigit s → (is_count s ≡ true) × (bytes_beq s star ≡ false)
unfolding is_count
digits-is_count [] n h = absurd (n refl)
digits-is_count (c ∷ s) n h = ground (arith, digits-all_bytes (c ∷ s) h)

-- What the parser needs to know of a limit.
record LimitText (o : Option ℕ) : Type 0 where
  no_underscore : Lacks b'_' (limit_text o)
  no_dash : Lacks b'-' (limit_text o)
  counted : is_count (limit_text o) ≡ true
  starred : not (bytes_beq (limit_text o) star) ≡ limited o
  read : retain (limit_text o) ≡ pos (amount o)

limit_lem : (o : Option ℕ) → amount o < 2 ^ 15 → LimitText o
limit_lem none h = record {
  no_underscore = ground arith;
  no_dash = ground arith;
  counted = unfold is_count in refl;
  starred = refl;
  read = refl;
}
limit_lem (some n) h =
    let d = digits-IsDigit n n (omega arith) in
    let counted = digits-is_count (digits n n) (digits-ne-nil n n) d in
    record {
      no_underscore = rw (format_nat_lem n) (digits-lack b'_' (digits n n) (inr (omega arith)) d);
      no_dash = rw (format_nat_lem n) (digits-lack b'-' (digits n n) (inl (omega arith)) d);
      counted = rw (format_nat_lem n) counted.0;
      starred = rw (format_nat_lem n, counted.1) refl;
      read = rw (format_nat_lem n, counted.1, ← format_nat_lem n, parse_int-format_nat n h) refl;
    }

pattern-all_bytes : (s : Bytes) → Lacks b'\n' s → all_bytes (λ c. not (c == b'\n')) s ≡ true
unfolding all_bytes
pattern-all_bytes [] h = refl
pattern-all_bytes (c ∷ s) (hc, hs) = ground (arith, pattern-all_bytes s hs)

-- A rule written by the grammar is read as it is meant: its pattern compiled, a star as no limit,
-- and a number below 2^15 as it stands.
pub parse_rule-rule_text :
    (compile : Bytes → Option (Bytes → Bool)) (pattern : Bytes) (matches : Bytes → Bool)
    (v r : Option ℕ)
    → compile pattern ≡ some matches
    → Lacks b'\n' pattern
    → amount v < 2 ^ 15
    → amount r < 2 ^ 15
    → parse_rule compile (rule_text pattern v r)
      ≡ some (record {
        pkg_pattern = matches;
        limit_versions = limited v;
        retain_versions = pos (amount v);
        limit_revisions = limited r;
        retain_revisions = pos (amount r);
      })
unfolding parse_rule
parse_rule-rule_text compile pattern matches v r compiled one_line hv hr =
    let lv = limit_lem v hv in
    let lr = limit_lem r hr in
    rw
      (
        cut_last-append b'_' pattern (limit_text v ++ b'-' ∷ limit_text r) (
            All-append (λ c. c ≢ b'_') (limit_text v) (b'-' ∷ limit_text r) lv.no_underscore
              (ground arith, lr.no_underscore)),
        cut-append b'-' (limit_text v) (limit_text r) lv.no_dash,
        pattern-all_bytes pattern one_line,
        lv.counted,
        lr.counted,
        compiled,
        lv.starred,
        lr.starred,
        lv.read,
        lr.read,
      )
      refl
