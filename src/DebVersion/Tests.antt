-- ===== src/DebVersion/Tests.antt =====
-- Runs of debversion.go on the inputs of debversion_test.go, and instances of the theorems.
use godinstall.Prelude.{◌≡◌, ◌≢◌, refl, some, none, arith, Bytes, codes, ℤ, pos, negsuc, neg_ℤ, []}
use godinstall.Strings.{cut, split, join}
use godinstall.Strconv.{parse_int, format_int, is_digit}
use godinstall.DebVersion
use godinstall.DebVersion.{DebVersion, compare_loop, compare_component}
use godinstall.DebVersion.RoundTrip.{IsPrintable, parse-to_string}
use godinstall.DebVersion.Loops.{compare_loop_ends}
use godinstall.DebVersion.Key.{same, greater, sign, order, compare_keys, key}
use godinstall.DebVersion.Refine.{
  compare_component-key, compare-version_order, version_order, compare_trans,
}
use godinstall.DebVersion.Order.{compare_swap}

abbrev version : ℤ → Bytes → Bytes → DebVersion
version e v r = record { epoch = e; version = v; revision = r }

abbrev nested : DebVersion
nested = version (pos 1) (codes "1:1.0-1") (codes "1~1")

parse-nested : DebVersion.parse (codes "1:1:1.0-1-1~1") ≡ some nested
unfolding DebVersion.parse cut split join parse_int is_digit
parse-nested = refl

parse_bad_epoch : DebVersion.parse (codes "x:1.0") ≡ none
unfolding DebVersion.parse cut split join parse_int is_digit
parse_bad_epoch = refl

print_nested : DebVersion.to_string nested ≡ codes "1:1:1.0-1-1~1"
unfolding DebVersion.to_string format_int
print_nested = refl

tilde_first : compare_component (codes "1.0~rc1") (codes "1.0") ≡ negsuc 0
unfolding compare_component is_digit
tilde_first = refl

ten_after_nine : compare_component (codes "1.10") (codes "1.9") ≡ pos 1
unfolding compare_component is_digit
ten_after_nine = refl

zeros_alike : compare_component (codes "1.02") (codes "1.2") ≡ pos 0
unfolding compare_component is_digit
zeros_alike = refl

nested-IsPrintable : IsPrintable nested
nested-IsPrintable = record {
  epoch_fits = omega arith;
  no_colon = λ e. absurd (ground arith);
  no_dash = ground arith;
  native = λ e. cc;
}

parse-to_string_example : DebVersion.parse (DebVersion.to_string nested) ≡ some nested
parse-to_string_example = parse-to_string nested nested-IsPrintable

compare_loop_ends_example :
    compare_loop 12 (codes "1.10") (codes "1.9")
    ≡ some (compare_component (codes "1.10") (codes "1.9"))
compare_loop_ends_example = compare_loop_ends 12 (codes "1.10") (codes "1.9") (omega arith)

compare_component-key_example :
    sign (compare_component (codes "1.10") (codes "1.9"))
    ≡ compare_keys (key none (codes "1.10")) (key none (codes "1.9"))
compare_component-key_example =
    compare_component-key (codes "1.10") (codes "1.9") (ground arith) (ground arith)

abbrev old : DebVersion
old = version (pos 0) (codes "1.0~rc1") []

abbrev middle : DebVersion
middle = version (pos 0) (codes "1.0") (codes "1")

compare_swap_example :
    (DebVersion.compare middle old ≡ neg_ℤ (DebVersion.compare old middle))
    × (DebVersion.compare old old ≡ pos 0)
compare_swap_example = compare_swap old middle

compare-version_order_example : sign (DebVersion.compare old middle) ≡ version_order old middle
compare-version_order_example =
    compare-version_order old middle (ground arith, tt) (ground arith, ground arith)

old_le_middle : sign (DebVersion.compare old middle) ≢ greater
unfolding sign order DebVersion.compare compare_component is_digit
old_le_middle = λ e. cc

middle_le_nested : sign (DebVersion.compare middle nested) ≢ greater
unfolding sign order DebVersion.compare compare_component is_digit
middle_le_nested = λ e. cc

compare_trans_example :
    (sign (DebVersion.compare old nested) ≢ greater)
    × (sign (DebVersion.compare old nested) ≡ same
        → (sign (DebVersion.compare old middle) ≡ same)
          × (sign (DebVersion.compare middle nested) ≡ same))
compare_trans_example =
    compare_trans old middle nested (ground arith, tt) (ground arith, ground arith)
      (ground arith, ground arith) old_le_middle middle_le_nested
