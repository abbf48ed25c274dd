-- ===== src/DebVersion.antt =====
-- debversion.go: the parts of a Debian version, its text, and the order of two versions.
-- An index into a string is the rest of the string behind it.
pub mod Loops
pub mod RoundTrip
pub mod Numbers
pub mod Key
pub mod Refine
pub mod Order
mod Tests
use godinstall.Prelude.{
  ℕ, zero, suc, ◌+◌, ◌-◌, Bool, true, false, ◌&&◌, ◌||◌, not, List, [], ◌∷◌, ◌++◌, Option, none,
  some, Bytes, ltb, leb, ◌==◌, if◌then◌else◌, ℤ, pos, negsuc, sub_ℕ, sub_ℤ, eqb_ℤ, ltb_ℤ, bytes_beq,
  length,
}
use godinstall.Strings.{cut, split, join, init, last}
use godinstall.Strconv.{parse_int, format_int, is_digit, NumError}

pub record DebVersion : Type 0 where
  pub epoch : ℤ
  pub version : Bytes
  pub revision : Bytes

abbrev pub is_empty : Bytes → Bool
is_empty [] = true
is_empty (c ∷ s) = false

-- `DebVersion.String`.
unfoldable pub to_string : DebVersion → Bytes
to_string d =
    let prefix = if eqb_ℤ d.epoch (pos 0) then [] else format_int d.epoch ++ b':' ∷ [] in
    let output = prefix ++ d.version in
    if is_empty d.revision then output else output ++ b'-' ∷ d.revision

-- The parts of the text behind the epoch, cut at every dash.
abbrev pub of_parts : ℤ → List Bytes → DebVersion
of_parts epoch [] = record { epoch = epoch; version = []; revision = [] }
of_parts epoch (p ∷ []) = record { epoch = epoch; version = p; revision = [] }
of_parts epoch (p ∷ q ∷ ps) = record {
  epoch = epoch;
  version = join b'-' (init (p ∷ q ∷ ps));
  revision = last (p ∷ q ∷ ps);
}

abbrev pub with_epoch : ℤ × Option NumError → Bytes → Option DebVersion
with_epoch (epoch, none) rest = some (of_parts epoch (split b'-' rest))
with_epoch (epoch, some e) rest = none

-- `ParseDebVersion`; `none` is its error, which only a bad epoch raises.
unfoldable pub parse : Bytes → Option DebVersion
parse str = elim (cut b':' str) [
  | none ↦ some (of_parts (pos 0) (split b'-' str))
  | some (epoch_str, rest) ↦ with_epoch (parse_int epoch_str 64) rest
]

-- `unicode.IsLetter` of a byte, which is read as a code point of Latin-1.
pub is_letter : ℕ → Bool
is_letter c =
    leb b'A' c && leb c b'Z'
    || leb b'a' c && leb c b'z'
    || c == 0xAA
    || c == 0xB5
    || c == 0xBA
    || leb 0xC0 c && leb c 0xD6
    || leb 0xD8 c && leb c 0xF6
    || leb 0xF8 c && leb c 0xFF

-- `charOrder`.
pub char_order : ℕ → ℤ
unfolding is_letter
char_order c =
    if is_digit c
    then pos 0
    else if is_letter c
    then pos c
    else if c == b'~'
    then negsuc 0
    else if not (c == 0)
    then pos (c + 256)
    else pos 0

-- `ac` and `bc`: the order of the next byte, 0 at the end.
pub next_order : Bytes → ℤ
next_order [] = pos 0
next_order (c ∷ s) = char_order c

abbrev pub starts_text : Bytes → Bool
starts_text [] = false
starts_text (c ∷ s) = not (is_digit c)

abbrev pub starts_digit : Bytes → Bool
starts_digit [] = false
starts_digit (c ∷ s) = is_digit c

-- What a loop over text hands on: the result of the comparison, or the two rests.
pub data Text : Type 0 where
  differ : ℤ → Text
  alike : Bytes → Bytes → Text

abbrev pub text_round : Bytes → Bytes → Text → Text
text_round a b rest =
    if starts_text a || starts_text b
    then if eqb_ℤ (next_order a) (next_order b)
      then rest
      else differ (sub_ℤ (next_order a) (next_order b))
    else alike a b

-- The first inner loop: as long as one of the two is at a non-digit, both move on together.
pub compare_text : Bytes → Bytes → Text
compare_text [] [] = alike [] []
compare_text [] (d ∷ b) = text_round [] (d ∷ b) (compare_text [] b)
compare_text (c ∷ a) [] = text_round (c ∷ a) [] (compare_text a [])
compare_text (c ∷ a) (d ∷ b) = text_round (c ∷ a) (d ∷ b) (compare_text a b)

pub skip_zeros : Bytes → Bytes
skip_zeros [] = []
skip_zeros (c ∷ s) = if c == b'0' then skip_zeros s else c ∷ s

-- `firstdiff`: once set it stays.
pub next_first : ℤ → ℕ → ℕ → ℤ
next_first first c d = if eqb_ℤ first (pos 0) then sub_ℕ c d else first

-- The loop over two runs of digits: it keeps the first difference, and ends with the shorter run.
pub compare_digits : ℤ → Bytes → Bytes → ℤ × Bytes × Bytes
unfolding next_first
compare_digits first [] b = (first, [], b)
compare_digits first (c ∷ a) [] = (first, c ∷ a, [])
compare_digits first (c ∷ a) (d ∷ b) =
    if is_digit c && is_digit d
    then compare_digits (next_first first c d) a b
    else (first, c ∷ a, d ∷ b)

-- What one round of the outer loop does: return, or go on with the rests.
pub data Round : Type 0 where
  done : ℤ → Round
  go_on : Bytes → Bytes → Round

abbrev pub after_digits : ℤ × Bytes × Bytes → Round
after_digits (first, a, b) =
    if starts_digit a
    then done (pos 1)
    else if starts_digit b
    then done (negsuc 0)
    else if not (eqb_ℤ first (pos 0))
    then done first
    else go_on a b

pub after_text : Text → Round
unfolding compare_digits skip_zeros
after_text (differ z) = done z
after_text (alike a b) = after_digits (compare_digits (pos 0) (skip_zeros a) (skip_zeros b))

pub round : Bytes → Bytes → Round
unfolding compare_text after_text next_order char_order
round a b = after_text (compare_text a b)

-- The outer loop, with fuel; `none` means that the fuel ran out.
pub compare_loop : ℕ → Bytes → Bytes → Option ℤ
unfolding round
compare_loop zero a b = none
compare_loop (suc f) [] [] = some (pos 0)
compare_loop (suc f) a b = elim (round a b) [ done z ↦ some z | go_on a' b' ↦ compare_loop f a' b' ]

abbrev pub or_zero : Option ℤ → ℤ
or_zero none = pos 0
or_zero (some z) = z

-- `compareComponent`: each round takes a byte at least, so the fuel does not run out.
unfoldable pub compare_component : Bytes → Bytes → ℤ
unfolding compare_loop
compare_component a b = or_zero (compare_loop (suc (length a + length b)) a b)

-- `DebVersionCompare`.
unfoldable pub compare : DebVersion → DebVersion → ℤ
compare a b =
    if ltb_ℤ b.epoch a.epoch
    then pos 1
    else if ltb_ℤ a.epoch b.epoch
    then negsuc 0
    else (let res = compare_component a.version b.version in
        if eqb_ℤ res (pos 0) then compare_component a.revision b.revision else res)
