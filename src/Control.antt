-- ===== src/Control.antt =====
-- control.go: paragraphs of a Debian control file, and their text. A paragraph is a map, kept as a list of
-- its fields in the order they were added.
pub mod Fields
pub mod Text
pub mod RoundTrip
pub mod Writable
pub mod Write
mod Tests
use godinstall.Prelude.{
  ℕ, Bool, true, false, ◌&&◌, ◌||◌, ◌==◌, is_nil, ltb, leb, zero, suc, length, List, [], ◌∷◌, ◌++◌,
  Option, none, some, Bytes, bytes_Eq, codes, if◌then◌else◌,
}
use godinstall.Strings.{cut, cons_head}
use godinstall.SafeMap.{get, put}

abbrev pub Paragraph : Type 0
Paragraph = List (Bytes × List Bytes)

pub record ControlFile : Type 0 where
  pub data_paragraphs : List Paragraph
  pub signed : Bool
  pub signature_verified : Bool
  pub signed_by : List Bytes

-- `GetValue`: `none` is the fault of reading the first of no values.
abbrev pub first_value : Option (List Bytes) → Option Bytes
first_value none = none
first_value (some []) = none
first_value (some (v ∷ vs)) = some v

unfoldable pub get_value : Paragraph → Bytes → Option Bytes
unfolding get
get_value ctrl item = first_value (get ctrl item)

unfoldable pub set_value : Paragraph → Bytes → Bytes → Paragraph
unfolding put
set_value ctrl item val = put ctrl item (val ∷ [])

abbrev pub appended : Option (List Bytes) → Bytes → List Bytes
appended none val = val ∷ []
appended (some field) val = field ++ (val ∷ [])

unfoldable pub add_value : Paragraph → Bytes → Bytes → Paragraph
unfolding get put
add_value ctrl item val = put ctrl item (appended (get ctrl item) val)

-- The ASCII bytes that `unicode.IsSpace` holds of.
abbrev pub is_space : ℕ → Bool
is_space c = (c == 32) || ((c == 9) || ((c == 10) || ((c == 11) || ((c == 12) || (c == 13)))))

-- Its runes of two bytes, U+0085 and U+00A0, and of three, U+1680, U+2000 to U+200A, U+2028, U+2029,
-- U+202F, U+205F and U+3000.
abbrev pub is_space2 : ℕ → ℕ → Bool
is_space2 c d = (c == 0xC2) && ((d == 0x85) || (d == 0xA0))

abbrev pub is_space3 : ℕ → ℕ → ℕ → Bool
is_space3 c d e =
    ((c == 0xE1) && ((d == 0x9A) && (e == 0x80)))
    || (((c == 0xE2)
          && (((d == 0x80)
                && ((leb 0x80 e && leb e 0x8A) || ((e == 0xA8) || ((e == 0xA9) || (e == 0xAF)))))
              || ((d == 0x81) && (e == 0x9F))))
        || ((c == 0xE3) && ((d == 0x80) && (e == 0x80))))

-- The number of bytes of the white space that a text begins with.
abbrev pub wide_space : ℕ → Bytes → ℕ
wide_space c [] = 0
wide_space c (d ∷ []) = if is_space2 c d then 2 else 0
wide_space c (d ∷ e ∷ s) = if is_space2 c d then 2 else if is_space3 c d e then 3 else 0

abbrev pub space_width : Bytes → ℕ
space_width [] = 0
space_width (c ∷ s) = if is_space c then 1 else wide_space c s

abbrev pub after_space : ℕ → Bytes → (ℕ → Bytes) → Bytes
after_space zero s next = s
after_space (suc k) s next = next k

-- `strings.TrimLeftFunc`, after the bytes that are still to be dropped.
unfoldable pub trim_from : ℕ → Bytes → Bytes
trim_from k [] = []
trim_from (suc k) (c ∷ s) = trim_from k s
trim_from zero (c ∷ s) = after_space (space_width (c ∷ s)) (c ∷ s) (λ k. trim_from k s)

unfoldable pub trim_left : Bytes → Bytes
unfolding trim_from
trim_left s = trim_from 0 s

-- `strings.TrimRightFunc`: the longest end that is white space is left out.
unfoldable pub trim_right : Bytes → Bytes
unfolding trim_left
trim_right [] = []
trim_right (c ∷ s) = let rest = trim_right s in if is_nil (trim_left (c ∷ s)) then [] else c ∷ rest

-- `strings.TrimSpace`.
unfoldable pub trim_space : Bytes → Bytes
unfolding trim_left trim_right
trim_space s = trim_right (trim_left s)

-- The lines of `bufio.Scanner`: they end at a line feed, and lose a carriage return at their end.
pub lines : Bytes → List Bytes
lines [] = []
lines (c ∷ s) = if c == 10 then [] ∷ lines s else cons_head c (lines s)

pub drop_return : Bytes → Bytes
drop_return [] = []
drop_return (c ∷ []) = if c == 13 then [] else c ∷ []
drop_return (c ∷ d ∷ s) = c ∷ drop_return (d ∷ s)

-- `bufio.MaxScanTokenSize`. The scanner stops at a line that does not fit into its buffer with the line
-- feed, and the code does not ask it why it stopped.
abbrev pub line_limit : ℕ
line_limit = 65536

pub scan_lines : List Bytes → List Bytes
unfolding drop_return
scan_lines [] = []
scan_lines (l ∷ ls) =
    let rest = scan_lines ls in if ltb (length l) line_limit then drop_return l ∷ rest else []

-- The variables of the loop of `ParseDebianControl`: the paragraphs but the last, the last one, and the
-- field that a continuation line goes on with.
pub record State : Type 0 where
  pub finished : List Paragraph
  pub currpara : Paragraph
  pub currfield : Bytes

abbrev pub next_paragraph : State → Paragraph → State
next_paragraph st [] = st
next_paragraph st (f ∷ fs) = record {
  finished = st.finished ++ ((f ∷ fs) ∷ []);
  currpara = [];
  currfield = [];
}

abbrev pub continue_field : State → Bytes → Bytes → Option State
continue_field st line [] = none
continue_field st line (c ∷ field) =
    some (record st { currpara = add_value st.currpara (c ∷ field) (trim_space line) })

abbrev pub start_field : State → Option (Bytes × Bytes) → Option State
start_field st none = none
start_field st (some (name, val)) =
    some (record st { currpara = add_value st.currpara name (trim_space val); currfield = name })

pub parse_line : State → Bytes → Option State
unfolding add_value trim_space cut
parse_line st [] = some (next_paragraph st st.currpara)
parse_line st (c ∷ line) =
    if (c == 32) || (c == 9)
    then continue_field st (c ∷ line) st.currfield
    else start_field st (cut 58 (c ∷ line))

abbrev pub then_lines : (State → Option (List Paragraph)) → Option State → Option (List Paragraph)
then_lines rest none = none
then_lines rest (some st) = rest st

pub parse_lines : State → List Bytes → Option (List Paragraph)
unfolding parse_line
parse_lines st [] = some (st.finished ++ (st.currpara ∷ []))
parse_lines st (l ∷ ls) = then_lines (λ st'. parse_lines st' ls) (parse_line st l)

-- The data that `ParseDebianControl` makes of the text of a file without its signature.
pub parse_control : Bytes → Option (List Paragraph)
unfolding parse_lines scan_lines lines
parse_control text =
    parse_lines (record { finished = []; currpara = []; currfield = [] }) (scan_lines (lines text))

-- `WriteDebianControl`: the text of one field; `none` is the fault of reading the first of no values.
pub write_rest : List Bytes → Bytes
write_rest [] = []
write_rest (v ∷ vs) = 32 ∷ (v ++ (10 ∷ write_rest vs))

pub write_field : Bytes × List Bytes → Option Bytes
unfolding write_rest
write_field (name, []) = none
write_field (name, v ∷ vs) = some (name ++ (codes ": " ++ (v ++ (10 ∷ write_rest vs))))

abbrev pub before_text : Option Bytes → Option Bytes → Option Bytes
before_text none rest = none
before_text (some a) none = none
before_text (some a) (some b) = some (a ++ b)

-- The loops over fields.
pub write_fields : Paragraph → Option Bytes
unfolding write_field
write_fields [] = some []
write_fields (f ∷ fs) = before_text (write_field f) (write_fields fs)
