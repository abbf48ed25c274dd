-- ===== src/Control/Write.antt =====
-- control.go, WriteDebianControl: the order in which the fields of a paragraph are written.
pub mod Names
pub mod Selected
pub mod Ordered
mod Tests
use godinstall.Prelude.{
  ℕ, Bool, true, false, not, ◌||◌, List, [], ◌∷◌, ◌++◌, Option, none, some, Bytes, bytes_beq,
  bytes_Eq, pos, ltb_ℤ, if◌then◌else◌,
}
use godinstall.SafeMap.{get}
use godinstall.Strings.{bytes_compare}
use godinstall.Control.{Paragraph, before_text, write_fields}

unfoldable pub contains : List Bytes → Bytes → Bool
contains [] name = false
contains (n ∷ names) name = bytes_beq n name || contains names name

-- The fields with the given names, in the order of these, as far as they are there.
abbrev pub with_field : Bytes → Option (List Bytes) → Paragraph → Paragraph
with_field name none rest = rest
with_field name (some lines) rest = (name, lines) ∷ rest

unfoldable pub select : Paragraph → List Bytes → Paragraph
unfolding get
select fields [] = []
select fields (n ∷ names) = with_field n (get fields n) (select fields names)

-- `middle`, before it is sorted: the names that `ordered` does not hold.
unfoldable pub remaining : List Bytes → Paragraph → List Bytes
unfolding contains
remaining ordered [] = []
remaining ordered ((name, lines) ∷ fields) =
    if contains ordered name then remaining ordered fields else name ∷ remaining ordered fields

-- `sort.Strings`.
unfoldable pub insert : Bytes → List Bytes → List Bytes
unfolding bytes_compare
insert name [] = name ∷ []
insert name (n ∷ names) =
    if ltb_ℤ (bytes_compare n name) (pos 0) then n ∷ insert name names else name ∷ n ∷ names

unfoldable pub sort_strings : List Bytes → List Bytes
unfolding insert
sort_strings [] = []
sort_strings (n ∷ names) = insert n (sort_strings names)

-- The fields of a paragraph in the order that they are written in.
unfoldable pub ordered : List Bytes → List Bytes → Paragraph → Paragraph
unfolding select remaining sort_strings
ordered start end fields =
    select fields start
    ++ (select fields (sort_strings (remaining (start ++ end) fields)) ++ select fields end)

-- `WriteDebianControl`: a newline stands between two paragraphs; `none` is the fault of a field of no lines.
unfoldable pub write_paragraphs : List Bytes → List Bytes → List Paragraph → Option Bytes
unfolding ordered write_fields
write_paragraphs start end [] = some []
write_paragraphs start end (p ∷ []) = write_fields (ordered start end p)
write_paragraphs start end (p ∷ q ∷ ps) =
    before_text (write_fields (ordered start end p))
      (before_text (some (10 ∷ [])) (write_paragraphs start end (q ∷ ps)))
