-- ===== src/Control/Tests.antt =====
-- Paragraphs that are parsed and written, and the theorems about them there.
use godinstall.Prelude.{◌≡◌, refl, [], ◌∷◌, ◌++◌, List, none, some, Bytes, codes, bytes_Eq}
use godinstall.Strings.{cut}
use godinstall.SafeMap.{get, put}
use godinstall.Control.{
  Paragraph, get_value, set_value, add_value, trim_from, trim_left, trim_right, trim_space, lines,
  drop_return, scan_lines, parse_line, parse_lines, parse_control, write_rest, write_field,
  write_fields,
}
use godinstall.Control.Writable.{is_writable, is_writable-AreFields}
use godinstall.Control.Fields.{add_all, values_of, joined, add_value_lem}
use godinstall.Control.RoundTrip.{AreFields, parse-write_fields}

abbrev pub source : Paragraph
source = (codes "Package", codes "p" ∷ []) ∷ (codes "Files", [] ∷ codes "p.dsc 1" ∷ []) ∷ []

abbrev newline : Bytes
newline = 10 ∷ []

written :
    write_fields source
    ≡ some (
        codes "Package: p"
        ++ (newline ++ (codes "Files: " ++ (newline ++ (codes " p.dsc 1" ++ newline)))))
unfolding write_fields write_field write_rest
written = refl

two_paragraphs :
    parse_control (codes "A: 1" ++ (newline ++ (newline ++ (newline ++ codes "B : 2 "))))
    ≡ some (((codes "A", codes "1" ∷ []) ∷ []) ∷ ((codes "B ", codes "2" ∷ []) ∷ []) ∷ [])
unfolding parse_control parse_lines parse_line scan_lines lines drop_return trim_space trim_from
    trim_left trim_right add_value get put cut
two_paragraphs = refl

-- A value that ends in a no-break space, and one that begins with an ideographic space.
wide_spaces :
    parse_control
      (codes "A: 1" ++ (0xC2 ∷ 0xA0 ∷ 32 ∷ 10 ∷ codes " " ++ (0xE3 ∷ 0x80 ∷ 0x80 ∷ codes "2")))
    ≡ some (((codes "A", codes "1" ∷ codes "2" ∷ []) ∷ []) ∷ [])
unfolding parse_control parse_lines parse_line scan_lines lines drop_return trim_space trim_from
    trim_left trim_right add_value get put cut
wide_spaces = refl

no_field : parse_control (codes " a") ≡ none
unfolding parse_control parse_lines parse_line scan_lines lines drop_return
no_field = refl

pub source-AreFields : AreFields [] source
unfolding is_writable trim_space trim_from trim_left trim_right get
source-AreFields = is_writable-AreFields [] source refl

parse-write_fields_example :
    (text : Bytes) × ((write_fields source ≡ some text) × (parse_control text ≡ some (source ∷ [])))
parse-write_fields_example = parse-write_fields source source-AreFields

abbrev more : List (Bytes × Bytes)
more = (codes "Files", codes "x") ∷ (codes "Size", codes "1") ∷ (codes "Files", codes "y") ∷ []

add_value_lem_example :
    ((k : Bytes) → get (add_all source more) k ≡ joined (get source k) (values_of k more))
    × ((k w : Bytes) → get_value source k ≡ some w → get_value (add_all source more) k ≡ some w)
    × ((k v : Bytes)
        → (get (set_value (add_all source more) k v) k ≡ some (v ∷ []))
          × (get_value (set_value (add_all source more) k v) k ≡ some v))
add_value_lem_example = add_value_lem source more
