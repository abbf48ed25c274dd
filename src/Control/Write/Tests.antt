-- ===== src/Control/Write/Tests.antt =====
-- The order of the fields of a written paragraph.
use godinstall.Prelude.{◌≡◌, refl, [], ◌∷◌, List, some, Bytes, codes, bytes_Eq}
use godinstall.SafeMap.{get}
use godinstall.Strings.{bytes_compare}
use godinstall.Control.{Paragraph, parse_control}
use godinstall.Control.Write.{
  contains, select, remaining, insert, sort_strings, ordered, write_paragraphs,
}
use godinstall.Control.Write.Names.{Distinct}
use godinstall.Control.Write.Ordered.{parse-write_paragraphs}
use godinstall.Control.Tests.{source, source-AreFields}

abbrev start : List Bytes
start = codes "Format" ∷ codes "Package" ∷ []

abbrev end : List Bytes
end = codes "Files" ∷ []

abbrev one : Bytes → Bytes × List Bytes
one name = (name, codes "1" ∷ [])

middle_sorted :
    ordered start end
      (one (codes "Files") ∷ one (codes "B") ∷ one (codes "Package") ∷ one (codes "A") ∷ [])
    ≡ one (codes "Package") ∷ one (codes "A") ∷ one (codes "B") ∷ one (codes "Files") ∷ []
unfolding ordered select remaining insert sort_strings contains get bytes_compare
middle_sorted = refl

parse-write_paragraphs_example :
    (text : Bytes) × ((write_paragraphs start end (source ∷ []) ≡ some text)
      × ((p : Paragraph) × ((parse_control text ≡ some (p ∷ []))
            × ((k : Bytes) → get p k ≡ get source k))))
unfolding Distinct contains
parse-write_paragraphs_example =
    parse-write_paragraphs start end source source-AreFields (refl, (refl, (refl, tt)))
