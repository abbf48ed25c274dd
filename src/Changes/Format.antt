-- ===== src/Changes/Format.antt =====
-- changes.go, FormatChangesFile: the text of a changes file.
pub mod RoundTrip
mod Tests
use godinstall.Prelude.{List, [], ◌∷◌, Option, Bytes, codes}
use godinstall.Control.Write.{write_paragraphs}
use godinstall.Changes.{ChangesFile}

-- `changesStartFields` and `changesEndFields`.
abbrev pub start_fields : List Bytes
start_fields = codes "Format" ∷ codes "Date" ∷ codes "Source" ∷ codes "Binary" ∷ []

abbrev pub end_fields : List Bytes
end_fields = codes "Checksums-Sha1" ∷ codes "Checksums-Sha256" ∷ codes "Files" ∷ []

unfoldable pub format_changes_file : ChangesFile → Option Bytes
unfolding write_paragraphs
format_changes_file c = write_paragraphs start_fields end_fields c.control.data_paragraphs
