-- ===== src/Changes/Parse.antt =====
-- changes.go, ParseDebianChanges: a control file as a changes file.
use godinstall.Prelude.{
  ℕ, ◌==◌, List, [], ◌∷◌, Option, none, some, Bytes, bytes_Eq, codes, pos, if◌then◌else◌,
}
use godinstall.Strings.{cut, split}
use godinstall.DebVersion.{DebVersion, parse}
use godinstall.SafeMap.{check}
use godinstall.Control.{Paragraph, ControlFile, get_value}
use godinstall.Changes.{
  ChangesFile, Parsed, parsed, wrong, ◌>>=◌, ◌>>◌, or_wrong, control_failed, paragraphs_count,
  missing_field, bad_date, corrupt_source, corrupt_version, fault,
}
use godinstall.Changes.Hashes.{changes_file_hashes}

-- `changesFileRequiredFields`.
abbrev pub required_fields : List Bytes
required_fields =
    codes "Format"
    ∷ codes "Date"
    ∷ codes "Source"
    ∷ codes "Binary"
    ∷ codes "Architecture"
    ∷ codes "Version"
    ∷ codes "Distribution"
    ∷ codes "Maintainer"
    ∷ codes "Description"
    ∷ codes "Changes"
    ∷ codes "Files"
    ∷ []

unfoldable pub require : Paragraph → List Bytes → Parsed (Unit {0})
unfolding check
require para [] = parsed tt
require para (k ∷ ks) =
    let rest = require para ks in if check para k then rest else wrong (missing_field k)

abbrev pub only_paragraph : List Paragraph → Parsed Paragraph
only_paragraph (p ∷ []) = parsed p
only_paragraph _ = wrong paragraphs_count

-- `strings.TrimRight(s, " ")`.
abbrev pub cons_unless_spaces : ℕ → Bytes → Bytes
cons_unless_spaces c [] = if c == 32 then [] else c ∷ []
cons_unless_spaces c (d ∷ s) = c ∷ d ∷ s

unfoldable pub trim_spaces : Bytes → Bytes
trim_spaces [] = []
trim_spaces (c ∷ s) = cons_unless_spaces c (trim_spaces s)

-- An error of the version is not looked at; the version is then the empty one.
abbrev pub or_no_version : Option DebVersion → DebVersion
or_no_version none = record { epoch = pos 0; version = []; revision = [] }
or_no_version (some v) = v

-- The version between parentheses behind the source.
abbrev pub with_source_version : Bytes → Option (Bytes × Bytes) → Parsed (Bytes × DebVersion)
with_source_version source none = wrong corrupt_source
with_source_version source (some (v, rest)) =
    or_wrong corrupt_version (parse v) >>= λ version. parsed (trim_spaces source, version)

abbrev pub source_of : Bytes → DebVersion → Option (Bytes × Bytes) → Parsed (Bytes × DebVersion)
source_of str version none = parsed (str, version)
source_of str version (some (source, rest)) = with_source_version source (cut 41 rest)

abbrev pub value : Paragraph → Bytes → Parsed Bytes
value para item = or_wrong fault (get_value para item)

module _ (parse_date : Bytes → Option ℕ) where
  abbrev pub of_paragraph : ControlFile → Paragraph → Parsed ChangesFile
  of_paragraph file control = do
    require control required_fields
    files ← changes_file_hashes control
    date_str ← value control (codes "Date")
    date ← or_wrong bad_date (parse_date date_str)
    archs_str ← value control (codes "Architecture")
    binary_str ← value control (codes "Binary")
    version_str ← value control (codes "Version")
    source_str ← value control (codes "Source")
    s ← source_of source_str (or_no_version (parse version_str)) (cut 40 source_str)
    parsed (record {
      control = file;
      date = date;
      binaries = split 32 binary_str;
      binary_version = or_no_version (parse version_str);
      architectures = split 32 archs_str;
      source = s.0;
      source_version = s.1;
      file_hashes = files;
    })

  -- `ParseDebianChanges` of what ParseDebianControl returned.
  unfoldable pub parse_debian_changes : Option ControlFile → Parsed ChangesFile
  parse_debian_changes parsed_control = do
    file ← or_wrong control_failed parsed_control
    control ← only_paragraph file.data_paragraphs
    of_paragraph file control
