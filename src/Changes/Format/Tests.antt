-- ===== src/Changes/Format/Tests.antt =====
-- A changes file that is written and read back.
use godinstall.Prelude.{◌≡◌, refl, [], ◌∷◌, some, Bytes, codes, bytes_Eq, pos}
use godinstall.SafeMap.{get}
use godinstall.Control.{Paragraph, parse_control, trim_space, trim_from, trim_left, trim_right}
use godinstall.Control.RoundTrip.{AreFields}
use godinstall.Control.Writable.{is_writable, is_writable-AreFields}
use godinstall.Changes.{ChangesFile}
use godinstall.Changes.Parse.{parse_debian_changes}
use godinstall.Changes.Format.{format_changes_file}
use godinstall.Changes.Format.RoundTrip.{
  with_control, unsigned, parse_debian_changes-format_changes_file,
}

abbrev para : Paragraph
para =
    (codes "Architecture", codes "all" ∷ [])
    ∷ (codes "Binary", codes "p" ∷ [])
    ∷ (codes "Changes", [] ∷ codes "more" ∷ [])
    ∷ (codes "Date", codes "today" ∷ [])
    ∷ (codes "Description", [] ∷ codes "p - a tool" ∷ [])
    ∷ (codes "Distribution", codes "stable" ∷ [])
    ∷ (codes "Files", [] ∷ codes "01ab 42 utils extra p.deb" ∷ [])
    ∷ (codes "Format", codes "1.8" ∷ [])
    ∷ (codes "Maintainer", codes "A" ∷ [])
    ∷ (codes "Checksums-Sha1", [] ∷ codes "02 42 p.deb" ∷ [])
    ∷ (codes "Checksums-Sha256", [] ∷ codes "03 42 p.deb" ∷ [])
    ∷ (codes "Source", codes "p (1.0)" ∷ [])
    ∷ (codes "Version", codes "1.0-1" ∷ [])
    ∷ []

para-AreFields : AreFields [] para
unfolding is_writable trim_space trim_from trim_left trim_right get
para-AreFields = is_writable-AreFields [] para refl

abbrev file : ChangesFile
file = record {
  control = unsigned para;
  date = 0;
  binaries = [];
  binary_version = record { epoch = pos 0; version = []; revision = [] };
  architectures = [];
  source = [];
  source_version = record { epoch = pos 0; version = []; revision = [] };
  file_hashes = [];
}

parse_debian_changes-format_changes_file_example :
    (text : Bytes) × ((format_changes_file file ≡ some text)
      × ((p : Paragraph) × ((parse_control text ≡ some (p ∷ []))
            × (parse_debian_changes (λ s. some 1) (some (unsigned p))
                ≡ with_control
                    (unsigned p)
                    (parse_debian_changes (λ s. some 1) (some (unsigned para)))))))
parse_debian_changes-format_changes_file_example =
    parse_debian_changes-format_changes_file (λ s. some 1) file para refl para-AreFields
