-- ===== src/Changes/Lone/Tests.antt =====
-- A changes file made for a package, read back, and one without checksums, refused.
use godinstall.Prelude.{
  ◌≡◌, refl, [], ◌∷◌, some, Bytes, bytes_Eq, int_Eq, pair_Eq, codes, pos, bytes-ne, arith,
}
use godinstall.Strings.{split}
use godinstall.Strconv.{format_int, parse_int}
use godinstall.Hex.{encode, decode}
use godinstall.SafeMap.{get, put}
use godinstall.Deb.{gives}
use godinstall.DebVersion.{DebVersion, to_string}
use godinstall.Control.{
  Paragraph, get_value, set_value, add_value, trim_space, trim_from, trim_left, trim_right,
  parse_control,
}
use godinstall.Control.RoundTrip.{AreFields}
use godinstall.Control.Writable.{is_writable, is_writable-AreFields}
use godinstall.Changes.Format.{format_changes_file}
use godinstall.Changes.Format.RoundTrip.{unsigned}
use godinstall.Changes.Lone.Text.{parse_debian_changes-format-lone_changes}
use godinstall.Changes.{ChangesFile, FileHashes, parsed, wrong, mismatch}
use godinstall.Changes.Hashes.{
  fields, fields_from, add_record, add_records, f2hs, compare_counts, all_in, join_hashes,
  changes_file_hashes,
}
use godinstall.Changes.Hashes.Listed.{IsListed, changes_file_hashes_lem}
use godinstall.Changes.Parse.{parse_debian_changes}
use godinstall.Changes.Lone.{LonePackage, Described, new_paragraph, described, lone_changes}
use godinstall.Changes.Lone.RoundTrip.{IsListable, parse_debian_changes-lone_changes}

abbrev para : Paragraph
para =
    (codes "Section", codes "utils" ∷ [])
    ∷ (codes "Priority", codes "extra" ∷ [])
    ∷ (codes "Architecture", codes "all" ∷ [])
    ∷ (codes "Description", codes "a tool" ∷ [])
    ∷ []

abbrev tool_version : DebVersion
tool_version = record { epoch = pos 0; version = codes "1.0"; revision = codes "2" }

abbrev pkg : LonePackage
pkg = record {
  name = gives (codes "tool");
  md5 = 1 ∷ 171 ∷ [];
  sha1 = 2 ∷ [];
  sha256 = 3 ∷ [];
  size = pos 42;
  maintainer = some (codes "A <a@b>");
  version = some tool_version;
  control = some para;
}

abbrev d : Described
d = record {
  maintainer = codes "A <a@b>";
  version = tool_version;
  section = codes "utils";
  priority = codes "extra";
  arch = codes "all";
  desc = codes "a tool";
}

abbrev file : Bytes
file = codes "tool.deb"

pkg-IsListable : IsListable pkg (codes "tool") file d
pkg-IsListable = record {
  md5 = (bytes-ne (1 ∷ 171 ∷ []) [] refl, (omega arith, (omega arith, tt)));
  sha1 = (bytes-ne (2 ∷ []) [] refl, (omega arith, tt));
  sha256 = (bytes-ne (3 ∷ []) [] refl, (omega arith, tt));
  size = omega arith;
  section = (bytes-ne (codes "utils") [] refl, (refl, (refl, (refl, (refl, (refl, tt))))));
  priority = (bytes-ne (codes "extra") [] refl, (refl, (refl, (refl, (refl, (refl, tt))))));
  file =
      (bytes-ne file [] refl, (refl, (refl, (refl, (refl, (refl, (refl, (refl, (refl, tt)))))))));
  no_space = ground arith;
  no_parenthesis = ground arith;
  version = record {
    epoch_fits = omega arith;
    no_colon = λ e. ground arith;
    no_dash = ground arith;
    native = λ e. cc e;
  };
}

read_para : described (codes "A <a@b>") tool_version para ≡ parsed d
unfolding get_value get
read_para = refl

parse_debian_changes-lone_changes_example :
    (c : ChangesFile) × ((lone_changes pkg file (codes "stable") 5 (codes "now") ≡ parsed c)
      × (parse_debian_changes (λ s. some 4) (some c.control)
          ≡ parsed (record c { date = 4; architectures = split 32 (codes "all") })))
parse_debian_changes-lone_changes_example =
    parse_debian_changes-lone_changes (λ s. some 4) pkg (codes "tool") file (codes "stable")
      (codes "now") 5 4 (codes "A <a@b>") tool_version para d refl refl refl refl read_para
      pkg-IsListable refl

tool_paragraph-AreFields :
    AreFields [] (new_paragraph pkg (codes "tool") file (codes "stable") (codes "now") d)
unfolding is_writable trim_space trim_from trim_left trim_right get put add_value set_value encode
    format_int to_string
tool_paragraph-AreFields =
    is_writable-AreFields []
      (new_paragraph pkg (codes "tool") file (codes "stable") (codes "now") d) refl

parse_debian_changes-format-lone_changes_example :
    (c : ChangesFile) × ((lone_changes pkg file (codes "stable") 5 (codes "now") ≡ parsed c)
      × ((text : Bytes) × ((format_changes_file c ≡ some text)
            × ((p : Paragraph) × ((parse_control text ≡ some (p ∷ []))
                  × (parse_debian_changes (λ s. some 4) (some (unsigned p))
                      ≡ parsed (record c {
                        control = unsigned p;
                        date = 4;
                        architectures = split 32 (codes "all");
                      })))))))
parse_debian_changes-format-lone_changes_example =
    parse_debian_changes-format-lone_changes (λ s. some 4) pkg (codes "tool") file (codes "stable")
      (codes "now") 5 4 (codes "A <a@b>") tool_version para d refl refl refl refl read_para
      pkg-IsListable refl tool_paragraph-AreFields

abbrev lists_files : Paragraph
lists_files = (codes "Files", [] ∷ codes "01ab 42 utils extra tool.deb" ∷ []) ∷ []

abbrev lists_all : Paragraph
lists_all =
    (codes "Checksums-Sha1", [] ∷ codes "02 42 tool.deb" ∷ [])
    ∷ (codes "Checksums-Sha256", [] ∷ codes "03 42 tool.deb" ∷ [])
    ∷ lists_files

abbrev listed : FileHashes
listed =
    (
      (file, pos 42),
      (codes "md5", 1 ∷ 171 ∷ []) ∷ (codes "sha1", 2 ∷ []) ∷ (codes "sha256", 3 ∷ []) ∷ [],
    )
    ∷ []

no_checksums : changes_file_hashes lists_files ≡ wrong mismatch
unfolding changes_file_hashes f2hs add_records add_record fields fields_from decode get put
    compare_counts all_in parse_int
no_checksums = refl

all_checksums : changes_file_hashes lists_all ≡ parsed listed
unfolding changes_file_hashes f2hs add_records add_record fields fields_from decode get put
    compare_counts all_in join_hashes parse_int
all_checksums = refl

changes_file_hashes_lem_example :
    IsListed lists_all
      (file, pos 42)
      ((codes "md5", 1 ∷ 171 ∷ []) ∷ (codes "sha1", 2 ∷ []) ∷ (codes "sha256", 3 ∷ []) ∷ [])
unfolding get
changes_file_hashes_lem_example =
    changes_file_hashes_lem lists_all listed all_checksums (file, pos 42)
      ((codes "md5", 1 ∷ 171 ∷ []) ∷ (codes "sha1", 2 ∷ []) ∷ (codes "sha256", 3 ∷ []) ∷ []) refl
