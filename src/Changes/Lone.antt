-- ===== src/Changes/Lone.antt =====
-- changes.go, LoneChanges: the changes file that is made for a package without one.
pub mod Words
pub mod RoundTrip
pub mod Text
mod Tests
use godinstall.Prelude.{
  ℕ, Bool, true, false, List, [], ◌∷◌, ◌++◌, Option, none, some, Bytes, bytes_Eq, int_Eq, pair_Eq,
  codes, ℤ, pos,
}
use godinstall.Hex.{encode}
use godinstall.Strconv.{format_int}
use godinstall.DebVersion.{DebVersion, to_string}
use godinstall.Deb.{Query, gives, fails, panics}
use godinstall.Control.{Paragraph, ControlFile, get_value, set_value, add_value}
use godinstall.Changes.{ChangesFile, Parsed, parsed, wrong, Fault, ◌>>=◌, or_wrong, no_name, fault}
use godinstall.Changes.Parse.{value}

-- What the package answers; `control` is the first paragraph of its control file, and `none` where there is none.
-- The errors of `Maintainer` and `Version` are ignored; their `none` is a panic.
pub record LonePackage : Type 0 where
  pub name : Query Bytes
  pub md5 : Bytes
  pub sha1 : Bytes
  pub sha256 : Bytes
  pub size : ℤ
  pub maintainer : Option Bytes
  pub version : Option DebVersion
  pub control : Option Paragraph

-- What LoneChanges reads of the package and its control file.
pub record Described : Type 0 where
  pub maintainer : Bytes
  pub version : DebVersion
  pub section : Bytes
  pub priority : Bytes
  pub arch : Bytes
  pub desc : Bytes

abbrev pub spaced : Bytes → Bytes → Bytes
spaced a b = a ++ (32 ∷ b)

abbrev pub files_line : LonePackage → Bytes → Described → Bytes
files_line pkg file_name d =
    spaced (encode pkg.md5)
      (spaced (format_int pkg.size) (spaced d.section (spaced d.priority file_name)))

abbrev pub checksum_line : Bytes → ℤ → Bytes → Bytes
checksum_line hash size file_name = spaced (encode hash) (spaced (format_int size) file_name)

-- `newPara`.
abbrev pub new_paragraph : LonePackage → Bytes → Bytes → Bytes → Bytes → Described → Paragraph
new_paragraph pkg name file_name dist date d =
    let p1 = add_value [] (codes "Format") (codes "1.8") in
    let p2 = add_value p1 (codes "Date") date in
    let p3 = add_value p2 (codes "Source") name in
    let p4 = add_value p3 (codes "Binary") name in
    let p5 = add_value p4 (codes "Architecture") d.arch in
    let p6 = add_value p5 (codes "Version") (to_string d.version) in
    let p7 = add_value p6 (codes "Maintainer") d.maintainer in
    let p8 = add_value p7 (codes "Distribution") dist in
    let p9 = add_value p8 (codes "Description") [] in
    let p10 = add_value p9 (codes "Description") (name ++ (codes " - " ++ d.desc)) in
    let p11 = add_value p10 (codes "Changes") [] in
    let p12 = set_value p11 (codes "Files") [] in
    let p13 = add_value p12 (codes "Files") (files_line pkg file_name d) in
    let p14 = set_value p13 (codes "Checksums-Sha1") [] in
    let p15 = add_value p14 (codes "Checksums-Sha1") (checksum_line pkg.sha1 pkg.size file_name) in
    let p16 = set_value p15 (codes "Checksums-Sha256") [] in
    add_value p16 (codes "Checksums-Sha256") (checksum_line pkg.sha256 pkg.size file_name)

abbrev pub lone_file : LonePackage → Bytes → Bytes → Bytes → ℕ → Bytes → Described → ChangesFile
lone_file pkg name file_name dist now date d = record {
  control = record {
    data_paragraphs = new_paragraph pkg name file_name dist date d ∷ [];
    signed = false;
    signature_verified = false;
    signed_by = [];
  };
  date = now;
  binaries = name ∷ [];
  binary_version = d.version;
  architectures = [];
  source = name;
  source_version = d.version;
  file_hashes =
      (
        (file_name, pkg.size),
        (codes "md5", pkg.md5) ∷ (codes "sha1", pkg.sha1) ∷ (codes "sha256", pkg.sha256) ∷ [],
      )
      ∷ [];
}

abbrev pub answered : {A : Type 0} → Fault → Query A → Parsed A
answered e (gives a) = parsed a
answered e fails = wrong e
answered e panics = wrong fault

-- The fields of the package; GetValue panics where one is not there.
abbrev pub described : Bytes → DebVersion → Paragraph → Parsed Described
described maintainer version para = do
  section ← value para (codes "Section")
  priority ← value para (codes "Priority")
  arch ← value para (codes "Architecture")
  desc ← value para (codes "Description")
  parsed (record {
    maintainer = maintainer;
    version = version;
    section = section;
    priority = priority;
    arch = arch;
    desc = desc;
  })

-- `LoneChanges`, given the time and its text.
unfoldable pub lone_changes : LonePackage → Bytes → Bytes → ℕ → Bytes → Parsed ChangesFile
lone_changes pkg file_name dist now date = do
  name ← answered no_name pkg.name
  maintainer ← or_wrong fault pkg.maintainer
  version ← or_wrong fault pkg.version
  para ← or_wrong fault pkg.control
  d ← described maintainer version para
  parsed (lone_file pkg name file_name dist now date d)
