-- ===== src/Changes/Lone/RoundTrip.antt =====
-- changes.go: ParseDebianChanges reads what LoneChanges makes.
use godinstall.Prelude.{
  ℕ, ◌<◌, ◌≡◌, ◌≢◌, refl, ◌∙◌, ap, List, [], ◌∷◌, Option, some, Bytes, bytes_Eq, int_Eq, pair_Eq,
  pair_beq_iff, codes, ℤ, All,
}
use godinstall.Strings.{Lacks, split}
use godinstall.Strings.SplitJoin.{split_lacking, cut_lacking}
use godinstall.Strconv.{format_int}
use godinstall.Strconv.RoundTrip.{IsInt64, parse_int-format_int}
use godinstall.Hex.{encode}
use godinstall.Hex.RoundTrip.{decode-encode}
use godinstall.DebVersion.RoundTrip.{IsPrintable, parse-to_string}
use godinstall.Deb.{gives}
use godinstall.DebVersion.{DebVersion}
use godinstall.SafeMap.{get, put, check}
use godinstall.Control.{Paragraph, get_value, set_value, add_value}
use godinstall.Changes.{ChangesFile, parsed, ◌>>=◌, hash_of}
use godinstall.Changes.Hashes.{
  fields, describe, add_record, add_records, f2hs, changes_file_hashes, compare_counts, all_in,
  join_hashes,
}
use godinstall.Changes.Parse.{require, parse_debian_changes}
use godinstall.Changes.Lone.{
  LonePackage, Described, spaced, files_line, checksum_line, new_paragraph, lone_file, described,
  lone_changes,
}
use godinstall.Changes.Lone.Words.{
  IsWord, fields-word, fields_word, encode-IsWord, format_int-IsWord,
}

-- A hash: some bytes.
abbrev pub IsHash : Bytes → Type 0
IsHash h = (h ≢ []) × All (λ c. c < 256) h

-- What a package and its file are like where a changes file can name them: hashes and a size, words for what
-- stands on a line of words, a name that is no list and has no parenthesis, and a version in the form of Debian's policy.
pub record IsListable (pkg : LonePackage) (name file_name : Bytes) (d : Described) : Type 0 where
  pub md5 : IsHash pkg.md5
  pub sha1 : IsHash pkg.sha1
  pub sha256 : IsHash pkg.sha256
  pub size : IsInt64 pkg.size
  pub section : IsWord d.section
  pub priority : IsWord d.priority
  pub file : IsWord file_name
  pub no_space : Lacks 32 name
  pub no_parenthesis : Lacks 40 name
  pub version : IsPrintable d.version

describe-checksum_line :
    (h f : Bytes) (size : ℤ)
    → IsHash h
    → IsWord f
    → describe (fields (checksum_line h size f)) ≡ some (encode h, (format_int size, f))
describe-checksum_line h f size (n, b) w = ap describe (
    fields-word (encode h) (spaced (format_int size) f) (encode-IsWord h n b)
    ∙ ap (λ ws. encode h ∷ ws)
        (fields-word (format_int size) f (format_int-IsWord size)
          ∙ ap (λ ws. format_int size ∷ ws) (fields_word f w)))

describe-files_line :
    (pkg : LonePackage) (name f : Bytes) (d : Described)
    → IsListable pkg name f d
    → describe (fields (files_line pkg f d)) ≡ some (encode pkg.md5, (format_int pkg.size, f))
describe-files_line pkg name f d g = ap describe (
    fields-word (encode pkg.md5)
      (spaced (format_int pkg.size) (spaced d.section (spaced d.priority f)))
      (encode-IsWord pkg.md5 g.md5.0 g.md5.1)
    ∙ ap (λ ws. encode pkg.md5 ∷ ws)
        (fields-word (format_int pkg.size) (spaced d.section (spaced d.priority f))
            (format_int-IsWord pkg.size)
          ∙ ap (λ ws. format_int pkg.size ∷ ws)
              (fields-word d.section (spaced d.priority f) g.section
                ∙ ap (λ ws. d.section ∷ ws)
                    (fields-word d.priority f g.priority
                      ∙ ap (λ ws. d.priority ∷ ws) (fields_word f g.file)))))

-- One line is one record.
add_records_line :
    (name line h f : Bytes) (size : ℤ)
    → describe (fields line) ≡ some (encode h, (format_int size, f))
    → IsHash h
    → IsInt64 size
    → add_records name (line ∷ []) [] ≡ parsed (((f, size), (name, h) ∷ []) ∷ [])
unfolding add_records add_record put
add_records_line name line h f size e (n, b) z =
    rw (e, decode-encode h b, parse_int-format_int size z) refl

counts_lem :
    (i : Bytes × ℤ) (v w : List (Bytes × Bytes))
    → compare_counts ((i, v) ∷ []) ((i, w) ∷ []) ≡ parsed tt
unfolding compare_counts all_in check get
counts_lem i v w = rw ((pair_beq_iff i i).1 refl) refl

join_lem :
    (i : Bytes × ℤ) (md5 sha1 sha256 : Bytes)
    → join_hashes
        ((i, (codes "md5", md5) ∷ []) ∷ [])
        ((i, (codes "sha1", sha1) ∷ []) ∷ [])
        ((i, (codes "sha256", sha256) ∷ []) ∷ [])
      ≡ (i, (codes "md5", md5) ∷ (codes "sha1", sha1) ∷ (codes "sha256", sha256) ∷ []) ∷ []
unfolding join_hashes get put hash_of
join_lem i md5 sha1 sha256 = rw ((pair_beq_iff i i).1 refl) refl

changes_file_hashes-new_paragraph :
    (pkg : LonePackage) (name f dist date : Bytes) (d : Described)
    → IsListable pkg name f d
    → changes_file_hashes (new_paragraph pkg name f dist date d)
      ≡ parsed (
          (
            (f, pkg.size),
            (codes "md5", pkg.md5) ∷ (codes "sha1", pkg.sha1) ∷ (codes "sha256", pkg.sha256) ∷ [],
          )
          ∷ [])
unfolding changes_file_hashes f2hs get put add_value set_value
changes_file_hashes-new_paragraph pkg name f dist date d g =
    rw
      (
        add_records_line (codes "md5") (files_line pkg f d) pkg.md5 f pkg.size
            (describe-files_line pkg name f d g) g.md5 g.size,
        add_records_line (codes "sha1") (checksum_line pkg.sha1 pkg.size f) pkg.sha1 f pkg.size
            (describe-checksum_line pkg.sha1 f pkg.size g.sha1 g.file) g.sha1 g.size,
        counts_lem (f, pkg.size) ((codes "md5", pkg.md5) ∷ []) ((codes "sha1", pkg.sha1) ∷ []),
        add_records_line (codes "sha256") (checksum_line pkg.sha256 pkg.size f) pkg.sha256 f
            pkg.size (describe-checksum_line pkg.sha256 f pkg.size g.sha256 g.file) g.sha256 g.size,
        counts_lem (f, pkg.size) ((codes "md5", pkg.md5) ∷ []) ((codes "sha256", pkg.sha256) ∷ []),
        join_lem (f, pkg.size) pkg.md5 pkg.sha1 pkg.sha256,
      )
      refl

pub parse_debian_changes-lone_file :
    (parse_date : Bytes → Option ℕ) (pkg : LonePackage) (name f dist date : Bytes) (now read : ℕ)
    (d : Described)
    → IsListable pkg name f d
    → parse_date date ≡ some read
    → parse_debian_changes parse_date (some (lone_file pkg name f dist now date d).control)
      ≡ parsed (record (lone_file pkg name f dist now date d) {
        date = read;
        architectures = split 32 d.arch;
      })
unfolding parse_debian_changes require get_value check get put add_value set_value
parse_debian_changes-lone_file parse_date pkg name f dist date now read d g t =
    rw
      (
        changes_file_hashes-new_paragraph pkg name f dist date d g,
        t,
        parse-to_string d.version g.version,
        cut_lacking 40 name g.no_parenthesis,
        split_lacking 32 name g.no_space,
      )
      refl

-- What LoneChanges makes of a package that answers.
pub lone_changes-lone_file :
    (pkg : LonePackage) (name f dist date : Bytes) (now : ℕ) (maintainer : Bytes)
    (version : DebVersion) (para : Paragraph) (d : Described)
    → pkg.name ≡ gives name
    → pkg.maintainer ≡ some maintainer
    → pkg.version ≡ some version
    → pkg.control ≡ some para
    → described maintainer version para ≡ parsed d
    → lone_changes pkg f dist now date ≡ parsed (lone_file pkg name f dist now date d)
unfolding lone_changes
lone_changes-lone_file pkg name f dist date now maintainer version para d n m v p e =
    rw (n, m, v, p) (ap (λ r. r >>= λ e. parsed (lone_file pkg name f dist now date e)) e)

-- For a package that answers for its name, maintainer and version and has a control file with the four fields,
-- LoneChanges gives a changes file,
-- and what ParseDebianChanges makes of its control file is the same changes file, but for the time, which is the one read
-- from the text of the time, and the architectures, which LoneChanges leaves out.
pub parse_debian_changes-lone_changes :
    (parse_date : Bytes → Option ℕ) (pkg : LonePackage) (name f dist date : Bytes) (now read : ℕ)
    (maintainer : Bytes) (version : DebVersion) (para : Paragraph) (d : Described)
    → pkg.name ≡ gives name
    → pkg.maintainer ≡ some maintainer
    → pkg.version ≡ some version
    → pkg.control ≡ some para
    → described maintainer version para ≡ parsed d
    → IsListable pkg name f d
    → parse_date date ≡ some read
    → (c : ChangesFile) × ((lone_changes pkg f dist now date ≡ parsed c)
        × (parse_debian_changes parse_date (some c.control)
            ≡ parsed (record c { date = read; architectures = split 32 d.arch })))
parse_debian_changes-lone_changes parse_date pkg name f dist date now read maintainer version para d
      n m v p e g t =
    (
      lone_file pkg name f dist now date d,
      (
        lone_changes-lone_file pkg name f dist date now maintainer version para d n m v p e,
        parse_debian_changes-lone_file parse_date pkg name f dist date now read d g t,
      ),
    )
