-- ===== src/Changes/Lone/Text.antt =====
-- changes.go, upload_session.go: the text that the store keeps for a lone package is read as its changes file.
use godinstall.Prelude.{ℕ, ◌≡◌, refl, ◌∙◌, ap, [], ◌∷◌, Option, some, Bytes, bytes_Eq}
use godinstall.Deb.{gives}
use godinstall.DebVersion.{DebVersion}
use godinstall.Strings.{split}
use godinstall.Control.{Paragraph, parse_control}
use godinstall.Control.RoundTrip.{AreFields}
use godinstall.Changes.{ChangesFile, parsed}
use godinstall.Changes.Parse.{parse_debian_changes}
use godinstall.Changes.Format.{format_changes_file}
use godinstall.Changes.Format.RoundTrip.{
  with_control, unsigned, parse_debian_changes-format_changes_file,
}
use godinstall.Changes.Lone.{
  LonePackage, Described, new_paragraph, lone_file, described, lone_changes,
}
use godinstall.Changes.Lone.RoundTrip.{
  IsListable, lone_changes-lone_file, parse_debian_changes-lone_file,
}

-- For a package that answers for its name, maintainer and version and has a control file with the four fields,
-- and where the paragraph that is made has fields that can be written, LoneChanges gives a changes file and
-- FormatChangesFile its text. ParseDebianControl reads one paragraph from the text, of which ParseDebianChanges makes
-- the same changes file again, but for the control file, which is the one read, the time, which is the one read
-- from the text of the time, and the architectures, which LoneChanges leaves out.
pub parse_debian_changes-format-lone_changes :
    (parse_date : Bytes → Option ℕ) (pkg : LonePackage) (name f dist date : Bytes) (now read : ℕ)
    (maintainer : Bytes) (version : DebVersion) (para : Paragraph) (d : Described)
    → pkg.name ≡ gives name
    → pkg.maintainer ≡ some maintainer
    → pkg.version ≡ some version
    → pkg.control ≡ some para
    → described maintainer version para ≡ parsed d
    → IsListable pkg name f d
    → parse_date date ≡ some read
    → AreFields [] (new_paragraph pkg name f dist date d)
    → (c : ChangesFile) × ((lone_changes pkg f dist now date ≡ parsed c)
        × ((text : Bytes) × ((format_changes_file c ≡ some text)
              × ((p : Paragraph) × ((parse_control text ≡ some (p ∷ []))
                    × (parse_debian_changes parse_date (some (unsigned p))
                        ≡ parsed (record c {
                          control = unsigned p;
                          date = read;
                          architectures = split 32 d.arch;
                        })))))))
parse_debian_changes-format-lone_changes parse_date pkg name f dist date now read maintainer version
      para d n m v k e g t h =
    let (text, (w, (p, (r, same)))) =
      parse_debian_changes-format_changes_file parse_date (lone_file pkg name f dist now date d)
        (new_paragraph pkg name f dist date d) refl h in
    (
      lone_file pkg name f dist now date d,
      (
        lone_changes-lone_file pkg name f dist date now maintainer version para d n m v k e,
        (
          text,
          (
            w,
            (
              p,
              (
                r,
                same
                    ∙ ap (with_control (unsigned p)) (
                        parse_debian_changes-lone_file parse_date pkg name f dist date now read d g
                          t),
              ),
            ),
          ),
        ),
      ),
    )
