-- ===== src/Changes/Format/RoundTrip.antt =====
-- changes.go: ParseDebianChanges reads the text that FormatChangesFile writes.
use godinstall.Prelude.{
  ℕ, ◌≡◌, refl, ◌∙◌, ap, false, List, [], ◌∷◌, ◌++◌, Option, some, Bytes, bytes_Eq, codes,
}
use godinstall.Strings.{cut}
use godinstall.DebVersion.{parse}
use godinstall.SafeMap.{get, check}
use godinstall.Control.{Paragraph, ControlFile, get_value, parse_control}
use godinstall.Control.RoundTrip.{AreFields}
use godinstall.Control.Write.{contains, write_paragraphs}
use godinstall.Control.Write.Names.{Distinct}
use godinstall.Control.Write.Ordered.{parse-write_paragraphs}
use godinstall.Changes.{ChangesFile, Parsed, parsed, wrong, ◌>>=◌, or_wrong, bad_date}
use godinstall.Changes.Hashes.{f2hs, changes_file_hashes}
use godinstall.Changes.Parse.{
  require, required_fields, value, source_of, or_no_version, parse_debian_changes, of_paragraph,
}
use godinstall.Changes.Format.{start_fields, end_fields, format_changes_file}

-- The same changes file, of another control file.
abbrev pub with_control : ControlFile → Parsed ChangesFile → Parsed ChangesFile
with_control file (wrong e) = wrong e
with_control file (parsed c) = parsed (record c { control = file })

require_same :
    (p q : Paragraph) (ks : List Bytes)
    → ((k : Bytes) → get p k ≡ get q k)
    → require p ks ≡ require q ks
unfolding require check
require_same p q [] g = refl
require_same p q (k ∷ ks) g = rw (g k, require_same p q ks g) refl

hashes_same :
    (p q : Paragraph)
    → ((k : Bytes) → get p k ≡ get q k)
    → changes_file_hashes p ≡ changes_file_hashes q
unfolding changes_file_hashes f2hs
hashes_same p q g =
    rw (g (codes "Files"), g (codes "Checksums-Sha1"), g (codes "Checksums-Sha256")) refl

then_same :
    {A : Type 0} (file : ControlFile) (m : Parsed A) (f h : A → Parsed ChangesFile)
    → ((a : A) → f a ≡ with_control file (h a))
    → m >>= f ≡ with_control file (m >>= h)
then_same file (parsed a) f h e = e a
then_same file (wrong x) f h e = refl

of_paragraph_same :
    (parse_date : Bytes → Option ℕ) (file other : ControlFile) (p q : Paragraph)
    → ((k : Bytes) → get p k ≡ get q k)
    → of_paragraph parse_date other p ≡ with_control other (of_paragraph parse_date file q)
unfolding get_value
of_paragraph_same parse_date file other p q g =
    rw
      (
        require_same p q required_fields g,
        hashes_same p q g,
        g (codes "Date"),
        g (codes "Architecture"),
        g (codes "Binary"),
        g (codes "Version"),
        g (codes "Source"),
      )
      (then_same other (require q required_fields) _ _ (λ _.
        then_same other (changes_file_hashes q) _ _ (λ files.
          then_same other (value q (codes "Date")) _ _ (λ date_str.
            then_same other (or_wrong bad_date (parse_date date_str)) _ _ (λ date.
              then_same other (value q (codes "Architecture")) _ _ (λ archs_str.
                then_same other (value q (codes "Binary")) _ _ (λ binary_str.
                  then_same other (value q (codes "Version")) _ _ (λ version_str.
                    then_same other (value q (codes "Source")) _ _ (λ source_str.
                      then_same other
                        (source_of source_str (or_no_version (parse version_str))
                          (cut 40 source_str))
                        _ _ (λ s. refl))))))))))

-- What ParseDebianControl makes of the text of one paragraph without a signature.
abbrev pub unsigned : Paragraph → ControlFile
unsigned p = record {
  data_paragraphs = p ∷ [];
  signed = false;
  signature_verified = false;
  signed_by = [];
}

-- FormatChangesFile writes the paragraph of a changes file that can be written (as in a control file), and
-- ParseDebianControl reads one paragraph from the text. ParseDebianChanges makes the same of it as
-- of the paragraph that was written, be it an error or a changes file, which then has the new control file.
pub parse_debian_changes-format_changes_file :
    (parse_date : Bytes → Option ℕ) (c : ChangesFile) (para : Paragraph)
    → c.control.data_paragraphs ≡ para ∷ []
    → AreFields [] para
    → (text : Bytes) × ((format_changes_file c ≡ some text)
        × ((p : Paragraph) × ((parse_control text ≡ some (p ∷ []))
              × (parse_debian_changes parse_date (some (unsigned p))
                  ≡ with_control
                      (unsigned p)
                      (parse_debian_changes parse_date (some (unsigned para)))))))
unfolding format_changes_file parse_debian_changes Distinct contains
parse_debian_changes-format_changes_file parse_date c para e h =
    let (text, (w, (p, (r, g)))) =
      parse-write_paragraphs start_fields end_fields para h fields-Distinct in
    (
      text,
      (
        ap (write_paragraphs start_fields end_fields) e ∙ w,
        (p, (r, of_paragraph_same parse_date (unsigned para) (unsigned p) p para g)),
      ),
    )
  where
    fields-Distinct : Distinct (start_fields ++ end_fields)
    fields-Distinct = (refl, (refl, (refl, (refl, (refl, (refl, (refl, tt)))))))
