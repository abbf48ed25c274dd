-- ===== src/Release/Entry/Total.antt =====
-- releaseindex.go, NewReleaseIndexEntry: every upload of good packages has an entry.
use godinstall.Prelude.{
  ◌≡◌, refl, ◌∙◌, ap, subst, inl, inr, Bool, true, false, List, [], ◌∷◌, Bytes, All, Bool-cases,
  if◌then◌else◌,
}
use godinstall.DebVersion.{DebVersion}
use godinstall.Release.Index.{StoreId, Entry}
use godinstall.Release.Entry.{
  UploadFile, is_deb, is_dsc, Parts, Built, built, failed, with_name, with_package, add_file,
  add_files, entry_of, new_release_index_entry,
}
use godinstall.Release.Entry.Files.{
  debs, IsGood, IsEntryOf, with_deb, with_other, go_on, add_files-Adds, parts-IsEntryOf,
}

good_deb :
    (bv : DebVersion) (p : Parts) (f : UploadFile)
    → IsGood bv f
    → (q : Parts) × (with_package bv p f f.pkg ≡ built q)
good_deb bv p f (pkg, (n, (e, (a, v)))) = (
  with_deb p f n,
  ap (with_package bv p f) e
      ∙ ap (with_name bv p f) a
      ∙ ap (λ b. if b then built (with_deb p f n) else failed) v,
)

add_files-built :
    (bv : DebVersion) (p : Parts) (fs : List UploadFile)
    → All (IsGood bv) (debs fs)
    → (q : Parts) × (add_files bv p fs ≡ built q)
unfolding add_files add_file
add_files-built bv p [] h = (p, refl)
add_files-built bv p (f ∷ fs) h = elim (Bool-cases (is_deb f)) [
  | inl d ↦
      (let good = subst (λ b. All (IsGood bv) (if b then f ∷ debs fs else debs fs)) d h in
        let one = good_deb bv p f good.0 in
        let more = add_files-built bv one.0 fs good.1 in
        (
          more.0,
          ap (λ b. go_on bv fs (if b then with_package bv p f f.pkg else source)) d
              ∙ ap (go_on bv fs) one.1
              ∙ more.1,
        ))
  | inr d ↦
      (let rest = subst (λ b. All (IsGood bv) (if b then f ∷ debs fs else debs fs)) d h in
        let more =
          add_files-built bv (with_other p f (if is_dsc f then f.control_id else p.src_control)) fs
            rest in
        (
          more.0,
          ap (λ b. go_on bv fs (if b then with_package bv p f f.pkg else source)) d
              ∙ ap (go_on bv fs) (flip (is_dsc f))
              ∙ more.1,
        ))
]
  where
    source : Built Parts
    source =
        if is_dsc f
        then built (with_other p f f.control_id)
        else built (with_other p f p.src_control)

    flip :
        (b : Bool)
        → (if b then built (with_other p f f.control_id) else built (with_other p f p.src_control))
          ≡ built (with_other p f (if b then f.control_id else p.src_control))
    flip true = refl
    flip false = refl

-- NewReleaseIndexEntry builds an entry if every package of the upload answers for its name, version and
-- architecture, with the version of the changes file, and only then. The source item has all other files, in order, and there is
-- one binary item for each package, in order, with that file alone and with that version.
pub new_release_index_entry_lem :
    (source : Bytes) (sv bv : DebVersion) (changes : StoreId) (us : List UploadFile)
    → (All (IsGood bv) (debs us)
        → (e : Entry) × (new_release_index_entry source sv bv changes us ≡ built e))
      × ((e : Entry)
          → new_release_index_entry source sv bv changes us ≡ built e
          → IsEntryOf bv us e)
unfolding new_release_index_entry
new_release_index_entry_lem source sv bv changes us = (
  λ h.
      (let parts =
          add_files-built bv (record { src_files = []; src_control = []; bin_items = [] }) us h in
        (_, ap (entry_of source sv changes) parts.1)),
  λ e h.
      parts-IsEntryOf source sv bv changes us
        (add_files bv (record { src_files = []; src_control = []; bin_items = [] }) us) e
        (λ q g.
          add_files-Adds bv (record { src_files = []; src_control = []; bin_items = [] }) q us g)
        h,
)
