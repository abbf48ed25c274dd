-- ===== src/Release/Entry/Files.antt =====
-- releaseindex.go, NewReleaseIndexEntry: where each file of the upload goes, and when there is an entry.
use godinstall.Prelude.{
  ◌≡◌, refl, sym, ◌∙◌, ap, subst, inl, inr, Bool, true, false, List, [], ◌∷◌, ◌++◌, Option, none,
  some, Bytes, codes, All, All-append, map, append_assoc, append-nil, Bool-cases, if◌then◌else◌,
}
use godinstall.DebVersion.{DebVersion}
use godinstall.Deb.{Query, gives, fails, panics, PackageInfo}
use godinstall.Release.Index.{StoreId, Item, Entry}
use godinstall.Release.Entry.{
  UploadFile, Named, named, is_deb, is_dsc, same_version, item_file, binary_item, Parts, Built,
  built, failed, fault, with_name, with_package, add_file, then_files, add_files, entry_of,
}

-- The files that are packages, and the others.
abbrev pub debs : List UploadFile → List UploadFile
debs [] = []
debs (f ∷ fs) = if is_deb f then f ∷ debs fs else debs fs

abbrev pub others : List UploadFile → List UploadFile
others [] = []
others (f ∷ fs) = if is_deb f then others fs else f ∷ others fs

-- A package that answers for its name, version and architecture, with the version of the changes file.
abbrev pub IsGood : DebVersion → UploadFile → Type 0
IsGood bv f =
    (pkg : PackageInfo) × ((n : Named) × ((f.pkg ≡ some pkg)
        × ((named pkg.name pkg.version pkg.architecture ≡ gives n)
            × (same_version n.version bv ≡ true))))

-- What a part of the loop adds: the files of the source item and of the binary items, each in order.
abbrev pub Adds : DebVersion → Parts → Parts → List UploadFile → Type 0
Adds bv p q fs =
    (q.src_files ≡ p.src_files ++ map item_file (others fs))
    × (map (λ i. i.files) q.bin_items
        ≡ map (λ i. i.files) p.bin_items ++ map (λ f. item_file f ∷ []) (debs fs))
    × (All (λ i. same_version i.version bv ≡ true) p.bin_items
        → All (λ i. same_version i.version bv ≡ true) q.bin_items)
    × All (IsGood bv) (debs fs)

map-append :
    (xs ys : List Item)
    → map (λ i. i.files) (xs ++ ys) ≡ map (λ i. i.files) xs ++ map (λ i. i.files) ys
map-append [] ys = refl
map-append (x ∷ xs) ys = ap (λ l. x.files ∷ l) (map-append xs ys)

abbrev pub with_deb : Parts → UploadFile → Named → Parts
with_deb p f n = record p { bin_items = p.bin_items ++ (binary_item f n ∷ []) }

abbrev pub with_other : Parts → UploadFile → StoreId → Parts
with_other p f control = record p {
  src_files = p.src_files ++ (item_file f ∷ []);
  src_control = control;
}

deb-Adds :
    (bv : DebVersion) (p q : Parts) (f : UploadFile) (fs : List UploadFile) (pkg : PackageInfo)
    (n : Named)
    → is_deb f ≡ true
    → f.pkg ≡ some pkg
    → named pkg.name pkg.version pkg.architecture ≡ gives n
    → same_version n.version bv ≡ true
    → Adds bv (with_deb p f n) q fs
    → Adds bv p q (f ∷ fs)
deb-Adds bv p q f fs pkg n d e a v w = rw d (
  w.0,
  (w.1
      ∙ ap (λ l. l ++ map (λ g. item_file g ∷ []) (debs fs))
          (map-append p.bin_items (binary_item f n ∷ []))
      ∙ append_assoc (map (λ i. i.files) p.bin_items) ((item_file f ∷ []) ∷ [])
          (map (λ g. item_file g ∷ []) (debs fs))),
  (λ h. w.2 (
      All-append (λ i. same_version i.version bv ≡ true) p.bin_items (binary_item f n ∷ []) h
        (v, tt))),
  ((pkg, (n, (e, (a, v)))), w.3),
)

other-Adds :
    (bv : DebVersion) (p q : Parts) (f : UploadFile) (fs : List UploadFile) (control : StoreId)
    → is_deb f ≡ false
    → Adds bv (with_other p f control) q fs
    → Adds bv p q (f ∷ fs)
other-Adds bv p q f fs control d w =
    rw d
      (w.0 ∙ append_assoc p.src_files (item_file f ∷ []) (map item_file (others fs)), w.1, w.2, w.3)

abbrev pub go_on : DebVersion → List UploadFile → Built Parts → Built Parts
go_on bv fs r = then_files bv (λ t. add_files bv t fs) r

name-Adds :
    (bv : DebVersion) (p q : Parts) (f : UploadFile) (fs : List UploadFile) (pkg : PackageInfo)
    (o : Query Named)
    → ((r : Parts) → add_files bv r fs ≡ built q → Adds bv r q fs)
    → is_deb f ≡ true
    → f.pkg ≡ some pkg
    → named pkg.name pkg.version pkg.architecture ≡ o
    → go_on bv fs (with_name bv p f o) ≡ built q
    → Adds bv p q (f ∷ fs)
name-Adds bv p q f fs pkg fails later d e a h = cc h
name-Adds bv p q f fs pkg panics later d e a h = cc h
name-Adds bv p q f fs pkg (gives n) later d e a h = elim (Bool-cases (same_version n.version bv)) [
  | inl v ↦ deb-Adds bv p q f fs pkg n d e a v (
      later (with_deb p f n)
        (sym (ap (λ b. go_on bv fs (if b then built (with_deb p f n) else failed)) v) ∙ h))
  | inr v ↦ cc (sym (ap (λ b. go_on bv fs (if b then built (with_deb p f n) else failed)) v) ∙ h)
]

package-Adds :
    (bv : DebVersion) (p q : Parts) (f : UploadFile) (fs : List UploadFile) (o : Option PackageInfo)
    → ((r : Parts) → add_files bv r fs ≡ built q → Adds bv r q fs)
    → is_deb f ≡ true
    → f.pkg ≡ o
    → go_on bv fs (with_package bv p f o) ≡ built q
    → Adds bv p q (f ∷ fs)
package-Adds bv p q f fs none later d e h = cc h
package-Adds bv p q f fs (some pkg) later d e h =
    name-Adds bv p q f fs pkg (named pkg.name pkg.version pkg.architecture) later d e refl h

source-Adds :
    (bv : DebVersion) (p q : Parts) (f : UploadFile) (fs : List UploadFile) (b : Bool)
    → ((r : Parts) → add_files bv r fs ≡ built q → Adds bv r q fs)
    → is_deb f ≡ false
    → go_on bv fs
        (if b then built (with_other p f f.control_id) else built (with_other p f p.src_control))
      ≡ built q
    → Adds bv p q (f ∷ fs)
source-Adds bv p q f fs true later d h =
    other-Adds bv p q f fs f.control_id d (later (with_other p f f.control_id) h)
source-Adds bv p q f fs false later d h =
    other-Adds bv p q f fs p.src_control d (later (with_other p f p.src_control) h)

built_inj {ℓ} : {A : Type ℓ} (p q : A) → built p ≡ built q → p ≡ q
built_inj p q e = cc

pub add_files-Adds :
    (bv : DebVersion) (p q : Parts) (fs : List UploadFile)
    → add_files bv p fs ≡ built q
    → Adds bv p q fs
unfolding add_files add_file
add_files-Adds bv p q [] h =
    subst (λ r. Adds bv p r []) (built_inj p q h)
      (
        sym (append-nil p.src_files),
        sym (append-nil (map (λ i. i.files) p.bin_items)),
        (λ a. a),
        tt,
      )
add_files-Adds bv p q (f ∷ fs) h = elim (Bool-cases (is_deb f)) [
  | inl d ↦
      package-Adds bv p q f fs f.pkg (λ r. add_files-Adds bv r q fs) d refl
        (sym (ap (λ b. go_on bv fs (if b then with_package bv p f f.pkg else source)) d) ∙ h)
  | inr d ↦
      source-Adds bv p q f fs (is_dsc f) (λ r. add_files-Adds bv r q fs) d
        (sym (ap (λ b. go_on bv fs (if b then with_package bv p f f.pkg else source)) d) ∙ h)
]
  where
    source : Built Parts
    source =
        if is_dsc f
        then built (with_other p f f.control_id)
        else built (with_other p f p.src_control)

-- What an upload whose entry is built has in it, and what its entry holds.
abbrev pub IsEntryOf : DebVersion → List UploadFile → Entry → Type 0
IsEntryOf bv us e =
    (e.source_item.files ≡ map item_file (others us))
    × (map (λ i. i.files) e.binary_items ≡ map (λ f. item_file f ∷ []) (debs us))
    × All (λ i. same_version i.version bv ≡ true) e.binary_items
    × All (IsGood bv) (debs us)

pub parts-IsEntryOf :
    (source : Bytes) (sv bv : DebVersion) (changes : StoreId) (us : List UploadFile)
    (b : Built Parts) (e : Entry)
    → ((q : Parts)
        → b ≡ built q
        → Adds bv (record { src_files = []; src_control = []; bin_items = [] }) q us)
    → entry_of source sv changes b ≡ built e
    → IsEntryOf bv us e
parts-IsEntryOf source sv bv changes us failed e adds h = cc h
parts-IsEntryOf source sv bv changes us fault e adds h = cc h
parts-IsEntryOf source sv bv changes us (built q) e adds h =
    subst (λ x. IsEntryOf bv us x) (built_inj (entry q) e h) (w.0, w.1, w.2 tt, w.3)
  where
    w : Adds bv (record { src_files = []; src_control = []; bin_items = [] }) q us
    w = adds q refl

    entry : Parts → Entry
    entry r = record {
      source_item = record {
        name = source;
        version = sv;
        architecture = codes "source";
        component = codes "main";
        control_id = r.src_control;
        files = r.src_files;
      };
      binary_items = r.bin_items;
      changes_id = changes;
    }
