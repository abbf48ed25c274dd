-- ===== src/Release/Entry/Tests.antt =====
-- The entry of an upload of three files.
use godinstall.Prelude.{◌≡◌, refl, true, false, [], ◌∷◌, List, none, some, Bytes, codes, pos, All}
use godinstall.Deb.{gives}
use godinstall.DebVersion.{DebVersion}
use godinstall.Release.Index.{Entry}
use godinstall.Release.Entry.{
  UploadFile, has_suffix, built, failed, add_file, add_files, new_release_index_entry,
}
use godinstall.Release.Entry.Files.{debs, IsGood, IsEntryOf}
use godinstall.Release.Entry.Total.{new_release_index_entry_lem}

abbrev one : DebVersion
one = record { epoch = pos 0; version = codes "1"; revision = [] }

abbrev upload : Bytes → UploadFile
upload name = record {
  name = name;
  size = pos 1;
  signed_by = [];
  pkg = none;
  store_id = [];
  control_id = 7 ∷ [];
  received = true;
  hook_error = none;
}

abbrev deb : UploadFile
deb = record (upload (codes "p.deb")) {
  pkg = some (record {
    name = gives (codes "p");
    version = some one;
    architecture = some (codes "all");
    control = gives [];
    is_signed = false;
    is_verified = false;
    signers = some [];
  });
}

abbrev files : List UploadFile
files = upload (codes "p.dsc") ∷ deb ∷ upload (codes "p.tar.gz") ∷ []

other_version :
    new_release_index_entry
      (codes "p")
      one
      (record { epoch = pos 1; version = codes "1"; revision = [] })
      []
      files
    ≡ failed
unfolding new_release_index_entry add_files add_file has_suffix
other_version = refl

new_release_index_entry_lem_example :
    (All (IsGood one) (debs files)
      → (e : Entry) × (new_release_index_entry (codes "p") one one [] files ≡ built e))
    × ((e : Entry)
        → new_release_index_entry (codes "p") one one [] files ≡ built e
        → IsEntryOf one files e)
new_release_index_entry_lem_example = new_release_index_entry_lem (codes "p") one one [] files
