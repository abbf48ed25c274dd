-- ===== src/Release/Entry.antt =====
-- releaseindex.go, NewReleaseIndexEntry: the files of a finished upload as an entry of the index.
pub mod Files
pub mod Total
mod Tests
use godinstall.Prelude.{
  ℕ, Bool, true, false, ◌&&◌, ◌||◌, List, [], ◌∷◌, ◌++◌, Option, none, some, Bytes, bytes_beq,
  codes, ℤ, eqb_ℤ, if◌then◌else◌,
}
use godinstall.DebVersion.{DebVersion}
use godinstall.Deb.{Query, gives, fails, panics, PackageInfo}
use godinstall.Release.Index.{StoreId, ItemFile, Item, Entry}

-- `UploadFile` (upload_session.go); `pkg` is `none` while it is nil, and
-- `hook_error` the error of the hook's result.
pub record UploadFile : Type 0 where
  pub name : Bytes
  pub size : ℤ
  pub signed_by : List Bytes
  pub pkg : Option PackageInfo
  pub store_id : StoreId
  pub control_id : StoreId
  pub received : Bool
  pub hook_error : Option Bytes

-- `strings.HasSuffix`.
unfoldable pub has_suffix : Bytes → Bytes → Bool
has_suffix [] suffix = bytes_beq [] suffix
has_suffix (c ∷ s) suffix = bytes_beq (c ∷ s) suffix || has_suffix s suffix

abbrev pub is_deb : UploadFile → Bool
is_deb f = has_suffix f.name (codes ".deb")

abbrev pub is_dsc : UploadFile → Bool
is_dsc f = has_suffix f.name (codes ".dsc")

-- `==` of two versions.
abbrev pub same_version : DebVersion → DebVersion → Bool
same_version a b =
    eqb_ℤ a.epoch b.epoch && (bytes_beq a.version b.version && bytes_beq a.revision b.revision)

-- The item file of an uploaded file; its hashes are not set here.
abbrev pub item_file : UploadFile → ItemFile
item_file f = record {
  name = f.name;
  store_id = f.store_id;
  size = f.size;
  md5 = [];
  sha1 = [];
  sha256 = [];
  signed_by = f.signed_by;
}

-- What the loop asks of a package, in the order of the code.
pub record Named : Type 0 where
  pub name : Bytes
  pub version : DebVersion
  pub architecture : Bytes

abbrev pub named : Query Bytes → Option DebVersion → Option Bytes → Query Named
named fails version architecture = fails
named panics version architecture = panics
named (gives name) none architecture = panics
named (gives name) (some version) none = panics
named (gives name) (some version) (some architecture) =
    gives (record { name = name; version = version; architecture = architecture })

abbrev pub binary_item : UploadFile → Named → Item
binary_item f n = record {
  name = n.name;
  version = n.version;
  architecture = n.architecture;
  component = codes "main";
  control_id = f.control_id;
  files = item_file f ∷ [];
}

-- The variables of the loop.
pub record Parts : Type 0 where
  pub src_files : List ItemFile
  pub src_control : StoreId
  pub bin_items : List Item

-- `failed` is an error result, `fault` a panic: at a nil package, or in what it answers.
pub data Built {ℓ} (A : Type ℓ) : Type ℓ where
  built : A → Built A
  failed fault : Built A

module _ (bin_version : DebVersion) where
  abbrev pub with_name : Parts → UploadFile → Query Named → Built Parts
  with_name p f fails = failed
  with_name p f panics = fault
  with_name p f (gives n) =
      if same_version n.version bin_version
      then built (record p { bin_items = p.bin_items ++ (binary_item f n ∷ []) })
      else failed

  abbrev pub with_package : Parts → UploadFile → Option PackageInfo → Built Parts
  with_package p f none = fault
  with_package p f (some pkg) = with_name p f (named pkg.name pkg.version pkg.architecture)

  -- One file.
  pub add_file : Parts → UploadFile → Built Parts
  unfolding has_suffix
  add_file p f =
      if is_deb f
      then with_package p f f.pkg
      else if is_dsc f
      then built
          (record p { src_files = p.src_files ++ (item_file f ∷ []); src_control = f.control_id })
      else built (record p { src_files = p.src_files ++ (item_file f ∷ []) })

  abbrev pub then_files : (Parts → Built Parts) → Built Parts → Built Parts
  then_files rest (built p) = rest p
  then_files rest failed = failed
  then_files rest fault = fault

  -- The loop over `u.Expecting`, whose order is any.
  pub add_files : Parts → List UploadFile → Built Parts
  unfolding add_file
  add_files p [] = built p
  add_files p (f ∷ fs) = then_files (λ q. add_files q fs) (add_file p f)

abbrev pub entry_of : Bytes → DebVersion → StoreId → Built Parts → Built Entry
entry_of source source_version changes_id (built p) = built (record {
  source_item = record {
    name = source;
    version = source_version;
    architecture = codes "source";
    component = codes "main";
    control_id = p.src_control;
    files = p.src_files;
  };
  binary_items = p.bin_items;
  changes_id = changes_id;
})
entry_of source source_version changes_id failed = failed
entry_of source source_version changes_id fault = fault

-- `NewReleaseIndexEntry`, of what the session holds: the source and versions of the changes file, its id
-- and the expected files.
unfoldable pub new_release_index_entry :
    Bytes → DebVersion → DebVersion → StoreId → List UploadFile → Built Entry
unfolding add_files
new_release_index_entry source source_version bin_version changes_id expecting =
    entry_of source source_version changes_id (
      add_files bin_version (record { src_files = []; src_control = []; bin_items = [] }) expecting)
