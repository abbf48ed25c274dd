-- ===== src/Upload.antt =====
-- upload_session.go: the state of an upload session, and the errors of adding a file to it.
pub mod Monad
pub mod AddFile
pub mod Handler
use godinstall.Prelude.{
  ℕ, Bool, true, false, List, [], ◌∷◌, Option, none, some, Bytes, bytes_Eq, ℤ, pos, if◌then◌else◌,
}
use godinstall.Control.{Paragraph, ControlFile}
use godinstall.Changes.{ChangesFile}
use godinstall.Release.Index.{StoreId}
use godinstall.Release.Record.{ReleaseConfig}
use godinstall.Deb.{Query, PackageInfo}
use godinstall.Release.Entry.{UploadFile}

-- `UploadSession`, without its identifiers, channels and temporary directory. `Expecting` is a map by the
-- names of the files; `changes` is `none` while it is nil.
pub record Session : Type 0 where
  pub release_name : Bytes
  pub config : ReleaseConfig
  pub dir : Bytes
  pub expecting : List (Bytes × UploadFile)
  pub lone_deb : Bool
  pub complete : Bool
  pub changes : Option ChangesFile
  pub changes_id : StoreId

-- What a request to add a file brings: the name, and the bytes that its reader gives.
pub record Incoming : Type 0 where
  pub name : Bytes
  pub content : Bytes

-- One for each error that `doAddFile` returns, in the order of the code.
pub data Error : Type 0 where
  not_in_upload_set already_uploaded not_in_hashes : Error
  store_failed no_pubring no_deb_name no_changes no_control control_failed not_verified : Error
  bad_dsc hash_mismatch link_failed : Error

-- What a session uses of the rest of the program: the store, whose state is `S`, the public keys of the
-- release, the reader of packages and of control files, the hook, and the hash functions.
pub record World (S : Type 0) : Type 0 where
  pub put : S → Bytes → Option (StoreId × S)
  pub add_control : S → ControlFile → Option (StoreId × S)
  pub link : S → StoreId → Bytes → Option S
  pub pub_ring : Bool
  pub read_package : Bytes → PackageInfo
  pub lone_changes : PackageInfo → Bytes → Bytes → Query ChangesFile
  pub format_changes : ChangesFile → Bytes
  pub parse_control_file : Bytes → Query ControlFile
  pub run_hook : Bytes → Option Bytes
  pub md5 : Bytes → Bytes
  pub sha1 : Bytes → Bytes
  pub sha256 : Bytes → Bytes
