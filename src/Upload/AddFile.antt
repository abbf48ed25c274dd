-- ===== src/Upload/AddFile.antt =====
-- upload_session.go, doAddFile: a file of the upload is stored, checked and put in its slot.
pub mod Checked
pub mod Full
use godinstall.Prelude.{
  ℕ, Bool, true, false, not, ◌&&◌, ◌||◌, List, [], ◌∷◌, ◌++◌, Option, none, some, Bytes, bytes_beq,
  bytes_Eq, codes, ℤ, eqb_ℤ, pos, length, if◌then◌else◌,
}
use godinstall.Hex.{encode}
use godinstall.Strconv.{format_int}
use godinstall.SafeMap.{get, put}
use godinstall.Control.{Paragraph, ControlFile, set_value}
use godinstall.Changes.{FileHashes, HashSet, or_nil, hash_of, ChangesFile}
use godinstall.Release.Index.{StoreId}
use godinstall.Deb.{Query, gives, fails, panics, PackageInfo}
use godinstall.Release.Entry.{UploadFile, has_suffix}
use godinstall.Upload.{
  Session, Incoming, Error, not_in_upload_set, already_uploaded, not_in_hashes, store_failed,
  no_pubring, no_deb_name, no_changes, no_control, control_failed, not_verified, bad_dsc,
  hash_mismatch, link_failed, World,
}
use godinstall.Upload.Monad.{
  Action, ◌>>=◌, ◌>>◌, pure, raise, panic, guard, or_raise, ask, or_panic, session, modify,
  in_store,
}

-- The first index with a name, in the order of the map.
unfoldable pub find_index : FileHashes → Bytes → Option (Bytes × ℤ)
find_index [] name = none
find_index ((index, hashes) ∷ more) name =
    if bytes_beq name index.0 then some index else find_index more name

-- The hashes under an index; a missing one is the nil map.
unfoldable pub hashes_at : FileHashes → Bytes × ℤ → HashSet
hashes_at [] index = []
hashes_at ((j, hashes) ∷ more) index =
    if bytes_beq j.0 index.0 && eqb_ℤ j.1 index.1 then hashes else hashes_at more index

abbrev pub changed :
    List (Bytes × UploadFile)
    → Bytes
    → Option UploadFile
    → (UploadFile → UploadFile)
    → List (Bytes × UploadFile)
changed files name none f = files
changed files name (some uf) f = put files name (f uf)

-- The file as it comes in, before anything is known of it.
abbrev pub fresh : Bytes → UploadFile
fresh name = record {
  name = name;
  size = pos 0;
  signed_by = [];
  pkg = none;
  store_id = [];
  control_id = [];
  received = false;
  hook_error = none;
}

-- The result of a link, which is no value.
abbrev pub linked : {S : Type 0} → Option S → Option (Unit {0} × S)
linked none = none
linked (some t) = some (tt, t)

module _ {S : Type 0} (w : World S) where
  -- A write through the pointer `uf` into the map; `none` is the nil pointer.
  unfoldable pub change_file : Option Bytes → (UploadFile → UploadFile) → Action S (Unit {0})
  change_file none f = panic
  change_file (some name) f =
      modify (λ x. record x { expecting = changed x.expecting name (get x.expecting name) f })

  -- The checks before the upload: the file is expected and not there yet.
  abbrev pub free_slot : Session → Incoming → UploadFile → Action S (Option Bytes × (Bytes × ℤ))
  free_slot x u uf = do
    guard (not uf.received) already_uploaded
    changes ← or_panic x.changes
    index ← or_raise (find_index changes.file_hashes u.name) not_in_hashes
    pure (some u.name, index)

  unfoldable pub find_slot : Incoming → Action S (Option Bytes × (Bytes × ℤ))
  find_slot u = do
    x ← session
    if x.lone_deb
        then pure (none, ([], pos 0))
        else or_raise (get x.expecting u.name) not_in_upload_set >>= free_slot x u

  -- What `s.changes, err = ...` puts into `s.changes`; an error comes with nil.
  abbrev pub assigned : Query ChangesFile → Action S (Option ChangesFile)
  assigned (gives c) = pure (some c)
  assigned fails = pure none
  assigned panics = panic

  unfoldable pub set_changes : Incoming → PackageInfo → Bytes → Action S (Option Bytes)
  set_changes u pkg dist = do
    made ← assigned (w.lone_changes pkg u.name dist)
    modify (λ y. record y { changes = made })
    changes ← or_raise made no_changes
    id ← in_store (λ t. w.put t (w.format_changes changes)) no_changes
    modify (λ y. record y { changes_id = id; expecting = put y.expecting u.name (fresh u.name) })
    pure (some u.name)

  -- A lone package has its changes file made for it, and gets the slot it lacks.
  unfoldable pub lone_slot : Incoming → PackageInfo → Option Bytes → Action S (Option Bytes)
  lone_slot u pkg uf = do
    x ← session
    if not x.lone_deb then pure uf else set_changes u pkg x.release_name

  -- The control file goes into the store, and what comes of it into the slot, before the error is looked at.
  abbrev pub keep_control : ControlFile → S → Option (Option StoreId × S)
  keep_control file t = elim (w.add_control t file) [
    | none ↦ some (none, t)
    | some (id, t') ↦ some (some id, t')
  ]

  unfoldable pub store_control : Option Bytes → ControlFile → Action S (Unit {0})
  store_control uf file = do
    id ← in_store (keep_control file) control_failed
    change_file uf (λ f. record f { control_id = or_nil id })
    stored ← or_raise id control_failed
    pure tt

  -- `ctrl.Data[0]` with the size and the hashes of the package.
  abbrev pub with_hashes : Bytes → Paragraph → Paragraph
  with_hashes content p =
      set_value
        (set_value
          (set_value (set_value p (codes "Size") (format_int (pos (length content))))
            (codes "MD5sum") (encode (w.md5 content)))
          (codes "SHA1") (encode (w.sha1 content)))
        (codes "SHA256") (encode (w.sha256 content))

  unfoldable pub verify_deb : Option Bytes → PackageInfo → Action S (Unit {0})
  verify_deb uf pkg = do
    x ← session
    if x.config.verify_debs && (not x.config.verify_changes_sufficient || x.lone_deb)
        then if pkg.is_signed && pkg.is_verified
          then (or_panic pkg.signers >>= λ signers.
              change_file uf (λ f. record f { signed_by = f.signed_by ++ signers }))
          else raise not_verified
        else pure tt

  unfoldable pub add_deb : Incoming → Option Bytes → Action S (Option Bytes)
  add_deb u uf = do
    guard w.pub_ring no_pubring
    let pkg = w.read_package u.content
    name ← ask pkg.name no_deb_name
    slot ← lone_slot u pkg uf
    change_file slot (λ f. record f { pkg = some pkg })
    ctrl ← ask pkg.control no_control
    store_control slot (record {
      data_paragraphs = with_hashes u.content ctrl ∷ [];
      signed = false;
      signature_verified = false;
      signed_by = [];
    })
    verify_deb slot pkg
    pure slot

  unfoldable pub add_dsc : Incoming → Option Bytes → Action S (Option Bytes)
  add_dsc u uf = do
    guard w.pub_ring no_pubring
    ctrl ← ask (w.parse_control_file u.content) bad_dsc
    store_control uf ctrl
    pure uf

  abbrev pub hashes_match : HashSet → Bytes → Bool
  hashes_match hashes content =
      bytes_beq (hash_of hashes (codes "md5")) (w.md5 content)
      && (bytes_beq (hash_of hashes (codes "sha1")) (w.sha1 content)
          && bytes_beq (hash_of hashes (codes "sha256")) (w.sha256 content))

  unfoldable pub check_hashes : Incoming → Bytes × ℤ → Action S (Unit {0})
  check_hashes u index = do
    x ← session
    if x.lone_deb
        then pure tt
        else or_panic x.changes >>= λ changes.
            guard (hashes_match (hashes_at changes.file_hashes index) u.content) hash_mismatch

  -- The link, the hook, and the mark that the file is there. An error of the hook is kept in the slot,
  -- and the file counts as received all the same.
  unfoldable pub receive : Incoming → StoreId → Option Bytes → Action S (Unit {0})
  receive u id uf = do
    x ← session
    let path = x.dir ++ (codes "/" ++ u.name)
    in_store (λ t. linked (w.link t id path)) link_failed
    change_file uf (λ f. record f {
      store_id = id;
      size = pos (length u.content);
      hook_error = w.run_hook path;
      received = true;
    })

  abbrev pub add_by_kind : Incoming → Option Bytes → Action S (Option Bytes)
  add_by_kind u uf =
      if has_suffix u.name (codes ".deb")
      then add_deb u uf
      else if has_suffix u.name (codes ".dsc")
      then add_dsc u uf
      else pure uf

  unfoldable pub do_add_file : Incoming → Action S (Unit {0})
  unfolding find_slot add_deb add_dsc check_hashes receive
  do_add_file u = do
    slot ← find_slot u
    id ← in_store (λ t. w.put t u.content) store_failed
    uf ← add_by_kind u slot.0
    check_hashes u slot.1
    receive u id uf
