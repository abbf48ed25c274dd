-- ===== src/Upload/Handler.antt =====
-- upload_session.go: how a session begins, and how its goroutine answers the requests to add a file.
pub mod Sound
pub mod Merges
mod Tests
use godinstall.Prelude.{
  ℕ, Bool, true, false, not, ◌&&◌, List, [], ◌∷◌, Option, none, some, Bytes, bytes_Eq, ℤ, pos,
  if◌then◌else◌,
}
use godinstall.SafeMap.{put}
use godinstall.Control.{ControlFile}
use godinstall.Changes.{FileHashes, HashSet, ChangesFile}
use godinstall.Release.Index.{StoreId}
use godinstall.Release.Record.{ReleaseConfig}
use godinstall.Release.Entry.{UploadFile}
use godinstall.Upload.{Session, Incoming, Error, World}
use godinstall.Upload.Monad.{Outcome, ok, err, fault, Action, ◌>>=◌, ◌>>◌, pure, session, modify}
use godinstall.Upload.AddFile.{fresh, do_add_file}

-- The errors of `NewUploadSession`, in the order of the code.
pub data NewError : Type 0 where
  copy_failed no_keys not_signed not_verified bad_changes : NewError

pub data Started (S : Type 0) : Type 0 where
  started : Session → S → Started S
  refused : NewError → Started S

-- `s.Expecting`: a slot for the name of each file with hashes.
pub expect_files : FileHashes → List (Bytes × UploadFile) → List (Bytes × UploadFile)
expect_files [] slots = slots
expect_files ((index, hashes) ∷ more) slots = expect_files more (put slots index.0 (fresh index.0))

module _ {S : Type 0} (w : World S) (parse_changes : Bytes → ChangesFile × Bool) where
  -- The session as it is before any changes file.
  abbrev pub empty_session : ReleaseConfig → Bytes → Bytes → Bool → Session
  empty_session config suite dir lone = record {
    release_name = suite;
    config = config;
    dir = dir;
    expecting = [];
    lone_deb = lone;
    complete = false;
    changes = none;
    changes_id = [];
  }

  -- The parser gives a changes file and whether it returned no error; the error is looked at last.
  abbrev pub with_parsed : Session → StoreId → ChangesFile × Bool → S → Started S
  with_parsed x id (changes, parsed) t =
      if x.config.verify_changes && not changes.control.signed
      then refused not_signed
      else if x.config.verify_changes && not changes.control.signature_verified
      then refused not_verified
      else if not parsed
      then refused bad_changes
      else started
          (record x {
            changes = some changes;
            changes_id = id;
            expecting = expect_files changes.file_hashes [];
          })
          t

  abbrev pub with_copy : Session → Bytes → Option (StoreId × S) → Started S
  with_copy x content none = refused copy_failed
  with_copy x content (some (id, t)) =
      if w.pub_ring then with_parsed x id (parse_changes content) t else refused no_keys

  -- `NewUploadSession`.
  pub new_upload_session : ReleaseConfig → Bytes → Bytes → Bool → Bytes → S → Started S
  unfolding expect_files
  new_upload_session config suite dir lone content t =
      let x = empty_session config suite dir lone in
      if lone then started x t else with_copy x content (w.put t content)

-- Whether no expected file is missing.
pub all_received : List (Bytes × UploadFile) → Bool
all_received [] = true
all_received ((name, uf) ∷ files) = uf.received && all_received files

-- How the goroutine answers: with the error of the file, that files are missing, or after the merge.
pub data Reply : Type 0 where
  failed : Error → Reply
  waiting merged : Reply

abbrev pub prepend :
    {S : Type 0} → Reply → Option (List Reply × (Session × S)) → Option (List Reply × (Session × S))
prepend r none = none
prepend r (some (rs, s)) = some (r ∷ rs, s)

module _ {S : Type 0} (w : World S) where
  -- After a file was added: the session is complete, and merged, if it was the last.
  pub finish_add : Action S Reply
  unfolding all_received
  finish_add = do
    x ← session
    if all_received x.expecting
        then (modify (λ y. record y { complete = true }) >> pure merged)
        else pure waiting

  pub handle_add : Incoming → Action S Reply
  unfolding finish_add
  handle_add u = do_add_file w u >> finish_add

  abbrev pub reply_and_go :
      (Session × S → Option (List Reply × (Session × S)))
      → Outcome Reply × (Session × S)
      → Option (List Reply × (Session × S))
  reply_and_go rest (ok r, s) = prepend r (rest s)
  reply_and_go rest (err e, s) = prepend (failed e) (rest s)
  reply_and_go rest (fault, s) = none

  -- The loop of `handler` over the files that come in; `none` is a panic.
  pub run_handler : List Incoming → Session × S → Option (List Reply × (Session × S))
  unfolding handle_add
  run_handler [] s = some ([], s)
  run_handler (u ∷ us) s = reply_and_go (run_handler us) (handle_add u s)
