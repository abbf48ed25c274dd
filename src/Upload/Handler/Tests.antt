-- ===== src/Upload/Handler/Tests.antt =====
-- Sessions that run from their first request to their merge.
use godinstall.Prelude.{
  ◌≡◌, refl, true, false, List, [], ◌∷◌, Option, none, some, Bytes, bytes_Eq, codes, pos,
}
use godinstall.SafeMap.{get, put}
use godinstall.Changes.{ChangesFile, hash_of}
use godinstall.Deb.{gives, fails}
use godinstall.Release.Entry.{has_suffix}
use godinstall.Release.Record.{ReleaseConfig}
use godinstall.Upload.{Session, Incoming, World, not_in_upload_set, already_uploaded, hash_mismatch}
use godinstall.Upload.Monad.{
  ◌>>=◌, ◌>>◌, pure, guard, or_raise, or_panic, session, modify, in_store,
}
use godinstall.Upload.AddFile.{
  do_add_file, find_index, find_slot, change_file, check_hashes, receive, hashes_at,
}
use godinstall.Upload.AddFile.Checked.{IsSound}
use godinstall.Upload.Handler.{
  expect_files, new_upload_session, all_received, finish_add, handle_add, Reply, failed, waiting,
  merged, run_handler,
}
use godinstall.Upload.Handler.Sound.{
  SomePanics, Begins, new_upload_session-Begins, Ran, run_handler-Ran,
}
use godinstall.Upload.Handler.Merges.{Orderly, Answers, run_handler-Orderly}

-- A store that keeps the bytes under themselves, and hashes that are the bytes.
abbrev world : World (List Bytes)
world = record {
  put = λ t b. some (b, b ∷ t);
  add_control = λ t f. some ([], t);
  link = λ t id path. some t;
  pub_ring = true;
  read_package = λ b. record {
    name = gives b;
    version = some (record { epoch = pos 0; version = codes "1"; revision = [] });
    architecture = some (codes "all");
    control = gives [];
    is_signed = true;
    is_verified = true;
    signers = some [];
  };
  lone_changes = λ pkg name dist. fails;
  format_changes = λ c. [];
  parse_control_file = λ b. fails;
  run_hook = λ path. none;
  md5 = λ b. b;
  sha1 = λ b. b;
  sha256 = λ b. b;
}

abbrev hashes_of : Bytes → List (Bytes × Bytes)
hashes_of b = (codes "md5", b) ∷ (codes "sha1", b) ∷ (codes "sha256", b) ∷ []

abbrev changes : ChangesFile
changes = record {
  control = record {
    data_paragraphs = [];
    signed = true;
    signature_verified = true;
    signed_by = [];
  };
  date = 0;
  binaries = [];
  binary_version = record { epoch = pos 0; version = codes "1"; revision = [] };
  architectures = [];
  source = codes "p";
  source_version = record { epoch = pos 0; version = codes "1"; revision = [] };
  file_hashes =
      ((codes "p.tar", pos 2), hashes_of (1 ∷ 2 ∷ []))
      ∷ ((codes "q.tar", pos 1), hashes_of (3 ∷ []))
      ∷ [];
}

abbrev config : ReleaseConfig
config = record {
  verify_changes = true;
  verify_changes_sufficient = true;
  verify_debs = true;
  accept_lone_debs = true;
  pool_pattern = [];
  auto_trim = false;
  auto_trim_length = pos 0;
  prune_rules = [];
  public_key_ids = [];
  signing_key_id = [];
}

abbrev begun : Session
begun = record {
  release_name = codes "stable";
  config = config;
  dir = codes "/tmp/1";
  expecting = expect_files changes.file_hashes [];
  lone_deb = false;
  complete = false;
  changes = some changes;
  changes_id = [];
}

abbrev arriving : List Incoming
arriving =
    record { name = codes "x.tar"; content = [] }
    ∷ record { name = codes "p.tar"; content = 1 ∷ [] }
    ∷ record { name = codes "p.tar"; content = 1 ∷ 2 ∷ [] }
    ∷ record { name = codes "q.tar"; content = 3 ∷ [] }
    ∷ record { name = codes "q.tar"; content = 3 ∷ [] }
    ∷ []

abbrev replies : Option (List Reply × (Session × List Bytes)) → List Reply
replies none = []
replies (some (rs, s)) = rs

arriving_files :
    replies (run_handler world arriving (begun, []))
    ≡ failed not_in_upload_set
      ∷ failed hash_mismatch
      ∷ waiting
      ∷ merged
      ∷ failed already_uploaded
      ∷ []
unfolding run_handler handle_add finish_add all_received do_add_file find_slot find_index
    change_file check_hashes receive hash_of has_suffix get put expect_files ◌>>=◌ ◌>>◌ pure guard
    or_raise or_panic session modify in_store hashes_at
arriving_files = refl

new_upload_session-Begins_example :
    Begins world
      (λ b. (changes, true))
      config
      (codes "stable")
      (codes "/tmp/1")
      []
      []
      (new_upload_session world
        (λ b. (changes, true))
        config
        (codes "stable")
        (codes "/tmp/1")
        false
        []
        [])
new_upload_session-Begins_example =
    new_upload_session-Begins world (λ b. (changes, true)) config (codes "stable") (codes "/tmp/1")
      [] []

begun-IsSound : IsSound world changes begun
unfolding Begins new_upload_session
begun-IsSound = new_upload_session-Begins_example.1.0

run_handler-Ran_example : Ran world changes arriving (run_handler world arriving (begun, []))
run_handler-Ran_example = run_handler-Ran world changes arriving (begun, []) begun-IsSound

run_handler-Orderly_example :
    Answers (SomePanics world changes arriving) Orderly (run_handler world arriving (begun, []))
run_handler-Orderly_example = run_handler-Orderly world changes arriving (begun, []) begun-IsSound
