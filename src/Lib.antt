-- ===== src/Lib.antt =====
-- godinstall is an HTTP server that keeps Debian package archives. Uploads arrive in sessions
-- (upload_session.go, upload_manager.go); a finished session is turned into an index entry and
-- merged into the index of a release (releaseindex.go, archive.go) under the release's prune rules
-- (prune.go), which count versions in the order of debversion.go. The new release goes into a
-- content-addressed blob store (store.go, archivestore.go) whose garbage collector drops what no
-- release refers to. The files of the program stand at the root of the repository.
--
-- Go strings and byte slices are lists of bytes, an `int` is an integer whose bounds the values
-- of the program do not reach, an error result is an Option or a sum, and a panic is `none` of an
-- outer Option. A struct is a record, a closure with variables a state that is passed on.
--
-- Prelude: tests, lists, integers and equality that the other modules share.
-- Strings, Strconv: what the program uses of Go's packages of these names.
-- DebVersion (debversion.go): `parse` is ParseDebVersion, `to_string` DebVersion.String, `compare`
--   DebVersionCompare, `compare_component` compareComponent. The outer loop runs on fuel, one round
--   more than the two texts have bytes, since each takes a byte or ends (Loops). Key has the order
--   that the loops are meant to decide; Numbers and Refine are about the two.
-- Deb (deb.go): what a package answers, with an error or a panic in place of an answer.
-- Release.Index (releaseindex.go): entries, and `entry_order` and `item_order` for
--   ReleaseIndexEntryOrder and ReleaseIndexEntryItemOrder.
-- Release.Merge (releaseindex.go): `merge` is the walk of mergeEntryIntoRelease over any pruner;
--   `real_change` is the test of AddUpload (archive.go). The upload is one entry, so sorting it
--   changes nothing.
-- Prune (prune.go): `prune` is the closure that MakePruner returns, `parse_rule` and `parse_rules`
--   are ParsePruneRule and ParsePruneRules. A compiled pattern is its MatchString, and
--   regexp.Compile is a parameter.
-- Governor (governor.go): `advance` is one operation of ReadLock, ReadUnLock, WriteLock or
--   WriteUnLock by one goroutine, `run` any schedule of any number of them. A maximum of 0 means no
--   limit, as in the code; a negative one, with which NewGovernor panics, is left out.
-- SafeMap (safemap.go): `get`, `set`, `check` and `delete` of a map with any keys and values.
-- Release.Record (release.go, releaseconfig.go): the stored records of a release and a configuration.
-- Release.Entry (releaseindex.go): `new_release_index_entry` is NewReleaseIndexEntry, over the expected
--   files of a session (upload_session.go) in any order.
-- Release.Child (release.go): `new_child` is NewChild, given the id of the release and the time.
-- Gc (archivestore.go): `walk_release` is gcWalkRelease and `run_gc` runGC, over a record of what the
--   store holds. The loop of a walk runs on fuel, two rounds more than the store has blobs,
--   since all but the first and the last mark a new one (Ends).
-- Trim (trim.go): `trim_history` is TrimHistory over any trimmer, `length_trimmer` the closure of
--   MakeLengthTrimmer. The loop runs on fuel, one round more than the history has commits; the
--   count of passed commits is a number, for the code's int32 is never full.
-- Gc.Collector (archivestore.go): the goroutine that counts the locks of the collector.
-- Control (control.go): `parse_control` is the loop of ParseDebianControl on the text without its
--   signature, `write_paragraphs` WriteDebianControl (Write), `add_value`, `set_value` and `get_value`
--   the operations of a paragraph, whose map is the list of its fields. The scanner stops at a line of
--   `line_limit` bytes.
-- Hex: Go's `encoding/hex`, in which ids of the store are printed and the hashes of changes files stand.
-- Changes (changes.go): `changes_file_hashes` is changesFileHashes (Hashes), `parse_debian_changes` what
--   ParseDebianChanges makes of a parsed control file (Parse), `lone_changes` LoneChanges (Lone), `format_changes_file` FormatChangesFile (Format). The text
--   of a time is a parameter. A map of files is a list, in any order.
-- Upload (upload_session.go): `new_upload_session` is NewUploadSession, `do_add_file` doAddFile, and
--   `run_handler` the loop of handler over the files that come in, in the order they are taken from the
--   channel. They are actions on the session and the store that may fail or panic (Monad). The store,
--   the hook, the hash functions and the reader of packages are a record of functions (World). A link
--   whose hook fails is removed in the code, which the model leaves out.
-- Archive (archive.go, archivestore.go): `dists`, `get_dist`, `set_dist` and `delete_dist` over the releases, the
--   configurations and the refs of the store; ids are the hashes of the records, which are parameters.
-- Archive.AddUpload (archive.go, release.go): `add_upload` is AddUpload from the files of a session on, and
--   `child_of` NewRelease. It has the merge, the child of a release and the trim from Release and Trim; the loop of
--   the trim runs on one round more than the store has releases. The request for a collection at the end
--   is left out.
-- Archive.Config (config_handlers.go): `config_put` and `config_get` are doHTTPConfigPutHandler and
--   doHTTPConfigGetHandler. The files that updateReleasefiles makes and ReifyRelease are a record of functions.
--
-- Not modelled: the rest of the HTTP layer, the files of the store, the text of index files, the reader of packages,
-- hooks, the command line, logging, OpenPGP signatures, and the vendored packages.
mod Prelude
pub mod Strings
pub mod Strconv
pub mod Deb
pub mod DebVersion
pub mod Release
pub mod Prune
pub mod SafeMap
pub mod Trim
pub mod Hex
pub mod Control
pub mod Changes
pub mod Upload
pub mod Archive
pub mod Gc
pub mod Governor
