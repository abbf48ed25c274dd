-- ===== src/Changes.antt =====
-- changes.go: the record of a changes file, which lists the files of an upload with their hashes.
pub mod Hashes
pub mod Parse
pub mod Lone
pub mod Format
use godinstall.Prelude.{ℕ, List, Option, none, some, [], Bytes, ℤ, bytes_Eq}
use godinstall.DebVersion.{DebVersion}
use godinstall.Control.{ControlFile}
use godinstall.SafeMap.{get}

-- `ChangesFilesHashSet`: the hashes of a file by their names; one that is missing is read as nil.
abbrev pub HashSet : Type 0
HashSet = List (Bytes × Bytes)

abbrev pub or_nil : Option Bytes → Bytes
or_nil none = []
or_nil (some h) = h

unfoldable pub hash_of : HashSet → Bytes → Bytes
unfolding get
hash_of hashes name = or_nil (get hashes name)

-- `ChangesFilesHashMap`, in the order that a range over it takes, which is any.
abbrev pub FileHashes : Type 0
FileHashes = List ((Bytes × ℤ) × HashSet)

-- The date is the time in nanoseconds.
pub record ChangesFile : Type 0 where
  pub control : ControlFile
  pub date : ℕ
  pub binaries : List Bytes
  pub binary_version : DebVersion
  pub architectures : List Bytes
  pub source : Bytes
  pub source_version : DebVersion
  pub file_hashes : FileHashes

-- The errors of LoneChanges and ParseDebianChanges, in the order of the code, and `fault`, a panic.
pub data Fault : Type 0 where
  no_name control_failed paragraphs_count : Fault
  missing_field : Bytes → Fault
  malformed_entry malformed_hash mismatch bad_date corrupt_source corrupt_version fault : Fault

pub data Parsed (A : Type 0) : Type 0 where
  parsed : A → Parsed A
  wrong : Fault → Parsed A

infixl 5 ◌>>=◌ ◌>>◌
abbrev pub ◌>>=◌ : {A B : Type 0} → Parsed A → (A → Parsed B) → Parsed B
parsed a >>= f = f a
wrong e >>= f = wrong e

abbrev pub ◌>>◌ : {B : Type 0} → Parsed (Unit {0}) → Parsed B → Parsed B
m >> k = m >>= λ _. k

abbrev pub or_wrong : {A : Type 0} → Fault → Option A → Parsed A
or_wrong e none = wrong e
or_wrong e (some a) = parsed a
