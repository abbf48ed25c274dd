-- ===== src/Changes/Hashes.antt =====
-- changes.go, changesFileHashes: the files of an upload, from the three fields of a changes file that list them.
pub mod Listed
use godinstall.Prelude.{
  ℕ, Bool, true, false, not, ◌&&◌, ◌||◌, ◌==◌, zero, suc, List, [], ◌∷◌, Option, none, some, Bytes,
  bytes_Eq, int_Eq, pair_Eq, codes, ℤ, length, if◌then◌else◌,
}
use godinstall.Strconv.{parse_int}
use godinstall.Strings.{cons_head}
use godinstall.Hex.{decode}
use godinstall.SafeMap.{get, put, check}
use godinstall.Control.{Paragraph, space_width}
use godinstall.Changes.{
  HashSet, FileHashes, hash_of, Parsed, parsed, wrong, ◌>>=◌, ◌>>◌, or_wrong, malformed_entry,
  malformed_hash, mismatch, Fault, fault,
}

-- Whether a text begins with a byte of a word.
abbrev pub starts_word : Bytes → Bool
starts_word [] = false
starts_word (c ∷ s) = space_width (c ∷ s) == 0

-- The words of a text from its first byte on, given how many bytes of white space are there.
abbrev pub with_word : ℕ → ℕ → Bytes → (ℕ → List Bytes) → List Bytes
with_word (suc k) c s next = next k
with_word zero c s next = if starts_word s then cons_head c (next 0) else (c ∷ []) ∷ next 0

unfoldable pub fields_from : ℕ → Bytes → List Bytes
fields_from k [] = []
fields_from (suc k) (c ∷ s) = fields_from k s
fields_from zero (c ∷ s) = with_word (space_width (c ∷ s)) c s (λ k. fields_from k s)

-- `strings.Fields`: the words between white space.
unfoldable pub fields : Bytes → List Bytes
unfolding fields_from
fields s = fields_from 0 s

-- The hash, the size and the name of a line of three or five words.
abbrev pub describe : List Bytes → Option (Bytes × (Bytes × Bytes))
describe (h ∷ s ∷ n ∷ []) = some (h, (s, n))
describe (h ∷ s ∷ section ∷ priority ∷ n ∷ []) = some (h, (s, n))
describe _ = none

-- The index of a file: a size that is no number is read as the nearest one, its error is dropped.
abbrev pub index_of : Bytes × Bytes → Bytes × ℤ
index_of (s, n) = (n, (parse_int s 64).0)

unfoldable pub add_record : Bytes → FileHashes → Bytes → Parsed FileHashes
unfolding fields decode put
add_record name records line = do
  d ← or_wrong malformed_entry (describe (fields line))
  h ← or_wrong malformed_hash (decode d.0)
  parsed (put records (index_of d.1) ((name, h) ∷ []))

unfoldable pub add_records : Bytes → List Bytes → FileHashes → Parsed FileHashes
unfolding add_record
add_records name [] records = parsed records
add_records name (l ∷ ls) records = add_record name records l >>= add_records name ls

-- The lines of a field but the first; a field of no lines is a fault, one that is missing lists nothing.
abbrev pub records_of : Bytes → Option (List Bytes) → Parsed FileHashes
records_of name none = parsed []
records_of name (some []) = wrong fault
records_of name (some (l ∷ ls)) = add_records name ls []

-- The closure `f2hs`.
unfoldable pub f2hs : Paragraph → Bytes → Bytes → Parsed FileHashes
unfolding add_records get
f2hs para field name = records_of name (get para field)

unfoldable pub all_in : FileHashes → FileHashes → Bool
unfolding check
all_in [] others = true
all_in ((i, v) ∷ m) others = check others i && all_in m others

-- The two tests of a list of checksums against that of the MD5 sums.
unfoldable pub compare_counts : FileHashes → FileHashes → Parsed (Unit {0})
unfolding all_in
compare_counts md5s others =
    if not (length others == 0) && not (length others == length md5s)
    then wrong mismatch
    else if all_in md5s others
    then parsed tt
    else wrong mismatch

abbrev pub with_hash : Option HashSet → Bytes → HashSet → HashSet
with_hash none name v = v
with_hash (some s) name v = put v name (hash_of s name)

-- The hashes of every file in one set.
unfoldable pub join_hashes : FileHashes → FileHashes → FileHashes → FileHashes
unfolding get put hash_of
join_hashes [] sha1s sha256s = []
join_hashes ((i, v) ∷ md5s) sha1s sha256s =
    (i, with_hash (get sha256s i) (codes "sha256") (with_hash (get sha1s i) (codes "sha1") v))
    ∷ join_hashes md5s sha1s sha256s

-- `changesFileHashes`.
unfoldable pub changes_file_hashes : Paragraph → Parsed FileHashes
unfolding f2hs compare_counts join_hashes
changes_file_hashes para = do
  md5s ← f2hs para (codes "Files") (codes "md5")
  sha1s ← f2hs para (codes "Checksums-Sha1") (codes "sha1")
  compare_counts md5s sha1s
  sha256s ← f2hs para (codes "Checksums-Sha256") (codes "sha256")
  compare_counts md5s sha256s
  parsed (join_hashes md5s sha1s sha256s)
