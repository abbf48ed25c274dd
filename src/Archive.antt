-- ===== src/Archive.antt =====
-- archive.go, archivestore.go: the distributions of an archive, over a store of releases and configurations. A file that
-- cannot be read or written is left out; gob, which writes a record as the bytes that are hashed, is a parameter.
pub mod Dists
pub mod Config
pub mod AddUpload
use godinstall.Prelude.{
  ℕ, Bool, true, false, not, ◌&&◌, ◌||◌, ◌==◌, is_nil, List, [], ◌∷◌, ◌++◌, Option, none, some,
  Bytes, bytes_Eq, codes, if◌then◌else◌,
}
use godinstall.SafeMap.{get, put, delete, check}
use godinstall.Release.Index.{StoreId}
use godinstall.Release.Record.{Release, ReleaseConfig}

-- What the store holds: the records by their ids, and the ids of the refs by their names.
pub record Objects : Type 0 where
  pub releases : List (StoreId × Release)
  pub configs : List (StoreId × ReleaseConfig)
  pub tags : List (Bytes × StoreId)

-- A result or one of two errors: that there is no such file (`os.IsNotExist`), and another.
pub data Found (A : Type 0) : Type 0 where
  found : A → Found A
  missing refused : Found A

-- `strings.Index(s, "/") != -1`.
unfoldable pub has_slash : Bytes → Bool
has_slash [] = false
has_slash (c ∷ s) = (c == 47) || has_slash s

abbrev pub head_tag : Bytes → Bytes
head_tag name = codes "heads/" ++ name

-- `strings.HasPrefix` and `strings.TrimPrefix` at once.
unfoldable pub trim_prefix : Bytes → Bytes → Option Bytes
trim_prefix [] s = some s
trim_prefix (p ∷ ps) [] = none
trim_prefix (p ∷ ps) (c ∷ s) = let rest = trim_prefix ps s in if p == c then rest else none

abbrev pub with_dist : Option Bytes → StoreId → List (Bytes × StoreId) → List (Bytes × StoreId)
with_dist none id dists = dists
with_dist (some name) id dists = if has_slash name then dists else (name, id) ∷ dists

-- The loop of `Dists`.
unfoldable pub dists_of : List (Bytes × StoreId) → List (Bytes × StoreId)
unfolding trim_prefix has_slash
dists_of [] = []
dists_of ((tag, id) ∷ tags) = with_dist (trim_prefix (codes "heads/") tag) id (dists_of tags)

unfoldable pub dists : Objects → List (Bytes × StoreId)
unfolding dists_of
dists s = dists_of s.tags

abbrev pub with_id : StoreId → Option Release → Found (StoreId × Release)
with_id id none = missing
with_id id (some r) = found (id, r)

-- A release as GetRelease returns it, with its id.
abbrev pub release_at : Objects → Option StoreId → Found (StoreId × Release)
release_at s none = missing
release_at s (some id) = with_id id (get s.releases id)

unfoldable pub get_dist : Objects → Bytes → Found (StoreId × Release)
unfolding get has_slash
get_dist s name = if has_slash name then refused else release_at s (get s.tags (head_tag name))

-- `none` is the error of a name with a slash, or of SetRef, which refuses `heads/`, the ref of the empty name.
unfoldable pub set_dist : Bytes → StoreId → Objects → Option Objects
unfolding put has_slash
set_dist name id s =
    if has_slash name || is_nil name
    then none
    else some (record s { tags = put s.tags (head_tag name) id })

-- A tag that is not there cannot be deleted. The directory of the distribution is left out.
unfoldable pub delete_dist : Bytes → Objects → Option Objects
unfolding delete has_slash check
delete_dist name s =
    if has_slash name
    then none
    else if check s.tags (head_tag name)
    then some (record s { tags = delete s.tags (head_tag name) })
    else none

module _ (release_id : Release → StoreId) (config_id : ReleaseConfig → StoreId) where
  unfoldable pub add_release : Release → Objects → StoreId × Objects
  unfolding put
  add_release r s = (release_id r, record s { releases = put s.releases (release_id r) r })

  unfoldable pub add_release_config : ReleaseConfig → Objects → StoreId × Objects
  unfolding put
  add_release_config c s = (config_id c, record s { configs = put s.configs (config_id c) c })

-- `Release.Config`; where the configuration cannot be read it is the empty one.
abbrev pub config_or : ReleaseConfig → Option ReleaseConfig → ReleaseConfig
config_or other none = other
config_or other (some c) = c
