-- ===== src/Release/Child/Tests.antt =====
-- Two children of a release whose version is 9.
use godinstall.Prelude.{ℕ, ◌+◌, ◌≡◌, refl, List, [], ◌∷◌, codes, length, pos, arith}
use godinstall.Strconv.{format_nat}
use godinstall.Release.Index.{StoreId}
use godinstall.Release.Record.{Release}
use godinstall.Release.Child.{descendant, descendant_lem}

abbrev ninth : Release
ninth = record {
  parent_id = [];
  index_id = 1 ∷ [];
  code_name = codes "stable";
  suite = codes "stable";
  description = [];
  version = format_nat 9;
  date = 0;
  components = [];
  in_release = [];
  release = [];
  release_gpg = [];
  actions = [];
  trim_after = pos 3;
  config_id = 2 ∷ [];
}

abbrev steps : List (StoreId × ℕ)
steps = (5 ∷ [], 10) ∷ (6 ∷ [], 20) ∷ []

descendant_lem_example :
    ((descendant ninth steps).version ≡ format_nat (9 + length steps))
    × ((descendant ninth steps).index_id ≡ ninth.index_id)
    × ((descendant ninth steps).config_id ≡ ninth.config_id)
    × ((descendant ninth steps).trim_after ≡ ninth.trim_after)
descendant_lem_example = descendant_lem 9 ninth steps refl (omega arith)
